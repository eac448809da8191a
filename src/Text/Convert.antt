-- ===== src/Text/Convert.antt =====
-- lib/downcase.c, lib/strcvt.c, lib/syslogmap.c and lib/fgetlinecr.c. The tables of names in the
-- system's <syslog.h> are arguments. `none` is a NULL string.
use rmsgw.Prelude.{
  ℕ, ◌≤◌, ◌≡◌, refl, Option, none, some, List, [], ◌∷◌, arith, ◌==◌, if◌then◌else◌, Str, streq,
  tolower, ℤ, pos,
}

unfoldable pub lowered : Str → Str
lowered [] = []
lowered (c ∷ s) = tolower c ∷ lowered s

unfoldable pub downcase : Option Str → Option Str
unfolding lowered
downcase none = none
downcase (some s) = some (lowered s)

unfoldable pub converted : ℕ → ℕ → Str → Str
converted f t [] = []
converted f t (c ∷ s) = (if c == f then t else c) ∷ converted f t s

unfoldable pub strcvt : Option Str → ℕ → ℕ → Option Str
unfolding converted
strcvt none f t = none
strcvt (some s) f t = some (converted f t s)

abbrev pub Code : Type 0
Code = Str × ℤ

-- The loop over a table of names, with the value for a name that it does not have.
unfoldable pub code_of : ℤ → List Code → Str → ℤ
code_of default [] name = default
code_of default ((c_name, c_val) ∷ table) name =
    let rest = code_of default table name in if streq c_name name then c_val else rest

abbrev pub log_info : ℤ
log_info = pos 6

abbrev pub log_local0 : ℤ
log_local0 = pos 128

unfoldable pub mappriority : List Code → Str → ℤ
unfolding code_of
mappriority prioritynames pri = code_of log_info prioritynames pri

unfoldable pub mapfacility : List Code → Str → ℤ
unfolding code_of
mapfacility facilitynames facility = code_of log_local0 facilitynames facility

-- fgetlinecr: what it makes of a string that `fgets` gave, which is not empty.
unfoldable pub fgetlinecr : Str → Str
fgetlinecr [] = []
fgetlinecr (c ∷ []) = if c == b'\n' then b'\r' ∷ [] else c ∷ []
fgetlinecr (c ∷ x ∷ s) = c ∷ fgetlinecr (x ∷ s)

-- Two names that differ in the case of their letters only.
abbrev pub SameLetters : Str → Str → Type 0
SameLetters [] [] = Unit
SameLetters [] (d ∷ t) = 1 ≤ 0
SameLetters (c ∷ s) [] = 1 ≤ 0
SameLetters (c ∷ s) (d ∷ t) = (tolower c ≡ tolower d) × SameLetters s t

lowered-SameLetters : (s t : Str) → SameLetters s t → lowered s ≡ lowered t
unfolding lowered
lowered-SameLetters [] [] h = refl
lowered-SameLetters [] (d ∷ t) h = absurd (omega arith)
lowered-SameLetters (c ∷ s) [] h = absurd (omega arith)
lowered-SameLetters (c ∷ s) (d ∷ t) (h, hs) = rw (h, lowered-SameLetters s t hs) refl
