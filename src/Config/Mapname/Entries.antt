-- ===== src/Config/Mapname/Entries.antt =====
-- Which values lib/mapname.c finds in a map file that is made of entries.
use rmsgw.Prelude.{
  ℕ, zero, suc, ◌+◌, ◌≤◌, ◌<◌, ◌≡◌, refl, ap, ◌∙◌, inl, inr, Bool, true, false, ◌&&◌, Option, none,
  some, List, [], ◌∷◌, ◌++◌, arith, ltb, ◌==◌, if◌then◌else◌, Bool-cases, Option-cases, length,
  take, drop, All, length-append, Str, codes, streq, streq_iff, strneq, c_str, IsCStr, lacks,
  lacks_lem, pos, fgets_lines, lines_from, fgets_lines-append, Lacks,
}
use rmsgw.Text.Trim.{strtrim_trailing, chars, LastOutside}
use rmsgw.Config.Mapname.{MapState, fmapname, find_entry, map_loop, fgetline, fgetline_all}

-- A name with its value, and the text of a file.
abbrev pub NamedValue : Type 0
NamedValue = Str × Str

abbrev pub entry_text : NamedValue → Str
entry_text (name, value) = name ++ (b'=' ∷ value)

abbrev pub text_of : List NamedValue → Str
text_of [] = []
text_of (e ∷ entries) = entry_text e ++ (b'\n' ∷ text_of entries)

-- The value of the first entry with a name.
abbrev pub value_in : List NamedValue → Str → Option Str
value_in [] l = none
value_in ((name, value) ∷ entries) l = if streq l name then some value else value_in entries l

-- An entry that fits one line of the file and does not end with a blank, and a name that fits
-- `namebuf`.
abbrev pub IsEntry : NamedValue → Type 0
IsEntry (name, value) =
    Lacks b'=' name
    × Lacks b'\n' (name ++ (b'=' ∷ value))
    × IsCStr (name ++ (b'=' ∷ value))
    × LastOutside (chars (codes " \t")) (name ++ (b'=' ∷ value))
    × (length (name ++ (b'=' ∷ value)) + 1 < 2048)

abbrev pub IsLogical : Str → Type 0
IsLogical l = Lacks b'=' l × (length l < 255)

-- The test of `IsLogical`.
abbrev are_logical : List Str → Bool
are_logical [] = true
are_logical (l ∷ logical) = lacks b'=' l && ltb (length l) 255 && are_logical logical

pub are_logical_lem : (logical : List Str) → are_logical logical ≡ true → All IsLogical logical
are_logical_lem [] h = tt
are_logical_lem (l ∷ logical) h =
    ((lacks_lem b'=' l (ground arith), ground arith), are_logical_lem logical (ground arith))

pub fgetline-concat : (s : Str) → fgetline (s ++ b'\n' ∷ []) ≡ s
unfolding fgetline
fgetline-concat [] = refl
fgetline-concat (c ∷ []) = refl
fgetline-concat (c ∷ x ∷ s) = ap (λ t. c ∷ t) (fgetline-concat (x ∷ s))

pub c_str-concat : (s : Str) → IsCStr s → c_str (s ++ b'\n' ∷ []) ≡ s ++ b'\n' ∷ []
unfolding c_str
c_str-concat [] h = refl
c_str-concat (zero ∷ s) (h, hs) = absurd (omega arith)
c_str-concat (suc c ∷ s) (h, hs) = ap (λ t. suc c ∷ t) (c_str-concat s hs)

take_all : (k : ℕ) (s : Str) → length s ≤ k → take k s ≡ s
take_all zero [] h = refl
take_all zero (c ∷ s) h = absurd (omega arith)
take_all (suc k) [] h = refl
take_all (suc k) (c ∷ s) h = ap (λ t. c ∷ t) (take_all k s (omega arith))

strneq-name :
    (l name value : Str)
    → Lacks b'=' l
    → Lacks b'=' name
    → strneq (l ++ b'=' ∷ []) (name ++ (b'=' ∷ value)) (length (l ++ b'=' ∷ [])) ≡ streq l name
unfolding strneq streq
strneq-name [] [] value h k = refl
strneq-name [] (y ∷ ys) value h k = ground (arith, k.0)
strneq-name (x ∷ xs) [] value h k = ground (arith, h.0)
strneq-name (x ∷ xs) (y ∷ ys) value h k = ap (λ t. x == y && t) (strneq-name xs ys value h.1 k.1)

drop-name : (l value : Str) → drop (length (l ++ b'=' ∷ [])) (l ++ (b'=' ∷ value)) ≡ value
drop-name [] value = refl
drop-name (c ∷ l) value = drop-name l value

find_entry-text :
    (entries : List NamedValue) (l : Str)
    → All IsEntry entries
    → IsLogical l
    → find_entry (take 255 (l ++ b'=' ∷ [])) (fgetline_all (fgets_lines 2048 (text_of entries)))
      ≡ value_in entries l
unfolding find_entry
find_entry-text [] l h k = unfold fgets_lines lines_from in refl
find_entry-text ((name, value) ∷ entries) l ((h1, h2, h3, h4, h5), hs) (k1, k2) =
    let line = name ++ (b'=' ∷ value) in
    let again = find_entry-text entries l hs (k1, k2) in
    let whole : take 255 (l ++ b'=' ∷ []) ≡ l ++ b'=' ∷ [] =
      take_all 255 (l ++ b'=' ∷ []) (omega (arith, length-append l (b'=' ∷ []))) in
    rw
      (
        fgets_lines-append 2048 line (text_of entries) h5 h2,
        c_str-concat line h3,
        fgetline-concat line,
        strtrim_trailing line (codes " \t") h4,
        again,
        whole,
        strneq-name l name value k1 h1,
      )
      (elim (Bool-cases (streq l name)) [
        | inl same ↦
            let e : l ≡ name = (streq_iff l name).0 same in
            rw same
              (ap some (ap (λ t. drop (length (t ++ b'=' ∷ [])) line) e ∙ drop-name name value))
        | inr other ↦ rw other refl
      ])

abbrev pub values : List NamedValue → List Str → List (Option Str)
values entries [] = []
values entries (l ∷ logical) = value_in entries l ∷ values entries logical

map_loop-text :
    (entries : List NamedValue) (st : MapState) (logical : List Str)
    → All IsEntry entries
    → All IsLogical logical
    → st.fail_on_not_found ≡ false
    → map_loop (fgetline_all (fgets_lines 2048 (text_of entries))) st logical ≡ record {
      physical = values entries logical;
      st = record st { map_logical = none };
      rc = pos 0;
    }
unfolding map_loop
map_loop-text entries st [] h ks off = refl
map_loop-text entries st (l ∷ logical) h (k, ks) off =
    rw (find_entry-text entries l h k, map_loop-text entries st logical h ks off)
      (elim (Option-cases (value_in entries l)) [
        | inl missing ↦ rw (missing, off) refl
        | inr (v, found) ↦ rw found refl
      ])

-- From a file of entries of the form `name=value`, each of which fits a line, ends with no blank
-- and has no `=` in its name, and with names that have no `=` and fit the buffer, `fmapname` gives
-- each name the value of its first entry and NULL to a name without one, and succeeds, when names
-- that are not found are no error.
pub fmapname_lem :
    (entries : List NamedValue) (st : MapState) (logical : List Str)
    → All IsEntry entries
    → All IsLogical logical
    → st.fail_on_not_found ≡ false
    → fmapname (some (text_of entries)) st logical ≡ record {
      physical = values entries logical;
      st = record st { map_logical = none };
      rc = pos 0;
    }
unfolding fmapname
fmapname_lem entries st logical h ks off = map_loop-text entries st logical h ks off
