-- ===== src/Prelude/Strings.antt =====
-- C strings as the list of their bytes before the NUL, and the libc functions on them that the
-- program uses. A `char` is read as its unsigned value.
use Prim.Native.Nat.{ℕ, zero, suc, ◌+◌, ◌-◌, ◌≤◌}
use Prim.Native.Char.{code}
use Prim.Native.String.{String}
use mathlib.Core.Path.{◌≡◌, refl}
use mathlib.Core.Logic.{◌↔◌}
use mathlib.Core.Bool.{Bool, true, false, not, ◌&&◌, ◌||◌}
use mathlib.Core.List.{List, [], ◌∷◌, ◌++◌}
use native.Mathlib.Omega.{arith}
use rmsgw.Prelude.Tests.{leb, ◌==◌, if◌then◌else◌}
use mathlib.Core.Logic.{◌≢◌}
use rmsgw.Prelude.Lists.{length, drop, All}

abbrev pub Str : Type 0
Str = List ℕ

-- The bytes of a literal.
abbrev pub codes : String → Str
codes String.[] = []
codes (String.◌∷◌ c s) = code c ∷ codes s

-- !strcmp(a, b)
unfoldable pub streq : Str → Str → Bool
streq [] [] = true
streq [] (y ∷ ys) = false
streq (x ∷ xs) [] = false
streq (x ∷ xs) (y ∷ ys) = x == y && streq xs ys

pub streq_iff : (a b : Str) → (streq a b ≡ true) ↔ (a ≡ b)
unfolding streq
streq_iff [] [] = ground arith
streq_iff [] (y ∷ ys) = ground arith
streq_iff (x ∷ xs) [] = ground arith
streq_iff (x ∷ xs) (y ∷ ys) = ground (arith, streq_iff xs ys)

pub streq_refl : (a : Str) → streq a a ≡ true
streq_refl a = (streq_iff a a).1 refl

-- !strncmp(a, b, n)
unfoldable pub strneq : Str → Str → ℕ → Bool
strneq a b zero = true
strneq [] [] (suc n) = true
strneq [] (y ∷ ys) (suc n) = false
strneq (x ∷ xs) [] (suc n) = false
strneq (x ∷ xs) (y ∷ ys) (suc n) = x == y && strneq xs ys n

abbrev pub within : ℕ → ℕ → ℕ → Bool
within lo hi c = leb lo c && leb c hi

-- <ctype.h> in the C locale
unfoldable pub isspace : ℕ → Bool
isspace c = c == b' ' || within 9 13 c

unfoldable pub isdigit : ℕ → Bool
isdigit c = within b'0' b'9' c

unfoldable pub isalnum : ℕ → Bool
isalnum c = within b'a' b'z' c || within b'A' b'Z' c || within b'0' b'9' c

unfoldable pub toupper : ℕ → ℕ
toupper c = if within b'a' b'z' c then c - 32 else c

unfoldable pub tolower : ℕ → ℕ
tolower c = if within b'A' b'Z' c then c + 32 else c

-- A buffer after `n` bytes were stored at its start: what stood behind them stays.
unfoldable pub overlay : Str → Str → Str
overlay fresh old = fresh ++ drop (length fresh) old

-- The C string that starts at a place of a buffer.
unfoldable pub c_str : Str → Str
c_str [] = []
c_str (c ∷ cs) = elim c [ zero ↦ [] | suc k ↦ suc k ∷ c_str cs ]

abbrev pub IsCStr : Str → Type 0
IsCStr [] = Unit
IsCStr (c ∷ cs) = (1 ≤ c) × IsCStr cs

-- The byte `c` does not occur.
abbrev pub Lacks : ℕ → Str → Type 0
Lacks c s = All (λ x. x ≢ c) s

-- The test of `Lacks`.
abbrev pub lacks : ℕ → Str → Bool
lacks c [] = true
lacks c (x ∷ s) = not (x == c) && lacks c s

pub lacks_lem : (c : ℕ) (s : Str) → lacks c s ≡ true → Lacks c s
lacks_lem c [] h = tt
lacks_lem c (x ∷ s) h = (λ e. ground arith, lacks_lem c s (ground arith))

-- The test of `IsCStr`.
abbrev pub is_c_str : Str → Bool
is_c_str [] = true
is_c_str (c ∷ s) = leb 1 c && is_c_str s

pub is_c_str_lem : (s : Str) → is_c_str s ≡ true → IsCStr s
is_c_str_lem [] h = tt
is_c_str_lem (c ∷ s) h = (ground arith, is_c_str_lem s (ground arith))
