-- ===== src/Prelude/Decimal.antt =====
-- `%d` of `printf` on numbers that are not negative, and `atoi`.
use Prim.Native.Nat.{ℕ, zero, suc, ◌+◌, ◌-◌, ◌*◌, ◌/◌, ◌%◌, ◌<◌}
use mathlib.Core.Path.{◌≡◌, sym, ap, ◌∙◌}
use mathlib.Core.Logic.{inl, inr}
use mathlib.Core.Bool.{true, false}
use mathlib.Core.List.{[], ◌∷◌, ◌++◌, append_assoc}
use native.Mathlib.Omega.{arith}
use rmsgw.Prelude.Tests.{ltb, ◌==◌, if◌then◌else◌, Bool-cases}
use rmsgw.Prelude.Strings.{Str, isspace, isdigit}
use rmsgw.Prelude.Int.{ℤ, pos, negsuc}

-- The digits of `n`, by `fuel` divisions at most.
unfoldable pub decimal_digits : ℕ → ℕ → Str
decimal_digits zero n = []
decimal_digits (suc fuel) n =
    let front = decimal_digits fuel (n / 10) in
    if ltb n 10 then (48 + n) ∷ [] else front ++ (48 + n % 10) ∷ []

-- A number has at most as many digits as one more than itself.
unfoldable pub decimal : ℕ → Str
unfolding decimal_digits
decimal n = decimal_digits (suc n) n

-- The value of the digits at the start of a string, behind the digits that make `acc`.
unfoldable pub digits_value : ℕ → Str → ℕ
digits_value acc [] = acc
digits_value acc (c ∷ s) =
    let rest = digits_value (acc * 10 + (c - 48)) s in if isdigit c then rest else acc

unfoldable pub skip_spaces : Str → Str
skip_spaces [] = []
skip_spaces (c ∷ s) = if isspace c then skip_spaces s else c ∷ s

negate : ℕ → ℤ
negate zero = pos zero
negate (suc n) = negsuc n

signed_value : Str → ℤ
signed_value [] = pos 0
signed_value (c ∷ s) =
    if c == b'-'
    then negate (digits_value 0 s)
    else if c == b'+'
    then pos (digits_value 0 s)
    else pos (digits_value 0 (c ∷ s))

unfoldable pub atoi : Str → ℤ
unfolding signed_value skip_spaces negate digits_value isspace isdigit
atoi s = signed_value (skip_spaces s)

-- Only the digits that the fuel reaches are printed, and it reaches all.
digits_value-decimal_digits :
    (fuel n : ℕ) (rest : Str)
    → n < fuel
    → digits_value 0 (decimal_digits fuel n ++ rest) ≡ digits_value n rest
unfolding decimal_digits digits_value isdigit
digits_value-decimal_digits zero n rest h = absurd (omega arith)
digits_value-decimal_digits (suc fuel) n rest h = elim (Bool-cases (ltb n 10)) [
  | inl small ↦ rw small (ground arith)
  | inr large ↦ rw large (
      ap (digits_value 0) (append_assoc (decimal_digits fuel (n / 10)) ((48 + n % 10) ∷ []) rest)
      ∙ digits_value-decimal_digits fuel (n / 10) ((48 + n % 10) ∷ rest) (ground arith)
      ∙ ground arith)
]

-- A printed number begins with a digit.
pub decimal_digits_head :
    (fuel n : ℕ)
    → n < fuel
    → (c : ℕ) × (s : Str) × (decimal_digits fuel n ≡ c ∷ s) × (isdigit c ≡ true)
unfolding decimal_digits isdigit
decimal_digits_head zero n h = absurd (omega arith)
decimal_digits_head (suc fuel) n h = elim (Bool-cases (ltb n 10)) [
  | inl small ↦ (48 + n, [], rw small, ground arith)
  | inr large ↦
      let (c, s, e, d) = decimal_digits_head fuel (n / 10) (ground arith) in
      (c, s ++ (48 + n % 10) ∷ [], rw (large, e), d)
]

signed_value-digit :
    (c : ℕ) (s : Str)
    → isdigit c ≡ true
    → signed_value (skip_spaces (c ∷ s)) ≡ pos (digits_value 0 (c ∷ s))
unfolding signed_value skip_spaces isspace isdigit
signed_value-digit c s h = ground arith

-- `atoi` reads back a printed number in front of a byte that is no digit.
pub atoi-decimal : (n c : ℕ) (rest : Str) → isdigit c ≡ false → atoi (decimal n ++ c ∷ rest) ≡ pos n
unfolding atoi decimal
atoi-decimal n c rest h =
    let (d, s, e, digit) = decimal_digits_head (suc n) n (omega arith) in
    let value = digits_value-decimal_digits (suc n) n (c ∷ rest) (omega arith) in
    rw e (
      signed_value-digit d (s ++ c ∷ rest) digit
      ∙ ap pos (ap (λ y. digits_value 0 (y ++ c ∷ rest)) (sym e) ∙ value ∙ ground arith))
