-- ===== src/Text/CharSet.antt =====
-- lib/set.c and include/set.h: sets of characters as a 256-entry array.
use rmsgw.Prelude.{
  ℕ, zero, suc, ◌%◌, ◌<◌, ◌≡◌, refl, ◌∙◌, Bool, false, ◌||◌, List, [], ◌∷◌, arith, ◌==◌,
  if◌then◌else◌, length, get_or, set, replicate, All, length-replicate, length-set, All-imp, Str,
}

pub record CharSet : Type 0 where
  pub set_arr : List ℕ

unfoldable pub clearset : CharSet → CharSet
clearset the_set = record { set_arr = replicate 256 0 }

-- The `while (*s)` loop of `mkset`.
mark_chars : CharSet → Str → CharSet
mark_chars the_set [] = the_set
mark_chars the_set (c ∷ s) = mark_chars (record { set_arr = set the_set.set_arr c 1 }) s

unfoldable pub mkset : CharSet → Str → CharSet
unfolding mark_chars clearset
mkset the_set s = mark_chars (clearset the_set) s

-- `c & 0xff` is `c % 256`.
unfoldable pub addset : CharSet → ℕ → CharSet
addset the_set c = record { set_arr = set the_set.set_arr (c % 256) 1 }

unfoldable pub issetmem : CharSet → ℕ → ℕ
issetmem the_set c = get_or the_set.set_arr (c % 256) 0

-- `c` is one of the characters of `s`.
abbrev pub has : ℕ → Str → Bool
has c [] = false
has c (x ∷ s) = x == c || has c s

get_or-set :
    (xs : List ℕ) (i j v : ℕ)
    → i < length xs
    → get_or (set xs i v) j 0 ≡ (if i == j then v else get_or xs j 0)
get_or-set [] i j v h = elim h [ ]
get_or-set (x ∷ xs) zero zero v h = refl
get_or-set (x ∷ xs) zero (suc j) v h = ground arith
get_or-set (x ∷ xs) (suc i) zero v h = ground arith
get_or-set (x ∷ xs) (suc i) (suc j) v h = get_or-set xs i j v (omega arith) ∙ ground arith

get_or-replicate : (n j : ℕ) → get_or {A = ℕ} (replicate n 0) j 0 ≡ 0
get_or-replicate zero j = refl
get_or-replicate (suc n) zero = refl
get_or-replicate (suc n) (suc j) = get_or-replicate n j

get_or-mark_chars :
    (s : Str) (t : CharSet) (c : ℕ)
    → length t.set_arr ≡ 256
    → All (λ x. x < 256) s
    → get_or (mark_chars t s).set_arr c 0 ≡ (if has c s then 1 else get_or t.set_arr c 0)
unfolding mark_chars
get_or-mark_chars [] t c n h = refl
get_or-mark_chars (x ∷ s) t c n h = ground (
  arith,
  get_or-mark_chars s (record { set_arr = set t.set_arr x 1 }) c (length-set t.set_arr x 1 ∙ n) h.1,
  get_or-set t.set_arr x c 1 (omega (arith, h.0)),
)

-- After `mkset` on a string of ASCII characters, `issetmem` answers 1 exactly for the characters of
-- the string and 0 for every other byte, whatever the set held before.
pub issetmem-mkset :
    (t : CharSet) (s : Str) (c : ℕ)
    → All (λ x. x < 128) s
    → c < 256
    → issetmem (mkset t s) c ≡ (if has c s then 1 else 0)
unfolding issetmem mkset
issetmem-mkset t s c hs hc =
    let e : c % 256 ≡ c = omega arith in
    rw e (
      get_or-mark_chars s (clearset t) c (length-replicate {A = ℕ} 256 0)
        (All-imp s (λ x h. omega arith) hs)
      ∙ ground (arith, get_or-replicate 256 c))
