-- ===== src/Text/Trim.antt =====
-- lib/strtrim.c. A string is given by its contents, so trimming in place (destination and source
-- the same buffer, as most callers do) and trimming into another buffer are one function.
use rmsgw.Prelude.{
  ℕ, zero, suc, ◌≡◌, refl, sym, ap, ◌∙◌, ◌≢◌, inl, inr, Bool, true, false, not, Option, none, some,
  [], ◌∷◌, ◌++◌, append-nil, append_assoc, arith, ◌==◌, if◌then◌else◌, Bool-cases, All, All-append,
  Str, ℤ, pos, negsuc, is_pos, is_neg,
}
use mathlib.Core.Path.{subst}
use rmsgw.Text.CharSet.{CharSet, mkset, issetmem}

-- The truth value that C gives to the result of `issetmem`.
abbrev pub in_set : CharSet → ℕ → Bool
in_set tset c = not (issetmem tset c == 0)

-- `while (issetmem(&tset, *s)) s++`
skip_leading : CharSet → Str → Str
skip_leading tset [] = []
skip_leading tset (c ∷ s) = let rest = skip_leading tset s in if in_set tset c then rest else c ∷ s

-- The copy loop: `d` is what stands in the destination so far, `mark` the part of it before the
-- mark. At the end of the source the destination is cut at the mark.
copy_marking : CharSet → Str → Str → Str → Str
copy_marking tset [] d mark = mark
copy_marking tset (c ∷ s) d mark =
    let d' = d ++ c ∷ [] in copy_marking tset s d' (if in_set tset c then mark else d')

unfoldable pub strtrim : Str → Str → ℤ → Str
unfolding skip_leading copy_marking
strtrim src trim_chars trim =
    let tset = mkset (record { set_arr = [] }) trim_chars in
    let s = if not (is_pos trim) then skip_leading tset src else src in
    if not (is_neg trim) then copy_marking tset s [] [] else s

abbrev pub head? : Str → Option ℕ
head? [] = none
head? (c ∷ s) = some c

abbrev pub last? : Str → Option ℕ
last? [] = none
last? (c ∷ s) = elim (last? s) [ none ↦ some c | some l ↦ some l ]

last?-concat : (s : Str) (c : ℕ) → last? (s ++ c ∷ []) ≡ some c
last?-concat [] c = refl
last?-concat (x ∷ s) c = rw (last?-concat s c)

abbrev pub chars : Str → CharSet
chars trim_chars = mkset (record { set_arr = [] }) trim_chars

-- Every byte is in the set.
abbrev pub Inside : CharSet → Str → Type 0
Inside tset s = All (λ c. in_set tset c ≡ true) s

-- What the string begins with, if anything, is not in the set.
abbrev pub HeadOutside : CharSet → Str → Type 0
HeadOutside tset s = (c : ℕ) → head? s ≡ some c → in_set tset c ≡ false

abbrev pub LastOutside : CharSet → Str → Type 0
LastOutside tset s = (c : ℕ) → last? s ≡ some c → in_set tset c ≡ false

module _ (tset : CharSet) where
  skip_leading_lem :
      (s : Str)
      → (pre : Str) × (s ≡ pre ++ skip_leading tset s)
        × Inside tset pre
        × HeadOutside tset (skip_leading tset s)
  unfolding skip_leading
  skip_leading_lem [] = ([], refl, tt, λ c e. cc)
  skip_leading_lem (x ∷ s) = elim (Bool-cases (in_set tset x)) [
    | inl member ↦
        let (pre, e, h, out) = skip_leading_lem s in
        (x ∷ pre, rw member (ap (◌∷◌ x) e), (member, h), rw member out)
    | inr other ↦ ([], rw other, tt, rw other (λ c e. ground arith))
  ]

  copy_marking_lem :
      (s d run mark : Str)
      → d ≡ mark ++ run
      → Inside tset run
      → LastOutside tset mark
      → (post : Str) × (d ++ s ≡ copy_marking tset s d mark ++ post)
        × Inside tset post
        × LastOutside tset (copy_marking tset s d mark)
  unfolding copy_marking
  copy_marking_lem [] d run mark e h out = (run, append-nil d ∙ e, h, out)
  copy_marking_lem (x ∷ s) d run mark e h out =
      let d' = d ++ x ∷ [] in
      let shift = sym (append_assoc d (x ∷ []) s) in
      elim (Bool-cases (in_set tset x)) [
        | inl member ↦
            let (post, e', hp, o) =
              copy_marking_lem s d' (run ++ x ∷ []) mark
                (ap (λ y. y ++ x ∷ []) e ∙ append_assoc mark run (x ∷ []))
                (All-append _ run (x ∷ []) h (member, tt)) out in
            (post, rw member (shift ∙ e'), hp, rw member o)
        | inr other ↦
            let (post, e', hp, o) =
              copy_marking_lem s d' [] d' (sym (append-nil d')) tt
                (λ c l. ground (arith, last?-concat d x)) in
            (post, rw other (shift ∙ e'), hp, rw other o)
      ]

  HeadOutside-prefix : (r post : Str) → HeadOutside tset (r ++ post) → HeadOutside tset r
  HeadOutside-prefix [] post h c e = cc
  HeadOutside-prefix (x ∷ r) post h c e = h c e

-- What `strtrim` with the third argument `trim` returns is the source without a prefix and a suffix
-- that lie wholly in the set. With `trim` at most 0 it begins with no byte of the set, and otherwise
-- the prefix is empty; with `trim` at least 0 it ends with no byte of the set, and otherwise the
-- suffix is empty.
pub strtrim_lem :
    (src trim_chars : Str) (trim : ℤ)
    → (pre post : Str) × (src ≡ pre ++ (strtrim src trim_chars trim ++ post))
      × Inside (chars trim_chars) pre
      × Inside (chars trim_chars) post
      × (if not (is_pos trim)
          then HeadOutside (chars trim_chars) (strtrim src trim_chars trim)
          else (pre ≡ []))
      × (if not (is_neg trim)
          then LastOutside (chars trim_chars) (strtrim src trim_chars trim)
          else (post ≡ []))
unfolding strtrim
strtrim_lem src trim_chars (pos zero) =
    let tset = chars trim_chars in
    let (pre, e, hp, out) = skip_leading_lem tset src in
    let s = skip_leading tset src in
    let (post, e', hq, last) = copy_marking_lem tset s [] [] [] refl tt (λ c l. cc) in
    (
      pre,
      post,
      e ∙ ap (◌++◌ pre) e',
      hp,
      hq,
      HeadOutside-prefix tset _ post (subst (HeadOutside tset) e' out),
      last,
    )
strtrim_lem src trim_chars (pos (suc n)) =
    let tset = chars trim_chars in
    let (post, e', hq, last) = copy_marking_lem tset src [] [] [] refl tt (λ c l. cc) in
    ([], post, e', tt, hq, refl, last)
strtrim_lem src trim_chars (negsuc n) =
    let tset = chars trim_chars in
    let (pre, e, hp, out) = skip_leading_lem tset src in
    (pre, [], e ∙ ap (◌++◌ pre) (sym (append-nil _)), hp, tt, out, refl)

module _ (tset : CharSet) where
  skip_leading_fixed : (s : Str) → HeadOutside tset s → skip_leading tset s ≡ s
  unfolding skip_leading
  skip_leading_fixed [] h = refl
  skip_leading_fixed (x ∷ s) h = rw (h x refl)

  copy_marking_fixed :
      (s d mark : Str) → s ≢ [] → LastOutside tset s → copy_marking tset s d mark ≡ d ++ s
  unfolding copy_marking
  copy_marking_fixed [] d mark ne out = absurd (ne refl)
  copy_marking_fixed (x ∷ []) d mark ne out = rw (out x refl)
  copy_marking_fixed (x ∷ y ∷ s) d mark ne out =
      copy_marking_fixed (y ∷ s) (d ++ x ∷ []) _ (λ e. cc) (λ c e. out c (ground arith))
      ∙ append_assoc d (x ∷ []) (y ∷ s)

-- A string that neither begins nor ends with a byte of the set comes back unchanged.
pub strtrim_fixed :
    (src trim_chars : Str)
    → HeadOutside (chars trim_chars) src
    → LastOutside (chars trim_chars) src
    → strtrim src trim_chars (pos 0) ≡ src
unfolding strtrim copy_marking skip_leading
strtrim_fixed [] trim_chars h k = refl
strtrim_fixed (x ∷ s) trim_chars h k =
    rw (skip_leading_fixed (chars trim_chars) (x ∷ s) h)
      (copy_marking_fixed (chars trim_chars) (x ∷ s) [] [] (λ e. cc) k)

-- Trimming at the end leaves a string that does not end with a byte of the set.
pub strtrim_trailing :
    (src trim_chars : Str)
    → LastOutside (chars trim_chars) src
    → strtrim src trim_chars (pos 1) ≡ src
unfolding strtrim copy_marking
strtrim_trailing [] trim_chars k = refl
strtrim_trailing (x ∷ s) trim_chars k =
    copy_marking_fixed (chars trim_chars) (x ∷ s) [] [] (λ e. cc) k
