-- ===== src/Login/Sgl/Sending.antt =====
-- What `expectsend` of lib/cmslogin.c makes of the result of its `write`.
use rmsgw.Prelude.{
  ℕ, ◌%◌, ◌^◌, ◌≤◌, ◌<◌, ◌≡◌, refl, ◌∙◌, ◌↔◌, ◌⊎◌, inl, inr, false, arith, ltb, if◌then◌else◌,
  Bool-cases, length, Str, ℤ, pos, negsuc, to_size,
}
use rmsgw.Login.Sgl.{succeed, fail, expectsend}

-- The results of a `write` of `s`: -1, or the number of the bytes taken.
abbrev pub IsWritten : Str → ℤ → Type 0
IsWritten s r = (r ≡ negsuc 0) ⊎ ((n : ℕ) × (r ≡ pos n) × (n ≤ length s))

expectsend-error :
    (wrote : Str → ℤ) (s : Str)
    → wrote s ≡ negsuc 0
    → length s < 2 ^ 63
    → expectsend wrote s ≡ succeed
unfolding expectsend
expectsend-error wrote s e h =
    let large : ltb (to_size (negsuc 0)) (length s) ≡ false = ground arith in
    elim (Bool-cases (ltb 0 (length s))) [
      | inl some_bytes ↦ rw (some_bytes, e, large) refl
      | inr none_there ↦ rw none_there refl
    ]

pub expectsend-pos :
    (wrote : Str → ℤ) (s : Str) (n : ℕ)
    → wrote s ≡ pos n
    → n ≤ length s
    → length s < 2 ^ 63
    → expectsend wrote s ≡ (if ltb n (length s) then fail else succeed)
unfolding expectsend
expectsend-pos wrote s n e b h =
    let same : n % 2 ^ 64 ≡ n = omega arith in
    elim (Bool-cases (ltb 0 (length s))) [
      | inl some_bytes ↦ rw (some_bytes, e, same) refl
      | inr none_there ↦
          let not_less : ltb n (length s) ≡ false = ground arith in rw (none_there, not_less) refl
    ]

-- For a string shorter than 2 ^ 63 bytes, `expectsend` fails exactly when fewer bytes than the string
-- has were written: a `write` that returns -1 counts as a success.
pub expectsend_lem :
    (wrote : Str → ℤ) (s : Str)
    → IsWritten s (wrote s)
    → length s < 2 ^ 63
    → (expectsend wrote s ≡ fail) ↔ ((n : ℕ) × (wrote s ≡ pos n) × (n < length s))
expectsend_lem wrote s (inl e) h =
    (λ f. absurd (cc (expectsend-error wrote s e h)), λ (n, e', b). absurd (cc))
expectsend_lem wrote s (inr (n, e, b)) h = elim (Bool-cases (ltb n (length s))) [
  | inl less ↦ (λ f. (n, e, ground arith), λ _. expectsend-pos wrote s n e b h ∙ rw less refl)
  | inr all ↦ (
    λ f.
        let done : expectsend wrote s ≡ succeed = expectsend-pos wrote s n e b h ∙ rw all refl in
        absurd (cc),
    λ (m, e', b'). let same : m ≡ n = cc in absurd (ground arith),
  )
]
