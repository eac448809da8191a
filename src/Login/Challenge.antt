-- ===== src/Login/Challenge.antt =====
-- lib/sglchallenge.c: the response to a challenge of the CMS. The MD5 digest (lib/md5.c, a copy of
-- another project's code) is an argument. The machine is little-endian; `<endian.h>` defines
-- `__BIG_ENDIAN` on every machine, so the first branch of the `#ifdef` is the one compiled.
use rmsgw.Prelude.{
  ℕ, zero, suc, ◌+◌, ◌-◌, ◌*◌, ◌/◌, ◌%◌, ◌^◌, ◌<◌, ◌≡◌, refl, ◌∙◌, [], ◌∷◌, ◌++◌, arith, ltb,
  if◌then◌else◌, length, get_or, take, drop, replicate, length-append, Str, decimal,
}

abbrev pub salt : Str
salt =
    77 ∷ 197 ∷ 101 ∷ 206 ∷ 190 ∷ 249 ∷ 93 ∷ 200 ∷ 51 ∷ 243 ∷ 93 ∷ 237 ∷ 71 ∷ 94 ∷ 239 ∷ 138 ∷ 68
    ∷ 108 ∷ 70 ∷ 185 ∷ 225 ∷ 137 ∷ 217 ∷ 16 ∷ 51 ∷ 122 ∷ 193 ∷ 48 ∷ 194 ∷ 195 ∷ 198 ∷ 175 ∷ 172
    ∷ 169 ∷ 70 ∷ 84 ∷ 61 ∷ 62 ∷ 104 ∷ 186 ∷ 114 ∷ 52 ∷ 61 ∷ 168 ∷ 66 ∷ 129 ∷ 192 ∷ 208 ∷ 187 ∷ 249
    ∷ 232 ∷ 193 ∷ 41 ∷ 113 ∷ 41 ∷ 45 ∷ 240 ∷ 16 ∷ 29 ∷ 228 ∷ 208 ∷ 228 ∷ 61 ∷ 20 ∷ []

-- The value of the union's bytes as a `uint32_t`.
abbrev int_val : ℕ → ℕ → ℕ → ℕ → ℕ
int_val b0 b1 b2 b3 = b0 + 2 ^ 8 * b1 + 2 ^ 16 * b2 + 2 ^ 24 * b3

-- `ChallengedPassword`. `& 0x3f` on a byte is `% 64`.
unfoldable pub challenged_password : (Str → Str) → Str → Str → ℕ
challenged_password md5 challenge_phrase password =
    let digest = md5 (challenge_phrase ++ (password ++ take 64 salt)) in
    int_val (get_or digest 0 0) (get_or digest 1 0) (get_or digest 2 0) (get_or digest 3 0 % 64)

-- `%010d` of a number that is not negative.
unfoldable pub padded : ℕ → Str → Str
padded width s = replicate (width - length s) b'0' ++ s

-- `%010d` reads the unsigned value as an `int`: a value of 2 ^ 31 or more is printed as negative.
unfoldable pub format_010d : ℕ → Str
unfolding padded
format_010d n =
    if ltb n (2 ^ 31) then padded 10 (decimal n) else b'-' ∷ padded 9 (decimal (2 ^ 32 - n))

-- `respStr` and the pointer two bytes into it.
unfoldable pub resp_str : (Str → Str) → Str → Str → Str
resp_str md5 challenge pass = format_010d (challenged_password md5 challenge pass)

unfoldable pub sgl_challenge_response : (Str → Str) → Str → Str → Str
unfolding resp_str
sgl_challenge_response md5 challenge pass = drop 2 (resp_str md5 challenge pass)

-- The last `k` decimal digits of `n`, with leading zeros.
abbrev pub last_digits : ℕ → ℕ → Str
last_digits zero n = []
last_digits (suc k) n = last_digits k (n / 10) ++ (48 + n % 10) ∷ []

length-last_digits : (k n : ℕ) → length (last_digits k n) ≡ k
length-last_digits zero n = refl
length-last_digits (suc k) n =
    length-append (last_digits k (n / 10)) ((48 + n % 10) ∷ [])
    ∙ omega (arith, length-last_digits k (n / 10))

abbrev pub IsByte : ℕ → Type 0
IsByte n = n < 256
