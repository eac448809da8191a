-- ===== src/Radio/Sendrf.antt =====
-- lib/sendrf.c: sending a buffer to the radio link. The memory from the start of the caller's
-- buffer on is a list of bytes, of which `len` are the buffer's. Logging and
-- sleeping are left out.
use rmsgw.Prelude.{
  ℕ, zero, suc, ◌+◌, ◌-◌, ◌/◌, ◌%◌, ◌≤◌, min, ◌≡◌, refl, sym, ap, ◌∙◌, inl, inr, Bool, true, false,
  ◌&&◌, Option, none, some, List, [], ◌∷◌, ◌++◌, arith, ltb, ◌==◌, if◌then◌else◌, Bool-cases,
  length, take, drop, replicate, All, Str, ℤ, pos, negsuc,
}

-- What a `write` of `nleft` bytes does: it takes `n` of them, or all when they are fewer, and
-- returns how many; or it returns -1 with `errno` EAGAIN, or with another error.
pub data Wrote : Type 0 where
  took : ℕ → Wrote
  eagain : Wrote
  failed : Wrote

-- A call `write(fd, buf, count)` where `buf` stands `forward` bytes behind the caller's pointer and
-- `back` bytes before that place.
pub record Call : Type 0 where
  pub forward : ℕ
  pub back : ℕ
  pub count : ℕ

-- The variables of the loop.
pub record Sending : Type 0 where
  pub forward : ℕ
  pub back : ℕ
  pub nleft : ℕ
  pub retry_count : ℕ

pub record Sent : Type 0 where
  pub rc : ℤ
  pub calls : List Call

-- opts & SRF_EOLXLATE, opts & SRF_ADDEOL
abbrev pub eolxlate : ℕ → Bool
eolxlate opts = opts % 2 == 1

abbrev pub addeol : ℕ → Bool
addeol opts = (opts / 2) % 2 == 1

unfoldable pub send_length : ℕ → ℕ → ℕ
send_length len opts = if addeol opts then len + 1 else len

-- The translated bytes.
unfoldable pub translate : Bool → Str → Str
translate xlate [] = []
translate xlate (c ∷ s) = (if c == b'\n' && xlate then b'\r' else c) ∷ translate xlate s

-- `sbuf` when the copying is done, with the final end of line.
unfoldable pub sbuf : Str → ℕ → ℕ → Str
unfolding translate
sbuf mem len opts =
    translate (eolxlate opts) (take len mem) ++ (if addeol opts then b'\r' ∷ [] else [])

abbrev call_of : Sending → Call
call_of s = record { forward = s.forward; back = s.back; count = s.nleft }

abbrev then_call : Call → Option Sent → Option Sent
then_call c none = none
then_call c (some out) = some (record out { calls = c ∷ out.calls })

-- `for (nleft = slen; nleft > 0; nleft -= nwritten, buf += nwritten)`: with no result of `write`
-- left, the function has not returned.
unfoldable pub send_loop : ℕ → Sending → List Wrote → Option Sent
send_loop slen s [] =
    if s.nleft == 0 then some (record { rc = pos (slen - s.nleft); calls = [] }) else none
send_loop slen s (took n ∷ results) =
    let rest =
      send_loop slen
        (record s {
          forward = s.forward + min n s.nleft;
          nleft = s.nleft - min n s.nleft;
          retry_count = 0;
        })
        results in
    if s.nleft == 0
    then some (record { rc = pos (slen - s.nleft); calls = [] })
    else then_call (call_of s) rest
send_loop slen s (eagain ∷ results) =
    let rest =
      send_loop slen
        (record s { back = s.back + 1; nleft = s.nleft + 1; retry_count = s.retry_count + 1 })
        results in
    if s.nleft == 0
    then some (record { rc = pos (slen - s.nleft); calls = [] })
    else if ltb 15 (s.retry_count + 1)
    then some (record { rc = negsuc 0; calls = call_of s ∷ [] })
    else then_call (call_of s) rest
send_loop slen s (failed ∷ results) =
    if s.nleft == 0
    then some (record { rc = pos (slen - s.nleft); calls = [] })
    else some (record { rc = negsuc 0; calls = call_of s ∷ [] })

unfoldable pub sendrf : ℕ → ℕ → List Wrote → Option Sent
unfolding send_loop send_length
sendrf len opts results =
    let slen = send_length len opts in
    send_loop slen (record { forward = 0; back = 0; nleft = slen; retry_count = 0 }) results

-- The call with its allocation: when `malloc` fails nothing is written.
unfoldable pub sendrf_allocated : Bool → ℕ → ℕ → List Wrote → Option Sent
unfolding sendrf
sendrf_allocated true len opts results = sendrf len opts results
sendrf_allocated false len opts results = some (record { rc = negsuc 0; calls = [] })

-- The bytes on the link when `write` takes those the results say, from the memory `mem`, while no
-- call stands before the buffer.
abbrev pub transmitted : Str → List Call → List Wrote → Str
transmitted mem (c ∷ calls) (took n ∷ results) =
    take (min n c.count) (drop c.forward mem) ++ transmitted mem calls results
transmitted mem _ _ = []

abbrev pub Partial : Wrote → Type 0
Partial (took n) = 1 ≤ n
Partial eagain = ⊥
Partial failed = ⊥

take-nil : (b : ℕ) → take {A = ℕ} b [] ≡ []
take-nil zero = refl
take-nil (suc b) = refl

drop-nil : (b : ℕ) → drop {A = ℕ} b [] ≡ []
drop-nil zero = refl
drop-nil (suc b) = refl

take-take : (a b : ℕ) (s : Str) → take a s ++ take b (drop a s) ≡ take (a + b) s
take-take zero b s = ap (λ n. take n s) (omega arith)
take-take (suc a) b [] = take-nil b ∙ sym (take-nil (suc a + b))
take-take (suc a) b (c ∷ s) =
    let e : suc (a + b) ≡ suc a + b = omega arith in
    ap (λ t. c ∷ t) (take-take a b s) ∙ ap (λ k. take k (c ∷ s)) e

drop-drop : (a b : ℕ) (s : Str) → drop b (drop a s) ≡ drop (a + b) s
drop-drop zero b s = ap (λ n. drop n s) (omega arith)
drop-drop (suc a) b [] = drop-nil b ∙ sym (drop-nil (suc a + b))
drop-drop (suc a) b (c ∷ s) =
    let e : suc (a + b) ≡ suc a + b = omega arith in drop-drop a b s ∙ ap (λ k. drop k (c ∷ s)) e

abbrev sending : ℕ → ℕ → ℕ → ℕ → Sending
sending forward back nleft retry_count = record {
  forward = forward;
  back = back;
  nleft = nleft;
  retry_count = retry_count;
}

-- The calls of `j` refused writes and the one behind them.
abbrev pub attempts : ℕ → ℕ → ℕ → List Call
attempts zero back nleft = record { forward = 0; back = back; count = nleft } ∷ []
attempts (suc j) back nleft =
    record { forward = 0; back = back; count = nleft } ∷ attempts j (back + 1) (nleft + 1)

module _ (mem : Str) (slen : ℕ) where
  nothing_left :
      (results : List Wrote) (s : Sending)
      → s.nleft ≡ 0
      → send_loop slen s results ≡ some (record { rc = pos slen; calls = [] })
  unfolding send_loop
  nothing_left [] s e = rw e (ap (λ n. some (record { rc = pos n; calls = [] })) (omega arith))
  nothing_left (took n ∷ results) s e =
      rw e (ap (λ n. some (record { rc = pos n; calls = [] })) (omega arith))
  nothing_left (eagain ∷ results) s e =
      rw e (ap (λ n. some (record { rc = pos n; calls = [] })) (omega arith))
  nothing_left (failed ∷ results) s e =
      rw e (ap (λ n. some (record { rc = pos n; calls = [] })) (omega arith))

  send_loop-Partial :
      (results : List Wrote) (forward nleft retry_count : ℕ)
      → All Partial results
      → nleft ≤ length results
      → (calls : List Call) × (send_loop slen (sending forward 0 nleft retry_count) results
          ≡ some (record { rc = pos slen; calls = calls }))
        × (length calls ≤ nleft)
        × (transmitted mem calls results ≡ take nleft (drop forward mem))
  unfolding send_loop
  send_loop-Partial [] forward nleft retry_count h b =
      let e : nleft ≡ 0 = ground arith in
      ([], nothing_left [] (sending forward 0 nleft retry_count) e, omega arith, rw e refl)
  send_loop-Partial (took n ∷ results) forward nleft retry_count (h, hs) b =
      let m = min n nleft in
      let (calls, e, few, t) =
        send_loop-Partial results (forward + m) (nleft - m) 0 hs (ground arith) in
      elim (Bool-cases (nleft == 0)) [
        | inl done ↦
            let z : nleft ≡ 0 = ground arith in
            (
              [],
              nothing_left (took n ∷ results) (sending forward 0 nleft retry_count) z,
              omega arith,
              rw z refl,
            )
        | inr more ↦
            let all : m + (nleft - m) ≡ nleft = omega arith in
            (
              record { forward = forward; back = 0; count = nleft } ∷ calls,
              rw (more, e) refl,
              (let some_left : 1 ≤ nleft = ground arith in omega (arith, few)),
              ap (◌++◌ (take m (drop forward mem)))
                    (t ∙ ap (take (nleft - m)) (sym (drop-drop forward m mem)))
                  ∙ take-take m (nleft - m) (drop forward mem)
                  ∙ ap (λ k. take k (drop forward mem)) all,
            )
      ]
  send_loop-Partial (eagain ∷ results) forward nleft retry_count (h, hs) b = elim h [ ]
  send_loop-Partial (failed ∷ results) forward nleft retry_count (h, hs) b = elim h [ ]

  send_loop-eagain :
      (j n back nleft retry_count : ℕ) (results : List Wrote)
      → retry_count + j ≤ 15
      → 1 ≤ nleft
      → nleft + j ≤ n
      → send_loop slen (sending 0 back nleft retry_count) (replicate j eagain ++ (took n ∷ results))
        ≡ some (record { rc = pos slen; calls = attempts j back nleft })
  unfolding send_loop
  send_loop-eagain zero n back nleft retry_count results h l b =
      let more : (nleft == 0) ≡ false = ground arith in
      let all : nleft - min n nleft ≡ 0 = omega arith in
      rw (more, nothing_left results (sending (0 + min n nleft) back (nleft - min n nleft) 0) all)
        refl
  send_loop-eagain (suc j) n back nleft retry_count results h l b =
      let more : (nleft == 0) ≡ false = ground arith in
      let again : ltb 15 (retry_count + 1) ≡ false = ground arith in
      rw
        (
          more,
          again,
          send_loop-eagain j n (back + 1) (nleft + 1) (retry_count + 1) results (omega arith)
              (omega arith) (omega arith),
        )
        refl

-- When no write fails or is refused, each takes at least one byte, and there are as many of them as bytes
-- to send, `sendrf` returns after at most that many writes, with the number of the bytes; and the
-- bytes on the link are those that stand in memory at the caller's pointer, not the translated ones: the option that
-- translates the newlines changes nothing, and the one that adds an end of line sends the byte
-- behind the caller's buffer.
pub sendrf_lem :
    (mem : Str) (len opts : ℕ) (results : List Wrote)
    → All Partial results
    → (if addeol opts then len + 1 else len) ≤ length results
    → (calls : List Call) × (sendrf len opts results
        ≡ some (record { rc = pos (if addeol opts then len + 1 else len); calls = calls }))
      × (length calls ≤ (if addeol opts then len + 1 else len))
      × (transmitted mem calls results ≡ take (if addeol opts then len + 1 else len) mem)
unfolding sendrf send_length
sendrf_lem mem len opts results h b =
    send_loop-Partial mem (send_length len opts) results 0 (send_length len opts) 0 h b

-- When `j` writes, 15 at most, are refused with EAGAIN and the next one takes everything, `sendrf`
-- reports the number of bytes asked for, but each refused write has moved the pointer one byte
-- back and made the count one larger: the write that goes through sends the `j` bytes that stand
-- before the buffer, too.
pub sendrf_eagain :
    (len opts j n : ℕ) (results : List Wrote)
    → 1 ≤ len
    → j ≤ 15
    → len + 1 + j ≤ n
    → sendrf len opts (replicate j eagain ++ (took n ∷ results))
      ≡ some
          (record { rc = pos (send_length len opts); calls = attempts j 0 (send_length len opts) })
unfolding sendrf send_length
sendrf_eagain len opts j n results l h b =
    send_loop-eagain [] (send_length len opts) j n 0 (send_length len opts) 0 results (omega arith)
      (ground arith) (ground arith)
