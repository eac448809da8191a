-- ===== src/Gateway/Relay.antt =====
-- rmsgw/gateway.c: the loops that write what one side sent to the other, over the results of `write`.
-- `buf` is the list of the `n` bytes from `cp` on. Closing the socket, sleeping and logging are
-- left out.
use rmsgw.Prelude.{
  ℕ, zero, suc, ◌+◌, ◌-◌, ◌≤◌, min, ◌≡◌, refl, sym, ap, ◌∙◌, ◌≢◌, ◌↔◌, inl, inr, Bool, true, false,
  List, [], ◌∷◌, ◌++◌, append-nil, append_assoc, arith, ltb, if◌then◌else◌, Bool-cases, length,
  take, drop, replicate, All, length-take, Str,
}
use rmsgw.Radio.Sendrf.{Wrote, took, eagain, failed}

-- How a loop ends: everything was written, the connection is given up (ERR_GW_AX25IO or
-- ERR_GW_SOCKIO), or the results are used up and it has not ended.
pub data Ending : Type 0 where
  all_written : Ending
  given_up : Ending
  unfinished : Ending

-- The ending, and the bytes that each `write` took.
pub record Relayed : Type 0 where
  pub ending : Ending
  pub chunks : List Str

abbrev pub then_chunk : Str → Relayed → Relayed
then_chunk c r = record r { chunks = c ∷ r.chunks }

abbrev pub is_nil : Str → Bool
is_nil [] = true
is_nil (c ∷ s) = false

-- The bytes that a `write(fd, cp, MIN(limit, n))` takes when it can take `k`.
abbrev pub taken : ℕ → ℕ → Str → ℕ
taken limit k buf = min k (min limit (length buf))

-- `while (n > 0)` of the CMS to AX.25 direction, with its retries.
unfoldable pub to_ax25 : ℕ → Str → ℕ → List Wrote → Relayed
to_ax25 paclen buf retry_count [] = record {
  ending = if is_nil buf then all_written else unfinished;
  chunks = [];
}
to_ax25 paclen buf retry_count (took k ∷ results) =
    let m = taken paclen k buf in
    let rest = to_ax25 paclen (drop m buf) 0 results in
    if is_nil buf
    then record { ending = all_written; chunks = [] }
    else then_chunk (take m buf) rest
to_ax25 paclen buf retry_count (eagain ∷ results) =
    let rest = to_ax25 paclen buf (retry_count + 1) results in
    if is_nil buf
    then record { ending = all_written; chunks = [] }
    else if ltb 15 (retry_count + 1)
    then record { ending = given_up; chunks = [] }
    else rest
to_ax25 paclen buf retry_count (failed ∷ results) = record {
  ending = if is_nil buf then all_written else given_up;
  chunks = [];
}

abbrev pub concat : List Str → Str
concat [] = []
concat (c ∷ chunks) = c ++ concat chunks

take-drop : (m : ℕ) (s : Str) → take m s ++ drop m s ≡ s
take-drop zero s = refl
take-drop (suc m) [] = refl
take-drop (suc m) (c ∷ s) = ap (λ t. c ∷ t) (take-drop m s)

module _ (paclen : ℕ) where
  -- What a run leaves unwritten.
  abbrev pub Accounted : Str → Relayed → Type 0
  Accounted buf r =
      (rest : Str) × (buf ≡ concat r.chunks ++ rest)
      × All (λ c. length c ≤ paclen) r.chunks
      × ((r.ending ≡ all_written) ↔ (rest ≡ []))

  ended :
      (buf : Str) (other : Ending)
      → other ≢ all_written
      → Accounted buf (record { ending = if is_nil buf then all_written else other; chunks = [] })
  ended [] other ne = ([], refl, tt, ((λ _. refl), (λ _. refl)))
  ended (c ∷ s) other ne = (c ∷ s, refl, tt, ((λ e. absurd (ne e)), (λ e. cc)))

  Accounted-chunk :
      (m : ℕ) (buf : Str) (r : Relayed)
      → m ≤ paclen
      → Accounted (drop m buf) r
      → Accounted buf (then_chunk (take m buf) r)
  Accounted-chunk m buf r h (rest, e, a, i) = (
    rest,
    sym (take-drop m buf)
        ∙ ap (◌++◌ (take m buf)) e
        ∙ sym (append_assoc (take m buf) (concat r.chunks) rest),
    (omega (arith, length-take m buf), a),
    i,
  )

  to_ax25-Accounted :
      (results : List Wrote) (buf : Str) (retry_count : ℕ)
      → Accounted buf (to_ax25 paclen buf retry_count results)
  unfolding to_ax25
  to_ax25-Accounted [] buf retry_count = ended buf unfinished (λ e. cc)
  to_ax25-Accounted (took k ∷ results) [] retry_count = ended [] unfinished (λ e. cc)
  to_ax25-Accounted (took k ∷ results) (c ∷ s) retry_count =
      let m = taken paclen k (c ∷ s) in
      Accounted-chunk m (c ∷ s) (to_ax25 paclen (drop m (c ∷ s)) 0 results) (omega arith)
        (to_ax25-Accounted results (drop m (c ∷ s)) 0)
  to_ax25-Accounted (eagain ∷ results) [] retry_count = ended [] unfinished (λ e. cc)
  to_ax25-Accounted (eagain ∷ results) (c ∷ s) retry_count =
      let again = to_ax25-Accounted results (c ∷ s) (retry_count + 1) in
      elim (Bool-cases (ltb 15 (retry_count + 1))) [
        | inl many ↦ rw many (ended (c ∷ s) given_up (λ e. cc))
        | inr few ↦ rw few again
      ]
  to_ax25-Accounted (failed ∷ results) buf retry_count = ended buf given_up (λ e. cc)

-- Refused writes before one that takes at least one byte.
pub record Burst : Type 0 where
  pub refused : ℕ
  pub takes : ℕ

abbrev pub results_of : List Burst → List Wrote
results_of [] = []
results_of (b ∷ bursts) = replicate b.refused eagain ++ (took b.takes ∷ results_of bursts)

abbrev pub IsShort : Burst → Type 0
IsShort b = (b.refused ≤ 15) × (1 ≤ b.takes)

module _ (paclen : ℕ) (results : List Wrote) where
  refused-lem :
      (j k : ℕ) (buf : Str) (retry_count : ℕ)
      → 1 ≤ length buf
      → retry_count + j ≤ 15
      → to_ax25 paclen buf retry_count (replicate j eagain ++ (took k ∷ results))
        ≡ then_chunk
            (take (taken paclen k buf) buf)
            (to_ax25 paclen (drop (taken paclen k buf) buf) 0 results)
  unfolding to_ax25
  refused-lem j k [] retry_count h b = absurd (omega arith)
  refused-lem zero k (c ∷ s) retry_count h b = refl
  refused-lem (suc j) k (c ∷ s) retry_count h b =
      let few : ltb 15 (retry_count + 1) ≡ false = ground arith in
      rw few (refused-lem j k (c ∷ s) (retry_count + 1) h (omega arith))

length-drop : (m : ℕ) (s : Str) → length (drop m s) ≡ length s - m
length-drop zero s = omega arith
length-drop (suc m) [] = omega arith
length-drop (suc m) (c ∷ s) = length-drop m s ∙ omega arith

-- Whatever `write` returns, the bytes that the loop towards AX.25 has written are the first ones of
-- the buffer in their order, in pieces of at most the packet length, and it ends with everything
-- written exactly when nothing is left.
pub to_ax25-Accounted_any :
    (paclen : ℕ) (buf : Str) (results : List Wrote)
    → Accounted paclen buf (to_ax25 paclen buf 0 results)
to_ax25-Accounted_any paclen buf results = to_ax25-Accounted paclen results buf 0

nothing_left :
    (paclen : ℕ) (results : List Wrote) (retry_count : ℕ)
    → (to_ax25 paclen [] retry_count results).ending ≡ all_written
unfolding to_ax25
nothing_left paclen [] retry_count = refl
nothing_left paclen (took k ∷ results) retry_count = refl
nothing_left paclen (eagain ∷ results) retry_count = refl
nothing_left paclen (failed ∷ results) retry_count = refl

to_ax25-results_of :
    (paclen : ℕ) (bursts : List Burst) (buf : Str)
    → 1 ≤ paclen
    → All IsShort bursts
    → length buf ≤ length bursts
    → (to_ax25 paclen buf 0 (results_of bursts)).ending ≡ all_written
to_ax25-results_of paclen [] [] h hs b = unfold to_ax25 in refl
to_ax25-results_of paclen [] (c ∷ s) h hs b = absurd (omega arith)
to_ax25-results_of paclen (r ∷ bursts) [] h hs b = nothing_left paclen (results_of (r ∷ bursts)) 0
to_ax25-results_of paclen (r ∷ bursts) (c ∷ s) h (hr, hs) b =
    let m = taken paclen r.takes (c ∷ s) in
    let fewer : length (drop m (c ∷ s)) ≤ length bursts =
      ground (arith, length-drop m (c ∷ s), hr.1) in
    ap (λ x. x.ending)
      (refused-lem paclen (results_of bursts) r.refused r.takes (c ∷ s) 0 (omega arith)
        (ground (arith, hr.0)))
    ∙ to_ax25-results_of paclen bursts (drop m (c ∷ s)) h hs fewer

-- When the packet length is not 0, each write that takes bytes takes at least one, at most 15 refused
-- writes stand before each, and there are as many of them as bytes, the loop towards AX.25 ends
-- with everything written: the pieces put together are the buffer.
pub to_ax25_lem :
    (paclen : ℕ) (bursts : List Burst) (buf : Str)
    → 1 ≤ paclen
    → All IsShort bursts
    → length buf ≤ length bursts
    → ((to_ax25 paclen buf 0 (results_of bursts)).ending ≡ all_written)
      × (concat (to_ax25 paclen buf 0 (results_of bursts)).chunks ≡ buf)
to_ax25_lem paclen bursts buf h hs b =
    let done = to_ax25-results_of paclen bursts buf h hs b in
    let (rest, e, a, i) = to_ax25-Accounted paclen (results_of bursts) buf 0 in
    let none_left : rest ≡ [] = i.0 done in (done, sym (e ∙ ap (◌++◌ _) none_left ∙ append-nil _))
