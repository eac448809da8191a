-- ===== src/Radio/Err.antt =====
-- lib/err.c: a message to the client and the end of the process. The log line is left out.
use rmsgw.Prelude.{
  ℕ, suc, ◌+◌, ◌≤◌, ◌≡◌, refl, ap, ◌∙◌, Option, none, some, List, [], ◌∷◌, ◌++◌, length, take, All,
  Str, pos,
}
use native.Mathlib.Numerals.{unary_clauses}
use rmsgw.Radio.Sendrf.{Wrote, Sent, sendrf, transmitted, send_length, Partial, sendrf_lem}

-- SRF_EOLXLATE|SRF_ADDEOL
abbrev pub err_opts : ℕ
err_opts = 3

-- What was sent when the process exits, with its status. `none` is a call of sendrf that does not
-- return with the results that are given.
unfoldable pub err : Str → List Wrote → Option (Sent × ℕ)
unfolding sendrf
err message results = elim (sendrf (length message) err_opts results) [
  | none ↦ none
  | some out ↦ some (out, 1)
]

take-suc : (c : ℕ) (s : Str) (n : ℕ) → take (suc n + 1) (c ∷ s) ≡ c ∷ take (n + 1) s
take-suc c s n = simp unary_clauses refl

take-append : (s t : Str) (c : ℕ) → take (length s + 1) (s ++ (c ∷ t)) ≡ s ++ (c ∷ [])
take-append [] t c = refl
take-append (x ∷ s) t c = take-suc x (s ++ (c ∷ t)) (length s) ∙ ap (λ r. x ∷ r) (take-append s t c)

-- When each write takes at least a byte, and there are enough of them, err sends the message and then
-- the null behind it, where an end of line is meant, and the process exits with 1.
pub err_lem :
    (message beyond : Str) (results : List Wrote)
    → All Partial results
    → length message + 1 ≤ length results
    → (out : Sent) × (err message results ≡ some (out, 1))
      × (transmitted (message ++ (0 ∷ beyond)) out.calls results ≡ message ++ (0 ∷ []))
unfolding err
err_lem message beyond results h b =
    let (calls, sent, few, bytes) =
      sendrf_lem (message ++ (0 ∷ beyond)) (length message) err_opts results h b in
    let out : Sent = record { rc = pos (send_length (length message) err_opts); calls = calls } in
    (out, rw (sent, err) refl, bytes ∙ take-append message beyond 0)
