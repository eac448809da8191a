-- ===== src/Login/Sgl.antt =====
-- lib/cmslogin.c: the secure gateway login, a state machine that reads a line in each round and
-- writes at most one string to the CMS.
use rmsgw.Prelude.{
  ℕ, zero, suc, ◌+◌, ◌-◌, ◌*◌, ◌/◌, ◌%◌, ◌^◌, ◌≤◌, ◌<◌, min, ◌≡◌, refl, sym, ap, ◌∙◌, ◌≢◌, ◌↔◌, ◌⊎◌,
  inl, inr, Bool, true, false, not, ◌&&◌, ◌||◌, Option, none, some, List, [], ◌∷◌, ◌++◌, append-nil,
  append_assoc, arith, ltb, leb, ◌==◌, if◌then◌else◌, ==_iff, Bool-cases, Option-cases, length,
  get_elem?, get_or, set, modify, take, drop, replicate, All, length-append, length-take,
  length-replicate, length-set, length-modify, All-append, All-imp, Str, codes, streq, streq_iff,
  streq_refl, strneq, within, isspace, isdigit, isalnum, toupper, tolower, overlay, c_str, IsCStr,
  ℤ, pos, negsuc, pos_part, neg_part, ltb_ℤ, leb_ℤ, is_pos, is_neg, is_zero, to_size, decimal,
  decimal_digits, digits_value, atoi, skip_spaces, atoi-decimal, fgets_lines, lines_from,
  fgets_lines-append, Lacks,
}
use rmsgw.Login.Readln.{ReadByte, ReadLine, readln}
use rmsgw.Login.Challenge.{sgl_challenge_response}
pub mod Dialogue
pub mod Sending
pub mod Answers
pub mod Unasked

pub data SglState : Type 0 where
  sgl_callsign : SglState
  sgl_callsignfail : SglState
  sgl_challenge : SglState
  sgl_challengefail : SglState
  sgl_responsesent : SglState
  sgl_logincomplete : SglState
  sgl_badstate : SglState

abbrev pub succeed : ℤ
succeed = pos 0

abbrev pub fail : ℤ
fail = negsuc 0

-- What a round meets: the results of the reads of its `readln`, and what its `write` returns.
pub record Round : Type 0 where
  pub reads : List ReadByte
  pub wrote : Str → ℤ

-- The variables of `sglProcess`, and the strings given to `write` so far.
pub record Sgl : Type 0 where
  pub sgl_state : SglState
  pub running : Bool
  pub loop_cnt : ℕ
  pub written : List Str

-- `expectsend` with nothing to expect: only what it returns. `nwritten`, an `int`, is compared
-- with a `size_t`.
unfoldable pub expectsend : (Str → ℤ) → Str → ℤ
expectsend wrote send_str =
    if ltb 0 (length send_str)
    then if ltb (to_size (wrote send_str)) (length send_str) then fail else succeed
    else succeed

-- strncmp(s, prefix, strlen(prefix)) == 0 for two strings in lower case, at any place of `s`
unfoldable pub contains : Str → Str → Bool
contains [] part = strneq [] part (length part)
contains (c ∷ s) part = strneq (c ∷ s) part (length part) || contains s part

abbrev lower : Str → Str
lower [] = []
lower (c ∷ s) = tolower c ∷ lower s

-- strcasestr(s, part) != NULL
unfoldable pub strcasestr : Str → Str → Bool
unfolding contains
strcasestr s part = contains (lower s) (lower part)

-- %8s after the white space was skipped
unfoldable pub word : ℕ → Str → Str
word zero s = []
word (suc n) [] = []
word (suc n) (c ∷ s) = let rest = word n s in if isspace c then [] else c ∷ rest

-- `sscanf(rbuf, ";SQ: %8s\r", challenge)` on a cleared `challenge`.
unfoldable pub scan_challenge : Str → Str
unfolding word skip_spaces
scan_challenge rbuf =
    if strneq rbuf (codes ";SQ:") 4 then word 8 (skip_spaces (drop 4 rbuf)) else []

abbrev pub initial : Sgl
initial = record { sgl_state = sgl_callsign; running = true; loop_cnt = 0; written = [] }

-- The status of a state at the end.
unfoldable pub status : SglState → ℤ
status sgl_callsignfail = fail
status sgl_challengefail = fail
status sgl_badstate = fail
status _ = succeed

module _ (md5 : Str → Str) (passwd usercall gwcall : Str) where
  abbrev pub login_line : Str
  login_line = take 1023 (usercall ++ b' ' ∷ (gwcall ++ b'\r' ∷ []))

  abbrev pub response_line : Str → Str
  response_line challenge =
      codes ";SR: " ++ (sgl_challenge_response md5 challenge passwd ++ codes " 25000001 20\r")

  -- case SGL_CALLSIGN
  unfoldable pub callsign_round : ℤ → Str → (Str → ℤ) → Sgl → Sgl
  unfolding expectsend strcasestr
  callsign_round n_read rbuf wrote s =
      if leb_ℤ n_read (pos 0)
      then record s { sgl_state = sgl_callsignfail; running = false }
      else if streq rbuf (codes "\r")
      then s
      else if strcasestr rbuf (codes "Callsign :")
      then (if is_zero (expectsend wrote login_line)
          then record s { sgl_state = sgl_challenge; written = s.written ++ login_line ∷ [] }
          else record s {
            sgl_state = sgl_callsignfail;
            running = false;
            written = s.written ++ login_line ∷ [];
          })
      else if ltb 3 s.loop_cnt
      then record s { sgl_state = sgl_callsignfail; running = false; loop_cnt = s.loop_cnt + 1 }
      else if is_neg (expectsend wrote (codes "\r"))
      then record s {
        sgl_state = sgl_callsignfail;
        running = false;
        loop_cnt = s.loop_cnt + 1;
        written = s.written ++ codes "\r" ∷ [];
      }
      else record s { loop_cnt = s.loop_cnt + 1; written = s.written ++ codes "\r" ∷ [] }

  -- case SGL_CHALLENGE
  unfoldable pub challenge_round : ℤ → Str → (Str → ℤ) → Sgl → Sgl
  unfolding expectsend strcasestr scan_challenge
  challenge_round n_read rbuf wrote s =
      if leb_ℤ n_read (pos 0)
      then record s { sgl_state = sgl_challengefail; running = false }
      else if streq rbuf (codes "\r")
      then s
      else if strcasestr rbuf (codes ";SQ: ")
      then (if is_neg (expectsend wrote (response_line (scan_challenge rbuf)))
          then record s {
            sgl_state = sgl_logincomplete;
            running = false;
            written = s.written ++ response_line (scan_challenge rbuf) ∷ [];
          }
          else record s {
            sgl_state = sgl_responsesent;
            running = false;
            written = s.written ++ response_line (scan_challenge rbuf) ∷ [];
          })
      else record s { sgl_state = sgl_challengefail; running = false }

  -- switch (sgl_state)
  unfoldable pub sgl_switch : SglState → ℤ → Str → (Str → ℤ) → Sgl → Sgl
  unfolding callsign_round challenge_round
  sgl_switch sgl_callsign n_read rbuf wrote s = callsign_round n_read rbuf wrote s
  sgl_switch sgl_challenge n_read rbuf wrote s = challenge_round n_read rbuf wrote s
  sgl_switch _ n_read rbuf wrote s = record s { sgl_state = sgl_badstate; running = false }

  -- The body of the loop.
  unfoldable pub sgl_round : Round → Sgl → Sgl
  unfolding sgl_switch readln
  sgl_round r s =
      let line = readln 1024 b'\r' r.reads in
      sgl_switch s.sgl_state line.count (c_str line.buf) r.wrote s

  -- `while (running)`, entered with `running` true. Behind the listed rounds the next `readln` has not
  -- returned: the loop still runs.
  unfoldable pub sgl_loop : List Round → Sgl → Sgl
  unfolding sgl_round
  sgl_loop [] s = s
  sgl_loop (r ∷ rounds) s =
      let next = sgl_round r s in
      let rest = sgl_loop rounds next in if next.running then rest else next

  -- What `sglProcess` returns, when it does, and the strings it gave to `write`.
  unfoldable pub sgl_process : List Round → Option ℤ × List Str
  unfolding sgl_loop status
  sgl_process rounds =
      let end = sgl_loop rounds initial in
      ((if end.running then none else some (status end.sgl_state)), end.written)
