-- ===== src/Gateway/Conversation.antt =====
-- gateway of rmsgw/gateway.c: the conversation between the radio client and the CMS. `select`, `recv`,
-- `read` and `write` are inputs: what a round of the loop finds. Each `sbset_gw_state` is an
-- operation on the gateway's entry of the status block. Closing, sleeping and logging are left out.
use rmsgw.Prelude.{
  ℕ, ◌+◌, min, Bool, true, false, ◌&&◌, Option, none, some, List, [], ◌∷◌, ◌++◌, ltb, ◌==◌,
  if◌then◌else◌, length, take, drop, Str, codes, strneq, overlay, ℤ, pos, negsuc, is_neg,
}
use rmsgw.Radio.Sendrf.{Wrote, took, eagain, failed}
use rmsgw.Gateway.Relay.{all_written, given_up, unfinished, Relayed, to_ax25, is_nil, then_chunk}
use rmsgw.Status.Block.{gw_login, gw_loggedin, gw_commwait, gw_sending, gw_receiving, gw_connected}
use rmsgw.Status.Gateways.{GwOp, set_state}

-- `while (n > 0)` of the AX.25 to CMS direction, where `write` is tried again without end.
unfoldable pub to_cms : Str → List Wrote → Relayed
to_cms buf [] = record { ending = if is_nil buf then all_written else unfinished; chunks = [] }
to_cms buf (took k ∷ results) =
    let m = min k (length buf) in
    let rest = to_cms (drop m buf) results in
    if is_nil buf
    then record { ending = all_written; chunks = [] }
    else then_chunk (take m buf) rest
to_cms buf (eagain ∷ results) =
    let rest = to_cms buf results in
    if is_nil buf then record { ending = all_written; chunks = [] } else rest
to_cms buf (failed ∷ results) = record {
  ending = if is_nil buf then all_written else given_up;
  chunks = [];
}

-- A `recv` or `read` that brings bytes, at most BUFLEN, with the results of the writes that follow.
pub record Read : Type 0 where
  pub chunk : Str
  pub writes : List Wrote

-- The CMS side of a round: not readable; closed, where the message's `write` takes so many bytes;
-- or readable, with the byte that the peek stores, if any, and the reads until there is no more.
pub data CmsSide : Type 0 where
  cms_quiet : CmsSide
  cms_closed : ℕ → CmsSide
  cms_ready : Option ℕ → List Read → CmsSide

-- A round of the loop. `ax25_side` is `none` when standard input is not readable.
pub record Turn : Type 0 where
  pub cms_side : CmsSide
  pub ax25_side : Option (List Read)

-- The sense flags, the static buffer, the variables and `rc`, with what was written on each side and
-- the operations on the status block, latest first.
pub record Conv : Type 0 where
  pub ffup : Bool
  pub fqup : Bool
  pub ffdn : Bool
  pub fqdn : Bool
  pub buf : Str
  pub loop : ℕ
  pub errcode : ℤ
  pub bytes_sent : ℕ
  pub bytes_recv : ℕ
  pub radio : List Str
  pub uplink : List Str
  pub ops : List GwOp

-- The conversation goes on, has returned, or waits for a `write` that does not come.
pub data Progress : Type 0 where
  going : Conv → Progress
  returned : Conv → Progress
  waiting : Conv → Progress

unfoldable pub note : GwOp → Conv → Conv
note op c = record c { ops = op ∷ c.ops }

abbrev pub buflen : ℕ
buflen = 8192

abbrev pub conv_timeout : ℕ
conv_timeout = 60

abbrev pub err_gw_login : ℤ
err_gw_login = negsuc 0

abbrev pub err_gw_sock : ℤ
err_gw_sock = negsuc 100

abbrev pub err_gw_ax25 : ℤ
err_gw_ax25 = negsuc 101

abbrev pub err_gw_sockio : ℤ
err_gw_sockio = negsuc 102

abbrev pub err_gw_ax25io : ℤ
err_gw_ax25io = negsuc 103

abbrev pub keep_alive : Str
keep_alive = codes ";;;;;;\r\n"

abbrev pub is_ten : ℤ → Bool
is_ten (pos n) = n == 10
is_ten (negsuc n) = false

-- The next stage of a round, unless it has come to an end.
abbrev pub then_going : Progress → (Conv → Progress) → Progress
then_going (going c) next = next c
then_going (returned c) next = returned c
then_going (waiting c) next = waiting c

abbrev hex_digit : ℕ → ℕ
hex_digit n = b'0' + n

abbrev flags : Bool → Bool → ℕ
flags fq ff = (if fq then 2 else 0) + (if ff then 1 else 0)

-- "; INFO: Connection closed by CMS (sense = 0x%04x)\r\n"
abbrev pub closed_text : Conv → Str
closed_text c =
    codes "; INFO: Connection closed by CMS (sense = 0x00"
    ++ (hex_digit (flags c.fqdn c.ffdn) ∷ hex_digit (flags c.fqup c.ffup) ∷ codes ")\r\n")

-- `u2` and `u1` are the bytes that stand two places and one place before `buf`, which is read there
-- when fewer than three bytes came.
module _ (paclen u2 u1 : ℕ) where
  -- *(cp+n-3) == 'F' && *(cp+n-2) == 'F'
  unfoldable pub sent_ff : Str → Bool
  sent_ff [] = false
  sent_ff (a ∷ []) = u2 == b'F' && u1 == b'F'
  sent_ff (a ∷ b ∷ []) = u1 == b'F' && a == b'F'
  sent_ff (a ∷ b ∷ c ∷ []) = a == b'F' && b == b'F'
  sent_ff (a ∷ b ∷ c ∷ d ∷ s) = sent_ff (b ∷ c ∷ d ∷ s)

  -- The test of three bytes that start with "FQ".
  unfoldable pub sent_fq : Str → Bool
  sent_fq [] = false
  sent_fq (a ∷ []) = false
  sent_fq (a ∷ b ∷ s) = a == b'F' && b == b'Q'

  unfoldable pub cms_sense : Str → Conv → Conv
  unfolding sent_ff sent_fq
  cms_sense chunk c =
      if sent_ff chunk
      then record c { ffup = true }
      else if length chunk == 3 && c.ffdn
      then if sent_fq chunk
        then record c { fqup = true; loop = conv_timeout; errcode = pos 10 }
        else record c { ffdn = false }
      else c

  unfoldable pub ax25_sense : Str → Conv → Conv
  unfolding sent_ff sent_fq
  ax25_sense chunk c =
      if sent_ff chunk
      then record c { ffdn = true }
      else if length chunk == 3 && c.ffup
      then if sent_fq chunk
        then record c { fqdn = true; loop = conv_timeout; errcode = pos 10 }
        else record c { ffup = false }
      else c

  unfoldable pub after_radio : Conv → Relayed → Progress
  after_radio c r =
      let d = record c { radio = c.radio ++ r.chunks } in
      elim r.ending [
        | all_written ↦ going d
        | given_up ↦ returned (record d { errcode = err_gw_ax25io })
        | unfinished ↦ waiting d
      ]

  unfoldable pub after_uplink : Conv → Relayed → Progress
  after_uplink c r =
      let d = record c { uplink = c.uplink ++ r.chunks } in
      elim r.ending [
        | all_written ↦ going d
        | given_up ↦ returned (record d { errcode = err_gw_sockio })
        | unfinished ↦ waiting d
      ]

  -- What a `recv` does before its bytes are passed on.
  unfoldable pub received : Str → Conv → Conv
  unfolding cms_sense overlay
  received chunk c =
      cms_sense chunk
        (record c { bytes_sent = c.bytes_sent + length chunk; loop = 0; buf = overlay chunk c.buf })

  -- One `recv` of the CMS to AX.25 direction. A keep-alive is eaten.
  unfoldable pub take_cms : Read → Conv → Progress
  unfolding received after_radio to_ax25 strneq overlay
  take_cms r c =
      if strneq (overlay r.chunk c.buf) keep_alive 8
      then going (received r.chunk c)
      else after_radio (received r.chunk c) (to_ax25 paclen r.chunk 0 r.writes)

  -- One `read` of the AX.25 to CMS direction.
  unfoldable pub take_ax25 : Read → Conv → Progress
  unfolding ax25_sense after_uplink to_cms overlay
  take_ax25 r c =
      after_uplink
        (ax25_sense r.chunk (record c {
          bytes_recv = c.bytes_recv + length r.chunk;
          loop = 0;
          buf = overlay r.chunk c.buf;
        }))
        (to_cms r.chunk r.writes)

  unfoldable pub cms_reads : List Read → Conv → Progress
  unfolding take_cms
  cms_reads [] c = going c
  cms_reads (r ∷ reads) c = then_going (take_cms r c) (λ d. cms_reads reads d)

  unfoldable pub ax25_reads : List Read → Conv → Progress
  unfolding take_ax25
  ax25_reads [] c = going c
  ax25_reads (r ∷ reads) c = then_going (take_ax25 r c) (λ d. ax25_reads reads d)

  abbrev pub peek : Option ℕ → Conv → Conv
  peek none c = c
  peek (some b) c = record c { buf = overlay (b ∷ []) c.buf }

  unfoldable pub cms_stage : CmsSide → Conv → Progress
  unfolding cms_reads note overlay
  cms_stage cms_quiet c = going c
  cms_stage (cms_closed k) c = returned (
      note (set_state gw_connected)
        (record c { errcode = pos 0; radio = c.radio ++ (take k (closed_text c) ∷ []) }))
  cms_stage (cms_ready peeked reads) c =
      cms_reads reads (note (set_state gw_sending) (peek peeked c))

  unfoldable pub ax25_stage : Option (List Read) → Conv → Progress
  unfolding ax25_reads note
  ax25_stage none c = going c
  ax25_stage (some reads) c = ax25_reads reads (note (set_state gw_receiving) c)

  -- The end of a round.
  unfoldable pub tick : Conv → Progress
  unfolding note
  tick c =
      let d = record (note (set_state gw_commwait) c) { loop = c.loop + 1 } in
      if ltb conv_timeout (c.loop + 1)
      then returned (
          note (set_state gw_connected)
            (record d { errcode = if is_ten c.errcode then pos 0 else pos 1 }))
      else going d

  unfoldable pub take_turn : Turn → Conv → Progress
  unfolding cms_stage ax25_stage tick note
  take_turn t c =
      then_going (cms_stage t.cms_side (note (set_state gw_commwait) c))
        (λ d. then_going (ax25_stage t.ax25_side d) tick)

  -- `for (;;)` over the rounds to come.
  unfoldable pub converse : List Turn → Conv → Progress
  unfolding take_turn
  converse [] c = going c
  converse (t ∷ turns) c = then_going (take_turn t c) (λ d. converse turns d)

  -- The values at the start, over the buffer that is there.
  abbrev pub started : Str → Conv
  started static_buf = record {
    ffup = false;
    fqup = false;
    ffdn = false;
    fqdn = false;
    buf = static_buf;
    loop = 0;
    errcode = pos 0;
    bytes_sent = 0;
    bytes_recv = 0;
    radio = [];
    uplink = [];
    ops = set_state gw_login ∷ [];
  }

  -- The results of `cmslogin` and of the two calls of `fcntl`, and the rounds.
  unfoldable pub gateway : ℤ → ℤ → ℤ → List Turn → Str → Progress
  unfolding converse note
  gateway login socket_mode ax25_mode turns static_buf =
      let c = started static_buf in
      let d = note (set_state gw_loggedin) c in
      if is_neg login
      then returned (record c { errcode = err_gw_login })
      else if is_neg socket_mode
      then returned (record d { errcode = err_gw_sock })
      else if is_neg ax25_mode
      then returned (record d { errcode = err_gw_ax25 })
      else converse turns d
