-- ===== src/Gateway/States.antt =====
-- That the conversation of rmsgw/gateway.c does nothing to the status block but to set the state of the
-- gateway.
use rmsgw.Prelude.{
  ℕ, ◌+◌, ◌≤◌, ◌≡◌, sym, inl, inr, Option, none, some, List, [], ◌∷◌, ◌++◌, arith, ltb, Bool-cases,
  length, All, Str, strneq, overlay, ℤ, negsuc, is_neg,
}
use rmsgw.Status.Block.{gw_loggedin, gw_commwait}
use rmsgw.Status.Gateways.{
  GwOp, set_state, set_pid, set_usercall, set_cms, incr_connects, add_bytes_in, add_bytes_out,
}
use mathlib.Core.Path.{subst}
use rmsgw.Gateway.Relay.{all_written, given_up, unfinished, Relayed}
use rmsgw.Gateway.Conversation.{
  to_cms, Read, CmsSide, cms_quiet, cms_closed, cms_ready, Turn, Conv, Progress, going, returned,
  waiting, note, keep_alive, then_going, received, cms_sense, ax25_sense, after_radio, after_uplink,
  take_cms, take_ax25, cms_reads, ax25_reads, cms_stage, ax25_stage, tick, take_turn, converse,
  conv_timeout, started, gateway,
}

abbrev pub IsState : GwOp → Type 0
IsState (set_state s) = Unit
IsState (set_pid pid) = 1 ≤ 0
IsState (set_usercall call) = 1 ≤ 0
IsState (set_cms host) = 1 ≤ 0
IsState incr_connects = 1 ≤ 0
IsState (add_bytes_in count) = 1 ≤ 0
IsState (add_bytes_out count) = 1 ≤ 0

abbrev pub OnlyStates : Conv → Type 0
OnlyStates c = All IsState c.ops

abbrev pub Kept : Progress → Type 0
Kept (going c) = OnlyStates c
Kept (returned c) = OnlyStates c
Kept (waiting c) = OnlyStates c

-- A stage and then another.
then_going-Kept :
    (p : Progress) (next : Conv → Progress)
    → Kept p
    → ((c : Conv) → OnlyStates c → Kept (next c))
    → Kept (then_going p next)
then_going-Kept (going c) next h k = k c h
then_going-Kept (returned c) next h k = h
then_going-Kept (waiting c) next h k = h

module _ (paclen u2 u1 : ℕ) where
  cms_sense-ops : (chunk : Str) (c : Conv) → (cms_sense paclen u2 u1 chunk c).ops ≡ c.ops
  unfolding cms_sense
  cms_sense-ops chunk c = ground arith

  ax25_sense-ops : (chunk : Str) (c : Conv) → (ax25_sense paclen u2 u1 chunk c).ops ≡ c.ops
  unfolding ax25_sense
  ax25_sense-ops chunk c = ground arith

  received-ops : (chunk : Str) (c : Conv) → (received paclen u2 u1 chunk c).ops ≡ c.ops
  unfolding received
  received-ops chunk c = cms_sense-ops chunk _

  after_radio-Kept : (c : Conv) (r : Relayed) → OnlyStates c → Kept (after_radio paclen u2 u1 c r)
  unfolding after_radio
  after_radio-Kept c r h =
      elim r.ending
        as (λ e. Kept (elim e [
          | all_written ↦ going (record c { radio = c.radio ++ r.chunks })
          | given_up ↦ returned (record c { radio = c.radio ++ r.chunks; errcode = negsuc 103 })
          | unfinished ↦ waiting (record c { radio = c.radio ++ r.chunks })
        ])) [ all_written ↦ h | given_up ↦ h | unfinished ↦ h ]

  after_uplink-Kept : (c : Conv) (r : Relayed) → OnlyStates c → Kept (after_uplink paclen u2 u1 c r)
  unfolding after_uplink
  after_uplink-Kept c r h =
      elim r.ending
        as (λ e. Kept (elim e [
          | all_written ↦ going (record c { uplink = c.uplink ++ r.chunks })
          | given_up ↦ returned (record c { uplink = c.uplink ++ r.chunks; errcode = negsuc 102 })
          | unfinished ↦ waiting (record c { uplink = c.uplink ++ r.chunks })
        ])) [ all_written ↦ h | given_up ↦ h | unfinished ↦ h ]

  take_cms-Kept : (r : Read) (c : Conv) → OnlyStates c → Kept (take_cms paclen u2 u1 r c)
  unfolding take_cms
  take_cms-Kept r c h =
      let here : OnlyStates (received paclen u2 u1 r.chunk c) =
        subst (All IsState) (sym (received-ops r.chunk c)) h in
      elim (Bool-cases (strneq (overlay r.chunk c.buf) keep_alive 8)) [
        | inl eaten ↦ rw eaten here
        | inr other ↦ rw other (after_radio-Kept (received paclen u2 u1 r.chunk c) _ here)
      ]

  take_ax25-Kept : (r : Read) (c : Conv) → OnlyStates c → Kept (take_ax25 paclen u2 u1 r c)
  unfolding take_ax25
  take_ax25-Kept r c h =
      let read_in : Conv = record c {
        bytes_recv = c.bytes_recv + length r.chunk;
        loop = 0;
        buf = overlay r.chunk c.buf;
      } in
      after_uplink-Kept (ax25_sense paclen u2 u1 r.chunk read_in) (to_cms r.chunk r.writes)
        (subst (All IsState) (sym (ax25_sense-ops r.chunk read_in)) h)

  cms_reads-Kept :
      (reads : List Read) (c : Conv) → OnlyStates c → Kept (cms_reads paclen u2 u1 reads c)
  unfolding cms_reads
  cms_reads-Kept [] c h = h
  cms_reads-Kept (r ∷ reads) c h =
      then_going-Kept (take_cms paclen u2 u1 r c) _ (take_cms-Kept r c h)
        (λ d k. cms_reads-Kept reads d k)

  ax25_reads-Kept :
      (reads : List Read) (c : Conv) → OnlyStates c → Kept (ax25_reads paclen u2 u1 reads c)
  unfolding ax25_reads
  ax25_reads-Kept [] c h = h
  ax25_reads-Kept (r ∷ reads) c h =
      then_going-Kept (take_ax25 paclen u2 u1 r c) _ (take_ax25-Kept r c h)
        (λ d k. ax25_reads-Kept reads d k)

  cms_stage-Kept : (side : CmsSide) (c : Conv) → OnlyStates c → Kept (cms_stage paclen u2 u1 side c)
  unfolding cms_stage note
  cms_stage-Kept cms_quiet c h = h
  cms_stage-Kept (cms_closed k) c h = (tt, h)
  cms_stage-Kept (cms_ready none reads) c h = cms_reads-Kept reads _ (tt, h)
  cms_stage-Kept (cms_ready (some b) reads) c h = cms_reads-Kept reads _ (tt, h)

  ax25_stage-Kept :
      (side : Option (List Read)) (c : Conv) → OnlyStates c → Kept (ax25_stage paclen u2 u1 side c)
  unfolding ax25_stage note
  ax25_stage-Kept none c h = h
  ax25_stage-Kept (some reads) c h = ax25_reads-Kept reads _ (tt, h)

  tick-Kept : (c : Conv) → OnlyStates c → Kept (tick paclen u2 u1 c)
  unfolding tick note
  tick-Kept c h = elim (Bool-cases (ltb conv_timeout (c.loop + 1))) [
    | inl late ↦ rw late (tt, (tt, h))
    | inr early ↦ rw early (tt, h)
  ]

  take_turn-Kept : (t : Turn) (c : Conv) → OnlyStates c → Kept (take_turn paclen u2 u1 t c)
  unfolding take_turn note
  take_turn-Kept t c h =
      then_going-Kept (cms_stage paclen u2 u1 t.cms_side (note (set_state gw_commwait) c)) _
        (cms_stage-Kept t.cms_side (note (set_state gw_commwait) c) (tt, h))
        (λ d k.
          then_going-Kept (ax25_stage paclen u2 u1 t.ax25_side d) _
            (ax25_stage-Kept t.ax25_side d k) tick-Kept)

  converse-Kept :
      (turns : List Turn) (c : Conv) → OnlyStates c → Kept (converse paclen u2 u1 turns c)
  unfolding converse
  converse-Kept [] c h = h
  converse-Kept (t ∷ turns) c h =
      then_going-Kept (take_turn paclen u2 u1 t c) _ (take_turn-Kept t c h)
        (λ d k. converse-Kept turns d k)

  pub gateway-Kept :
      (login socket_mode ax25_mode : ℤ) (turns : List Turn) (static_buf : Str)
      → Kept (gateway paclen u2 u1 login socket_mode ax25_mode turns static_buf)
  unfolding gateway note
  gateway-Kept login socket_mode ax25_mode turns static_buf = elim (Bool-cases (is_neg login)) [
    | inl bad ↦ rw bad (tt, tt)
    | inr ok ↦ elim (Bool-cases (is_neg socket_mode)) [
      | inl bad ↦ rw (ok, bad) (tt, (tt, tt))
      | inr ok' ↦ elim (Bool-cases (is_neg ax25_mode)) [
        | inl bad ↦ rw (ok, ok', bad) (tt, (tt, tt))
        | inr ok'' ↦
            rw (ok, ok', ok'')
              (converse-Kept turns (note (set_state gw_loggedin) (started paclen u2 u1 static_buf))
                (tt, (tt, tt)))
      ]
    ]
  ]
