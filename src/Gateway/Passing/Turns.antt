-- ===== src/Gateway/Passing/Turns.antt =====
-- What whole rounds of the conversation of rmsgw/gateway.c pass on.
use rmsgw.Prelude.{
  ℕ, zero, suc, ◌+◌, ◌≤◌, ◌≡◌, refl, ap, ◌∙◌, ◌⊎◌, inl, inr, Option, none, some, List, [], ◌∷◌,
  ◌++◌, append-nil, arith, ltb, Bool-cases, length, take, All, Str, pos,
}
use rmsgw.Gateway.Relay.{concat}
use rmsgw.Status.Block.{gw_commwait, gw_sending, gw_receiving}
use rmsgw.Status.Gateways.{set_state}
use rmsgw.Gateway.Conversation.{
  Read, CmsSide, cms_quiet, cms_closed, cms_ready, Turn, Conv, Progress, going, returned, waiting,
  note, peek, cms_stage, ax25_stage, tick, is_ten, take_turn, converse, conv_timeout,
}
use rmsgw.Gateway.Passing.{
  Moved, Moved-then, Moved-still, Same, came_of, down_of, FitCms, FitAx25, Went, cms_reads-Went,
  ax25_reads-Went,
}

abbrev pub side_came : CmsSide → Str
side_came cms_quiet = []
side_came (cms_closed k) = []
side_came (cms_ready peeked reads) = came_of reads

abbrev pub side_down : CmsSide → Str
side_down cms_quiet = []
side_down (cms_closed k) = []
side_down (cms_ready peeked reads) = down_of reads

abbrev pub side_up : Option (List Read) → Str
side_up none = []
side_up (some reads) = came_of reads

abbrev pub turns_came : List Turn → Str
turns_came [] = []
turns_came (t ∷ turns) = side_came t.cms_side ++ turns_came turns

abbrev pub turns_down : List Turn → Str
turns_down [] = []
turns_down (t ∷ turns) = side_down t.cms_side ++ turns_down turns

abbrev pub turns_up : List Turn → Str
turns_up [] = []
turns_up (t ∷ turns) = side_up t.ax25_side ++ turns_up turns

-- The state that a stage ends with, and whether it goes on.
abbrev pub state_of : Progress → Conv
state_of (going c) = c
state_of (returned c) = c
state_of (waiting c) = c

-- A round goes on, or has returned by its counter.
abbrev pub Ended : Progress → Type 0
Ended p =
    ((d : Conv) × (p ≡ going d))
    ⊎ ((d : Conv) × (p ≡ returned d) × ((d.errcode ≡ pos 0) ⊎ (d.errcode ≡ pos 1)))

module _ (paclen u2 u1 : ℕ) where
  -- A round in which the CMS has not closed and all writes end.
  abbrev pub FitSide : CmsSide → Type 0
  FitSide cms_quiet = Unit
  FitSide (cms_closed k) = 1 ≤ 0
  FitSide (cms_ready peeked reads) = FitCms paclen u2 u1 reads

  abbrev pub FitOther : Option (List Read) → Type 0
  FitOther none = Unit
  FitOther (some reads) = FitAx25 paclen u2 u1 reads

  abbrev pub FitTurn : Turn → Type 0
  FitTurn t = FitSide t.cms_side × FitOther t.ax25_side

  peek-Same : (o : Option ℕ) (c : Conv) → Same c (peek paclen u2 u1 o c)
  peek-Same none c = (refl, refl, refl, refl)
  peek-Same (some b) c = (refl, refl, refl, refl)

  cms_stage-Went :
      (side : CmsSide) (c : Conv)
      → FitSide side
      → Went paclen u2 u1 (cms_stage paclen u2 u1 side c) c (side_came side) (side_down side) []
  unfolding cms_stage note
  cms_stage-Went cms_quiet c h = (c, refl, Moved-still c c (refl, refl, refl, refl))
  cms_stage-Went (cms_closed k) c h = absurd (omega arith)
  cms_stage-Went (cms_ready peeked reads) c h =
      let start = note (set_state gw_sending) (peek paclen u2 u1 peeked c) in
      let (d, e, m) = cms_reads-Went paclen u2 u1 reads start h in
      (d, e, Moved-then (Moved-still c start (peek-Same peeked c)) m)

  ax25_stage-Went :
      (side : Option (List Read)) (c : Conv)
      → FitOther side
      → Went paclen u2 u1 (ax25_stage paclen u2 u1 side c) c [] [] (side_up side)
  unfolding ax25_stage note
  ax25_stage-Went none c h = (c, refl, Moved-still c c (refl, refl, refl, refl))
  ax25_stage-Went (some reads) c h =
      let start = note (set_state gw_receiving) c in
      let (d, e, m) = ax25_reads-Went paclen u2 u1 reads start h in
      (d, e, Moved-then (Moved-still c start (refl, refl, refl, refl)) m)

  tick-Ended : (c : Conv) → Ended (tick paclen u2 u1 c) × Same c (state_of (tick paclen u2 u1 c))
  unfolding tick note
  tick-Ended c = elim (Bool-cases (ltb conv_timeout (c.loop + 1))) [
    | inl late ↦ elim (Bool-cases (is_ten c.errcode)) [
      | inl ten ↦ rw (late, ten) (inr (_, refl, inl refl), (refl, refl, refl, refl))
      | inr other ↦ rw (late, other) (inr (_, refl, inr refl), (refl, refl, refl, refl))
    ]
    | inr early ↦ rw early (inl (_, refl), (refl, refl, refl, refl))
  ]

  pub take_turn-Ended :
      (t : Turn) (c : Conv)
      → FitTurn t
      → Ended (take_turn paclen u2 u1 t c)
        × Moved c
            (state_of (take_turn paclen u2 u1 t c))
            (side_came t.cms_side)
            (side_down t.cms_side)
            (side_up t.ax25_side)
  unfolding take_turn note
  take_turn-Ended t c (hc, ha) =
      let start = note (set_state gw_commwait) c in
      let (d, e, m) = cms_stage-Went t.cms_side start hc in
      let (d', e', m') = ax25_stage-Went t.ax25_side d ha in
      let (ended, same) = tick-Ended d' in
      rw (e, e')
        (
          ended,
          record {
            down_written =
                ap concat same.0 ∙ m'.down_written ∙ append-nil (concat d.radio) ∙ m.down_written;
            up_written =
                ap concat same.1
                ∙ m'.up_written
                ∙ ap (λ s. s ++ side_up t.ax25_side) (m.up_written ∙ append-nil (concat c.uplink));
            sent_counted = omega (arith, same.2, m'.sent_counted, m.sent_counted);
            recv_counted = omega (arith, same.3, m'.recv_counted, m.recv_counted);
          },
        )

-- The conversation goes on after `k` of the rounds, all of them, or has returned with a status of 0 or 1.
abbrev pub Stopped : ℕ → List Turn → Progress → Type 0
Stopped k turns p =
    ((k ≡ length turns) × ((d : Conv) × (p ≡ going d)))
    ⊎ ((1 ≤ k) × ((d : Conv) × (p ≡ returned d) × ((d.errcode ≡ pos 0) ⊎ (d.errcode ≡ pos 1))))

-- Rounds in which the CMS does not close the connection, all writes end with everything written, and
-- each chunk from the CMS starts with another byte than a semicolon or has at least eight bytes. Then
-- the conversation goes on after all rounds, or it has returned after the first `k` of them with the
-- status 0 or 1. Of these rounds it has written to the radio client all bytes that came from the
-- CMS but the chunks that start with a keep-alive, and to the CMS all bytes that came from the
-- radio client, in their order; its counters have grown by the number of bytes that came from each side.
pub converse_lem :
    (paclen u2 u1 : ℕ) (turns : List Turn) (c : Conv)
    → All (FitTurn paclen u2 u1) turns
    → (k : ℕ) × (k ≤ length turns)
      × Stopped k turns (converse paclen u2 u1 turns c)
      × Moved c
          (state_of (converse paclen u2 u1 turns c))
          (turns_came (take k turns))
          (turns_down (take k turns))
          (turns_up (take k turns))
unfolding converse
converse_lem paclen u2 u1 [] c h =
    (zero, omega arith, inl (refl, (c, refl)), Moved-still c c (refl, refl, refl, refl))
converse_lem paclen u2 u1 (t ∷ turns) c (h, hs) =
    let (ended, m) = take_turn-Ended paclen u2 u1 t c h in
    elim ended [
      | inl (d, e) ↦
          let (k, b, rest, m') = converse_lem paclen u2 u1 turns d hs in
          let first = rw e at m in
          (
            suc k,
            omega arith,
            rw e (elim rest [
              | inl (all, x) ↦ inl (omega arith, x)
              | inr (some_rounds, x) ↦ inr (omega arith, x)
            ]),
            rw e (Moved-then first m'),
          )
      | inr (d, e, code) ↦
          let first = rw e at m in
          (
            suc zero,
            omega arith,
            rw e (inr (omega arith, (d, refl, code))),
            rw e (Moved-then first (Moved-still d d (refl, refl, refl, refl))),
          )
    ]
