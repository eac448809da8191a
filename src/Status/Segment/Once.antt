-- ===== src/Status/Segment/Once.antt =====
-- Two processes that attach the segment of shared memory (lib/shm.c, statblock_attach of
-- lib/statblock.c): once it has been initialised, this is not done again.
use rmsgw.Prelude.{
  ◌≡◌, refl, sym, ap, ◌∙◌, inl, inr, Bool, true, false, ◌||◌, some, List, [], ◌∷◌, ◌++◌, append-nil,
  append_assoc, if◌then◌else◌, Bool-cases,
}
use rmsgw.Status.Block.{has_magic, RmsStatus, initial_block, statblock_attach}
use rmsgw.Status.Gateways.{run_op}
use rmsgw.Status.Gateways.Trace.{GwEvent, run_events}
use rmsgw.Status.Segment.{
  ShmState, not_begun, saw_none, has_id, at_test, clearing, naming, filling, is_attached, World,
  Move, shm_step, made_in, world_step, run_world, no_segment,
}
use rmsgw.Status.Segment.Sound.{has_seen, is_inside, run_op-magic, run_world-sound, settled}

module _ (blank : RmsStatus) (e : GwEvent) where
  -- A step of a process that is not inside, on a segment with the magic number.
  shm_step-kept :
      (s : ShmState) (b : RmsStatus)
      → has_magic b ≡ true
      → is_inside s ≡ false
      → let after = run_events (made_in blank e s) b in
        ((shm_step blank e s (some b)).1 ≡ some after)
        × (has_magic after ≡ true)
        × (is_inside (shm_step blank e s (some b)).0 ≡ false)
  unfolding shm_step run_events
  shm_step-kept not_begun b m o = (refl, m, refl)
  shm_step-kept saw_none b m o = (refl, m, refl)
  shm_step-kept (has_id doinit) b m o = (refl, m, refl)
  shm_step-kept (at_test false) b m o = (refl, m, refl)
  shm_step-kept (at_test true) b m o = (refl, m, rw m refl)
  shm_step-kept clearing b m o = absurd (cc)
  shm_step-kept naming b m o = absurd (cc)
  shm_step-kept filling b m o = absurd (cc)
  shm_step-kept (is_attached doinit) b m o = (refl, run_op-magic e b ∙ m, refl)

-- The segment has the magic number, and no process is inside.
record Settled (w : World) (b : RmsStatus) : Type 0 where
  pub there : w.segment ≡ some b
  pub magic : has_magic b ≡ true
  pub one_out : is_inside w.one ≡ false
  pub two_out : is_inside w.two ≡ false

run_events-append :
    (a c : List GwEvent) (b : RmsStatus) → run_events (a ++ c) b ≡ run_events c (run_events a b)
unfolding run_events
run_events-append [] c b = refl
run_events-append (e ∷ a) c b = run_events-append a c (run_op e.op e.call b)

-- The world behind some moves: the operations that were made in them, and no other change.
abbrev Goes : RmsStatus → World → World → Type 0
Goes b w after =
    (new : List GwEvent) × (after.log ≡ w.log ++ new) × Settled after (run_events new b)

module _ (blank : RmsStatus) where
  world_step-Settled :
      (m : Move) (w : World) {b : RmsStatus} → Settled w b → Goes b w (world_step blank m w)
  unfolding world_step
  world_step-Settled m w {b = b} v = elim (Bool-cases m.who) [
    | inl first ↦
        let (now, magic, out) = shm_step-kept blank m.event w.one b v.magic v.one_out in
        rw first (
          made_in blank m.event w.one,
          refl,
          record {
            there = ap (λ o. (shm_step blank m.event w.one o).1) v.there ∙ now;
            magic = magic;
            one_out = ap (λ o. is_inside (shm_step blank m.event w.one o).0) v.there ∙ out;
            two_out = v.two_out;
          },
        )
    | inr second ↦
        let (now, magic, out) = shm_step-kept blank m.event w.two b v.magic v.two_out in
        rw second (
          made_in blank m.event w.two,
          refl,
          record {
            there = ap (λ o. (shm_step blank m.event w.two o).1) v.there ∙ now;
            magic = magic;
            one_out = v.one_out;
            two_out = ap (λ o. is_inside (shm_step blank m.event w.two o).0) v.there ∙ out;
          },
        )
  ]

  run_world-Settled :
      (moves : List Move) (w : World) {b : RmsStatus}
      → Settled w b
      → Goes b w (run_world blank moves w)
  unfolding run_world run_events
  run_world-Settled [] w v = ([], sym (append-nil w.log), v)
  run_world-Settled (m ∷ moves) w {b = b} v =
      let (a, logged, u) = world_step-Settled m w v in
      let (c, rest, end) = run_world-Settled moves (world_step blank m w) u in
      (a ++ c, rest ∙ ap (λ l. l ++ c) logged ∙ append_assoc w.log a c, rw run_events-append end)

-- Two processes get and attach the segment of shared memory, which is not there at first, and then work
-- on the gateway table; the steps of both, the test of the magic number, the clearing and the
-- initialisation among them, come in any order. At any moment at which one that had to initialise has
-- seen the magic number, and neither stands between its test and the end of its initialisation, the
-- segment is there with the magic number, and from then on, whatever the two do, only the operations
-- that they make on the table change it: it is not initialised again.
pub run_world_lem :
    (blank : RmsStatus) (moves later : List Move)
    → is_inside (run_world blank moves no_segment).one ≡ false
    → is_inside (run_world blank moves no_segment).two ≡ false
    → (has_seen (run_world blank moves no_segment).one
        || has_seen (run_world blank moves no_segment).two)
      ≡ true
    → let w = run_world blank moves no_segment in
      let after = run_world blank later w in
      (b : RmsStatus) × (w.segment ≡ some b)
      × (has_magic b ≡ true)
      × (new : List GwEvent) × (after.log ≡ w.log ++ new)
      × (after.segment ≡ some (run_events new b))
run_world_lem blank moves later a c seen =
    let w = run_world blank moves no_segment in
    let sound_there = run_world-sound blank moves no_segment refl in
    let (b, there, magic) = settled w.segment w.one w.two sound_there a c seen in
    let (new, log, end) =
      run_world-Settled blank later w
        (record { there = there; magic = magic; one_out = a; two_out = c }) in
    (b, there, magic, new, log, end.there)

-- On a segment without the magic number, the four steps of the process that created it, when nobody comes
-- between, make of it what `statblock_attach` as a whole does.
pub shm_step-statblock_attach :
    (blank b : RmsStatus) (e : GwEvent) (t : ShmState) (log : List GwEvent)
    → has_magic b ≡ false
    → let m : Move = record { who = true; event = e } in
      let w : World = record { segment = some b; one = at_test true; two = t; log = log } in
      (run_world blank (m ∷ m ∷ m ∷ m ∷ []) w).segment ≡ statblock_attach (some true) (some b)
unfolding run_world world_step shm_step statblock_attach initial_block
shm_step-statblock_attach blank b e t log h =
    let m : Move = record { who = true; event = e } in
    let tested : Bool → World = λ x. record {
      segment = some b;
      one = if x then is_attached true else clearing;
      two = t;
      log = log ++ [];
    } in
    ap (λ x. (run_world blank (m ∷ m ∷ m ∷ []) (tested x)).segment) h
    ∙ ap (λ x. some (if x then b else initial_block)) (sym h)
