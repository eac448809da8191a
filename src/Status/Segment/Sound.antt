-- ===== src/Status/Segment/Sound.antt =====
-- What holds of two processes that attach the segment of shared memory (lib/shm.c, statblock_attach of
-- lib/statblock.c) after each of their steps.
use rmsgw.Prelude.{
  ◌≡◌, refl, ap, ◌∙◌, inl, inr, Bool, true, false, not, ◌||◌, Option, none, some, List, [], ◌∷◌,
  Bool-cases, strneq,
}
use rmsgw.Status.Block.{has_magic, RmsStatus}
use rmsgw.Status.Gateways.{run_op, run_op-touched}
use rmsgw.Status.Gateways.Trace.{GwEvent}
use rmsgw.Status.Segment.{
  ShmState, not_begun, saw_none, has_id, at_test, clearing, naming, filling, is_attached, World,
  Move, cleared, named, shm_step, world_step, run_world,
}

-- The process has cleared the segment, and the magic number is not there yet.
abbrev is_naming : ShmState → Bool
is_naming naming = true
is_naming _ = false

-- It had to initialise, and has seen or written the magic number.
abbrev pub has_seen : ShmState → Bool
has_seen filling = true
has_seen (is_attached doinit) = doinit
has_seen _ = false

-- It stands between its test of the magic number and the end of its initialisation.
abbrev pub is_inside : ShmState → Bool
is_inside clearing = true
is_inside naming = true
is_inside filling = true
is_inside _ = false

abbrev is_early : ShmState → Bool
is_early not_begun = true
is_early saw_none = true
is_early _ = false

abbrev either : (ShmState → Bool) → ShmState → ShmState → Bool
either test s t = test s || test t

-- Without a segment nobody has an id; once a process has seen the magic number it is there, but for the
-- moment in which one has cleared the segment.
abbrev sound : Option RmsStatus → ShmState → ShmState → Bool
sound none s t = not (not (is_early s) || not (is_early t))
sound (some b) s t = has_magic b || (either is_naming s t || not (either has_seen s t))

or_comm : (a b : Bool) → (a || b) ≡ (b || a)
or_comm true true = refl
or_comm true false = refl
or_comm false true = refl
or_comm false false = refl

sound_comm : (segment : Option RmsStatus) (s t : ShmState) → sound segment s t ≡ sound segment t s
sound_comm none s t = ap not (or_comm (not (is_early s)) (not (is_early t)))
sound_comm (some b) s t =
    ap (λ n. has_magic b || (n || not (either has_seen s t))) (or_comm (is_naming s) (is_naming t))
    ∙ ap (λ d. has_magic b || (either is_naming t s || not d)) (or_comm (has_seen s) (has_seen t))

pub run_op-magic : (e : GwEvent) (b : RmsStatus) → has_magic (run_op e.op e.call b) ≡ has_magic b
run_op-magic e b = ap has_magic (run_op-touched e.op e.call b)

named_magic : (b : RmsStatus) → has_magic (named b) ≡ true
unfolding strneq
named_magic b = refl

seen_early : (t : ShmState) → is_early t ≡ true → has_seen t ≡ false
seen_early not_begun h = refl
seen_early saw_none h = refl
seen_early (has_id d) h = refl
seen_early (at_test d) h = refl
seen_early clearing h = refl
seen_early naming h = refl
seen_early filling h = absurd (cc)
seen_early (is_attached d) h = absurd (cc)

or_true : (a b : Bool) → b ≡ true → (a || b) ≡ true
or_true true b h = refl
or_true false b h = h

not-not : (a : Bool) → not (not a) ≡ true → a ≡ true
not-not true h = refl
not-not false h = h

-- What is left of the soundness when the magic number was missing in a test, and in the other steps.
missing : (m n d : Bool) → m ≡ false → (m || (n || not d)) ≡ true → (n || not d) ≡ true
missing true n d e h = absurd (cc)
missing false n d e h = h

module _ (blank : RmsStatus) (e : GwEvent) where
  shm_step-sound :
      (s t : ShmState) (segment : Option RmsStatus)
      → sound segment s t ≡ true
      → sound (shm_step blank e s segment).1 (shm_step blank e s segment).0 t ≡ true
  unfolding shm_step
  shm_step-sound not_begun t none h = h
  shm_step-sound not_begun t (some b) h = h
  shm_step-sound saw_none t none h =
      let unseen : has_seen t ≡ false = seen_early t (not-not (is_early t) h) in
      rw unseen (or_true (has_magic blank) _ (or_true (is_naming t) _ refl))
  shm_step-sound saw_none t (some b) h = h
  shm_step-sound (has_id doinit) t none h = absurd (cc)
  shm_step-sound (has_id doinit) t (some b) h = h
  shm_step-sound (at_test doinit) t none h = absurd (cc)
  shm_step-sound (at_test false) t (some b) h = h
  shm_step-sound (at_test true) t (some b) h = elim (Bool-cases (has_magic b)) [
    | inl m ↦ rw m refl
    | inr m ↦ rw m (rw m at h)
  ]
  shm_step-sound clearing t none h = absurd (cc)
  shm_step-sound clearing t (some b) h = or_true (has_magic cleared) _ refl
  shm_step-sound naming t none h = absurd (cc)
  shm_step-sound naming t (some b) h = rw (named_magic b) refl
  shm_step-sound filling t none h = absurd (cc)
  shm_step-sound filling t (some b) h = h
  shm_step-sound (is_attached doinit) t none h = absurd (cc)
  shm_step-sound (is_attached doinit) t (some b) h = rw (run_op-magic e b) h

module _ (blank : RmsStatus) where
  world_step-sound :
      (m : Move) (w : World)
      → sound w.segment w.one w.two ≡ true
      → let after = world_step blank m w in sound after.segment after.one after.two ≡ true
  unfolding world_step
  world_step-sound m w h = elim (Bool-cases m.who) [
    | inl first ↦ rw first (shm_step-sound blank m.event w.one w.two w.segment h)
    | inr second ↦ rw second (
        sound_comm _ _ _
        ∙ shm_step-sound blank m.event w.two w.one w.segment (sound_comm w.segment w.two w.one ∙ h))
  ]

  pub run_world-sound :
      (moves : List Move) (w : World)
      → sound w.segment w.one w.two ≡ true
      → let after = run_world blank moves w in sound after.segment after.one after.two ≡ true
  unfolding run_world
  run_world-sound [] w h = h
  run_world-sound (m ∷ moves) w h =
      run_world-sound moves (world_step blank m w) (world_step-sound m w h)

out_naming : (s : ShmState) → is_inside s ≡ false → is_naming s ≡ false
out_naming naming h = absurd (cc)
out_naming not_begun h = refl
out_naming saw_none h = refl
out_naming (has_id d) h = refl
out_naming (at_test d) h = refl
out_naming clearing h = refl
out_naming filling h = refl
out_naming (is_attached d) h = refl

seen_late : (s : ShmState) → has_seen s ≡ true → is_early s ≡ false
seen_late s h = elim (Bool-cases (is_early s)) [
  | inl early ↦ absurd (cc (seen_early s early))
  | inr late ↦ late
]

either_late : (s t : ShmState) → either has_seen s t ≡ true → sound none s t ≡ false
either_late s t h = elim (Bool-cases (has_seen s)) [
  | inl seen ↦ rw (seen_late s seen) refl
  | inr unseen ↦
      let late : is_early t ≡ false = seen_late t (rw unseen at h) in
      rw (late, or_comm (not (is_early s)) true) refl
]

pub settled :
    (segment : Option RmsStatus) (s t : ShmState)
    → sound segment s t ≡ true
    → is_inside s ≡ false
    → is_inside t ≡ false
    → either has_seen s t ≡ true
    → (b : RmsStatus) × (segment ≡ some b) × (has_magic b ≡ true)
settled none s t h a c seen = absurd (cc (either_late s t seen))
settled (some b) s t h a c seen =
    let left : (has_magic b || false) ≡ true = rw (out_naming s a, out_naming t c, seen) at h in
    (b, refl, or_comm false (has_magic b) ∙ left)
