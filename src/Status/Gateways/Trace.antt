-- ===== src/Status/Gateways/Trace.antt =====
-- Sequences of operations on the gateway table of lib/statblock.c, as several gateway processes make
-- them on one block.
use rmsgw.Prelude.{
  ◌≡◌, refl, sym, ◌∙◌, ◌≢◌, ◌⊎◌, inl, inr, true, false, some, List, [], ◌∷◌, if◌then◌else◌,
  Bool-cases, take, All, Str, streq, streq_iff,
}
use mathlib.Core.Path.{subst}
use rmsgw.Status.Slots.Views.{Comparable}
use rmsgw.Status.Block.{RmsStatus, RmsgwStat, maxgwcall}
use rmsgw.Status.Gateways.{
  GwOp, run_op, effect, gw_of, GwApart, IsGwTable, run_op-IsGwTable, gw_of-run_op_self,
  gw_of-run_op_apart,
}

-- An operation that a gateway makes under its call sign.
pub record GwEvent : Type 0 where
  pub op : GwOp
  pub call : Str

unfoldable pub run_events : List GwEvent → RmsStatus → RmsStatus
run_events [] p = p
run_events (e ∷ events) p = run_events events (run_op e.op e.call p)

-- What the operations of one gateway do to its entry, without a table and without the others.
abbrev pub own_effects : Str → List GwEvent → RmsgwStat → RmsgwStat
own_effects call [] g = g
own_effects call (e ∷ events) g =
    own_effects call events (if streq e.call call then effect e.op g else g)

-- An operation of the gateway itself, or of one that its name is not mixed up with.
abbrev pub IsForeign : Str → GwEvent → Type 0
IsForeign call e = (e.call ≢ []) × ((e.call ≡ call) ⊎ GwApart e.call call)

Comparable-refl : (a : Str) → Comparable a a
Comparable-refl [] = tt
Comparable-refl (c ∷ a) = (refl, Comparable-refl a)

streq-Apart : (a b : Str) → GwApart a b → streq a b ≡ false
streq-Apart a b apart = elim (Bool-cases (streq a b)) [
  | inl same ↦ absurd (apart (rw ((streq_iff a b).0 same) (Comparable-refl (take maxgwcall b))))
  | inr other ↦ other
]

pub own_step :
    (op : GwOp) (call : Str) (p : RmsStatus) {g : RmsgwStat}
    → call ≢ []
    → gw_of p call ≡ some g
    → gw_of (run_op op call p) call ≡ some (effect op g)
own_step op call p ne e = gw_of-run_op_self op call p ne ∙ rw e refl

-- When a gateway has an entry, the table was filled from the front, and each operation of a sequence is
-- its own or that of a gateway whose call sign is not mixed up with its, the sequence leaves for it
-- the entry that its own operations make of the old one, whatever the others do in between.
pub gw_of-run_events :
    (events : List GwEvent) (call : Str) (p : RmsStatus) {g : RmsgwStat}
    → All (IsForeign call) events
    → IsGwTable p
    → gw_of p call ≡ some g
    → gw_of (run_events events p) call ≡ some (own_effects call events g)
unfolding run_events
gw_of-run_events [] call p hs v e = e
gw_of-run_events (x ∷ events) call p {g = g} ((ne, inl same), hs) v e =
    let q = run_op x.op x.call p in
    let mine : streq x.call call ≡ true = (streq_iff x.call call).1 same in
    let step : gw_of q call ≡ some (effect x.op g) =
      subst (λ c. gw_of (run_op x.op c p) call ≡ some (effect x.op g)) (sym same)
        (own_step x.op call p (rw same at ne) e) in
    rw mine (gw_of-run_events events call q hs (run_op-IsGwTable x.op x.call p ne v) step)
gw_of-run_events (x ∷ events) call p {g = g} ((ne, inr apart), hs) v e =
    let q = run_op x.op x.call p in
    let step : gw_of q call ≡ some g = gw_of-run_op_apart x.op x.call call p apart v ∙ e in
    rw (streq-Apart x.call call apart)
      (gw_of-run_events events call q hs (run_op-IsGwTable x.op x.call p ne v) step)
