-- ===== src/Status/Gateways.antt =====
-- The gateway table of lib/statblock.c: what each operation does to the entry of a call sign.
pub mod Trace
use rmsgw.Prelude.{
  ℕ, ◌+◌, ◌%◌, ◌≤◌, min, ◌≡◌, refl, ap, ◌∙◌, ◌≢◌, true, false, Option, none, some, List, [], ◌∷◌,
  ◌++◌, arith, leb, length, modify, take, Str, strneq, ℤ, to_size,
}
use rmsgw.Status.Slots.{find_slot, change_slot, matches, is_empty}
use rmsgw.Status.Slots.Pass.{touched, change_slot-touched}
use rmsgw.Status.Slots.Views.{
  IsPacked, entry_of, first_empty, KeepsName, changed, Apart, entry_of-touched_self,
  entry_of-touched-Apart, touched-IsPacked, length-touched,
}
use rmsgw.Status.Block.{
  RmsStatus, RmsgwStat, GwState, gw_named, maxgwcall, maxusercall, rms_maxhostname,
  rms_gw_table_size, u64_mod, at_gw_slot, sbset_gw_state, sbset_gw_pid, sbset_gw_usercall,
  sbset_gw_cms, sb_incr_gw_connects, sb_add_gw_bytes_in, sb_add_gw_bytes_out,
}

-- The entry that the table has for a call sign.
abbrev pub gw_of : RmsStatus → Str → Option RmsgwStat
gw_of p call = entry_of gw_named maxgwcall p.rmsgw call

abbrev pub GwApart : Str → Str → Type 0
GwApart a b = Apart gw_named maxgwcall a b

-- The table has its size and was filled from the front.
pub record IsGwTable (p : RmsStatus) : Type 0 where
  pub size : length p.rmsgw ≡ rms_gw_table_size
  pub packed : IsPacked gw_named maxgwcall p.rmsgw

-- The operations on the gateway table, as the gateway process calls them.
pub data GwOp : Type 0 where
  set_state : GwState → GwOp
  set_pid : ℤ → GwOp
  set_usercall : Option Str → GwOp
  set_cms : Option Str → GwOp
  incr_connects : GwOp
  add_bytes_in : ℤ → GwOp
  add_bytes_out : ℤ → GwOp

unfoldable pub run_op : GwOp → Str → RmsStatus → RmsStatus
run_op (set_state s) gwcall p = sbset_gw_state p s gwcall
run_op (set_pid pid) gwcall p = sbset_gw_pid p gwcall pid
run_op (set_usercall call) gwcall p = sbset_gw_usercall p gwcall call
run_op (set_cms host) gwcall p = sbset_gw_cms p gwcall host
run_op incr_connects gwcall p = sb_incr_gw_connects p gwcall
run_op (add_bytes_in count) gwcall p = sb_add_gw_bytes_in p gwcall count
run_op (add_bytes_out count) gwcall p = sb_add_gw_bytes_out p gwcall count

-- What an operation is to do to an entry: one field, and a counter modulo 2 ^ 64.
unfoldable pub effect : GwOp → RmsgwStat → RmsgwStat
effect (set_state s) g = record g { gw_state = s }
effect (set_pid pid) g = record g { gw_pid = pid }
effect (set_usercall none) g = g
effect (set_usercall (some call)) g = record g { gw_client = take maxusercall call }
effect (set_cms none) g = g
effect (set_cms (some host)) g = record g { gw_cms = take rms_maxhostname host }
effect incr_connects g = record g { gw_connects = (g.gw_connects + 1) % u64_mod }
effect (add_bytes_in count) g = record g { gw_bytes_in = (g.gw_bytes_in + to_size count) % u64_mod }
effect (add_bytes_out count) g = record g {
  gw_bytes_out = (g.gw_bytes_out + to_size count) % u64_mod;
}

effect-KeepsName : (op : GwOp) → KeepsName gw_named maxgwcall (effect op)
unfolding effect
effect-KeepsName (set_state s) g = refl
effect-KeepsName (set_pid pid) g = refl
effect-KeepsName (set_usercall none) g = refl
effect-KeepsName (set_usercall (some call)) g = refl
effect-KeepsName (set_cms none) g = refl
effect-KeepsName (set_cms (some host)) g = refl
effect-KeepsName incr_connects g = refl
effect-KeepsName (add_bytes_in count) g = refl
effect-KeepsName (add_bytes_out count) g = refl

at_gw_slot-touched :
    (p : RmsStatus) (call : Str) (f : RmsgwStat → RmsgwStat)
    → at_gw_slot p call f ≡ record p { rmsgw = touched gw_named maxgwcall p.rmsgw call f }
unfolding at_gw_slot
at_gw_slot-touched p call f =
    after (find_slot gw_named maxgwcall p.rmsgw call 0)
    ∙ ap (λ t. record p { rmsgw = t })
        (unfold change_slot in change_slot-touched gw_named maxgwcall p.rmsgw call f)
  where
    after :
        (r : List RmsgwStat × Option ℕ)
        → (elim r.1 [
          | none ↦ record p { rmsgw = r.0 }
          | some i ↦ record p { rmsgw = modify r.0 i f }
        ])
          ≡ record p { rmsgw = elim r.1 [ none ↦ r.0 | some i ↦ modify r.0 i f ] }
    after (t, none) = refl
    after (t, some i) = refl

pub run_op-touched :
    (op : GwOp) (call : Str) (p : RmsStatus)
    → run_op op call p ≡ record p { rmsgw = touched gw_named maxgwcall p.rmsgw call (effect op) }
unfolding run_op effect sbset_gw_state sbset_gw_pid sbset_gw_usercall sbset_gw_cms
    sb_incr_gw_connects sb_add_gw_bytes_in sb_add_gw_bytes_out
run_op-touched (set_state s) call p = at_gw_slot-touched p call (effect (set_state s))
run_op-touched (set_pid pid) call p = at_gw_slot-touched p call (effect (set_pid pid))
run_op-touched (set_usercall none) call p = at_gw_slot-touched p call (effect (set_usercall none))
run_op-touched (set_usercall (some c)) call p =
    at_gw_slot-touched p call (effect (set_usercall (some c)))
run_op-touched (set_cms none) call p = at_gw_slot-touched p call (effect (set_cms none))
run_op-touched (set_cms (some h)) call p = at_gw_slot-touched p call (effect (set_cms (some h)))
run_op-touched incr_connects call p = at_gw_slot-touched p call (effect incr_connects)
run_op-touched (add_bytes_in count) call p = at_gw_slot-touched p call (effect (add_bytes_in count))
run_op-touched (add_bytes_out count) call p =
    at_gw_slot-touched p call (effect (add_bytes_out count))

take-ne-nil : (call : Str) → call ≢ [] → take maxgwcall call ≢ []
take-ne-nil [] ne e = ne refl
take-ne-nil (c ∷ call) ne e = cc

-- Every operation on the gateway table keeps the table's size and its filling from the front, for a
-- call sign that is not empty.
pub run_op-IsGwTable :
    (op : GwOp) (call : Str) (p : RmsStatus)
    → call ≢ []
    → IsGwTable p
    → IsGwTable (run_op op call p)
run_op-IsGwTable op call p ne v = rw run_op-touched (record {
  size = length-touched gw_named maxgwcall p.rmsgw call (effect op) ∙ v.size;
  packed =
      touched-IsPacked gw_named maxgwcall p.rmsgw call (effect op) (effect-KeepsName op)
        (take-ne-nil call ne) v.packed;
})

-- After an operation for a call sign that is not empty, the table has for it the entry that it had,
-- or else the first free one under the call sign's first nine bytes, with the operation's effect
-- on it; in a full table it has none.
pub gw_of-run_op_self :
    (op : GwOp) (call : Str) (p : RmsStatus)
    → call ≢ []
    → gw_of (run_op op call p) call
      ≡ changed gw_named maxgwcall call
          (effect op)
          (gw_of p call)
          (first_empty gw_named maxgwcall p.rmsgw)
gw_of-run_op_self op call p ne = rw run_op-touched (
    entry_of-touched_self gw_named maxgwcall p.rmsgw call (effect op) (effect-KeepsName op)
      (take-ne-nil call ne))

-- Operations for one call sign leave the entry of another alone, when neither call sign's first nine
-- bytes begin with the other's and the table was filled from the front.
pub gw_of-run_op_apart :
    (op : GwOp) (a b : Str) (p : RmsStatus)
    → GwApart a b
    → IsGwTable p
    → gw_of (run_op op a p) b ≡ gw_of p b
gw_of-run_op_apart op a b p apart v = rw run_op-touched (
    entry_of-touched-Apart gw_named maxgwcall p.rmsgw a b (effect op) (effect-KeepsName op) apart
      v.packed)

strneq-append : (a rest : Str) → strneq a (a ++ rest) (length a) ≡ true
unfolding strneq
strneq-append [] rest = refl
strneq-append (c ∷ a) rest = ground (arith, strneq-append a rest)

shorter : (n : ℕ) → n ≤ maxgwcall → min maxgwcall n ≡ n
shorter n h = omega arith

not_empty : (a rest : Str) (c : ℕ) → leb (length (a ++ (c ∷ rest))) 0 ≡ false
not_empty [] rest c = ground arith
not_empty (x ∷ a) rest c = ground arith

-- A call sign that is a proper beginning of the first gateway's is taken for that gateway: when the
-- first entry is named `call ++ (c ∷ rest)`, every operation for `call`, not empty and of at most
-- nine bytes, is made on that entry, whatever else the table holds.
pub gw_of-run_op_prefix :
    (op : GwOp) (call rest : Str) (c : ℕ) (p : RmsStatus) {g : RmsgwStat} {table : List RmsgwStat}
    → call ≢ []
    → length call ≤ maxgwcall
    → g.gw_gwcall ≡ call ++ (c ∷ rest)
    → p.rmsgw ≡ g ∷ table
    → (run_op op call p).rmsgw ≡ effect op g ∷ table
unfolding touched
gw_of-run_op_prefix op call rest c p {g} {table} ne fits name first =
    let found : matches gw_named maxgwcall call g ≡ true =
      unfold matches in rw (name, shorter (length call) fits) (strneq-append call (c ∷ rest)) in
    let taken : is_empty gw_named maxgwcall g ≡ false =
      unfold is_empty in rw name (not_empty call rest c) in
    rw (run_op-touched op call p, first) (rw (taken, found))
