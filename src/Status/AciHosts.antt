-- ===== src/Status/AciHosts.antt =====
-- The CMS host table of lib/statblock.c: what each operation does to the counters of a host.
use rmsgw.Prelude.{
  ℕ, ◌+◌, ◌%◌, ◌≡◌, refl, sym, ap, ◌∙◌, ◌≢◌, Option, none, some, List, [], ◌∷◌, length, modify,
  take, Str, ℤ,
}
use mathlib.Core.Path.{subst}
use rmsgw.Status.Slots.{find_slot, change_slot}
use rmsgw.Status.Slots.Pass.{touched, change_slot-touched}
use rmsgw.Status.Slots.Views.{
  IsPacked, entry_of, first_empty, KeepsName, changed, Apart, entry_of-touched_self,
  entry_of-touched-Apart, touched-IsPacked, length-touched,
}
use rmsgw.Status.Block.{
  RmsStatus, AciHostStat, aci_named, rms_maxhostname, rms_cms_table_size, u64_mod, to_u32,
  publish_slot, change_host, at_cms_slot, sb_incr_aci_error, sb_incr_aci_checkin,
  sbset_channel_stats,
}

abbrev pub hosts : RmsStatus → List AciHostStat
hosts p = p.aci.aci_hosts

abbrev pub host_of : RmsStatus → Str → Option AciHostStat
host_of p name = entry_of aci_named rms_maxhostname (hosts p) name

-- The operations on the host table, with the time at which they are made.
pub data AciOp : Type 0 where
  failure : ℕ → AciOp
  checkin : ℕ → AciOp
  channel_stats : ℤ → ℤ → AciOp

unfoldable pub run_aci : AciOp → Str → RmsStatus → RmsStatus
run_aci (failure now) cms_host p = sb_incr_aci_error p cms_host now
run_aci (checkin now) cms_host p = sb_incr_aci_checkin p cms_host now
run_aci (channel_stats updates errors) cms_host p = sbset_channel_stats p cms_host updates errors

-- What an operation is to do to the entry of the host: a failure counts twice, a check-in counts once
-- and ends the run of failures.
pub aci_effect : AciOp → AciHostStat → AciHostStat
aci_effect (failure now) h = record h {
  aci_host_last_failure = now;
  aci_host_tot_fail_count = (h.aci_host_tot_fail_count + 1) % u64_mod;
  aci_host_cur_fail_count = (h.aci_host_cur_fail_count + 1) % u64_mod;
}
aci_effect (checkin now) h = record h {
  aci_host_last_ci = now;
  aci_host_ci_count = (h.aci_host_ci_count + 1) % u64_mod;
  aci_host_cur_fail_count = 0;
}
aci_effect (channel_stats updates errors) h = record h {
  aci_host_cur_channel_updates = to_u32 updates;
  aci_host_cur_channel_errors = to_u32 errors;
}

aci_effect-KeepsName : (op : AciOp) → KeepsName aci_named rms_maxhostname (aci_effect op)
unfolding aci_effect
aci_effect-KeepsName (failure now) h = refl
aci_effect-KeepsName (checkin now) h = refl
aci_effect-KeepsName (channel_stats updates errors) h = refl

hosts-change_host :
    (p : RmsStatus) (r : List AciHostStat × Option ℕ) (f : AciHostStat → AciHostStat)
    → hosts (change_host (publish_slot p r) f) ≡ elim r.1 [ none ↦ r.0 | some i ↦ modify r.0 i f ]
unfolding change_host publish_slot
hosts-change_host p (t, none) f = refl
hosts-change_host p (t, some i) f = refl

hosts-at_cms_slot :
    (p : RmsStatus) (name : Str) (f : AciHostStat → AciHostStat)
    → hosts (at_cms_slot p name f) ≡ touched aci_named rms_maxhostname (hosts p) name f
unfolding at_cms_slot
hosts-at_cms_slot p name f =
    hosts-change_host p (find_slot aci_named rms_maxhostname (hosts p) name 0) f
    ∙ (unfold change_slot in change_slot-touched aci_named rms_maxhostname (hosts p) name f)

hosts-run_aci :
    (op : AciOp) (name : Str) (p : RmsStatus)
    → hosts (run_aci op name p) ≡ touched aci_named rms_maxhostname (hosts p) name (aci_effect op)
unfolding run_aci aci_effect sb_incr_aci_error sb_incr_aci_checkin sbset_channel_stats
hosts-run_aci (failure now) name p = hosts-at_cms_slot p name (aci_effect (failure now))
hosts-run_aci (checkin now) name p = hosts-at_cms_slot p name (aci_effect (checkin now))
hosts-run_aci (channel_stats u e) name p = hosts-at_cms_slot p name (aci_effect (channel_stats u e))

take-ne-nil : (name : Str) → name ≢ [] → take rms_maxhostname name ≢ []
take-ne-nil [] ne e = ne refl
take-ne-nil (c ∷ name) ne e = cc

-- The host table has its size and was filled from the front.
pub record IsHostTable (p : RmsStatus) : Type 0 where
  pub size : length (hosts p) ≡ rms_cms_table_size
  pub packed : IsPacked aci_named rms_maxhostname (hosts p)

-- Every operation on the host table, for a host name that is not empty, keeps the table's size and
-- its filling from the front; the table then has for the host the entry that it had, or else the
-- first free one under the name's first 64 bytes, with the operation's effect on it, and none if it
-- was full; and it has what it had for another host, when the first 64 bytes of neither name begin
-- with those of the other.
pub host_of-run_aci :
    (op : AciOp) (name other : Str) (p : RmsStatus)
    → name ≢ []
    → IsHostTable p
    → Apart aci_named rms_maxhostname name other
    → IsHostTable (run_aci op name p)
      × (host_of (run_aci op name p) name
          ≡ changed aci_named rms_maxhostname name
              (aci_effect op)
              (host_of p name)
              (first_empty aci_named rms_maxhostname (hosts p)))
      × (host_of (run_aci op name p) other ≡ host_of p other)
host_of-run_aci op name other p ne v apart =
    let keeps = aci_effect-KeepsName op in
    (
      record {
        size =
            ap length (hosts-run_aci op name p)
            ∙ length-touched aci_named rms_maxhostname (hosts p) name (aci_effect op)
            ∙ v.size;
        packed = subst (IsPacked aci_named rms_maxhostname) (sym (hosts-run_aci op name p)) (
            touched-IsPacked aci_named rms_maxhostname (hosts p) name (aci_effect op) keeps
              (take-ne-nil name ne) v.packed);
      },
      ap (λ t. entry_of aci_named rms_maxhostname t name) (hosts-run_aci op name p)
          ∙ entry_of-touched_self aci_named rms_maxhostname (hosts p) name (aci_effect op) keeps
              (take-ne-nil name ne),
      ap (λ t. entry_of aci_named rms_maxhostname t other) (hosts-run_aci op name p)
          ∙ entry_of-touched-Apart aci_named rms_maxhostname (hosts p) name other (aci_effect op)
              keeps apart v.packed,
    )
