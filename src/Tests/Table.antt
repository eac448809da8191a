-- ===== src/Tests/Table.antt =====
-- The status block on concrete inputs.
use rmsgw.Status.Slots.{find_slot, matches, is_empty}
use rmsgw.Prelude.{
  inl, inr, ◌≡◌, refl, ◌⊎◌, true, false, some, List, [], ◌∷◌, arith, drop, codes, strneq, negsuc,
}
use rmsgw.Status.Slots.Views.{first_empty, changed, entry_of}
use rmsgw.Status.Block.{
  RmsStatus, RmsgwStat, gw_running, gw_unused, gw_named, aci_named, maxgwcall, rms_maxhostname,
  has_magic, initial_block, statblock_attach, sb_incr_gw_connects, at_gw_slot, get_gw_slot,
}
use rmsgw.Status.Gateways.{
  set_state, incr_connects, run_op, effect, gw_of, IsGwTable, run_op-IsGwTable, gw_of-run_op_self,
  gw_of-run_op_apart, gw_of-run_op_prefix,
}
use rmsgw.Status.AciHosts.{
  failure, run_aci, aci_effect, host_of, hosts, IsHostTable, host_of-run_aci,
}
use rmsgw.Status.Gateways.Trace.{GwEvent, run_events, own_effects, gw_of-run_events}
use rmsgw.Status.Attach.{initial_block-IsGwTable, initial_block-IsHostTable, statblock_attach_lem}

statblock_attach_lem_example :
    ((some (record initial_block { rms_hdr_magic = [] }) ≡ some initial_block)
      × ((some true ≡ some false) ⊎ (has_magic initial_block ≡ true)))
    ⊎ ((old : RmsStatus) × (some (record initial_block { rms_hdr_magic = [] }) ≡ some old)
        × (some true ≡ some true)
        × (has_magic old ≡ false)
        × (has_magic initial_block ≡ true)
        × IsGwTable initial_block
        × IsHostTable initial_block)
unfolding statblock_attach strneq
statblock_attach_lem_example =
    statblock_attach_lem (some true) (some (record initial_block { rms_hdr_magic = [] })) refl

abbrev one_gateway : RmsStatus
one_gateway = run_op incr_connects (codes "W1AW-10") initial_block

run_op-IsGwTable_example : IsGwTable (run_op incr_connects (codes "W1AW-10") initial_block)
run_op-IsGwTable_example =
    run_op-IsGwTable incr_connects (codes "W1AW-10") initial_block (λ e. cc) initial_block-IsGwTable

gw_of-run_op_self_example :
    gw_of (run_op incr_connects (codes "W1AW-10") initial_block) (codes "W1AW-10")
    ≡ changed gw_named maxgwcall
        (codes "W1AW-10")
        (effect incr_connects)
        (gw_of initial_block (codes "W1AW-10"))
        (first_empty gw_named maxgwcall initial_block.rmsgw)
gw_of-run_op_self_example =
    gw_of-run_op_self incr_connects (codes "W1AW-10") initial_block (λ e. cc)

gw_of-run_op_apart_example :
    gw_of (run_op (set_state gw_running) (codes "N0CALL") one_gateway) (codes "W1AW-10")
    ≡ gw_of one_gateway (codes "W1AW-10")
gw_of-run_op_apart_example =
    gw_of-run_op_apart (set_state gw_running) (codes "N0CALL") (codes "W1AW-10") one_gateway
      (λ c. ground arith) run_op-IsGwTable_example

abbrev w1aw_10 : RmsgwStat
w1aw_10 = record {
  gw_pid = negsuc 0;
  gw_state = gw_unused;
  gw_gwcall = codes "W1AW-10";
  gw_client = [];
  gw_cms = [];
  gw_connects = 1;
  gw_bytes_in = 0;
  gw_bytes_out = 0;
}

abbrev others : List RmsgwStat
others = drop 1 initial_block.rmsgw

gw_of-run_op_prefix_example :
    (run_op incr_connects
      (codes "W1AW-1")
      (record initial_block { rmsgw = w1aw_10 ∷ others })).rmsgw
    ≡ effect incr_connects w1aw_10 ∷ others
gw_of-run_op_prefix_example =
    gw_of-run_op_prefix incr_connects (codes "W1AW-1") [] b'0'
      (record initial_block { rmsgw = w1aw_10 ∷ others }) (λ e. cc) (omega arith) refl refl

host_of-run_aci_example :
    IsHostTable (run_aci (failure 9) (codes "cms-a") initial_block)
    × (host_of (run_aci (failure 9) (codes "cms-a") initial_block) (codes "cms-a")
        ≡ changed aci_named rms_maxhostname
            (codes "cms-a")
            (aci_effect (failure 9))
            (host_of initial_block (codes "cms-a"))
            (first_empty aci_named rms_maxhostname (hosts initial_block)))
    × (host_of (run_aci (failure 9) (codes "cms-a") initial_block) (codes "perth")
        ≡ host_of initial_block (codes "perth"))
host_of-run_aci_example =
    host_of-run_aci (failure 9) (codes "cms-a") (codes "perth") initial_block (λ e. cc)
      initial_block-IsHostTable (λ c. ground arith)

one_gateway_has : gw_of one_gateway (codes "W1AW-10") ≡ some w1aw_10
unfolding run_op sb_incr_gw_connects at_gw_slot get_gw_slot find_slot matches is_empty strneq
    entry_of initial_block
one_gateway_has = refl

abbrev interleaved : List GwEvent
interleaved =
    record { op = incr_connects; call = codes "W1AW-10" }
    ∷ record { op = set_state gw_running; call = codes "N0CALL" }
    ∷ []

gw_of-run_events_example :
    gw_of (run_events interleaved one_gateway) (codes "W1AW-10")
    ≡ some (own_effects (codes "W1AW-10") interleaved w1aw_10)
gw_of-run_events_example =
    gw_of-run_events interleaved (codes "W1AW-10") one_gateway
      (((λ e. cc), inl refl), (((λ e. cc), inr (λ c. ground arith)), tt)) run_op-IsGwTable_example
      one_gateway_has
