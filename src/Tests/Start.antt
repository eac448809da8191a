-- ===== src/Tests/Start.antt =====
-- The environment, the segment, the connection and the counters of a session on concrete inputs.
use rmsgw.Prelude.{
  ◌≡◌, refl, ◌↔◌, Bool, true, false, none, some, List, [], ◌∷◌, ◌++◌, arith, All, Str, codes,
  strneq, lacks_lem, is_c_str_lem, pos, negsuc, is_neg,
}
use rmsgw.Config.Mapname.Entries.{NamedValue, entry_text, text_of}
use rmsgw.Config.Env.{loadenv, env_result, settable, loadenv-text_of}
use rmsgw.Cms.Node.{CmsNode}
use rmsgw.Status.Slots.{matches, is_empty}
use rmsgw.Status.Slots.Views.{entry_of}
use rmsgw.Status.Block.{has_magic, RmsStatus, RmsgwStat, gw_idle, initial_block}
use rmsgw.Status.Gateways.{incr_connects, gw_of}
use rmsgw.Status.Gateways.Trace.{GwEvent, run_events}
use rmsgw.Status.Segment.{Move, run_world, shm_step, world_step, no_segment}
use rmsgw.Status.Segment.Once.{run_world_lem}
use rmsgw.Gateway.Conversation.{
  Conv, returned, note, gateway, converse, take_turn, cms_closed, cms_stage, Turn,
}
use rmsgw.Session.Cms.{check_result}
use rmsgw.Session.Block.{run_ops}
use rmsgw.Session.Counters.{Settled, check_result_lem}

abbrev always : Str → Str → Bool
always a b = true

abbrev variables : List NamedValue
variables = (codes "PORT", codes "2m") ∷ (codes "A", codes "b c") ∷ []

loadenv-text_of_example :
    (loadenv always (some (text_of variables)) ≡ some (env_result (settable always variables)))
    × ((env_result (settable always variables)).0 ≡ pos 0
        ↔ All (λ e. always e.0 e.1 ≡ true) variables)
loadenv-text_of_example = loadenv-text_of always variables (
  (
    omega arith,
    omega arith,
    lacks_lem b'=' (codes "PORT") refl,
    lacks_lem b'=' (codes "2m") refl,
    lacks_lem b'#' (entry_text ((codes "PORT"), (codes "2m"))) refl,
    lacks_lem b'\n' (entry_text ((codes "PORT"), (codes "2m"))) refl,
    is_c_str_lem (entry_text ((codes "PORT"), (codes "2m"))) refl,
    omega arith,
  ),
  (
    (
      omega arith,
      omega arith,
      lacks_lem b'=' (codes "A") refl,
      lacks_lem b'=' (codes "b c") refl,
      lacks_lem b'#' (entry_text ((codes "A"), (codes "b c"))) refl,
      lacks_lem b'\n' (entry_text ((codes "A"), (codes "b c"))) refl,
      is_c_str_lem (entry_text ((codes "A"), (codes "b c"))) refl,
      omega arith,
    ),
    tt,
  ),
)

abbrev cms_a : CmsNode
cms_a = record {
  cms_host = codes "cms-a";
  cms_port = pos 8772;
  cms_passwd = codes "x";
  cms_stat_time = 0;
}

abbrev move : Bool → Move
move who = record { who = who; event = record { op = incr_connects; call = codes "W1AW-10" } }

-- Both come to create the segment; the second one initialises it before the first one tests it.
abbrev taking_turns : List Move
taking_turns =
    move true
    ∷ move false
    ∷ move true
    ∷ move false
    ∷ move false
    ∷ move false
    ∷ move false
    ∷ move false
    ∷ move false
    ∷ move false
    ∷ []

-- The first one tests it and attaches, and both work on the table.
abbrev working : List Move
working = move true ∷ move true ∷ move true ∷ move false ∷ []

abbrev blank : RmsStatus
blank = record initial_block { rms_hdr_magic = [] }

run_world_lem_example :
    let w = run_world blank taking_turns no_segment in
    let after = run_world blank working w in
    (b : RmsStatus) × (w.segment ≡ some b)
    × (has_magic b ≡ true)
    × (new : List GwEvent) × (after.log ≡ w.log ++ new)
    × (after.segment ≡ some (run_events new b))
unfolding run_world world_step shm_step strneq
run_world_lem_example = run_world_lem blank taking_turns working refl refl refl

abbrev in_table : RmsgwStat
in_table = record {
  gw_pid = negsuc 0;
  gw_state = gw_idle;
  gw_gwcall = codes "W1AW-10";
  gw_client = [];
  gw_cms = [];
  gw_connects = 1;
  gw_bytes_in = 0;
  gw_bytes_out = 0;
}

abbrev with_gateway : RmsStatus
with_gateway = record initial_block { rmsgw = in_table ∷ [] }

has_entry : gw_of with_gateway (codes "W1AW-10") ≡ some in_table
unfolding entry_of matches is_empty strneq
has_entry = refl

abbrev closing_turn : Turn
closing_turn = record { cms_side = cms_closed 60; ax25_side = none }

talked :
    (c : Conv) × (gateway 128 0 0 (pos 0) (pos 0) (pos 0) (closing_turn ∷ []) [] ≡ returned c)
    × (is_neg c.errcode ≡ false)
unfolding gateway converse take_turn cms_stage note
talked = (_, refl, refl)

check_result_lem_example :
    ((check_result talked.0).rc ≡ pos 0)
    × ((h : RmsgwStat) × (gw_of
            (run_ops (check_result talked.0).ops (codes "W1AW-10") with_gateway)
            (codes "W1AW-10")
          ≡ some h)
        × Settled in_table talked.0 h)
check_result_lem_example =
    check_result_lem 128 0 0 (pos 0) (pos 0) (pos 0) (closing_turn ∷ []) [] (codes "W1AW-10")
      with_gateway talked.0 talked.1 talked.2 (λ e. cc) has_entry
