-- ===== src/Tests/Run.antt =====
-- The channels, the session with its hosts and the ACI on concrete inputs.
use rmsgw.Prelude.{
  ◌≡◌, refl, Option, none, some, List, [], ◌∷◌, arith, if◌then◌else◌, Str, codes, streq, strneq,
  pos, negsuc,
}
use rmsgw.Gateway.Conversation.{Conv, started, returned}
use rmsgw.Text.Trim.{strtrim}
use rmsgw.Text.CharSet.{issetmem, mkset}
use rmsgw.Text.Var.{varsubst, subst_run, subst_char}
use rmsgw.Channel.File.{
  frequency, password, store, ChanState, Channel, node, other_node, Child, element, other_child,
  Doc, load_entry,
}
use rmsgw.Channel.Fields.{load_entry_lem}
use rmsgw.Channel.Search.{found, getchannam, first_wanted, answer, getchannam_lem}
use rmsgw.Status.Block.{RmsStatus, RmsgwStat, gw_idle, gw_connecting, initial_block}
use rmsgw.Status.Slots.{matches, is_empty}
use rmsgw.Status.Slots.Views.{entry_of}
use rmsgw.Status.Gateways.{gw_of}
use rmsgw.Session.Cms.{cms_session, is_missing, connect_and_talk}
use rmsgw.Session.Main.{Host, Exit, host_loop, failed_to_connect}
use rmsgw.Session.Outcome.{Outcome, host_loop_lem}
use rmsgw.Session.Block.{run_ops, Refuses, host_loop_refused}
use rmsgw.Aci.Client.{Visit, no_stats, aci_loop}
use rmsgw.Aci.Counts.{Counted, aci_loop_lem}

abbrev new_conv : Conv
new_conv = started 128 0 0 []

abbrev no_channel : Channel
no_channel = record { ch_name = none; ch_type = none; ch_active = none; ch_field = λ f. none }

abbrev attributes_of : Str → Option Str
attributes_of key = if streq key (codes "name") then some (codes "2m") else none

abbrev children : List Child
children =
    other_child
    ∷ element (codes "frequency") (codes " 145050000\n")
    ∷ element (codes "statuschecker") (codes "true")
    ∷ []

two_metres_is : (e : Channel) × (load_entry attributes_of children no_channel ≡ some e)
unfolding load_entry strtrim issetmem mkset streq varsubst subst_run subst_char
two_metres_is = (_, refl)

load_entry_lem_example :
    (two_metres_is.0.ch_field frequency ≡ some (codes "145050000"))
    × (two_metres_is.0.ch_name ≡ some (codes "2m"))
unfolding streq strtrim issetmem mkset
load_entry_lem_example =
    load_entry_lem attributes_of children no_channel frequency two_metres_is.1 (λ e. omega arith)

abbrev closed_file : ChanState
closed_file = record { doc = none; cur_node = []; curent = no_channel }

abbrev file : Doc
file = record {
  root_name = some (codes "rmschannels");
  children = other_node ∷ node (codes "channel") attributes_of children ∷ [];
}

getchannam_lem_example :
    answer (getchannam 3 (some file) (codes "2m") (codes "N0CALL") closed_file)
    ≡ first_wanted (codes "2m") (codes "N0CALL") file.children no_channel
getchannam_lem_example =
    getchannam_lem (codes "2m") (codes "N0CALL") 3 file closed_file refl (λ e. refl) (omega arith)

abbrev looked_up : ChanState
looked_up = record closed_file { curent = store password (codes "pw") no_channel }

abbrev host_a : Host
host_a = record {
  cmsp = record {
    cms_host = codes "cms-a";
    cms_port = pos 8772;
    cms_passwd = codes "x";
    cms_stat_time = 0;
  };
  attempt = record { lookup = found looked_up; cms_sock = negsuc 0; talk = returned new_conv };
}

abbrev host_b : Host
host_b = record {
  cmsp = record {
    cms_host = codes "cms-b";
    cms_port = pos 8772;
    cms_passwd = codes "x";
    cms_stat_time = 1;
  };
  attempt = record { lookup = found looked_up; cms_sock = pos 4; talk = returned new_conv };
}

abbrev port : Option Str
port = some (codes "2m")

host_loop_lem_example :
    (e : Exit) × (host_loop port (host_a ∷ host_b ∷ []) [] 0 ≡ some e)
    × Outcome port (host_a ∷ host_b ∷ []) 0 e
unfolding cms_session is_missing connect_and_talk store
host_loop_lem_example = host_loop_lem port (host_a ∷ host_b ∷ []) [] ((_, refl), ((_, refl), tt))

abbrev in_table : RmsgwStat
in_table = record {
  gw_pid = negsuc 0;
  gw_state = gw_idle;
  gw_gwcall = codes "W1AW-10";
  gw_client = [];
  gw_cms = [];
  gw_connects = 1;
  gw_bytes_in = 0;
  gw_bytes_out = 0;
}

abbrev with_gateway : RmsStatus
with_gateway = record initial_block { rmsgw = in_table ∷ [] }

has_entry : gw_of with_gateway (codes "W1AW-10") ≡ some in_table
unfolding entry_of matches is_empty strneq
has_entry = refl

host_a-Refuses : Refuses host_a
unfolding is_missing store
host_a-Refuses = record {
  state = looked_up;
  channel = refl;
  password_there = refl;
  no_socket = refl;
}

host_loop_refused_example :
    (e : Exit) × (host_loop port (host_a ∷ []) [] 0 ≡ some e)
    × (e.exit_status ≡ 1)
    × (e.complaint ≡ some (failed_to_connect 1))
    × ((g : RmsgwStat) × (gw_of (run_ops e.ops (codes "W1AW-10") with_gateway) (codes "W1AW-10")
          ≡ some g)
        × (g.gw_state ≡ gw_connecting))
unfolding cms_session is_missing connect_and_talk store
host_loop_refused_example =
    host_loop_refused port host_a [] [] (codes "W1AW-10") with_gateway refl (host_a-Refuses, tt)
      (λ e. cc) has_entry

abbrev visit : Visit
visit = record { check_rc = pos 0; status_age = pos 9000; update_rc = pos 256 }

aci_loop_lem_example : Counted (
    aci_loop
      (pos 7140)
      (pos 0)
      3
      none
      (visit ∷ visit ∷ [])
      (record { doc = some file.children; cur_node = []; curent = no_channel })
      (record { chnl = no_channel; chanstats = no_stats; sp = initial_block; touched = [] }))
aci_loop_lem_example =
    aci_loop_lem (pos 7140) (pos 0) 3 (visit ∷ visit ∷ []) file.children no_channel initial_block
      (omega arith) (omega arith)
