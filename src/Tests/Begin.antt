-- ===== src/Tests/Begin.antt =====
-- The starts of the gateway and of the ACI on concrete inputs.
use rmsgw.Prelude.{
  ℕ, ◌≡◌, refl, ◌≢◌, ◌⊎◌, true, false, none, some, List, [], ◌∷◌, if◌then◌else◌, Str, codes, streq,
  strneq, c_str, pos, atoi, fgets_lines, ◌==◌, arith, tolower,
}
use rmsgw.Text.Trim.{strtrim}
use rmsgw.Text.CharSet.{issetmem, mkset}
use rmsgw.Config.Mapname.{MapState, fgetline, find_entry, map_loop, fmapname, mapctl}
use rmsgw.Config.Load.{Config, upcase, check_config, load_config, check_version, load_version}
use rmsgw.Channel.File.{getchanent, setchanent}
use rmsgw.Status.Block.{RmsStatus, initial_block, statblock_attach, aci_idle}
use rmsgw.Session.Connect.{gwinit}
use rmsgw.Session.Main.{Exit}
use rmsgw.Session.Main
use rmsgw.Aci.Client.{aci_loop, wl2k_aci, version_interval, version_update, aci_main}
use rmsgw.Aci.Due.{channels_age_of}
use rmsgw.Files.{no_entry, Fs, fileage, age_at}
use rmsgw.Channel.File.{password, number, ChanState}
use rmsgw.Cms.Node.{CmsNode}
use rmsgw.Status.Block.{gw_connecting, gw_connected, gw_login, gw_disconnecting, gw_disconnected}
use rmsgw.Status.Gateways.{set_state, set_cms}
use rmsgw.Login.Readln.{byte, eof, readln}
use rmsgw.Login.Sgl.{Round, strcasestr}
use rmsgw.Session.Cms.{is_missing}
use rmsgw.Session.Main.{host_loop}
use rmsgw.Session.Login.{Meeting, host_at, host_loop-NoPrompt}
use rmsgw.Start.Options.{getopt_loop, gw_option, sane_paclen}
use rmsgw.Start.Gateway.{
  Around, Ready, load_all, start_rmsgw, configured_call, load_environment, rmsgw_main,
}
use rmsgw.Start.Ready.{IsReady, rmsgw_main-IsReady}
use rmsgw.Start.Aci.{
  AciRun, AciExit, aci_refused, aci_ready, load_aci, overridden, aci_start, rmsgw_aci_main,
  rmsgw_aci_main_lem,
}

abbrev config_text : Str
config_text = codes "GWCALL=w1aw\nLOGFACILITY=local0\nLOGMASK=info\n"

abbrev version_text : Str
version_text = codes "PACKAGE=p\nPROGRAM=q\nLABEL=r\n"

abbrev around : Around
around = record {
  hookdir = codes "/h";
  configfile = codes "/c";
  versionfile = codes "/v";
  contents = λ path. some (if streq path (codes "/v") then version_text else config_text);
  exists = λ path. false;
  can_set = λ a b. true;
  made = some true;
  segment = some initial_block;
}

abbrev no_map : MapState
no_map = record { map_errno = 0; map_logical = none; fail_on_not_found = false }

abbrev options_given : List (ℕ × Str)
options_given = (b'p', codes "0") ∷ (b'P', codes "2m") ∷ []

abbrev operands_given : List Str
operands_given = codes "N0CALL-0" ∷ []

ended_is : (e : Exit) × (rmsgw_main around (pos 7) options_given operands_given no_map [] ≡ some e)
unfolding rmsgw_main start_rmsgw load_all getopt_loop gw_option load_config mapctl fmapname map_loop
    find_entry fgetline check_config upcase load_version check_version gwinit statblock_attach
    sane_paclen streq atoi load_environment Main.main Main.fmtucall Main.host_loop fgets_lines
    strneq strtrim c_str issetmem mkset
ended_is = (_, refl)

rmsgw_main-IsReady_example :
    (ended_is.0.ops ≡ [])
    ⊎ ((r : Ready) × IsReady r around options_given operands_given no_map
        × (configured_call r.cfg ≢ codes "N0CALL")
        × (Main.main (configured_call r.cfg) (pos 7) r.port r.usercall [] ≡ some ended_is.0))
rmsgw_main-IsReady_example =
    rmsgw_main-IsReady around (pos 7) options_given operands_given no_map [] ended_is.0 ended_is.1

abbrev a_run : AciRun
a_run = record {
  pid = pos 9;
  begun = 100;
  checked = 101;
  fuel = 1;
  channels = none;
  visits = [];
  static_entry = record {
    doc = none;
    cur_node = [];
    curent = record { ch_name = none; ch_type = none; ch_active = none; ch_field = λ f. none };
  };
}

abbrev no_times : Fs
no_times path = no_entry

aci_ended_is :
    (y : AciExit) × (rmsgw_aci_main around (codes "/s") no_times a_run [] no_map ≡ some y)
unfolding rmsgw_aci_main aci_start load_aci overridden getopt_loop load_config mapctl fmapname
    map_loop find_entry fgetline check_config upcase load_version check_version statblock_attach
    streq load_environment aci_main wl2k_aci aci_loop getchanent setchanent version_update
    version_interval channels_age_of fileage age_at fgets_lines strneq strtrim c_str issetmem mkset
aci_ended_is = (_, refl)

rmsgw_aci_main_lem_example :
    ((aci_ended_is.0.1 ≡ none) × (aci_start around [] no_map ≡ aci_refused aci_ended_is.0.0))
    ⊎ ((cfg : Config) × (sp : RmsStatus) × (q : RmsStatus) × (aci_start around [] no_map
          ≡ aci_ready cfg sp)
        × (aci_ended_is.0 ≡ (0, some q))
        × (q.aci.aci_state ≡ aci_idle)
        × (q.rmsgw ≡ sp.rmsgw))
rmsgw_aci_main_lem_example =
    rmsgw_aci_main_lem around (codes "/s") no_times a_run [] no_map aci_ended_is.1

abbrev with_password : ChanState
with_password = record {
  doc = none;
  cur_node = [];
  curent = record {
    ch_name = some (codes "2m");
    ch_type = none;
    ch_active = none;
    ch_field = λ f. if number f == number password then some (codes "pw") else none;
  };
}

abbrev greets : Round
greets = record { reads = byte b'h' ∷ byte b'i' ∷ byte b'\r' ∷ []; wrote = λ line. pos 1 }

abbrev no_prompt : Meeting
no_prompt = record {
  rounds =
      greets ∷ greets ∷ greets ∷ greets ∷ record { reads = eof ∷ []; wrote = λ line. pos 0 } ∷ [];
  socket_mode = pos 0;
  ax25_mode = pos 0;
  turns = [];
  static_buf = [];
}

abbrev a_host : CmsNode
a_host = record {
  cms_host = codes "cms-a";
  cms_port = pos 8772;
  cms_passwd = codes "x";
  cms_stat_time = 0;
}

abbrev constant_digest : Str → Str
constant_digest s = codes "0123456789abcdef"

host_loop-NoPrompt_example :
    host_loop
      (some (codes "2m"))
      (host_at constant_digest (codes "N0CALL") 128 0 0 a_host with_password 4 no_prompt ∷ [])
      []
      0
    ≡ host_loop
        (some (codes "2m"))
        []
        (set_cms (some (codes "cms-a"))
          ∷ set_state gw_connecting
          ∷ set_state gw_connected
          ∷ set_state gw_login
          ∷ set_state gw_disconnecting
          ∷ set_state gw_disconnected
          ∷ [])
        1
unfolding is_missing readln strcasestr strneq streq c_str tolower
host_loop-NoPrompt_example =
    host_loop-NoPrompt constant_digest (codes "N0CALL") 128 0 0 (codes "2m") a_host with_password 4
      no_prompt [] [] 0 refl refl (refl, (refl, (refl, (refl, (refl, tt))))) (omega arith)
