-- ===== src/Start/Gateway.antt =====
-- main of rmsgw/rmsgw.c, with gwinit (rmsgw/gwinit.c), up to the session and then whole. Files, the
-- build's paths and the shared segment are arguments. The texts that are sent, logging and the hooks,
-- whose results are not used, are left out.
use rmsgw.Prelude.{
  ℕ, Bool, true, false, ◌&&◌, Option, none, some, List, [], ◌∷◌, if◌then◌else◌, set, Str, codes,
  streq, ℤ,
}
use rmsgw.Config.Mapname.{MapState}
use rmsgw.Config.Mapname.Entries.{NamedValue}
use rmsgw.Config.Load.{Config, VersionBlk, load_config, load_version}
use rmsgw.Config.Env.{loadenv}
use rmsgw.Status.Block.{RmsStatus, statblock_attach}
use rmsgw.Session.Connect.{gwinit}
use rmsgw.Session.Main.{Host, Exit, exits, not_configured}
use rmsgw.Session.Main
use rmsgw.Start.Options.{
  Options, Opts, parsed, helped, misused, no_options, gw_option, getopt_loop, sane_paclen,
}

-- What the process finds: the paths that the build sets, the contents of the files, whether a file
-- exists, whether a variable can be set, and the shared segment.
pub record Around : Type 0 where
  pub hookdir : Str
  pub configfile : Str
  pub versionfile : Str
  pub contents : Str → Option Str
  pub exists : Str → Bool
  pub can_set : Str → Str → Bool
  pub made : Option Bool
  pub segment : Option RmsStatus

-- Why the process ends before it writes to the status block.
pub data Refusal : Type 0 where
  help : Refusal
  invalid_option : Refusal
  missing_usercall : Refusal
  config_error : ℕ → Refusal
  version_error : ℕ → Refusal
  no_segment : Refusal

-- What is known when the status block is attached.
pub record Ready : Type 0 where
  pub cfg : Config
  pub version : VersionBlk
  pub port : Option Str
  pub paclen : ℕ
  pub usercall : Str
  pub block : RmsStatus

-- The exit status with its reason, a use of NULL, or a start.
pub data Start : Type 0 where
  refused : ℕ → Refusal → Start
  crashes : Start
  ready : Ready → Start

abbrev pub chosen : Option Str → Str → Str
chosen none path = path
chosen (some arg) path = arg

abbrev pub is_some : Option Str → Bool
is_some none = false
is_some (some s) = true

abbrev pub after_options : Opts → (Options → Start) → Start
after_options helped next = refused 0 help
after_options misused next = refused 1 invalid_option
after_options (parsed o) next = next o

-- `(argc - optind) != 1`
abbrev pub one_operand : List Str → (Str → Start) → Start
one_operand [] next = refused 1 missing_usercall
one_operand (a ∷ []) next = next a
one_operand (a ∷ b ∷ rest) next = refused 1 missing_usercall

abbrev pub with_config : Option Config → ℕ → (Config → Start) → Start
with_config none code next = refused 1 (config_error code)
with_config (some cfg) code next = next cfg

abbrev pub with_version : Option VersionBlk → ℕ → (VersionBlk → Start) → Start
with_version none code next = refused 1 (version_error code)
with_version (some version) code next = next version

abbrev pub with_block : Option RmsStatus → (RmsStatus → Start) → Start
with_block none next = refused 1 no_segment
with_block (some block) next = next block

-- mapfacility and mappriority compare the lowered names, which may not be NULL.
abbrev pub log_names : Config → Start → Start
log_names cfg next = if is_some cfg.logfacility && is_some cfg.logmask then next else crashes

-- From the end of the options on.
unfoldable pub load_all : Around → List Str → MapState → Options → Start
load_all w operands st o = one_operand operands (λ usercall.
    let (loaded, st1) =
      load_config w.hookdir (w.contents (chosen o.configfilearg w.configfile)) st in
    let (version_read, st2) = load_version (w.contents w.versionfile) st1 in
    with_config (gwinit loaded.0 o.gwcallarg o.logmaskarg o.bannerfilearg) loaded.1 (λ cfg.
      with_version version_read.0 version_read.1 (λ version. log_names cfg (
        with_block (statblock_attach w.made w.segment) (λ block. ready (record {
          cfg = cfg;
          version = version;
          port = o.ax25port;
          paclen = sane_paclen o.paclen_arg;
          usercall = usercall;
          block = block;
        }))))))

unfoldable pub start_rmsgw : Around → List (ℕ × Str) → List Str → MapState → Start
unfolding getopt_loop gw_option
start_rmsgw w opts operands st =
    after_options (getopt_loop gw_option opts no_options) (load_all w operands st)

-- The environment file is read when it is configured and exists; its result is only logged. `none` is
-- an overflow in loadenv.
unfoldable pub load_environment : Around → Option Str → Option (List NamedValue)
unfolding loadenv
load_environment w none = some []
load_environment w (some file) =
    if w.exists file
    then elim (loadenv w.can_set (w.contents file)) [ none ↦ none | some (rc, set) ↦ some set ]
    else some []

-- The rest of main, behind the environment.
abbrev pub behind_environment : Option (List NamedValue) → Option Exit → Option Exit
behind_environment none next = none
behind_environment (some variables) next = next

abbrev pub configured_call : Config → Str
configured_call cfg = chosen cfg.gwcall []

abbrev pub run_started : Around → ℤ → List Host → Ready → Option Exit
run_started w pid hosts r =
    let rest = Main.main (configured_call r.cfg) pid r.port r.usercall hosts in
    if streq (configured_call r.cfg) (codes "N0CALL")
    then rest
    else behind_environment (load_environment w r.cfg.rmsgwenv) rest

abbrev pub run_start : Around → ℤ → List Host → Start → Option Exit
run_start w pid hosts (refused status reason) = some (exits status [] 0 none)
run_start w pid hosts crashes = none
run_start w pid hosts (ready r) = run_started w pid hosts r

-- The whole of main; `none` is a fault or a run that does not return.
unfoldable pub rmsgw_main :
    Around → ℤ → List (ℕ × Str) → List Str → MapState → List Host → Option Exit
unfolding start_rmsgw
rmsgw_main w pid opts operands st hosts = run_start w pid hosts (start_rmsgw w opts operands st)
