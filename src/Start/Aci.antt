-- ===== src/Start/Aci.antt =====
-- main of rmsgw_aci/rmsgw_aci.c: its start, and the version's status file. Files, the build's paths and
-- the shared segment are arguments. Logging and the hooks, whose results are not used, are left out.
use rmsgw.Prelude.{
  ℕ, ◌≤◌, ◌≡◌, refl, sym, ap, ◌⊎◌, inl, inr, Bool, true, not, ◌&&◌, Option, none, some, List, ◌++◌,
  arith, if◌then◌else◌, Bool-cases, length, length-append, Str, codes, streq, ℤ, leb_ℤ,
}
use rmsgw.Config.Mapname.{MapState}
use rmsgw.Config.Mapname.Entries.{NamedValue}
use rmsgw.Config.Load.{Config, load_config, load_version}
use rmsgw.Channel.File.{Doc, ChanState}
use rmsgw.Status.Block.{RmsStatus, aci_idle, statblock_attach}
use rmsgw.Session.Connect.{over}
use rmsgw.Aci.Client.{Visit, version_interval, version_update, aci_main}
use rmsgw.Aci.Due.{channels_age_of}
use rmsgw.Aci.Frame.{aci_main_lem}
use rmsgw.Files.{Fs, Allowed, age_at, fileage, setstatfile}
use rmsgw.Files.Times.{setstatfile-fileage}
use rmsgw.Start.Options.{
  Options, Opts, parsed, helped, misused, no_options, aci_option, getopt_loop,
}
use rmsgw.Start.Gateway.{Around, chosen, is_some, configured_call, load_environment}

-- sprintf(statfile, "%s/.version.%s", CMSSTATDIR, cfg->gwcall), when it fits.
unfoldable pub version_statfile : Str → Str → Str
version_statfile dir gwcall = dir ++ (codes "/.version." ++ gwcall)

-- The version update, with the touch of its status file: the block, whether the version was sent, and
-- the files.
unfoldable pub version_round :
    Str → Allowed → Option Str → ℕ → Str → RmsStatus → Fs → (RmsStatus × Bool) × Fs
version_round dir ok versionupd now gwcall sp fs =
    let path = version_statfile dir gwcall in
    let done = version_update versionupd (fileage now fs path) sp in
    (done, if done.1 then (setstatfile ok now path fs).0 else fs)

-- How the start of the process ends: an exit status, a use of NULL, or a run with its configuration.
pub data AciStart : Type 0 where
  aci_refused : ℕ → AciStart
  aci_crashes : AciStart
  aci_ready : Config → RmsStatus → AciStart

abbrev pub after_aci_options : Opts → (Options → AciStart) → AciStart
after_aci_options helped next = aci_refused 0
after_aci_options misused next = aci_refused 1
after_aci_options (parsed o) next = next o

abbrev pub when_some {ℓ} : {A : Type ℓ} → Option A → (A → AciStart) → AciStart
when_some none next = aci_refused 1
when_some (some a) next = next a

-- The configuration with the options' call sign and log mask in place of its own.
unfoldable pub overridden : Options → Config → Config
overridden o cfg = record cfg {
  gwcall = over o.gwcallarg cfg.gwcall;
  logmask = over o.logmaskarg cfg.logmask;
}

unfoldable pub load_aci : Around → MapState → Options → AciStart
unfolding overridden
load_aci w st o =
    let (version_read, st1) = load_version (w.contents w.versionfile) st in
    let (loaded, st2) =
      load_config w.hookdir (w.contents (chosen o.configfilearg w.configfile)) st1 in
    when_some version_read.0 (λ version. when_some loaded.0 (λ cfg0.
      let cfg = overridden o cfg0 in
      if not (is_some cfg.logfacility && is_some cfg.logmask)
      then aci_crashes
      else if streq (configured_call cfg) (codes "N0CALL")
      then aci_refused 1
      else when_some (statblock_attach w.made w.segment) (λ block. aci_ready cfg block)))

unfoldable pub aci_start : Around → List (ℕ × Str) → MapState → AciStart
unfolding getopt_loop aci_option load_aci
aci_start w opts st = after_aci_options (getopt_loop aci_option opts no_options) (load_aci w st)

-- What the run meets: its process, the clock at its start and at the version's check, the results at
-- the channels, and the channel file as it is parsed.
pub record AciRun : Type 0 where
  pub pid : ℤ
  pub begun : ℕ
  pub checked : ℕ
  pub fuel : ℕ
  pub channels : Option Doc
  pub visits : List Visit
  pub static_entry : ChanState

-- The exit status and the block at the end, if it was attached.
abbrev pub AciExit : Type 0
AciExit = ℕ × Option RmsStatus

abbrev pub exit_idle : Option (RmsStatus × Bool) → Option AciExit
exit_idle none = none
exit_idle (some (sp, sent)) = some (0, some sp)

abbrev pub behind_aci_environment : Option (List NamedValue) → Option AciExit → Option AciExit
behind_aci_environment none next = none
behind_aci_environment (some variables) next = next

abbrev pub run_aci_process : Around → Str → Fs → AciRun → AciStart → Option AciExit
run_aci_process w dir fs run (aci_refused status) = some (status, none)
run_aci_process w dir fs run aci_crashes = none
run_aci_process w dir fs run (aci_ready cfg sp) =
    behind_aci_environment (load_environment w cfg.rmsgwacienv) (
      exit_idle (
        aci_main run.pid cfg.channelupd cfg.versionupd
          (channels_age_of cfg.channelfile run.begun fs)
          (fileage run.checked fs (version_statfile dir (configured_call cfg))) run.fuel
          run.channels run.visits run.static_entry sp))

-- The whole of main; `none` is a fault or a run that does not return.
unfoldable pub rmsgw_aci_main :
    Around → Str → Fs → AciRun → List (ℕ × Str) → MapState → Option AciExit
unfolding aci_start
rmsgw_aci_main w dir fs run opts st = run_aci_process w dir fs run (aci_start w opts st)

length-version_statfile : (dir gwcall : Str) → 1 ≤ length (version_statfile dir gwcall)
unfolding version_statfile
length-version_statfile dir gwcall = omega (arith, length-append dir (codes "/.version." ++ gwcall))

sends-version_update :
    (versionupd : Option Str) (age : ℤ) (sp : RmsStatus)
    → (version_update versionupd age sp).1 ≡ leb_ℤ (version_interval versionupd) age
unfolding version_update
sends-version_update versionupd age sp =
    elim (Bool-cases (leb_ℤ (version_interval versionupd) age)) [
      | inl due ↦ rw due refl
      | inr early ↦ rw early refl
    ]

-- When the version was sent at a time, and the touch of its status file succeeds, a later run sends it
-- again exactly if the interval has gone by since. A negative interval has always gone by.
pub version_round_again :
    (dir : Str) (ok : Allowed) (versionupd : Option Str) (now later : ℕ) (gwcall : Str)
    (sp sp' : RmsStatus) (fs : Fs)
    → ok.opens (version_statfile dir gwcall) ≡ true
    → ok.sets_times (version_statfile dir gwcall) ≡ true
    → (version_round dir ok versionupd now gwcall sp fs).0.1 ≡ true
    → (version_round dir ok versionupd later gwcall sp'
        (version_round dir ok versionupd now gwcall sp fs).1).0.1
      ≡ leb_ℤ (version_interval versionupd) (age_at later now)
unfolding version_round
version_round_again dir ok versionupd now later gwcall sp sp' fs o s sent =
    let path = version_statfile dir gwcall in
    let fs' = (setstatfile ok now path fs).0 in
    let age : fileage later fs' path ≡ age_at later now =
      (setstatfile-fileage ok now later path fs o s (length-version_statfile dir gwcall)).1 in
    rw (sent, sends-version_update versionupd (fileage later fs' path) sp', age) refl

exit_idle_lem :
    (x : Option (RmsStatus × Bool)) (sp : RmsStatus) (y : AciExit)
    → ((z : RmsStatus × Bool)
        → x ≡ some z
        → (z.0.aci.aci_state ≡ aci_idle) × (z.0.rmsgw ≡ sp.rmsgw))
    → exit_idle x ≡ some y
    → (q : RmsStatus) × (y ≡ (0, some q)) × (q.aci.aci_state ≡ aci_idle) × (q.rmsgw ≡ sp.rmsgw)
exit_idle_lem none sp y h e = cc
exit_idle_lem (some (q, sent)) sp y h e =
    let (idle, kept) = h (q, sent) refl in
    let same : (0, some q) ≡ y = cc in (q, sym same, idle, kept)

behind_aci_environment_lem :
    (v : Option (List NamedValue)) (next : Option AciExit) (y : AciExit)
    → behind_aci_environment v next ≡ some y
    → next ≡ some y
behind_aci_environment_lem none next y e = cc
behind_aci_environment_lem (some variables) next y e = e

run_aci_lem :
    (w : Around) (dir : Str) (fs : Fs) (run : AciRun) (s : AciStart) (y : AciExit)
    → run_aci_process w dir fs run s ≡ some y
    → ((y.1 ≡ none) × (s ≡ aci_refused y.0))
      ⊎ ((cfg : Config) × (sp : RmsStatus) × (q : RmsStatus) × (s ≡ aci_ready cfg sp)
          × (y ≡ (0, some q))
          × (q.aci.aci_state ≡ aci_idle)
          × (q.rmsgw ≡ sp.rmsgw))
run_aci_lem w dir fs run (aci_refused status) y e =
    let same : (status, none) ≡ y = cc in
    inl (sym (ap (λ x. x.1) same), ap (λ x. aci_refused x.0) same)
run_aci_lem w dir fs run aci_crashes y e = cc
run_aci_lem w dir fs run (aci_ready cfg sp) y e =
    let whole =
      aci_main run.pid cfg.channelupd cfg.versionupd (channels_age_of cfg.channelfile run.begun fs)
        (fileage run.checked fs (version_statfile dir (configured_call cfg))) run.fuel run.channels
        run.visits run.static_entry sp in
    let ended : exit_idle whole ≡ some y =
      behind_aci_environment_lem (load_environment w cfg.rmsgwacienv) (exit_idle whole) y e in
    let (q, is, idle, kept) =
      exit_idle_lem whole sp y
        (λ z k.
          aci_main_lem run.pid cfg.channelupd cfg.versionupd
            (channels_age_of cfg.channelfile run.begun fs)
            (fileage run.checked fs (version_statfile dir (configured_call cfg))) run.fuel
            run.channels run.visits run.static_entry sp k)
        ended in
    inr (cfg, sp, q, refl, is, idle, kept)

-- The end of the ACI process: its start was refused, and it exits without having attached the block; or
-- it exits with 0, its state in the block is idle, and the gateways' table is the one of the block
-- that it attached.
pub rmsgw_aci_main_lem :
    (w : Around) (dir : Str) (fs : Fs) (run : AciRun) (opts : List (ℕ × Str)) (st : MapState)
    {y : AciExit}
    → rmsgw_aci_main w dir fs run opts st ≡ some y
    → ((y.1 ≡ none) × (aci_start w opts st ≡ aci_refused y.0))
      ⊎ ((cfg : Config) × (sp : RmsStatus) × (q : RmsStatus) × (aci_start w opts st
            ≡ aci_ready cfg sp)
          × (y ≡ (0, some q))
          × (q.aci.aci_state ≡ aci_idle)
          × (q.rmsgw ≡ sp.rmsgw))
unfolding rmsgw_aci_main
rmsgw_aci_main_lem w dir fs run opts st {y} e = run_aci_lem w dir fs run (aci_start w opts st) y e
