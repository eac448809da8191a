-- ===== src/Start/Ready.antt =====
-- When the gateway (main of rmsgw/rmsgw.c) starts, and that it leaves the status block alone otherwise.
use rmsgw.Prelude.{
  ℕ, ◌≤◌, ◌≡◌, refl, sym, ap, ◌∙◌, ◌≢◌, ◌⊎◌, inl, inr, true, ◌&&◌, Option, none, some, List, [],
  ◌∷◌, Bool-cases, Option-cases, length, All, Str, codes, streq, streq_iff, ℤ,
}
use rmsgw.Config.Mapname.{MapState}
use rmsgw.Config.Load.{Config, VersionBlk, load_config, load_version}
use rmsgw.Status.Block.{RmsStatus, statblock_attach}
use rmsgw.Session.Connect.{over, gwinit}
use rmsgw.Session.Main.{Host, Exit, exits, not_configured}
use rmsgw.Session.Main
use rmsgw.Gateway.Relay.{Burst, IsShort, results_of, concat, all_written, to_ax25, to_ax25_lem}
use rmsgw.Start.Options.{
  Options, Opts, parsed, helped, misused, no_options, gw_option, getopt_loop, sane_paclen,
  sane_paclen_lem,
}
use rmsgw.Start.Gateway.{
  Around, Ready, Start, refused, crashes, ready, chosen, is_some, after_options, one_operand,
  with_config, with_version, with_block, log_names, load_all, start_rmsgw, behind_environment,
  load_environment, configured_call, run_start, rmsgw_main,
}

-- The steps of the start, backwards from a start that is ready.
module _ (r : Ready) where
  after_options-ready :
      (x : Opts) (next : Options → Start)
      → after_options x next ≡ ready r
      → (o : Options) × (x ≡ parsed o) × (next o ≡ ready r)
  after_options-ready helped next e = cc
  after_options-ready misused next e = cc
  after_options-ready (parsed o) next e = (o, refl, e)

  one_operand-ready :
      (operands : List Str) (next : Str → Start)
      → one_operand operands next ≡ ready r
      → (a : Str) × (operands ≡ a ∷ []) × (next a ≡ ready r)
  one_operand-ready [] next e = cc
  one_operand-ready (a ∷ []) next e = (a, refl, e)
  one_operand-ready (a ∷ b ∷ rest) next e = cc

  with_config-ready :
      (x : Option Config) (code : ℕ) (next : Config → Start)
      → with_config x code next ≡ ready r
      → (cfg : Config) × (x ≡ some cfg) × (next cfg ≡ ready r)
  with_config-ready none code next e = cc
  with_config-ready (some cfg) code next e = (cfg, refl, e)

  with_version-ready :
      (x : Option VersionBlk) (code : ℕ) (next : VersionBlk → Start)
      → with_version x code next ≡ ready r
      → (version : VersionBlk) × (x ≡ some version) × (next version ≡ ready r)
  with_version-ready none code next e = cc
  with_version-ready (some version) code next e = (version, refl, e)

  with_block-ready :
      (x : Option RmsStatus) (next : RmsStatus → Start)
      → with_block x next ≡ ready r
      → (block : RmsStatus) × (x ≡ some block) × (next block ≡ ready r)
  with_block-ready none next e = cc
  with_block-ready (some block) next e = (block, refl, e)

  log_names-ready :
      (cfg : Config) (next : Start)
      → log_names cfg next ≡ ready r
      → ((is_some cfg.logfacility && is_some cfg.logmask) ≡ true) × (next ≡ ready r)
  log_names-ready cfg next e = elim (Bool-cases (is_some cfg.logfacility && is_some cfg.logmask)) [
    | inl both ↦ (both, rw both at e)
    | inr lacking ↦ let bad : crashes ≡ ready r = rw lacking at e in cc
  ]

  -- What holds when the gateway is ready: the options were read and one call sign stands behind them, the
  -- configuration and the version were loaded, an option -g has replaced the configured call sign,
  -- the packet length is not 0, and the block is attached.
  pub record IsReady (w : Around) (opts : List (ℕ × Str)) (operands : List Str) (st : MapState)
      : Type 0 where
    pub options : Options
    pub read : getopt_loop gw_option opts no_options ≡ parsed options
    pub operand : operands ≡ r.usercall ∷ []
    pub loaded : Config
    pub loads :
        (load_config w.hookdir (w.contents (chosen options.configfilearg w.configfile)) st).0.0
        ≡ some loaded
    pub known :
        (load_version
          (w.contents w.versionfile)
          (load_config w.hookdir (w.contents (chosen options.configfilearg w.configfile)) st).1).0.0
        ≡ some r.version
    pub call : r.cfg.gwcall ≡ over options.gwcallarg loaded.gwcall
    pub long : 1 ≤ r.paclen
    pub attached : statblock_attach w.made w.segment ≡ some r.block

gwinit-some :
    (x : Option Config) (g l b : Option Str) (cfg : Config)
    → gwinit x g l b ≡ some cfg
    → (loaded : Config) × (x ≡ some loaded) × (cfg.gwcall ≡ over g loaded.gwcall)
unfolding gwinit
gwinit-some none g l b cfg e = cc
gwinit-some (some loaded) g l b cfg e =
    let same : record loaded {
      gwcall = over g loaded.gwcall;
      logmask = over l loaded.logmask;
      bannerfile = over b loaded.bannerfile;
    }
        ≡ cfg =
      cc in
    (loaded, refl, sym (ap (λ c. c.gwcall) same))

abbrev ready_of : Ready → Start → Ready
ready_of d (refused status reason) = d
ready_of d crashes = d
ready_of d (ready r) = r

start_rmsgw-IsReady :
    (w : Around) (opts : List (ℕ × Str)) (operands : List Str) (st : MapState) (r : Ready)
    → start_rmsgw w opts operands st ≡ ready r
    → IsReady r w opts operands st
unfolding start_rmsgw load_all
start_rmsgw-IsReady w opts operands st r e =
    let (o, read, e1) =
      after_options-ready r (getopt_loop gw_option opts no_options) (load_all w operands st) e in
    let (usercall, operand, e2) = one_operand-ready r operands _ e1 in
    let (cfg, init, e3) = with_config-ready r _ _ _ e2 in
    let (loaded_config, st1) =
      load_config w.hookdir (w.contents (chosen o.configfilearg w.configfile)) st in
    let (version_read, st2) = load_version (w.contents w.versionfile) st1 in
    let (version, known, e4) = with_version-ready r version_read.0 version_read.1 _ e3 in
    let (names, e5) = log_names-ready r cfg _ e4 in
    let (block, attached, e6) = with_block-ready r (statblock_attach w.made w.segment) _ e5 in
    let (loaded, loads, call) = gwinit-some _ _ _ _ cfg init in
    let same = ap (ready_of r) e6 in
    let given : usercall ≡ r.usercall = ap (λ x. x.usercall) same in
    let version_kept : version ≡ r.version = ap (λ x. x.version) same in
    let configured : cfg.gwcall ≡ r.cfg.gwcall = ap (λ x. x.cfg.gwcall) same in
    let length_read : sane_paclen o.paclen_arg ≡ r.paclen = ap (λ x. x.paclen) same in
    let segment : block ≡ r.block = ap (λ x. x.block) same in
    let positive : 1 ≤ sane_paclen o.paclen_arg = sane_paclen_lem o.paclen_arg in
    record {
      options = o;
      read = read;
      operand = rw given at operand;
      loaded = loaded;
      loads = loads;
      known = known ∙ ap some version_kept;
      call = sym configured ∙ call;
      long = rw length_read at positive;
      attached = rw segment at attached;
    }

begun_call :
    (w : Around) (cfg : Config) (next : Option Exit)
    → (e : Exit) → behind_environment (load_environment w cfg.rmsgwenv) next ≡ some e
    → next ≡ some e
begun_call w cfg next e h = elim (Option-cases (load_environment w cfg.rmsgwenv)) [
  | inl bad ↦ let no : none ≡ some e = rw bad at h in cc
  | inr (vs, good) ↦ rw good at h
]

main_unconfigured :
    (gwcall : Str) (pid : ℤ) (port : Option Str) (arg : Str) (hosts : List Host)
    → streq gwcall (codes "N0CALL") ≡ true
    → Main.main gwcall pid port arg hosts ≡ some (exits 1 [] 0 (some not_configured))
unfolding Main.main
main_unconfigured gwcall pid port arg hosts h = rw h refl

run_start-ops :
    (w : Around) (pid : ℤ) (hosts : List Host) (s : Start) (e : Exit)
    → run_start w pid hosts s ≡ some e
    → (e.ops ≡ [])
      ⊎ ((r : Ready) × (s ≡ ready r)
          × (configured_call r.cfg ≢ codes "N0CALL")
          × (Main.main (configured_call r.cfg) pid r.port r.usercall hosts ≡ some e))
run_start-ops w pid hosts (refused status reason) e h =
    let same : exits status [] 0 none ≡ e = cc in inl (sym (ap (λ x. x.ops) same))
run_start-ops w pid hosts crashes e h = cc
run_start-ops w pid hosts (ready r) e h =
    elim (Bool-cases (streq (configured_call r.cfg) (codes "N0CALL"))) [
      | inl same ↦
          let run : Main.main (configured_call r.cfg) pid r.port r.usercall hosts ≡ some e =
            rw same at h in
          let ends : some (exits 1 [] 0 (some not_configured)) ≡ some e =
            sym (main_unconfigured _ pid r.port r.usercall hosts same) ∙ run in
          let status : exits 1 [] 0 (some not_configured) ≡ e = cc in
          inl (sym (ap (λ x. x.ops) status))
      | inr other ↦
          let run : behind_environment (load_environment w r.cfg.rmsgwenv)
                (Main.main (configured_call r.cfg) pid r.port r.usercall hosts)
              ≡ some e =
            rw other at h in
          inr (
            r,
            refl,
            (λ k. let hit = (streq_iff (configured_call r.cfg) (codes "N0CALL")).1 k in cc),
            begun_call w r.cfg _ e run,
          )
    ]

-- When the process of the gateway comes to an end, it has made no operation on the status block, or it
-- was ready: its options were read, exactly one call sign stood behind them, configuration and
-- version were loaded, the call sign of -g or else of the configuration is not N0CALL, the packet
-- length is not 0, the block was attached, and it ended as the session loop does.
pub rmsgw_main-IsReady :
    (w : Around) (pid : ℤ) (opts : List (ℕ × Str)) (operands : List Str) (st : MapState)
    (hosts : List Host) (e : Exit)
    → rmsgw_main w pid opts operands st hosts ≡ some e
    → (e.ops ≡ [])
      ⊎ ((r : Ready) × IsReady r w opts operands st
          × (configured_call r.cfg ≢ codes "N0CALL")
          × (Main.main (configured_call r.cfg) pid r.port r.usercall hosts ≡ some e))
unfolding rmsgw_main
rmsgw_main-IsReady w pid opts operands st hosts e h =
    elim (run_start-ops w pid hosts (start_rmsgw w opts operands st) e h) [
      | inl idle ↦ inl idle
      | inr (r, begun, named, ends) ↦
          inr (r, start_rmsgw-IsReady w opts operands st r begun, named, ends)
    ]

-- In a gateway that has started, when each write to the radio side takes between one byte and what it
-- is given, behind at most 15 refused writes, and there are as many of them as bytes, everything read
-- from the host is written, whatever packet length was asked for.
pub start_rmsgw-to_ax25 :
    (w : Around) (opts : List (ℕ × Str)) (operands : List Str) (st : MapState) (r : Ready)
    (bursts : List Burst) (buf : Str)
    → start_rmsgw w opts operands st ≡ ready r
    → All IsShort bursts
    → length buf ≤ length bursts
    → ((to_ax25 r.paclen buf 0 (results_of bursts)).ending ≡ all_written)
      × (concat (to_ax25 r.paclen buf 0 (results_of bursts)).chunks ≡ buf)
start_rmsgw-to_ax25 w opts operands st r bursts buf e h b =
    let begun = start_rmsgw-IsReady w opts operands st r e in
    to_ax25_lem r.paclen bursts buf begun.long h b
