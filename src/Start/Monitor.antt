-- ===== src/Start/Monitor.antt =====
-- main of rmsgwmon/rmsgwmon.c. The version file, the shared segment and the rounds of the loop are
-- arguments; the screen and logging are left out.
use rmsgw.Prelude.{ℕ, Option, none, some, List, ltb, if◌then◌else◌, Str, codes, pos}
use rmsgw.Config.Mapname.{MapState}
use rmsgw.Config.Load.{VersionBlk, load_version}
use rmsgw.Status.Block.{RmsStatus, statblock_attach}
use rmsgw.Monitor.Keys.{Round, Watch, gw_stat_run}
use rmsgw.Monitor.Dump.{dumpshm}
use rmsgw.Start.Options.{MonOptions, mon_options}
use rmsgw.Start.Gateway.{Around}

-- What the process comes to: a write behind `logmask`, an error of the version file, no segment, a dump,
-- or the loop.
pub data MonEnd : Type 0 where
  overruns : MonEnd
  no_version : ℕ → MonEnd
  not_attached : MonEnd
  dumps : List Str → MonEnd
  watches : Watch → MonEnd

abbrev pub mon_defaults : MonOptions
mon_defaults = record { interval = pos 5; logmask = codes "INFO"; dump = 0 }

abbrev pub dump_or_watch : ℕ → List Round → MonOptions → RmsStatus → MonEnd
dump_or_watch key_f3 rounds o block =
    if ltb 0 o.dump then dumps (dumpshm block) else watches (gw_stat_run key_f3 o.interval rounds)

abbrev pub behind_version : Option VersionBlk → ℕ → Option RmsStatus → (RmsStatus → MonEnd) → MonEnd
behind_version none code block next = no_version code
behind_version (some version) code none next = not_attached
behind_version (some version) code (some block) next = next block

abbrev pub behind_options : Option MonOptions → (MonOptions → MonEnd) → MonEnd
behind_options none next = overruns
behind_options (some o) next = next o

unfoldable pub rmsgwmon_main : Around → ℕ → List Round → List (ℕ × Str) → MapState → MonEnd
unfolding mon_options gw_stat_run dumpshm
rmsgwmon_main w key_f3 rounds opts st = behind_options (mon_options opts mon_defaults) (λ o.
    let version_read = (load_version (w.contents w.versionfile) st).0 in
    behind_version version_read.0 version_read.1 (statblock_attach w.made w.segment)
      (dump_or_watch key_f3 rounds o))
