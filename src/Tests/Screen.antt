-- ===== src/Tests/Screen.antt =====
-- The keys and the windows of the monitor on concrete inputs.
use rmsgw.Prelude.{ℕ, ◌+◌, ◌≤◌, ◌<◌, ◌≡◌, refl, ◌⊎◌, [], ◌∷◌, arith, codes, pos}
use rmsgw.Status.Block.{RmsgwStat, gw_running}
use rmsgw.Monitor.{gw_rows}
use rmsgw.Monitor.Keys.{
  no_key, pressed, interrupted, quits, is_digit, is_quit, gw_stat_run, gw_stat_run_lem,
}
use rmsgw.Monitor.Layout.{layout, Below, layout_lem}

gw_stat_run_lem_example :
    (n : ℕ) × (gw_stat_run 267
        (pos 0)
        (no_key ∷ pressed b'3' ∷ interrupted ∷ pressed b'q' ∷ no_key ∷ [])
      ≡ quits n)
    × (((1 ≤ n) × (n ≤ 10)) ⊎ ((pos 0 ≡ pos n) × (1 ≤ n)))
unfolding is_digit is_quit
gw_stat_run_lem_example =
    gw_stat_run_lem 267 (pos 0) (no_key ∷ pressed b'3' ∷ interrupted ∷ []) (no_key ∷ []) b'q'
      (refl, (refl, (refl, tt))) refl refl

abbrev a_gateway : RmsgwStat
a_gateway = record {
  gw_pid = pos 1;
  gw_state = gw_running;
  gw_gwcall = codes "W1AW-10";
  gw_client = [];
  gw_cms = [];
  gw_connects = 1;
  gw_bytes_in = 0;
  gw_bytes_out = 0;
}

layout_lem_example :
    let l = layout 27 in
    (1 ≤ l.acistart)
    × (l.acistart + l.acilines ≤ l.splitrow)
    × (l.splitrow < l.gwstart)
    × (l.gwstart + l.gwlines < 27)
    × Below l.gwlines (gw_rows 0 (a_gateway ∷ []))
layout_lem_example = layout_lem 27 (a_gateway ∷ []) (omega arith) (omega arith)
