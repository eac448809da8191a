-- ===== src/Monitor/Layout.antt =====
-- The windows that gwStatRun of rmsgwmon/rmsgwmon.c makes, from the height that `getmaxy` gives for the
-- window of the border, which is one line less than the screen.
use rmsgw.Prelude.{
  ℕ, ◌+◌, ◌-◌, ◌/◌, ◌≤◌, ◌<◌, inl, inr, List, [], ◌∷◌, arith, Bool-cases, length, All,
}
use rmsgw.Status.Block.{RmsgwStat}
use rmsgw.Monitor.{Row, gw_rows, is_unused, gw_row}

-- The first lines and the heights of the two windows inside the border, and the line between them. The
-- heights are those of the source when they are positive.
pub record Layout : Type 0 where
  pub splitrow : ℕ
  pub acistart : ℕ
  pub acilines : ℕ
  pub gwstart : ℕ
  pub gwlines : ℕ

unfoldable pub layout : ℕ → Layout
layout ysplit =
    let splitrow = ysplit / 2 in
    let aciend = splitrow - 1 in
    let gwstart = splitrow + 1 in
    let gwend = ysplit - 2 in
    record {
      splitrow = splitrow;
      acistart = 1;
      acilines = aciend - 1 + 1;
      gwstart = gwstart;
      gwlines = gwend + 1 - gwstart;
    }

abbrev pub Below : ℕ → List Row → Type 0
Below n rows = All (λ r. r.line < n) rows

gw_rows-Below :
    (i : ℕ) (table : List RmsgwStat) (n : ℕ) → i + length table + 2 ≤ n → Below n (gw_rows i table)
unfolding gw_rows gw_row
gw_rows-Below i [] n h = tt
gw_rows-Below i (g ∷ table) n h =
    let later = gw_rows-Below (i + 1) table n (omega (arith, h)) in
    elim (Bool-cases (is_unused g)) [
      | inl unused ↦ rw unused later
      | inr used ↦ rw used (omega (arith, h), later)
    ]

-- On a screen of at least 28 lines the windows lie inside the border, apart from each other and from the
-- line between them, and each row of a table of at most ten gateways is inside the lower window.
pub layout_lem :
    (ysplit : ℕ) (table : List RmsgwStat)
    → 27 ≤ ysplit
    → length table ≤ 10
    → let l = layout ysplit in
      (1 ≤ l.acistart)
      × (l.acistart + l.acilines ≤ l.splitrow)
      × (l.splitrow < l.gwstart)
      × (l.gwstart + l.gwlines < ysplit)
      × Below l.gwlines (gw_rows 0 table)
unfolding layout
layout_lem ysplit table h k = (
  omega arith,
  omega (arith, h),
  omega arith,
  omega (arith, h),
  gw_rows-Below 0 table (ysplit - 2 + 1 - (ysplit / 2 + 1)) (omega (arith, h, k)),
)

-- On a screen of 24 lines the rows of the last two slots are below the window.
pub layout_24 : (i : ℕ) (g : RmsgwStat) → 8 ≤ i → (layout 23).gwlines ≤ (gw_row i g).line
unfolding layout gw_row
layout_24 i g h = omega (arith, h)
