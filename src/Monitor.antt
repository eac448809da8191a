-- ===== src/Monitor.antt =====
-- rmsgwmon/rmsgwmon.c: the rows of hosts and of gateways that aciStatus and gwStatus print from the status
-- block. A row is its place on the screen and its pieces with their attributes. `localtime` with the
-- format of its fields is an argument. The headings and the rest of the curses calls are left out.
pub mod Keys
pub mod Columns
pub mod Layout
pub mod Dump
use rmsgw.Prelude.{
  ℕ, ◌+◌, ◌-◌, ◌^◌, ◌≤◌, inl, inr, Bool, false, not, Option, none, some, List, [], ◌∷◌, ◌++◌, arith,
  ltb, leb, ◌==◌, if◌then◌else◌, Bool-cases, length, take, replicate, All, All-imp, Str, codes, ℤ,
  pos, negsuc, decimal,
}
use rmsgw.Status.Block.{RmsgwStat, AciHostStat, AciStat, gw_idle, aci_idle}
use rmsgw.Status.StateText.{gw_number, aci_number, map_gw_state, map_gw_comm}

-- %w s, and %-w.w s
unfoldable pub pad_left : ℕ → Str → Str
pad_left w s = replicate (w - length s) b' ' ++ s

unfoldable pub pad_right : ℕ → Str → Str
pad_right w s = s ++ replicate (w - length s) b' '

abbrev pub number_text : ℤ → Str
number_text (pos n) = decimal n
number_text (negsuc n) = b'-' ∷ decimal (n + 1)

-- `%ld` and `%lld` on a counter of 64 bits
unfoldable pub long_text : ℕ → Str
long_text n = if ltb n (2 ^ 63) then decimal n else b'-' ∷ decimal (2 ^ 64 - n)

abbrev pub text_or_null : Option Str → Str
text_or_null none = codes "(null)"
text_or_null (some s) = s

pub data Ink : Type 0 where
  plain : Str → Ink
  invisible : Str → Ink

pub record Row : Type 0 where
  pub line : ℕ
  pub inks : List Ink

abbrev pub is_unused : RmsgwStat → Bool
is_unused g = gw_number g.gw_state == 0

abbrev pub is_idle : RmsgwStat → Bool
is_idle g = gw_number g.gw_state == gw_number gw_idle

abbrev pub veiled : Bool → Str → Ink
veiled idle s = if idle then invisible s else plain s

-- The row of a slot that is used.
unfoldable pub gw_row : ℕ → RmsgwStat → Row
unfolding pad_left pad_right long_text map_gw_state map_gw_comm
gw_row i g = record {
  line = i + 2;
  inks =
      plain (pad_left 2 (decimal (i + 1)) ++ codes ": ")
      ∷ veiled (is_idle g) (pad_left 6 (number_text g.gw_pid) ++ codes " ")
      ∷ plain (
          pad_left 12 (text_or_null (map_gw_state g.gw_state))
          ++ (codes " "
              ++ (pad_left 12 (long_text g.gw_connects)
                  ++ (codes " "
                      ++ (pad_left 12 (long_text g.gw_bytes_in)
                          ++ (codes " "
                              ++ (pad_left 12 (long_text g.gw_bytes_out)
                                  ++ (codes " " ++ pad_left 9 (take 9 g.gw_gwcall)))))))))
      ∷ veiled (is_idle g)
          (pad_left 2 (text_or_null (map_gw_comm g.gw_state)) ++ pad_right 9 (take 9 g.gw_client))
      ∷ [];
}

-- The loop over the table, from a slot on.
unfoldable pub gw_rows : ℕ → List RmsgwStat → List Row
unfolding gw_row
gw_rows i [] = []
gw_rows i (g ∷ table) =
    let rows = gw_rows (i + 1) table in if is_unused g then rows else gw_row i g ∷ rows

-- The colour of a host's row.
pub data Paint : Type 0 where
  active : Paint
  last_cms : Paint
  failing : Paint
  uncoloured : Paint

unfoldable pub is_at : ℤ → ℕ → Bool
is_at (pos n) i = n == i
is_at (negsuc n) i = false

unfoldable pub paint_of : AciStat → ℕ → AciHostStat → Paint
unfolding is_at
paint_of aci i h =
    if not (aci_number aci.aci_state == aci_number aci_idle)
    then if is_at aci.aci_hostidx i then active else uncoloured
    else if is_at aci.aci_hostidx i
    then last_cms
    else if ltb 0 h.aci_host_cur_fail_count
    then failing
    else uncoloured

pub record HostRow : Type 0 where
  pub line : ℕ
  pub paint : Paint
  pub text : Str

-- A time, where 0 is none and `localtime` may fail.
abbrev pub time_text : (ℕ → Option Str) → ℕ → Str
time_text localtime t =
    if leb t 0
    then codes "[never]"
    else elim (localtime t) [ none ↦ codes "[time error]" | some s ↦ take 15 s ]

unfoldable pub aci_row : (ℕ → Option Str) → AciStat → ℕ → AciHostStat → HostRow
unfolding paint_of pad_left pad_right long_text
aci_row localtime aci i h = record {
  line = i + 2;
  paint = paint_of aci i h;
  text =
      pad_left 2 (decimal (i + 1))
      ++ (codes ": "
          ++ (pad_right 12 (take 12 h.aci_host)
              ++ (codes " "
                  ++ (pad_right 15 (take 15 (time_text localtime h.aci_host_last_ci))
                      ++ (codes " "
                          ++ (pad_right 15 (take 15 (time_text localtime h.aci_host_last_failure))
                              ++ (codes " "
                                  ++ (pad_left 8 (long_text h.aci_host_ci_count)
                                      ++ (codes " "
                                          ++ (pad_left 8 (long_text h.aci_host_tot_fail_count)
                                              ++ (codes " "
                                                  ++ pad_left 8 (
                                                      long_text
                                                        h.aci_host_cur_fail_count))))))))))));
}

-- The loop over the hosts, which ends at the first empty slot.
unfoldable pub aci_rows : (ℕ → Option Str) → AciStat → ℕ → List AciHostStat → List HostRow
unfolding aci_row
aci_rows localtime aci i [] = []
aci_rows localtime aci i (h ∷ hosts) =
    let rows = aci_rows localtime aci (i + 1) hosts in
    if leb (length h.aci_host) 0 then [] else aci_row localtime aci i h ∷ rows

abbrev lines_of : List Row → List ℕ
lines_of [] = []
lines_of (r ∷ rows) = r.line ∷ lines_of rows

-- Each slot of the gateway table has its own line of the screen.
pub gw_rows-above :
    (i : ℕ) (table : List RmsgwStat) → All (λ l. i + 2 ≤ l) (lines_of (gw_rows i table))
unfolding gw_rows
gw_rows-above i [] = tt
gw_rows-above i (g ∷ table) =
    let later : All (λ l. i + 2 ≤ l) (lines_of (gw_rows (i + 1) table)) =
      All-imp (lines_of (gw_rows (i + 1) table)) (λ l h. omega (arith, h))
        (gw_rows-above (i + 1) table) in
    elim (Bool-cases (is_unused g)) [
      | inl unused ↦ rw unused later
      | inr used ↦ rw used (omega arith, later)
    ]
