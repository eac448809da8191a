-- ===== src/Monitor/Columns.antt =====
-- The headings that aciStatus and gwStatus of rmsgwmon/rmsgwmon.c print over their tables, and the width
-- of the gateways' rows under theirs.
use rmsgw.Prelude.{
  ℕ, ◌+◌, ◌-◌, ◌^◌, ◌≤◌, ◌<◌, ◌≡◌, refl, ◌∙◌, Bool, true, false, List, [], ◌∷◌, ◌++◌, arith, ltb,
  if◌then◌else◌, length, take, replicate, length-append, length-take, length-replicate, Str, codes,
  pos, decimal, length-decimal,
}
use rmsgw.Status.Block.{
  RmsgwStat, GwState, gw_unused, gw_running, gw_idle, gw_connecting, gw_authorizing, gw_connected,
  gw_login, gw_loggedin, gw_commwait, gw_sending, gw_receiving, gw_disconnecting, gw_disconnected,
}
use rmsgw.Status.StateText.{map_gw_state, map_gw_comm}
use rmsgw.Monitor.{
  pad_left, pad_right, number_text, long_text, text_or_null, Ink, plain, invisible, veiled, is_idle,
  gw_row,
}

-- "%-w.ws" and "%w.ws" of a title.
abbrev pub left_title : ℕ → Str → Str
left_title w s = pad_right w (take w s)

abbrev pub right_title : ℕ → Str → Str
right_title w s = pad_left w (take w s)

unfoldable pub aci_heading : Str
unfolding pad_left pad_right
aci_heading =
    codes " #  "
    ++ (left_title 12 (codes "ACI Host")
        ++ (codes " "
            ++ (left_title 15 (codes "Last CI")
                ++ (codes " "
                    ++ (left_title 15 (codes "Lst Fail")
                        ++ (codes " "
                            ++ (right_title 8 (codes "CIs")
                                ++ (codes " "
                                    ++ (right_title 8 (codes "Ttl Fail")
                                        ++ (codes " " ++ right_title 8 (codes "Cur Fail")))))))))))

unfoldable pub gw_heading : Str
unfolding pad_left pad_right
gw_heading =
    codes " #  "
    ++ (right_title 6 (codes "PID")
        ++ (codes " "
            ++ (right_title 12 (codes "State")
                ++ (codes " "
                    ++ (right_title 12 (codes "Connects")
                        ++ (codes " "
                            ++ (right_title 12 (codes "Bytes In")
                                ++ (codes " "
                                    ++ (right_title 12 (codes "Bytes Out")
                                        ++ (codes " "
                                            ++ (right_title 9 (codes "GW Call")
                                                ++ (codes "  "
                                                    ++ left_title 9 (codes "Client")))))))))))))

-- What a piece of a row takes of the line, hidden or not.
abbrev pub ink_width : Ink → ℕ
ink_width (plain s) = length s
ink_width (invisible s) = length s

abbrev pub width_of : List Ink → ℕ
width_of [] = 0
width_of (x ∷ inks) = ink_width x + width_of inks

-- The number of bytes of a state's text.
abbrev pub state_width : GwState → ℕ
state_width s = length (text_or_null (map_gw_state s))

length-pad_left : (w : ℕ) (s : Str) → length s ≤ w → length (pad_left w s) ≡ w
unfolding pad_left
length-pad_left w s h = omega (
  arith,
  length-append (replicate (w - length s) b' ') s,
  length-replicate {A = ℕ} (w - length s) b' ',
  h,
)

length-pad_right : (w : ℕ) (s : Str) → length s ≤ w → length (pad_right w s) ≡ w
unfolding pad_right
length-pad_right w s h = omega (
  arith,
  length-append s (replicate (w - length s) b' '),
  length-replicate {A = ℕ} (w - length s) b' ',
  h,
)

-- The text of every state but one fits its 12 places.
abbrev pub is_disconnecting : GwState → Bool
is_disconnecting gw_disconnecting = true
is_disconnecting _ = false

state_column :
    (s : GwState)
    → length (pad_left 12 (text_or_null (map_gw_state s)))
      ≡ 12 + (if is_disconnecting s then 1 else 0)
unfolding pad_left map_gw_state
state_column gw_unused = refl
state_column gw_running = refl
state_column gw_idle = refl
state_column gw_connecting = refl
state_column gw_authorizing = refl
state_column gw_connected = refl
state_column gw_login = refl
state_column gw_loggedin = refl
state_column gw_commwait = refl
state_column gw_sending = refl
state_column gw_receiving = refl
state_column gw_disconnecting = refl
state_column gw_disconnected = refl

comm_column : (s : GwState) → length (pad_left 2 (text_or_null (map_gw_comm s))) ≡ 2
unfolding pad_left map_gw_comm
comm_column gw_unused = refl
comm_column gw_running = refl
comm_column gw_idle = refl
comm_column gw_connecting = refl
comm_column gw_authorizing = refl
comm_column gw_connected = refl
comm_column gw_login = refl
comm_column gw_loggedin = refl
comm_column gw_commwait = refl
comm_column gw_sending = refl
comm_column gw_receiving = refl
comm_column gw_disconnecting = refl
comm_column gw_disconnected = refl

counter_column : (n : ℕ) → n < 10 ^ 12 → length (pad_left 12 (long_text n)) ≡ 12
unfolding long_text
counter_column n h =
    let small : ltb n (2 ^ 63) ≡ true = ground arith in
    rw small (length-pad_left 12 (decimal n) (length-decimal 11 n h))

veiled-width : (idle : Bool) (s : Str) → ink_width (veiled idle s) ≡ length s
veiled-width true s = refl
veiled-width false s = refl

call_column : (s : Str) → length (pad_left 9 (take 9 s)) ≡ 9
call_column s = length-pad_left 9 (take 9 s) (omega (arith, length-take 9 s))

client_column : (s : Str) → length (pad_right 9 (take 9 s)) ≡ 9
client_column s = length-pad_right 9 (take 9 s) (omega (arith, length-take 9 s))

columns_width :
    (idle : Bool) (number process state connects bytes_in bytes_out call comm client : Str)
    → width_of (
        plain (number ++ codes ": ")
        ∷ veiled idle (process ++ codes " ")
        ∷ plain (
            state
            ++ (codes " "
                ++ (connects
                    ++ (codes " "
                        ++ (bytes_in ++ (codes " " ++ (bytes_out ++ (codes " " ++ call))))))))
        ∷ veiled idle (comm ++ client)
        ∷ [])
      ≡ length number
        + length process
        + length state
        + length connects
        + length bytes_in
        + length bytes_out
        + length call
        + length comm
        + length client
        + 7
columns_width idle number process state connects bytes_in bytes_out call comm client =
    rw (veiled-width idle (process ++ codes " "), veiled-width idle (comm ++ client))
      (simp length-append (omega arith))

-- A row of the gateways is as wide as its heading when its slot has at most two digits, its process at
-- most six and its counters at most twelve; in the state Disconnecting it is one byte wider, so that
-- what stands behind the state is one place off its heading.
pub gw_row-gw_heading :
    (i p : ℕ) (g : RmsgwStat)
    → i < 99
    → g.gw_pid ≡ pos p
    → p < 10 ^ 6
    → g.gw_connects < 10 ^ 12
    → g.gw_bytes_in < 10 ^ 12
    → g.gw_bytes_out < 10 ^ 12
    → width_of (gw_row i g).inks
      ≡ length gw_heading + (if is_disconnecting g.gw_state then 1 else 0)
unfolding gw_row gw_heading
gw_row-gw_heading i p g hi hp hq hc hin hout =
    let idle = is_idle g in
    let number : length (pad_left 2 (decimal (i + 1))) ≡ 2 =
      length-pad_left 2 (decimal (i + 1)) (length-decimal 1 (i + 1) (omega (arith, hi))) in
    let process : length (pad_left 6 (number_text g.gw_pid)) ≡ 6 =
      rw hp (length-pad_left 6 (decimal p) (length-decimal 5 p hq)) in
    columns_width idle (pad_left 2 (decimal (i + 1))) (pad_left 6 (number_text g.gw_pid))
      (pad_left 12 (text_or_null (map_gw_state g.gw_state))) (pad_left 12 (long_text g.gw_connects))
      (pad_left 12 (long_text g.gw_bytes_in)) (pad_left 12 (long_text g.gw_bytes_out))
      (pad_left 9 (take 9 g.gw_gwcall)) (pad_left 2 (text_or_null (map_gw_comm g.gw_state)))
      (pad_right 9 (take 9 g.gw_client))
    ∙ omega (
      arith,
      number,
      process,
      state_column g.gw_state,
      comm_column g.gw_state,
      counter_column g.gw_connects hc,
      counter_column g.gw_bytes_in hin,
      counter_column g.gw_bytes_out hout,
      call_column g.gw_gwcall,
      client_column g.gw_client,
    )
