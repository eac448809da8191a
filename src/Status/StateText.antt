-- ===== src/Status/StateText.antt =====
-- The texts of the states, `map_aci_state`, `map_gw_state` and `map_gw_comm` of lib/statblock.c, as
-- reads of the tables at the state's number.
use rmsgw.Prelude.{
  ℕ, suc, ◌≡◌, refl, ap, ◌↔◌, inl, inr, Option, none, some, List, [], ◌∷◌, if◌then◌else◌,
  Option-cases, get_elem?, Str, codes, streq,
}
use rmsgw.Status.Block.{
  GwState, gw_unused, gw_running, gw_idle, gw_connecting, gw_authorizing, gw_connected, gw_login,
  gw_loggedin, gw_commwait, gw_sending, gw_receiving, gw_disconnecting, gw_disconnected, AciState,
  aci_unused, aci_running, aci_idle, aci_connecting, aci_connected, aci_channeladd,
  aci_channelupdate, aci_versionupdate, aci_disconnecting, aci_disconnected,
}

abbrev aci_state_map : List Str
aci_state_map =
    codes "Unused"
    ∷ codes "Running"
    ∷ codes "Idle"
    ∷ codes "Connecting"
    ∷ codes "Connected"
    ∷ codes "Add Channel"
    ∷ codes "Update Channel"
    ∷ codes "Update Version"
    ∷ codes "Disconnecting"
    ∷ codes "Disconnected"
    ∷ []

abbrev gw_state_map : List Str
gw_state_map =
    codes "Unused"
    ∷ codes "Running"
    ∷ codes "Idle"
    ∷ codes "Connecting"
    ∷ codes "Authorizing"
    ∷ codes "Connected"
    ∷ codes "Login"
    ∷ codes "Logged In"
    ∷ codes "Comm Wait"
    ∷ codes "Sending"
    ∷ codes "Receiving"
    ∷ codes "Disconnecting"
    ∷ codes "Disconnected"
    ∷ []

abbrev gw_comm_map : List Str
gw_comm_map =
    codes "  "
    ∷ codes "~~"
    ∷ codes ".."
    ∷ codes "=="
    ∷ codes "++"
    ∷ codes "--"
    ∷ codes "^^"
    ∷ codes "--"
    ∷ codes "><"
    ∷ codes "->"
    ∷ codes "<-"
    ∷ codes "vv"
    ∷ codes "##"
    ∷ []

abbrev pub aci_number : AciState → ℕ
aci_number aci_unused = 0
aci_number aci_running = 1
aci_number aci_idle = 2
aci_number aci_connecting = 3
aci_number aci_connected = 4
aci_number aci_channeladd = 5
aci_number aci_channelupdate = 6
aci_number aci_versionupdate = 7
aci_number aci_disconnecting = 8
aci_number aci_disconnected = 9

abbrev pub gw_number : GwState → ℕ
gw_number gw_unused = 0
gw_number gw_running = 1
gw_number gw_idle = 2
gw_number gw_connecting = 3
gw_number gw_authorizing = 4
gw_number gw_connected = 5
gw_number gw_login = 6
gw_number gw_loggedin = 7
gw_number gw_commwait = 8
gw_number gw_sending = 9
gw_number gw_receiving = 10
gw_number gw_disconnecting = 11
gw_number gw_disconnected = 12

-- `none` is a read outside the table, or of its NULL.
unfoldable pub map_aci_state : AciState → Option Str
map_aci_state s = get_elem? aci_state_map (aci_number s)

unfoldable pub map_gw_state : GwState → Option Str
map_gw_state s = get_elem? gw_state_map (gw_number s)

unfoldable pub map_gw_comm : GwState → Option Str
map_gw_comm s = get_elem? gw_comm_map (gw_number s)

-- The place of a text in a table.
place : List Str → Str → ℕ
place [] t = 0
place (x ∷ xs) t = if streq x t then 0 else suc (place xs t)

place_of : List Str → Option Str → Option ℕ
place_of table none = none
place_of table (some t) = some (place table t)

gw_place : (s : GwState) → place_of gw_state_map (map_gw_state s) ≡ some (gw_number s)
unfolding place place_of map_gw_state streq
gw_place gw_unused = refl
gw_place _ = refl

aci_place : (s : AciState) → place_of aci_state_map (map_aci_state s) ≡ some (aci_number s)
unfolding place place_of map_aci_state streq
aci_place aci_unused = refl
aci_place _ = refl

-- Every state of a gateway and of the ACI process has a text in the table, and no two states of one
-- kind have the same; the table of line symbols also has one for every gateway state.
pub state_texts :
    ((s : GwState) → (t : Str) × (map_gw_state s ≡ some t))
    × ((s t : GwState) → (map_gw_state s ≡ map_gw_state t) ↔ (gw_number s ≡ gw_number t))
    × ((s : AciState) → (t : Str) × (map_aci_state s ≡ some t))
    × ((s t : AciState) → (map_aci_state s ≡ map_aci_state t) ↔ (aci_number s ≡ aci_number t))
    × ((s : GwState) → (t : Str) × (map_gw_comm s ≡ some t))
unfolding map_gw_comm map_gw_state map_aci_state place_of
state_texts = (gw_text, gw_same, aci_text, aci_same, comm_text)
  where
    gw_same : (s t : GwState) → (map_gw_state s ≡ map_gw_state t) ↔ (gw_number s ≡ gw_number t)
    gw_same s t = (
      λ e. cc (gw_place s, gw_place t, ap (place_of gw_state_map) e),
      λ e. ap (get_elem? gw_state_map) e,
    )

    aci_same :
        (s t : AciState) → (map_aci_state s ≡ map_aci_state t) ↔ (aci_number s ≡ aci_number t)
    aci_same s t = (
      λ e. cc (aci_place s, aci_place t, ap (place_of aci_state_map) e),
      λ e. ap (get_elem? aci_state_map) e,
    )

    gw_text : (s : GwState) → (t : Str) × (map_gw_state s ≡ some t)
    gw_text s = elim (Option-cases (map_gw_state s)) [
      | inl absent ↦ absurd (cc (gw_place s, ap (place_of gw_state_map) absent))
      | inr (t, e) ↦ (t, e)
    ]

    aci_text : (s : AciState) → (t : Str) × (map_aci_state s ≡ some t)
    aci_text s = elim (Option-cases (map_aci_state s)) [
      | inl absent ↦ absurd (cc (aci_place s, ap (place_of aci_state_map) absent))
      | inr (t, e) ↦ (t, e)
    ]

    comm_text : (s : GwState) → (t : Str) × (map_gw_comm s ≡ some t)
    comm_text gw_unused = (_, refl)
    comm_text _ = (_, refl)
