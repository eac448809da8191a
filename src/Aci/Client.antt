-- ===== src/Aci/Client.antt =====
-- rmsgw_aci/wl2k_aci.c, rmsgw_aci/run_python_script.c, rmsgw_aci/sendchannel.c, rmsgw_aci/sendversion.c,
-- and the version update in rmsgw_aci/rmsgw_aci.c. The results of `system` and of `fileage` are
-- inputs. Logging and the hooks are left out.
use rmsgw.Prelude.{
  ℕ, zero, suc, ◌+◌, ◌-◌, ◌/◌, ◌%◌, ◌^◌, Bool, true, false, ◌&&◌, ◌||◌, Option, none, some, List,
  [], ◌∷◌, leb, ◌==◌, if◌then◌else◌, length, Str, codes, tolower, ℤ, pos, negsuc, ltb_ℤ, leb_ℤ,
  is_zero, atoi,
}
use rmsgw.Channel.File.{
  servicecode, Channel, Doc, ChanState, Got, got, no_more, crashed, getchanent, store,
}
use rmsgw.Status.Block.{
  RmsStatus, aci_running, aci_idle, aci_channelupdate, aci_versionupdate, aci_disconnected,
  sbset_aci_state, sbset_aci_pid, sbset_channel_stats,
}

-- WEXITSTATUS of the int that `system` returns.
unfoldable pub wexitstatus : ℤ → ℕ
wexitstatus (pos n) = n / 256 % 256
wexitstatus (negsuc n) = (2 ^ 32 - 1 - n) / 256 % 256

unfoldable pub channel_available : ℤ → Bool
unfolding wexitstatus
channel_available rc = wexitstatus rc == 0

-- run_python_script; a status is never negative.
unfoldable pub run_python_script : ℤ → ℤ
unfolding wexitstatus
run_python_script rc = if wexitstatus rc == 0 then pos 0 else pos 1

unfoldable pub send_channel : ℤ → ℤ
unfolding run_python_script
send_channel rc = if is_zero (run_python_script rc) then pos 0 else negsuc 0

unfoldable pub send_version : ℤ → ℤ
unfolding run_python_script
send_version rc = if is_zero (run_python_script rc) then pos 0 else negsuc 0

-- strcasecmp(a, b) == 0
unfoldable pub strcaseeq : Str → Str → Bool
strcaseeq [] [] = true
strcaseeq [] (y ∷ ys) = false
strcaseeq (x ∷ xs) [] = false
strcaseeq (x ∷ xs) (y ∷ ys) = tolower x == tolower y && strcaseeq xs ys

pub record ChanStats : Type 0 where
  pub read : ℕ
  pub active : ℕ
  pub down : ℕ
  pub updated : ℕ
  pub errors : ℕ

-- What the work at a channel meets: the result of the status checker, the age of the channel's status
-- file, and the result of the update script.
pub record Visit : Type 0 where
  pub check_rc : ℤ
  pub status_age : ℤ
  pub update_rc : ℤ

-- The static entry, the statistics, the status block, and the names of the channels whose status file
-- was touched, latest first.
pub record Aci : Type 0 where
  pub chnl : Channel
  pub chanstats : ChanStats
  pub sp : RmsStatus
  pub touched : List (Option Str)

abbrev pub dflt_servicecode : Str
dflt_servicecode = codes "PUBLIC"

abbrev pub dflt_channelupd : ℤ
dflt_channelupd = pos 7140

abbrev pub dflt_versionupd : ℤ
dflt_versionupd = pos 86400

-- cfg->channelupd == NULL || (… = atol(…)) <= 0
unfoldable pub channel_interval : Option Str → ℤ
channel_interval none = dflt_channelupd
channel_interval (some s) = if leb_ℤ (atoi s) (pos 0) then dflt_channelupd else atoi s

unfoldable pub default_service : Channel → Channel
unfolding store
default_service c = elim (c.ch_field servicecode) [
  | none ↦ store servicecode dflt_servicecode c
  | some s ↦ if leb (length s) 0 then store servicecode dflt_servicecode c else c
]

-- `status_age >= channel_update_interval || channels_age < status_age`
unfoldable pub is_due : ℤ → ℤ → ℤ → Bool
is_due interval channels_age status_age = leb_ℤ interval status_age || ltb_ℤ channels_age status_age

-- The update of a channel.
unfoldable pub update_channel : ℤ → Aci → Aci
unfolding send_channel sbset_aci_state
update_channel update_rc a =
    let before = sbset_aci_state a.sp aci_channelupdate in
    let s = a.chanstats in
    let counted =
      if is_zero (send_channel update_rc)
      then record s { updated = s.updated + 1 }
      else record s { errors = s.errors + 1 } in
    record a {
      chanstats = counted;
      sp = sbset_aci_state before aci_running;
      touched = a.chnl.ch_name ∷ a.touched;
    }

-- What is done at an active channel.
unfoldable pub active_channel : ℤ → ℤ → Visit → Aci → Aci
unfolding default_service channel_available is_due update_channel
active_channel interval channels_age v a =
    let s = a.chanstats in
    let b = record a {
      chnl = default_service a.chnl;
      chanstats = record s { active = s.active + 1 };
    } in
    if channel_available v.check_rc
    then if is_due interval channels_age v.status_age then update_channel v.update_rc b else b
    else record b { chanstats = record s { active = s.active + 1; down = s.down + 1 } }

-- `strcasecmp(chnl->ch_active, "yes")`, or `none` for NULL.
unfoldable pub is_marked : Option Str → Option Bool
unfolding strcaseeq
is_marked none = none
is_marked (some active) = some (strcaseeq active (codes "yes"))

abbrev pub by_mark : Option Bool → Aci → Aci → Option Aci
by_mark none on off = none
by_mark (some true) on off = some on
by_mark (some false) on off = some off

-- The body of the loop at a channel. `none` is a comparison with NULL.
unfoldable pub at_channel : ℤ → ℤ → Visit → Aci → Option Aci
unfolding active_channel is_marked
at_channel interval channels_age v a =
    let s = a.chanstats in
    let b = record a { chanstats = record s { read = s.read + 1 } } in
    by_mark (is_marked a.chnl.ch_active) (active_channel interval channels_age v b) b

-- The end of the loop, a fault in it, or too little fuel or too few visits.
pub data Finish : Type 0 where
  finished : Aci → Finish
  faulted : Finish
  unfinished : Finish

abbrev pub go_on : Option Aci → (Aci → Finish) → Finish
go_on none next = faulted
go_on (some a) next = next a

-- What the loop does with an entry, where `next` is the rest of the loop.
abbrev pub visit_entry :
    ℤ → ℤ → (List Visit → ChanState → Aci → Finish) → List Visit → ChanState → Aci → Finish
visit_entry interval channels_age next [] st a = unfinished
visit_entry interval channels_age next (v ∷ later) st a =
    go_on (at_channel interval channels_age v (record a { chnl = st.curent }))
      (λ b. next later (record st { curent = b.chnl }) b)

abbrev pub with_entry : (ChanState → Finish) → Aci → Got → Finish
with_entry visit a crashed = faulted
with_entry visit a (no_more st) = finished a
with_entry visit a (got st) = visit st

-- `while ((chnl = getchanent()) != NULL)` on fuel, with what is met at each channel. The entry is
-- static, so that a default that is put into it stays.
unfoldable pub aci_loop : ℤ → ℤ → ℕ → Option Doc → List Visit → ChanState → Aci → Finish
unfolding at_channel getchanent
aci_loop interval channels_age zero parsed visits st a = unfinished
aci_loop interval channels_age (suc fuel) parsed visits st a =
    with_entry
      (λ st'.
        visit_entry interval channels_age
          (λ later st'' b. aci_loop interval channels_age fuel parsed later st'' b) visits st' a)
      a (getchanent parsed st)

abbrev pub no_stats : ChanStats
no_stats = record { read = 0; active = 0; down = 0; updated = 0; errors = 0 }

-- The statistics in the status block and the state at the end.
unfoldable pub report : Aci → RmsStatus
unfolding sbset_channel_stats sbset_aci_state
report a =
    sbset_aci_state
      (sbset_channel_stats a.sp (codes "winlink.org") (pos a.chanstats.updated)
        (pos a.chanstats.errors))
      aci_disconnected

-- wl2k_aci, where `channels_age` is 0 when no channel file is configured.
unfoldable pub wl2k_aci :
    Option Str → ℤ → ℕ → Option Doc → List Visit → ChanState → RmsStatus → Option (Aci × RmsStatus)
unfolding channel_interval aci_loop report
wl2k_aci channelupd channels_age fuel parsed visits st sp =
    elim (aci_loop (channel_interval channelupd) channels_age fuel parsed visits st
      (record { chnl = st.curent; chanstats = no_stats; sp = sp; touched = [] })) [
        | unfinished ↦ none
        | faulted ↦ none
        | finished a ↦ some (a, report a)
      ]

-- cfg->versionupd == NULL || (… = atol(…)) == 0
unfoldable pub version_interval : Option Str → ℤ
version_interval none = dflt_versionupd
version_interval (some s) = if is_zero (atoi s) then dflt_versionupd else atoi s

-- The end of main in rmsgw_aci/rmsgw_aci.c: the status block, and whether the version was sent and
-- its status file touched.
unfoldable pub version_update : Option Str → ℤ → RmsStatus → RmsStatus × Bool
unfolding version_interval sbset_aci_state
version_update versionupd age sp =
    if leb_ℤ (version_interval versionupd) age
    then (
      sbset_aci_state (sbset_aci_state (sbset_aci_state sp aci_versionupdate) aci_running) aci_idle,
      true,
    )
    else (sbset_aci_state sp aci_idle, false)

-- main of rmsgw_aci/rmsgw_aci.c, from the status block's attachment on.
unfoldable pub aci_main :
    ℤ
    → Option Str
    → Option Str
    → ℤ
    → ℤ
    → ℕ
    → Option Doc
    → List Visit
    → ChanState
    → RmsStatus
    → Option (RmsStatus × Bool)
unfolding wl2k_aci version_update sbset_aci_pid sbset_aci_state
aci_main pid channelupd versionupd channels_age version_age fuel parsed visits st sp =
    elim (wl2k_aci channelupd channels_age fuel parsed visits st
      (sbset_aci_state (sbset_aci_pid sp pid) aci_running)) [
        | none ↦ none
        | some (a, q) ↦ some (version_update versionupd version_age q)
      ]
