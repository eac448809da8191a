-- ===== src/Aci/Frame.antt =====
-- What the ACI (rmsgw_aci/) leaves alone in the status block: the gateways' part of it.
use rmsgw.Prelude.{
  ℕ, zero, suc, ◌+◌, ◌≡◌, refl, ap, ◌∙◌, inl, inr, Bool, true, false, Option, none, some, List, [],
  ◌∷◌, Bool-cases, Str, ℤ, leb_ℤ,
}
use rmsgw.Channel.File.{Doc, ChanState, Got, got, no_more, crashed, getchanent}
use rmsgw.Status.Block.{
  RmsStatus, AciHostStat, aci_idle, aci_running, publish_slot, get_cms_slot, change_host,
  at_cms_slot, sbset_aci_state, sbset_aci_pid, sbset_channel_stats,
}
use rmsgw.Aci.Client.{
  channel_available, Visit, Aci, is_due, update_channel, active_channel, is_marked, by_mark,
  at_channel, Finish, finished, faulted, unfinished, go_on, visit_entry, with_entry, aci_loop,
  report, wl2k_aci, version_interval, channel_interval, no_stats, version_update, aci_main,
}

-- The gateways' table is the one of `sp`.
abbrev Keeps : RmsStatus → RmsStatus → Type 0
Keeps sp q = q.rmsgw ≡ sp.rmsgw

publish_slot-Keeps :
    (p : RmsStatus) (r : List AciHostStat × Option ℕ) → Keeps p ((publish_slot p r).0)
unfolding publish_slot
publish_slot-Keeps p (hosts, none) = refl
publish_slot-Keeps p (hosts, some i) = refl

get_cms_slot-Keeps : (p : RmsStatus) (host : Str) → Keeps p ((get_cms_slot p host).0)
unfolding get_cms_slot
get_cms_slot-Keeps p host = publish_slot-Keeps p _

change_host-Keeps :
    (p : RmsStatus) (r : RmsStatus × Option ℕ) (change : AciHostStat → AciHostStat)
    → Keeps p r.0
    → Keeps p (change_host r change)
unfolding change_host
change_host-Keeps p (q, none) change h = h
change_host-Keeps p (q, some i) change h = h

at_cms_slot-Keeps :
    (p : RmsStatus) (host : Str) (change : AciHostStat → AciHostStat)
    → Keeps p (at_cms_slot p host change)
unfolding at_cms_slot
at_cms_slot-Keeps p host change =
    change_host-Keeps p (get_cms_slot p host) change (get_cms_slot-Keeps p host)

report-Keeps : (a : Aci) → Keeps a.sp (report a)
unfolding report sbset_aci_state sbset_channel_stats
report-Keeps a = at_cms_slot-Keeps a.sp _ _

active_channel-Keeps :
    (interval channels_age : ℤ) (v : Visit) (a : Aci)
    → Keeps a.sp ((active_channel interval channels_age v a).sp)
unfolding active_channel update_channel sbset_aci_state
active_channel-Keeps interval channels_age v a = elim (Bool-cases (channel_available v.check_rc)) [
  | inr down ↦ rw down refl
  | inl up ↦ elim (Bool-cases (is_due interval channels_age v.status_age)) [
    | inr early ↦ rw (up, early) refl
    | inl due ↦ rw (up, due) refl
  ]
]

by_mark-Keeps :
    (mark : Option Bool) (on off : Aci) (sp : RmsStatus) (b : Aci)
    → Keeps sp on.sp
    → Keeps sp off.sp
    → by_mark mark on off ≡ some b
    → Keeps sp b.sp
by_mark-Keeps none on off sp b h k e = cc
by_mark-Keeps (some true) on off sp b h k e = let same : on ≡ b = cc in rw same at h
by_mark-Keeps (some false) on off sp b h k e = let same : off ≡ b = cc in rw same at k

at_channel-Keeps :
    (interval channels_age : ℤ) (v : Visit) (a b : Aci)
    → at_channel interval channels_age v a ≡ some b
    → Keeps a.sp b.sp
unfolding at_channel
at_channel-Keeps interval channels_age v a b e =
    let s = a.chanstats in
    let here : Aci = record a { chanstats = record s { read = s.read + 1 } } in
    by_mark-Keeps (is_marked a.chnl.ch_active) (active_channel interval channels_age v here) here
      a.sp b (active_channel-Keeps interval channels_age v here) refl e

-- Every end of a run of the loop keeps the table.
abbrev AllKeep : RmsStatus → Finish → Type 0
AllKeep sp f = (b : Aci) → f ≡ finished b → Keeps sp b.sp

go_on-AllKeep :
    (sp : RmsStatus) (x : Option Aci) (next : Aci → Finish)
    → ((b : Aci) → x ≡ some b → AllKeep sp (next b))
    → AllKeep sp (go_on x next)
go_on-AllKeep sp none next h b e = cc
go_on-AllKeep sp (some a) next h b e = h a refl b e

visit_entry-AllKeep :
    (interval channels_age : ℤ) (next : List Visit → ChanState → Aci → Finish) (visits : List Visit)
    (st : ChanState) (a : Aci)
    → ((later : List Visit) (st' : ChanState) (b : Aci) → AllKeep b.sp (next later st' b))
    → AllKeep a.sp (visit_entry interval channels_age next visits st a)
visit_entry-AllKeep interval channels_age next [] st a h = λ b e. cc
visit_entry-AllKeep interval channels_age next (v ∷ later) st a h =
    go_on-AllKeep a.sp _ _ (λ c e d f.
      h later _ c d f
      ∙ at_channel-Keeps interval channels_age v (record a { chnl = st.curent }) c e)

with_entry-AllKeep :
    (visit : ChanState → Finish) (a : Aci) (g : Got)
    → ((st : ChanState) → AllKeep a.sp (visit st))
    → AllKeep a.sp (with_entry visit a g)
with_entry-AllKeep visit a crashed h = λ b e. cc
with_entry-AllKeep visit a (no_more st) h = λ b e. let same : a ≡ b = cc in rw same refl
with_entry-AllKeep visit a (got st) h = h st

aci_loop-AllKeep :
    (interval channels_age : ℤ) (fuel : ℕ) (parsed : Option Doc) (visits : List Visit)
    (st : ChanState) (a : Aci)
    → AllKeep a.sp (aci_loop interval channels_age fuel parsed visits st a)
unfolding aci_loop
aci_loop-AllKeep interval channels_age zero parsed visits st a = λ b e. cc
aci_loop-AllKeep interval channels_age (suc fuel) parsed visits st a =
    with_entry-AllKeep _ a (getchanent parsed st) (λ st'.
      visit_entry-AllKeep interval channels_age _ visits st' a
        (λ later st'' b. aci_loop-AllKeep interval channels_age fuel parsed later st'' b))

version_update_lem :
    (versionupd : Option Str) (age : ℤ) (sp : RmsStatus)
    → ((version_update versionupd age sp).0.aci.aci_state ≡ aci_idle)
      × Keeps sp ((version_update versionupd age sp).0)
unfolding version_update sbset_aci_state
version_update_lem versionupd age sp = elim (Bool-cases (leb_ℤ (version_interval versionupd) age)) [
  | inl due ↦ rw due (refl, refl)
  | inr early ↦ rw early (refl, refl)
]

-- The outcome of wl2k_aci, by the end of its loop.
abbrev outcome : Finish → Option (Aci × RmsStatus)
outcome unfinished = none
outcome faulted = none
outcome (finished a) = some (a, report a)

outcome-Keeps :
    (f : Finish) (sp : RmsStatus) (x : Aci × RmsStatus)
    → AllKeep sp f
    → outcome f ≡ some x
    → Keeps sp x.1
outcome-Keeps unfinished sp x h e = cc
outcome-Keeps faulted sp x h e = cc
outcome-Keeps (finished a) sp x h e =
    let same : (a, report a) ≡ x = cc in
    let kept : report a ≡ x.1 = ap (λ y. y.1) same in rw kept at (report-Keeps a ∙ h a refl)

wl2k_aci-Keeps :
    (channelupd : Option Str) (channels_age : ℤ) (fuel : ℕ) (parsed : Option Doc)
    (visits : List Visit) (st : ChanState) (sp : RmsStatus) (x : Aci × RmsStatus)
    → wl2k_aci channelupd channels_age fuel parsed visits st sp ≡ some x
    → Keeps sp x.1
unfolding wl2k_aci
wl2k_aci-Keeps channelupd channels_age fuel parsed visits st sp x e =
    let begun : Aci = record { chnl = st.curent; chanstats = no_stats; sp = sp; touched = [] } in
    let f = aci_loop (channel_interval channelupd) channels_age fuel parsed visits st begun in
    outcome-Keeps f sp x
      (aci_loop-AllKeep (channel_interval channelupd) channels_age fuel parsed visits st begun) e

then_version : Option Str → ℤ → Option (Aci × RmsStatus) → Option (RmsStatus × Bool)
then_version versionupd age none = none
then_version versionupd age (some (a, q)) = some (version_update versionupd age q)

then_version_lem :
    (versionupd : Option Str) (age : ℤ) (x : Option (Aci × RmsStatus)) (sp : RmsStatus)
    (y : RmsStatus × Bool)
    → ((z : Aci × RmsStatus) → x ≡ some z → Keeps sp z.1)
    → then_version versionupd age x ≡ some y
    → (y.0.aci.aci_state ≡ aci_idle) × Keeps sp y.0
unfolding then_version
then_version_lem versionupd age none sp y h e = cc
then_version_lem versionupd age (some (a, q)) sp y h e =
    let same : version_update versionupd age q ≡ y = cc in
    let (idle, kept) = version_update_lem versionupd age q in
    let both : ((version_update versionupd age q).0.aci.aci_state ≡ aci_idle)
        × Keeps sp ((version_update versionupd age q).0) =
      (idle, kept ∙ h (a, q) refl) in
    rw same at both

-- A run of the ACI that comes to its end leaves the state of the ACI idle and the gateways' table of
-- the status block as it was.
pub aci_main_lem :
    (pid : ℤ) (channelupd versionupd : Option Str) (channels_age version_age : ℤ) (fuel : ℕ)
    (parsed : Option Doc) (visits : List Visit) (st : ChanState) (sp : RmsStatus)
    {y : RmsStatus × Bool}
    → aci_main pid channelupd versionupd channels_age version_age fuel parsed visits st sp ≡ some y
    → (y.0.aci.aci_state ≡ aci_idle) × (y.0.rmsgw ≡ sp.rmsgw)
unfolding aci_main then_version sbset_aci_pid sbset_aci_state
aci_main_lem pid channelupd versionupd channels_age version_age fuel parsed visits st sp {y} e =
    let begun = sbset_aci_state (sbset_aci_pid sp pid) aci_running in
    then_version_lem versionupd version_age
      (wl2k_aci channelupd channels_age fuel parsed visits st begun) sp y
      (λ z k. wl2k_aci-Keeps channelupd channels_age fuel parsed visits st begun z k) e
