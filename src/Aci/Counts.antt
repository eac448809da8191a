-- ===== src/Aci/Counts.antt =====
-- The statistics of wl2k_aci (rmsgw_aci/wl2k_aci.c), and when its updates are made.
use rmsgw.Prelude.{
  ℕ, zero, suc, ◌+◌, ◌/◌, ◌%◌, ◌≤◌, ◌<◌, ◌≡◌, refl, ◌⊎◌, inl, inr, Bool, true, false, ◌&&◌, Option,
  none, some, List, [], ◌∷◌, arith, Bool-cases, length, ℤ, pos, negsuc, is_zero,
}
use rmsgw.Channel.File.{Channel, Node, Doc, ChanState, following}
use rmsgw.Channel.Walk.{IsOpen, getchanent-Forward}
use rmsgw.Status.Block.{RmsStatus}
use rmsgw.Aci.Client.{
  wexitstatus, channel_available, run_python_script, send_channel, send_version, Visit, Aci, is_due,
  update_channel, active_channel, is_marked, by_mark, at_channel, aci_loop, Finish, finished,
  faulted, visit_entry, no_stats,
}

-- Each channel that was read is counted once as active at most, each active one at most once as down,
-- updated or failed; and a status file is touched for each update that was tried.
pub record IsCounted (a : Aci) : Type 0 where
  pub active_read : a.chanstats.active ≤ a.chanstats.read
  pub ways_active : a.chanstats.down + a.chanstats.updated + a.chanstats.errors ≤ a.chanstats.active
  pub touched_tried : length a.touched ≡ a.chanstats.updated + a.chanstats.errors

-- What a visit adds to the numbers of updates and errors.
abbrev pub is_updated : ℤ → ℤ → Visit → Bool
is_updated interval channels_age v =
    channel_available v.check_rc
    && (is_due interval channels_age v.status_age && is_zero (send_channel v.update_rc))

active_channel-IsCounted :
    (interval channels_age : ℤ) (v : Visit) (a : Aci)
    → a.chanstats.active + 1 ≤ a.chanstats.read
    → a.chanstats.down + a.chanstats.updated + a.chanstats.errors ≤ a.chanstats.active
    → length a.touched ≡ a.chanstats.updated + a.chanstats.errors
    → IsCounted (active_channel interval channels_age v a)
unfolding active_channel update_channel
active_channel-IsCounted interval channels_age v a r w t =
    elim (Bool-cases (channel_available v.check_rc)) [
      | inr down ↦ rw down (record {
        active_read = omega arith;
        ways_active = omega arith;
        touched_tried = omega arith;
      })
      | inl up ↦ elim (Bool-cases (is_due interval channels_age v.status_age)) [
        | inr early ↦
            rw (up, early)
              (record {
                active_read = omega arith;
                ways_active = omega arith;
                touched_tried = omega arith;
              })
        | inl due ↦ elim (Bool-cases (is_zero (send_channel v.update_rc))) [
          | inl ok ↦
              rw (up, due, ok)
                (record {
                  active_read = omega arith;
                  ways_active = omega arith;
                  touched_tried = omega arith;
                })
          | inr bad ↦
              rw (up, due, bad)
                (record {
                  active_read = omega arith;
                  ways_active = omega arith;
                  touched_tried = omega arith;
                })
        ]
      ]
    ]

by_mark-IsCounted :
    (mark : Option Bool) (on off : Aci)
    → IsCounted on
    → IsCounted off
    → (by_mark mark on off ≡ none) ⊎ ((b : Aci) × (by_mark mark on off ≡ some b) × IsCounted b)
by_mark-IsCounted none on off h k = inl refl
by_mark-IsCounted (some true) on off h k = inr (on, refl, h)
by_mark-IsCounted (some false) on off h k = inr (off, refl, k)

at_channel-IsCounted :
    (interval channels_age : ℤ) (v : Visit) (a : Aci)
    → IsCounted a
    → (at_channel interval channels_age v a ≡ none)
      ⊎ ((b : Aci) × (at_channel interval channels_age v a ≡ some b) × IsCounted b)
unfolding at_channel
at_channel-IsCounted interval channels_age v a h =
    let s = a.chanstats in
    let here : Aci = record a { chanstats = record s { read = s.read + 1 } } in
    by_mark-IsCounted (is_marked a.chnl.ch_active) (active_channel interval channels_age v here)
      here
      (active_channel-IsCounted interval channels_age v here (omega (arith, h.active_read))
        h.ways_active h.touched_tried)
      (record {
        active_read = omega (arith, h.active_read);
        ways_active = h.ways_active;
        touched_tried = h.touched_tried;
      })

-- A fault, or an end with statistics that fit.
abbrev pub Counted : Finish → Type 0
Counted f = (f ≡ faulted) ⊎ ((a : Aci) × (f ≡ finished a) × IsCounted a)

-- A visit, when the rest of the loop does as it should behind the entry.
visit_entry-Counted :
    (interval channels_age : ℤ) (next : List Visit → ChanState → Aci → Finish) (visits : List Visit)
    (st : ChanState) (a : Aci)
    → ((later : List Visit) (c : Channel) (b : Aci)
        → suc (length later) ≡ length visits
        → IsCounted b
        → Counted (next later (record st { curent = c }) b))
    → 1 ≤ length visits
    → IsCounted a
    → Counted (visit_entry interval channels_age next visits st a)
visit_entry-Counted interval channels_age next [] st a ih v h = absurd (omega arith)
visit_entry-Counted interval channels_age next (x ∷ later) st a ih v h =
    let here : Aci = record a { chnl = st.curent } in
    let counted : IsCounted here = record {
      active_read = h.active_read;
      ways_active = h.ways_active;
      touched_tried = h.touched_tried;
    } in
    elim (at_channel-IsCounted interval channels_age x here counted) [
      | inl bad ↦ rw bad (inl refl)
      | inr (b, good, k) ↦ rw good (ih later b.chnl b refl k)
    ]

aci_loop-Counted :
    (interval channels_age : ℤ) (fuel : ℕ) (parsed : Option Doc) (visits : List Visit)
    (st : ChanState) (a : Aci) (root : List Node)
    → IsOpen root st
    → length (following root st.cur_node) < fuel
    → length (following root st.cur_node) ≤ length visits
    → IsCounted a
    → Counted (aci_loop interval channels_age fuel parsed visits st a)
unfolding aci_loop
aci_loop-Counted interval channels_age zero parsed visits st a root o b v h = absurd (omega arith)
aci_loop-Counted interval channels_age (suc fuel) parsed visits st a root o b v h =
    elim (getchanent-Forward root parsed st o) [
      | inl bad ↦ rw bad (inl refl)
      | inr (inl (st', last)) ↦ rw last (inr (a, refl, h))
      | inr (inr (st', found, o', less)) ↦ rw found (
          visit_entry-Counted interval channels_age (aci_loop interval channels_age fuel parsed)
            visits st' a
            (λ later c x count k.
              aci_loop-Counted interval channels_age fuel parsed later (record st' { curent = c }) x
                root o' (omega arith) (omega arith) k)
            (omega arith) h)
    ]

no_stats-IsCounted :
    (c : Channel) (sp : RmsStatus)
    → IsCounted (record { chnl = c; chanstats = no_stats; sp = sp; touched = [] })
no_stats-IsCounted c sp = record {
  active_read = omega arith;
  ways_active = omega arith;
  touched_tried = refl;
}

-- With more fuel than there are nodes in the channel file, no fewer visits than nodes and the document
-- not yet read to its end, the loop of the ACI over the channels comes to its end: by a fault, or
-- with statistics that fit: no more active channels than channels read, each active one counted at
-- most once as down, updated or failed, and as many status files touched as updates tried.
pub aci_loop_lem :
    (interval channels_age : ℤ) (fuel : ℕ) (visits : List Visit) (root : List Node)
    (curent : Channel) (sp : RmsStatus)
    → length root < fuel
    → length root ≤ length visits
    → Counted (
        aci_loop interval channels_age fuel none visits
          (record { doc = some root; cur_node = []; curent = curent })
          (record { chnl = curent; chanstats = no_stats; sp = sp; touched = [] }))
aci_loop_lem interval channels_age fuel visits root curent sp b v =
    aci_loop-Counted interval channels_age fuel none visits
      (record { doc = some root; cur_node = []; curent = curent })
      (record { chnl = curent; chanstats = no_stats; sp = sp; touched = [] }) root refl b v
      (no_stats-IsCounted curent sp)

-- A script that ends by a signal below 128 counts as one that succeeded: the channel is available, and
-- the updates are done; when `system` fails they are not.
pub signalled :
    (rc : ℕ)
    → rc < 256
    → (channel_available (pos rc) ≡ true)
      × (send_channel (pos rc) ≡ pos 0)
      × (send_version (pos rc) ≡ pos 0)
      × (channel_available (negsuc 0) ≡ false)
      × (send_channel (negsuc 0) ≡ negsuc 0)
unfolding channel_available send_channel send_version run_python_script wexitstatus
signalled rc h =
    let low : rc / 256 % 256 ≡ 0 = omega arith in
    (rw low refl, rw low refl, rw low refl, refl, refl)
