-- ===== src/Aci/Due.antt =====
-- When a channel is updated again: the update rule of wl2k_aci (rmsgw_aci/wl2k_aci.c) over the status
-- files, which it touches at each update.
use rmsgw.Prelude.{
  ℕ, ◌+◌, ◌≤◌, ◌≡◌, refl, sym, ap, ◌∙◌, ◌≢◌, inl, inr, Bool, true, ◌&&◌, ◌||◌, Option, none, some,
  ◌∷◌, ◌++◌, arith, ltb, leb, if◌then◌else◌, Bool-cases, Option-cases, length, length-append, Str,
  codes, streq, streq_iff, ℤ, pos, ltb_ℤ, leb_ℤ,
}
use rmsgw.Channel.File.{servicecode, Channel, store}
use rmsgw.Aci.Client.{
  Visit, Aci, is_due, active_channel, channel_available, update_channel, default_service,
}
use rmsgw.Files.{Fs, Allowed, age_at, mtime_of, fileage, setstatfile}
use rmsgw.Files.Times.{setstatfile-fileage}

-- sprintf(statfile, "%s/.channels.%s", CMSSTATDIR, chnl->ch_name), when there is a name and it fits.
unfoldable pub channel_statfile : Str → Str → Str
channel_statfile dir name = dir ++ (codes "/.channels." ++ name)

length-channel_statfile : (dir name : Str) → 1 ≤ length (channel_statfile dir name)
unfolding channel_statfile
length-channel_statfile dir name = omega (arith, length-append dir (codes "/.channels." ++ name))

-- The age of the channel file at the start of the run; 0 when none is configured.
unfoldable pub channels_age_of : Option Str → ℕ → Fs → ℤ
unfolding fileage
channels_age_of none start fs = pos 0
channels_age_of (some file) start fs = fileage start fs file

-- Whether the update of a channel is due at a time of a run.
unfoldable pub due_at : Str → ℤ → Option Str → ℕ → ℕ → Str → Fs → Bool
due_at dir interval channelfile start now name fs =
    is_due interval (channels_age_of channelfile start fs)
      (fileage now fs (channel_statfile dir name))

-- The work at an active channel, with the touch of its status file.
unfoldable pub channel_round :
    Str → Allowed → ℤ → Option Str → ℕ → ℕ → ℤ → ℤ → Str → Aci → Fs → Aci × Fs
channel_round dir ok interval channelfile start now check_rc update_rc name a fs =
    let v : Visit = record {
      check_rc = check_rc;
      status_age = fileage now fs (channel_statfile dir name);
      update_rc = update_rc;
    } in
    (
      active_channel interval (channels_age_of channelfile start fs) v a,
      if channel_available check_rc && due_at dir interval channelfile start now name fs
          then (setstatfile ok now (channel_statfile dir name) fs).0
          else fs,
    )

-- The ages compare as the times of the clock and of the files do.
age_at-ltb : (start now a b : ℕ) → ltb_ℤ (age_at start a) (age_at now b) ≡ ltb (start + b) (now + a)
unfolding age_at
age_at-ltb start now a b = elim (Bool-cases (leb a start)) [
  | inl e ↦ elim (Bool-cases (leb b now)) [
    | inl k ↦ rw (e, k) (ground arith)
    | inr k ↦ rw (e, k) (ground arith)
  ]
  | inr e ↦ elim (Bool-cases (leb b now)) [
    | inl k ↦ rw (e, k) (ground arith)
    | inr k ↦ rw (e, k) (ground arith)
  ]
]

-- Without a channel file every later time is newer than the update; with one, the time since the
-- update is compared with the file's age at the start of the run.
abbrev pub newer : Option Str → ℕ → ℕ → ℕ → Fs → Bool
newer none updated start now fs = ltb updated now
newer (some file) updated start now fs = ltb (start + updated) (now + mtime_of (fs file))

channels_age_of-newer :
    (channelfile : Option Str) (updated start now : ℕ) (fs : Fs)
    → ltb_ℤ (channels_age_of channelfile start fs) (age_at now updated)
      ≡ newer channelfile updated start now fs
unfolding channels_age_of fileage age_at
channels_age_of-newer none updated start now fs = elim (Bool-cases (leb updated now)) [
  | inl k ↦ rw k (ground arith)
  | inr k ↦ rw k (ground arith)
]
channels_age_of-newer (some file) updated start now fs =
    age_at-ltb start now (mtime_of (fs file)) updated

name-default_service : (c : Channel) → (default_service c).ch_name ≡ c.ch_name
unfolding default_service store
name-default_service c = elim (Option-cases (c.ch_field servicecode)) [
  | inl e ↦ rw (e, default_service) refl
  | inr (s, e) ↦ elim (Bool-cases (leb (length s) 0)) [
    | inl k ↦ rw (e, default_service, k) refl
    | inr k ↦ rw (e, default_service, k) refl
  ]
]

touched_lem :
    (interval channels_age : ℤ) (v : Visit) (a : Aci)
    → (active_channel interval channels_age v a).touched ≡ (
        if channel_available v.check_rc && is_due interval channels_age v.status_age
        then a.chnl.ch_name ∷ a.touched
        else a.touched)
unfolding active_channel update_channel
touched_lem interval channels_age v a = elim (Bool-cases (channel_available v.check_rc)) [
  | inl up ↦ elim (Bool-cases (is_due interval channels_age v.status_age)) [
    | inl due ↦ rw (up, due) (ap (λ n. n ∷ a.touched) (name-default_service a.chnl))
    | inr early ↦ rw (up, early) refl
  ]
  | inr down ↦ rw down refl
]

module _ (dir : Str) (ok : Allowed) (interval : ℤ) (channelfile : Option Str) (name : Str) where
  newer-setstatfile :
      (updated start now t : ℕ) (fs : Fs)
      → channelfile ≢ some (channel_statfile dir name)
      → ok.opens (channel_statfile dir name) ≡ true
      → ok.sets_times (channel_statfile dir name) ≡ true
      → newer channelfile updated start now ((setstatfile ok t (channel_statfile dir name) fs).0)
        ≡ newer channelfile updated start now fs
  unfolding setstatfile
  newer-setstatfile updated start now t fs apart o s = elim (Option-cases channelfile) [
    | inl e ↦ rw e refl
    | inr (file, e) ↦ elim (Bool-cases (streq (channel_statfile dir name) file)) [
      | inl same ↦
          absurd (apart (e ∙ ap some (sym ((streq_iff (channel_statfile dir name) file).0 same))))
      | inr other ↦ rw (e, o, s, other) refl
    ]
  ]

  due_at-setstatfile :
      (start now updated : ℕ) (fs : Fs)
      → channelfile ≢ some (channel_statfile dir name)
      → ok.opens (channel_statfile dir name) ≡ true
      → ok.sets_times (channel_statfile dir name) ≡ true
      → due_at dir interval channelfile start now name
          ((setstatfile ok updated (channel_statfile dir name) fs).0)
        ≡ (leb_ℤ interval (age_at now updated) || newer channelfile updated start now fs)
  unfolding due_at is_due
  due_at-setstatfile start now updated fs apart o s =
      let path = channel_statfile dir name in
      let fs' = (setstatfile ok updated path fs).0 in
      let path_long : 1 ≤ length path = length-channel_statfile dir name in
      let age : fileage now fs' path ≡ age_at now updated =
        (setstatfile-fileage ok updated now path fs o s path_long).1 in
      rw
        (
          age,
          channels_age_of-newer channelfile updated start now fs',
          newer-setstatfile updated start now updated fs apart o s,
        )
        refl

  -- An update that is made at a time, with a touch of the status file that succeeds: in a later run, an
  -- available channel of that name is updated exactly when the interval has gone by since, or the
  -- channel file is younger at that run's start than the update is at its check, or no channel file is
  -- configured and the clock has gone on. The channel file is not the status file.
  pub channel_round_again :
      (start now start' now' : ℕ) (check_rc update_rc check_rc' update_rc' : ℤ) (a b : Aci)
      (fs : Fs)
      → channel_available check_rc ≡ true
      → due_at dir interval channelfile start now name fs ≡ true
      → ok.opens (channel_statfile dir name) ≡ true
      → ok.sets_times (channel_statfile dir name) ≡ true
      → channelfile ≢ some (channel_statfile dir name)
      → channel_available check_rc' ≡ true
      → let fs' =
          (channel_round dir ok interval channelfile start now check_rc update_rc name a fs).1 in
        (channel_round dir ok interval channelfile start' now' check_rc' update_rc' name b
          fs').0.touched
        ≡ (if leb_ℤ interval (age_at now' now) || newer channelfile now start' now' fs
            then b.chnl.ch_name ∷ b.touched
            else b.touched)
  unfolding channel_round due_at
  channel_round_again start now start' now' check_rc update_rc check_rc' update_rc' a b fs up due o
        s apart up' =
      rw (up, due, touched_lem interval, up')
        (ap (λ d. if d then b.chnl.ch_name ∷ b.touched else b.touched)
          (due_at-setstatfile start' now' now fs apart o s))
