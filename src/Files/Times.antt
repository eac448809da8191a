-- ===== src/Files/Times.antt =====
-- The ages of files that setstatfile (lib/statfile.c) touches, as fileage (lib/fileage.c) gives them.
use rmsgw.Prelude.{
  ℕ, ◌≤◌, ◌≡◌, refl, ◌≢◌, inl, inr, true, false, ◌&&◌, some, arith, Bool-cases, length, Str, streq,
  streq_iff, streq_refl, pos, negsuc,
}
use rmsgw.Files.{
  Found, no_entry, denied, inode, Fs, put_found, Allowed, age_at, fileage, file_exists, created,
  setstatfile,
}

-- A file that was touched at a time has the age since then, exists, and the age of every other file
-- stays; when one of the two calls fails, -1 is returned and no file of a time keeps another.
pub setstatfile-fileage :
    (ok : Allowed) (now later : ℕ) (path : Str) (fs : Fs)
    → ok.opens path ≡ true
    → ok.sets_times path ≡ true
    → 1 ≤ length path
    → ((setstatfile ok now path fs).1 ≡ pos 0)
      × (fileage later ((setstatfile ok now path fs).0) path ≡ age_at later now)
      × (file_exists ((setstatfile ok now path fs).0) (some path) ≡ true)
      × ((other : Str)
          → streq path other ≡ false
          → fileage later ((setstatfile ok now path fs).0) other ≡ fileage later fs other)
unfolding setstatfile fileage file_exists
setstatfile-fileage ok now later path fs o t n =
    rw (o, t)
      (
        refl,
        rw (streq_refl path) refl,
        rw (streq_refl path) (ground arith),
        λ other apart. rw apart refl,
      )

created_lem : (now : ℕ) (f : Found) → f ≢ no_entry → created now f ≡ f
created_lem now no_entry h = absurd (h refl)
created_lem now denied h = refl
created_lem now (inode atime mtime) h = refl

put_found-created :
    (now : ℕ) (path : Str) (fs : Fs) (other : Str)
    → fs other ≢ no_entry
    → put_found path (created now (fs path)) fs other ≡ fs other
put_found-created now path fs other there = elim (Bool-cases (streq path other)) [
  | inl e ↦ rw (e, (streq_iff path other).0 e) (created_lem now (fs other) there)
  | inr e ↦ rw e refl
]

-- When a call fails, setstatfile returns -1 and leaves the times of every file that there was.
pub setstatfile_failed :
    (ok : Allowed) (now : ℕ) (path : Str) (fs : Fs)
    → (ok.opens path && ok.sets_times path) ≡ false
    → ((setstatfile ok now path fs).1 ≡ negsuc 0)
      × ((other : Str) → fs other ≢ no_entry → (setstatfile ok now path fs).0 other ≡ fs other)
unfolding setstatfile
setstatfile_failed ok now path fs h = elim (Bool-cases (ok.opens path)) [
  | inl e ↦
      let late : ok.sets_times path ≡ false = rw e at h in
      rw (e, late) (refl, λ other there. put_found-created now path fs other there)
  | inr e ↦ rw e (refl, λ other there. refl)
]
