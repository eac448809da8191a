-- ===== src/Files.antt =====
-- The files that the program only looks at or touches: lib/fileage.c, lib/file_exists.c,
-- lib/statfile.c, lib/setcmsstat.c and lib/printfile.c, and the `stat` of lib/getcmslist.c. Of a file
-- system only the times of its files are kept. Whether `open` and `utime` succeed is an argument.
use rmsgw.Prelude.{
  ℕ, zero, suc, ◌+◌, ◌-◌, ◌*◌, ◌/◌, ◌%◌, ◌^◌, ◌≤◌, ◌<◌, min, ◌≡◌, refl, sym, ap, ◌∙◌, ◌≢◌, ◌↔◌, ◌⊎◌,
  inl, inr, Bool, true, false, not, ◌&&◌, ◌||◌, Option, none, some, List, [], ◌∷◌, ◌++◌, append-nil,
  append_assoc, arith, ltb, leb, ◌==◌, if◌then◌else◌, ==_iff, Bool-cases, Option-cases, length,
  get_elem?, get_or, set, modify, take, drop, replicate, All, length-append, length-take,
  length-replicate, length-set, length-modify, All-append, All-imp, Str, codes, streq, streq_iff,
  streq_refl, strneq, within, isspace, isdigit, isalnum, toupper, tolower, overlay, c_str, IsCStr,
  lacks, lacks_lem, is_c_str, is_c_str_lem, ℤ, pos, negsuc, pos_part, neg_part, ltb_ℤ, leb_ℤ,
  is_pos, is_neg, is_zero, to_size, decimal, decimal_digits, digits_value, atoi, skip_spaces,
  atoi-decimal, fgets_lines, lines_from, fgets_lines-append, Lacks,
}
use rmsgw.Cms.Hosts.{Stat, accessed, missing, unreadable}
pub mod Hook
pub mod Times
pub mod Redirect
pub mod Tries

-- What `stat` finds: ENOENT, another error, or a file with its access and modification times.
pub data Found : Type 0 where
  no_entry : Found
  denied : Found
  inode : ℕ → ℕ → Found

abbrev pub Fs : Type 0
Fs = Str → Found

abbrev pub put_found : Str → Found → Fs → Fs
put_found path f fs other = if streq path other then f else fs other

-- Whether `open` and `utime` succeed at a path.
pub record Allowed : Type 0 where
  pub opens : Str → Bool
  pub sets_times : Str → Bool

-- `now - mtime`, of the type time_t.
unfoldable pub age_at : ℕ → ℕ → ℤ
age_at now mtime = if leb mtime now then pos (now - mtime) else negsuc (mtime - now - 1)

abbrev pub mtime_of : Found → ℕ
mtime_of no_entry = 0
mtime_of denied = 0
mtime_of (inode atime mtime) = mtime

unfoldable pub fileage : ℕ → Fs → Str → ℤ
unfolding age_at
fileage now fs path = age_at now (mtime_of (fs path))

abbrev pub is_inode : Found → Bool
is_inode no_entry = false
is_inode denied = false
is_inode (inode atime mtime) = true

-- `none` is NULL.
unfoldable pub file_exists : Fs → Option Str → Bool
file_exists fs none = false
file_exists fs (some path) = ltb 0 (length path) && is_inode (fs path)

-- `open` with O_CREAT at a time.
abbrev pub created : ℕ → Found → Found
created now no_entry = inode now now
created now denied = denied
created now (inode atime mtime) = inode atime mtime

-- The file system after the call, and its result.
unfoldable pub setstatfile : Allowed → ℕ → Str → Fs → Fs × ℤ
setstatfile ok now path fs =
    if ok.opens path
    then if ok.sets_times path
      then (put_found path (inode now now) fs, pos 0)
      else (put_found path (created now (fs path)) fs, negsuc 0)
    else (fs, negsuc 0)

abbrev pub path_max : ℕ
path_max = 4096

-- snprintf(statfile, sizeof(statfile), "%s/%s", CMSSTATDIR, cms_host)
unfoldable pub cms_statfile : Str → Str → Str
cms_statfile dir host = take (path_max - 1) (dir ++ (b'/' ∷ host))

unfoldable pub setcmsstat : Str → Allowed → ℕ → Str → Fs → Fs × ℤ
unfolding setstatfile cms_statfile
setcmsstat dir ok now host fs = setstatfile ok now (cms_statfile dir host) fs

-- `stat` of the status file of a host in `getcmslist`.
abbrev pub found_stat : Found → Stat
found_stat no_entry = missing
found_stat denied = unreadable
found_stat (inode atime mtime) = accessed atime

unfoldable pub host_stat : Str → Fs → Str → Stat
unfolding cms_statfile
host_stat dir fs host = found_stat (fs (cms_statfile dir host))

-- What is printed, and the result. The bytes of the file are an argument, `none` where `fopen` fails.
unfoldable pub printfile : (Str → Option Str) → Option Str → Str × ℤ
printfile contents none = ([], negsuc 0)
printfile contents (some file) =
    if leb (length file) 0
    then ([], negsuc 0)
    else elim (contents file) [ none ↦ ([], negsuc 0) | some text ↦ (text, pos 0) ]
