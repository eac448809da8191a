-- ===== src/Config/Load.antt =====
-- lib/loadconfig.c, lib/loadversion.c and lib/upcase.c. The build's HOOKDIR is an argument, and the
-- state of the mapping of names is the one that `loadConfig` and `loadVersion` leave to the next.
pub mod Files
use rmsgw.Prelude.{
  ℕ, zero, suc, ◌+◌, ◌-◌, ◌*◌, ◌/◌, ◌%◌, ◌^◌, ◌≤◌, ◌<◌, min, ◌≡◌, refl, sym, ap, ◌∙◌, ◌≢◌, ◌↔◌, ◌⊎◌,
  inl, inr, Bool, true, false, not, ◌&&◌, ◌||◌, Option, none, some, List, [], ◌∷◌, ◌++◌, append-nil,
  append_assoc, arith, ltb, leb, ◌==◌, if◌then◌else◌, ==_iff, Bool-cases, Option-cases, length,
  get_elem?, get_or, set, modify, take, drop, replicate, All, length-append, length-take,
  length-replicate, length-set, length-modify, All-append, All-imp, Str, codes, streq, streq_iff,
  streq_refl, strneq, within, isspace, isdigit, isalnum, toupper, tolower, overlay, c_str, IsCStr,
  ℤ, pos, negsuc, pos_part, neg_part, ltb_ℤ, leb_ℤ, is_pos, is_neg, is_zero, to_size, decimal,
  decimal_digits, digits_value, atoi, skip_spaces, atoi-decimal, fgets_lines, lines_from,
  fgets_lines-append, Lacks,
}
use rmsgw.Config.Mapname.{MapState, Mapped, mapctl, fmapname, find_entry, map_loop, fgetline}

-- upcase
unfoldable pub upcase : Str → Str
unfolding toupper
upcase [] = []
upcase (c ∷ s) = toupper c ∷ upcase s

-- The strings that the program reads from its configuration file. The field `authfile`, which no
-- code uses, is left out.
pub record Config : Type 0 where
  pub gwcall : Option Str
  pub channelfile : Option Str
  pub gridsquare : Option Str
  pub bannerfile : Option Str
  pub logfacility : Option Str
  pub logmask : Option Str
  pub python : Option Str
  pub versionupd : Option Str
  pub channelupd : Option Str
  pub rmsgwenv : Option Str
  pub rmsgwacienv : Option Str
  pub hookdir : Option Str

abbrev pub config_logicals : List Str
config_logicals =
    codes "GWCALL"
    ∷ codes "CHANNELFILE"
    ∷ codes "GRIDSQUARE"
    ∷ codes "BANNERFILE"
    ∷ codes "LOGFACILITY"
    ∷ codes "LOGMASK"
    ∷ codes "PYTHON"
    ∷ codes "VERSIONUPD"
    ∷ codes "CHANNELUPD"
    ∷ codes "RMSGWENV"
    ∷ codes "RMSGWACIENV"
    ∷ codes "HOOKDIR"
    ∷ []

-- `physicals`: the variables that the values of the names are stored in, which were set to NULL.
abbrev pub config_of : List (Option Str) → Config
config_of values = record {
  gwcall = get_or values 0 none;
  channelfile = get_or values 1 none;
  gridsquare = get_or values 2 none;
  bannerfile = get_or values 3 none;
  logfacility = get_or values 4 none;
  logmask = get_or values 5 none;
  python = get_or values 6 none;
  versionupd = get_or values 7 none;
  channelupd = get_or values 8 none;
  rmsgwenv = get_or values 9 none;
  rmsgwacienv = get_or values 10 none;
  hookdir = get_or values 11 none;
}

abbrev pub default_hookdir : Str → Option Str → Option Str
default_hookdir hookdir none = some hookdir
default_hookdir hookdir (some d) = some d

-- The checks and defaults of `loadConfig`: the configuration, or the error code.
unfoldable pub check_config : Str → Config → Option Config × ℕ
unfolding upcase
check_config hookdir conf = elim conf.gwcall [
  | none ↦ (none, 4)
  | some call ↦ if ltb 9 (length call) then (none, 3) else (
    some (record conf {
      gwcall = some (upcase call);
      hookdir = default_hookdir hookdir conf.hookdir;
    }),
    0,
  )
]

-- loadConfig: the configuration, the code, and the state of the mapping.
unfoldable pub load_config : Str → Option Str → MapState → (Option Config × ℕ) × MapState
unfolding check_config mapctl fmapname
load_config hookdir cfgfile st =
    let (st1, ok) = mapctl st 2 in
    let m = fmapname cfgfile st1 config_logicals in
    if is_neg ok
    then ((none, 1), st1)
    else if is_neg m.rc
    then ((none, 1), m.st)
    else (check_config hookdir (config_of m.physical), m.st)

pub record VersionBlk : Type 0 where
  pub package_name : Option Str
  pub program : Option Str
  pub label : Option Str
  pub revision : Option Str
  pub date : Option Str
  pub author : Option Str
  pub id : Option Str

abbrev pub version_logicals : List Str
version_logicals =
    codes "PACKAGE"
    ∷ codes "PROGRAM"
    ∷ codes "LABEL"
    ∷ codes "REVISION"
    ∷ codes "DATE"
    ∷ codes "AUTHOR"
    ∷ codes "ID"
    ∷ []

abbrev pub version_of : List (Option Str) → VersionBlk
version_of values = record {
  package_name = get_or values 0 none;
  program = get_or values 1 none;
  label = get_or values 2 none;
  revision = get_or values 3 none;
  date = get_or values 4 none;
  author = get_or values 5 none;
  id = get_or values 6 none;
}

abbrev is_null : Option Str → Bool
is_null none = true
is_null (some v) = false

unfoldable pub check_version : VersionBlk → Option VersionBlk × ℕ
check_version version =
    if is_null version.package_name
    then (none, 3)
    else if is_null version.program
    then (none, 4)
    else if is_null version.label
    then (none, 5)
    else (some version, 0)

unfoldable pub load_version : Option Str → MapState → (Option VersionBlk × ℕ) × MapState
unfolding check_version mapctl fmapname
load_version verfile st =
    let (st1, ok) = mapctl st 2 in
    let m = fmapname verfile st1 version_logicals in
    if is_neg ok
    then ((none, 1), st1)
    else if is_neg m.rc
    then ((none, 1), m.st)
    else (check_version (version_of m.physical), m.st)
