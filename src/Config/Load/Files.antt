-- ===== src/Config/Load/Files.antt =====
-- What lib/loadconfig.c and lib/loadversion.c load from a file of entries.
use rmsgw.Prelude.{
  ℕ, ◌≡◌, refl, inl, inr, true, false, Option, none, some, List, arith, ltb, leb, if◌then◌else◌,
  Bool-cases, Option-cases, length, All, Str, codes,
}
use rmsgw.Config.Mapname.{MapState}
use rmsgw.Config.Mapname.Entries.{
  NamedValue, IsEntry, IsLogical, text_of, value_in, fmapname_lem, are_logical_lem,
}
use rmsgw.Config.Load.{
  Config, config_logicals, load_config, check_config, upcase, default_hookdir, VersionBlk,
  version_logicals, load_version, check_version,
}

abbrev pub loaded_config : Str → List NamedValue → Str → Config
loaded_config hookdir entries call = record {
  gwcall = some (upcase call);
  channelfile = value_in entries (codes "CHANNELFILE");
  gridsquare = value_in entries (codes "GRIDSQUARE");
  bannerfile = value_in entries (codes "BANNERFILE");
  logfacility = value_in entries (codes "LOGFACILITY");
  logmask = value_in entries (codes "LOGMASK");
  python = value_in entries (codes "PYTHON");
  versionupd = value_in entries (codes "VERSIONUPD");
  channelupd = value_in entries (codes "CHANNELUPD");
  rmsgwenv = value_in entries (codes "RMSGWENV");
  rmsgwacienv = value_in entries (codes "RMSGWACIENV");
  hookdir = default_hookdir hookdir (value_in entries (codes "HOOKDIR"));
}

-- What the text of the file says of the result.
abbrev pub config_result : Str → List NamedValue → Option Str → Option Config × ℕ
config_result hookdir entries none = (none, 4)
config_result hookdir entries (some call) =
    if leb (length call) 9 then (some (loaded_config hookdir entries call), 0) else (none, 3)

config_logicals-IsLogical : All IsLogical config_logicals
config_logicals-IsLogical = are_logical_lem config_logicals refl

-- From a configuration file of well-formed entries, and in any earlier state of the mapping of
-- names, `loadConfig` fails with the code for a missing call sign when no entry is named GWCALL,
-- and with the code for an invalid one when the first of them has more than nine characters;
-- otherwise it returns the call sign in upper case, the first value of each other name, and the
-- built-in hook directory when the file names none.
pub load_config_lem :
    (hookdir : Str) (entries : List NamedValue) (st : MapState)
    → All IsEntry entries
    → (load_config hookdir (some (text_of entries)) st).0
      ≡ config_result hookdir entries (value_in entries (codes "GWCALL"))
unfolding load_config check_config
load_config_lem hookdir entries st h =
    rw
      (fmapname_lem entries (record st { fail_on_not_found = false }) config_logicals h
        config_logicals-IsLogical refl)
      (elim (Option-cases (value_in entries (codes "GWCALL"))) [
        | inl missing ↦ rw missing refl
        | inr (call, found) ↦ rw found (elim (Bool-cases (ltb 9 (length call))) [
          | inl long ↦
              let refused : leb (length call) 9 ≡ false = ground arith in rw (long, refused) refl
          | inr short ↦
              let taken : leb (length call) 9 ≡ true = ground arith in rw (short, taken) refl
        ])
      ])

-- The three values that a version file must have.
abbrev pub version_result :
    List NamedValue → Option Str → Option Str → Option Str → Option VersionBlk × ℕ
version_result entries none program label = (none, 3)
version_result entries (some p) none label = (none, 4)
version_result entries (some p) (some g) none = (none, 5)
version_result entries (some p) (some g) (some l) = (
  some (record {
    package_name = some p;
    program = some g;
    label = some l;
    revision = value_in entries (codes "REVISION");
    date = value_in entries (codes "DATE");
    author = value_in entries (codes "AUTHOR");
    id = value_in entries (codes "ID");
  }),
  0,
)

version_logicals-IsLogical : All IsLogical version_logicals
version_logicals-IsLogical = are_logical_lem version_logicals refl

-- From a version file of well-formed entries, `loadVersion` fails with the code of the first of
-- PACKAGE, PROGRAM and LABEL that is missing, and otherwise returns the first value of each name,
-- with NULL for each of the other four that is missing.
pub load_version_lem :
    (entries : List NamedValue) (st : MapState)
    → All IsEntry entries
    → (load_version (some (text_of entries)) st).0
      ≡ version_result entries
          (value_in entries (codes "PACKAGE"))
          (value_in entries (codes "PROGRAM"))
          (value_in entries (codes "LABEL"))
unfolding load_version check_version
load_version_lem entries st h =
    rw
      (fmapname_lem entries (record st { fail_on_not_found = false }) version_logicals h
        version_logicals-IsLogical refl)
      (elim (Option-cases (value_in entries (codes "PACKAGE"))) [
        | inl e ↦ rw e refl
        | inr (p, e) ↦ elim (Option-cases (value_in entries (codes "PROGRAM"))) [
          | inl e' ↦ rw (e, e') refl
          | inr (g, e') ↦ elim (Option-cases (value_in entries (codes "LABEL"))) [
            | inl e'' ↦ rw (e, e', e'') refl
            | inr (l, e'') ↦ rw (e, e', e'') refl
          ]
        ]
      ])
