-- ===== src/Tests/Files.antt =====
-- The configuration and version files on concrete inputs.
use rmsgw.Prelude.{
  ◌≡◌, refl, false, none, some, List, [], ◌∷◌, arith, All, codes, streq, lacks_lem, is_c_str_lem,
}
use rmsgw.Text.CharSet.{mkset, issetmem}
use rmsgw.Config.Mapname.{MapState}
use rmsgw.Config.Mapname.Entries.{NamedValue, IsEntry, text_of}
use rmsgw.Config.Load.{load_config}
use rmsgw.Config.Load.Files.{config_result, load_config_lem}

abbrev gateway_file : List NamedValue
gateway_file = (codes "GWCALL", codes "w1aw") ∷ (codes "LABEL", codes "x") ∷ []

abbrev map_state : MapState
map_state = record { map_errno = 0; map_logical = none; fail_on_not_found = false }

gateway_entries : All IsEntry gateway_file
unfolding mkset issetmem
gateway_entries = (
  (
    lacks_lem b'=' (codes "GWCALL") refl,
    lacks_lem b'\n' (codes "GWCALL=w1aw") refl,
    is_c_str_lem (codes "GWCALL=w1aw") refl,
    (λ c e. let k : c ≡ b'w' = ground arith in rw k refl),
    omega arith,
  ),
  (
    (
      lacks_lem b'=' (codes "LABEL") refl,
      lacks_lem b'\n' (codes "LABEL=x") refl,
      is_c_str_lem (codes "LABEL=x") refl,
      (λ c e. let k : c ≡ b'x' = ground arith in rw k refl),
      omega arith,
    ),
    tt,
  ),
)

load_config_lem_example :
    (load_config (codes "/etc/hooks") (some (text_of gateway_file)) map_state).0
    ≡ config_result (codes "/etc/hooks") gateway_file (some (codes "w1aw"))
unfolding streq
load_config_lem_example =
    load_config_lem (codes "/etc/hooks") gateway_file map_state gateway_entries
