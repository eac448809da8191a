-- ===== src/Config/Messages.antt =====
-- maperrmsg of lib/mapname.c: the texts of the errors of a mapping.
use rmsgw.Prelude.{
  ℕ, ◌≡◌, refl, ◌≢◌, false, Option, none, some, List, [], ◌∷◌, arith, ltb, ◌==◌, if◌then◌else◌,
  get_elem?, Str, codes, ℤ, pos, negsuc,
}
use rmsgw.Config.Mapname.{MapState, mapctl}

abbrev pub map_err_msgs : List Str
map_err_msgs =
    codes "no map error"
    ∷ codes "no MAPDB in environment"
    ∷ codes "cannot read map file"
    ∷ codes "storage allocator failure during mapping"
    ∷ codes "logical not found in mapfile"
    ∷ codes "illegal mapctl command"
    ∷ []

-- `err > nmap_err`, with `none` for an access before the table.
unfoldable pub maperrmsg : ℤ → Option Str
maperrmsg (negsuc n) = none
maperrmsg (pos n) =
    if ltb 5 n then some (codes "unknown map error code") else get_elem? map_err_msgs n

-- The text for a command that `mapctl` does not know is the one for a name that is not found.
pub maperrmsg-mapctl :
    (st : MapState) (cmd : ℕ)
    → cmd ≢ 1
    → cmd ≢ 2
    → (maperrmsg (pos (mapctl st cmd).0.map_errno) ≡ some (codes "logical not found in mapfile"))
      × ((mapctl st cmd).1 ≡ negsuc 0)
unfolding maperrmsg mapctl
maperrmsg-mapctl st cmd a b =
    let one : (cmd == 1) ≡ false = ground arith in
    let two : (cmd == 2) ≡ false = ground arith in rw (one, two) (refl, refl)
