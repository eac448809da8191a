-- ===== src/Config/Mapname.antt =====
-- lib/mapname.c with lib/fgetline.c: the values of a list of names in a map file. The file is given
-- by its text, or by `none` when it cannot be opened; `strdup` succeeds. Each entry overwrites
-- `entrybuf` up to its terminating null, so the buffer holds one string.
pub mod Entries
use rmsgw.Prelude.{
  ℕ, zero, suc, ◌+◌, ◌-◌, ◌*◌, ◌/◌, ◌%◌, ◌^◌, ◌≤◌, ◌<◌, min, ◌≡◌, refl, sym, ap, ◌∙◌, ◌≢◌, ◌↔◌, ◌⊎◌,
  inl, inr, Bool, true, false, not, ◌&&◌, ◌||◌, Option, none, some, List, [], ◌∷◌, ◌++◌, append-nil,
  append_assoc, arith, ltb, leb, ◌==◌, if◌then◌else◌, ==_iff, Bool-cases, Option-cases, length,
  get_elem?, get_or, set, modify, take, drop, replicate, All, length-append, length-take,
  length-replicate, length-set, length-modify, All-append, All-imp, Str, codes, streq, streq_iff,
  streq_refl, strneq, within, isspace, isdigit, isalnum, toupper, tolower, overlay, c_str, IsCStr,
  ℤ, pos, negsuc, pos_part, neg_part, ltb_ℤ, leb_ℤ, is_pos, is_neg, is_zero, to_size, decimal,
  decimal_digits, digits_value, atoi, skip_spaces, atoi-decimal, fgets_lines, lines_from,
  fgets_lines-append, Lacks,
}
use rmsgw.Text.Trim.{strtrim, strtrim_trailing, chars, LastOutside}

-- fgetline: what it makes of a string that `fgets` gave. A string that is not empty is meant.
unfoldable pub fgetline : Str → Str
fgetline [] = []
fgetline (c ∷ []) = if c == b'\n' then [] else c ∷ []
fgetline (c ∷ x ∷ s) = c ∷ fgetline (x ∷ s)

abbrev pub fgetline_all : List Str → List Str
fgetline_all [] = []
fgetline_all (l ∷ lines) = fgetline (c_str l) ∷ fgetline_all lines

-- `map_errno`, `map_logical` and `Control.FailOnNotFound`.
pub record MapState : Type 0 where
  pub map_errno : ℕ
  pub map_logical : Option Str
  pub fail_on_not_found : Bool

unfoldable pub mapctl : MapState → ℕ → MapState × ℤ
mapctl st cmd =
    if cmd == 1
    then (record st { fail_on_not_found = true }, pos 0)
    else if cmd == 2
    then (record st { fail_on_not_found = false }, pos 0)
    else (record st { map_errno = 4 }, negsuc 0)

-- The search of one name: what stands behind it in the first entry that begins with it.
unfoldable pub find_entry : Str → List Str → Option Str
find_entry namebuf [] = none
find_entry namebuf (entrybuf ∷ lines) =
    let entry = strtrim entrybuf (codes " \t") (pos 1) in
    let rest = find_entry namebuf lines in
    if strneq namebuf entry (length namebuf) then some (drop (length namebuf) entry) else rest

-- The physical names that were set, the state, and what the function returns.
pub record Mapped : Type 0 where
  pub physical : List (Option Str)
  pub st : MapState
  pub rc : ℤ

abbrev set_physical : Option Str → Mapped → Mapped
set_physical v m = record m { physical = v ∷ m.physical }

-- One name, with what was found for it and what follows for the later names.
abbrev pub map_next : MapState → Str → Option Str → Mapped → Mapped
map_next st l (some v) rest = set_physical (some v) rest
map_next st l none rest =
    if st.fail_on_not_found
    then record {
      physical = none ∷ [];
      st = record st { map_errno = 5; map_logical = some l };
      rc = negsuc 0;
    }
    else set_physical none rest

unfoldable pub map_loop : List Str → MapState → List Str → Mapped
unfolding find_entry
map_loop lines st [] = record { physical = []; st = record st { map_logical = none }; rc = pos 0 }
map_loop lines st (l ∷ logical) =
    map_next st l (find_entry (take 255 (l ++ b'=' ∷ [])) lines) (map_loop lines st logical)

-- With a file that cannot be opened nothing is set.
unfoldable pub fmapname : Option Str → MapState → List Str → Mapped
unfolding map_loop fgetline
fmapname none st logical = record { physical = []; st = record st { map_errno = 2 }; rc = negsuc 0 }
fmapname (some text) st logical = map_loop (fgetline_all (fgets_lines 2048 text)) st logical

-- `getenv("MAPDB")` is `mapdb`, and `fopen` opens the files of `open_text`.
unfoldable pub mapname : Option Str → (Str → Option Str) → MapState → List Str → Mapped
unfolding fmapname
mapname none open_text st logical = record {
  physical = [];
  st = record st { map_errno = 1 };
  rc = negsuc 0;
}
mapname (some mapfile) open_text st logical = fmapname (open_text mapfile) st logical
