-- ===== src/Status/Slots.antt =====
-- The search that `get_cms_slot` and `get_gw_slot` of lib/statblock.c share, over a table whose
-- entries have a name of at most `width` bytes. The tables of the two functions differ in the
-- entry's type and in the width alone.
pub mod Pass
pub mod Views
use rmsgw.Prelude.{
  ℕ, zero, suc, ◌+◌, ◌-◌, ◌*◌, ◌/◌, ◌%◌, ◌^◌, ◌≤◌, ◌<◌, min, ◌≡◌, refl, sym, ap, ◌∙◌, ◌≢◌, ◌↔◌, ◌⊎◌,
  inl, inr, Bool, true, false, not, ◌&&◌, ◌||◌, Option, none, some, List, [], ◌∷◌, ◌++◌, append-nil,
  append_assoc, arith, ltb, leb, ◌==◌, if◌then◌else◌, ==_iff, Bool-cases, Option-cases, length,
  get_elem?, get_or, set, modify, take, drop, replicate, All, length-append, length-take,
  length-replicate, length-set, length-modify, All-append, All-imp, Str, codes, streq, streq_iff,
  streq_refl, strneq, within, isspace, isdigit, isalnum, toupper, tolower, overlay, c_str, IsCStr,
  ℤ, pos, negsuc, pos_part, neg_part, ltb_ℤ, leb_ℤ, is_pos, is_neg, to_size, decimal,
  decimal_digits, digits_value, atoi, skip_spaces, atoi-decimal, fgets_lines, lines_from,
  fgets_lines-append, Lacks,
}

-- The name field of an entry. A field that holds no NUL is read up to its width.
pub record Named (E : Type 0) : Type 0 where
  pub name : E → Str
  pub rename : E → Str → E
  pub name-rename : (e : E) (s : Str) → name (rename e s) ≡ s

module _ {E : Type 0} (n : Named E) (width : ℕ) where
  -- STRNEQUAL(call, name, MIN(width, strlen(call)))
  unfoldable pub matches : Str → E → Bool
  matches call e = strneq call (n.name e) (min width (length call))

  -- strlen(name) <= 0
  unfoldable pub is_empty : E → Bool
  is_empty e = leb (length (n.name e)) 0

  -- The loop from index `i`: the table that it leaves, and the index at which it stopped, if that is
  -- in the table. An empty entry is given the name, cut to the width by `strncpy`.
  unfoldable pub find_slot : List E → Str → ℕ → List E × Option ℕ
  unfolding matches is_empty
  find_slot [] call i = ([], none)
  find_slot (e ∷ table) call i =
      let (rest, slot) = find_slot table call (i + 1) in
      if is_empty e
      then (n.rename e (take width call) ∷ table, some i)
      else if matches call e
      then (e ∷ table, some i)
      else (e ∷ rest, slot)

  -- A change of the entry that a name is given, or of nothing when the table is full: the search
  -- and then a write through the index that it returned.
  unfoldable pub change_slot : List E → Str → (E → E) → List E
  unfolding find_slot
  change_slot table call f =
      let (table', slot) = find_slot table call 0 in
      elim slot [ none ↦ table' | some i ↦ modify table' i f ]
