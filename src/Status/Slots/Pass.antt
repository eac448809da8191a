-- ===== src/Status/Slots/Pass.antt =====
-- The search and the write through its index are one pass over the table.
use rmsgw.Prelude.{
  ℕ, suc, ◌+◌, ◌-◌, ◌≤◌, ◌≡◌, refl, ap, ◌∙◌, inl, inr, Option, none, some, List, [], ◌∷◌, arith,
  if◌then◌else◌, Bool-cases, modify, take, Str,
}
use rmsgw.Status.Slots.{Named, matches, is_empty, find_slot, change_slot}

module _ {E : Type 0} (n : Named E) (width : ℕ) where
  -- The first entry that is empty or matches is changed, an empty one after it is given the name.
  unfoldable pub touched : List E → Str → (E → E) → List E
  touched [] call f = []
  touched (e ∷ table) call f =
      if is_empty n width e
      then f (n.rename e (take width call)) ∷ table
      else if matches n width call e
      then f e ∷ table
      else e ∷ touched table call f

  abbrev write_at : ℕ → (E → E) → List E × Option ℕ → List E
  write_at i f (table, none) = table
  write_at i f (table, some k) = modify table (k - i) f

  -- The index lies behind the start.
  abbrev From : ℕ → Option ℕ → Type 0
  From i none = Unit
  From i (some k) = i ≤ k

  same_index : (i : ℕ) → i - i ≡ 0
  same_index i = omega arith

  From-le : (i : ℕ) (slot : Option ℕ) → From (i + 1) slot → From i slot
  From-le i none h = tt
  From-le i (some k) h = omega arith

  write_at-cons :
      (i : ℕ) (f : E → E) (e : E) (r : List E × Option ℕ)
      → From (i + 1) r.1
      → write_at i f (e ∷ r.0, r.1) ≡ e ∷ write_at (i + 1) f r
  write_at-cons i f e (table, none) h = refl
  write_at-cons i f e (table, some k) h =
      let behind : k - i ≡ suc (k - (i + 1)) = omega arith in rw behind

  find_slot-From : (table : List E) (call : Str) (i : ℕ) → From i (find_slot n width table call i).1
  unfolding find_slot
  find_slot-From [] call i = tt
  find_slot-From (e ∷ table) call i = elim (Bool-cases (is_empty n width e)) [
    | inl free ↦ rw free (omega arith)
    | inr taken ↦ elim (Bool-cases (matches n width call e)) [
      | inl same ↦ rw (taken, same) (omega arith)
      | inr other ↦
          rw (taken, other)
            (From-le i (find_slot n width table call (i + 1)).1 (find_slot-From table call (i + 1)))
    ]
  ]

  write_at-find_slot :
      (table : List E) (call : Str) (f : E → E) (i : ℕ)
      → write_at i f (find_slot n width table call i) ≡ touched table call f
  unfolding find_slot touched
  write_at-find_slot [] call f i = refl
  write_at-find_slot (e ∷ table) call f i = elim (Bool-cases (is_empty n width e)) [
    | inl free ↦ rw (free, same_index i)
    | inr taken ↦ elim (Bool-cases (matches n width call e)) [
      | inl same ↦ rw (taken, same, same_index i)
      | inr other ↦
          rw (taken, other)
            (write_at-cons i f e (find_slot n width table call (i + 1))
                (find_slot-From table call (i + 1))
              ∙ ap (◌∷◌ e) (write_at-find_slot table call f (i + 1)))
    ]
  ]

  -- `change_slot` is the one pass.
  pub change_slot-touched :
      (table : List E) (call : Str) (f : E → E)
      → change_slot n width table call f ≡ touched table call f
  unfolding change_slot
  change_slot-touched table call f =
      after (find_slot n width table call 0) ∙ write_at-find_slot table call f 0
    where
      after :
          (r : List E × Option ℕ)
          → (elim r.1 [ none ↦ r.0 | some i ↦ modify r.0 i f ]) ≡ write_at 0 f r
      after (table', none) = refl
      after (table', some k) = let z : k - 0 ≡ k = omega arith in rw z
