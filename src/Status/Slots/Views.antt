-- ===== src/Status/Slots/Views.antt =====
-- What a table says of a name: the entry that the search finds for it, if there is one.
use rmsgw.Prelude.{
  ℕ, zero, suc, min, ◌≡◌, refl, ◌∙◌, ◌≢◌, inl, inr, true, false, ◌&&◌, Option, none, some, List, [],
  ◌∷◌, arith, leb, ◌==◌, if◌then◌else◌, Bool-cases, length, take, All, Str, strneq,
}
use rmsgw.Status.Slots.{Named, matches, is_empty}
use rmsgw.Status.Slots.Pass.{touched}

-- `a` and `b` begin alike as far as the shorter goes.
abbrev pub Comparable : Str → Str → Type 0
Comparable [] b = Unit
Comparable (x ∷ a) [] = Unit
Comparable (x ∷ a) (y ∷ b) = (x ≡ y) × Comparable a b

min-suc-suc : (a b : ℕ) → min (suc a) (suc b) ≡ suc (min a b)
min-suc-suc a b = omega arith

min-zero-left : (b : ℕ) → min 0 b ≡ 0
min-zero-left b = omega arith

min-zero-right : (a : ℕ) → min a 0 ≡ 0
min-zero-right a = omega arith

-- A name that begins with `a` and with `b`, cut to the width, makes them comparable.
Comparable-strneq :
    (w : ℕ) (a b name : Str)
    → strneq a name (min w (length a)) ≡ true
    → strneq b name (min w (length b)) ≡ true
    → Comparable (take w a) (take w b)
unfolding strneq
Comparable-strneq zero a b name h k = tt
Comparable-strneq (suc w) [] b name h k = tt
Comparable-strneq (suc w) (x ∷ a) [] name h k = tt
Comparable-strneq (suc w) (x ∷ a) (y ∷ b) [] h k = cc (rw (min-suc-suc w (length a), strneq) at h)
Comparable-strneq (suc w) (x ∷ a) (y ∷ b) (z ∷ name) h k =
    let h' : (x == z && strneq a name (min w (length a))) ≡ true =
      rw (min-suc-suc w (length a), strneq) at h in
    let k' : (y == z && strneq b name (min w (length b))) ≡ true =
      rw (min-suc-suc w (length b), strneq) at k in
    (ground arith, Comparable-strneq w a b name (ground arith) (ground arith))

-- A name matches itself, cut to the width.
strneq-take : (w : ℕ) (a : Str) → strneq a (take w a) (min w (length a)) ≡ true
unfolding strneq
strneq-take zero a = rw (min-zero-left (length a))
strneq-take (suc w) [] = rw (min-zero-right (suc w))
strneq-take (suc w) (x ∷ a) = rw (min-suc-suc w (length a)) (ground (arith, strneq-take w a))

leb-length : (s : Str) → s ≢ [] → leb (length s) 0 ≡ false
leb-length [] ne = absurd (ne refl)
leb-length (c ∷ s) ne = ground arith

module _ {E : Type 0} (n : Named E) (width : ℕ) where
  -- A table filled from the front: behind an empty entry all are empty.
  abbrev pub IsPacked : List E → Type 0
  IsPacked [] = Unit
  IsPacked (e ∷ table) =
      (is_empty n width e ≡ true → All (λ d. is_empty n width d ≡ true) table) × IsPacked table

  -- The entry that is found for a name, if one before the first empty entry matches.
  unfoldable pub entry_of : List E → Str → Option E
  entry_of [] call = none
  entry_of (e ∷ table) call =
      if is_empty n width e
      then none
      else if matches n width call e
      then some e
      else entry_of table call

  -- The entry that a name is given when none is found: the first empty one.
  unfoldable pub first_empty : List E → Option E
  first_empty [] = none
  first_empty (e ∷ table) = if is_empty n width e then some e else first_empty table

  -- A change leaves the name alone.
  abbrev pub KeepsName : (E → E) → Type 0
  KeepsName f = (e : E) → n.name (f e) ≡ n.name e

  is_empty-name : (d e : E) → n.name d ≡ n.name e → is_empty n width d ≡ is_empty n width e
  unfolding is_empty
  is_empty-name d e h = rw h

  matches-name :
      (call : Str) (d e : E) → n.name d ≡ n.name e → matches n width call d ≡ matches n width call e
  unfolding matches
  matches-name call d e h = rw h

  -- The entry after it was given the name.
  abbrev pub given : (call : Str) (f : E → E) (e : E) → E
  given call f e = f (n.rename e (take width call))

  name-given :
      (call : Str) (f : E → E) (e : E) → KeepsName f → n.name (given call f e) ≡ take width call
  name-given call f e k = k (n.rename e (take width call)) ∙ n.name-rename e (take width call)

  matches-given :
      (call : Str) (f : E → E) (e : E) → KeepsName f → matches n width call (given call f e) ≡ true
  unfolding matches
  matches-given call f e k = rw (name-given call f e k) (strneq-take width call)

  is_empty-given :
      (call : Str) (f : E → E) (e : E)
      → KeepsName f
      → take width call ≢ []
      → is_empty n width (given call f e) ≡ false
  unfolding is_empty
  is_empty-given call f e k ne = rw (name-given call f e k) (leb-length (take width call) ne)

  -- The changed entry: the one that was found, or else the free one with the name in it.
  abbrev pub changed : Str → (E → E) → Option E → Option E → Option E
  changed call f (some e) free = some (f e)
  changed call f none none = none
  changed call f none (some e) = some (given call f e)

  -- After a change at a name the search finds the changed entry for it: the one that was found
  -- before, or else the first empty one with the name in it, or none in a full table.
  pub entry_of-touched_self :
      (table : List E) (call : Str) (f : E → E)
      → KeepsName f
      → take width call ≢ []
      → entry_of (touched n width table call f) call
        ≡ changed call f (entry_of table call) (first_empty table)
  unfolding touched entry_of first_empty
  entry_of-touched_self [] call f k ne = refl
  entry_of-touched_self (e ∷ table) call f k ne = elim (Bool-cases (is_empty n width e)) [
    | inl free ↦ rw (free, is_empty-given call f e k ne, matches-given call f e k)
    | inr taken ↦ elim (Bool-cases (matches n width call e)) [
      | inl same ↦
          rw
            (taken, same, is_empty-name (f e) e (k e), taken, matches-name call (f e) e (k e), same)
      | inr other ↦ rw (taken, other) (rw (taken, other) (entry_of-touched_self table call f k ne))
    ]
  ]

  -- Neither name, cut to the bytes that the table keeps, begins with the other.
  abbrev pub Apart : Str → Str → Type 0
  Apart a b = ¬ Comparable (take width a) (take width b)

  matches-Apart :
      (a b : Str) (e : E) → Apart a b → matches n width a e ≡ true → matches n width b e ≡ false
  unfolding matches
  matches-Apart a b e apart h = elim (Bool-cases (matches n width b e)) [
    | inl both ↦ absurd (apart (Comparable-strneq width a b (n.name e) h both))
    | inr other ↦ other
  ]

  Apart-ne-nil : (a b : Str) → Apart a b → take width a ≢ []
  Apart-ne-nil a b apart e = apart (rw e tt)

  entry_of-empty :
      (table : List E) (b : Str)
      → All (λ d. is_empty n width d ≡ true) table
      → entry_of table b ≡ none
  unfolding entry_of
  entry_of-empty [] b h = refl
  entry_of-empty (e ∷ table) b h = rw h.0

  -- A change at one name leaves what is found for a name apart from it.
  pub entry_of-touched-Apart :
      (table : List E) (a b : Str) (f : E → E)
      → KeepsName f
      → Apart a b
      → IsPacked table
      → entry_of (touched n width table a f) b ≡ entry_of table b
  unfolding touched entry_of
  entry_of-touched-Apart [] a b f k apart p = refl
  entry_of-touched-Apart (e ∷ table) a b f k apart p = elim (Bool-cases (is_empty n width e)) [
    | inl free ↦
        rw
          (
            free,
            is_empty-given a f e k (Apart-ne-nil a b apart),
            matches-Apart a b (given a f e) apart (matches-given a f e k),
          )
          (entry_of-empty table b (p.0 free))
    | inr taken ↦ elim (Bool-cases (matches n width a e)) [
      | inl same ↦
          let other = matches-Apart a b e apart same in
          rw (
            taken,
            same,
            is_empty-name (f e) e (k e) ∙ taken,
            matches-name b (f e) e (k e) ∙ other,
            other,
          )
      | inr other ↦ rw (taken, other) (rw (taken, entry_of-touched-Apart table a b f k apart p.1))
    ]
  ]

  pub touched-IsPacked :
      (table : List E) (call : Str) (f : E → E)
      → KeepsName f
      → take width call ≢ []
      → IsPacked table
      → IsPacked (touched n width table call f)
  unfolding touched
  touched-IsPacked [] call f k ne p = tt
  touched-IsPacked (e ∷ table) call f k ne p = elim (Bool-cases (is_empty n width e)) [
    | inl free ↦ rw free ((λ q. cc (is_empty-given call f e k ne)), p.1)
    | inr taken ↦ elim (Bool-cases (matches n width call e)) [
      | inl same ↦ rw (taken, same) ((λ q. cc (is_empty-name (f e) e (k e))), p.1)
      | inr other ↦ rw (taken, other) ((λ q. cc), touched-IsPacked table call f k ne p.1)
    ]
  ]

  pub length-touched :
      (table : List E) (call : Str) (f : E → E)
      → length (touched n width table call f) ≡ length table
  unfolding touched
  length-touched [] call f = refl
  length-touched (e ∷ table) call f = ground (arith, length-touched table call f)
