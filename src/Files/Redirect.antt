-- ===== src/Files/Redirect.antt =====
-- The descriptors of the child in lib/runhook.c: standard input, output and error are redirected to
-- /dev/null before the shell is started. `open` and `dup` give the lowest descriptor that is free, and
-- the table of descriptors has an end.
use rmsgw.Prelude.{
  ℕ, suc, ◌≡◌, refl, ap, inl, inr, Bool, true, false, Option, none, some, List, [], ◌∷◌,
  if◌then◌else◌, Bool-cases, get_elem?, set,
}

-- An open file of the process, or /dev/null opened for reading or writing.
pub data Target : Type 0 where
  null_input : Target
  null_output : Target
  file_of : ℕ → Target

abbrev pub Table : Type 0
Table = List (Option Target)

abbrev after_first : Option Target → Table × Option ℕ → Table × Option ℕ
after_first d (t, none) = (d ∷ t, none)
after_first d (t, some n) = (d ∷ t, some (suc n))

-- The lowest free descriptor is taken; `none` when there is none, with EMFILE.
unfoldable pub alloc : Target → Table → Table × Option ℕ
alloc f [] = ([], none)
alloc f (none ∷ t) = (some f ∷ t, some 0)
alloc f (some g ∷ t) = after_first (some g) (alloc f t)

unfoldable pub close : ℕ → Table → Table
close n t = set t n none

-- The duplicate of a descriptor that is not open fails.
abbrev dup_of : Option (Option Target) → Table → Table
dup_of none t = t
dup_of (some none) t = t
dup_of (some (some f)) t = (alloc f t).0

unfoldable pub dup : ℕ → Table → Table
unfolding alloc
dup n t = dup_of (get_elem? t n) t

abbrev stdin_of : Table → Table × Option ℕ → Table
stdin_of t (opened, none) = t
stdin_of t (opened, some nullfd) = close nullfd (dup nullfd (close 0 opened))

unfoldable pub redirect_stdin : Table → Table
unfolding alloc close dup
redirect_stdin t = stdin_of t (alloc null_input t)

abbrev outputs_of : Table → Table × Option ℕ → Table
outputs_of t (opened, none) = t
outputs_of t (opened, some nullfd) =
    close nullfd (dup nullfd (dup nullfd (close 2 (close 1 opened))))

unfoldable pub redirect_outputs : Table → Table
unfolding alloc close dup
redirect_outputs t = outputs_of t (alloc null_output t)

unfoldable pub redirect : Table → Table
unfolding redirect_stdin redirect_outputs
redirect t = redirect_outputs (redirect_stdin t)

-- A descriptor is free.
abbrev pub has_free : Table → Bool
has_free [] = false
has_free (none ∷ t) = true
has_free (some f ∷ t) = has_free t

alloc_full : (f : Target) (t : Table) → has_free t ≡ false → alloc f t ≡ (t, none)
unfolding alloc
alloc_full f [] h = refl
alloc_full f (none ∷ t) h = cc
alloc_full f (some g ∷ t) h = rw (alloc_full f t h) refl

-- What `alloc` does to a table with a free descriptor.
record IsTaken (f : Target) (t : Table) : Type 0 where
  fd : ℕ
  taken : alloc f t ≡ (set t fd (some f), some fd)
  found : get_elem? (set t fd (some f)) fd ≡ some (some f)
  undone : set (set t fd (some f)) fd none ≡ t

alloc-IsTaken : (f : Target) (t : Table) → has_free t ≡ true → IsTaken f t
unfolding alloc
alloc-IsTaken f [] h = cc
alloc-IsTaken f (none ∷ t) h = record { fd = 0; taken = refl; found = refl; undone = refl }
alloc-IsTaken f (some g ∷ t) h =
    let it = alloc-IsTaken f t h in
    record {
      fd = suc it.fd;
      taken = rw it.taken refl;
      found = it.found;
      undone = ap (λ r. some g ∷ r) it.undone;
    }

redirect_stdin_lem :
    (a b c : Target) (t : Table)
    → redirect_stdin (some a ∷ some b ∷ some c ∷ t)
      ≡ (some (if has_free t then null_input else a) ∷ some b ∷ some c ∷ t)
unfolding redirect_stdin alloc dup close
redirect_stdin_lem a b c t = elim (Bool-cases (has_free t)) [
  | inr full ↦ rw (alloc_full null_input t full, full) refl
  | inl free ↦
      let it = alloc-IsTaken null_input t free in rw (it.taken, free, it.found, it.undone) refl
]

redirect_outputs_lem :
    (a b c : Target) (t : Table)
    → redirect_outputs (some a ∷ some b ∷ some c ∷ t) ≡ (
        some a
        ∷ some (if has_free t then null_output else b)
        ∷ some (if has_free t then null_output else c)
        ∷ t)
unfolding redirect_outputs alloc dup close
redirect_outputs_lem a b c t = elim (Bool-cases (has_free t)) [
  | inr full ↦ rw (alloc_full null_output t full, full) refl
  | inl free ↦
      let it = alloc-IsTaken null_output t free in
      rw (it.taken, free, it.found, it.found, it.undone) refl
]

-- When the three standard descriptors are open, and one more is free, the child's redirection leads
-- its input from and its outputs to /dev/null and leaves every other descriptor as it was; with a full
-- table it changes nothing, so that the hook has the gateway's own input and output.
pub redirect_lem :
    (a b c : Target) (t : Table)
    → redirect (some a ∷ some b ∷ some c ∷ t) ≡ (
        if has_free t
        then some null_input ∷ some null_output ∷ some null_output ∷ t
        else some a ∷ some b ∷ some c ∷ t)
unfolding redirect
redirect_lem a b c t = elim (Bool-cases (has_free t)) [
  | inl free ↦ rw (redirect_stdin_lem a b c t, redirect_outputs_lem _ b c t, free) refl
  | inr full ↦ rw (redirect_stdin_lem a b c t, redirect_outputs_lem _ b c t, full) refl
]
