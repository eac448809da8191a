-- ===== src/Text/Symbol.antt =====
-- lib/symbol.c and include/symbol.h: a symbol table as a linked list, newest entry first. The
-- table behind a `Symbol **` is the list, and a pointer to an entry is the entry. `malloc` is an
-- argument that says whether the allocation succeeds; `strdup`, which the code does not check, is
-- taken to succeed.
use rmsgw.Prelude.{
  ◌≡◌, refl, ◌↔◌, ◌⊎◌, inl, inr, Bool, false, Option, none, some, List, [], ◌∷◌, arith, ltb,
  if◌then◌else◌, length, Str, streq,
}

pub record Symbol : Type 0 where
  pub sym_name : Str
  pub sym_value : Str

unfoldable pub sym_lookup : List Symbol → Str → Option Symbol
sym_lookup [] s = none
sym_lookup (sp ∷ next) s = if streq sp.sym_name s then some sp else sym_lookup next s

-- A NULL name is `none`. The result is the new table, or `none` where the code returns NULL and
-- leaves the table alone.
unfoldable pub sym_add : Bool → List Symbol → Option Str → Option Str → Option (List Symbol)
sym_add malloc symtab none v = none
sym_add malloc symtab (some s) v =
    if ltb (length s) 1
    then none
    else if malloc
    then some (record { sym_name = s; sym_value = elim v [ none ↦ [] | some w ↦ w ] } ∷ symtab)
    else none

-- The value that a table gives to a name.
abbrev pub value_of : List Symbol → Str → Option Str
value_of symtab s = elim (sym_lookup symtab s) [ none ↦ none | some sp ↦ some sp.sym_value ]

-- After an entry is added, the table gives its value to its name and gives every other name what
-- it gave before.
pub value_of-sym_add :
    (malloc : Bool) (symtab : List Symbol) {symtab' : List Symbol} (s v k : Str)
    → sym_add malloc symtab (some s) (some v) ≡ some symtab'
    → value_of symtab' k ≡ (if streq s k then some v else value_of symtab k)
unfolding sym_add sym_lookup
value_of-sym_add malloc symtab s v k h = ground arith

-- `sym_add` refuses exactly the missing or empty name and the failed allocation.
pub sym_add-none :
    (malloc : Bool) (symtab : List Symbol) (s v : Option Str)
    → (sym_add malloc symtab s v ≡ none) ↔ ((s ≡ none) ⊎ ((s ≡ some []) ⊎ (malloc ≡ false)))
unfolding sym_add
sym_add-none malloc symtab none v = (λ e. inl refl, λ h. refl)
sym_add-none malloc symtab (some []) v = (λ e. inr (inl refl), λ h. refl)
sym_add-none malloc symtab (some (c ∷ s)) v = ground arith
