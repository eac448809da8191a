-- ===== src/Text/Var/Assign.antt =====
-- What an assignment of lib/var.c leaves in the symbol table.
use rmsgw.Prelude.{
  ◌≡◌, refl, inl, inr, Bool, none, some, List, [], ◌∷◌, ◌++◌, arith, if◌then◌else◌, Option-cases,
  Str, streq, streq_iff, pos, Lacks,
}
use rmsgw.Text.Trim.{strtrim}
use rmsgw.Text.Symbol.{Symbol, sym_lookup, sym_add, value_of, value_of-sym_add}
use rmsgw.Text.Var.{
  stored, fault, replace_value, install, varassign_parts, split_last, varassign, whitespace,
}

value_of-replace_value :
    (symtab : List Symbol) (s v k : Str) (symp : Symbol)
    → sym_lookup symtab s ≡ some symp
    → value_of (replace_value symtab s v) k ≡ (if streq s k then some v else value_of symtab k)
unfolding sym_lookup replace_value
value_of-replace_value [] s v k symp h = cc
value_of-replace_value (x ∷ symtab) s v k symp h = ground (
  arith,
  streq_iff x.sym_name s,
  streq_iff x.sym_name k,
  streq_iff s k,
  value_of-replace_value symtab s v k symp,
)

value_of-install :
    (malloc : Bool) (symtab symtab' : List Symbol) (s v k : Str)
    → install malloc symtab s v ≡ stored symtab'
    → value_of symtab' k ≡ (if streq s k then some v else value_of symtab k)
unfolding install
value_of-install malloc symtab symtab' s v k h = elim (Option-cases (sym_lookup symtab s)) [
  | inl missing ↦ elim (Option-cases (sym_add malloc symtab (some s) (some v))) [
    | inl refused ↦ ground arith
    | inr (t, added) ↦
        let law = value_of-sym_add malloc symtab {symtab' = t} s v k added in ground arith
  ]
  | inr (symp, found) ↦ ground (arith, value_of-replace_value symtab s v k symp)
]

-- After a variable is assigned, the table gives the trimmed value to the trimmed name, and to every
-- other name what it gave before.
pub value_of-varassign_parts :
    (malloc : Bool) (symtab : List Symbol) {symtab' : List Symbol} (sp vp k : Str)
    → varassign_parts malloc symtab sp vp ≡ stored symtab'
    → value_of symtab' k ≡ (
        if streq (strtrim sp whitespace (pos 0)) k
        then some (strtrim vp whitespace (pos 0))
        else value_of symtab k)
unfolding varassign_parts
value_of-varassign_parts malloc symtab sp vp k = value_of-install malloc symtab _ _ _ k

split_last-none : (s : Str) → Lacks b'=' s → split_last s ≡ none
unfolding split_last
split_last-none [] h = refl
split_last-none (c ∷ s) h = ground (arith, split_last-none s h.1)

split_last-append : (n v : Str) → Lacks b'=' v → split_last (n ++ (b'=' ∷ v)) ≡ some (n, v)
unfolding split_last
split_last-append [] v h = rw (split_last-none v h)
split_last-append (c ∷ n) v h = rw (split_last-append n v h)

-- An assignment string is split at its last equals sign: the name may hold others. With none in the
-- string the code writes into a string literal.
pub varassign_lem :
    (malloc : Bool) (symtab : List Symbol) (name value : Str)
    → Lacks b'=' value
    → (varassign malloc symtab (name ++ (b'=' ∷ value)) ≡ varassign_parts malloc symtab name value)
      × (varassign malloc symtab value ≡ fault)
unfolding varassign
varassign_lem malloc symtab name value h =
    (rw (split_last-append name value h, varassign), rw (split_last-none value h, varassign))
