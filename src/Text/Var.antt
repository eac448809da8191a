-- ===== src/Text/Var.antt =====
-- lib/var.c: assignment of variables in a symbol table, and substitution of `$name` in a string.
pub mod Assign
pub mod Template
use rmsgw.Prelude.{
  ℕ, zero, suc, ◌+◌, ◌-◌, ◌*◌, ◌/◌, ◌%◌, ◌^◌, ◌≤◌, ◌<◌, min, ◌≡◌, refl, sym, ap, ◌∙◌, ◌≢◌, ◌↔◌, ◌⊎◌,
  inl, inr, Bool, true, false, not, ◌&&◌, ◌||◌, Option, none, some, List, [], ◌∷◌, ◌++◌, append-nil,
  append_assoc, arith, ltb, leb, ◌==◌, if◌then◌else◌, ==_iff, Bool-cases, Option-cases, length,
  get_elem?, get_or, set, modify, take, drop, replicate, All, length-append, length-take,
  length-replicate, length-set, length-modify, All-append, Str, codes, streq, streq_iff, streq_refl,
  strneq, within, isspace, isdigit, isalnum, toupper, tolower, overlay, c_str, IsCStr, ℤ, pos,
  negsuc, pos_part, neg_part, ltb_ℤ, leb_ℤ, is_pos, is_neg, to_size,
}
use rmsgw.Text.Trim.{strtrim}
use rmsgw.Text.Symbol.{Symbol, sym_lookup, sym_add}

-- The result of an assignment: the table that it leaves, the error return, or undefined behaviour.
pub data Assigned : Type 0 where
  stored : List Symbol → Assigned
  failed : Assigned
  fault : Assigned

-- `symp->sym_value = strdup(vp)` at the entry that `symLookup` found, the first of its name.
unfoldable pub replace_value : List Symbol → Str → Str → List Symbol
replace_value [] sp vp = []
replace_value (symp ∷ next) sp vp =
    if streq symp.sym_name sp
    then record symp { sym_value = vp } ∷ next
    else symp ∷ replace_value next sp vp

abbrev pub whitespace : Str
whitespace = codes " \t"

-- `_varassign`, on the trimmed name and value.
install : Bool → List Symbol → Str → Str → Assigned
install malloc symtab sp vp = elim (sym_lookup symtab sp) [
  | none ↦ elim (sym_add malloc symtab (some sp) (some vp)) [
    | none ↦ failed
    | some symtab' ↦ stored symtab'
  ]
  | some symp ↦ stored (replace_value symtab sp vp)
]

-- `_varassign`
unfoldable pub varassign_parts : Bool → List Symbol → Str → Str → Assigned
unfolding install
varassign_parts malloc symtab sp vp =
    install malloc symtab (strtrim sp whitespace (pos 0)) (strtrim vp whitespace (pos 0))

-- strrchr(abuf, '='): what stands before the last `=` and behind it.
unfoldable pub split_last : Str → Option (Str × Str)
split_last [] = none
split_last (c ∷ s) = elim (split_last s) [
  | some (n, v) ↦ some (c ∷ n, v)
  | none ↦ if c == b'=' then some ([], s) else none
]

-- With no `=` the value is a string literal, which `strtrim` then writes its terminator into.
unfoldable pub varassign : Bool → List Symbol → Str → Assigned
unfolding split_last
varassign malloc symtab abuf = elim (split_last abuf) [
  | none ↦ fault
  | some (sp, vp) ↦ varassign_parts malloc symtab sp vp
]

-- The state of the loop of `varsubst`: the flags, the name collected in `vbuf`, and what stands in
-- `cbuf` before `d`.
pub record Subst : Type 0 where
  pub esc : Bool
  pub var : Bool
  pub vbuf : Str
  pub cbuf : Str

abbrev pub vbuf_size : ℕ
vbuf_size = 256

unfoldable pub is_var_char : ℕ → Bool
is_var_char c = isalnum c || c == b'_' || c == b'$'

abbrev pub put : Subst → ℕ → Subst
put st c = record st { cbuf = st.cbuf ++ c ∷ [] }

-- The value that is copied for a name: nothing for an unknown one.
unfoldable pub expansion : List Symbol → Str → Str
expansion symtab name = elim (sym_lookup symtab name) [ none ↦ [] | some sp ↦ sp.sym_value ]

-- One round of the loop. `none` is a write behind the end of `vbuf`.
unfoldable pub subst_char : List Symbol → Subst → ℕ → Option Subst
unfolding is_var_char
subst_char symtab st c =
    if st.esc
    then some (record (put st c) { esc = false })
    else if st.var
    then (if not (ltb (length st.vbuf) vbuf_size)
        then none
        else if is_var_char c
        then some (record st { vbuf = st.vbuf ++ c ∷ [] })
        else some
            (record st { var = false; cbuf = st.cbuf ++ (expansion symtab st.vbuf ++ c ∷ []) }))
    else if c == b'\\'
    then some (record st { esc = true })
    else if c == b'$'
    then some (record st { var = true; vbuf = [] })
    else some (put st c)

abbrev and_then {ℓ} : {A : Type ℓ} → Option A → (A → Option Str) → Option Str
and_then none f = none
and_then (some a) f = f a

-- The rounds over the bytes of `rbuf` and over its NUL, which is the last round.
unfoldable pub subst_run : List Symbol → Subst → Str → Option Str
subst_run symtab st [] = and_then (subst_char symtab st 0) (λ last. some last.cbuf)
subst_run symtab st (c ∷ s) = and_then (subst_char symtab st c) (λ st'. subst_run symtab st' s)

abbrev pub start : Subst
start = record { esc = false; var = false; vbuf = []; cbuf = [] }

-- The bytes that stand in `cbuf` at the return, the terminator included.
unfoldable pub varsubst : List Symbol → Str → Option Str
varsubst symtab rbuf = subst_run symtab start rbuf
