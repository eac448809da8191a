-- ===== src/Text/Var/Template.antt =====
-- `varsubst` of lib/var.c against templates: strings taken apart into what the loop makes of them.
use rmsgw.Prelude.{
  ℕ, ◌+◌, ◌≤◌, ◌<◌, ◌≡◌, refl, sym, ap, ◌∙◌, ◌≢◌, inl, inr, true, false, ◌||◌, none, some, List, [],
  ◌∷◌, ◌++◌, append-nil, append_assoc, arith, ◌==◌, if◌then◌else◌, Bool-cases, length, All,
  length-append, Str, isalnum,
}
use rmsgw.Text.Symbol.{Symbol}
use rmsgw.Text.Var.{Subst, vbuf_size, is_var_char, expansion, subst_char, subst_run, varsubst}

-- A byte as it is, a byte behind a backslash, or a variable with the byte that ends its name.
pub data Piece : Type 0 where
  plain : ℕ → Piece
  escaped : ℕ → Piece
  variable : Str → ℕ → Piece

-- What stands at the end of the string: nothing more, a name that the end of the string ends, or a
-- backslash with nothing behind it.
pub data Tail : Type 0 where
  stop : Tail
  last_name : Str → Tail
  lone_backslash : Tail

abbrev pub print_piece : Piece → Str
print_piece (plain c) = c ∷ []
print_piece (escaped c) = b'\\' ∷ c ∷ []
print_piece (variable name c) = b'$' ∷ (name ++ c ∷ [])

abbrev pub print_tail : Tail → Str
print_tail stop = []
print_tail (last_name name) = b'$' ∷ name
print_tail lone_backslash = b'\\' ∷ []

abbrev pub print : List Piece → Tail → Str
print [] t = print_tail t
print (p ∷ ps) t = print_piece p ++ print ps t

abbrev pub meaning_piece : List Symbol → Piece → Str
meaning_piece symtab (plain c) = c ∷ []
meaning_piece symtab (escaped c) = c ∷ []
meaning_piece symtab (variable name c) = expansion symtab name ++ c ∷ []

abbrev pub meaning_tail : List Symbol → Tail → Str
meaning_tail symtab stop = []
meaning_tail symtab (last_name name) = expansion symtab name
meaning_tail symtab lone_backslash = []

abbrev pub meaning : List Symbol → List Piece → Tail → Str
meaning symtab [] t = meaning_tail symtab t
meaning symtab (p ∷ ps) t = meaning_piece symtab p ++ meaning symtab ps t

abbrev pub IsName : Str → Type 0
IsName name = All (λ c. is_var_char c ≡ true) name × (length name < vbuf_size)

abbrev pub IsPiece : Piece → Type 0
IsPiece (plain c) = (c ≢ b'\\') × (c ≢ b'$')
IsPiece (escaped c) = Unit
IsPiece (variable name c) = IsName name × (is_var_char c ≡ false)

abbrev pub IsTail : Tail → Type 0
IsTail stop = Unit
IsTail (last_name name) = IsName name
IsTail lone_backslash = Unit

abbrev collecting : Str → Str → Subst
collecting v out = record { esc = false; var = true; vbuf = v; cbuf = out }

abbrev copying : Str → Str → Subst
copying v out = record { esc = false; var = false; vbuf = v; cbuf = out }

module _ (symtab : List Symbol) where
  subst_run-name :
      (name rest v out : Str)
      → All (λ c. is_var_char c ≡ true) name
      → length v + length name < vbuf_size
      → subst_run symtab (collecting v out) (name ++ rest)
        ≡ subst_run symtab (collecting (v ++ name) out) rest
  unfolding subst_run subst_char
  subst_run-name [] rest v out h n = rw append-nil
  subst_run-name (c ∷ name) rest v out h n = ground (
    arith,
    h.0,
    subst_run-name name rest (v ++ c ∷ []) out h.1 (omega (arith, length-append v (c ∷ []))),
    append_assoc v (c ∷ []) name,
  )

  subst_run-name_overflow :
      (name rest v out : Str)
      → All (λ c. is_var_char c ≡ true) name
      → vbuf_size ≤ length v + length name
      → subst_run symtab (collecting v out) (name ++ rest) ≡ none
  unfolding subst_run subst_char
  subst_run-name_overflow [] [] v out h n = ground arith
  subst_run-name_overflow [] (c ∷ rest) v out h n = ground arith
  subst_run-name_overflow (c ∷ name) rest v out h n = ground (
    arith,
    h.0,
    subst_run-name_overflow name rest (v ++ c ∷ []) out h.1
        (omega (arith, length-append v (c ∷ []))),
  )

  subst_run-end_name :
      (name rest out : Str) (c : ℕ)
      → length name < vbuf_size
      → is_var_char c ≡ false
      → subst_run symtab (collecting name out) (c ∷ rest)
        ≡ subst_run symtab (copying name (out ++ (expansion symtab name ++ c ∷ []))) rest
  unfolding subst_run subst_char
  subst_run-end_name name rest out c n h = ground arith

  subst_run-end :
      (name out : Str)
      → length name < vbuf_size
      → subst_run symtab (collecting name out) [] ≡ some (out ++ (expansion symtab name ++ 0 ∷ []))
  unfolding subst_run subst_char isalnum
  subst_run-end name out n = ground arith

  subst_run-dollar :
      (rest v out : Str)
      → subst_run symtab (copying v out) (b'$' ∷ rest) ≡ subst_run symtab (collecting [] out) rest
  unfolding subst_run subst_char
  subst_run-dollar rest v out = refl

  subst_run-tail :
      (t : Tail) (v out : Str)
      → IsTail t
      → subst_run symtab (copying v out) (print_tail t)
        ≡ some (out ++ (meaning_tail symtab t ++ 0 ∷ []))
  unfolding subst_run subst_char is_var_char isalnum
  subst_run-tail stop v out h = refl
  subst_run-tail lone_backslash v out h = refl
  subst_run-tail (last_name name) v out h =
      subst_run-dollar name v out
      ∙ ap (λ y. subst_run symtab (collecting [] out) y) (sym (append-nil name))
      ∙ subst_run-name name [] [] out h.0 (omega (arith, h.1))
      ∙ subst_run-end name out h.1

  subst_run-template :
      (ps : List Piece) (t : Tail) (v out : Str)
      → All IsPiece ps
      → IsTail t
      → subst_run symtab (copying v out) (print ps t)
        ≡ some (out ++ (meaning symtab ps t ++ 0 ∷ []))
  unfolding subst_run subst_char
  subst_run-template [] t v out h k = subst_run-tail t v out k
  subst_run-template (plain c ∷ ps) t v out h k = ground (
    arith,
    subst_run-template ps t v (out ++ c ∷ []) h.1 k,
    append_assoc out (c ∷ []) (meaning symtab ps t ++ 0 ∷ []),
  )
  subst_run-template (escaped c ∷ ps) t v out h k = ground (
    arith,
    subst_run-template ps t v (out ++ c ∷ []) h.1 k,
    append_assoc out (c ∷ []) (meaning symtab ps t ++ 0 ∷ []),
  )
  subst_run-template (variable name c ∷ ps) t v out h k =
      subst_run-dollar _ v out
      ∙ ap (subst_run symtab (collecting [] out)) (append_assoc name (c ∷ []) (print ps t))
      ∙ subst_run-name name (c ∷ print ps t) [] out h.0.0.0 (omega (arith, h.0.0.1))
      ∙ subst_run-end_name name (print ps t) out c h.0.0.1 h.0.1
      ∙ subst_run-template ps t name (out ++ (expansion symtab name ++ c ∷ [])) h.1 k
      ∙ ap some (simp append_assoc)

-- `varsubst` on the text of a template writes the template's meaning and the terminator: a byte
-- behind a backslash as it is, for a name of at most 255 bytes its value, or nothing when the table
-- lacks it, with the byte that ended the name behind it, and nothing for a backslash at the end.
pub varsubst-print :
    (symtab : List Symbol) (ps : List Piece) (t : Tail)
    → All IsPiece ps
    → IsTail t
    → varsubst symtab (print ps t) ≡ some (meaning symtab ps t ++ 0 ∷ [])
unfolding varsubst
varsubst-print symtab ps t = subst_run-template symtab ps t [] []

-- A name of 256 bytes or more is written past the end of the 256-byte name buffer.
pub varsubst_overflow :
    (symtab : List Symbol) (name rest : Str)
    → All (λ c. is_var_char c ≡ true) name
    → vbuf_size ≤ length name
    → varsubst symtab (b'$' ∷ (name ++ rest)) ≡ none
unfolding varsubst
varsubst_overflow symtab name rest h n =
    subst_run-dollar symtab (name ++ rest) [] []
    ∙ subst_run-name_overflow symtab name rest [] [] h (omega arith)

-- The string in which every backslash and dollar sign has a backslash before it.
abbrev pub escape : Str → Str
escape [] = []
escape (c ∷ s) = if c == b'\\' || c == b'$' then b'\\' ∷ c ∷ escape s else c ∷ escape s

escape_pieces : Str → List Piece
escape_pieces [] = []
escape_pieces (c ∷ s) = (if c == b'\\' || c == b'$' then escaped c else plain c) ∷ escape_pieces s

print-escape_pieces : (s : Str) → print (escape_pieces s) stop ≡ escape s
unfolding escape_pieces
print-escape_pieces [] = refl
print-escape_pieces (c ∷ s) = ground (arith, print-escape_pieces s)

meaning-escape_pieces : (symtab : List Symbol) (s : Str) → meaning symtab (escape_pieces s) stop ≡ s
unfolding escape_pieces
meaning-escape_pieces symtab [] = refl
meaning-escape_pieces symtab (c ∷ s) = ground (arith, meaning-escape_pieces symtab s)

escape_pieces-IsPiece : (s : Str) → All IsPiece (escape_pieces s)
unfolding escape_pieces
escape_pieces-IsPiece [] = tt
escape_pieces-IsPiece (c ∷ s) = elim (Bool-cases (c == b'\\' || c == b'$')) [
  | inl special ↦ rw special (tt, escape_pieces-IsPiece s)
  | inr other ↦ rw other ((ground arith, ground arith), escape_pieces-IsPiece s)
]

-- Whatever the table holds, substitution undoes the escaping of a string.
pub varsubst-escape :
    (symtab : List Symbol) (s : Str) → varsubst symtab (escape s) ≡ some (s ++ 0 ∷ [])
varsubst-escape symtab s =
    ap (varsubst symtab) (sym (print-escape_pieces s))
    ∙ varsubst-print symtab (escape_pieces s) stop (escape_pieces-IsPiece s) tt
    ∙ ap (λ y. some (y ++ 0 ∷ [])) (meaning-escape_pieces symtab s)
