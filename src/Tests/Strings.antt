-- ===== src/Tests/Strings.antt =====
-- The string helpers on concrete inputs.
use rmsgw.Prelude.{◌≡◌, refl, some, List, [], ◌∷◌, ◌++◌, arith, Str, codes, streq, isalnum, pos}
use rmsgw.Text.Trim.{strtrim, strtrim_lem, chars, Inside, HeadOutside, LastOutside}
use rmsgw.Text.Symbol.{Symbol, sym_lookup}
use rmsgw.Text.Var.{varsubst, expansion, is_var_char}
use rmsgw.Text.Var.Template.{plain, variable, lone_backslash, varsubst-print}

strtrim_lem_example :
    (pre post : Str) × (codes " ab " ≡ pre ++ (strtrim (codes " ab ") (codes " ") (pos 0) ++ post))
    × Inside (chars (codes " ")) pre
    × Inside (chars (codes " ")) post
    × HeadOutside (chars (codes " ")) (strtrim (codes " ab ") (codes " ") (pos 0))
    × LastOutside (chars (codes " ")) (strtrim (codes " ab ") (codes " ") (pos 0))
strtrim_lem_example = strtrim_lem (codes " ab ") (codes " ") (pos 0)

abbrev call_table : List Symbol
call_table = record { sym_name = codes "CALL"; sym_value = codes "N0CALL" } ∷ []

varsubst-print_example : varsubst call_table (codes "a$CALL-\\") ≡ some (codes "aN0CALL-" ++ 0 ∷ [])
unfolding is_var_char isalnum expansion sym_lookup streq
varsubst-print_example =
    varsubst-print call_table (plain b'a' ∷ variable (codes "CALL") b'-' ∷ []) lone_backslash
      (
        ((λ e. omega arith), (λ e. omega arith)),
        ((((refl, (refl, (refl, (refl, tt)))), omega arith), refl), tt),
      )
      tt
