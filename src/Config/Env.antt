-- ===== src/Config/Env.antt =====
-- lib/loadenv.c: the environment variables of a file, given by its text, or by `none` when it cannot be
-- opened. Whether a `setenv` succeeds is an argument.
use rmsgw.Prelude.{
  ℕ, ◌+◌, ◌≤◌, ◌<◌, ◌≡◌, refl, sym, ap, ◌∙◌, ◌↔◌, inl, inr, Bool, true, false, not, ◌&&◌, Option,
  none, some, List, [], ◌∷◌, ◌++◌, append-nil, append_assoc, arith, ltb, ◌==◌, if◌then◌else◌,
  Bool-cases, length, All, length-append, Str, IsCStr, ℤ, pos, negsuc, fgets_lines, lines_from,
  fgets_lines-append, Lacks,
}
use rmsgw.Config.Mapname.{fgetline, fgetline_all}
use rmsgw.Config.Mapname.Entries.{NamedValue, entry_text, text_of, fgetline-concat, c_str-concat}

-- A line up to its first `#`.
unfoldable pub uncommented : Str → Str
uncommented [] = []
uncommented (c ∷ s) = let rest = uncommented s in if c == b'#' then [] else c ∷ rest

abbrev pub is_nil : Str → Bool
is_nil [] = true
is_nil (c ∷ s) = false

-- The tokens that `strtok` finds from a place on, where `cur` is the begun one.
unfoldable pub strtok_all : Str → Str → List Str
strtok_all cur [] = if is_nil cur then [] else cur ∷ []
strtok_all cur (c ∷ s) =
    let rest = strtok_all (if c == b'=' then [] else cur ++ (c ∷ [])) s in
    if c == b'=' && not (is_nil cur) then cur ∷ rest else rest

-- What a line does: two tokens set a variable, fewer do nothing, and a third one is written behind `toks`.
pub data EnvLine : Type 0 where
  sets : Str → Str → EnvLine
  swallowed : EnvLine
  overflows : EnvLine

abbrev pub env_line_of : List Str → EnvLine
env_line_of [] = swallowed
env_line_of (a ∷ []) = swallowed
env_line_of (a ∷ b ∷ []) = sets a b
env_line_of (a ∷ b ∷ c ∷ toks) = overflows

unfoldable pub env_line : Str → EnvLine
unfolding uncommented strtok_all
env_line line = env_line_of (strtok_all [] (uncommented line))

-- fail_count, and the variables that were set.
pub record EnvRun : Type 0 where
  pub fail_count : ℕ
  pub variables : List NamedValue

abbrev pub with_line : (Str → Str → Bool) → EnvLine → Option EnvRun → Option EnvRun
with_line setenv overflows rest = none
with_line setenv swallowed rest = rest
with_line setenv (sets a b) none = none
with_line setenv (sets a b) (some r) =
    if setenv a b
    then some (record r { variables = (a, b) ∷ r.variables })
    else some (record r { fail_count = r.fail_count + 1 })

-- The loop over the lines. `none` is a write behind the end of `toks`.
unfoldable pub env_loop : (Str → Str → Bool) → List Str → Option EnvRun
unfolding env_line
env_loop setenv [] = some (record { fail_count = 0; variables = [] })
env_loop setenv (l ∷ lines) = with_line setenv (env_line l) (env_loop setenv lines)

abbrev pub env_result : EnvRun → ℤ × List NamedValue
env_result r = (if ltb 0 r.fail_count then negsuc 0 else pos 0, r.variables)

unfoldable pub loadenv : (Str → Str → Bool) → Option Str → Option (ℤ × List NamedValue)
unfolding env_loop fgetline
loadenv setenv none = some (negsuc 0, [])
loadenv setenv (some text) = elim (env_loop setenv (fgetline_all (fgets_lines 512 text))) [
  | none ↦ none
  | some r ↦ some (env_result r)
]

-- An assignment that fits a line of the file.
abbrev pub IsAssignment : NamedValue → Type 0
IsAssignment (name, value) =
    (1 ≤ length name)
    × (1 ≤ length value)
    × Lacks b'=' name
    × Lacks b'=' value
    × Lacks b'#' (entry_text (name, value))
    × Lacks b'\n' (entry_text (name, value))
    × IsCStr (entry_text (name, value))
    × (length (entry_text (name, value)) + 1 < 512)

uncommented-Lacks : (s : Str) → Lacks b'#' s → uncommented s ≡ s
unfolding uncommented
uncommented-Lacks [] h = refl
uncommented-Lacks (c ∷ s) (h, hs) =
    let other : (c == b'#') ≡ false = ground arith in
    rw other (ap (λ t. c ∷ t) (uncommented-Lacks s hs))

strtok_all-last :
    (cur s : Str) → Lacks b'=' s → 1 ≤ length (cur ++ s) → strtok_all cur s ≡ (cur ++ s) ∷ []
unfolding strtok_all
strtok_all-last [] [] h b = absurd (omega arith)
strtok_all-last (x ∷ cur) [] h b = ap (λ t. t ∷ []) (sym (append-nil (x ∷ cur)))
strtok_all-last cur (c ∷ s) (h, hs) b =
    let other : (c == b'=') ≡ false = ground arith in
    let shift : (cur ++ (c ∷ [])) ++ s ≡ cur ++ (c ∷ s) = append_assoc cur (c ∷ []) s in
    rw other (
      strtok_all-last (cur ++ (c ∷ [])) s hs (rw shift (omega (arith, length-append cur (c ∷ s))))
      ∙ ap (λ t. t ∷ []) shift)

strtok_all-name :
    (cur name value : Str)
    → Lacks b'=' name
    → 1 ≤ length (cur ++ name)
    → strtok_all cur (name ++ (b'=' ∷ value)) ≡ (cur ++ name) ∷ strtok_all [] value
unfolding strtok_all
strtok_all-name [] [] value h b = absurd (omega arith)
strtok_all-name (x ∷ cur) [] value h b =
    ap (λ t. t ∷ strtok_all [] value) (sym (append-nil (x ∷ cur)))
strtok_all-name cur (c ∷ name) value (h, hs) b =
    let other : (c == b'=') ≡ false = ground arith in
    let shift : (cur ++ (c ∷ [])) ++ name ≡ cur ++ (c ∷ name) = append_assoc cur (c ∷ []) name in
    rw other (
      strtok_all-name (cur ++ (c ∷ [])) name value hs
        (rw shift (omega (arith, length-append cur (c ∷ name))))
      ∙ ap (λ t. t ∷ strtok_all [] value) shift)

env_line-entry_text :
    (name value : Str)
    → 1 ≤ length name
    → 1 ≤ length value
    → Lacks b'=' name
    → Lacks b'=' value
    → Lacks b'#' (entry_text (name, value))
    → env_line (entry_text (name, value)) ≡ sets name value
unfolding env_line
env_line-entry_text name value n v hn hv hc = rw (uncommented-Lacks (entry_text (name, value)) hc) (
    ap env_line_of
      (strtok_all-name [] name value hn n ∙ ap (λ t. name ∷ t) (strtok_all-last [] value hv v)))

-- The variables that can be set, and the number of the others.
abbrev pub settable : (Str → Str → Bool) → List NamedValue → EnvRun
settable setenv [] = record { fail_count = 0; variables = [] }
settable setenv ((a, b) ∷ entries) =
    let r = settable setenv entries in
    if setenv a b
    then record r { variables = (a, b) ∷ r.variables }
    else record r { fail_count = r.fail_count + 1 }

with_line-sets :
    (setenv : Str → Str → Bool) (a b : Str) (entries : List NamedValue)
    → with_line setenv (sets a b) (some (settable setenv entries))
      ≡ some (settable setenv ((a, b) ∷ entries))
with_line-sets setenv a b entries = elim (Bool-cases (setenv a b)) [
  | inl ok ↦ rw ok refl
  | inr bad ↦ rw bad refl
]

env_loop-text_of :
    (setenv : Str → Str → Bool) (entries : List NamedValue)
    → All IsAssignment entries
    → env_loop setenv (fgetline_all (fgets_lines 512 (text_of entries)))
      ≡ some (settable setenv entries)
unfolding env_loop
env_loop-text_of setenv [] h = unfold fgets_lines lines_from in refl
env_loop-text_of setenv ((name, value) ∷ entries) ((n, v, hn, hv, hc, hl, hz, hb), hs) =
    let line : Str = entry_text (name, value) in
    let again = env_loop-text_of setenv entries hs in
    rw
      (
        fgets_lines-append 512 line (text_of entries) hb hl,
        c_str-concat line hz,
        fgetline-concat line,
        env_line-entry_text name value n v hn hv hc,
        again,
      )
      (with_line-sets setenv name value entries)

settable-fail_count :
    (setenv : Str → Str → Bool) (entries : List NamedValue)
    → ((settable setenv entries).fail_count ≡ 0) ↔ All (λ e. setenv e.0 e.1 ≡ true) entries
settable-fail_count setenv [] = ((λ e. tt), (λ a. refl))
settable-fail_count setenv ((a, b) ∷ entries) =
    let (to, from) = settable-fail_count setenv entries in
    elim (Bool-cases (setenv a b)) [
      | inl ok ↦ rw ok ((λ e. (refl, to e)), (λ (h, hs). from hs))
      | inr bad ↦ rw bad ((λ e. absurd (omega (arith, e))), (λ (h, hs). absurd (cc h)))
    ]

result-zero : (r : EnvRun) → ((env_result r).0 ≡ pos 0) ↔ (r.fail_count ≡ 0)
result-zero r = elim (Bool-cases (ltb 0 r.fail_count)) [
  | inl some_failed ↦ rw some_failed ((λ e. absurd (cc e)), (λ e. absurd (ground (arith, e))))
  | inr none_failed ↦ rw none_failed ((λ e. ground arith), (λ e. refl))
]

-- A file of lines NAME=VALUE, where no name and no value is empty, has an equals sign in it or a `#`,
-- and each line fits the buffer, sets all variables for which `setenv` succeeds, in the file's order,
-- and the result is 0 exactly when it succeeds for all.
pub loadenv-text_of :
    (setenv : Str → Str → Bool) (entries : List NamedValue)
    → All IsAssignment entries
    → (loadenv setenv (some (text_of entries)) ≡ some (env_result (settable setenv entries)))
      × (((env_result (settable setenv entries)).0 ≡ pos 0)
          ↔ All (λ e. setenv e.0 e.1 ≡ true) entries)
unfolding loadenv
loadenv-text_of setenv entries h = (
  rw (loadenv, env_loop-text_of setenv entries h) refl,
  (
    (λ e. (settable-fail_count setenv entries).0 ((result-zero (settable setenv entries)).0 e)),
    (λ a. (result-zero (settable setenv entries)).1 ((settable-fail_count setenv entries).1 a)),
  ),
)

-- A line of three tokens, A=B=C, none of them empty and without a `#`, writes the third behind the array.
pub env_line_overflow :
    (a b c : Str)
    → 1 ≤ length a
    → 1 ≤ length b
    → 1 ≤ length c
    → Lacks b'=' a
    → Lacks b'=' b
    → Lacks b'=' c
    → Lacks b'#' (a ++ (b'=' ∷ (b ++ (b'=' ∷ c))))
    → env_line (a ++ (b'=' ∷ (b ++ (b'=' ∷ c)))) ≡ overflows
unfolding env_line
env_line_overflow a b c na nb nc ha hb hc h =
    rw (uncommented-Lacks (a ++ (b'=' ∷ (b ++ (b'=' ∷ c)))) h) (
      ap env_line_of (
        strtok_all-name [] a (b ++ (b'=' ∷ c)) ha na
        ∙ ap (λ t. a ∷ t)
            (strtok_all-name [] b c hb nb ∙ ap (λ t. b ∷ t) (strtok_all-last [] c hc nc))))
