-- ===== src/Cms/Entry/RoundTrip.antt =====
-- `getcmsent` of lib/getcms.c reads what `putcmsent` writes.
use rmsgw.Prelude.{
  ℕ, zero, suc, ◌+◌, ◌/◌, ◌<◌, ◌≡◌, refl, ap, ◌∙◌, ◌≢◌, inl, inr, Bool, true, false, ◌||◌, some,
  List, [], ◌∷◌, ◌++◌, append_assoc, arith, ltb, ◌==◌, Bool-cases, length, drop, All, All-append,
  All-imp, Str, isspace, isdigit, overlay, pos, decimal, decimal_digits, skip_spaces, atoi-decimal,
  fgets_lines, fgets_lines-append, Lacks,
}
use rmsgw.Cms.Node.{Cms}
use rmsgw.Cms.Entry.{
  bufsize, is_field_end, is_last_end, field, host_field, entry, is_ignored, parse_fields, read_line,
  found, nextent, putcmsent,
}

-- No byte of `f` ends the field.
abbrev pub Runs : (ℕ → Bool) → Str → Type 0
Runs stop f = All (λ c. stop c ≡ false) f

pub field-append :
    (stop : ℕ → Bool) (f rest : Str) (c : ℕ)
    → Runs stop f
    → stop c ≡ true
    → field stop (f ++ (c ∷ rest)) ≡ some (f, rest)
unfolding field
field-append stop [] rest c h e = rw e
field-append stop (x ∷ f) rest c h e = rw (h.0, field-append stop f rest c h.1 e)

host_field-append :
    (f rest : Str) → Runs is_field_end f → host_field (f ++ (b':' ∷ rest)) ≡ some (f, rest)
unfolding host_field field isspace
host_field-append [] rest h = refl
host_field-append (x ∷ f) rest h = elim (Bool-cases (isspace x)) [
  | inl space ↦ rw (space, host_field-append f rest h.1)
  | inr other ↦ rw (other, h.0, field-append is_field_end f rest b':' h.1 refl)
]

-- The printed digits hold neither a NUL nor a colon.
decimal_digits-Runs : (fuel n : ℕ) → Runs is_field_end (decimal_digits fuel n)
unfolding decimal_digits
decimal_digits-Runs zero n = tt
decimal_digits-Runs (suc fuel) n = elim (Bool-cases (ltb n 10)) [
  | inl small ↦ rw small (ground arith, tt)
  | inr large ↦ rw large (
      All-append _ (decimal_digits fuel (n / 10)) _ (decimal_digits-Runs fuel (n / 10))
        (ground arith, tt))
]

-- A host name that the file can hold: no NUL and no colon, and no comment sign at its start.
pub record IsHost (host : Str) : Type 0 where
  pub runs : Runs is_field_end host
  pub no_comment : (c : ℕ) (s : Str) → host ≡ c ∷ s → c ≢ b'#'

skip_spaces-colon :
    (host rest : Str)
    → Runs is_field_end host
    → (d : ℕ) × (t : Str) × (skip_spaces (host ++ (b':' ∷ rest)) ≡ d ∷ t)
      × ((d == 0 || d == b'\n') ≡ false)
unfolding skip_spaces isspace
skip_spaces-colon [] rest h = (b':', rest, refl, refl)
skip_spaces-colon (x ∷ host) rest h = elim (Bool-cases (isspace x)) [
  | inl space ↦ rw space (skip_spaces-colon host rest h.1)
  | inr other ↦ (x, host ++ (b':' ∷ rest), rw other, ground arith)
]

is_ignored-host : (host rest : Str) → IsHost host → is_ignored (host ++ (b':' ∷ rest)) ≡ false
unfolding is_ignored skip_spaces isspace
is_ignored-host [] rest h = refl
is_ignored-host (c ∷ s) rest h =
    let (d, t, e, ends) = skip_spaces-colon (c ∷ s) rest h.runs in
    let ne : c ≢ b'#' = h.no_comment c s refl in rw e (ground arith)

module _ (host passwd rest : Str) (port : ℕ) (h : IsHost host) (w : Runs is_last_end passwd) where
  parse_fields-put :
      parse_fields (host ++ (b':' ∷ (decimal port ++ (b':' ∷ (passwd ++ (b'\n' ∷ rest))))))
      ≡ entry
          (record { cms_host = host; cms_port = pos port; cms_passwd = passwd })
          (host ++ (0 ∷ (decimal port ++ (0 ∷ (passwd ++ (0 ∷ rest))))))
  unfolding parse_fields
  parse_fields-put = rw (
    host_field-append host _ h.runs,
    field-append is_field_end (decimal port) (passwd ++ (b'\n' ∷ rest)) b':'
        (unfold decimal in decimal_digits-Runs (suc port) port) refl,
    field-append is_last_end passwd rest b'\n' w refl,
    atoi-decimal port b':' (passwd ++ (b'\n' ∷ rest)) (unfold isdigit in refl),
  )

decimal_digits-Lacks : (fuel n : ℕ) → Lacks b'\n' (decimal_digits fuel n)
unfolding decimal_digits
decimal_digits-Lacks zero n = tt
decimal_digits-Lacks (suc fuel) n = elim (Bool-cases (ltb n 10)) [
  | inl small ↦ rw small (omega arith, tt)
  | inr large ↦ rw large (
      All-append _ (decimal_digits fuel (n / 10)) _ (decimal_digits-Lacks fuel (n / 10))
        (omega arith, tt))
]

-- The text of an entry with no newline behind it.
abbrev pub entry_text : Str → ℕ → Str → Str
entry_text host port passwd = host ++ (b':' ∷ (decimal port ++ (b':' ∷ passwd)))

-- What the buffer keeps behind a line and its NUL.
abbrev stale_behind : Str → Str → Str
stale_behind text cbuf = drop (length ((text ++ b'\n' ∷ []) ++ 0 ∷ [])) cbuf

read_line-put :
    (cbuf host passwd : Str) (port : ℕ)
    → IsHost host
    → Runs is_last_end passwd
    → read_line cbuf (entry_text host port passwd ++ b'\n' ∷ [])
      ≡ entry
          (record { cms_host = host; cms_port = pos port; cms_passwd = passwd })
          (host
            ++ (0
                ∷ (decimal port
                    ++ (0
                        ∷ (passwd ++ (0 ∷ 0 ∷ stale_behind (entry_text host port passwd) cbuf))))))
unfolding read_line
read_line-put cbuf host passwd port h w =
    let text = entry_text host port passwd in
    let stale = stale_behind text cbuf in
    let filled : overlay ((text ++ b'\n' ∷ []) ++ 0 ∷ []) cbuf
        ≡ host ++ (b':' ∷ (decimal port ++ (b':' ∷ (passwd ++ (b'\n' ∷ 0 ∷ stale))))) =
      unfold overlay in simp append_assoc in
    rw (filled, is_ignored-host host _ h) (parse_fields-put host passwd (0 ∷ stale) port h w)

nextent-entry :
    (cbuf line : Str) (lines : List Str) {c : Cms} {cbuf' : Str}
    → read_line cbuf line ≡ entry c cbuf'
    → nextent cbuf (line ∷ lines) ≡ found c cbuf' lines
unfolding nextent
nextent-entry cbuf line lines e = rw e

-- The text of an entry that `putcmsent` writes in front of the rest of the file is read back as that
-- entry, whatever the buffer held, and the lines of the rest stay to be read: for a port that is not
-- negative, a host with no NUL, colon or newline and no comment sign at its start, a password with
-- no NUL, colon or newline, and a line that fits the buffer with its newline and its NUL.
pub nextent-putcmsent :
    (cbuf host passwd rest : Str) (port : ℕ)
    → IsHost host
    → Lacks b'\n' host
    → Runs is_last_end passwd
    → length (entry_text host port passwd) + 1 < bufsize
    → (cbuf' : Str) × (nextent cbuf (fgets_lines bufsize (putcmsent host port passwd ++ rest))
        ≡ found
            (record { cms_host = host; cms_port = pos port; cms_passwd = passwd })
            cbuf'
            (fgets_lines bufsize rest))
unfolding putcmsent
nextent-putcmsent cbuf host passwd rest port h nl w fits =
    let text = entry_text host port passwd in
    let lacks : Lacks b'\n' text = All-append _ host _ nl (
      omega arith,
      All-append _ (decimal port) _ (unfold decimal in decimal_digits-Lacks (suc port) port)
          (omega arith, All-imp passwd (λ c e. ground arith) w),
    ) in
    let split = fgets_lines-append bufsize text rest fits lacks in
    let norm : putcmsent host port passwd ++ rest ≡ text ++ (b'\n' ∷ rest) = simp append_assoc in
    (
      host ++ (0 ∷ (decimal port ++ (0 ∷ (passwd ++ (0 ∷ 0 ∷ stale_behind text cbuf))))),
      ap (λ y. nextent cbuf (fgets_lines bufsize y)) norm
          ∙ ap (nextent cbuf) split
          ∙ nextent-entry cbuf (text ++ b'\n' ∷ []) (fgets_lines bufsize rest)
              (read_line-put cbuf host passwd port h w),
    )
