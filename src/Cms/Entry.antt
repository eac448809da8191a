-- ===== src/Cms/Entry.antt =====
-- lib/getcms.c: the entries of the host file. The static buffer `cbuf` keeps what earlier lines left
-- in it, and the parser's pointer can run behind the end of the current line into that; so the
-- buffer is a part of the state. The file is the list of the lines that `fgets` has still to return.
pub mod RoundTrip
pub mod Stale
use rmsgw.Prelude.{
  ℕ, zero, suc, ◌+◌, ◌-◌, ◌*◌, ◌/◌, ◌%◌, ◌^◌, ◌≤◌, ◌<◌, min, ◌≡◌, refl, sym, ap, ◌∙◌, ◌≢◌, ◌↔◌, ◌⊎◌,
  inl, inr, Bool, true, false, not, ◌&&◌, ◌||◌, Option, none, some, List, [], ◌∷◌, ◌++◌, append-nil,
  append_assoc, arith, ltb, leb, ◌==◌, if◌then◌else◌, ==_iff, Bool-cases, Option-cases, length,
  get_elem?, get_or, set, modify, take, drop, replicate, All, length-append, length-take,
  length-replicate, length-set, length-modify, All-append, Str, codes, streq, streq_iff, streq_refl,
  strneq, within, isspace, isdigit, isalnum, toupper, tolower, overlay, c_str, IsCStr, ℤ, pos,
  negsuc, pos_part, neg_part, ltb_ℤ, leb_ℤ, is_pos, is_neg, to_size, decimal, decimal_digits,
  digits_value, atoi, skip_spaces, atoi-decimal, fgets_lines, lines_from, fgets_lines-append, Lacks,
}
use rmsgw.Cms.Node.{Cms}

abbrev pub bufsize : ℕ
bufsize = 2048

abbrev pub is_field_end : ℕ → Bool
is_field_end c = c == 0 || c == b':'

abbrev pub is_last_end : ℕ → Bool
is_last_end c = c == 0 || (c == b':' || c == b'\n')

-- `for (; !stop(*p); p++)` and then `*p++ = '\0'`: what was passed, and what stands behind the byte
-- that ended it. `none` is a read behind the end of the buffer.
unfoldable pub field : (ℕ → Bool) → Str → Option (Str × Str)
field stop [] = none
field stop (c ∷ s) =
    let rest = field stop s in
    if stop c then some ([], s) else elim rest [ none ↦ none | some (f, p) ↦ some (c ∷ f, p) ]

-- The first field: leading white space is passed over, but `cms_host` points to the start of the
-- buffer, so that it stays a part of the name.
unfoldable pub host_field : Str → Option (Str × Str)
host_field [] = none
host_field (c ∷ s) =
    let rest = host_field s in
    if isspace c
    then elim rest [ none ↦ none | some (f, p) ↦ some (c ∷ f, p) ]
    else field is_field_end (c ∷ s)

-- What a round of the loop of `nextent` does with the buffer.
pub data Round : Type 0 where
  skipped : Str → Round
  entry : Cms → Str → Round
  fault : Round

-- A comment line, or one with nothing but white space.
unfoldable pub is_ignored : Str → Bool
is_ignored [] = true
is_ignored (c ∷ s) =
    c == b'#' || elim (skip_spaces (c ∷ s)) [ [] ↦ true | d ∷ t ↦ d == 0 || d == b'\n' ]

bind_field : Option (Str × Str) → (Str → Str → Round) → Round
bind_field none k = fault
bind_field (some (f, p)) k = k f p

-- `atoi(p)` reads at `p`, which must lie in the buffer: the field that follows then faults too.
unfoldable pub parse_fields : Str → Round
unfolding bind_field
parse_fields cbuf = bind_field (host_field cbuf) (λ host p.
    bind_field (field is_field_end p) (λ port q. bind_field (field is_last_end q) (λ passwd r.
      entry (record { cms_host = host; cms_port = atoi p; cms_passwd = passwd })
        (host ++ (0 ∷ (port ++ (0 ∷ (passwd ++ (0 ∷ r)))))))))

-- One `fgets` into the buffer and one round of the loop.
unfoldable pub read_line : Str → Str → Round
read_line cbuf line =
    let filled = overlay (line ++ 0 ∷ []) cbuf in
    if is_ignored filled then skipped filled else parse_fields filled

-- The result of `nextent`: an entry, with the buffer and the lines that are left; 0 at the end of
-- the file; or a fault.
pub data Next : Type 0 where
  found : Cms → Str → List Str → Next
  at_end : Str → Next
  faulted : Next

unfoldable pub next_round : Round → List Str → (Str → Next) → Next
next_round (skipped cbuf) lines again = again cbuf
next_round (entry c cbuf) lines again = found c cbuf lines
next_round fault lines again = faulted

unfoldable pub nextent : Str → List Str → Next
unfolding next_round
nextent cbuf [] = at_end cbuf
nextent cbuf (line ∷ lines) = next_round (read_line cbuf line) lines (λ cbuf'. nextent cbuf' lines)

-- fprintf(ofp, "%s:%d:%s\n", …), for a port that is not negative.
unfoldable pub putcmsent : Str → ℕ → Str → Str
putcmsent host port passwd = host ++ (b':' ∷ (decimal port ++ (b':' ∷ (passwd ++ b'\n' ∷ []))))
