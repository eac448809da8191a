-- ===== src/Cms/Entry/Stale.antt =====
-- Lines of the host file with no colon, as lib/getcms.c reads them.
use rmsgw.Prelude.{
  ℕ, ◌≡◌, refl, ◌≢◌, false, some, [], ◌∷◌, ◌++◌, append_assoc, arith, length, drop, All-append, Str,
  isspace, overlay, atoi, skip_spaces,
}
use rmsgw.Cms.Entry.{
  is_field_end, is_last_end, field, host_field, entry, is_ignored, parse_fields, read_line,
}
use rmsgw.Cms.Entry.RoundTrip.{Runs, field-append}

is_ignored-plain :
    (c : ℕ) (s rest : Str)
    → is_field_end c ≡ false
    → isspace c ≡ false
    → c ≢ b'#'
    → is_ignored ((c ∷ s) ++ rest) ≡ false
unfolding is_ignored skip_spaces isspace
is_ignored-plain c s rest h space comment = rw space (ground arith)

host_field-plain :
    (c : ℕ) (s rest : Str)
    → Runs is_field_end (c ∷ s)
    → isspace c ≡ false
    → host_field ((c ∷ s) ++ (0 ∷ rest)) ≡ some (c ∷ s, rest)
unfolding host_field
host_field-plain c s rest h space = rw space (field-append is_field_end (c ∷ s) rest 0 h refl)

parse_fields_stale :
    (cbuf host stale : Str) (c : ℕ) {port passwd p q : Str}
    → Runs is_field_end (c ∷ host)
    → isspace c ≡ false
    → field is_field_end stale ≡ some (port, p)
    → field is_last_end p ≡ some (passwd, q)
    → parse_fields (((c ∷ host) ++ b'\n' ∷ []) ++ (0 ∷ stale))
      ≡ entry
          (record {
            cms_host = (c ∷ host) ++ b'\n' ∷ [];
            cms_port = atoi stale;
            cms_passwd = passwd;
          })
          (((c ∷ host) ++ b'\n' ∷ []) ++ (0 ∷ (port ++ (0 ∷ (passwd ++ (0 ∷ q))))))
unfolding parse_fields
parse_fields_stale cbuf host stale c h space e e' =
    let runs : Runs is_field_end ((c ∷ host) ++ b'\n' ∷ []) =
      (h.0, All-append _ host _ h.1 (refl, tt)) in
    rw (host_field-plain c (host ++ b'\n' ∷ []) stale runs space, e, e')

-- A line with no colon and no NUL, which begins with a byte that is neither white space nor the
-- comment sign, is taken for an entry: its host name is the whole line with the newline in it, and
-- its port and password are read from what earlier lines left in the buffer behind the line.
pub read_line_stale :
    (cbuf host : Str) (c : ℕ) {port passwd p q : Str}
    → Runs is_field_end (c ∷ host)
    → isspace c ≡ false
    → c ≢ b'#'
    → field is_field_end (drop (length (((c ∷ host) ++ b'\n' ∷ []) ++ 0 ∷ [])) cbuf)
      ≡ some (port, p)
    → field is_last_end p ≡ some (passwd, q)
    → (cbuf' : Str) × (read_line cbuf ((c ∷ host) ++ b'\n' ∷ [])
        ≡ entry
            (record {
              cms_host = (c ∷ host) ++ b'\n' ∷ [];
              cms_port = atoi (drop (length (((c ∷ host) ++ b'\n' ∷ []) ++ 0 ∷ [])) cbuf);
              cms_passwd = passwd;
            })
            cbuf')
unfolding read_line
read_line_stale cbuf host c {port} {passwd} {p} {q} h space comment e e' =
    let name = (c ∷ host) ++ b'\n' ∷ [] in
    let stale = drop (length (name ++ 0 ∷ [])) cbuf in
    let shape : overlay (name ++ 0 ∷ []) cbuf ≡ name ++ (0 ∷ stale) =
      unfold overlay in append_assoc name (0 ∷ []) stale in
    (
      name ++ (0 ∷ (port ++ (0 ∷ (passwd ++ (0 ∷ q))))),
      rw (shape, is_ignored-plain c (host ++ b'\n' ∷ []) (0 ∷ stale) (h.0) space comment)
          (parse_fields_stale cbuf host stale c h space e e'),
    )
