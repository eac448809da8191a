-- ===== src/Session/Greeting.antt =====
-- rmsgw/greet.c and rmsgw/banner.c: what is sent to the client before the session. The build's date and
-- the results of `sendrf` are inputs; logging is left out.
use rmsgw.Prelude.{
  ◌≡◌, refl, false, Option, none, some, List, [], ◌∷◌, ◌++◌, if◌then◌else◌, take, All, Str, codes,
  ℤ, pos, negsuc, is_neg,
}

-- snprintf(greeting, sizeof(greeting), …), with MAXGREETING bytes.
unfoldable pub greeting : Str → Str → Str → Str → Str → Str
greeting gwcall program label date gridsquare = take 79 (
    codes "\n"
    ++ (gwcall
        ++ (codes " - "
            ++ (program
                ++ (codes " "
                    ++ (label
                        ++ (codes " "
                            ++ (date ++ (codes " (" ++ (gridsquare ++ codes ")\n\n"))))))))))

-- The loop of `banner` over the lines, each with the result of its `sendrf`: the result, and the lines
-- that were given to it.
unfoldable pub send_lines : List (Str × ℤ) → ℤ × List Str
send_lines [] = (pos 0, [])
send_lines ((line, sent) ∷ lines) =
    let (rc, later) = send_lines lines in
    if is_neg sent then (negsuc 0, line ∷ []) else (rc, line ∷ later)

-- banner; `none` is a file that cannot be opened.
unfoldable pub banner : Option (List (Str × ℤ)) → ℤ × List Str
unfolding send_lines
banner none = (negsuc 0, [])
banner (some lines) = send_lines lines

abbrev pub first_parts : List (Str × ℤ) → List Str
first_parts [] = []
first_parts ((line, sent) ∷ lines) = line ∷ first_parts lines

-- When every line can be sent, all are, in the file's order.
pub banner_lem :
    (lines : List (Str × ℤ))
    → All (λ l. is_neg l.1 ≡ false) lines
    → banner (some lines) ≡ (pos 0, first_parts lines)
unfolding banner send_lines
banner_lem [] h = refl
banner_lem ((line, sent) ∷ lines) (ok, hs) = rw (ok, banner_lem lines hs) refl
