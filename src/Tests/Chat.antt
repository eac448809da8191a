-- ===== src/Tests/Chat.antt =====
-- The login at the CMS and the radio link on concrete inputs.
use rmsgw.Prelude.{
  ◌+◌, ◌≤◌, ◌≡◌, refl, Bool, true, ◌&&◌, some, List, [], ◌∷◌, ◌++◌, arith, leb, length, Str, codes,
  streq, strneq, c_str, ℤ, isspace, tolower, lacks, lacks_lem, is_c_str, is_c_str_lem, pos,
}
use rmsgw.Login.Readln.{readln}
use rmsgw.Login.Sgl.{Round, sgl_process, strcasestr, succeed, login_line, response_line}
use rmsgw.Login.Sgl.Dialogue.{Dialogue, crs, sgl_process_lem}
use rmsgw.Radio.Sendrf.{took, Call, sendrf, transmitted, sendrf_lem}
use rmsgw.Gateway.Relay.{Burst, all_written, concat, to_ax25, to_ax25_lem, results_of}
use rmsgw.Login.Sgl.Answers.{says, says_all, asking, IsLine, sgl_process-says_all}

abbrev fixed_digest : Str → Str
fixed_digest text = 1 ∷ 2 ∷ 3 ∷ 200 ∷ []

abbrev greeting : List Round
greeting =
    says (codes "Hello")
    ∷ says []
    ∷ says (codes "Callsign :")
    ∷ says (codes ";SQ: 12345678")
    ∷ says (codes "[")
    ∷ says (codes "a")
    ∷ says (codes "b")
    ∷ []

sgl_process_lem_example :
    (rc : ℤ) × (written : List Str) × (sgl_process fixed_digest
        (codes "pw")
        (codes "N0CALL")
        (codes "W1AW-10")
        greeting
      ≡ (some rc, written))
    × Dialogue fixed_digest (codes "pw") (codes "N0CALL") (codes "W1AW-10") 0 [] rc written
unfolding streq c_str readln
sgl_process_lem_example =
    sgl_process_lem fixed_digest (codes "pw") (codes "N0CALL") (codes "W1AW-10") greeting
      (omega arith)

sendrf_lem_example :
    (calls : List Call) × (sendrf 2 1 (took 1 ∷ took 5 ∷ [])
      ≡ some (record { rc = pos 2; calls = calls }))
    × (length calls ≤ 2)
    × (transmitted (codes "a\nz") calls (took 1 ∷ took 5 ∷ []) ≡ codes "a\n")
sendrf_lem_example =
    sendrf_lem (codes "a\nz") 2 1 (took 1 ∷ took 5 ∷ []) (omega arith, (omega arith, tt))
      (omega arith)

abbrev three_bursts : List Burst
three_bursts =
    record { refused = 2; takes = 5 }
    ∷ record { refused = 0; takes = 1 }
    ∷ record { refused = 15; takes = 1 }
    ∷ []

to_ax25_lem_example :
    ((to_ax25 2 (codes "abc") 0 (results_of three_bursts)).ending ≡ all_written)
    × (concat (to_ax25 2 (codes "abc") 0 (results_of three_bursts)).chunks ≡ codes "abc")
to_ax25_lem_example =
    to_ax25_lem 2 three_bursts (codes "abc") (omega arith)
      ((omega arith, omega arith), ((omega arith, omega arith), ((omega arith, omega arith), tt)))
      (omega arith)

abbrev is_line : Str → Bool
is_line body =
    lacks b'\r' body && (is_c_str body && (leb (length body + 2) 1024 && leb 1 (length body)))

text-IsLine : (body : Str) → is_line body ≡ true → IsLine body
text-IsLine body h = (
  lacks_lem b'\r' body (ground arith),
  is_c_str_lem body (ground arith),
  ground arith,
  ground arith,
)

sgl_process-says_all_example :
    ((sgl_process fixed_digest (codes "pw") (codes "N0CALL") (codes "W1AW-10") (
        says_all (codes "Hi" ∷ []) (
          asking fixed_digest
            (codes "pw")
            (codes "N0CALL")
            (codes "W1AW-10")
            (codes "CALLSIGN :")
            (codes "1234")
            []))).0
      ≡ some succeed)
    × ((sgl_process fixed_digest (codes "pw") (codes "N0CALL") (codes "W1AW-10") (
          says_all (codes "Hi" ∷ []) (
            asking fixed_digest
              (codes "pw")
              (codes "N0CALL")
              (codes "W1AW-10")
              (codes "CALLSIGN :")
              (codes "1234")
              []))).1
        ≡ crs 1
          ++ (login_line fixed_digest (codes "pw") (codes "N0CALL") (codes "W1AW-10")
              ∷ response_line fixed_digest
                  (codes "pw")
                  (codes "N0CALL")
                  (codes "W1AW-10")
                  (codes "1234")
              ∷ []))
unfolding strcasestr strneq tolower isspace
sgl_process-says_all_example =
    sgl_process-says_all fixed_digest (codes "pw") (codes "N0CALL") (codes "W1AW-10")
      (codes "Hi" ∷ []) (codes "CALLSIGN :") (codes "1234") [] (omega arith)
      ((text-IsLine (codes "Hi") refl, refl), tt) (text-IsLine (codes "CALLSIGN :") refl) refl
      (text-IsLine (codes ";SQ: 1234") refl)
      ((refl, (refl, (refl, (refl, tt)))), omega arith, omega arith)
