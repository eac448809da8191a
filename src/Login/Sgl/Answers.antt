-- ===== src/Login/Sgl/Answers.antt =====
-- The secure gateway login (lib/cmslogin.c) with a CMS that asks and challenges as expected.
use rmsgw.Prelude.{
  ℕ, zero, suc, ◌+◌, ◌^◌, ◌≤◌, ◌<◌, ◌≡◌, refl, sym, ap, ◌∙◌, inl, inr, true, false, some, List, [],
  ◌∷◌, ◌++◌, append-nil, append_assoc, arith, ltb, Bool-cases, length, All, length-append,
  length-take, Str, codes, streq, strneq, isspace, tolower, c_str, IsCStr, pos, leb_ℤ, is_neg,
  skip_spaces, Lacks,
}
use rmsgw.Login.Readln.{byte, bytes_of, readln_lem}
use rmsgw.Login.Sgl.{
  sgl_callsign, sgl_challenge, Round, Sgl, succeed, expectsend, strcasestr, scan_challenge, word,
  login_line, response_line, callsign_round, challenge_round, sgl_switch, sgl_round, sgl_loop,
  status, sgl_process,
}
use rmsgw.Login.Sgl.Dialogue.{crs}
use rmsgw.Login.Sgl.Sending.{expectsend-pos}

-- The line with its end, and a round in which the CMS sends it and takes whatever is written.
abbrev pub cr_line : Str → Str
cr_line body = body ++ b'\r' ∷ []

abbrev pub says : Str → Round
says body = record { reads = bytes_of body ++ (byte b'\r' ∷ []); wrote = λ s. pos (length s) }

abbrev pub IsLine : Str → Type 0
IsLine body = Lacks b'\r' body × IsCStr body × (length body + 2 ≤ 1024) × (1 ≤ length body)

c_str-cr_line : (s : Str) → IsCStr s → c_str (cr_line s) ≡ cr_line s
unfolding c_str
c_str-cr_line [] h = refl
c_str-cr_line (zero ∷ s) (h, hs) = absurd (omega arith)
c_str-cr_line (suc c ∷ s) (h, hs) = ap (λ t. suc c ∷ t) (c_str-cr_line s hs)

no_lone_cr :
    (body : Str) → 1 ≤ length body → Lacks b'\r' body → streq (cr_line body) (codes "\r") ≡ false
unfolding streq
no_lone_cr [] h k = absurd (omega arith)
no_lone_cr (c ∷ s) h k = ground (arith, k.0)

-- A challenge code: bytes that are no white space.
abbrev pub IsCode : Str → Type 0
IsCode code = All (λ c. isspace c ≡ false) code × (1 ≤ length code) × (length code ≤ 8)

abbrev pub challenge_text : Str → Str
challenge_text code = codes ";SQ: " ++ code

word-code :
    (n : ℕ) (code : Str)
    → All (λ c. isspace c ≡ false) code
    → length code ≤ n
    → word n (cr_line code) ≡ code
unfolding word
word-code zero [] h b = refl
word-code zero (c ∷ s) h b = absurd (omega arith)
word-code (suc n) [] h b = unfold isspace in refl
word-code (suc n) (c ∷ s) (h, hs) b = rw h (ap (λ t. c ∷ t) (word-code n s hs (omega arith)))

scan_challenge-text :
    (code : Str) → IsCode code → scan_challenge (cr_line (challenge_text code)) ≡ code
unfolding scan_challenge strneq skip_spaces isspace
scan_challenge-text [] (h, low, high) = absurd (omega arith)
scan_challenge-text (c ∷ s) ((h, hs), low, high) = rw h (word-code 8 (c ∷ s) (h, hs) high)

asks-challenge_text :
    (code : Str) → strcasestr (cr_line (challenge_text code)) (codes ";SQ: ") ≡ true
unfolding strcasestr strneq tolower
asks-challenge_text code = refl

-- The rounds in which lines are sent.
abbrev pub says_all : List Str → List Round → List Round
says_all [] rounds = rounds
says_all (body ∷ bodies) rounds = says body ∷ says_all bodies rounds

module _ (md5 : Str → Str) (passwd usercall gwcall : Str) where
  says-round :
      (body : Str) (s : Sgl)
      → IsLine body
      → sgl_round md5 passwd usercall gwcall (says body) s
        ≡ sgl_switch md5 passwd usercall gwcall s.sgl_state
            (pos (length (cr_line body)))
            (cr_line body)
            (λ x. pos (length x))
            s
  unfolding sgl_round
  says-round body s (k, z, r, ne) =
      rw ((readln_lem 1024 b'\r' body [] k r).0, c_str-cr_line body z) refl

  abbrev callsign_at : ℕ → List Str → Sgl
  callsign_at n w = record { sgl_state = sgl_callsign; running = true; loop_cnt = n; written = w }

  abbrev pub IsOther : Str → Type 0
  IsOther body = IsLine body × (strcasestr (cr_line body) (codes "Callsign :") ≡ false)

  other-round :
      (body : Str) (n : ℕ) (w : List Str)
      → IsOther body
      → n ≤ 3
      → sgl_round md5 passwd usercall gwcall (says body) (callsign_at n w)
        ≡ callsign_at (n + 1) (w ++ crs 1)
  unfolding sgl_switch callsign_round expectsend
  other-round body n w ((k, z, r, ne), no_prompt) h =
      let few : ltb 3 n ≡ false = ground arith in
      let there : leb_ℤ (pos (length (cr_line body))) (pos 0) ≡ false =
        ground (arith, length-append body (b'\r' ∷ [])) in
      says-round body (callsign_at n w) (k, z, r, ne)
      ∙ rw (there, no_lone_cr body ne k, no_prompt, few) refl

  prompt-round :
      (body : Str) (n : ℕ) (w : List Str)
      → IsLine body
      → strcasestr (cr_line body) (codes "Callsign :") ≡ true
      → sgl_round md5 passwd usercall gwcall (says body) (callsign_at n w) ≡ record {
        sgl_state = sgl_challenge;
        running = true;
        loop_cnt = n;
        written = w ++ login_line md5 passwd usercall gwcall ∷ [];
      }
  unfolding sgl_switch callsign_round
  prompt-round body n w (k, z, r, ne) prompt =
      let login = login_line md5 passwd usercall gwcall in
      let there : leb_ℤ (pos (length (cr_line body))) (pos 0) ≡ false =
        ground (arith, length-append body (b'\r' ∷ [])) in
      let short : length login < 2 ^ 63 =
        omega (arith, length-take 1023 (usercall ++ (b' ' ∷ (gwcall ++ b'\r' ∷ [])))) in
      let all : ltb (length login) (length login) ≡ false = ground arith in
      let sent : expectsend (λ x. pos (length x)) login ≡ succeed =
        expectsend-pos (λ x. pos (length x)) login (length login) refl (omega arith) short
        ∙ rw all refl in
      says-round body (callsign_at n w) (k, z, r, ne)
      ∙ rw (there, no_lone_cr body ne k, prompt, sent) refl

  challenge-loop :
      (body : Str) (rounds : List Round) (n : ℕ) (w : List Str)
      → IsLine body
      → strcasestr (cr_line body) (codes ";SQ: ") ≡ true
      → let end =
          sgl_loop md5 passwd usercall gwcall
            (says body ∷ rounds)
            (record { sgl_state = sgl_challenge; running = true; loop_cnt = n; written = w }) in
        (end.running ≡ false)
        × (status end.sgl_state ≡ succeed)
        × (end.written
            ≡ w ++ response_line md5 passwd usercall gwcall (scan_challenge (cr_line body)) ∷ [])
  unfolding sgl_loop sgl_switch challenge_round status
  challenge-loop body rounds n w (k, z, r, ne) asks =
      let there : leb_ℤ (pos (length (cr_line body))) (pos 0) ≡ false =
        ground (arith, length-append body (b'\r' ∷ [])) in
      let answer = response_line md5 passwd usercall gwcall (scan_challenge (cr_line body)) in
      rw
        (
          says-round body
              (record { sgl_state = sgl_challenge; running = true; loop_cnt = n; written = w })
              (k, z, r, ne),
          there,
          no_lone_cr body ne k,
          asks,
        )
        (elim (Bool-cases (is_neg (expectsend (λ x. pos (length x)) answer))) [
          | inl e ↦ rw e (refl, refl, refl)
          | inr e ↦ rw e (refl, refl, refl)
        ])

  -- The rounds of the prompt and of the challenge, and all later ones.
  abbrev pub asking : Str → Str → List Round → List Round
  asking prompt code rounds = says prompt ∷ says (challenge_text code) ∷ rounds

  abbrev Answers : List Str → Str → Sgl → Type 0
  Answers w code end =
      (end.running ≡ false)
      × (status end.sgl_state ≡ succeed)
      × (end.written
          ≡ w
            ++ (login_line md5 passwd usercall gwcall
                ∷ response_line md5 passwd usercall gwcall code
                ∷ []))

  asking-loop :
      (prompt code : Str) (rounds : List Round) (n : ℕ) (w : List Str)
      → IsLine prompt
      → strcasestr (cr_line prompt) (codes "Callsign :") ≡ true
      → IsLine (challenge_text code)
      → IsCode code
      → Answers w code
          (sgl_loop md5 passwd usercall gwcall (asking prompt code rounds) (callsign_at n w))
  unfolding sgl_loop
  asking-loop prompt code rounds n w lp prompts lc c =
      let login = login_line md5 passwd usercall gwcall in
      let (over, s, h) =
        challenge-loop (challenge_text code) rounds n (w ++ login ∷ []) lc
          (asks-challenge_text code) in
      let answer : response_line md5 passwd usercall gwcall
            (scan_challenge (cr_line (challenge_text code)))
          ≡ response_line md5 passwd usercall gwcall code =
        ap (response_line md5 passwd usercall gwcall) (scan_challenge-text code c) in
      rw (prompt-round prompt n w lp prompts)
        (over, s, h ∙ append_assoc w (login ∷ []) _ ∙ ap (λ y. w ++ (login ∷ y ∷ [])) answer)

  others-loop :
      (others : List Str) (prompt code : Str) (rounds : List Round) (n : ℕ) (w : List Str)
      → n + length others ≤ 4
      → All IsOther others
      → IsLine prompt
      → strcasestr (cr_line prompt) (codes "Callsign :") ≡ true
      → IsLine (challenge_text code)
      → IsCode code
      → Answers (w ++ crs (length others)) code (
          sgl_loop md5 passwd usercall gwcall
            (says_all others (asking prompt code rounds))
            (callsign_at n w))
  unfolding sgl_loop
  others-loop [] prompt code rounds n w b hs lp prompts lc c =
      rw (append-nil w) (asking-loop prompt code rounds n w lp prompts lc c)
  others-loop (o ∷ others) prompt code rounds n w b (ho, hs) lp prompts lc c =
      let again =
        others-loop others prompt code rounds (n + 1) (w ++ crs 1) (omega arith) hs lp prompts lc
          c in
      rw (other-round o n w ho (omega arith), sym (append_assoc w (crs 1) (crs (length others))))
        again

  -- When the CMS, which takes whatever is written, sends at most four lines that are no prompt, then a
  -- prompt, and then a challenge of one to eight bytes that are no white space, each line with its
  -- carriage return and fitting the buffer, the login succeeds: one carriage return was sent for each
  -- of the first lines, then the two call signs, and then the response to that challenge.
  pub sgl_process-says_all :
      (others : List Str) (prompt code : Str) (rounds : List Round)
      → length others ≤ 4
      → All IsOther others
      → IsLine prompt
      → strcasestr (cr_line prompt) (codes "Callsign :") ≡ true
      → IsLine (challenge_text code)
      → IsCode code
      → ((sgl_process md5 passwd usercall gwcall (says_all others (asking prompt code rounds))).0
          ≡ some succeed)
        × ((sgl_process md5 passwd usercall gwcall (says_all others (asking prompt code rounds))).1
            ≡ crs (length others)
              ++ (login_line md5 passwd usercall gwcall
                  ∷ response_line md5 passwd usercall gwcall code
                  ∷ []))
  unfolding sgl_process
  sgl_process-says_all others prompt code rounds b hs lp prompts lc c =
      let (over, s, h) =
        others-loop others prompt code rounds 0 [] (omega arith) hs lp prompts lc c in
      (rw over (ap some s), h)
