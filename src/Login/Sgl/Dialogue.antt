-- ===== src/Login/Sgl/Dialogue.antt =====
-- What the secure gateway login (lib/cmslogin.c) writes to the CMS, and what it returns.
use rmsgw.Prelude.{
  ℕ, suc, ◌+◌, ◌≤◌, ◌≡◌, refl, sym, ◌∙◌, ◌⊎◌, inl, inr, Bool, true, false, not, ◌&&◌, if◌then◌else◌,
  none, some, List, [], ◌∷◌, ◌++◌, append-nil, append_assoc, arith, ltb, Bool-cases, replicate, Str,
  codes, streq, c_str, ℤ, pos, leb_ℤ, is_neg, is_zero,
}
use rmsgw.Login.Readln.{readln}
use rmsgw.Login.Sgl.{
  SglState, sgl_callsign, sgl_callsignfail, sgl_challenge, sgl_challengefail, sgl_responsesent,
  sgl_logincomplete, Round, Sgl, succeed, fail, expectsend, strcasestr, scan_challenge, login_line,
  response_line, callsign_round, challenge_round, sgl_switch, sgl_round, sgl_loop, status,
  sgl_process,
}

-- The CMS sends a lone carriage return in the round.
abbrev pub is_lone : ℤ → Str → Bool
is_lone n_read rbuf = not (leb_ℤ n_read (pos 0)) && streq rbuf (codes "\r")

-- The rounds in which it does not: it sends something else, closes the connection, or the read fails.
abbrev pub busy : List Round → ℕ
busy [] = 0
busy (r ∷ rounds) =
    let line = readln 1024 b'\r' r.reads in
    if is_lone line.count (c_str line.buf) then busy rounds else suc (busy rounds)

pub busy-lone :
    (r : Round) (rounds : List Round)
    → let line = readln 1024 b'\r' r.reads in
      is_lone line.count (c_str line.buf) ≡ true → busy (r ∷ rounds) ≡ busy rounds
busy-lone r rounds e = rw e refl

pub busy-le : (r : Round) (rounds : List Round) → busy (r ∷ rounds) ≤ suc (busy rounds)
busy-le r rounds =
    let line = readln 1024 b'\r' r.reads in
    elim (Bool-cases (is_lone line.count (c_str line.buf))) [
      | inl e ↦ rw e (omega arith)
      | inr e ↦ rw e (omega arith)
    ]

abbrev pub crs : ℕ → List Str
crs k = replicate k (b'\r' ∷ [])

module _ (md5 : Str → Str) (passwd usercall gwcall : Str) where
  abbrev challenge_state : ℕ → List Str → Sgl
  challenge_state n w = record {
    sgl_state = sgl_challenge;
    running = true;
    loop_cnt = n;
    written = w;
  }

  abbrev callsign_state : ℕ → List Str → Sgl
  callsign_state n w = record {
    sgl_state = sgl_callsign;
    running = true;
    loop_cnt = n;
    written = w;
  }

  abbrev over : SglState → ℕ → List Str → Sgl
  over st n w = record { sgl_state = st; running = false; loop_cnt = n; written = w }

  challenge_round-cases :
      (n_read : ℤ) (rbuf : Str) (wrote : Str → ℤ) (n : ℕ) (w : List Str)
      → let next =
          challenge_round md5 passwd usercall gwcall n_read rbuf wrote (challenge_state n w) in
        ((next ≡ challenge_state n w) × (is_lone n_read rbuf ≡ true))
        ⊎ ((next ≡ over sgl_challengefail n w)
            ⊎ ((c : Str) × ((next
                    ≡ over sgl_logincomplete n
                        (w ++ response_line md5 passwd usercall gwcall c ∷ []))
                  ⊎ (next
                      ≡ over sgl_responsesent n
                          (w ++ response_line md5 passwd usercall gwcall c ∷ [])))))
  unfolding challenge_round
  challenge_round-cases n_read rbuf wrote n w = elim (Bool-cases (leb_ℤ n_read (pos 0))) [
    | inl e0 ↦ rw e0 (inr (inl refl))
    | inr e0 ↦ elim (Bool-cases (streq rbuf (codes "\r"))) [
      | inl e1 ↦ rw (e0, e1) (inl (refl, refl))
      | inr e1 ↦ elim (Bool-cases (strcasestr rbuf (codes ";SQ: "))) [
        | inl e2 ↦
            elim (Bool-cases (
              is_neg (
                expectsend wrote
                  (response_line md5 passwd usercall gwcall (scan_challenge rbuf))))) [
                    | inl e3 ↦ rw (e0, e1, e2, e3) (inr (inr (scan_challenge rbuf, inl refl)))
                    | inr e3 ↦ rw (e0, e1, e2, e3) (inr (inr (scan_challenge rbuf, inr refl)))
                  ]
        | inr e2 ↦ rw (e0, e1, e2) (inr (inl refl))
      ]
    ]
  ]

  -- The end of a run that is in the second phase, `w` written.
  abbrev Answered : List Str → Sgl → Type 0
  Answered w end =
      (end.running ≡ false)
      × (((status end.sgl_state ≡ fail) × (end.written ≡ w))
          ⊎ ((c : Str) × (status end.sgl_state ≡ succeed)
              × (end.written ≡ w ++ response_line md5 passwd usercall gwcall c ∷ [])))

  challenge_loop :
      (rounds : List Round) (n : ℕ) (w : List Str)
      → 1 ≤ busy rounds
      → Answered w (sgl_loop md5 passwd usercall gwcall rounds (challenge_state n w))
  unfolding sgl_loop sgl_round sgl_switch status
  challenge_loop [] n w b = absurd (omega arith)
  challenge_loop (r ∷ rounds) n w b =
      let line = readln 1024 b'\r' r.reads in
      elim (challenge_round-cases line.count (c_str line.buf) r.wrote n w) [
        | inl (e, lone) ↦
            rw e (challenge_loop rounds n w (omega (arith, b, busy-lone r rounds lone)))
        | inr (inl e) ↦ rw e (refl, inl (refl, refl))
        | inr (inr (c, inl e)) ↦ rw e (refl, inr (c, refl, refl))
        | inr (inr (c, inr e)) ↦ rw e (refl, inr (c, refl, refl))
      ]

  callsign_round-cases :
      (n_read : ℤ) (rbuf : Str) (wrote : Str → ℤ) (n : ℕ) (w : List Str)
      → let next =
          callsign_round md5 passwd usercall gwcall n_read rbuf wrote (callsign_state n w) in
        let login = login_line md5 passwd usercall gwcall in
        ((next ≡ callsign_state n w) × (is_lone n_read rbuf ≡ true))
        ⊎ ((next ≡ challenge_state n (w ++ login ∷ []))
            ⊎ (((m : ℕ) × ((next ≡ over sgl_callsignfail m w)
                    ⊎ (next ≡ over sgl_callsignfail m (w ++ login ∷ []))))
                ⊎ ((n ≤ 3)
                    × ((next ≡ over sgl_callsignfail (n + 1) (w ++ crs 1))
                        ⊎ (next ≡ callsign_state (n + 1) (w ++ crs 1))))))
  unfolding callsign_round
  callsign_round-cases n_read rbuf wrote n w = elim (Bool-cases (leb_ℤ n_read (pos 0))) [
    | inl e0 ↦ rw e0 (inr (inr (inl (n, inl refl))))
    | inr e0 ↦ elim (Bool-cases (streq rbuf (codes "\r"))) [
      | inl e1 ↦ rw (e0, e1) (inl (refl, refl))
      | inr e1 ↦ elim (Bool-cases (strcasestr rbuf (codes "Callsign :"))) [
        | inl e2 ↦
            elim (Bool-cases (is_zero (expectsend wrote (login_line md5 passwd usercall gwcall)))) [
              | inl e3 ↦ rw (e0, e1, e2, e3) (inr (inl refl))
              | inr e3 ↦ rw (e0, e1, e2, e3) (inr (inr (inl (n, inr refl))))
            ]
        | inr e2 ↦ elim (Bool-cases (ltb 3 n)) [
          | inl e3 ↦ rw (e0, e1, e2, e3) (inr (inr (inl (n + 1, inl refl))))
          | inr e3 ↦ elim (Bool-cases (is_neg (expectsend wrote (codes "\r")))) [
            | inl e4 ↦ rw (e0, e1, e2, e3, e4) (inr (inr (inr (ground arith, inl refl))))
            | inr e4 ↦ rw (e0, e1, e2, e3, e4) (inr (inr (inr (ground arith, inr refl))))
          ]
        ]
      ]
    ]
  ]

  -- The end of a run in the first phase, after `n` lines that are no prompt, `w` written.
  abbrev pub Dialogue : ℕ → List Str → ℤ → List Str → Type 0
  Dialogue n w rc written =
      let login = login_line md5 passwd usercall gwcall in
      (k : ℕ) × (n + k ≤ 4)
      × (((rc ≡ fail) × (written ≡ w ++ crs k))
          ⊎ (((rc ≡ fail) × (written ≡ w ++ (crs k ++ login ∷ [])))
              ⊎ ((c : Str) × (rc ≡ succeed)
                  × (written
                      ≡ w ++ (crs k ++ login ∷ response_line md5 passwd usercall gwcall c ∷ [])))))

  abbrev Ended : ℕ → List Str → Sgl → Type 0
  Ended n w end = (end.running ≡ false) × Dialogue n w (status end.sgl_state) end.written

  once_more :
      (n : ℕ) (w : List Str) (rc : ℤ) (written : List Str)
      → Dialogue (n + 1) (w ++ crs 1) rc written
      → Dialogue n w rc written
  once_more n w rc written (k, b, inl (e, h)) =
      (suc k, omega arith, inl (e, h ∙ append_assoc w (crs 1) (crs k)))
  once_more n w rc written (k, b, inr (inl (e, h))) =
      (suc k, omega arith, inr (inl (e, h ∙ append_assoc w (crs 1) _)))
  once_more n w rc written (k, b, inr (inr (c, e, h))) =
      (suc k, omega arith, inr (inr (c, e, h ∙ append_assoc w (crs 1) _)))

  Answered-Dialogue :
      (n : ℕ) (w : List Str) (end : Sgl)
      → n ≤ 4
      → Answered (w ++ login_line md5 passwd usercall gwcall ∷ []) end
      → Ended n w end
  Answered-Dialogue n w end b (r, inl (e, h)) = (r, (0, omega arith, inr (inl (e, h))))
  Answered-Dialogue n w end b (r, inr (c, e, h)) = (
    r,
    (
      0,
      omega arith,
      inr (inr (c, e, h ∙ append_assoc w (login_line md5 passwd usercall gwcall ∷ []) _)),
    ),
  )

  callsign_loop :
      (rounds : List Round) (n : ℕ) (w : List Str)
      → n ≤ 4
      → 6 ≤ busy rounds + n
      → Ended n w (sgl_loop md5 passwd usercall gwcall rounds (callsign_state n w))
  unfolding sgl_loop sgl_round sgl_switch status
  callsign_loop [] n w b many = absurd (omega arith)
  callsign_loop (r ∷ rounds) n w b many =
      let line = readln 1024 b'\r' r.reads in
      let login = login_line md5 passwd usercall gwcall in
      let left : 6 ≤ suc (busy rounds) + n = omega (arith, many, busy-le r rounds) in
      elim (callsign_round-cases line.count (c_str line.buf) r.wrote n w) [
        | inl (e, lone) ↦
            rw e (callsign_loop rounds n w b (omega (arith, many, busy-lone r rounds lone)))
        | inr (inl e) ↦ rw e (
            Answered-Dialogue n w
              (sgl_loop md5 passwd usercall gwcall rounds (challenge_state n (w ++ login ∷ []))) b
              (challenge_loop rounds n (w ++ login ∷ []) (omega (arith, left, b))))
        | inr (inr (inl (m, inl e))) ↦ rw e (refl, (0, omega arith, inl (refl, sym (append-nil w))))
        | inr (inr (inl (m, inr e))) ↦ rw e (refl, (0, omega arith, inr (inl (refl, refl))))
        | inr (inr (inr (h, inl e))) ↦ rw e (refl, (1, omega arith, inl (refl, refl)))
        | inr (inr (inr (h, inr e))) ↦
            let (over_now, d) =
              callsign_loop rounds (n + 1) (w ++ crs 1) (omega (arith, h)) (omega (arith, left)) in
            rw e (over_now, once_more n w _ _ d)
      ]

  lone_loop :
      (rounds : List Round)
      → busy rounds ≡ 0
      → sgl_loop md5 passwd usercall gwcall rounds (callsign_state 0 []) ≡ callsign_state 0 []
  unfolding sgl_loop sgl_round sgl_switch callsign_round
  lone_loop [] h = refl
  lone_loop (r ∷ rounds) h =
      let line = readln 1024 b'\r' r.reads in
      elim (Bool-cases (leb_ℤ line.count (pos 0))) [
        | inl e0 ↦ absurd (let k : suc (busy rounds) ≡ 0 = rw e0 at h in omega (arith, k))
        | inr e0 ↦ elim (Bool-cases (streq (c_str line.buf) (codes "\r"))) [
          | inl e1 ↦ rw (e0, e1) (lone_loop rounds (rw (e0, e1) at h))
          | inr e1 ↦ absurd (let k : suc (busy rounds) ≡ 0 = rw (e0, e1) at h in omega (arith, k))
        ]
      ]

  -- When at least six rounds bring something else than a lone carriage return, be it a line, the end of
  -- the connection or an error, the login at the CMS ends, whatever `write` returns. What it gives to
  -- `write` are at most four carriage returns, then, when it fails, nothing or the line with the two
  -- call signs, and when it succeeds that line and the response to one challenge.
  pub sgl_process_lem :
      (rounds : List Round)
      → 6 ≤ busy rounds
      → (rc : ℤ) × (written : List Str) × (sgl_process md5 passwd usercall gwcall rounds
          ≡ (some rc, written))
        × Dialogue 0 [] rc written
  unfolding sgl_process
  sgl_process_lem rounds many =
      let end = sgl_loop md5 passwd usercall gwcall rounds (callsign_state 0 []) in
      let (stopped, d) = callsign_loop rounds 0 [] (omega arith) (omega arith) in
      (status end.sgl_state, end.written, rw stopped refl, d)

  -- As long as nothing but lone carriage returns comes, the login goes on and writes nothing: neither
  -- a counter nor a timeout ends it.
  sgl_process-lone :
      (rounds : List Round)
      → busy rounds ≡ 0
      → sgl_process md5 passwd usercall gwcall rounds ≡ (none, [])
  unfolding sgl_process
  sgl_process-lone rounds h = rw (lone_loop rounds h) refl
