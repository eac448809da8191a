-- ===== src/Login/Sgl/Unasked.antt =====
-- The secure gateway login (lib/cmslogin.c) at a CMS that does not ask for the call signs.
use rmsgw.Prelude.{
  ℕ, ◌+◌, ◌≤◌, ◌≡◌, refl, inl, inr, true, false, some, List, [], ◌∷◌, ◌++◌, arith, ltb, Bool-cases,
  All, Str, codes, streq, c_str, pos, leb_ℤ, is_neg,
}
use rmsgw.Login.Readln.{readln}
use rmsgw.Login.Sgl.{
  sgl_callsign, sgl_callsignfail, Round, Sgl, fail, expectsend, strcasestr, callsign_round,
  sgl_switch, sgl_round, sgl_loop, status, sgl_process,
}
use rmsgw.Login.Sgl.Dialogue.{crs, busy, busy-lone, busy-le}

-- The line that is read in the round, if any, has no prompt in it.
abbrev pub NoPrompt : Round → Type 0
NoPrompt r = strcasestr (c_str (readln 1024 b'\r' r.reads).buf) (codes "Callsign :") ≡ false

module _ (md5 : Str → Str) (passwd usercall gwcall : Str) where
  abbrev asked_at : ℕ → List Str → Sgl
  asked_at n w = record { sgl_state = sgl_callsign; running = true; loop_cnt = n; written = w }

  unasked_loop :
      (rounds : List Round) (n : ℕ) (w : List Str)
      → All NoPrompt rounds
      → n ≤ 4
      → 5 ≤ busy rounds + n
      → let end = sgl_loop md5 passwd usercall gwcall rounds (asked_at n w) in
        (end.running ≡ false) × (end.sgl_state ≡ sgl_callsignfail)
  unfolding sgl_loop sgl_round sgl_switch callsign_round
  unasked_loop [] n w h b many = absurd (omega arith)
  unasked_loop (r ∷ rounds) n w (h, hs) b many =
      let line = readln 1024 b'\r' r.reads in
      let rbuf = c_str line.buf in
      elim (Bool-cases (leb_ℤ line.count (pos 0))) [
        | inl e0 ↦ rw e0 (refl, refl)
        | inr e0 ↦ elim (Bool-cases (streq rbuf (codes "\r"))) [
          | inl e1 ↦
              let lone : busy (r ∷ rounds) ≡ busy rounds = busy-lone r rounds (rw (e0, e1) refl) in
              rw (e0, e1) (unasked_loop rounds n w hs b (omega (arith, many, lone)))
          | inr e1 ↦ elim (Bool-cases (ltb 3 n)) [
            | inl e2 ↦ rw (e0, e1, h, e2) (refl, refl)
            | inr e2 ↦ elim (Bool-cases (is_neg (expectsend r.wrote (codes "\r")))) [
              | inl e3 ↦ rw (e0, e1, h, e2, e3) (refl, refl)
              | inr e3 ↦
                  let few : n + 1 ≤ 4 = ground arith in
                  rw (e0, e1, h, e2, e3)
                    (unasked_loop rounds (n + 1) (w ++ crs 1) hs few
                      (omega (arith, many, busy-le r rounds)))
            ]
          ]
        ]
      ]

  -- When no line has the prompt in it, and at least five rounds bring something else than a lone carriage
  -- return, the login fails.
  pub sgl_process-NoPrompt :
      (rounds : List Round)
      → All NoPrompt rounds
      → 5 ≤ busy rounds
      → (sgl_process md5 passwd usercall gwcall rounds).0 ≡ some fail
  unfolding sgl_process status
  sgl_process-NoPrompt rounds h many =
      let (stopped, state) = unasked_loop rounds 0 [] h (omega arith) (omega arith) in
      rw (stopped, state) refl
