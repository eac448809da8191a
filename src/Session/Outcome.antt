-- ===== src/Session/Outcome.antt =====
-- Which hosts a run of rmsgw/rmsgw.c tries, how it exits, and what the status block has then.
use rmsgw.Prelude.{
  ℕ, ◌+◌, ◌≡◌, refl, ap, ◌∙◌, ◌⊎◌, inl, inr, Bool, true, false, not, ◌&&◌, Option, none, some, List,
  [], ◌∷◌, ◌++◌, arith, ltb, if◌then◌else◌, Bool-cases, length, All, Str, ℤ, is_neg,
}
use rmsgw.Status.Block.{gw_idle}
use rmsgw.Status.Gateways.{GwOp, set_state, set_cms}
use rmsgw.Session.Cms.{Session, cms_session}
use rmsgw.Session.Main.{
  Host, Exit, exits, is_sess_fatal, after_session, host_loop, invalid_host_table, failed_to_connect,
}

-- The session with a host ends with a result of which the test holds.
abbrev pub Ends : (ℤ → Bool) → Option Str → Host → Type 0
Ends test port h = (s : Session) × (cms_session port h.attempt ≡ some s) × (test s.rc ≡ true)

abbrev pub succeeds : ℤ → Bool
succeeds rc = not (is_neg rc)

abbrev pub skips : ℤ → Bool
skips rc = is_neg rc && not (is_sess_fatal rc)

-- The sessions end one way or another.
abbrev pub Returns : Option Str → Host → Type 0
Returns port h = (s : Session) × (cms_session port h.attempt ≡ some s)

-- All hosts were skipped, or the hosts before one were, and this one succeeded or ended it all.
abbrev pub Outcome : Option Str → List Host → ℕ → Exit → Type 0
Outcome port hosts before e =
    (All (Ends skips port) hosts × (e.exit_status ≡ 1) × (e.host_tries ≡ before + length hosts))
    ⊎ ((pre : List Host) × (h : Host) × (post : List Host) × (hosts ≡ pre ++ (h ∷ post))
        × All (Ends skips port) pre
        × ((Ends succeeds port h × (e.exit_status ≡ 0))
            ⊎ (Ends is_sess_fatal port h × (e.exit_status ≡ 99)))
        × (e.host_tries ≡ before + length pre + 1))

Outcome-later :
    (port : Option Str) (h : Host) (hosts : List Host) (before : ℕ) (e : Exit)
    → Ends skips port h
    → Outcome port hosts (before + 1) e
    → Outcome port (h ∷ hosts) before e
Outcome-later port h hosts before e skip (inl (skipped, status, tries)) =
    inl ((skip, skipped), status, omega (arith, tries))
Outcome-later port h hosts before e skip (inr (pre, k, post, split, skipped, way, tries)) =
    inr (h ∷ pre, k, post, ap (λ l. h ∷ l) split, (skip, skipped), way, omega (arith, tries))

pub host_loop-session :
    (port : Option Str) (h : Host) (hosts : List Host) (ops : List GwOp) (before : ℕ) {s : Session}
    → cms_session port h.attempt ≡ some s
    → host_loop port (h ∷ hosts) ops before
      ≡ after_session s
          (ops ++ (set_cms (some h.cmsp.cms_host) ∷ s.ops))
          (before + 1)
          (host_loop port hosts (ops ++ (set_cms (some h.cmsp.cms_host) ∷ s.ops)) (before + 1))
unfolding host_loop after_session
host_loop-session port h hosts ops before e = rw (e, host_loop) refl

pub after_session-succeeds :
    (s : Session) (ops : List GwOp) (tries : ℕ) (next : Option Exit)
    → is_neg s.rc ≡ false
    → after_session s ops tries next ≡ some (exits 0 (ops ++ (set_state gw_idle ∷ [])) tries none)
unfolding after_session
after_session-succeeds s ops tries next e = rw e refl

pub after_session-fatal :
    (s : Session) (ops : List GwOp) (tries : ℕ) (next : Option Exit)
    → is_neg s.rc ≡ true
    → is_sess_fatal s.rc ≡ true
    → after_session s ops tries next ≡ some (exits 99 (ops ++ (set_state gw_idle ∷ [])) tries none)
unfolding after_session
after_session-fatal s ops tries next e f = rw (e, f) refl

pub after_session-skips :
    (s : Session) (ops : List GwOp) (tries : ℕ) (next : Option Exit)
    → is_neg s.rc ≡ true
    → is_sess_fatal s.rc ≡ false
    → after_session s ops tries next ≡ next
unfolding after_session
after_session-skips s ops tries next e f = rw (e, f) refl

pub host_loop-nil :
    (port : Option Str) (ops : List GwOp) (tries : ℕ)
    → host_loop port [] ops tries
      ≡ some (
          exits 1 ops tries
            (some (if ltb tries 1 then invalid_host_table else failed_to_connect tries)))
unfolding host_loop
host_loop-nil port ops tries = refl

host_loop-Outcome :
    (port : Option Str) (hosts : List Host) (ops : List GwOp) (before : ℕ)
    → All (Returns port) hosts
    → (e : Exit) × (host_loop port hosts ops before ≡ some e) × Outcome port hosts before e
host_loop-Outcome port [] ops before h =
    (_, host_loop-nil port ops before, inl (tt, refl, omega arith))
host_loop-Outcome port (h ∷ hosts) ops before ((s, session), hs) =
    let now = ops ++ (set_cms (some h.cmsp.cms_host) ∷ s.ops) in
    let later = host_loop port hosts now (before + 1) in
    let first = host_loop-session port h hosts ops before session in
    elim (Bool-cases (is_neg s.rc)) [
      | inr good ↦ (
        _,
        first ∙ after_session-succeeds s now (before + 1) later good,
        inr ([], h, hosts, refl, tt, inl ((s, session, ap not good), refl), omega arith),
      )
      | inl bad ↦ elim (Bool-cases (is_sess_fatal s.rc)) [
        | inl fatal ↦ (
          _,
          first ∙ after_session-fatal s now (before + 1) later bad fatal,
          inr ([], h, hosts, refl, tt, inr ((s, session, fatal), refl), omega arith),
        )
        | inr other ↦
            let (e, run, outcome) = host_loop-Outcome port hosts now (before + 1) hs in
            (
              e,
              first ∙ after_session-skips s now (before + 1) later bad other ∙ run,
              Outcome-later port h hosts before e (s, session, ground arith) outcome,
            )
      ]
    ]

-- When the sessions with the hosts of the list return, so does the loop over them, and the hosts are tried in
-- their order: either all of them are skipped, and the exit status is 1; or the hosts before one
-- are skipped, and this one's session succeeds, with exit status 0, or cannot be started at any
-- host, with 99, and the hosts behind it are not tried. The number of tries counts those hosts.
pub host_loop_lem :
    (port : Option Str) (hosts : List Host) (ops : List GwOp)
    → All (Returns port) hosts
    → (e : Exit) × (host_loop port hosts ops 0 ≡ some e) × Outcome port hosts 0 e
host_loop_lem port hosts ops h = host_loop-Outcome port hosts ops 0 h
