-- ===== src/Session/Block.antt =====
-- What the status block (lib/statblock.c) says of a gateway when its process (rmsgw/rmsgw.c) has ended.
use rmsgw.Prelude.{
  ℕ, suc, ◌+◌, ◌≡◌, refl, ap, ◌∙◌, ◌≢◌, ◌⊎◌, inl, inr, true, false, Option, some, List, [], ◌∷◌,
  ◌++◌, append_assoc, arith, ltb, Bool-cases, length, All, Str, is_neg,
}
use rmsgw.Status.Block.{RmsStatus, RmsgwStat, GwState, gw_idle, gw_connecting}
use rmsgw.Status.Gateways.{GwOp, set_state, set_cms, gw_of, effect, run_op}
use rmsgw.Status.Gateways.Trace.{own_step}
use rmsgw.Session.Cms.{cms_session, connect_and_talk, is_missing, stopped, err_sess_connect}
use rmsgw.Channel.File.{password, ChanState}
use rmsgw.Channel.Search.{found}
use rmsgw.Session.Main.{Host, Exit, exits, is_sess_fatal, host_loop, failed_to_connect}
use rmsgw.Session.Outcome.{
  Returns, host_loop-session, host_loop-nil, after_session-skips, after_session-fatal,
  after_session-succeeds,
}

-- The operations of a process on the status block, under its call sign.
unfoldable pub run_ops : List GwOp → Str → RmsStatus → RmsStatus
run_ops [] call p = p
run_ops (op ∷ ops) call p = run_ops ops call (run_op op call p)

abbrev pub effects : List GwOp → RmsgwStat → RmsgwStat
effects [] g = g
effects (op ∷ ops) g = effects ops (effect op g)

pub effects-append :
    (a b : List GwOp) (g : RmsgwStat) → effects (a ++ b) g ≡ effects b (effects a g)
effects-append [] b g = refl
effects-append (op ∷ a) b g = effects-append a b (effect op g)

pub gw_of-run_ops :
    (ops : List GwOp) (call : Str) (p : RmsStatus) {g : RmsgwStat}
    → call ≢ []
    → gw_of p call ≡ some g
    → gw_of (run_ops ops call p) call ≡ some (effects ops g)
unfolding run_ops
gw_of-run_ops [] call p ne e = e
gw_of-run_ops (op ∷ ops) call p ne e =
    gw_of-run_ops ops call (run_op op call p) ne (own_step op call p ne e)

-- An entry whose last operation sets a state has that state.
state_last :
    (ops : List GwOp) (s : GwState) (call : Str) (p : RmsStatus) {g : RmsgwStat}
    → call ≢ []
    → gw_of p call ≡ some g
    → (h : RmsgwStat) × (gw_of (run_ops (ops ++ (set_state s ∷ [])) call p) call ≡ some h)
      × (h.gw_state ≡ s)
unfolding effect
state_last ops s call p {g = g} ne e = (
  effects (ops ++ (set_state s ∷ [])) g,
  gw_of-run_ops (ops ++ (set_state s ∷ [])) call p ne e,
  ap (λ (x : RmsgwStat). x.gw_state) (effects-append ops (set_state s ∷ []) g),
)

-- The exit status 1, or a last operation that sets the gateway idle.
abbrev Idled : Exit → Type 0
Idled e = (e.exit_status ≡ 1) ⊎ ((ops : List GwOp) × (e.ops ≡ ops ++ (set_state gw_idle ∷ [])))

host_loop-Idled :
    (port : Option Str) (hosts : List Host) (ops : List GwOp) (tries : ℕ)
    → All (Returns port) hosts
    → (e : Exit) × (host_loop port hosts ops tries ≡ some e) × Idled e
host_loop-Idled port [] ops tries h = (_, host_loop-nil port ops tries, inl refl)
host_loop-Idled port (h ∷ hosts) ops tries ((s, session), hs) =
    let now = ops ++ (set_cms (some h.cmsp.cms_host) ∷ s.ops) in
    let later = host_loop port hosts now (tries + 1) in
    let first = host_loop-session port h hosts ops tries session in
    elim (Bool-cases (is_neg s.rc)) [
      | inr good ↦ (_, first ∙ after_session-succeeds s now (tries + 1) later good, inr (now, refl))
      | inl bad ↦ elim (Bool-cases (is_sess_fatal s.rc)) [
        | inl fatal ↦
            (_, first ∙ after_session-fatal s now (tries + 1) later bad fatal, inr (now, refl))
        | inr other ↦
            let (e, run, idled) = host_loop-Idled port hosts now (tries + 1) hs in
            (e, first ∙ after_session-skips s now (tries + 1) later bad other ∙ run, idled)
      ]
    ]

-- When the gateway has an entry in the status block and the sessions with its hosts return, the loop over
-- them ends, and if its exit status is not 1, then the entry says at the end that it is idle.
pub host_loop_idle :
    (port : Option Str) (hosts : List Host) (ops : List GwOp) (call : Str) (p : RmsStatus)
    {g : RmsgwStat}
    → All (Returns port) hosts
    → call ≢ []
    → gw_of p call ≡ some g
    → (e : Exit) × (host_loop port hosts ops 0 ≡ some e)
      × ((e.exit_status ≡ 1)
          ⊎ ((h : RmsgwStat) × (gw_of (run_ops e.ops call p) call ≡ some h)
              × (h.gw_state ≡ gw_idle)))
host_loop_idle port hosts ops call p hs ne had =
    let (e, run, idled) = host_loop-Idled port hosts ops 0 hs in
    (
      e,
      run,
      elim idled [
        | inl one ↦ inl one
        | inr (before, last) ↦ inr (rw last (state_last before gw_idle call p ne had))
      ],
    )

-- A host whose channel is found and has a password, and which does not accept the connection.
pub record Refuses (h : Host) : Type 0 where
  pub state : ChanState
  pub channel : h.attempt.lookup ≡ found state
  pub password_there : is_missing (state.curent.ch_field password) ≡ false
  pub no_socket : is_neg h.attempt.cms_sock ≡ true

-- Such a session sets the state to connecting and nothing more.
cms_session-Refuses :
    (port : Option Str) (h : Host)
    → is_missing port ≡ false
    → Refuses h
    → cms_session port h.attempt ≡ some (stopped err_sess_connect (set_state gw_connecting ∷ []) [])
unfolding cms_session connect_and_talk
cms_session-Refuses port h there r = rw (there, r.channel, r.password_there, r.no_socket) refl

host_loop-Refuses :
    (port : Option Str) (h : Host) (hosts : List Host) (ops : List GwOp) (tries : ℕ)
    → is_missing port ≡ false
    → All Refuses (h ∷ hosts)
    → (before : List GwOp) × (host_loop port (h ∷ hosts) ops tries
        ≡ some (
            exits 1
              (before ++ (set_state gw_connecting ∷ []))
              (tries + suc (length hosts))
              (some (failed_to_connect (tries + suc (length hosts))))))
unfolding is_sess_fatal
host_loop-Refuses port h [] ops tries there (r, hs) = (
  ops ++ (set_cms (some h.cmsp.cms_host) ∷ []),
  host_loop-session port h [] ops tries (cms_session-Refuses port h there r)
      ∙ after_session-skips _ _ (tries + 1) _ refl refl
      ∙ host_loop-nil port (ops ++ (set_cms (some h.cmsp.cms_host) ∷ set_state gw_connecting ∷ []))
          (tries + 1)
      ∙ (let few : ltb (tries + 1) 1 ≡ false = ground arith in
          rw
            (
              few,
              append_assoc ops (set_cms (some h.cmsp.cms_host) ∷ []) (set_state gw_connecting ∷ []),
            )
            refl),
)
host_loop-Refuses port h (k ∷ hosts) ops tries there (r, hs) =
    let now = ops ++ (set_cms (some h.cmsp.cms_host) ∷ set_state gw_connecting ∷ []) in
    let (before, run) = host_loop-Refuses port k hosts now (tries + 1) there hs in
    let count : tries + 1 + suc (length hosts) ≡ tries + suc (suc (length hosts)) = omega arith in
    (
      before,
      host_loop-session port h (k ∷ hosts) ops tries (cms_session-Refuses port h there r)
          ∙ after_session-skips _ _ (tries + 1) _ refl refl
          ∙ rw count at run,
    )

-- When the port is given, there is one host at least, each host's channel is found and has a password,
-- and no host accepts the connection, the process complains of the number of hosts tried and exits
-- with 1, and the gateway's entry in the status block is left in the state of connecting: it does
-- not become idle.
pub host_loop_refused :
    (port : Option Str) (h : Host) (hosts : List Host) (ops : List GwOp) (call : Str)
    (p : RmsStatus) {g : RmsgwStat}
    → is_missing port ≡ false
    → All Refuses (h ∷ hosts)
    → call ≢ []
    → gw_of p call ≡ some g
    → (e : Exit) × (host_loop port (h ∷ hosts) ops 0 ≡ some e)
      × (e.exit_status ≡ 1)
      × (e.complaint ≡ some (failed_to_connect (suc (length hosts))))
      × ((g' : RmsgwStat) × (gw_of (run_ops e.ops call p) call ≡ some g')
          × (g'.gw_state ≡ gw_connecting))
host_loop_refused port h hosts ops call p there hs ne had =
    let (before, run) = host_loop-Refuses port h hosts ops 0 there hs in
    (
      _,
      run,
      refl,
      ap (λ n. some (failed_to_connect n)) (omega arith),
      state_last before gw_connecting call p ne had,
    )
