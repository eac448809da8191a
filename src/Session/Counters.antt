-- ===== src/Session/Counters.antt =====
-- What a session (rmsgw/session.c) with a conversation (rmsgw/gateway.c) leaves in the gateway's entry of
-- the status block (lib/statblock.c).
use rmsgw.Prelude.{
  ℕ, ◌+◌, ◌%◌, ◌^◌, ◌≡◌, refl, sym, ap, ◌∙◌, ◌≢◌, false, some, List, [], ◌∷◌, ◌++◌, arith, All, Str,
  ℤ, pos, is_neg,
}
use rmsgw.Status.Block.{RmsStatus, RmsgwStat, u64_mod, gw_connecting, gw_connected, gw_disconnected}
use rmsgw.Status.Gateways.{
  GwOp, set_state, set_pid, set_usercall, set_cms, incr_connects, add_bytes_in, add_bytes_out,
  gw_of, effect,
}
use rmsgw.Gateway.Conversation.{Conv, returned, Turn, gateway}
use rmsgw.Gateway.States.{IsState, Kept, gateway-Kept}
use mathlib.Core.Path.{subst}
use rmsgw.Session.Cms.{check_result, onto, in_order, closing}
use rmsgw.Session.Block.{run_ops, effects, effects-append, gw_of-run_ops}

All-onto :
    (latest ops : List GwOp) → All IsState latest → All IsState ops → All IsState (onto latest ops)
All-onto [] ops h k = k
All-onto (op ∷ latest) ops (h, hs) k = All-onto latest (op ∷ ops) hs (h, k)

-- The fields that setting a state leaves alone.
abbrev Alike : RmsgwStat → RmsgwStat → Type 0
Alike g h =
    (h.gw_bytes_in ≡ g.gw_bytes_in)
    × (h.gw_bytes_out ≡ g.gw_bytes_out)
    × (h.gw_gwcall ≡ g.gw_gwcall)
    × (h.gw_client ≡ g.gw_client)
    × (h.gw_cms ≡ g.gw_cms)
    × (h.gw_connects ≡ g.gw_connects)

effects-Alike : (ops : List GwOp) (g : RmsgwStat) → All IsState ops → Alike g (effects ops g)
unfolding effect
effects-Alike [] g h = (refl, refl, refl, refl, refl, refl)
effects-Alike (set_state s ∷ ops) g (h, hs) = effects-Alike ops (record g { gw_state = s }) hs
effects-Alike (set_pid pid ∷ ops) g (h, hs) = absurd (omega arith)
effects-Alike (set_usercall call ∷ ops) g (h, hs) = absurd (omega arith)
effects-Alike (set_cms host ∷ ops) g (h, hs) = absurd (omega arith)
effects-Alike (incr_connects ∷ ops) g (h, hs) = absurd (omega arith)
effects-Alike (add_bytes_in count ∷ ops) g (h, hs) = absurd (omega arith)
effects-Alike (add_bytes_out count ∷ ops) g (h, hs) = absurd (omega arith)

abbrev before : Conv → List GwOp
before c = set_state gw_connecting ∷ set_state gw_connected ∷ in_order c.ops

abbrev counted : Conv → List GwOp
counted c = add_bytes_out (pos c.bytes_sent) ∷ add_bytes_in (pos c.bytes_recv) ∷ closing

check_result-ops :
    (c : Conv)
    → is_neg c.errcode ≡ false
    → ((check_result c).rc ≡ pos 0) × ((check_result c).ops ≡ before c ++ counted c)
unfolding check_result
check_result-ops c ok = rw ok (refl, refl)

-- The entry after the counting, over one that is like the old one.
abbrev pub Settled : RmsgwStat → Conv → RmsgwStat → Type 0
Settled g c h =
    (h.gw_bytes_out ≡ (g.gw_bytes_out + c.bytes_sent % 2 ^ 64) % u64_mod)
    × (h.gw_bytes_in ≡ (g.gw_bytes_in + c.bytes_recv % 2 ^ 64) % u64_mod)
    × (h.gw_state ≡ gw_disconnected)
    × (h.gw_gwcall ≡ g.gw_gwcall)
    × (h.gw_client ≡ g.gw_client)
    × (h.gw_cms ≡ g.gw_cms)
    × (h.gw_connects ≡ g.gw_connects)

effects-Settled : (c : Conv) (g k : RmsgwStat) → Alike g k → Settled g c (effects (counted c) k)
unfolding effect
effects-Settled c g k (i, o, n, u, m, t) = (
  ap (λ x. (x + c.bytes_sent % 2 ^ 64) % u64_mod) o,
  ap (λ x. (x + c.bytes_recv % 2 ^ 64) % u64_mod) i,
  refl,
  n,
  u,
  m,
  t,
)

-- When the conversation returns with a status that is not negative, and the gateway has an entry in the status
-- block, then the session is successful, and the operations from its connection on leave an entry
-- whose counters have grown by the bytes that the conversation counted, modulo 2 ^ 64, whose state is
-- disconnected and whose call signs, host and number of connects are as before.
pub check_result_lem :
    (paclen u2 u1 : ℕ) (login socket_mode ax25_mode : ℤ) (turns : List Turn) (static_buf : Str)
    (call : Str) (p : RmsStatus) (c : Conv) {g : RmsgwStat}
    → gateway paclen u2 u1 login socket_mode ax25_mode turns static_buf ≡ returned c
    → is_neg c.errcode ≡ false
    → call ≢ []
    → gw_of p call ≡ some g
    → ((check_result c).rc ≡ pos 0)
      × ((h : RmsgwStat) × (gw_of (run_ops (check_result c).ops call p) call ≡ some h)
          × Settled g c h)
check_result_lem paclen u2 u1 login socket_mode ax25_mode turns static_buf call p c {g = g} e ok ne
      had =
    let kept =
      subst Kept e (gateway-Kept paclen u2 u1 login socket_mode ax25_mode turns static_buf) in
    let (rc, ops) = check_result-ops c ok in
    let alike = effects-Alike (before c) g (tt, (tt, All-onto c.ops [] kept tt)) in
    let settled = effects-Settled c g (effects (before c) g) alike in
    (
      rc,
      (
        effects (check_result c).ops g,
        gw_of-run_ops (check_result c).ops call p ne had,
        subst (Settled g c)
            (sym (ap (λ x. effects x g) ops ∙ effects-append (before c) (counted c) g)) settled,
      ),
    )
