-- ===== src/Session/Main.antt =====
-- The loop over the hosts in main of rmsgw/rmsgw.c, and the call sign of the user before it. The
-- start before it is in Start.Gateway, and the status file of a host in Session.Rotation; the greeting
-- and the hooks are left out.
use rmsgw.Prelude.{
  ℕ, ◌+◌, Bool, false, Option, none, some, List, [], ◌∷◌, ◌++◌, ltb, ◌==◌, if◌then◌else◌, length,
  Str, codes, streq, ℤ, pos, negsuc, is_neg,
}
use rmsgw.Status.Block.{gw_idle, gw_running}
use rmsgw.Status.Gateways.{GwOp, set_state, set_cms, set_pid, set_usercall, incr_connects}
use rmsgw.Cms.Node.{CmsNode}
use rmsgw.Session.Cms.{Attempt, Session, cms_session}

-- A call sign without what stands from its first hyphen on, when that is "-0".
unfoldable pub strip_ssid : Str → Str
unfolding streq
strip_ssid [] = []
strip_ssid (c ∷ s) =
    let rest = strip_ssid s in
    if c == b'-' then if streq s (codes "0") then [] else c ∷ s else c ∷ rest

abbrev pub maxusercall : ℕ
maxusercall = 9

-- fmtucall, when `strdup` succeeds. `none` is a call of `err`, which ends the process.
unfoldable pub fmtucall : Str → Option Str
unfolding strip_ssid
fmtucall call = if ltb maxusercall (length call) then none else some (strip_ssid call)

-- A host of the list and what happens at it.
pub record Host : Type 0 where
  pub cmsp : CmsNode
  pub attempt : Attempt

-- Why `err` is called, which sends a message and calls `exit(1)`.
pub data Complaint : Type 0 where
  invalid_host_table : Complaint
  failed_to_connect : ℕ → Complaint
  invalid_callsign : Complaint
  not_configured : Complaint

-- The end of the process: its exit status, the operations on the status block up to there, the hosts
-- that were tried and the complaint.
pub record Exit : Type 0 where
  pub exit_status : ℕ
  pub ops : List GwOp
  pub host_tries : ℕ
  pub complaint : Option Complaint

abbrev pub exits : ℕ → List GwOp → ℕ → Option Complaint → Exit
exits status ops tries complaint = record {
  exit_status = status;
  ops = ops;
  host_tries = tries;
  complaint = complaint;
}

-- `rc == ERR_SESS_FATAL`
unfoldable pub is_sess_fatal : ℤ → Bool
is_sess_fatal (pos n) = false
is_sess_fatal (negsuc n) = n == 998

-- After a session: out of the loop, out of the process, or on to the next host.
unfoldable pub after_session : Session → List GwOp → ℕ → Option Exit → Option Exit
unfolding is_sess_fatal
after_session s ops tries next =
    if is_neg s.rc
    then if is_sess_fatal s.rc
      then some (exits 99 (ops ++ (set_state gw_idle ∷ [])) tries none)
      else next
    else some (exits 0 (ops ++ (set_state gw_idle ∷ [])) tries none)

-- The loop, after the operations `ops` and so many hosts.
unfoldable pub host_loop : Option Str → List Host → List GwOp → ℕ → Option Exit
unfolding after_session cms_session
host_loop port [] ops tries =
    some (
      exits 1 ops tries
        (some (if ltb tries 1 then invalid_host_table else failed_to_connect tries)))
host_loop port (h ∷ hosts) ops tries = elim (cms_session port h.attempt) [
  | none ↦ none
  | some s ↦
      let now = ops ++ (set_cms (some h.cmsp.cms_host) ∷ s.ops) in
      after_session s now (tries + 1) (host_loop port hosts now (tries + 1))
]

-- main, from the check of the gateway's call sign on. `none` is a run that faults or does not return.
unfoldable pub main : Str → ℤ → Option Str → Str → List Host → Option Exit
unfolding host_loop fmtucall streq
main gwcall pid port arg hosts =
    let begun = set_pid pid ∷ set_state gw_running ∷ incr_connects ∷ [] in
    if streq gwcall (codes "N0CALL")
    then some (exits 1 [] 0 (some not_configured))
    else elim (fmtucall arg) [
      | none ↦ some (exits 1 begun 0 (some invalid_callsign))
      | some usercall ↦ host_loop port hosts (begun ++ (set_usercall (some usercall) ∷ [])) 0
    ]
