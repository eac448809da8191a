-- ===== src/Session/Rotation.antt =====
-- The status files that the loop over the hosts in main of rmsgw/rmsgw.c touches, and the list of hosts
-- that the next run is given. The time of each touch and the results of `open` and `utime` are inputs.
use rmsgw.Prelude.{
  ℕ, ◌+◌, ◌≤◌, ◌≡◌, refl, inl, inr, Bool, true, false, not, ◌&&◌, Option, none, some, List, [], ◌∷◌,
  ◌++◌, arith, ltb, if◌then◌else◌, Bool-cases, Option-cases, length, All, Str, is_neg,
}
use mathlib.Core.List.{Perm}
use rmsgw.Cms.Node.{Cms, CmsNode}
use rmsgw.Cms.Hosts.{getcmslist}
use rmsgw.Cms.Selection.{entries, listed, all_succeed}
use rmsgw.Cms.Rotation.{IsRotated, AreOld, getcmslist-IsRotated}
use rmsgw.Files.{Fs, Allowed, setcmsstat, host_stat}
use rmsgw.Files.Tries.{Try, try_hosts, Fits, IsTouch}
use rmsgw.Status.Block.{gw_idle}
use rmsgw.Status.Gateways.{GwOp, set_state, set_cms}
use rmsgw.Session.Cms.{Session, cms_session}
use rmsgw.Session.Main.{
  Host, Exit, exits, invalid_host_table, failed_to_connect, is_sess_fatal, after_session, host_loop,
}

-- The loop goes on to the next host.
unfoldable pub goes_on : Option Session → Bool
goes_on none = false
goes_on (some s) = is_neg s.rc && not (is_sess_fatal s.rc)

-- The files behind the loop; each host is touched before its session.
unfoldable pub host_files : Str → Allowed → (Host → ℕ) → Option Str → List Host → Fs → Fs
unfolding setcmsstat goes_on cms_session
host_files dir ok clock port [] fs = fs
host_files dir ok clock port (h ∷ hosts) fs =
    let fs' = (setcmsstat dir ok (clock h) h.cmsp.cms_host fs).0 in
    let later = host_files dir ok clock port hosts fs' in
    if goes_on (cms_session port h.attempt) then later else fs'

abbrev try_of : (Host → ℕ) → Host → Try
try_of clock h = record { at = clock h; host = h.cmsp.cms_host }

-- The hosts that are tried: up to the first one whose session ends the loop.
abbrev pub tries_of : (Host → ℕ) → Option Str → List Host → List Try
tries_of clock port [] = []
tries_of clock port (h ∷ hosts) =
    if goes_on (cms_session port h.attempt)
    then try_of clock h ∷ tries_of clock port hosts
    else try_of clock h ∷ []

host_files-tries_of :
    (dir : Str) (ok : Allowed) (clock : Host → ℕ) (port : Option Str) (hosts : List Host) (fs : Fs)
    → host_files dir ok clock port hosts fs ≡ try_hosts dir ok (tries_of clock port hosts) fs
unfolding host_files try_hosts
host_files-tries_of dir ok clock port [] fs = refl
host_files-tries_of dir ok clock port (h ∷ hosts) fs =
    elim (Bool-cases (goes_on (cms_session port h.attempt))) [
      | inl more ↦ rw more (
          host_files-tries_of dir ok clock port hosts
            ((setcmsstat dir ok (clock h) h.cmsp.cms_host fs).0))
      | inr last ↦ rw last refl
    ]

after_session-tries :
    (s : Session) (ops : List GwOp) (n m : ℕ) (next : Option Exit) (e : Exit)
    → ((k : Exit) → next ≡ some k → k.host_tries ≡ n + m)
    → after_session s ops n next ≡ some e
    → e.host_tries ≡ n + (if goes_on (some s) then m else 0)
unfolding after_session goes_on
after_session-tries s ops n m next e h k = elim (Bool-cases (is_neg s.rc)) [
  | inr good ↦
      let out : some (exits 0 (ops ++ (set_state gw_idle ∷ [])) n none) ≡ some e = rw good at k in
      let same : exits 0 (ops ++ (set_state gw_idle ∷ [])) n none ≡ e = cc in
      rw (good, ← same) (omega arith)
  | inl bad ↦ elim (Bool-cases (is_sess_fatal s.rc)) [
    | inl fatal ↦
        let out : some (exits 99 (ops ++ (set_state gw_idle ∷ [])) n none) ≡ some e =
          rw (bad, fatal) at k in
        let same : exits 99 (ops ++ (set_state gw_idle ∷ [])) n none ≡ e = cc in
        rw (bad, fatal, ← same) (omega arith)
    | inr skipped ↦ let out : next ≡ some e = rw (bad, skipped) at k in rw (bad, skipped) (h e out)
  ]
]

one_more :
    (more : Bool) (later : List Try) (t : Try) (tries n : ℕ)
    → n ≡ tries + 1 + (if more then length later else 0)
    → n ≡ tries + length (if more then t ∷ later else t ∷ [])
one_more true later t tries n h = omega (arith, h)
one_more false later t tries n h = omega (arith, h)

-- The hosts that the process reports as tried are those whose status files were touched.
pub host_loop-tries_of :
    (clock : Host → ℕ) (port : Option Str) (hosts : List Host) (ops : List GwOp) (tries : ℕ)
    (e : Exit)
    → host_loop port hosts ops tries ≡ some e
    → e.host_tries ≡ tries + length (tries_of clock port hosts)
unfolding host_loop
host_loop-tries_of clock port [] ops tries e h =
    let same : exits 1 ops tries
          (some (if ltb tries 1 then invalid_host_table else failed_to_connect tries))
        ≡ e =
      cc in
    rw (← same) (omega arith)
host_loop-tries_of clock port (x ∷ hosts) ops tries e h =
    elim (Option-cases (cms_session port x.attempt)) [
      | inl faults ↦ let no : none ≡ some e = rw (faults, host_loop) at h in cc
      | inr (s, ran) ↦
          let now = ops ++ (set_cms (some x.cmsp.cms_host) ∷ s.ops) in
          let m = length (tries_of clock port hosts) in
          let out : after_session s now (tries + 1) (host_loop port hosts now (tries + 1))
              ≡ some e =
            rw (ran, host_loop) at h in
          let counted =
            after_session-tries s now (tries + 1) m (host_loop port hosts now (tries + 1)) e
              (λ k g. host_loop-tries_of clock port hosts now (tries + 1) k g) out in
          rw ran (
            one_more (goes_on (some s)) (tries_of clock port hosts) (try_of clock x) tries
              e.host_tries counted)
    ]

-- A run of the gateway whose touches succeed, not before a time (at least 1) to which the status file of
-- every host to be tried was older, when no line of the host file makes the parser leave its buffer, the
-- paths of the entries' status files fit, and all allocations succeed: the list that the next run gets holds the accepted hosts of the host file, and those that this run
-- has not tried all stand before those that it has tried.
pub host_files-IsRotated :
    (dir : Str) (ok : Allowed) (clock : Host → ℕ) (port : Option Str) (hosts : List Host)
    (begin : ℕ) (fs : Fs) (cbuf : Str) (lines : List Str) (es : List Cms)
    → entries cbuf lines ≡ some es
    → 1 ≤ begin
    → AreOld dir ok begin fs (tries_of clock port hosts)
    → All (IsTouch dir ok begin) (tries_of clock port hosts)
    → All (λ c. Fits dir c.cms_host) es
    → (l : List CmsNode) × (getcmslist
          (host_stat dir (host_files dir ok clock port hosts fs))
          all_succeed
          cbuf
          (some lines)
        ≡ some l)
      × Perm l (listed (host_stat dir (host_files dir ok clock port hosts fs)) es)
      × IsRotated (tries_of clock port hosts) l
host_files-IsRotated dir ok clock port hosts begin fs cbuf lines es e b old h k =
    rw (host_files-tries_of dir ok clock port hosts fs)
      (getcmslist-IsRotated dir ok begin fs (tries_of clock port hosts) cbuf lines es e b old h k)
