-- ===== src/Session/Connect.antt =====
-- lib/cmsconnect.c (cmsConnect) and rmsgw/gwinit.c (gwinit). The outcomes of the system calls and of
-- loadConfig are inputs; logging and the change of the blocking mode are left out.
use rmsgw.Prelude.{
  ℕ, ◌+◌, ◌≡◌, refl, inl, inr, Bool, true, false, not, ◌&&◌, ◌||◌, Option, none, some, List, [],
  ◌∷◌, ◌++◌, if◌then◌else◌, Bool-cases, take, Str, codes, ℤ, pos, negsuc, is_zero, decimal,
}
use rmsgw.Cms.Node.{CmsNode}
use rmsgw.Config.Load.{Config}

-- The wait for a connection in progress: the socket becomes writable, with the socket's own error
-- or the errno of `getsockopt`, or not in time.
pub data Waited : Type 0 where
  writable : ℤ → Waited
  sockopt_failed : ℤ → Waited
  timed_out : Waited

-- The result of `connect`: 0, EINPROGRESS with the wait, or another error.
pub data Connecting : Type 0 where
  at_once : Connecting
  in_progress : Waited → Connecting
  refused : Connecting

-- The result, whether the socket was closed, and the texts written to the client.
pub record Connected : Type 0 where
  pub rc : ℤ
  pub closed : Bool
  pub texts : List Str

-- `%d`
abbrev number_text : ℤ → Str
number_text (pos n) = decimal n
number_text (negsuc n) = b'-' ∷ decimal (n + 1)

-- snprintf(mybuf, sizeof(mybuf), …)
abbrev pub mybuf : Str → Str
mybuf s = take 79 s

abbrev pub host_text : CmsNode → Str
host_text c = mybuf (
    codes "INFO: Host Name "
    ++ (c.cms_host ++ (codes ", Port " ++ (number_text c.cms_port ++ codes " \r\n"))))

abbrev connected : ℤ → Bool → List Str → Connected
connected rc closed texts = record { rc = rc; closed = closed; texts = texts }

-- From `connect` on.
unfoldable pub connect_socket : CmsNode → ℕ → Connecting → Connected
connect_socket c sd at_once = connected (pos sd) false (host_text c ∷ [])
connect_socket c sd refused =
    connected (negsuc 0) true
      (host_text c ∷ mybuf (codes "FATAL ERROR: connection failed\r\n") ∷ [])
connect_socket c sd (in_progress timed_out) = connected (negsuc 0) true (
    host_text c
    ∷ mybuf
        (codes "ERROR: Timeout connecting to node " ++ (c.cms_host ++ codes ". Skipping...\r\n"))
    ∷ [])
connect_socket c sd (in_progress (sockopt_failed errno)) = connected (negsuc 0) true (
    host_text c
    ∷ mybuf (
        codes "ERROR: getsockopt()failed for node "
        ++ (c.cms_host
            ++ (codes " (errno = " ++ (number_text errno ++ codes "). Skipping...\r\n"))))
    ∷ [])
connect_socket c sd (in_progress (writable status)) =
    if is_zero status
    then connected (pos sd) false (host_text c ∷ codes "Connected\r\n" ∷ [])
    else connected (negsuc 0) false (
        host_text c
        ∷ mybuf (codes "Connection failed (SO_ERROR = " ++ (number_text status ++ codes ")\r\n"))
        ∷ [])

-- cmsConnect, from the result of `socket`; `none` is the call of `err`, which ends the process.
unfoldable pub cms_connect : CmsNode → ℤ → Bool → Connecting → Option Connected
unfolding connect_socket
cms_connect c (negsuc n) known how = none
cms_connect c (pos sd) known how =
    if known
    then some (connect_socket c sd how)
    else some (
        connected (negsuc 0) false (
          host_text c
          ∷ mybuf (codes "ERROR: Unknown host " ++ (c.cms_host ++ codes ". Skipping...\r\n"))
          ∷ []))

-- A value of the command line over a configured one.
abbrev pub over : Option Str → Option Str → Option Str
over none configured = configured
over (some s) configured = some s

-- gwinit, when `loadConfig` gives a configuration; otherwise each of its errors calls `err`.
unfoldable pub gwinit : Option Config → Option Str → Option Str → Option Str → Option Config
gwinit none gwcall logmask bannerfile = none
gwinit (some cfg) gwcall logmask bannerfile = some (record cfg {
  gwcall = over gwcall cfg.gwcall;
  logmask = over logmask cfg.logmask;
  bannerfile = over bannerfile cfg.bannerfile;
})

-- The connection is there at once, or the socket becomes writable without an error.
abbrev pub is_made : Connecting → Bool
is_made at_once = true
is_made refused = false
is_made (in_progress timed_out) = false
is_made (in_progress (sockopt_failed errno)) = false
is_made (in_progress (writable status)) = is_zero status

-- The two ways that leave the socket open.
abbrev pub leaks : Connecting → Bool
leaks at_once = false
leaks refused = false
leaks (in_progress timed_out) = false
leaks (in_progress (sockopt_failed errno)) = false
leaks (in_progress (writable status)) = not (is_zero status)

connect_socket_lem :
    (c : CmsNode) (sd : ℕ) (how : Connecting)
    → ((connect_socket c sd how).rc ≡ (if is_made how then pos sd else negsuc 0))
      × ((connect_socket c sd how).closed ≡ not (is_made how || leaks how))
unfolding connect_socket
connect_socket_lem c sd at_once = (refl, refl)
connect_socket_lem c sd refused = (refl, refl)
connect_socket_lem c sd (in_progress timed_out) = (refl, refl)
connect_socket_lem c sd (in_progress (sockopt_failed errno)) = (refl, refl)
connect_socket_lem c sd (in_progress (writable status)) = elim (Bool-cases (is_zero status)) [
  | inl ok ↦ rw ok (refl, refl)
  | inr bad ↦ rw bad (refl, refl)
]

-- With a socket, `cmsConnect` returns: the socket when the host is known and the connection is made, at once
-- or when the socket becomes writable without an error, and -1 otherwise. It has closed the socket
-- then, but not when the host is unknown or when the socket is writable with an error.
pub cms_connect_lem :
    (c : CmsNode) (sd : ℕ) (known : Bool) (how : Connecting)
    → (r : Connected) × (cms_connect c (pos sd) known how ≡ some r)
      × (r.rc ≡ (if known && is_made how then pos sd else negsuc 0))
      × (r.closed ≡ (known && not (is_made how || leaks how)))
unfolding cms_connect
cms_connect_lem c sd true how =
    let (rc, closed) = connect_socket_lem c sd how in (connect_socket c sd how, refl, rc, closed)
cms_connect_lem c sd false how = (_, refl, refl, refl)
