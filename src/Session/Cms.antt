-- ===== src/Session/Cms.antt =====
-- cmsSession of rmsgw/session.c. The outcomes of `getchannam`, `cmsConnect` and `gateway` are inputs; what
-- is done to the gateway's entry of the status block is a list of operations. Logging, the hooks
-- and the closing of the socket are left out.
use rmsgw.Prelude.{
  ℕ, Bool, true, false, Option, none, some, List, [], ◌∷◌, ◌++◌, leb, if◌then◌else◌, Str, ℤ, pos,
  negsuc, is_neg,
}
use rmsgw.Status.Block.{gw_connecting, gw_connected, gw_disconnecting, gw_disconnected}
use rmsgw.Status.Gateways.{GwOp, set_state, add_bytes_in, add_bytes_out}
use rmsgw.Channel.File.{password}
use rmsgw.Channel.Search.{Search, found, absent, fault, unfinished}
use rmsgw.Gateway.Conversation.{Conv, Progress, going, returned, waiting}

abbrev pub err_sess_connect : ℤ
err_sess_connect = negsuc 0

abbrev pub err_sess_gwskip : ℤ
err_sess_gwskip = negsuc 1

abbrev pub err_sess_fatal : ℤ
err_sess_fatal = negsuc 998

-- What is said to the client: that the channel has no password; the line with the bytes sent, the
-- bytes received and the status, next to the times; and the two call signs at the end.
pub data Message : Type 0 where
  misconfigured : Message
  summary : ℕ → ℕ → ℤ → Message
  sign_off : Message

-- What happens in an attempt: the channel that is looked up, the socket, and the conversation.
pub record Attempt : Type 0 where
  pub lookup : Search
  pub cms_sock : ℤ
  pub talk : Progress

-- The result, the operations on the status block and the messages, in their order.
pub record Session : Type 0 where
  pub rc : ℤ
  pub ops : List GwOp
  pub messages : List Message

abbrev pub stopped : ℤ → List GwOp → List Message → Session
stopped rc ops messages = record { rc = rc; ops = ops; messages = messages }

-- ax25port == NULL || strlen(ax25port) <= 0, and the same for the password
unfoldable pub is_missing : Option Str → Bool
is_missing none = true
is_missing (some []) = true
is_missing (some (c ∷ s)) = false

-- `errcode <= ERR_GW_FATAL`
unfoldable pub is_gw_fatal : ℤ → Bool
is_gw_fatal (pos n) = false
is_gw_fatal (negsuc n) = leb 100 n

abbrev pub onto : List GwOp → List GwOp → List GwOp
onto [] ops = ops
onto (op ∷ latest) ops = onto latest (op ∷ ops)

-- The operations of the conversation, first one first.
abbrev pub in_order : List GwOp → List GwOp
in_order latest = onto latest []

abbrev pub closing : List GwOp
closing = set_state gw_disconnecting ∷ set_state gw_disconnected ∷ []

-- "check result"
unfoldable pub check_result : Conv → Session
unfolding is_gw_fatal
check_result c =
    let before = set_state gw_connecting ∷ set_state gw_connected ∷ in_order c.ops in
    if is_neg c.errcode
    then stopped (if is_gw_fatal c.errcode then err_sess_fatal else err_sess_gwskip)
        (before ++ closing) []
    else stopped (pos 0)
        (before ++ (add_bytes_out (pos c.bytes_sent) ∷ add_bytes_in (pos c.bytes_recv) ∷ closing))
        (summary c.bytes_sent c.bytes_recv c.errcode ∷ sign_off ∷ [])

-- From the connection on. `none` is a conversation that does not return.
unfoldable pub connect_and_talk : Attempt → Option Session
unfolding check_result
connect_and_talk a =
    if is_neg a.cms_sock
    then some (stopped err_sess_connect (set_state gw_connecting ∷ []) [])
    else elim a.talk [ going c ↦ none | waiting c ↦ none | returned c ↦ some (check_result c) ]

-- cmsSession. `none` is a fault in the search of the channel, or no return.
unfoldable pub cms_session : Option Str → Attempt → Option Session
unfolding is_missing connect_and_talk
cms_session ax25port a =
    if is_missing ax25port then some (stopped err_sess_fatal [] []) else elim a.lookup [
      | fault ↦ none
      | unfinished ↦ none
      | absent st ↦ some (stopped err_sess_fatal [] [])
      | found st ↦
          if is_missing (st.curent.ch_field password)
          then some (stopped err_sess_fatal [] (misconfigured ∷ []))
          else connect_and_talk a
    ]
