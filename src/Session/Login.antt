-- ===== src/Session/Login.antt =====
-- A session from the login on: gateway of rmsgw/gateway.c over cmslogin and sglProcess of lib/cmslogin.c, as
-- cmsSession of rmsgw/session.c and the loop over the hosts in rmsgw/rmsgw.c meet them.
use rmsgw.Prelude.{
  ℕ, ◌+◌, ◌≡◌, refl, true, false, ◌≤◌, Option, none, some, List, [], ◌∷◌, ◌++◌, All, Str, ℤ, pos,
}
use rmsgw.Cms.Node.{CmsNode}
use rmsgw.Channel.File.{password, callsign, ChanState}
use rmsgw.Channel.Search.{found}
use rmsgw.Status.Block.{gw_connecting, gw_connected, gw_login, gw_disconnecting, gw_disconnected}
use rmsgw.Status.Gateways.{GwOp, set_state, set_cms}
use rmsgw.Login.Sgl.{Round, sgl_process}
use rmsgw.Login.Sgl.Dialogue.{busy}
use rmsgw.Login.Sgl.Unasked.{NoPrompt, sgl_process-NoPrompt}
use rmsgw.Login.Expect.{cmslogin}
use rmsgw.Gateway.Conversation.{Progress, going, returned, Turn, started, err_gw_login, gateway}
use rmsgw.Session.Cms.{
  is_missing, is_gw_fatal, check_result, connect_and_talk, cms_session, err_sess_gwskip,
}
use rmsgw.Session.Main.{Host, is_sess_fatal, after_session, host_loop}

abbrev pub field_text : Option Str → Str
field_text none = []
field_text (some s) = s

-- What the login and the conversation behind it meet: the rounds of the login, the two calls of `fcntl`,
-- the rounds of the conversation and the buffer that is there.
pub record Meeting : Type 0 where
  pub rounds : List Round
  pub socket_mode : ℤ
  pub ax25_mode : ℤ
  pub turns : List Turn
  pub static_buf : Str

abbrev through_cmslogin : Option ℤ → Option ℤ
through_cmslogin none = none
through_cmslogin (some rc) = some (cmslogin true true rc)

module _ (md5 : Str → Str) (usercall : Str) (paclen u2 u1 : ℕ) where
  -- The result of the login for the channel that was found, when it ends.
  unfoldable pub login_rc : ChanState → Meeting → Option ℤ
  unfolding cmslogin sgl_process
  login_rc st m = through_cmslogin (
      (sgl_process md5 (field_text (st.curent.ch_field password)) usercall
        (field_text (st.curent.ch_field callsign)) m.rounds).0)

  -- The conversation behind a login; where the login goes on, so does the work at the host.
  abbrev pub behind_login : Meeting → Option ℤ → Progress
  behind_login m none = going (started paclen u2 u1 m.static_buf)
  behind_login m (some rc) = gateway paclen u2 u1 rc m.socket_mode m.ax25_mode m.turns m.static_buf

  unfoldable pub talk_of : ChanState → Meeting → Progress
  unfolding login_rc gateway
  talk_of st m = behind_login m (login_rc st m)

  -- The work at a host, with the channel found and the socket connected.
  abbrev pub host_at : CmsNode → ChanState → ℕ → Meeting → Host
  host_at cmsp st sock m = record {
    cmsp = cmsp;
    attempt = record { lookup = found st; cms_sock = pos sock; talk = talk_of st m };
  }

  talk-NoPrompt :
      (st : ChanState) (m : Meeting)
      → All NoPrompt m.rounds
      → 5 ≤ busy m.rounds
      → talk_of st m
        ≡ returned (record (started paclen u2 u1 m.static_buf) { errcode = err_gw_login })
  unfolding talk_of login_rc gateway cmslogin
  talk-NoPrompt st m quiet many =
      rw
        (sgl_process-NoPrompt md5 (field_text (st.curent.ch_field password)) usercall
          (field_text (st.curent.ch_field callsign)) m.rounds quiet many)
        refl

  session-NoPrompt :
      (port : Str) (st : ChanState) (sock : ℕ) (m : Meeting)
      → is_missing (some port) ≡ false
      → is_missing (st.curent.ch_field password) ≡ false
      → All NoPrompt m.rounds
      → 5 ≤ busy m.rounds
      → cms_session
          (some port)
          (record { lookup = found st; cms_sock = pos sock; talk = talk_of st m })
        ≡ some (record {
          rc = err_sess_gwskip;
          ops =
              set_state gw_connecting
              ∷ set_state gw_connected
              ∷ set_state gw_login
              ∷ set_state gw_disconnecting
              ∷ set_state gw_disconnected
              ∷ [];
          messages = [];
        })
  unfolding cms_session connect_and_talk check_result is_gw_fatal
  session-NoPrompt port st sock m p w quiet many = rw (p, w, talk-NoPrompt st m quiet many) refl

  -- With a port and a channel with a password: at a CMS that accepts the connection and never sends the
  -- prompt, whatever else it sends or whether it hangs up, at least five rounds of the login bringing
  -- something else than a lone carriage return, the session ends without a byte counted, and the
  -- process goes on to the next host, with the gateway disconnected from this one.
  pub host_loop-NoPrompt :
      (port : Str) (cmsp : CmsNode) (st : ChanState) (sock : ℕ) (m : Meeting) (hosts : List Host)
      (ops : List GwOp) (tries : ℕ)
      → is_missing (some port) ≡ false
      → is_missing (st.curent.ch_field password) ≡ false
      → All NoPrompt m.rounds
      → 5 ≤ busy m.rounds
      → host_loop (some port) (host_at cmsp st sock m ∷ hosts) ops tries
        ≡ host_loop
            (some port)
            hosts
            (ops
              ++ (set_cms (some cmsp.cms_host)
                  ∷ set_state gw_connecting
                  ∷ set_state gw_connected
                  ∷ set_state gw_login
                  ∷ set_state gw_disconnecting
                  ∷ set_state gw_disconnected
                  ∷ []))
            (tries + 1)
  unfolding host_loop after_session is_sess_fatal
  host_loop-NoPrompt port cmsp st sock m hosts ops tries p w quiet many =
      rw (session-NoPrompt port st sock m p w quiet many, host_loop) refl
