-- ===== src/Session/Logs.antt =====
-- The texts at the end of a session in rmsgw/session.c, the lines of rmsgw/log_login.c and
-- rmsgw/log_logout.c, and update_user_stats of rmsgw/session.c: the numbers of a session as the strings
-- that its hook gets. A byte count is below 2 ^ 63. What `%.1f` makes of a number of seconds, and of a
-- number of bytes in so many seconds, are arguments.
use rmsgw.Prelude.{ℕ, ◌+◌, ◌-◌, ◌++◌, take, Str, codes, ℤ, pos}
use rmsgw.Monitor.{number_text, pad_right}
use rmsgw.Session.Cms.{Message, misconfigured, summary, sign_off}

-- The text that log_logon logs.
unfoldable pub log_logon : Str → Str → Str → Str
log_logon usercall port hostname =
    codes "Login "
    ++ (take 9 usercall
        ++ (codes " on " ++ (port ++ (codes " connected to " ++ (hostname ++ codes "\n")))))

abbrev pub nbrstrsize : ℕ
nbrstrsize = 32

-- snprintf(u->errcode_str, NBRSTRSIZE, "%d", u->errcode), and the same with "%ld".
unfoldable pub number_str : ℤ → Str
number_str n = take (nbrstrsize - 1) (number_text n)

pub record UserStats : Type 0 where
  pub errcode_str : Str
  pub bytes_sent_str : Str
  pub bytes_recv_str : Str

unfoldable pub update_user_stats : ℤ → ℕ → ℕ → UserStats
unfolding number_str
update_user_stats errcode bytes_sent bytes_recv = record {
  errcode_str = number_str errcode;
  bytes_sent_str = number_str (pos bytes_sent);
  bytes_recv_str = number_str (pos bytes_recv);
}

module _ (seconds_text : ℕ → Str) (rate_text : ℕ → ℕ → Str) where
  -- "%li Bytes", and so on; a difference of times is not negative here.
  abbrev rates : ℕ → ℕ → ℕ → ℤ → Str
  rates sent recv seconds errcode =
      seconds_text seconds
      ++ (codes "s, "
          ++ (rate_text (sent + recv) seconds
              ++ (codes " Bytes/s (" ++ (number_text errcode ++ codes ")\n"))))

  -- The text that log_logout logs, `seconds` after the start.
  unfoldable pub log_logout : Str → ℕ → ℕ → ℤ → ℕ → Str
  unfolding pad_right
  log_logout usercall sent recv errcode seconds =
      codes "Logout "
      ++ (pad_right 9 (take 9 usercall)
          ++ (codes " tx:"
              ++ (number_text (pos sent)
                  ++ (codes " rx:"
                      ++ (number_text (pos recv)
                          ++ (codes " " ++ rates sent recv seconds errcode))))))

  -- What is given to sendrf for each message; `snprintf` keeps 511 bytes.
  unfoldable pub message_text : Str → Str → ℕ → Message → Str
  message_text usercall gwcall seconds misconfigured =
      codes "!!! Gateway misconfiguration -- unable to continue -- good bye !!!"
  message_text usercall gwcall seconds (summary sent recv errcode) = take 511 (
      codes "; Sent: "
      ++ (number_text (pos sent)
          ++ (codes " Bytes / Received: "
              ++ (number_text (pos recv)
                  ++ (codes " Bytes, " ++ rates sent recv seconds errcode)))))
  message_text usercall gwcall seconds sign_off =
      take 511 (codes "; " ++ (usercall ++ (codes " de " ++ (gwcall ++ codes " SK\n"))))
