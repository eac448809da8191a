-- ===== src/Login/Expect.antt =====
-- The waiting half of expectsend in lib/cmslogin.c, telnetProcess, which nothing calls any more,
-- and cmslogin.
use rmsgw.Prelude.{
  ℕ, suc, ◌+◌, ◌<◌, ◌≡◌, refl, ap, ◌∙◌, inl, inr, Bool, true, false, ◌&&◌, Option, none, some, List,
  [], ◌∷◌, ◌++◌, arith, ltb, if◌then◌else◌, Bool-cases, length, take, length-append, Str, codes,
  c_str, ℤ, pos, is_zero,
}
use rmsgw.Login.Sgl.{contains, succeed, fail, expectsend}

-- What comes while it waits: a byte, a read of no bytes, a failed read, or the alarm.
pub data Heard : Type 0 where
  heard : ℕ → Heard
  silence : Heard
  read_failed : Heard
  alarm : Heard

-- The text came, the alarm did, the read failed, `rcvbuf` is full, or nothing more comes.
pub data Wait : Type 0 where
  came : List Heard → Wait
  timed_out : Wait
  broken : Wait
  overrun : Wait
  hanging : Wait

abbrev pub rcvbuf_size : ℕ
rcvbuf_size = 2048

-- The loop, after the bytes of `got`. The alarm ends it whatever has come.
unfoldable pub expect_loop : Str → Str → List Heard → Wait
unfolding contains c_str
expect_loop expect_str got (alarm ∷ events) = timed_out
expect_loop expect_str got [] = if contains (c_str got) expect_str then came [] else hanging
expect_loop expect_str got (silence ∷ events) =
    let rest = expect_loop expect_str got events in
    if contains (c_str got) expect_str then came (silence ∷ events) else rest
expect_loop expect_str got (read_failed ∷ events) =
    if contains (c_str got) expect_str then came (read_failed ∷ events) else broken
expect_loop expect_str got (heard c ∷ events) =
    let rest = expect_loop expect_str (got ++ (c ∷ [])) events in
    if contains (c_str got) expect_str
    then came (heard c ∷ events)
    else if ltb (length got + 1) rcvbuf_size
    then rest
    else overrun

-- TIMEOUT
abbrev pub timeout : ℤ
timeout = pos 1

-- The result and the events that are left; `none` is a full buffer, or a wait without an end.
unfoldable pub expect_and_send : Str → List Heard → (Str → ℤ) → Str → Option (ℤ × List Heard)
unfolding expect_loop expectsend
expect_and_send expect_str events wrote send_str =
    if ltb 0 (length expect_str)
    then elim (expect_loop expect_str [] events) [
      | came later ↦ some (expectsend wrote send_str, later)
      | timed_out ↦ some (timeout, [])
      | broken ↦ some (fail, [])
      | overrun ↦ none
      | hanging ↦ none
    ]
    else some (expectsend wrote send_str, events)

-- The two lines of telnetProcess, where `snprintf` keeps 1023 bytes.
abbrev pub call_line : Str → Str
call_line usercall = take 1023 (b'.' ∷ (usercall ++ codes "\r"))

abbrev pub password_line : Str → Str → Str → Str → Str
password_line passwd gwcall freq mode =
    take 1023 (passwd ++ (b' ' ∷ (gwcall ++ (b' ' ∷ (freq ++ (b' ' ∷ (mode ++ codes "\r")))))))

unfoldable pub telnet_process : Str → Str → Str → Str → Str → List Heard → (Str → ℤ) → Option ℤ
unfolding expect_and_send
telnet_process passwd usercall gwcall freq mode events wrote =
    elim (expect_and_send (codes "Callsign :") events wrote (call_line usercall)) [
      | none ↦ none
      | some (rc, later) ↦
          if is_zero rc
          then elim (expect_and_send (codes "Password :") later wrote
              (password_line passwd gwcall freq mode)) [
                | none ↦ none
                | some (rc', last) ↦ some (if is_zero rc' then succeed else fail)
              ]
          else some fail
    ]

-- cmslogin: a failure without a channel or a configuration, and otherwise the result of sglProcess.
unfoldable pub cmslogin : Bool → Bool → ℤ → ℤ
cmslogin has_channel has_config sgl_process_rc =
    if has_channel && has_config then sgl_process_rc else fail

-- No beginning of what comes has the text in it.
abbrev pub Unheard : Str → Str → Str → Type 0
Unheard expect_str got [] = contains (c_str got) expect_str ≡ false
Unheard expect_str got (c ∷ s) =
    (contains (c_str got) expect_str ≡ false) × Unheard expect_str (got ++ (c ∷ [])) s

abbrev pub heard_all : Str → List Heard → List Heard
heard_all [] events = events
heard_all (c ∷ s) events = heard c ∷ heard_all s events

-- Bytes in which the text does not come, before the alarm: fewer than fill the buffer end in the
-- timeout, and more are written behind its end.
pub expect_loop-heard_all :
    (expect_str got s : Str) (events : List Heard)
    → Unheard expect_str got s
    → length got < rcvbuf_size
    → expect_loop expect_str got (heard_all s (alarm ∷ events))
      ≡ (if ltb (length got + length s) rcvbuf_size then timed_out else overrun)
unfolding expect_loop
expect_loop-heard_all expect_str got [] events h b =
    let fits : ltb (length got + 0) rcvbuf_size ≡ true = ground arith in rw fits refl
expect_loop-heard_all expect_str got (c ∷ s) events (h, hs) b =
    elim (Bool-cases (ltb (length got + 1) rcvbuf_size)) [
      | inl room ↦
          let count : length (got ++ (c ∷ [])) + length s ≡ length got + suc (length s) =
            omega (arith, length-append got (c ∷ [])) in
          rw (h, room)
            (expect_loop-heard_all expect_str (got ++ (c ∷ [])) s events hs
                (ground (arith, length-append got (c ∷ [])))
              ∙ ap (λ n. if ltb n rcvbuf_size then timed_out else overrun) count)
      | inr full ↦
          let long : ltb (length got + suc (length s)) rcvbuf_size ≡ false = ground arith in
          rw (h, full, long) refl
    ]
