-- ===== src/Tests/Talk.antt =====
-- The conversation on concrete inputs.
use rmsgw.Prelude.{
  ℕ, suc, ◌≤◌, ◌≡◌, refl, true, false, some, [], ◌∷◌, ◌++◌, take, replicate, codes, pos,
}
use rmsgw.Radio.Sendrf.{took}
use rmsgw.Gateway.Relay.{concat, to_ax25}
use rmsgw.Gateway.Conversation.{
  to_cms, cms_ready, Turn, Conv, started, received, returned, converse, take_turn, conv_timeout,
}
use rmsgw.Gateway.Passing.{Moved}
use rmsgw.Gateway.Passing.Turns.{turns_came, turns_down, turns_up, state_of, Stopped, converse_lem}
use rmsgw.Gateway.Handshake.{at_eof, client_sends, fq, received_ff, converse-at_eof, take_turn-fq}

abbrev new_conv : Conv
new_conv = started 128 0 0 []

abbrev greeting : Turn
greeting = record {
  cms_side = cms_ready (some b'H') (record { chunk = codes "Hi\r\n"; writes = took 9 ∷ [] } ∷ []);
  ax25_side = some (record { chunk = codes "FF\r"; writes = took 2 ∷ took 1 ∷ [] } ∷ []);
}

converse_lem_example :
    (k : ℕ) × (k ≤ 1)
    × Stopped k (greeting ∷ []) (converse 128 0 0 (greeting ∷ []) new_conv)
    × Moved new_conv
        (state_of (converse 128 0 0 (greeting ∷ []) new_conv))
        (turns_came (take k (greeting ∷ [])))
        (turns_down (take k (greeting ∷ [])))
        (turns_up (take k (greeting ∷ [])))
unfolding to_ax25 to_cms
converse_lem_example =
    converse_lem 128 0 0 (greeting ∷ []) new_conv ((((refl, refl), tt), (refl, tt)), tt)

received_ff_example :
    ((received 128 0 0 (codes "bye" ++ codes "FF\r") new_conv).ffup ≡ true)
    × ((received 128 0 0 (codes "bye" ++ codes "FF\r\n") new_conv).ffup ≡ false)
received_ff_example = received_ff 128 0 0 (codes "bye") new_conv

converse-at_eof_example :
    (d : Conv) × (converse 128 0 0 (replicate (suc conv_timeout) at_eof) new_conv ≡ returned d)
    × (d.errcode ≡ pos 1)
converse-at_eof_example = converse-at_eof 128 0 0 conv_timeout new_conv refl

abbrev cms_said_ff : Conv
cms_said_ff = record new_conv { ffup = true }

take_turn-fq_example :
    (d : Conv) × (take_turn 128 0 0 (client_sends (fq b'\r') (took 3 ∷ [])) cms_said_ff
      ≡ returned d)
    × (d.errcode ≡ pos 0)
    × (d.fqdn ≡ true)
    × (concat d.uplink ≡ fq b'\r')
unfolding to_cms
take_turn-fq_example = take_turn-fq 128 0 0 b'\r' (took 3 ∷ []) cms_said_ff refl refl
