-- ===== src/Gateway/Handshake.antt =====
-- How the conversation of rmsgw/gateway.c comes to its end: the flags for FF and FQ, and the counter.
use rmsgw.Prelude.{
  ℕ, zero, suc, ◌+◌, ◌≤◌, ◌<◌, ◌≡◌, refl, ap, ◌∙◌, true, false, some, List, [], ◌∷◌, ◌++◌, arith,
  ltb, ◌==◌, if◌then◌else◌, length, replicate, length-append, Str, codes, overlay, pos,
}
use rmsgw.Radio.Sendrf.{Wrote}
use rmsgw.Gateway.Relay.{all_written, concat}
use rmsgw.Status.Block.{gw_commwait, gw_receiving}
use rmsgw.Status.Gateways.{set_state}
use rmsgw.Gateway.Conversation.{
  to_cms, cms_quiet, Turn, Conv, going, returned, note, sent_ff, sent_fq, received, cms_sense,
  ax25_sense, after_uplink, take_ax25, ax25_reads, cms_stage, ax25_stage, tick, take_turn, converse,
  conv_timeout, is_ten,
}
use rmsgw.Gateway.Passing.{to_cms-all_written, concat-append, after_uplink-going}

-- Standard input is at its end, and the CMS is quiet.
abbrev pub at_eof : Turn
at_eof = record { cms_side = cms_quiet; ax25_side = some [] }

-- One read of three bytes from the radio client.
abbrev pub client_sends : Str → List Wrote → Turn
client_sends chunk writes = record {
  cms_side = cms_quiet;
  ax25_side = some (record { chunk = chunk; writes = writes } ∷ []);
}

abbrev pub fq : ℕ → Str
fq x = b'F' ∷ b'Q' ∷ x ∷ []

module _ (paclen u2 u1 : ℕ) where
  sent_ff-cons :
      (x : ℕ) (s : Str) → 3 ≤ length s → sent_ff paclen u2 u1 (x ∷ s) ≡ sent_ff paclen u2 u1 s
  unfolding sent_ff
  sent_ff-cons x [] h = absurd (omega arith)
  sent_ff-cons x (a ∷ []) h = absurd (omega arith)
  sent_ff-cons x (a ∷ b ∷ []) h = absurd (omega arith)
  sent_ff-cons x (a ∷ b ∷ c ∷ s) h = refl

  sent_ff-append :
      (s t : Str) → 3 ≤ length t → sent_ff paclen u2 u1 (s ++ t) ≡ sent_ff paclen u2 u1 t
  sent_ff-append [] t h = refl
  sent_ff-append (x ∷ s) t h =
      sent_ff-cons x (s ++ t) (omega (arith, length-append s t)) ∙ sent_ff-append s t h

  -- A chunk from the CMS that ends in FF and a carriage return sets the flag that the CMS has sent FF;
  -- one that ends in FF, a carriage return and a newline leaves it as it was.
  pub received_ff :
      (s : Str) (c : Conv)
      → ((received paclen u2 u1 (s ++ codes "FF\r") c).ffup ≡ true)
        × ((received paclen u2 u1 (s ++ codes "FF\r\n") c).ffup ≡ c.ffup)
  unfolding received cms_sense
  received_ff s c =
      let yes_ff : sent_ff paclen u2 u1 (s ++ codes "FF\r") ≡ true =
        sent_ff-append s (codes "FF\r") (omega arith) ∙ unfold sent_ff in refl in
      let no_ff : sent_ff paclen u2 u1 (s ++ codes "FF\r\n") ≡ false =
        sent_ff-append s (codes "FF\r\n") (omega arith) ∙ unfold sent_ff in refl in
      let long : (length (s ++ codes "FF\r\n") == 3) ≡ false =
        ground (arith, length-append s (codes "FF\r\n")) in
      (rw yes_ff refl, rw (no_ff, long) refl)

  tick-late :
      (c : Conv)
      → conv_timeout ≤ c.loop
      → (d : Conv) × (tick paclen u2 u1 c ≡ returned d)
        × (d.errcode ≡ (if is_ten c.errcode then pos 0 else pos 1))
        × (d.uplink ≡ c.uplink)
        × (d.fqdn ≡ c.fqdn)
  unfolding tick note
  tick-late c h =
      let late : ltb conv_timeout (c.loop + 1) ≡ true = ground arith in
      rw late (_, refl, refl, refl, refl)

  tick-early :
      (c : Conv)
      → c.loop < conv_timeout
      → (d : Conv) × (tick paclen u2 u1 c ≡ going d)
        × (d.loop ≡ c.loop + 1)
        × (d.errcode ≡ c.errcode)
  unfolding tick note
  tick-early c h =
      let early : ltb conv_timeout (c.loop + 1) ≡ false = ground arith in
      rw early (_, refl, refl, refl)

  -- Once standard input is at its end and the CMS stays quiet, the conversation returns in the round
  -- in which its counter comes to 61, with the status 0 when FQ was seen and 1 otherwise.
  pub converse-at_eof :
      (n : ℕ) (c : Conv)
      → c.loop + n ≡ conv_timeout
      → (d : Conv) × (converse paclen u2 u1 (replicate (suc n) at_eof) c ≡ returned d)
        × (d.errcode ≡ (if is_ten c.errcode then pos 0 else pos 1))
  unfolding converse take_turn cms_stage ax25_stage ax25_reads note
  converse-at_eof zero c h =
      let here = note (set_state gw_receiving) (note (set_state gw_commwait) c) in
      let (d, e, code, up, flag) = tick-late here (omega arith) in (d, rw e refl, code)
  converse-at_eof (suc n) c h =
      let here = note (set_state gw_receiving) (note (set_state gw_commwait) c) in
      let (d, e, counter, code) = tick-early here (omega arith) in
      let (d', e', code') = converse-at_eof n d (omega (arith, counter)) in
      (d', rw e e', code' ∙ ap (λ t. if is_ten t then pos 0 else pos 1) code)

  ax25_sense-fq :
      (x : ℕ) (c : Conv)
      → c.ffup ≡ true
      → ax25_sense paclen u2 u1 (fq x) c
        ≡ record c { fqdn = true; loop = conv_timeout; errcode = pos 10 }
  unfolding ax25_sense sent_ff sent_fq
  ax25_sense-fq x c h = rw h refl

  take_ax25-fq :
      (x : ℕ) (writes : List Wrote) (c : Conv)
      → c.ffup ≡ true
      → (to_cms (fq x) writes).ending ≡ all_written
      → (d : Conv) × (take_ax25 paclen u2 u1 (record { chunk = fq x; writes = writes }) c ≡ going d)
        × (conv_timeout ≤ d.loop)
        × (d.errcode ≡ pos 10)
        × (d.fqdn ≡ true)
        × (d.uplink ≡ c.uplink ++ (to_cms (fq x) writes).chunks)
  unfolding take_ax25
  take_ax25-fq x writes c h fits =
      let read_in : Conv = record c {
        bytes_recv = c.bytes_recv + 3;
        loop = 0;
        buf = overlay (fq x) c.buf;
      } in
      let sensed : Conv = record read_in { fqdn = true; loop = conv_timeout; errcode = pos 10 } in
      (
        record sensed { uplink = c.uplink ++ (to_cms (fq x) writes).chunks },
        ap (λ d. after_uplink paclen u2 u1 d (to_cms (fq x) writes)) (ax25_sense-fq x read_in h)
            ∙ after_uplink-going paclen u2 u1 sensed (to_cms (fq x) writes) fits,
        omega arith,
        refl,
        refl,
        refl,
      )

  -- When the CMS has sent FF, and in a round in which it stays quiet one read brings three bytes that start
  -- with FQ from the radio client, which the CMS takes, the conversation returns in this round with the
  -- status 0; the three bytes have been passed on.
  pub take_turn-fq :
      (x : ℕ) (writes : List Wrote) (c : Conv)
      → c.ffup ≡ true
      → (to_cms (fq x) writes).ending ≡ all_written
      → (d : Conv) × (take_turn paclen u2 u1 (client_sends (fq x) writes) c ≡ returned d)
        × (d.errcode ≡ pos 0)
        × (d.fqdn ≡ true)
        × (concat d.uplink ≡ concat c.uplink ++ fq x)
  unfolding take_turn cms_stage ax25_stage ax25_reads note
  take_turn-fq x writes c h fits =
      let here = note (set_state gw_receiving) (note (set_state gw_commwait) c) in
      let (d, e, late, code, flag, up) = take_ax25-fq x writes here h fits in
      let (d', e', code', up', flag') = tick-late d late in
      (
        d',
        rw e e',
        code' ∙ rw code refl,
        flag' ∙ flag,
        ap concat (up' ∙ up)
            ∙ concat-append c.uplink (to_cms (fq x) writes).chunks
            ∙ ap (◌++◌ (concat c.uplink)) (to_cms-all_written (fq x) writes fits),
      )
