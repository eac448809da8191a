-- ===== src/Gateway/Passing.antt =====
-- What the conversation of rmsgw/gateway.c passes on, and what it counts.
pub mod Turns
use rmsgw.Prelude.{
  ℕ, zero, suc, ◌+◌, ◌-◌, ◌*◌, ◌/◌, ◌%◌, ◌^◌, ◌≤◌, ◌<◌, min, ◌≡◌, refl, sym, ap, ◌∙◌, ◌≢◌, ◌↔◌, ◌⊎◌,
  inl, inr, Bool, true, false, not, ◌&&◌, ◌||◌, Option, none, some, List, [], ◌∷◌, ◌++◌, append-nil,
  append_assoc, arith, ltb, leb, ◌==◌, if◌then◌else◌, ==_iff, Bool-cases, Option-cases, length,
  get_elem?, get_or, set, modify, take, drop, replicate, All, length-append, length-take,
  length-replicate, length-set, length-modify, All-append, All-imp, Str, codes, streq, streq_iff,
  streq_refl, strneq, within, isspace, isdigit, isalnum, toupper, tolower, overlay, c_str, IsCStr,
  lacks, lacks_lem, is_c_str, is_c_str_lem, ℤ, pos, negsuc, pos_part, neg_part, ltb_ℤ, leb_ℤ,
  is_pos, is_neg, is_zero, to_size, decimal, decimal_digits, digits_value, atoi, skip_spaces,
  atoi-decimal, fgets_lines, lines_from, fgets_lines-append, Lacks,
}
use rmsgw.Radio.Sendrf.{Wrote, took, eagain, failed}
use rmsgw.Gateway.Relay.{
  Ending, all_written, given_up, unfinished, Relayed, to_ax25, concat, Accounted,
  to_ax25-Accounted_any, is_nil, then_chunk,
}
use rmsgw.Status.Block.{gw_commwait, gw_sending, gw_receiving}
use rmsgw.Status.Gateways.{set_state}
use rmsgw.Gateway.Conversation.{
  to_cms, Read, CmsSide, cms_quiet, cms_closed, cms_ready, Turn, Conv, Progress, going, returned,
  waiting, note, keep_alive, then_going, received, cms_sense, ax25_sense, after_radio, after_uplink,
  take_cms, take_ax25, cms_reads, ax25_reads, peek, cms_stage, ax25_stage, tick, is_ten, take_turn,
  converse, conv_timeout,
}

-- A conversation after another: what came from the CMS, what went to the radio client, what came from it.
pub record Moved (c d : Conv) (came down up : Str) : Type 0 where
  pub down_written : concat d.radio ≡ concat c.radio ++ down
  pub up_written : concat d.uplink ≡ concat c.uplink ++ up
  pub sent_counted : d.bytes_sent ≡ c.bytes_sent + length came
  pub recv_counted : d.bytes_recv ≡ c.bytes_recv + length up

pub concat-append : (a b : List Str) → concat (a ++ b) ≡ concat a ++ concat b
concat-append [] b = refl
concat-append (x ∷ a) b =
    ap (◌++◌ x) (concat-append a b) ∙ sym (append_assoc x (concat a) (concat b))

pub Moved-then :
    {c d e : Conv} {came down up came' down' up' : Str}
    → Moved c d came down up
    → Moved d e came' down' up'
    → Moved c e (came ++ came') (down ++ down') (up ++ up')
Moved-then {c = c} {came = came} {down = down} {up = up} {came' = came'} {down' = down'} {up' = up'}
      m n =
    record {
      down_written =
          n.down_written
          ∙ ap (λ s. s ++ down') m.down_written
          ∙ append_assoc (concat c.radio) down down';
      up_written =
          n.up_written ∙ ap (λ s. s ++ up') m.up_written ∙ append_assoc (concat c.uplink) up up';
      sent_counted = omega (arith, m.sent_counted, n.sent_counted, length-append came came');
      recv_counted = omega (arith, m.recv_counted, n.recv_counted, length-append up up');
    }

-- Nothing moves when the four fields stay.
pub Moved-still :
    (c d : Conv)
    → (d.radio ≡ c.radio)
      × (d.uplink ≡ c.uplink)
      × (d.bytes_sent ≡ c.bytes_sent)
      × (d.bytes_recv ≡ c.bytes_recv)
    → Moved c d [] [] []
Moved-still c d (a, b, s, r) = record {
  down_written = ap concat a ∙ sym (append-nil (concat c.radio));
  up_written = ap concat b ∙ sym (append-nil (concat c.uplink));
  sent_counted = omega (arith, s);
  recv_counted = omega (arith, r);
}

abbrev pub Same : Conv → Conv → Type 0
Same c d =
    (d.radio ≡ c.radio)
    × (d.uplink ≡ c.uplink)
    × (d.bytes_sent ≡ c.bytes_sent)
    × (d.bytes_recv ≡ c.bytes_recv)

-- A chunk that the test for a keep-alive sees the whole of: one that starts otherwise, or has eight bytes.
abbrev pub plain : Str → Bool
plain [] = false
plain (x ∷ s) = not (x == b';') || leb 8 (length (x ∷ s))

-- What is passed on to the radio client of a chunk.
abbrev pub passed : Str → Str
passed chunk = if strneq chunk keep_alive 8 then [] else chunk

strneq-append : (s t : Str) (n : ℕ) (k : Str) → n ≤ length s → strneq (s ++ t) k n ≡ strneq s k n
unfolding strneq
strneq-append s t zero k h = refl
strneq-append [] t (suc n) k h = absurd (omega arith)
strneq-append (x ∷ s) t (suc n) [] h = refl
strneq-append (x ∷ s) t (suc n) (y ∷ k) h = rw (strneq-append s t n k (omega arith)) refl

plain-keep_alive :
    (chunk old : Str)
    → plain chunk ≡ true
    → strneq (overlay chunk old) keep_alive 8 ≡ strneq chunk keep_alive 8
unfolding overlay
plain-keep_alive [] old h = absurd (cc)
plain-keep_alive (x ∷ s) old h = elim (Bool-cases (leb 8 (length (x ∷ s)))) [
  | inl long ↦ strneq-append (x ∷ s) (drop (length (x ∷ s)) old) 8 keep_alive (ground arith)
  | inr short ↦ let other : (x == b';') ≡ false = ground arith in unfold strneq in rw other refl
]

to_ax25-all_written :
    (paclen : ℕ) (buf : Str) (results : List Wrote)
    → (to_ax25 paclen buf 0 results).ending ≡ all_written
    → concat (to_ax25 paclen buf 0 results).chunks ≡ buf
to_ax25-all_written paclen buf results done =
    let (rest, e, a, i) = to_ax25-Accounted_any paclen buf results in
    sym (
      e
      ∙ ap (◌++◌ (concat (to_ax25 paclen buf 0 results).chunks)) (i.0 done)
      ∙ append-nil (concat (to_ax25 paclen buf 0 results).chunks))

take-drop : (m : ℕ) (s : Str) → take m s ++ drop m s ≡ s
take-drop zero s = refl
take-drop (suc m) [] = refl
take-drop (suc m) (c ∷ s) = ap (λ t. c ∷ t) (take-drop m s)

pub to_cms-all_written :
    (buf : Str) (results : List Wrote)
    → (to_cms buf results).ending ≡ all_written
    → concat (to_cms buf results).chunks ≡ buf
unfolding to_cms
to_cms-all_written [] [] done = refl
to_cms-all_written (x ∷ s) [] done = absurd (cc)
to_cms-all_written [] (took k ∷ results) done = refl
to_cms-all_written (x ∷ s) (took k ∷ results) done =
    let m : ℕ = min k (length (x ∷ s)) in
    ap (◌++◌ (take m (x ∷ s))) (to_cms-all_written (drop m (x ∷ s)) results done)
    ∙ take-drop m (x ∷ s)
to_cms-all_written [] (eagain ∷ results) done = refl
to_cms-all_written (x ∷ s) (eagain ∷ results) done = to_cms-all_written (x ∷ s) results done
to_cms-all_written [] (failed ∷ results) done = refl
to_cms-all_written (x ∷ s) (failed ∷ results) done = absurd (cc)

-- What the reads, the rounds carry: the bytes from the CMS, those for the radio client.
abbrev pub came_of : List Read → Str
came_of [] = []
came_of (r ∷ reads) = r.chunk ++ came_of reads

abbrev pub down_of : List Read → Str
down_of [] = []
down_of (r ∷ reads) = passed r.chunk ++ down_of reads

module _ (paclen u2 u1 : ℕ) where
  -- The reads of a side whose writes all end with everything written.
  abbrev pub FitCms : List Read → Type 0
  FitCms reads =
      All (λ r. (plain r.chunk ≡ true) × ((to_ax25 paclen r.chunk 0 r.writes).ending ≡ all_written))
        reads

  abbrev pub FitAx25 : List Read → Type 0
  FitAx25 reads = All (λ r. (to_cms r.chunk r.writes).ending ≡ all_written) reads

  cms_sense-Same : (chunk : Str) (c : Conv) → Same c (cms_sense paclen u2 u1 chunk c)
  unfolding cms_sense
  cms_sense-Same chunk c = ground arith

  ax25_sense-Same : (chunk : Str) (c : Conv) → Same c (ax25_sense paclen u2 u1 chunk c)
  unfolding ax25_sense
  ax25_sense-Same chunk c = ground arith

  -- The state that a stage goes on with, and what moved.
  abbrev pub Went : Progress → Conv → Str → Str → Str → Type 0
  Went p c came down up = (d : Conv) × (p ≡ going d) × Moved c d came down up

  received-Moved : (chunk : Str) (c : Conv) → Moved c (received paclen u2 u1 chunk c) chunk [] []
  unfolding received
  received-Moved chunk c =
      let c' : Conv = record c {
        bytes_sent = c.bytes_sent + length chunk;
        loop = 0;
        buf = overlay chunk c.buf;
      } in
      let (a, b, s, r) = cms_sense-Same chunk c' in
      record {
        down_written = ap concat a ∙ sym (append-nil (concat c.radio));
        up_written = ap concat b ∙ sym (append-nil (concat c.uplink));
        sent_counted = s;
        recv_counted = omega (arith, r);
      }

  after_radio-going :
      (c : Conv) (r : Relayed)
      → r.ending ≡ all_written
      → after_radio paclen u2 u1 c r ≡ going (record c { radio = c.radio ++ r.chunks })
  unfolding after_radio
  after_radio-going c r e = rw e refl

  pub after_uplink-going :
      (c : Conv) (r : Relayed)
      → r.ending ≡ all_written
      → after_uplink paclen u2 u1 c r ≡ going (record c { uplink = c.uplink ++ r.chunks })
  unfolding after_uplink
  after_uplink-going c r e = rw e refl

  take_cms-Went :
      (r : Read) (c : Conv)
      → plain r.chunk ≡ true
      → (to_ax25 paclen r.chunk 0 r.writes).ending ≡ all_written
      → Went (take_cms paclen u2 u1 r c) c r.chunk (passed r.chunk) []
  unfolding take_cms
  take_cms-Went r c p fits =
      let m = received-Moved r.chunk c in
      let same = plain-keep_alive r.chunk c.buf p in
      elim (Bool-cases (strneq r.chunk keep_alive 8)) [
        | inl keep ↦ rw (same, keep) (received paclen u2 u1 r.chunk c, refl, m)
        | inr other ↦
            rw (same, other)
              (
                record (received paclen u2 u1 r.chunk c) {
                  radio =
                      (received paclen u2 u1 r.chunk c).radio
                      ++ (to_ax25 paclen r.chunk 0 r.writes).chunks;
                },
                after_radio-going (received paclen u2 u1 r.chunk c)
                    (to_ax25 paclen r.chunk 0 r.writes) fits,
                record {
                  down_written =
                      concat-append (received paclen u2 u1 r.chunk c).radio
                        (to_ax25 paclen r.chunk 0 r.writes).chunks
                      ∙ ap (λ s. s ++ concat (to_ax25 paclen r.chunk 0 r.writes).chunks)
                          (m.down_written ∙ append-nil (concat c.radio))
                      ∙ ap (◌++◌ (concat c.radio))
                          (to_ax25-all_written paclen r.chunk r.writes fits);
                  up_written = m.up_written;
                  sent_counted = m.sent_counted;
                  recv_counted = m.recv_counted;
                },
              )
      ]

  take_ax25-Went :
      (r : Read) (c : Conv)
      → (to_cms r.chunk r.writes).ending ≡ all_written
      → Went (take_ax25 paclen u2 u1 r c) c [] [] r.chunk
  unfolding take_ax25
  take_ax25-Went r c fits =
      let c' : Conv = record c {
        bytes_recv = c.bytes_recv + length r.chunk;
        loop = 0;
        buf = overlay r.chunk c.buf;
      } in
      let (a, b, s, n) = ax25_sense-Same r.chunk c' in
      (
        record (ax25_sense paclen u2 u1 r.chunk c') {
          uplink = (ax25_sense paclen u2 u1 r.chunk c').uplink ++ (to_cms r.chunk r.writes).chunks;
        },
        after_uplink-going (ax25_sense paclen u2 u1 r.chunk c') (to_cms r.chunk r.writes) fits,
        record {
          down_written = ap concat a ∙ sym (append-nil (concat c.radio));
          up_written =
              concat-append (ax25_sense paclen u2 u1 r.chunk c').uplink
                (to_cms r.chunk r.writes).chunks
              ∙ ap (λ t. concat t ++ concat (to_cms r.chunk r.writes).chunks) b
              ∙ ap (◌++◌ (concat c.uplink)) (to_cms-all_written r.chunk r.writes fits);
          sent_counted = omega (arith, s);
          recv_counted = n;
        },
      )

  pub cms_reads-Went :
      (reads : List Read) (c : Conv)
      → FitCms reads
      → Went (cms_reads paclen u2 u1 reads c) c (came_of reads) (down_of reads) []
  unfolding cms_reads
  cms_reads-Went [] c h = (c, refl, Moved-still c c (refl, refl, refl, refl))
  cms_reads-Went (r ∷ reads) c ((p, fits), hs) =
      let (d, e, m) = take_cms-Went r c p fits in
      let (d', e', m') = cms_reads-Went reads d hs in (d', rw e e', Moved-then m m')

  pub ax25_reads-Went :
      (reads : List Read) (c : Conv)
      → FitAx25 reads
      → Went (ax25_reads paclen u2 u1 reads c) c [] [] (came_of reads)
  unfolding ax25_reads
  ax25_reads-Went [] c h = (c, refl, Moved-still c c (refl, refl, refl, refl))
  ax25_reads-Went (r ∷ reads) c (fits, hs) =
      let (d, e, m) = take_ax25-Went r c fits in
      let (d', e', m') = ax25_reads-Went reads d hs in (d', rw e e', Moved-then m m')
