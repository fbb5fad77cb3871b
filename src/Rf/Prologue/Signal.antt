-- ===== src/Rf/Prologue/Signal.antt =====
-- Whole transmissions through PrologueDecoder: one that is received, and one that is lost.
use common_lib.Prelude.{
  ℕ, ◌%◌, ◌^◌, ◌≡◌, ◌≤◌, ◌<◌, true, is_neg, word_mod, add32, refl, ap, ◌∙◌, arith, List, length,
  ◌⊎◌, inl, inr,
}
use common_lib.Rf.Bits.{shift_all, number, long_mod}
use common_lib.Rf.Pulses.{Pulse, bits_of, All, receive, receive_keeps, shift_all-row}
use common_lib.Rf.Prologue.{
  PrologueStatus, success, bad_type, bad_temperature, wait, ProloguePacket, PrologueState, idle,
  prologue_decoder, check_bits, check_temperature, store_packet,
}
use common_lib.Rf.Prologue.Laws.{
  IsPulse, at, pulsed, Receiving, row-Checked, IsPacket, word_of, check_bits-complete,
}

module _ {Q : Type 0} (queue_push : Q → ProloguePacket → Q) where
  begin-Receiving :
      {gap : ℕ} (r : PrologueState Q)
      → is_neg r.bit_no ≡ true
      → r.last_time < word_mod
      → 8900 ≤ gap
      → gap < word_mod
      → Receiving queue_push r.queue 0 r.bits (at queue_push 1 gap r).1
  unfolding prologue_decoder add32
  begin-Receiving r idle_now time_in long short = ground arith

  -- the calls at the gap before a packet and at its pulses
  abbrev pub transmitted :
      ℕ → Pulse → List Pulse → PrologueState Q → PrologueStatus × PrologueState Q
  transmitted gap p ps r =
      receive (prologue_decoder queue_push) (λ (s : PrologueState Q). s.last_time) p ps
        (at queue_push 1 gap r).1

  -- A gap of at least 8900 and 36 pulses within their tolerances, which carry the bits of a packet, put
  -- that packet into the queue, whatever was received before, if the decoder is not inside a packet.
  -- It is ready for the next one then.
  pub prologue_decoder-receives :
      {packet : ProloguePacket} {unread t : ℕ} (r : PrologueState Q) (gap : ℕ) (p : Pulse)
      (ps : List Pulse)
      → is_neg r.bit_no ≡ true
      → r.last_time < word_mod
      → r.bits < long_mod
      → 8900 ≤ gap
      → gap < word_mod
      → length ps ≡ 35
      → All IsPulse p ps
      → IsPacket queue_push packet unread t
      → number (bits_of p ps) 0 ≡ word_of queue_push packet unread t
      → let out = transmitted gap p ps r in
        (out.0 ≡ success) × (out.1.queue ≡ queue_push r.queue packet) × (out.1.bit_no ≡ idle)
  prologue_decoder-receives {packet} {unread} {t} r gap p ps idle_now time_in bits_in long short len
        pulses i word =
      let (time, e) =
        row-Checked queue_push r.queue p ps r.bits (at queue_push 1 gap r).1 len pulses
          (begin-Receiving r idle_now time_in long short) in
      let v : ℕ = shift_all (bits_of p ps) r.bits in
      let low : v % 2 ^ 36 ≡ word_of queue_push packet unread t =
        omega (arith, shift_all-row p ps 36 r.bits (2 ^ 36) bits_in (omega arith) refl) in
      let (b, stored) = check_bits-complete queue_push r.queue time v i low in
      (
        ap (λ (o : PrologueStatus × PrologueState Q). o.0) (e ∙ stored),
        ap (λ (o : PrologueStatus × PrologueState Q). o.1.queue) (e ∙ stored),
        ap (λ (o : PrologueStatus × PrologueState Q). o.1.bit_no) (e ∙ stored),
      )

  -- The decoder waits for the gap of a packet.
  Waiting : Q → PrologueState Q → Type 0
  Waiting q r = (r.queue ≡ q) × (r.bit_no ≡ idle) × (r.last_time < word_mod)

  pulse-Waiting :
      (q : Q) (p : Pulse) (r : PrologueState Q)
      → IsPulse p
      → Waiting q r
      → Waiting q (pulsed queue_push p r).1 × ((pulsed queue_push p r).0 ≡ wait)
  unfolding Waiting prologue_decoder add32
  pulse-Waiting q p r i w = ground arith

  refused_inside :
      (r : PrologueState Q)
      → ((check_bits queue_push r).0 ≡ bad_type) ⊎ ((check_bits queue_push r).0 ≡ bad_temperature)
      → ((check_bits queue_push r).1.bit_no ≡ 36)
        × ((check_bits queue_push r).1.queue ≡ r.queue)
        × ((check_bits queue_push r).1.last_time ≡ r.last_time)
  unfolding check_bits check_temperature store_packet
  refused_inside r (inl flagged) = ground arith
  refused_inside r (inr cold) = ground arith

  begin-Waiting :
      (gap : ℕ) (r : PrologueState Q)
      → r.bit_no ≡ 36
      → r.last_time < word_mod
      → 8900 ≤ gap
      → gap < word_mod
      → Waiting r.queue (at queue_push 1 gap r).1
  unfolding Waiting prologue_decoder add32
  begin-Waiting gap r n time_in long short = ground arith

  -- A packet that is refused for its type or its temperature leaves the decoder inside a packet: it takes
  -- the gap of the next transmission for a bad level, waits through the pulses, and stores nothing.
  pub prologue_decoder-loses :
      (r : PrologueState Q) (gap : ℕ) (p : Pulse) (ps : List Pulse)
      → ((check_bits queue_push r).0 ≡ bad_type) ⊎ ((check_bits queue_push r).0 ≡ bad_temperature)
      → r.last_time < word_mod
      → 8900 ≤ gap
      → gap < word_mod
      → All IsPulse p ps
      → let out = transmitted gap p ps (check_bits queue_push r).1 in
        (out.0 ≡ wait) × (out.1.queue ≡ r.queue) × (out.1.bit_no ≡ idle)
  unfolding Waiting
  prologue_decoder-loses r gap p ps refused time_in long short pulses =
      let s = (check_bits queue_push r).1 in
      let (inside, kept, time) = refused_inside r refused in
      let (waiting, status) =
        receive_keeps (prologue_decoder queue_push) (λ s. s.last_time) IsPulse (Waiting s.queue)
          (λ answer. answer ≡ wait) (pulse-Waiting s.queue) p ps (at queue_push 1 gap s).1 pulses
          (begin-Waiting gap s inside (omega arith) long short) in
      (status, waiting.0 ∙ kept, waiting.1)
