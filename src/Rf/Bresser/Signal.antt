-- ===== src/Rf/Bresser/Signal.antt =====
-- Whole transmissions through BresserDecoder: one that is received, and one with a wrong checksum.
use common_lib.Prelude.{
  ℕ, ◌+◌, ◌*◌, ◌/◌, ◌%◌, ◌^◌, ◌==◌, ◌≡◌, ◌≢◌, ◌≤◌, ◌<◌, ltb, leb, ◌-◌, ◌⊎◌, inl, inr, Bool-cases,
  sub32, mul32, div_signed, magnitude, with_sign, xor, Bool, true, false, is_neg, word_mod, refl,
  ap, ◌∙◌, arith, List, length,
}
use common_lib.Rf.Bits.{shift_all, number, long_mod}
use common_lib.Rf.Pulses.{Pulse, bits_of, All, receive, shift_all-row}
use common_lib.Rf.Bresser.{
  BresserStatus, success, bad_crc, BresserPacket, BresserState, idle, byte_at, celsius,
  store_packet, check_bits, bresser_decoder,
}
use common_lib.Rf.Bresser.Laws.{
  IsPulse, at, row-Checked, preamble-Receiving, levels_end, AreSync, complete,
}

-- `t` is in tenths of a degree Fahrenheit, 900 too many; `c` is the nearest tenth of a degree Celsius
-- towards 0, as a 32-bit pattern: 18 of its units are 10 of those that `t` is above 32 degrees.
abbrev pub IsCelsius : ℕ → ℕ → Type 0
IsCelsius t c =
    ((1220 ≤ t) × (c * 18 ≤ (t - 1220) * 10) × ((t - 1220) * 10 < c * 18 + 18))
    ⊎ ((d : ℕ) × (t < 1220)
        × (d * 18 ≤ (1220 - t) * 10)
        × ((1220 - t) * 10 < d * 18 + 18)
        × (c ≡ (word_mod - d) % word_mod))

celsius-warm : (t : ℕ) → 1220 ≤ t → t < 4096 → celsius t ≡ (t - 1220) * 10 / 18
unfolding celsius sub32 mul32 div_signed magnitude with_sign xor
celsius-warm t h k = ground arith

celsius-cold : (t : ℕ) → t < 1220 → celsius t ≡ (word_mod - (1220 - t) * 10 / 18) % word_mod
unfolding celsius sub32 mul32 div_signed magnitude with_sign xor
celsius-cold t h = ground arith

celsius-IsCelsius : (t : ℕ) → t < 4096 → IsCelsius t (celsius t)
celsius-IsCelsius t h = elim (Bool-cases (leb 1220 t)) [
  | inl warm ↦
      let e = celsius-warm t (ground (arith, warm)) h in
      inl (ground (arith, warm), omega (arith, e), omega (arith, e))
  | inr cold ↦ inr (
    (1220 - t) * 10 / 18,
    ground (arith, cold),
    omega arith,
    omega arith,
    celsius-cold t (ground (arith, cold)),
  )
]

-- What a sensor measures: the low battery flag is one bit, the temperature 12.
pub record Reading : Type 0 where
  pub id : ℕ
  pub battery : ℕ
  pub channel : ℕ
  pub t : ℕ
  pub humidity : ℕ

pub record IsReading (m : Reading) : Type 0 where
  pub id_in : m.id < 256
  pub battery_in : m.battery < 2
  pub channel_in : m.channel < 8
  pub t_in : m.t < 4096
  pub humidity_in : m.humidity ≤ 100

abbrev pub checksum : Reading → ℕ
checksum m = (m.id + (m.battery * 128 + m.channel * 16 + m.t / 256) + m.t % 256 + m.humidity) % 256

-- the first four bytes of the transmission
abbrev pub content : Reading → ℕ
content m = m.id * 2 ^ 24 + (m.battery * 128 + m.channel * 16) * 2 ^ 16 + m.t * 2 ^ 8 + m.humidity

abbrev pub packet_of : Reading → ℕ → BresserPacket
packet_of m c = record {
  id = m.id;
  low_battery = m.battery * 8;
  channel = m.channel;
  humidity = m.humidity;
  temperature = c;
}

module _ {Q : Type 0} (queue_push : Q → BresserPacket → Q) where
  store_packet_reading :
      {m : Reading} (r : BresserState Q)
      → IsReading m
      → r.bits / 2 ^ 8 % 2 ^ 32 ≡ content m
      → store_packet queue_push r
        ≡ (success, record r { queue = queue_push r.queue (packet_of m (celsius m.t)) })
  unfolding store_packet
  store_packet_reading {m} r i e =
      let measured : r.bits / 2 ^ 16 % 0x1000 ≡ m.t = omega arith in
      let converted : celsius (r.bits / 2 ^ 16 % 0x1000) ≡ celsius m.t = ap celsius measured in
      ground arith

  -- the calls at the edges of a transmission: the first, the preamble, and the pulses
  abbrev pub transmitted :
      ℕ
      → ℕ × ℕ
      → List (ℕ × ℕ)
      → Pulse
      → List Pulse
      → BresserState Q
      → BresserStatus × BresserState Q
  transmitted gap l ls p ps r =
      receive (bresser_decoder queue_push) (λ (s : BresserState Q). s.last_time) p ps
        (levels_end queue_push l ls (at queue_push 1 gap r).1)

  check_bits-reading :
      {m : Reading} (q : Q) (t : ℕ) (b : Bool) (v : ℕ)
      → IsReading m
      → v % 2 ^ 40 ≡ content m * 2 ^ 8 + checksum m
      → check_bits queue_push (complete queue_push q t b v) ≡ (
        success,
        record (complete queue_push q t b v) {
          queue = queue_push q (packet_of m (celsius m.t));
          bit_no = idle;
        },
      )
  unfolding check_bits
  check_bits-reading {m} q t b v i e =
      rw (summed, dry)
        (store_packet_reading (record (complete queue_push q t b v) { bit_no = idle }) i
          (omega arith))
    where
      summed :
          ((byte_at v 4 + byte_at v 3 + byte_at v 2 + byte_at v 1) % 0x100 == byte_at v 0) ≡ true
      summed = ground arith

      dry : ltb 100 (byte_at v 1) ≡ false
      dry = ground arith

  check_bits-crc :
      (q : Q) (t : ℕ) (b : Bool) (v w : ℕ)
      → v % 2 ^ 40 ≡ w
      → (w / 2 ^ 32 + w / 2 ^ 24 % 256 + w / 2 ^ 16 % 256 + w / 2 ^ 8 % 256) % 256 ≢ w % 256
      → check_bits queue_push (complete queue_push q t b v)
        ≡ (bad_crc, record (complete queue_push q t b v) { bit_no = idle })
  unfolding check_bits
  check_bits-crc q t b v w e ne = rw differs
    where
      differs :
          ((byte_at v 4 + byte_at v 3 + byte_at v 2 + byte_at v 1) % 0x100 == byte_at v 0) ≡ false
      differs = ground arith

-- A decoder that is waiting, and a transmission: the first edge, the eight levels of a preamble and 40 pulses, all within their
-- tolerances.
module _ {Q : Type 0} (queue_push : Q → BresserPacket → Q) (r : BresserState Q) (gap : ℕ)
    (l : ℕ × ℕ) (ls : List (ℕ × ℕ)) (p : Pulse) (ps : List Pulse) (sync : is_neg r.sync ≡ true)
    (idle_now : r.bit_no ≡ idle) (time_in : r.last_time < word_mod) (bits_in : r.bits < long_mod)
    (short : gap < word_mod) (seven : length ls ≡ 7) (levels : AreSync queue_push l ls)
    (len : length ps ≡ 39) (pulses : All IsPulse p ps) where
  transmitted-complete :
      (t : ℕ) × (b : Bool) × (v : ℕ) × (v % 2 ^ 40 ≡ number (bits_of p ps) 0 % 2 ^ 40)
      × (transmitted queue_push gap l ls p ps r
          ≡ check_bits queue_push (complete queue_push r.queue t b v))
  transmitted-complete =
      let s = levels_end queue_push l ls (at queue_push 1 gap r).1 in
      let (t, b, e) =
        row-Checked queue_push r.queue p ps r.bits s len pulses
          (preamble-Receiving queue_push gap l ls r sync idle_now short time_in seven levels) in
      (
        t,
        b,
        shift_all (bits_of p ps) r.bits,
        omega (arith, shift_all-row p ps 40 r.bits (2 ^ 40) bits_in (omega arith) refl),
        e,
      )

  -- An edge, eight levels of a preamble and 40 pulses, within their tolerances, that carry a reading
  -- and its checksum, put what was measured into the queue of a decoder that is waiting, with the
  -- temperature in tenths of a degree Celsius, cut towards 0, and leave it waiting for the next transmission.
  pub bresser_decoder-receives :
      {m : Reading}
      → IsReading m
      → number (bits_of p ps) 0 ≡ content m * 2 ^ 8 + checksum m
      → let out = transmitted queue_push gap l ls p ps r in
        (c : ℕ) × IsCelsius m.t c
        × (out.0 ≡ success)
        × (out.1.queue ≡ queue_push r.queue (packet_of m c))
        × (out.1.bit_no ≡ idle)
        × (out.1.sync ≡ idle)
  bresser_decoder-receives {m} i word =
      let (t, b, v, low, e) = transmitted-complete in
      let stored = e ∙ check_bits-reading queue_push r.queue t b v i (omega arith) in
      (
        celsius m.t,
        celsius-IsCelsius m.t i.t_in,
        ap (λ (o : BresserStatus × BresserState Q). o.0) stored,
        ap (λ (o : BresserStatus × BresserState Q). o.1.queue) stored,
        ap (λ (o : BresserStatus × BresserState Q). o.1.bit_no) stored,
        ap (λ (o : BresserStatus × BresserState Q). o.1.sync) stored,
      )

  -- Such a transmission whose last byte is not the sum of the four before it, modulo 256, is refused by
  -- a decoder that is waiting: the queue keeps what it had, and the decoder waits for the next one.
  pub bresser_decoder-refuses :
      (w : ℕ)
      → number (bits_of p ps) 0 % 2 ^ 40 ≡ w
      → (w / 2 ^ 32 + w / 2 ^ 24 % 256 + w / 2 ^ 16 % 256 + w / 2 ^ 8 % 256) % 256 ≢ w % 256
      → let out = transmitted queue_push gap l ls p ps r in
        (out.0 ≡ bad_crc) × (out.1.queue ≡ r.queue) × (out.1.bit_no ≡ idle) × (out.1.sync ≡ idle)
  bresser_decoder-refuses w word ne =
      let (t, b, v, low, e) = transmitted-complete in
      let refused = e ∙ check_bits-crc queue_push r.queue t b v w (low ∙ word) ne in
      (
        ap (λ (o : BresserStatus × BresserState Q). o.0) refused,
        ap (λ (o : BresserStatus × BresserState Q). o.1.queue) refused,
        ap (λ (o : BresserStatus × BresserState Q). o.1.bit_no) refused,
        ap (λ (o : BresserStatus × BresserState Q). o.1.sync) refused,
      )
