-- ===== src/Rf/Prologue/Laws.antt =====
-- What PrologueDecoder makes of a signal.
use common_lib.Prelude.{
  ℕ, suc, ◌+◌, ◌*◌, ◌/◌, ◌%◌, ◌^◌, ◌==◌, ◌≡◌, ◌≤◌, ◌<◌, ◌-◌, inl, inr, not, ◌&&◌, true, false,
  word_mod, add32, lt_signed, ◌⊎◌, refl, ap, ◌∙◌, sym, arith, List, length,
}
use common_lib.Rf.Bits.{shift_in, shift_all}
use common_lib.Rf.Pulses.{Pulse, bits_of, All, edge, pulse, receive, receive_all}
use common_lib.Rf.Prologue.{
  PrologueStatus, success, ProloguePacket, PrologueState, idle, coldest, hottest, temperature_of,
  store_packet, check_temperature, check_bits, prologue_decoder,
}

-- From -60 to 70 degrees in tenths: the 12 bits `t` of a transmission, and the pattern of an `int`,
-- which are both in two's complement.
abbrev pub IsTenths : ℕ → ℕ → Type 0
IsTenths t c =
    ((t ≤ 700) × (c ≡ t)) ⊎ ((d : ℕ) × (1 ≤ d) × (d ≤ 600) × (t ≡ 4096 - d) × (c ≡ word_mod - d))

-- The low level tells the bit.
pub record IsPulse (p : Pulse) : Type 0 where
  pub high_in : (400 ≤ p.high) × (p.high ≤ 600)
  pub low_in :
      (p.bit ≡ true → (3900 ≤ p.low) × (p.low ≤ 4100))
      × (p.bit ≡ false → (1900 ≤ p.low) × (p.low ≤ 2100))

module _ {Q : Type 0} (queue_push : Q → ProloguePacket → Q) where
  abbrev pub at : ℕ → ℕ → PrologueState Q → PrologueStatus × PrologueState Q
  at e delta r = edge (prologue_decoder queue_push) (λ (s : PrologueState Q). s.last_time) e delta r

  abbrev pub pulsed : Pulse → PrologueState Q → PrologueStatus × PrologueState Q
  pulsed p r = pulse (prologue_decoder queue_push) (λ (s : PrologueState Q). s.last_time) p r

  -- `n` bits were received, which left `v` in `bits`.
  pub record Receiving (q : Q) (n v : ℕ) (r : PrologueState Q) : Type 0 where
    pub queue_is : r.queue ≡ q
    pub bit_no_is : r.bit_no ≡ n
    pub bits_is : r.bits ≡ v
    pub time_in : r.last_time < word_mod

  fall-Receiving :
      {q : Q} {n v : ℕ} {p : Pulse} {r : PrologueState Q}
      → IsPulse p
      → n < 36
      → Receiving q n v r
      → Receiving q n v (at 0 p.high r).1
  unfolding prologue_decoder add32
  fall-Receiving i h k = ground arith

  rise-Receiving :
      {q : Q} {n v : ℕ} {p : Pulse} {r : PrologueState Q}
      → IsPulse p
      → n < 35
      → Receiving q n v r
      → Receiving q (suc n) (shift_in v p.bit) (at 1 p.low r).1
  unfolding prologue_decoder add32
  rise-Receiving i h k = ground arith

  rise_last :
      {q : Q} {v : ℕ} (p : Pulse) (r : PrologueState Q)
      → IsPulse p
      → Receiving q 35 v r
      → at 1 p.low r
        ≡ check_bits queue_push (record {
          queue = q;
          last_time = add32 r.last_time p.low;
          bit_no = 36;
          bits = shift_in v p.bit;
        })
  unfolding prologue_decoder add32
  rise_last p r i k = ground arith

  -- the state in which the bits of a whole packet are checked
  abbrev pub complete : Q → ℕ → ℕ → PrologueState Q
  complete q t v = record { queue = q; last_time = t; bit_no = 36; bits = v }

  -- what the last pulse of a packet leads to
  abbrev pub Checked : Q → ℕ → PrologueStatus × PrologueState Q → Type 0
  Checked q v out = (t : ℕ) × (out ≡ check_bits queue_push (complete q t v))

  pulse-Receiving :
      {q : Q} {n v : ℕ} (p : Pulse) (r : PrologueState Q)
      → IsPulse p
      → n < 35
      → Receiving q n v r
      → Receiving q (suc n) (shift_in v p.bit) (pulsed p r).1
  pulse-Receiving p r i h k = rise-Receiving i h (fall-Receiving i (omega arith) k)

  pulse-Checked :
      {q : Q} {v : ℕ} (p : Pulse) (r : PrologueState Q)
      → IsPulse p
      → Receiving q 35 v r
      → Checked q (shift_in v p.bit) (pulsed p r)
  pulse-Checked p r i k = (
    add32 (at 0 p.high r).1.last_time p.low,
    rise_last p (at 0 p.high r).1 i (fall-Receiving i (omega arith) k),
  )

  pub row-Checked :
      (q : Q) (p : Pulse) (ps : List Pulse) (v : ℕ) (r : PrologueState Q)
      → length ps ≡ 35
      → All IsPulse p ps
      → Receiving q 0 v r
      → Checked q
          (shift_all (bits_of p ps) v)
          (receive (prologue_decoder queue_push) (λ (s : PrologueState Q). s.last_time) p ps r)
  row-Checked q p ps v r h =
      receive_all (prologue_decoder queue_push) (λ s. s.last_time) IsPulse 35 (Receiving q)
        (Checked q) (λ p n v s. pulse-Receiving p s) (λ p v s. pulse-Checked p s) p ps 0 v r
        (omega arith)

  -- The 36 bits of a packet, with one that the decoder does not read and 12 bits of temperature.
  abbrev pub word_of : ProloguePacket → ℕ → ℕ → ℕ
  word_of packet unread t =
      packet.packet_type * 2 ^ 32
      + packet.id * 2 ^ 24
      + packet.low_battery * 2 ^ 23
      + unread * 2 ^ 22
      + packet.channel * 2 ^ 20
      + t * 2 ^ 8
      + packet.humidity

  pub record IsPacket (packet : ProloguePacket) (unread t : ℕ) : Type 0 where
    pub type_in : (packet.packet_type ≡ 5) ⊎ (packet.packet_type ≡ 9)
    pub id_in : packet.id < 256
    pub low_battery_in : packet.low_battery < 2
    pub channel_in : packet.channel < 4
    pub humidity_in : packet.humidity < 256
    pub unread_in : unread < 2
    pub t_in : t < 4096
    pub measured : IsTenths t packet.temperature

  temperature_of-IsTenths : {t c : ℕ} → IsTenths t c → c ≡ temperature_of t
  unfolding temperature_of
  temperature_of-IsTenths (inl warm) = ground arith
  temperature_of-IsTenths (inr cold) = ground arith

  -- such a temperature is not refused
  IsTenths-kept :
      {t c : ℕ}
      → IsTenths t c
      → (lt_signed (temperature_of t) coldest ≡ false)
        × (lt_signed hottest (temperature_of t) ≡ false)
  unfolding temperature_of lt_signed
  IsTenths-kept (inl warm) = ground arith
  IsTenths-kept (inr cold) = ground arith

  store_packet_word :
      {packet : ProloguePacket} {unread t : ℕ} (q : Q) (last_time rest : ℕ)
      → IsPacket packet unread t
      → rest % 2 ^ 28
        ≡ packet.packet_type * 2 ^ 24
          + packet.id * 2 ^ 16
          + packet.low_battery * 2 ^ 15
          + unread * 2 ^ 14
          + packet.channel * 2 ^ 12
          + t
      → store_packet queue_push packet.humidity packet.temperature
          (record { queue = q; last_time = last_time; bit_no = 36; bits = rest })
        ≡ (
          success,
          record {
            queue = queue_push q packet;
            last_time = last_time;
            bit_no = idle;
            bits = rest / 2 ^ 12 / 2 ^ 3 / 2 / 2 ^ 8;
          },
        )
  unfolding store_packet
  store_packet_word {packet} {unread} {t} q last_time rest i e = rw typed (
      ap
        (λ (stored : ProloguePacket). (
          success,
          record {
            queue = queue_push q stored;
            last_time = last_time;
            bit_no = idle;
            bits = rest / 2 ^ 12 / 2 ^ 3 / 2 / 2 ^ 8;
          },
        ))
        same)
    where
      typed :
          (not (rest / 2 ^ 12 / 2 ^ 3 / 2 / 2 ^ 8 % 0x10 == 5)
            && not (rest / 2 ^ 12 / 2 ^ 3 / 2 / 2 ^ 8 % 0x10 == 9))
          ≡ false
      typed = ground arith

      same :
          record {
            packet_type = rest / 2 ^ 12 / 2 ^ 3 / 2 / 2 ^ 8 % 0x10;
            id = rest / 2 ^ 12 / 2 ^ 3 / 2 % 0x100;
            low_battery = rest / 2 ^ 12 / 2 ^ 3 % 2;
            channel = rest / 2 ^ 12 % 4;
            humidity = packet.humidity;
            temperature = packet.temperature;
          }
          ≡ packet
      same = ground arith

  check_bits-full :
      (r : PrologueState Q)
      → r.bit_no ≡ 36
      → check_bits queue_push r
        ≡ check_temperature queue_push (r.bits % 0x100) (record r { bits = r.bits / 2 ^ 8 })
  unfolding check_bits
  check_bits-full r n = ground arith

  check_temperature-warm :
      {t : ℕ} (humidity : ℕ) (r : PrologueState Q)
      → r.bits % 0x1000 ≡ t
      → lt_signed (temperature_of t) coldest ≡ false
      → lt_signed hottest (temperature_of t) ≡ false
      → check_temperature queue_push humidity r
        ≡ store_packet queue_push humidity (temperature_of t) r
  unfolding check_temperature
  check_temperature-warm humidity r e w c = rw (e, w, c)

  pub check_bits-complete :
      {packet : ProloguePacket} {unread t : ℕ} (q : Q) (last_time v : ℕ)
      → IsPacket packet unread t
      → v % 2 ^ 36 ≡ word_of packet unread t
      → (b : ℕ) × (check_bits queue_push (complete q last_time v) ≡ (
        success,
        record { queue = queue_push q packet; last_time = last_time; bit_no = idle; bits = b },
      ))
  check_bits-complete {packet} {unread} {t} q last_time v i e = (
    v / 2 ^ 8 / 2 ^ 12 / 2 ^ 3 / 2 / 2 ^ 8,
    checked ∙ store_packet_word q last_time (v / 2 ^ 8) i (omega arith),
  )
    where
      humidity_read : v % 0x100 ≡ packet.humidity
      humidity_read = omega arith

      temperature_read : v / 2 ^ 8 % 0x1000 ≡ t
      temperature_read = omega arith

      left : PrologueState Q
      left = record { queue = q; last_time = last_time; bit_no = 36; bits = v / 2 ^ 8 }

      checked :
          check_bits queue_push (complete q last_time v)
          ≡ store_packet queue_push packet.humidity packet.temperature left
      checked =
          check_bits-full (complete q last_time v) refl
          ∙ ap (λ h. check_temperature queue_push h left) humidity_read
          ∙ check_temperature-warm packet.humidity left temperature_read
              (IsTenths-kept i.measured).0 (IsTenths-kept i.measured).1
          ∙ ap (λ d. store_packet queue_push packet.humidity d left)
              (sym (temperature_of-IsTenths i.measured))
