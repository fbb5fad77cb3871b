-- ===== src/Rf/Nexus/Laws.antt =====
-- What NexusDecoder makes of a signal.
use common_lib.Prelude.{
  ℕ, suc, ◌+◌, ◌*◌, ◌/◌, ◌%◌, ◌^◌, ◌≡◌, ◌≤◌, ◌<◌, ◌-◌, ◌⊎◌, inl, inr, true, false, word_mod, add32,
  lt_signed, refl, ap, ◌∙◌, sym, arith, List, length,
}
use common_lib.Rf.Bits.{shift_in, shift_all}
use common_lib.Rf.Pulses.{Pulse, bits_of, All, edge, pulse, receive, receive_all}
use common_lib.Rf.Nexus.{
  NexusStatus, success, NexusPacket, NexusState, idle, coldest, hottest, temperature_of,
  store_packet, check_temperature, check_bits, nexus_decoder,
}

-- From -60 to 70 degrees in tenths: the 12 bits `t` of a transmission, and the pattern of an `int`,
-- which are both in two's complement.
abbrev pub IsTenths : ℕ → ℕ → Type 0
IsTenths t c =
    ((t ≤ 700) × (c ≡ t)) ⊎ ((d : ℕ) × (1 ≤ d) × (d ≤ 600) × (t ≡ 4096 - d) × (c ≡ word_mod - d))

-- The low level tells the bit.
pub record IsPulse (p : Pulse) : Type 0 where
  pub high_in : (400 ≤ p.high) × (p.high ≤ 600)
  pub low_in :
      (p.bit ≡ true → (1900 ≤ p.low) × (p.low ≤ 2100))
      × (p.bit ≡ false → (900 ≤ p.low) × (p.low ≤ 1100))

module _ {Q : Type 0} (queue_push : Q → NexusPacket → Q) where
  abbrev pub at : ℕ → ℕ → NexusState Q → NexusStatus × NexusState Q
  at e delta r = edge (nexus_decoder queue_push) (λ (s : NexusState Q). s.last_time) e delta r

  abbrev pub pulsed : Pulse → NexusState Q → NexusStatus × NexusState Q
  pulsed p r = pulse (nexus_decoder queue_push) (λ (s : NexusState Q). s.last_time) p r

  -- `n` bits were received, which left `v` in `bits`.
  pub record Receiving (q : Q) (n v : ℕ) (r : NexusState Q) : Type 0 where
    pub queue_is : r.queue ≡ q
    pub bit_no_is : r.bit_no ≡ n
    pub bits_is : r.bits ≡ v
    pub time_in : r.last_time < word_mod

  fall-Receiving :
      {q : Q} {n v : ℕ} {p : Pulse} {r : NexusState Q}
      → IsPulse p
      → n < 36
      → Receiving q n v r
      → Receiving q n v (at 0 p.high r).1
  unfolding nexus_decoder add32
  fall-Receiving i h k = ground arith

  rise-Receiving :
      {q : Q} {n v : ℕ} {p : Pulse} {r : NexusState Q}
      → IsPulse p
      → n < 35
      → Receiving q n v r
      → Receiving q (suc n) (shift_in v p.bit) (at 1 p.low r).1
  unfolding nexus_decoder add32
  rise-Receiving i h k = ground arith

  rise_last :
      {q : Q} {v : ℕ} (p : Pulse) (r : NexusState Q)
      → IsPulse p
      → Receiving q 35 v r
      → at 1 p.low r
        ≡ check_bits queue_push (record {
          queue = q;
          last_time = add32 r.last_time p.low;
          bit_no = 36;
          bits = shift_in v p.bit;
        })
  unfolding nexus_decoder add32
  rise_last p r i k = ground arith

  -- the state in which the bits of a whole packet are checked
  abbrev pub complete : Q → ℕ → ℕ → NexusState Q
  complete q t v = record { queue = q; last_time = t; bit_no = 36; bits = v }

  -- what the last pulse of a packet leads to
  abbrev pub Checked : Q → ℕ → NexusStatus × NexusState Q → Type 0
  Checked q v out = (t : ℕ) × (out ≡ check_bits queue_push (complete q t v))

  pulse-Receiving :
      {q : Q} {n v : ℕ} (p : Pulse) (r : NexusState Q)
      → IsPulse p
      → n < 35
      → Receiving q n v r
      → Receiving q (suc n) (shift_in v p.bit) (pulsed p r).1
  pulse-Receiving p r i h k = rise-Receiving i h (fall-Receiving i (omega arith) k)

  pulse-Checked :
      {q : Q} {v : ℕ} (p : Pulse) (r : NexusState Q)
      → IsPulse p
      → Receiving q 35 v r
      → Checked q (shift_in v p.bit) (pulsed p r)
  pulse-Checked p r i k = (
    add32 (at 0 p.high r).1.last_time p.low,
    rise_last p (at 0 p.high r).1 i (fall-Receiving i (omega arith) k),
  )

  pub row-Checked :
      (q : Q) (p : Pulse) (ps : List Pulse) (v : ℕ) (r : NexusState Q)
      → length ps ≡ 35
      → All IsPulse p ps
      → Receiving q 0 v r
      → Checked q
          (shift_all (bits_of p ps) v)
          (receive (nexus_decoder queue_push) (λ (s : NexusState Q). s.last_time) p ps r)
  row-Checked q p ps v r h =
      receive_all (nexus_decoder queue_push) (λ s. s.last_time) IsPulse 35 (Receiving q) (Checked q)
        (λ p n v s. pulse-Receiving p s) (λ p v s. pulse-Checked p s) p ps 0 v r (omega arith)

  -- The 36 bits of a packet, with one that the decoder does not read and 12 bits of temperature.
  abbrev pub word_of : NexusPacket → ℕ → ℕ → ℕ
  word_of packet unread t =
      packet.id * 2 ^ 28
      + packet.low_battery * 2 ^ 27
      + unread * 2 ^ 26
      + packet.channel * 2 ^ 24
      + t * 2 ^ 12
      + 0xf00
      + packet.humidity

  pub record IsPacket (packet : NexusPacket) (unread t : ℕ) : Type 0 where
    pub id_in : packet.id < 256
    pub low_battery_in : packet.low_battery < 2
    pub channel_in : packet.channel < 4
    pub humidity_in : packet.humidity < 256
    pub unread_in : unread < 2
    pub t_in : t < 4096
    pub measured : IsTenths t packet.temperature

  temperature_of-IsTenths : {t c : ℕ} → IsTenths t c → c ≡ temperature_of t
  unfolding temperature_of
  temperature_of-IsTenths (inl warm) = ground arith
  temperature_of-IsTenths (inr cold) = ground arith

  -- such a temperature is not refused
  IsTenths-kept :
      {t c : ℕ}
      → IsTenths t c
      → (lt_signed (temperature_of t) coldest ≡ false)
        × (lt_signed hottest (temperature_of t) ≡ false)
  unfolding temperature_of lt_signed
  IsTenths-kept (inl warm) = ground arith
  IsTenths-kept (inr cold) = ground arith

  store_packet_word :
      {packet : NexusPacket} {unread t : ℕ} (q : Q) (last_time rest : ℕ)
      → IsPacket packet unread t
      → rest % 2 ^ 24
        ≡ packet.id * 2 ^ 16
          + packet.low_battery * 2 ^ 15
          + unread * 2 ^ 14
          + packet.channel * 2 ^ 12
          + t
      → store_packet queue_push packet.humidity packet.temperature
          (record { queue = q; last_time = last_time; bit_no = 36; bits = rest })
        ≡ (
          success,
          record {
            queue = queue_push q packet;
            last_time = last_time;
            bit_no = idle;
            bits = rest / 2 ^ 12 / 2 ^ 3 / 2;
          },
        )
  unfolding store_packet
  store_packet_word {packet} {unread} {t} q last_time rest i e =
      ap
        (λ (stored : NexusPacket). (
          success,
          record {
            queue = queue_push q stored;
            last_time = last_time;
            bit_no = idle;
            bits = rest / 2 ^ 12 / 2 ^ 3 / 2;
          },
        ))
        same
    where
      same :
          record {
            id = rest / 2 ^ 12 / 2 ^ 3 / 2 % 0x100;
            low_battery = rest / 2 ^ 12 / 2 ^ 3 % 2;
            channel = rest / 2 ^ 12 % 4;
            humidity = packet.humidity;
            temperature = packet.temperature;
          }
          ≡ packet
      same = ground arith

  check_bits-flagged :
      (r : NexusState Q)
      → r.bit_no ≡ 36
      → r.bits / 0x100 % 0x10 ≡ 0xf
      → check_bits queue_push r
        ≡ check_temperature queue_push (r.bits % 0x100) (record r { bits = r.bits / 2 ^ 12 })
  unfolding check_bits
  check_bits-flagged r n f = ground arith

  check_temperature-warm :
      {t : ℕ} (humidity : ℕ) (r : NexusState Q)
      → r.bits % 0x1000 ≡ t
      → lt_signed (temperature_of t) coldest ≡ false
      → lt_signed hottest (temperature_of t) ≡ false
      → check_temperature queue_push humidity r
        ≡ store_packet queue_push humidity (temperature_of t) r
  unfolding check_temperature
  check_temperature-warm humidity r e w c = rw (e, w, c)

  pub check_bits-complete :
      {packet : NexusPacket} {unread t : ℕ} (q : Q) (last_time v : ℕ)
      → IsPacket packet unread t
      → v % 2 ^ 36 ≡ word_of packet unread t
      → (b : ℕ) × (check_bits queue_push (complete q last_time v) ≡ (
        success,
        record { queue = queue_push q packet; last_time = last_time; bit_no = idle; bits = b },
      ))
  check_bits-complete {packet} {unread} {t} q last_time v i e = (
    v / 2 ^ 12 / 2 ^ 12 / 2 ^ 3 / 2,
    checked ∙ store_packet_word q last_time (v / 2 ^ 12) i (omega arith),
  )
    where
      humidity_read : v % 0x100 ≡ packet.humidity
      humidity_read = omega arith

      flag_read : v / 0x100 % 0x10 ≡ 0xf
      flag_read = omega arith

      temperature_read : v / 2 ^ 12 % 0x1000 ≡ t
      temperature_read = omega arith

      left : NexusState Q
      left = record { queue = q; last_time = last_time; bit_no = 36; bits = v / 2 ^ 12 }

      checked :
          check_bits queue_push (complete q last_time v)
          ≡ store_packet queue_push packet.humidity packet.temperature left
      checked =
          check_bits-flagged (complete q last_time v) refl flag_read
          ∙ ap (λ h. check_temperature queue_push h left) humidity_read
          ∙ check_temperature-warm packet.humidity left temperature_read
              (IsTenths-kept i.measured).0 (IsTenths-kept i.measured).1
          ∙ ap (λ d. store_packet queue_push packet.humidity d left)
              (sym (temperature_of-IsTenths i.measured))
