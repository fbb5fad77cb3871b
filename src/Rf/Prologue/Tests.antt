-- ===== src/Rf/Prologue/Tests.antt =====
-- A packet on the air, received, and one that follows a refused packet, lost.
use common_lib.Prelude.{
  ◌≡◌, refl, arith, Bool, true, false, List, [], ◌∷◌, map, if◌then◌else◌, inl, inr,
}
use common_lib.Rf.Bits.{low_bits}
use common_lib.Rf.Pulses.{Pulse, All}
use common_lib.Rf.Prologue.{
  success, wait, ProloguePacket, PrologueState, idle, check_bits, check_temperature, store_packet,
}
use common_lib.Rf.Prologue.Laws.{IsPulse, IsPacket, word_of}
use common_lib.Rf.Prologue.Signal.{transmitted, prologue_decoder-receives, prologue_decoder-loses}

abbrev push : List ProloguePacket → ProloguePacket → List ProloguePacket
push q packet = packet ∷ q

abbrev pulse_of : Bool → Pulse
pulse_of b = record { bit = b; high = 520; low = if b then 4000 else 2000 }

pulse_of-IsPulse : (b : Bool) → IsPulse (pulse_of b)
pulse_of-IsPulse true = grind arith
pulse_of-IsPulse false = grind arith

row-All : (b : Bool) (bs : List Bool) → All IsPulse (pulse_of b) (map pulse_of bs)
row-All b [] = pulse_of-IsPulse b
row-All b (b' ∷ bs) = (pulse_of-IsPulse b, row-All b' bs)

-- -21.5 degrees
abbrev packet : ProloguePacket
packet = record {
  packet_type = 9;
  id = 0xa5;
  low_battery = 1;
  channel = 2;
  humidity = 45;
  temperature = 0xffffff29;
}

packet-IsPacket : IsPacket push packet 0 3881
packet-IsPacket = record {
  type_in = inr refl;
  id_in = omega arith;
  low_battery_in = omega arith;
  channel_in = omega arith;
  humidity_in = omega arith;
  unread_in = omega arith;
  t_in = omega arith;
  measured = inr (215, omega arith, omega arith, refl, refl);
}

-- the bits of the packet after the first, which is a 1
abbrev rest : List Bool
rest = low_bits 35 (word_of push packet 0 3881)

abbrev ready : PrologueState (List ProloguePacket)
ready = record { queue = []; last_time = 7; bit_no = idle; bits = 5 }

prologue_decoder-receives_example :
    let out = transmitted push 9000 (pulse_of true) (map pulse_of rest) ready in
    (out.0 ≡ success) × (out.1.queue ≡ packet ∷ []) × (out.1.bit_no ≡ idle)
prologue_decoder-receives_example =
    prologue_decoder-receives push ready 9000 (pulse_of true) (map pulse_of rest) refl (omega arith)
      (omega arith) (omega arith) (omega arith) refl (row-All true rest) packet-IsPacket refl

-- 36 bits of 0, which no packet has
abbrev refused : PrologueState (List ProloguePacket)
refused = record { queue = []; last_time = 7; bit_no = 36; bits = 0 }

prologue_decoder-loses_example :
    let out =
      transmitted push 9000 (pulse_of true) (map pulse_of rest) (check_bits push refused).1 in
    (out.0 ≡ wait) × (out.1.queue ≡ []) × (out.1.bit_no ≡ idle)
unfolding check_bits check_temperature store_packet
prologue_decoder-loses_example =
    prologue_decoder-loses push refused 9000 (pulse_of true) (map pulse_of rest) (inl refl)
      (omega arith) (omega arith) (omega arith) (row-All true rest)
