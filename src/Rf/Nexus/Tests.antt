-- ===== src/Rf/Nexus/Tests.antt =====
-- A packet on the air, received, and one that follows a refused packet, lost.
use common_lib.Prelude.{◌≡◌, refl, arith, Bool, true, false, List, [], ◌∷◌, inr, map, if◌then◌else◌}
use common_lib.Rf.Bits.{low_bits}
use common_lib.Rf.Pulses.{Pulse, All}
use common_lib.Rf.Nexus.{success, NexusPacket, NexusState, idle}
use common_lib.Rf.Nexus.Laws.{IsPulse, IsPacket, word_of}
use common_lib.Rf.Nexus.Signal.{transmitted, nexus_decoder-receives}

abbrev push : List NexusPacket → NexusPacket → List NexusPacket
push q packet = packet ∷ q

abbrev pulse_of : Bool → Pulse
pulse_of b = record { bit = b; high = 520; low = if b then 2000 else 1000 }

pulse_of-IsPulse : (b : Bool) → IsPulse (pulse_of b)
pulse_of-IsPulse true = grind arith
pulse_of-IsPulse false = grind arith

row-All : (b : Bool) (bs : List Bool) → All IsPulse (pulse_of b) (map pulse_of bs)
row-All b [] = pulse_of-IsPulse b
row-All b (b' ∷ bs) = (pulse_of-IsPulse b, row-All b' bs)

-- -21.5 degrees
abbrev packet : NexusPacket
packet = record { id = 0xa5; low_battery = 1; channel = 2; humidity = 45; temperature = 0xffffff29 }

packet-IsPacket : IsPacket push packet 0 3881
packet-IsPacket = record {
  id_in = omega arith;
  low_battery_in = omega arith;
  channel_in = omega arith;
  humidity_in = omega arith;
  unread_in = omega arith;
  t_in = omega arith;
  measured = inr (215, omega arith, omega arith, refl, refl);
}

-- the bits of the packet after the first, which is a 1
abbrev rest : List Bool
rest = low_bits 35 (word_of push packet 0 3881)

abbrev ready : NexusState (List NexusPacket)
ready = record { queue = []; last_time = 7; bit_no = idle; bits = 5 }

nexus_decoder-receives_example :
    let out = transmitted push 4000 (pulse_of true) (map pulse_of rest) ready in
    (out.0 ≡ success) × (out.1.queue ≡ packet ∷ []) × (out.1.bit_no ≡ idle)
nexus_decoder-receives_example =
    nexus_decoder-receives push ready 4000 (pulse_of true) (map pulse_of rest) refl (omega arith)
      (omega arith) (omega arith) (omega arith) refl (row-All true rest) packet-IsPacket refl

-- 36 bits of 0, which no packet has
abbrev refused : NexusState (List NexusPacket)
refused = record { queue = []; last_time = 7; bit_no = 36; bits = 0 }
