-- ===== src/Rf/Bresser/Tests.antt =====
-- A reading on the air, and one with a wrong checksum.
use common_lib.Prelude.{
  ℕ, ◌+◌, ◌*◌, ◌^◌, ◌≡◌, refl, arith, Bool, true, false, List, [], ◌∷◌, map, with_sign, xor,
  magnitude, if◌then◌else◌,
}
use common_lib.Rf.Bits.{low_bits}
use common_lib.Rf.Pulses.{Pulse, All}
use common_lib.Rf.Bresser.{success, bad_crc, BresserPacket, BresserState, idle, celsius}
use common_lib.Rf.Bresser.Laws.{IsPulse}
use common_lib.Rf.Bresser.Signal.{
  Reading, content, checksum, packet_of, IsCelsius, transmitted, bresser_decoder-receives,
  bresser_decoder-refuses,
}

abbrev push : List BresserPacket → BresserPacket → List BresserPacket
push q packet = packet ∷ q

abbrev pulse_of : Bool → Pulse
pulse_of b = record { bit = b; high = if b then 500 else 250; low = if b then 250 else 500 }

pulse_of-IsPulse : (b : Bool) → IsPulse (pulse_of b)
pulse_of-IsPulse true = grind arith
pulse_of-IsPulse false = grind arith

row-All : (b : Bool) (bs : List Bool) → All IsPulse (pulse_of b) (map pulse_of bs)
row-All b [] = pulse_of-IsPulse b
row-All b (b' ∷ bs) = (pulse_of-IsPulse b, row-All b' bs)

-- the reading of the comment in the source: 72.6 F and 44 %
abbrev reading : Reading
reading = record { id = 9; battery = 0; channel = 1; t = 1626; humidity = 44 }

celsius_runs : celsius 1626 ≡ 225
unfolding celsius with_sign xor magnitude
celsius_runs = refl

checksum_runs : checksum reading ≡ 0xa5
checksum_runs = refl

abbrev ready : BresserState (List BresserPacket)
ready = record {
  queue = [];
  last_time = 7;
  bit_no = idle;
  sync = idle;
  should_be1 = false;
  bits = 5;
}

abbrev level : ℕ × ℕ
level = (0, 750)

abbrev levels : List (ℕ × ℕ)
levels = (1, 750) ∷ (0, 750) ∷ (1, 750) ∷ (0, 750) ∷ (1, 750) ∷ (0, 750) ∷ (1, 750) ∷ []

-- the bits after the first, which is a 0
abbrev rest : ℕ → List Bool
rest sum = low_bits 39 (content reading * 2 ^ 8 + sum)

bresser_decoder-receives_example :
    let out =
      transmitted push 5000 level levels (pulse_of false) (map pulse_of (rest 0xa5)) ready in
    (c : ℕ) × IsCelsius 1626 c
    × (out.0 ≡ success)
    × (out.1.queue ≡ packet_of reading c ∷ [])
    × (out.1.bit_no ≡ idle)
    × (out.1.sync ≡ idle)
bresser_decoder-receives_example =
    bresser_decoder-receives push ready 5000 level levels (pulse_of false)
      (map pulse_of (rest 0xa5)) refl refl (omega arith) (omega arith) (omega arith) refl
      (omega arith) refl (row-All false (rest 0xa5)) {m = reading} (omega arith) refl

bresser_decoder-refuses_example :
    let out =
      transmitted push 5000 level levels (pulse_of false) (map pulse_of (rest 0xa6)) ready in
    (out.0 ≡ bad_crc) × (out.1.queue ≡ []) × (out.1.bit_no ≡ idle) × (out.1.sync ≡ idle)
bresser_decoder-refuses_example =
    bresser_decoder-refuses push ready 5000 level levels (pulse_of false) (map pulse_of (rest 0xa6))
      refl refl (omega arith) (omega arith) (omega arith) refl (omega arith) refl
      (row-All false (rest 0xa6)) (content reading * 2 ^ 8 + 0xa6) refl (omega arith)
