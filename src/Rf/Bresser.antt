-- ===== src/Rf/Bresser.antt =====
-- rf/BresserDecoder.c. `int` and `unsigned int` are 32-bit patterns; `data` is one 64-bit number, whose
-- byte i and 16-bit word i, in little-endian order, are quotients. The queue and its `queue_push` are
-- not this file's.
pub mod Laws
pub mod Signal
mod Tests
use common_lib.Prelude.{
  ℕ, ◌+◌, ◌-◌, ◌*◌, ◌/◌, ◌%◌, ◌^◌, ◌==◌, ltb, leb, if◌then◌else◌, Bool, not, ◌&&◌, ◌||◌, true,
  false, is_neg, word_mod, add32, sub32, mul32, div_signed,
}
use common_lib.Rf.Bits.{shift_in}

pub data BresserStatus : Type 0 where
  success : BresserStatus
  wait : BresserStatus
  start : BresserStatus
  bad_level_one_duration : BresserStatus
  bad_level_zero_duration : BresserStatus
  falling_edge : BresserStatus
  check_sync : BresserStatus
  bad_sync : BresserStatus
  sync_ok : BresserStatus
  bad_crc : BresserStatus
  bad_humidity : BresserStatus
  next_bit : BresserStatus

pub record BresserPacket : Type 0 where
  pub id : ℕ
  pub low_battery : ℕ
  pub channel : ℕ
  pub humidity : ℕ
  pub temperature : ℕ

-- the static variables; `shouldBe1` is a truth value
pub record BresserState (Q : Type 0) : Type 0 where
  pub queue : Q
  pub last_time : ℕ
  pub bit_no : ℕ
  pub sync : ℕ
  pub should_be1 : Bool
  pub bits : ℕ

-- -1
abbrev pub idle : ℕ
idle = word_mod - 1

abbrev pub byte_at : ℕ → ℕ → ℕ
byte_at bits i = bits / 2 ^ (8 * i) % 0x100

-- from tenths of a degree Fahrenheit, 900 too many, to tenths of a degree Celsius
unfoldable pub celsius : ℕ → ℕ
unfolding sub32 mul32 div_signed
celsius t = div_signed (mul32 (sub32 (sub32 t 900) 320) 10) 18

module _ {Q : Type 0} (queue_push : Q → BresserPacket → Q) where
  unfoldable pub store_packet : BresserState Q → BresserStatus × BresserState Q
  store_packet r =
      let sum = byte_at r.bits 3 / 2 ^ 4 in
      let packet : BresserPacket = record {
        id = byte_at r.bits 4;
        low_battery = sum / 8 % 2 * 8;
        channel = sum % 8;
        humidity = byte_at r.bits 1;
        temperature = celsius (r.bits / 2 ^ 16 % 0x1000);
      } in
      (success, record r { queue = queue_push r.queue packet })

  unfoldable pub check_bits : BresserState Q → BresserStatus × BresserState Q
  check_bits s =
      let r = record s { bit_no = idle } in
      let sum =
        (byte_at r.bits 4 + byte_at r.bits 3 + byte_at r.bits 2 + byte_at r.bits 1) % 0x100 in
      if s.bit_no == 40
      then (if not (sum == byte_at r.bits 0)
          then (bad_crc, r)
          else if ltb 100 (byte_at r.bits 1)
          then (bad_humidity, r)
          else store_packet r)
      else (next_bit, s)

  unfoldable pub at_rising_edge : ℕ → BresserState Q → BresserStatus × BresserState Q
  unfolding check_bits add32
  at_rising_edge delta r =
      if r.should_be1
      then (if ltb delta 200 || ltb 300 delta
          then (bad_level_zero_duration, record r { bit_no = idle })
          else check_bits (record r { bit_no = add32 r.bit_no 1; bits = shift_in r.bits true }))
      else if ltb delta 400 || ltb 600 delta
      then (bad_level_zero_duration, record r { bit_no = idle })
      else check_bits (record r { bit_no = add32 r.bit_no 1; bits = shift_in r.bits false })

  -- `if (bitNo >= 0)` and what follows it
  unfoldable pub at_edge : ℕ → ℕ → BresserState Q → BresserStatus × BresserState Q
  unfolding at_rising_edge
  at_edge edge delta r =
      if is_neg r.bit_no
      then (wait, r)
      else if edge == 0
      then (if ltb delta 200 || ltb 600 delta
          then (bad_level_one_duration, record r { bit_no = idle })
          else (falling_edge, record r { should_be1 = leb 400 delta }))
      else at_rising_edge delta r

  -- `if (sync >= 0)` and what follows it
  unfoldable pub at_sync : ℕ → ℕ → BresserState Q → BresserStatus × BresserState Q
  unfolding at_edge add32
  at_sync edge delta r =
      let counted = record r { sync = add32 r.sync 1 } in
      if is_neg r.sync
      then at_edge edge delta r
      else if leb 700 delta && leb delta 900
      then (if add32 r.sync 1 == 8
          then (sync_ok, record r { bit_no = 0; sync = idle })
          else at_edge edge delta counted)
      else (bad_sync, record r { sync = idle })

  unfoldable pub bresser_decoder : ℕ → ℕ → BresserState Q → BresserStatus × BresserState Q
  unfolding at_sync sub32
  bresser_decoder edge time s =
      let delta = sub32 time s.last_time in
      let r = record s { last_time = time } in
      if is_neg r.sync && is_neg r.bit_no && not (edge == 0)
      then (check_sync, record r { sync = 0 })
      else at_sync edge delta r

-- `queue_init` is not this file's; `shouldBe1` starts as 0.
unfoldable pub bresser_decoder_init : {Q : Type 0} → Q → BresserState Q
bresser_decoder_init empty = record {
  queue = empty;
  last_time = 0;
  bit_no = idle;
  sync = idle;
  should_be1 = false;
  bits = 0;
}

-- `queue_reset` is not this file's.
unfoldable pub bresser_decoder_reset : {Q : Type 0} → (Q → Q) → BresserState Q → BresserState Q
bresser_decoder_reset queue_reset r = record r {
  queue = queue_reset r.queue;
  last_time = 0;
  bit_no = idle;
  sync = idle;
  bits = 0;
}
