-- ===== src/Rf/Prologue.antt =====
-- rf/PrologueDecoder.c, with its own values of PD_ONEDELTA, PD_ZERODELTA and PD_WAITTIME. `int` and `unsigned int` are 32-bit patterns; `bits >> k` is a quotient and a
-- mask of the low bits a remainder. The queue and its `queue_push` are not this file's.
pub mod Laws
pub mod Signal
mod Tests
use common_lib.Prelude.{
  ℕ, ◌+◌, ◌-◌, ◌*◌, ◌/◌, ◌%◌, ◌^◌, ◌==◌, ltb, leb, if◌then◌else◌, Bool, not, ◌&&◌, ◌||◌, true,
  false, is_neg, word_mod, add32, sub32, lt_signed,
}
use common_lib.Rf.Bits.{shift_in}

pub data PrologueStatus : Type 0 where
  success : PrologueStatus
  wait : PrologueStatus
  start : PrologueStatus
  bad_level_one_duration : PrologueStatus
  bad_level_zero_duration : PrologueStatus
  falling_edge : PrologueStatus
  next_bit : PrologueStatus
  bad_humidity : PrologueStatus
  bad_type : PrologueStatus
  bad_temperature : PrologueStatus

pub record ProloguePacket : Type 0 where
  pub packet_type : ℕ
  pub id : ℕ
  pub low_battery : ℕ
  pub channel : ℕ
  pub humidity : ℕ
  pub temperature : ℕ

-- the static variables
pub record PrologueState (Q : Type 0) : Type 0 where
  pub queue : Q
  pub last_time : ℕ
  pub bit_no : ℕ
  pub bits : ℕ

-- -1, -600 and 700
abbrev pub idle : ℕ
idle = word_mod - 1

abbrev pub coldest : ℕ
coldest = word_mod - 600

abbrev pub hottest : ℕ
hottest = 700

-- PD_ONEDELTA, PD_ZERODELTA and PD_WAITTIME
abbrev pub one_delta : ℕ
one_delta = 100

abbrev pub zero_delta : ℕ
zero_delta = 100

abbrev pub wait_time : ℕ
wait_time = 8900

-- 12 bits as a signed number
unfoldable pub temperature_of : ℕ → ℕ
temperature_of t = if t / 0x800 % 2 == 0 then t else t + 0xfffff000

module _ {Q : Type 0} (queue_push : Q → ProloguePacket → Q) where
  -- `bits` is shifted before a type is refused.
  unfoldable pub store_packet : ℕ → ℕ → PrologueState Q → PrologueStatus × PrologueState Q
  store_packet humidity temperature r =
      let bits = r.bits / 2 ^ 12 in
      let left = bits / 2 ^ 3 / 2 / 2 ^ 8 in
      let packet : ProloguePacket = record {
        packet_type = left % 0x10;
        id = bits / 2 ^ 3 / 2 % 0x100;
        low_battery = bits / 2 ^ 3 % 2;
        channel = bits % 4;
        humidity = humidity;
        temperature = temperature;
      } in
      if not (packet.packet_type == 5) && not (packet.packet_type == 9)
      then (bad_type, record r { bits = left })
      else (success, record r { queue = queue_push r.queue packet; bit_no = idle; bits = left })

  unfoldable pub check_temperature : ℕ → PrologueState Q → PrologueStatus × PrologueState Q
  unfolding temperature_of lt_signed
  check_temperature humidity r =
      let temperature = temperature_of (r.bits % 0x1000) in
      if lt_signed temperature coldest || lt_signed hottest temperature
      then (bad_temperature, r)
      else store_packet humidity temperature r

  unfoldable pub check_bits : PrologueState Q → PrologueStatus × PrologueState Q
  check_bits r =
      if r.bit_no == 36
      then check_temperature (r.bits % 0x100) (record r { bits = r.bits / 2 ^ 8 })
      else (next_bit, r)

  -- `bitNo >= 0`
  unfoldable pub at_edge : ℕ → ℕ → PrologueState Q → PrologueStatus × PrologueState Q
  unfolding check_bits add32
  at_edge edge delta r =
      if edge == 0
      then (if ltb delta (500 - one_delta) || ltb (500 + one_delta) delta
          then (bad_level_one_duration, record r { bit_no = idle })
          else (falling_edge, r))
      else if leb (2000 - zero_delta) delta && leb delta (2000 + zero_delta)
      then check_bits (record r { bit_no = add32 r.bit_no 1; bits = shift_in r.bits false })
      else if leb (4000 - zero_delta) delta && leb delta (4000 + zero_delta)
      then check_bits (record r { bit_no = add32 r.bit_no 1; bits = shift_in r.bits true })
      else (bad_level_zero_duration, record r { bit_no = idle })

  unfoldable pub prologue_decoder : ℕ → ℕ → PrologueState Q → PrologueStatus × PrologueState Q
  unfolding at_edge sub32
  prologue_decoder edge time s =
      let delta = sub32 time s.last_time in
      let r = record s { last_time = time } in
      if is_neg r.bit_no && not (edge == 0) && leb wait_time delta
      then (start, record r { bit_no = 0 })
      else if not (is_neg r.bit_no)
      then at_edge edge delta r
      else (wait, r)

-- `queue_init` is not this file's.
unfoldable pub prologue_decoder_init : {Q : Type 0} → Q → PrologueState Q
prologue_decoder_init empty = record { queue = empty; last_time = 0; bit_no = idle; bits = 0 }

-- `queue_reset` is not this file's.
unfoldable pub prologue_decoder_reset : {Q : Type 0} → (Q → Q) → PrologueState Q → PrologueState Q
prologue_decoder_reset queue_reset r = record {
  queue = queue_reset r.queue;
  last_time = 0;
  bit_no = idle;
  bits = 0;
}
