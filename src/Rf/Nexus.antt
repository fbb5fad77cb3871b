-- ===== src/Rf/Nexus.antt =====
-- rf/NexusDecoder.c. `int` and `unsigned int` are 32-bit patterns; `bits >> k` is a quotient and a
-- mask of the low bits a remainder. The queue and its `queue_push` are not this file's.
pub mod Laws
pub mod Signal
mod Tests
use common_lib.Prelude.{
  ℕ, ◌+◌, ◌-◌, ◌*◌, ◌/◌, ◌%◌, ◌^◌, ◌==◌, ltb, leb, if◌then◌else◌, Bool, not, ◌&&◌, ◌||◌, true,
  false, is_neg, word_mod, add32, sub32, lt_signed,
}
use common_lib.Rf.Bits.{shift_in}

pub data NexusStatus : Type 0 where
  success : NexusStatus
  wait : NexusStatus
  start : NexusStatus
  bad_level_one_duration : NexusStatus
  bad_level_zero_duration : NexusStatus
  falling_edge : NexusStatus
  next_bit : NexusStatus
  bad_humidity : NexusStatus
  bad_flag : NexusStatus
  bad_temperature : NexusStatus

pub record NexusPacket : Type 0 where
  pub id : ℕ
  pub low_battery : ℕ
  pub channel : ℕ
  pub humidity : ℕ
  pub temperature : ℕ

-- the static variables
pub record NexusState (Q : Type 0) : Type 0 where
  pub queue : Q
  pub last_time : ℕ
  pub bit_no : ℕ
  pub bits : ℕ

-- -1, -600 and 700
abbrev pub idle : ℕ
idle = word_mod - 1

abbrev pub coldest : ℕ
coldest = word_mod - 600

abbrev pub hottest : ℕ
hottest = 700

-- 12 bits as a signed number
unfoldable pub temperature_of : ℕ → ℕ
temperature_of t = if t / 0x800 % 2 == 0 then t else t + 0xfffff000

module _ {Q : Type 0} (queue_push : Q → NexusPacket → Q) where
  unfoldable pub store_packet : ℕ → ℕ → NexusState Q → NexusStatus × NexusState Q
  store_packet humidity temperature r =
      let bits = r.bits / 2 ^ 12 in
      let packet : NexusPacket = record {
        id = bits / 2 ^ 3 / 2 % 0x100;
        low_battery = bits / 2 ^ 3 % 2;
        channel = bits % 4;
        humidity = humidity;
        temperature = temperature;
      } in
      (
        success,
        record r { queue = queue_push r.queue packet; bit_no = idle; bits = bits / 2 ^ 3 / 2 },
      )

  -- `bits` is shifted before the temperature is refused.
  unfoldable pub check_temperature : ℕ → NexusState Q → NexusStatus × NexusState Q
  unfolding temperature_of lt_signed
  check_temperature humidity r =
      let temperature = temperature_of (r.bits % 0x1000) in
      if lt_signed temperature coldest || lt_signed hottest temperature
      then (bad_temperature, r)
      else store_packet humidity temperature r

  unfoldable pub check_bits : NexusState Q → NexusStatus × NexusState Q
  check_bits r =
      if r.bit_no == 36
      then (if not (r.bits / 0x100 % 0x10 == 0xf)
          then (bad_flag, r)
          else check_temperature (r.bits % 0x100) (record r { bits = r.bits / 2 ^ 12 }))
      else (next_bit, r)

  -- `bitNo >= 0`
  unfoldable pub at_edge : ℕ → ℕ → NexusState Q → NexusStatus × NexusState Q
  unfolding check_bits add32
  at_edge edge delta r =
      if edge == 0
      then (if ltb delta 400 || ltb 600 delta
          then (bad_level_one_duration, record r { bit_no = idle })
          else (falling_edge, r))
      else if leb 900 delta && leb delta 1100
      then check_bits (record r { bit_no = add32 r.bit_no 1; bits = shift_in r.bits false })
      else if leb 1900 delta && leb delta 2100
      then check_bits (record r { bit_no = add32 r.bit_no 1; bits = shift_in r.bits true })
      else (bad_level_zero_duration, record r { bit_no = idle })

  unfoldable pub nexus_decoder : ℕ → ℕ → NexusState Q → NexusStatus × NexusState Q
  unfolding at_edge sub32
  nexus_decoder edge time s =
      let delta = sub32 time s.last_time in
      let r = record s { last_time = time } in
      if is_neg r.bit_no && not (edge == 0) && leb 3900 delta
      then (start, record r { bit_no = 0 })
      else if not (is_neg r.bit_no)
      then at_edge edge delta r
      else (wait, r)

-- `queue_init` is not this file's.
unfoldable pub nexus_decoder_init : {Q : Type 0} → Q → NexusState Q
nexus_decoder_init empty = record { queue = empty; last_time = 0; bit_no = idle; bits = 0 }
