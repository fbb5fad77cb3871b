-- ===== src/Crc8.antt =====
-- crc8.c: the check value of a list of bytes, `len` of which is the list's length.
pub mod Laws
mod Tests
use common_lib.Prelude.{
  ℕ, zero, suc, ◌*◌, ◌%◌, ◌==◌, if◌then◌else◌, List, [], ◌∷◌, bit_and, bit_xor,
}

abbrev pub g_polynom : ℕ
g_polynom = 0x31

-- the body of the inner loop
unfoldable pub crc_shift : ℕ → ℕ
crc_shift crc =
    let top = bit_and crc 0x80 in
    let shifted = crc * 2 % 256 in if top == 0 then shifted else bit_xor shifted g_polynom

-- the inner loop with its rounds left
unfoldable pub crc_shifts : ℕ → ℕ → ℕ
unfolding crc_shift
crc_shifts zero crc = crc
crc_shifts (suc left) crc = crc_shifts left (crc_shift crc)

unfoldable pub crc_from : List ℕ → ℕ → ℕ
unfolding crc_shifts
crc_from [] crc = crc
crc_from (byte ∷ bytes) crc = crc_from bytes (crc_shifts 8 (bit_xor crc byte))

unfoldable pub crc8 : List ℕ → ℕ
unfolding crc_from
crc8 bytes = crc_from bytes 0xff
