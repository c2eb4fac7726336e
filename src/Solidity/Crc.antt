-- ===== src/Solidity/Crc.antt =====
-- `osfx_crc8` and `osfx_crc16_ccitt` of src/osfx_solidity.c. The casts to the width of the
-- register after `& 0xFF` and `& 0xFFFF` change nothing and are not written.
pub mod Rounds
pub mod Detect
mod Tests
use osynaptic_fx.Prelude.{
  ℕ, zero, suc, ◌*◌, ◌%◌, ◌^◌, bit_and, bit_xor, List, [], ◌∷◌, ◌==◌, if◌then◌else◌,
}

unfoldable pub crc8_round : ℕ → ℕ → ℕ
crc8_round poly crc =
    if bit_and crc 0x80 == 0
    then bit_and (crc * 2) 0xff
    else bit_and (bit_xor (crc * 2) (poly % 2 ^ 8)) 0xff

-- `for (j = 0; j < 8; ++j)`, with the rounds left.
unfoldable pub crc8_rounds : ℕ → ℕ → ℕ → ℕ
crc8_rounds zero poly crc = crc
crc8_rounds (suc j) poly crc = crc8_rounds j poly (crc8_round poly crc)

-- A null pointer and a length of 0 are the empty list, for which the initial value comes back.
unfoldable pub crc8 : List ℕ → ℕ → ℕ → ℕ
crc8 [] poly crc = crc
crc8 (b ∷ bs) poly crc = crc8 bs poly (crc8_rounds 8 poly (bit_xor crc b))

unfoldable pub crc16_round : ℕ → ℕ → ℕ
crc16_round poly crc =
    if bit_and crc 0x8000 == 0
    then bit_and (crc * 2) 0xffff
    else bit_and (bit_xor (crc * 2) poly) 0xffff

unfoldable pub crc16_rounds : ℕ → ℕ → ℕ → ℕ
crc16_rounds zero poly crc = crc
crc16_rounds (suc j) poly crc = crc16_rounds j poly (crc16_round poly crc)

unfoldable pub crc16_ccitt : List ℕ → ℕ → ℕ → ℕ
crc16_ccitt [] poly crc = crc
crc16_ccitt (b ∷ bs) poly crc =
    crc16_ccitt bs poly (crc16_rounds 8 poly (bit_xor crc (b * 2 ^ 8 % 2 ^ 16)))
