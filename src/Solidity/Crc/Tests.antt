-- ===== src/Solidity/Crc/Tests.antt =====
-- The checksums of src/osfx_solidity.c on concrete messages.
use osynaptic_fx.Prelude.{ℕ, ◌≡◌, refl, List, [], ◌∷◌}
use osynaptic_fx.Solidity.Crc.{
  crc8, crc16_ccitt, crc8_rounds, crc8_round, crc16_rounds, crc16_round,
}

abbrev digits : List ℕ
digits = 0x31 ∷ 0x32 ∷ 0x33 ∷ 0x34 ∷ 0x35 ∷ 0x36 ∷ 0x37 ∷ 0x38 ∷ 0x39 ∷ []

-- The check values that the literature gives over "123456789".
crc16_check : crc16_ccitt digits 0x1021 0xffff ≡ 0x29b1
unfolding crc16_ccitt crc16_rounds crc16_round
crc16_check = refl

crc8_check : crc8 digits 0x07 0 ≡ 0xf4
unfolding crc8 crc8_rounds crc8_round
crc8_check = refl
