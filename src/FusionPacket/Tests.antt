-- ===== src/FusionPacket/Tests.antt =====
-- Packets of src/osfx_fusion_packet.c: one body, sent in the clear and masked.
use osynaptic_fx.Prelude.{ℕ, ◌≡◌, refl, inl, List, [], ◌∷◌, ◌++◌, none, some, arith, true}
use osynaptic_fx.Prelude.Words.{octet}
use osynaptic_fx.Solidity.Crc.{
  crc8, crc8_rounds, crc8_round, crc16_ccitt, crc16_rounds, crc16_round,
}
use osynaptic_fx.PayloadCrypto.{xor_payload, xor_loop}
use osynaptic_fx.HandshakeCmd.{secure_variant}
use osynaptic_fx.FusionPacket.{encode_ex, extract_body}
use osynaptic_fx.FusionPacket.Roundtrip.{meta_for, extract_body-encode_ex}
use osynaptic_fx.FusionPacket.Integrity.{extract_body_damaged}

abbrev body : List ℕ
body = 0x61 ∷ []

abbrev key : List ℕ
key = 7 ∷ 200 ∷ []

crc8-body : crc8 body 0x07 0 ≡ 32
unfolding crc8 crc8_rounds crc8_round
crc8-body = refl

abbrev covered : List ℕ
covered = 64 ∷ 1 ∷ 0 ∷ 0 ∷ 1 ∷ 244 ∷ 1 ∷ 0 ∷ 0 ∷ 0 ∷ 0 ∷ 3 ∷ 232 ∷ 102 ∷ 32 ∷ []

masked : xor_payload body key 0 ≡ 102 ∷ []
unfolding xor_payload xor_loop
masked = refl

crc16_covered : crc16_ccitt covered 0x1021 0xffff ≡ 44515
unfolding crc16_ccitt crc16_rounds crc16_round
crc16_covered = refl

-- The packet that goes out, its masked body byte apart.
sent :
    encode_ex 63 500 1 1000 body true key (some 64)
    ≡ some
        ((64 ∷ 1 ∷ 0 ∷ 0 ∷ 1 ∷ 244 ∷ 1 ∷ 0 ∷ 0 ∷ 0 ∷ 0 ∷ 3 ∷ 232 ∷ []) ++ 102 ∷ 32 ∷ 173 ∷ 227 ∷ [])
unfolding encode_ex secure_variant octet
sent = rw (crc8-body, masked, crc16_covered) refl

extract_body_damaged_example :
    extract_body
      ((64 ∷ 1 ∷ 0 ∷ 0 ∷ 1 ∷ 244 ∷ 1 ∷ 0 ∷ 0 ∷ 0 ∷ 0 ∷ 3 ∷ 232 ∷ []) ++ 99 ∷ 32 ∷ 173 ∷ 227 ∷ [])
      key
      none
    ≡ none
extract_body_damaged_example =
    extract_body_damaged 63 500 1 1000 body key true (some 64)
      (64 ∷ 1 ∷ 0 ∷ 0 ∷ 1 ∷ 244 ∷ 1 ∷ 0 ∷ 0 ∷ 0 ∷ 0 ∷ 3 ∷ 232 ∷ []) (32 ∷ 173 ∷ 227 ∷ []) 102 99
      (omega arith) (omega arith) (omega arith, tt) (omega arith, (omega arith, tt)) sent
      (omega arith) (omega arith) key none

extract_body-encode_ex_example :
    (packet : List ℕ) × (encode_ex 63 500 1 1000 body true key (some 17) ≡ some packet)
    × (extract_body packet key (some 1)
        ≡ some (body, meta_for (secure_variant 63) 500 1 1000 1 true))
extract_body-encode_ex_example =
    extract_body-encode_ex 63 500 1 1000 body key true 17 1 (inl refl) (omega arith) (omega arith)
      (omega arith, tt) (omega arith, (omega arith, tt)) (omega arith) (omega arith)
