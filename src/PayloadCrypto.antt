-- ===== src/PayloadCrypto.antt =====
-- src/osfx_payload_crypto.c: the keyed exclusive or over a packet's body.
pub mod Involution
mod Tests
use osynaptic_fx.Prelude.{ℕ, ◌+◌, ◌%◌, ◌^◌, bit_and, bit_xor, List, [], ◌∷◌, length}
use osynaptic_fx.Prelude.Words.{byte_at}

-- The loop from index `i` on, with the payload bytes that are left.
unfoldable pub xor_loop : List ℕ → ℕ → ℕ → List ℕ → List ℕ
xor_loop key off i [] = []
xor_loop key off i (b ∷ bs) =
    bit_xor (bit_xor b (byte_at key ((i + off) % length key))) off % 2 ^ 8
    ∷ xor_loop key off (i + 1) bs

-- `osfx_xor_payload`: the bytes written to `out`. A null key or a key of length 0 is `[]`.
unfoldable pub xor_payload : List ℕ → List ℕ → ℕ → List ℕ
xor_payload payload [] offset = payload
xor_payload payload (k ∷ ks) offset = xor_loop (k ∷ ks) (bit_and offset 31) 0 payload
