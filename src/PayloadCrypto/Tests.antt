-- ===== src/PayloadCrypto/Tests.antt =====
-- The mask of src/osfx_payload_crypto.c on a concrete payload.
use osynaptic_fx.Prelude.{ℕ, ◌≡◌, refl, List, [], ◌∷◌}
use osynaptic_fx.PayloadCrypto.{xor_payload, xor_loop}

abbrev hello : List ℕ
hello = 0x68 ∷ 0x69 ∷ []

abbrev key : List ℕ
key = 0xff ∷ 0x0f ∷ 0x01 ∷ []

masked : xor_payload hello key 33 ≡ 0x66 ∷ 0x69 ∷ []
unfolding xor_payload xor_loop
masked = refl
