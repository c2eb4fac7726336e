-- ===== src/Solidity/Text/Tests.antt =====
-- Numbers as text, as src/osfx_solidity.c writes them.
use osynaptic_fx.Prelude.{ℕ, ◌≡◌, refl, List, [], ◌∷◌, some, arith}
use osynaptic_fx.Solidity.Text.{negsuc, digits, backwards, b62_encode, b62_decode}
use osynaptic_fx.Solidity.Text.Base62.{b62_decode-encode}

-- -125 is "-21".
encoded : b62_encode (negsuc 124) 13 ≡ some (0x2d ∷ 0x32 ∷ 0x31 ∷ [])
unfolding b62_encode digits backwards
encoded = refl

b62_decode-encode_example :
    (s : List ℕ) × (b62_encode (negsuc 124) 13 ≡ some s) × (b62_decode s ≡ some (negsuc 124))
b62_decode-encode_example = b62_decode-encode (negsuc 124) 13 (omega arith) (omega arith)
