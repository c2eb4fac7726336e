-- ===== src/Solidity/Text/Stamp.antt =====
-- `osfx_b64url_ts6` of src/osfx_solidity.c: the low 48 bits of a timestamp in 8 characters.
use osynaptic_fx.Prelude.{ℕ, ◌*◌, ◌/◌, ◌^◌, List, [], ◌∷◌, ◌++◌, get_or, bit_and, bit_or}
use osynaptic_fx.Prelude.Words.{octet}

-- `OSFX_B64URL`.
abbrev pub b64url : List ℕ
b64url =
    65 ∷ 66 ∷ 67 ∷ 68 ∷ 69 ∷ 70 ∷ 71 ∷ 72 ∷ 73 ∷ 74 ∷ 75 ∷ 76 ∷ 77 ∷ 78 ∷ 79 ∷ 80 ∷ 81 ∷ 82 ∷ 83
    ∷ 84 ∷ 85 ∷ 86 ∷ 87 ∷ 88 ∷ 89 ∷ 90 ∷ 97 ∷ 98 ∷ 99 ∷ 100 ∷ 101 ∷ 102 ∷ 103 ∷ 104 ∷ 105 ∷ 106
    ∷ 107 ∷ 108 ∷ 109 ∷ 110 ∷ 111 ∷ 112 ∷ 113 ∷ 114 ∷ 115 ∷ 116 ∷ 117 ∷ 118 ∷ 119 ∷ 120 ∷ 121 ∷ 122
    ∷ 48 ∷ 49 ∷ 50 ∷ 51 ∷ 52 ∷ 53 ∷ 54 ∷ 55 ∷ 56 ∷ 57 ∷ 45 ∷ 95 ∷ []

-- `OSFX_B64URL[(g >> k) & 0x3Fu]`.
abbrev pub sextet : ℕ → ℕ → ℕ
sextet g k = get_or b64url (bit_and (g / 2 ^ k) 0x3f) 0

-- Three bytes as one group.
abbrev pub group : ℕ → ℕ → ℕ → ℕ
group a b c = bit_or (bit_or (a * 2 ^ 16) (b * 2 ^ 8)) c

-- The four characters of a group.
abbrev pub quartet : ℕ → List ℕ
quartet g = sextet g 18 ∷ sextet g 12 ∷ sextet g 6 ∷ sextet g 0 ∷ []

-- The bytes 0, 1 and 2, and the bytes 3, 4 and 5, of a 48-bit timestamp.
abbrev pub first_group : ℕ → ℕ
first_group t = group (octet t 40) (octet t 32) (octet t 24)

abbrev pub second_group : ℕ → ℕ
second_group t = group (octet t 16) (octet t 8) (octet t 0)

unfoldable pub b64url_ts6 : ℕ → List ℕ
b64url_ts6 timestamp_raw =
    quartet (first_group timestamp_raw) ++ quartet (second_group timestamp_raw)
