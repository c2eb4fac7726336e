-- ===== src/Solidity/Text.antt =====
-- `osfx_b62_encode_i64`, `osfx_b62_decode_i64` and `osfx_u32toa` of src/osfx_solidity.c. A text is its
-- characters without the final 0. The signed 64-bit numbers are those of a sign and a magnitude; the
-- negation of the least one, which C leaves undefined, wraps.
pub mod Digits
pub mod Base62
pub mod Decimal
pub mod Stamp
pub mod Letters
mod Tests
use osynaptic_fx.Prelude.{
  ℕ, zero, suc, ◌+◌, ◌-◌, ◌*◌, ◌/◌, ◌%◌, ◌^◌, ◌==◌, ltb, leb, if◌then◌else◌, Bool, true, false,
  ◌&&◌, List, [], ◌∷◌, ◌++◌, length, get_or, Option, none, some,
}
use osynaptic_fx.Prelude.Slots.{bit}

pub data ℤ : Type 0 where
  pos negsuc : ℕ → ℤ

-- `OSFX_B62`.
abbrev pub b62 : List ℕ
b62 =
    48 ∷ 49 ∷ 50 ∷ 51 ∷ 52 ∷ 53 ∷ 54 ∷ 55 ∷ 56 ∷ 57 ∷ 97 ∷ 98 ∷ 99 ∷ 100 ∷ 101 ∷ 102 ∷ 103 ∷ 104
    ∷ 105 ∷ 106 ∷ 107 ∷ 108 ∷ 109 ∷ 110 ∷ 111 ∷ 112 ∷ 113 ∷ 114 ∷ 115 ∷ 116 ∷ 117 ∷ 118 ∷ 119 ∷ 120
    ∷ 121 ∷ 122 ∷ 65 ∷ 66 ∷ 67 ∷ 68 ∷ 69 ∷ 70 ∷ 71 ∷ 72 ∷ 73 ∷ 74 ∷ 75 ∷ 76 ∷ 77 ∷ 78 ∷ 79 ∷ 80 ∷ 81
    ∷ 82 ∷ 83 ∷ 84 ∷ 85 ∷ 86 ∷ 87 ∷ 88 ∷ 89 ∷ 90 ∷ []

-- `while (n > 0 && idx < left) { buf[idx++] = chars[n % base]; n /= base; }`: the digits, the lowest first.
unfoldable pub digits : List ℕ → ℕ → ℕ → ℕ → List ℕ
digits chars base zero n = []
digits chars base (suc left) n =
    let rest = digits chars base left (n / base) in
    if n == 0 then [] else get_or chars (n % base) 0 ∷ rest

-- The loop that writes `buf` from its end.
unfoldable pub backwards : List ℕ → List ℕ
backwards [] = []
backwards (c ∷ cs) = backwards cs ++ c ∷ []

abbrev pub is_negative : ℤ → Bool
is_negative (pos n) = false
is_negative (negsuc n) = true

-- `(unsigned long long)(value < 0 ? -value : value)`.
abbrev pub magnitude : ℤ → ℕ
magnitude (pos n) = n
magnitude (negsuc n) = n + 1

-- The character '-'.
abbrev pub minus : ℕ
minus = 45

abbrev pub sign_text : ℤ → List ℕ
sign_text v = if is_negative v then minus ∷ [] else []

unfoldable pub b62_encode : ℤ → ℕ → Option (List ℕ)
b62_encode v out_len =
    let buf = digits b62 62 95 (magnitude v) in
    if ltb out_len 2
    then none
    else if magnitude v == 0
    then some (48 ∷ [])
    else if ltb out_len (length buf + bit (is_negative v) + 1)
    then none
    else some (sign_text v ++ backwards buf)

-- The value of one character, if it is a digit.
unfoldable pub digit_of : ℕ → Option ℕ
digit_of c =
    if leb 48 c && leb c 57
    then some (c - 48)
    else if leb 97 c && leb c 122
    then some (10 + (c - 97))
    else if leb 65 c && leb c 90
    then some (36 + (c - 65))
    else none

abbrev pub push_digit : ℕ → Option ℕ → Option ℕ
push_digit val none = none
push_digit val (some d) = some ((val * 62 + d) % 2 ^ 64)

-- The loop over the characters that are left; `none` where the code returns early.
unfoldable pub decode_loop : Option ℕ → List ℕ → Option ℕ
decode_loop none s = none
decode_loop (some val) [] = some val
decode_loop (some val) (c ∷ s) = decode_loop (push_digit val (digit_of c)) s

-- A 64-bit word read as signed.
abbrev pub signed : ℕ → ℤ
signed w = if ltb w (2 ^ 63) then pos w else negsuc (2 ^ 64 - w - 1)

abbrev pub negated : ℕ → ℕ
negated w = (2 ^ 64 - w) % 2 ^ 64

abbrev pub signed_option : Bool → Option ℕ → Option ℤ
signed_option neg none = none
signed_option neg (some w) = some (if neg then signed (negated w) else signed w)

-- `none` where the code leaves `*ok` at 0.
unfoldable pub b62_decode : List ℕ → Option ℤ
b62_decode [] = none
b62_decode (c ∷ []) =
    if c == minus then none else signed_option false (decode_loop (some 0) (c ∷ []))
b62_decode (c ∷ d ∷ s) =
    if c == minus
    then signed_option true (decode_loop (some 0) (d ∷ s))
    else signed_option false (decode_loop (some 0) (c ∷ d ∷ s))

-- The ten digits, `'0' + n % 10`.
abbrev pub decimal : List ℕ
decimal = 48 ∷ 49 ∷ 50 ∷ 51 ∷ 52 ∷ 53 ∷ 54 ∷ 55 ∷ 56 ∷ 57 ∷ []

-- The text, whose length the code returns; `none` where it returns 0.
unfoldable pub u32toa : ℕ → ℕ → Option (List ℕ)
u32toa n cap =
    let tmp = digits decimal 10 11 n in
    if ltb cap 2
    then none
    else if n == 0
    then some (48 ∷ [])
    else if leb cap (length tmp)
    then none
    else some (backwards tmp)
