-- ===== src/Solidity/Text/Base62.antt =====
-- The round trip of base 62 in src/osfx_solidity.c.
use osynaptic_fx.Prelude.{
  ℕ, zero, suc, ◌+◌, ◌-◌, ◌*◌, ◌/◌, ◌%◌, ◌^◌, ◌≤◌, ◌<◌, ◌≡◌, refl, ap, ◌∙◌, ◌==◌, ltb, Bool, true,
  false, ◌&&◌, List, [], ◌∷◌, length, get_or, Option, none, some, arith, Bool-cases, inl, inr,
  Option-cases,
}
use osynaptic_fx.Solidity.Text.{
  ℤ, pos, negsuc, digits, backwards, b62, digit_of, push_digit, decode_loop, b62_encode, b62_decode,
  magnitude, minus, negated,
}
use osynaptic_fx.Solidity.Text.Digits.{number, push, number-digits}

abbrev stands_for : ℕ → Option ℕ → Bool
stands_for k none = false
stands_for k (some d) = d == k

-- Each character of a table stands for its place.
check_table : ℕ → List ℕ → Bool
check_table k [] = true
check_table k (c ∷ cs) = stands_for k (digit_of c) && check_table (k + 1) cs

check_table_lem :
    (cs : List ℕ) (k d : ℕ)
    → check_table k cs ≡ true
    → d < length cs
    → digit_of (get_or cs d 0) ≡ some (k + d)
unfolding check_table
check_table_lem [] k d h l = absurd (omega arith)
check_table_lem (c ∷ cs) k zero h l = elim (Option-cases (digit_of c)) [
  | inl gone ↦ ground (arith, gone)
  | inr (v, e) ↦ ground (arith, e)
]
check_table_lem (c ∷ cs) k (suc d) h l =
    check_table_lem cs (k + 1) d (ground arith) (omega arith) ∙ ap some (omega arith)

b62_table : (d : ℕ) → d < 62 → digit_of (get_or b62 d 0) ≡ some d
unfolding digit_of check_table
b62_table d h = check_table_lem b62 0 d refl h ∙ ap some (omega arith)

abbrev value_of : Option ℕ → List ℕ → Option ℕ
value_of o s = number digit_of 62 o s

value_of-grows : (s : List ℕ) (v n : ℕ) → value_of (some v) s ≡ some n → v ≤ n
unfolding number
value_of-grows [] v n e = ground arith
value_of-grows (c ∷ s) v n e = by (digit_of c) (λ d. value_of-grows s (v * 62 + d) n) e
  where
    by :
        (x : Option ℕ)
        → ((d : ℕ) → value_of (some (v * 62 + d)) s ≡ some n → v * 62 + d ≤ n)
        → value_of (push digit_of 62 v x) s ≡ some n
        → v ≤ n
    by none rest h = cc
    by (some d) rest h = omega (arith, rest d h)

-- The loop of the decoder, whose register wraps, on the text of a number of 64 bits.
decode_loop_lem :
    (s : List ℕ) (v n : ℕ)
    → value_of (some v) s ≡ some n
    → n < 2 ^ 64
    → decode_loop (some v) s ≡ some n
unfolding number decode_loop
decode_loop_lem [] v n e h = e
decode_loop_lem (c ∷ s) v n e h = by (digit_of c) (λ d k. decode_loop_lem s (v * 62 + d) n k h) e
  where
    by :
        (x : Option ℕ)
        → ((d : ℕ)
            → value_of (some (v * 62 + d)) s ≡ some n
            → decode_loop (some (v * 62 + d)) s ≡ some n)
        → value_of (push digit_of 62 v x) s ≡ some n
        → decode_loop (push_digit v x) s ≡ some n
    by none rest k = cc
    by (some d) rest k =
        let small : (v * 62 + d) % 2 ^ 64 ≡ v * 62 + d =
          omega (arith, value_of-grows s (v * 62 + d) n k) in
        ap (λ w. decode_loop (some w) s) small ∙ rest d k

minus_digit : digit_of minus ≡ none
unfolding digit_of
minus_digit = refl

-- A text that stands for a number above 0 has a character, and its first is no '-'.
abbrev IsText : List ℕ → ℕ → Type 0
IsText s n = (value_of (some 0) s ≡ some n) × (0 < n)

decode_plain : (s : List ℕ) (n : ℕ) → IsText s n → n < 2 ^ 63 → b62_decode s ≡ some (pos n)
unfolding b62_decode number
decode_plain [] n h l = ground arith
decode_plain (c ∷ []) n h l = elim (Bool-cases (c == minus)) [
  | inl e ↦
      let same : c ≡ minus = ground arith in ground (arith, h.0, ap digit_of same ∙ minus_digit)
  | inr e ↦ ground (arith, e, decode_loop_lem (c ∷ []) 0 n h.0)
]
decode_plain (c ∷ d ∷ s) n h l = elim (Bool-cases (c == minus)) [
  | inl e ↦
      let same : c ≡ minus = ground arith in ground (arith, h.0, ap digit_of same ∙ minus_digit)
  | inr e ↦ ground (arith, e, decode_loop_lem (c ∷ d ∷ s) 0 n h.0)
]

decode_minus :
    (s : List ℕ) (n : ℕ) → IsText s (n + 1) → n < 2 ^ 63 → b62_decode (minus ∷ s) ≡ some (negsuc n)
unfolding b62_decode number
decode_minus [] n h l = ground arith
decode_minus (d ∷ s) n h l =
    let w : negated (n + 1) ≡ 2 ^ 64 - (n + 1) = omega arith in
    let sign : ltb (negated (n + 1)) (2 ^ 63) ≡ false = ground (arith, w) in
    let back : 2 ^ 64 - negated (n + 1) - 1 ≡ n = omega (arith, w) in
    ground (arith, decode_loop_lem (d ∷ s) 0 (n + 1) h.0, sign, back)

pub length-digits : (left k n : ℕ) → n < 62 ^ k → length (digits b62 62 left n) ≤ k
unfolding digits
length-digits zero k n h = omega arith
length-digits (suc left) zero n h = ground arith
length-digits (suc left) (suc k) n h =
    let pow : 62 ^ suc k ≡ 62 ^ k * 62 = omega arith in
    ground (arith, length-digits left k (n / 62) (omega (arith, pow)))

digits-IsText : (n : ℕ) → 0 < n → n < 2 ^ 64 → IsText (backwards (digits b62 62 95 n)) n
digits-IsText n h l = (
  number-digits digit_of 62 b62 b62_table (λ m. (omega arith, omega arith)) (λ k. 62 ^ k)
      (omega arith) (λ m k e. shrinks m k e) 95 n large,
  h,
)
  where
    shrinks : (m k : ℕ) → m < 62 ^ suc k → m / 62 < 62 ^ k
    shrinks m k e = let pow : 62 ^ suc k ≡ 62 ^ k * 62 = omega arith in omega (arith, pow)

    large : n < 62 ^ 95
    large = omega arith

zero_decodes : b62_decode (48 ∷ []) ≡ some (pos 0)
unfolding b62_decode decode_loop digit_of
zero_decodes = refl

-- Each number of 63 bits and its negative is encoded, with room for 13 characters, and decodes to itself.
pub b62_decode-encode :
    (v : ℤ) (out_len : ℕ)
    → magnitude v < 2 ^ 63
    → 13 ≤ out_len
    → (s : List ℕ) × (b62_encode v out_len ≡ some s) × (b62_decode s ≡ some v)
unfolding b62_encode
b62_decode-encode (pos zero) out_len h room = (48 ∷ [], ground arith, zero_decodes)
b62_decode-encode (pos (suc n)) out_len h room = (
  backwards (digits b62 62 95 (suc n)),
  ground (arith, length-digits 95 11 (suc n) (omega arith)),
  decode_plain (backwards (digits b62 62 95 (suc n))) (suc n)
      (digits-IsText (suc n) (omega arith) (omega arith)) h,
)
b62_decode-encode (negsuc n) out_len h room = (
  minus ∷ backwards (digits b62 62 95 (n + 1)),
  ground (arith, length-digits 95 11 (n + 1) (omega arith)),
  decode_minus (backwards (digits b62 62 95 (n + 1))) n
      (digits-IsText (n + 1) (omega arith) (omega arith)) (omega arith),
)
