-- ===== src/Solidity/Text/Decimal.antt =====
-- `osfx_u32toa` of src/osfx_solidity.c, read in decimal.
use osynaptic_fx.Prelude.{
  ℕ, zero, suc, ◌-◌, ◌*◌, ◌/◌, ◌^◌, ◌≤◌, ◌<◌, ◌≡◌, refl, leb, if◌then◌else◌, ◌&&◌, List, [], ◌∷◌,
  length, get_or, Option, none, some, arith,
}
use osynaptic_fx.Solidity.Text.{digits, backwards, decimal, u32toa}
use osynaptic_fx.Solidity.Text.Digits.{number, number-digits}

-- What a character stands for in decimal.
pub decimal_value : ℕ → Option ℕ
decimal_value c = if leb 48 c && leb c 57 then some (c - 48) else none

decimal_table : (d : ℕ) → d < 10 → decimal_value (get_or decimal d 0) ≡ some d
unfolding decimal_value
decimal_table zero h = refl
decimal_table (suc zero) h = refl
decimal_table (suc (suc zero)) h = refl
decimal_table (suc (suc (suc zero))) h = refl
decimal_table (suc (suc (suc (suc zero)))) h = refl
decimal_table (suc (suc (suc (suc (suc zero))))) h = refl
decimal_table (suc (suc (suc (suc (suc (suc zero)))))) h = refl
decimal_table (suc (suc (suc (suc (suc (suc (suc zero))))))) h = refl
decimal_table (suc (suc (suc (suc (suc (suc (suc (suc zero)))))))) h = refl
decimal_table (suc (suc (suc (suc (suc (suc (suc (suc (suc zero))))))))) h = refl
decimal_table (suc (suc (suc (suc (suc (suc (suc (suc (suc (suc d)))))))))) h = absurd (omega arith)

pub length-digits : (left k n : ℕ) → n < 10 ^ k → length (digits decimal 10 left n) ≤ k
unfolding digits
length-digits zero k n h = omega arith
length-digits (suc left) zero n h = ground arith
length-digits (suc left) (suc k) n h =
    let pow : 10 ^ suc k ≡ 10 ^ k * 10 = omega arith in
    ground (arith, length-digits left k (n / 10) (omega (arith, pow)))

zero_read : number decimal_value 10 (some 0) (48 ∷ []) ≡ some 0
unfolding number decimal_value
zero_read = refl

-- Each 32-bit number is written, with room for 11 characters, and the text read in decimal is that number.
pub number-u32toa :
    (n cap : ℕ)
    → n < 2 ^ 32
    → 11 ≤ cap
    → (s : List ℕ) × (u32toa n cap ≡ some s) × (number decimal_value 10 (some 0) s ≡ some n)
unfolding u32toa
number-u32toa zero cap h room = (48 ∷ [], ground arith, zero_read)
number-u32toa (suc n) cap h room = (
  backwards (digits decimal 10 11 (suc n)),
  ground (arith, length-digits 11 10 (suc n) (omega arith)),
  number-digits decimal_value 10 decimal decimal_table (λ m. (omega arith, omega arith))
      (λ k. 10 ^ k) (omega arith) (λ m k e. shrinks m k e) 11 (suc n) (omega arith),
)
  where
    shrinks : (m k : ℕ) → m < 10 ^ suc k → m / 10 < 10 ^ k
    shrinks m k e = let pow : 10 ^ suc k ≡ 10 ^ k * 10 = omega arith in omega (arith, pow)
