-- ===== src/Solidity/Crc/Rounds.antt =====
-- The inner loops of `osfx_crc8` and `osfx_crc16_ccitt` of src/osfx_solidity.c.
use native.Mathlib.Nat.{pow-suc, mod-eq_of_lt, mod-eq-sub-mod}
use osynaptic_fx.Prelude.{
  ℕ, zero, suc, ◌-◌, ◌*◌, ◌%◌, ◌^◌, ◌<◌, ◌≤◌, ◌≡◌, sym, ap, ◌∙◌, bit_xor, arith, ltb, if◌then◌else◌,
}
use osynaptic_fx.Prelude.Bits.{xor_digit, xor_injective, xor-lt, xor_mod, and_mask, high_bit}
use osynaptic_fx.Solidity.Crc.{crc8_round, crc8_rounds, crc16_round, crc16_rounds}

-- One round over a register of `k + 1` bits: shift left, and reduce if a one falls out.
reduce : ℕ → ℕ → ℕ → ℕ
reduce k p x = if ltb x (2 ^ k) then 2 * x else bit_xor (2 * x - 2 ^ suc k) p

module _ (k p : ℕ) (fits : p < 2 ^ suc k) where
  reduce-lt : (x : ℕ) → x < 2 ^ suc k → reduce k p x < 2 ^ suc k
  unfolding reduce
  reduce-lt x h = ground (arith, pow-suc 2 k, xor-lt (suc k) (2 * x - 2 ^ suc k) p)

  -- The polynomial is odd, so the lowest bit tells which way a round went.
  reduce_injective :
      (x y : ℕ) → p % 2 ≡ 1 → x < 2 ^ suc k → y < 2 ^ suc k → reduce k p x ≡ reduce k p y → x ≡ y
  unfolding reduce
  reduce_injective x y odd hx hy e = ground (
    arith,
    pow-suc 2 k,
    xor_digit (2 * x - 2 ^ suc k) p,
    xor_digit (2 * y - 2 ^ suc k) p,
    xor_injective (2 * x - 2 ^ suc k) (2 * y - 2 ^ suc k) p,
  )

  -- The masked shift of the code, on the side where a one falls out.
  masked_shift :
      (x : ℕ)
      → x < 2 ^ suc k
      → 2 ^ k ≤ x
      → bit_xor (x * 2) p % 2 ^ suc k ≡ bit_xor (2 * x - 2 ^ suc k) p
  masked_shift x h above =
      let kept : p % 2 ^ suc k ≡ p = mod-eq_of_lt fits in
      let wraps : 2 ^ suc k ≤ x * 2 = omega (arith, pow-suc 2 k) in
      let cut : x * 2 - 2 ^ suc k ≡ 2 * x - 2 ^ suc k = omega arith in
      let over : x * 2 % 2 ^ suc k ≡ 2 * x - 2 ^ suc k =
        mod-eq-sub-mod wraps ∙ mod-eq_of_lt (omega (arith, pow-suc 2 k)) ∙ cut in
      xor_mod (suc k) (x * 2) p
      ∙ ap (λ t. bit_xor t (p % 2 ^ suc k)) over
      ∙ ap (λ t. bit_xor (2 * x - 2 ^ suc k) t) kept

crc8_round-reduce : (poly x : ℕ) → x < 2 ^ 8 → crc8_round poly x ≡ reduce 7 (poly % 2 ^ 8) x
unfolding crc8_round reduce
crc8_round-reduce poly x h = ground (
  arith,
  high_bit 7 x h,
  and_mask 8 (x * 2),
  and_mask 8 (bit_xor (x * 2) (poly % 2 ^ 8)),
  masked_shift 7 (poly % 2 ^ 8) (omega arith) x h,
)

crc16_round-reduce :
    (poly x : ℕ) → poly < 2 ^ 16 → x < 2 ^ 16 → crc16_round poly x ≡ reduce 15 poly x
unfolding crc16_round reduce
crc16_round-reduce poly x fits h = ground (
  arith,
  high_bit 15 x h,
  and_mask 16 (x * 2),
  and_mask 16 (bit_xor (x * 2) poly),
  masked_shift 15 poly fits x h,
)

module _ (poly : ℕ) where
  pub crc8_rounds-lt : (j x : ℕ) → x < 2 ^ 8 → crc8_rounds j poly x < 2 ^ 8
  unfolding crc8_rounds
  crc8_rounds-lt zero x h = h
  crc8_rounds-lt (suc j) x h =
      crc8_rounds-lt j (crc8_round poly x)
        (omega (arith, crc8_round-reduce poly x h, reduce-lt 7 (poly % 2 ^ 8) (omega arith) x h))

  pub crc8_rounds_injective :
      (j x y : ℕ)
      → poly % 2 ≡ 1
      → x < 2 ^ 8
      → y < 2 ^ 8
      → crc8_rounds j poly x ≡ crc8_rounds j poly y
      → x ≡ y
  unfolding crc8_rounds
  crc8_rounds_injective zero x y odd hx hy e = e
  crc8_rounds_injective (suc j) x y odd hx hy e =
      let fits : poly % 2 ^ 8 < 2 ^ 8 = omega arith in
      let rx = crc8_round-reduce poly x hx in
      let ry = crc8_round-reduce poly y hy in
      let same =
        crc8_rounds_injective j (crc8_round poly x) (crc8_round poly y) odd
          (omega (arith, rx, reduce-lt 7 (poly % 2 ^ 8) fits x hx))
          (omega (arith, ry, reduce-lt 7 (poly % 2 ^ 8) fits y hy)) e in
      reduce_injective 7 (poly % 2 ^ 8) fits x y (omega arith) hx hy (sym rx ∙ same ∙ ry)

module _ (poly : ℕ) (fits : poly < 2 ^ 16) where
  pub crc16_rounds-lt : (j x : ℕ) → x < 2 ^ 16 → crc16_rounds j poly x < 2 ^ 16
  unfolding crc16_rounds
  crc16_rounds-lt zero x h = h
  crc16_rounds-lt (suc j) x h =
      crc16_rounds-lt j (crc16_round poly x)
        (omega (arith, crc16_round-reduce poly x fits h, reduce-lt 15 poly fits x h))

  pub crc16_rounds_injective :
      (j x y : ℕ)
      → poly % 2 ≡ 1
      → x < 2 ^ 16
      → y < 2 ^ 16
      → crc16_rounds j poly x ≡ crc16_rounds j poly y
      → x ≡ y
  unfolding crc16_rounds
  crc16_rounds_injective zero x y odd hx hy e = e
  crc16_rounds_injective (suc j) x y odd hx hy e =
      let rx = crc16_round-reduce poly x fits hx in
      let ry = crc16_round-reduce poly y fits hy in
      let same =
        crc16_rounds_injective j (crc16_round poly x) (crc16_round poly y) odd
          (omega (arith, rx, reduce-lt 15 poly fits x hx))
          (omega (arith, ry, reduce-lt 15 poly fits y hy)) e in
      reduce_injective 15 poly fits x y odd hx hy (sym rx ∙ same ∙ ry)
