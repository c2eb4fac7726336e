-- ===== src/Prelude/Bits.antt =====
-- `|`, `&` and `^` at variables: the laws of C's bit operations that the components rely on.
use Prim.Native.Nat.{min, max, differ, digits, bit_and-bitwise, bit_or-bitwise, bit_xor-bitwise}
use Prim.Native.Nat.{ℕ, zero, suc, ◌+◌, ◌-◌, ◌*◌, ◌/◌, ◌%◌, ◌^◌, ◌≤◌, ◌<◌, bit_and, bit_or, bit_xor}
use mathlib.Core.Path.{◌≡◌, refl, sym, ap, ◌∙◌}
use mathlib.Core.Logic.{◌⊎◌, inl, inr}
use native.Mathlib.Nat.{pow-suc, one-le-pow, mod-eq_of_lt, mul-add-mod_self_right}
use native.Mathlib.Omega.{arith}

-- Fuel above the first number does not matter to the digit recursion.
module _ (rest : ℕ → ℕ) (digit : ℕ → ℕ → ℕ) where
  fuel : (b a k l : ℕ) → a ≤ k → a ≤ l → digits rest digit k a b ≡ digits rest digit l a b
  fuel b zero zero zero p q = refl
  fuel b zero zero (suc l) p q = refl
  fuel b zero (suc k) zero p q = refl
  fuel b zero (suc k) (suc l) p q = refl
  fuel b (suc a) zero l p q = absurd (omega arith)
  fuel b (suc a) (suc k) zero p q = absurd (omega arith)
  fuel b (suc a) (suc k) (suc l) p q =
      ap (λ d. d * 2 + digit (suc a % 2) (b % 2))
        (fuel (b / 2) (suc a / 2) k l (omega arith) (omega arith))

  half_fuel :
      (a b : ℕ) → digits rest digit a (suc a / 2) b ≡ digits rest digit (suc a / 2) (suc a / 2) b
  half_fuel a b = fuel b (suc a / 2) a (suc a / 2) (omega arith) (omega arith)

-- The lowest digit of each operation.
pub or_digit : (a b : ℕ) → bit_or a b ≡ bit_or (a / 2) (b / 2) * 2 + max (a % 2) (b % 2)
or_digit zero b = simp bit_or-bitwise (omega arith)
or_digit (suc a) b =
    simp bit_or-bitwise
      (ap (λ d. d * 2 + max (suc a % 2) (b % 2)) (half_fuel (λ y. y) max a (b / 2)))

pub and_digit : (a b : ℕ) → bit_and a b ≡ bit_and (a / 2) (b / 2) * 2 + min (a % 2) (b % 2)
and_digit zero b = simp bit_and-bitwise (omega arith)
and_digit (suc a) b =
    simp bit_and-bitwise
      (ap (λ d. d * 2 + min (suc a % 2) (b % 2)) (half_fuel (λ y. 0) min a (b / 2)))

bit_sum : (x y : ℕ) → differ (x % 2) (y % 2) ≡ (x + y) % 2
bit_sum x y = elim (parity x) [
  | inl e ↦ omega (arith, ap (λ d. differ d (y % 2)) e)
  | inr e ↦ rw e (elim (parity y) [ inl d ↦ rw d (omega arith) | inr d ↦ rw d (omega arith) ])
]
  where
    parity : (n : ℕ) → (n % 2 ≡ 0) ⊎ (n % 2 ≡ 1)
    parity n = omega arith

pub xor_digit : (a b : ℕ) → bit_xor a b ≡ bit_xor (a / 2) (b / 2) * 2 + (a + b) % 2
xor_digit zero b = simp bit_xor-bitwise (omega arith)
xor_digit (suc a) b =
    simp bit_xor-bitwise (omega (arith, bit_sum (suc a) b, half_fuel (λ y. y) differ a (b / 2)))

-- `^` undoes itself.
xor_cancel_below : (n a b : ℕ) → a ≤ n → b ≤ n → bit_xor (bit_xor a b) b ≡ a
xor_cancel_below zero a b p q =
    let ea : a ≡ 0 = omega arith in let eb : b ≡ 0 = omega arith in rw (ea, eb)
xor_cancel_below (suc n) a b p q =
    let half : bit_xor a b / 2 ≡ bit_xor (a / 2) (b / 2) = omega (arith, xor_digit a b) in
    omega (
      arith,
      xor_digit (bit_xor a b) b,
      xor_digit a b,
      ap (λ h. bit_xor h (b / 2)) half,
      xor_cancel_below n (a / 2) (b / 2) (omega arith) (omega arith),
    )

pub xor_cancel : (a b : ℕ) → bit_xor (bit_xor a b) b ≡ a
xor_cancel a b = xor_cancel_below (a + b) a b (omega arith) (omega arith)

swap_below :
    (n a b c : ℕ) → a ≤ n → b ≤ n → c ≤ n → bit_xor (bit_xor a b) c ≡ bit_xor (bit_xor a c) b
swap_below zero a b c p q r =
    let eb : b ≡ 0 = omega arith in let ec : c ≡ 0 = omega arith in rw (eb, ec)
swap_below (suc n) a b c p q r =
    let hb : bit_xor a b / 2 ≡ bit_xor (a / 2) (b / 2) = omega (arith, xor_digit a b) in
    let hc : bit_xor a c / 2 ≡ bit_xor (a / 2) (c / 2) = omega (arith, xor_digit a c) in
    omega (
      arith,
      xor_digit (bit_xor a b) c,
      xor_digit (bit_xor a c) b,
      xor_digit a b,
      xor_digit a c,
      ap (λ h. bit_xor h (c / 2)) hb,
      ap (λ h. bit_xor h (b / 2)) hc,
      swap_below n (a / 2) (b / 2) (c / 2) (omega arith) (omega arith) (omega arith),
    )

-- The order in which two masks are applied does not matter.
pub xor_right_comm : (a b c : ℕ) → bit_xor (bit_xor a b) c ≡ bit_xor (bit_xor a c) b
xor_right_comm a b c = swap_below (a + b + c) a b c (omega arith) (omega arith) (omega arith)

pub xor_injective : (a b c : ℕ) → bit_xor a c ≡ bit_xor b c → a ≡ b
xor_injective a b c h = sym (xor_cancel a c) ∙ ap (λ x. bit_xor x c) h ∙ xor_cancel b c

comm_below : (n a b : ℕ) → a ≤ n → b ≤ n → bit_xor a b ≡ bit_xor b a
comm_below zero a b p q =
    let ea : a ≡ 0 = omega arith in let eb : b ≡ 0 = omega arith in rw (ea, eb)
comm_below (suc n) a b p q =
    omega (
      arith,
      xor_digit a b,
      xor_digit b a,
      comm_below n (a / 2) (b / 2) (omega arith) (omega arith),
    )

pub xor_comm : (a b : ℕ) → bit_xor a b ≡ bit_xor b a
xor_comm a b = comm_below (a + b) a b (omega arith) (omega arith)

pub xor-lt : (k a b : ℕ) → a < 2 ^ k → b < 2 ^ k → bit_xor a b < 2 ^ k
xor-lt zero a b p q =
    let ea : a ≡ 0 = omega arith in let eb : b ≡ 0 = omega arith in rw (ea, eb) (omega arith)
xor-lt (suc k) a b p q = omega (
  arith,
  pow-suc 2 k,
  xor_digit a b,
  xor-lt k (a / 2) (b / 2) (omega (arith, pow-suc 2 k)) (omega (arith, pow-suc 2 k)),
)

or_zero_below : (n a : ℕ) → a ≤ n → bit_or a 0 ≡ a
or_zero_below zero a p = let ea : a ≡ 0 = omega arith in rw ea
or_zero_below (suc n) a p = omega (arith, or_digit a 0, or_zero_below n (a / 2) (omega arith))

-- `|` of a shifted field and one below it is their sum.
pub or_fields : (k q r : ℕ) → r < 2 ^ k → bit_or (q * 2 ^ k) r ≡ q * 2 ^ k + r
or_fields zero q r h =
    let e : r ≡ 0 = omega arith in
    let f : q * 2 ^ 0 ≡ q = omega arith in
    rw (e, f) (omega (arith, or_zero_below q q (omega arith)))
or_fields (suc k) q r h =
    let whole : q * 2 ^ suc k ≡ 2 * (q * 2 ^ k) =
      omega (arith, ap (λ (t : ℕ). q * t) (pow-suc 2 k)) in
    let half : q * 2 ^ suc k / 2 ≡ q * 2 ^ k = omega arith in
    omega (
      arith,
      or_digit (q * 2 ^ suc k) r,
      ap (λ t. bit_or t (r / 2)) half,
      or_fields k q (r / 2) (omega (arith, pow-suc 2 k)),
    )

and_zero_below : (n a : ℕ) → a ≤ n → bit_and a 0 ≡ 0
and_zero_below zero a p = let ea : a ≡ 0 = omega arith in rw ea
and_zero_below (suc n) a p = omega (arith, and_digit a 0, and_zero_below n (a / 2) (omega arith))

mask_fields : (k q r : ℕ) → r < 2 ^ k → bit_and (q * 2 ^ k + r) (2 ^ k - 1) ≡ r
mask_fields zero q r h =
    rw (and_zero_below (q * 2 ^ 0 + r) (q * 2 ^ 0 + r) (omega arith)) (omega arith)
mask_fields (suc k) q r h =
    let whole : q * 2 ^ suc k ≡ 2 * (q * 2 ^ k) =
      omega (arith, ap (λ (t : ℕ). q * t) (pow-suc 2 k)) in
    let half : (q * 2 ^ suc k + r) / 2 ≡ q * 2 ^ k + r / 2 = omega arith in
    let ones : (2 ^ suc k - 1) / 2 ≡ 2 ^ k - 1 = omega (arith, pow-suc 2 k) in
    omega (
      arith,
      pow-suc 2 k,
      and_digit (q * 2 ^ suc k + r) (2 ^ suc k - 1),
      ap (λ t. bit_and t ((2 ^ suc k - 1) / 2)) half,
      ap (λ t. bit_and (q * 2 ^ k + r / 2) t) ones,
      mask_fields k q (r / 2) (omega (arith, pow-suc 2 k)),
    )

-- A mask of `k` ones keeps the remainder by `2 ^ k`.
pub and_mask : (k a : ℕ) → bit_and a (2 ^ k - 1) ≡ a % 2 ^ k
and_mask k a =
    let parts : a ≡ a / 2 ^ k * 2 ^ k + a % 2 ^ k = grind (arith, one-le-pow k 2) in
    ap (λ x. bit_and x (2 ^ k - 1)) parts
    ∙ mask_fields k (a / 2 ^ k) (a % 2 ^ k) (grind (arith, one-le-pow k 2))

bit_below : (k a : ℕ) → a < 2 ^ k → bit_and a (2 ^ k) ≡ 0
bit_below zero a h = let e : a ≡ 0 = omega arith in rw e
bit_below (suc k) a h =
    let half : 2 ^ suc k / 2 ≡ 2 ^ k = omega (arith, pow-suc 2 k) in
    omega (
      arith,
      pow-suc 2 k,
      and_digit a (2 ^ suc k),
      ap (λ t. bit_and (a / 2) t) half,
      bit_below k (a / 2) (omega (arith, pow-suc 2 k)),
    )

bit_top : (k a : ℕ) → a < 2 ^ k → bit_and (a + 2 ^ k) (2 ^ k) ≡ 2 ^ k
bit_top zero a h = let e : a ≡ 0 = omega arith in rw e
bit_top (suc k) a h =
    let half : 2 ^ suc k / 2 ≡ 2 ^ k = omega (arith, pow-suc 2 k) in
    let low : (a + 2 ^ suc k) / 2 ≡ a / 2 + 2 ^ k = omega (arith, pow-suc 2 k) in
    omega (
      arith,
      pow-suc 2 k,
      and_digit (a + 2 ^ suc k) (2 ^ suc k),
      ap (λ t. bit_and ((a + 2 ^ suc k) / 2) t) half,
      ap (λ t. bit_and t (2 ^ k)) low,
      bit_top k (a / 2) (omega (arith, pow-suc 2 k)),
    )

-- The test of the highest bit of a `k + 1` bit number compares it with `2 ^ k`.
pub high_bit :
    (k a : ℕ)
    → a < 2 ^ suc k
    → ((a < 2 ^ k) × (bit_and a (2 ^ k) ≡ 0)) ⊎ ((2 ^ k ≤ a) × (bit_and a (2 ^ k) ≡ 2 ^ k))
high_bit k a h = elim (split (2 ^ k)) [
  | inl p ↦ inl (p, bit_below k a p)
  | inr p ↦
      let e : a - 2 ^ k + 2 ^ k ≡ a = omega arith in
      inr (
        p,
        ap (λ t. bit_and t (2 ^ k)) (sym e) ∙ bit_top k (a - 2 ^ k) (omega (arith, pow-suc 2 k)),
      )
]
  where
    split : (n : ℕ) → (a < n) ⊎ (n ≤ a)
    split n = grind arith

-- The quotient and the remainder by two of a remainder by a power of two.
mod_digit : (k x : ℕ) → (x % 2 ^ suc k / 2 ≡ x / 2 % 2 ^ k) × (x % 2 ^ suc k % 2 ≡ x % 2)
mod_digit k x =
    let q : ℕ = x / 2 / 2 ^ k in
    let r : ℕ = x / 2 % 2 ^ k in
    let half : x / 2 ≡ q * 2 ^ k + r = grind (arith, one-le-pow k 2) in
    let small : r < 2 ^ k = grind (arith, one-le-pow k 2) in
    let whole : q * 2 ^ suc k ≡ 2 * (q * 2 ^ k) =
      omega (arith, ap (λ (t : ℕ). q * t) (pow-suc 2 k)) in
    let sum : x ≡ q * 2 ^ suc k + (2 * r + x % 2) = omega arith in
    let m : x % 2 ^ suc k ≡ 2 * r + x % 2 =
      ap (λ t. t % 2 ^ suc k) sum
      ∙ mul-add-mod_self_right q (2 ^ suc k) (2 * r + x % 2)
      ∙ mod-eq_of_lt (omega (arith, pow-suc 2 k)) in
    omega arith

-- The low digits of `^` are those of its arguments.
pub xor_mod : (k a b : ℕ) → bit_xor a b % 2 ^ k ≡ bit_xor (a % 2 ^ k) (b % 2 ^ k)
xor_mod zero a b =
    let ea : a % 2 ^ 0 ≡ 0 = omega arith in
    let eb : b % 2 ^ 0 ≡ 0 = omega arith in rw (ea, eb) (omega arith)
xor_mod (suc k) a b = omega (
  arith,
  mod_digit k a,
  mod_digit k b,
  mod_digit k (bit_xor a b),
  xor_digit a b,
  xor_digit (a % 2 ^ suc k) (b % 2 ^ suc k),
  ap (λ t. t % 2 ^ k) half,
  xor_mod k (a / 2) (b / 2),
  ap (λ t. bit_xor t (b % 2 ^ suc k / 2)) (mod_digit k a).0,
  ap (λ t. bit_xor (a / 2 % 2 ^ k) t) (mod_digit k b).0,
)
  where
    half : bit_xor a b / 2 ≡ bit_xor (a / 2) (b / 2)
    half = omega (arith, xor_digit a b)
