-- ===== src/IdAllocator/Reals.antt =====
-- The C `double` as src/osfx_id_allocator.c uses it. The type and its operations are a
-- parameter; what is proved of leases rests on the laws that are named here.
use osynaptic_fx.Prelude.{ℕ, ◌≤◌, ◌<◌, ◌^◌, ◌≡◌, Bool, true, false}

pub record Float : Type 1 where
  pub Real : Type 0
  -- `(double)n`, and the literal `n / 10 ^ k`.
  pub of_ℕ : ℕ → Real
  pub literal : ℕ → ℕ → Real
  pub mul : Real → Real → Real
  pub div : Real → Real → Real
  -- `a < b` and `a <= b`.
  pub lt : Real → Real → Bool
  pub le : Real → Real → Bool
  -- `(uint64_t)x`.
  pub trunc : Real → ℕ

-- The IEEE 754 facts that the bounds on a lease need. `IsNumber` excludes NaN.
pub record Laws (F : Float) : Type 1 where
  pub IsNumber : F.Real → Type 0
  pub of_ℕ-IsNumber : (n : ℕ) → IsNumber (F.of_ℕ n)
  -- A finite number times a factor above 0 and at most 1.
  pub mul-IsNumber :
      (x f : F.Real)
      → IsNumber x
      → F.lt (F.literal 0 0) f ≡ true
      → F.le f (F.literal 1 0) ≡ true
      → IsNumber (F.mul x f)
  -- Numbers are totally ordered, and the cast keeps the order.
  pub trunc_mono :
      (x y : F.Real) → IsNumber x → IsNumber y → F.lt x y ≡ false → F.trunc y ≤ F.trunc x
  -- A double holds each whole number below 2 ^ 53.
  pub trunc-of_ℕ : (n : ℕ) → n < 2 ^ 53 → F.trunc (F.of_ℕ n) ≡ n
  -- The literals of the source that stand for a fraction are above 0 and at most 1.
  pub literal_fraction :
      (n k : ℕ)
      → 0 < n
      → n ≤ 10 ^ k
      → k ≤ 2
      → (F.lt (F.literal 0 0) (F.literal n k) ≡ true)
        × (F.le (F.literal n k) (F.literal 1 0) ≡ true)
