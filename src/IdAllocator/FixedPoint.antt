-- ===== src/IdAllocator/FixedPoint.antt =====
-- Fixed-point numbers of three decimals, which have the laws that are asked of the doubles of
-- src/osfx_id_allocator.c.
use osynaptic_fx.Prelude.{ℕ, zero, suc, ◌*◌, ◌/◌, ◌^◌, ◌≤◌, ◌<◌, ltb, leb, arith}
use osynaptic_fx.IdAllocator.Reals.{Float, Laws}

abbrev pub thousandths : Float
thousandths = record {
  Real = ℕ;
  of_ℕ = λ n. n * 1000;
  literal = λ n k. n * 1000 / 10 ^ k;
  mul = λ x y. x * y / 1000;
  div = λ x y. x * 1000 / y;
  lt = ltb;
  le = leb;
  trunc = λ x. x / 1000;
}

literal_small :
    (n k : ℕ) → 0 < n → n ≤ 10 ^ k → k ≤ 2 → (0 < n * 1000 / 10 ^ k) × (n * 1000 / 10 ^ k ≤ 1000)
literal_small n zero h l m = ground arith
literal_small n (suc zero) h l m = ground arith
literal_small n (suc (suc zero)) h l m = ground arith
literal_small n (suc (suc (suc k))) h l m = absurd (omega arith)

pub thousandths-laws : Laws thousandths
thousandths-laws = record {
  IsNumber = λ x. Unit;
  of_ℕ-IsNumber = λ n. tt;
  mul-IsNumber = λ x f a b c. tt;
  trunc_mono = λ x y a b lt. ground arith;
  trunc-of_ℕ = λ n h. omega arith;
  literal_fraction = λ n k h l m. let s = literal_small n k h l m in ground arith;
}
