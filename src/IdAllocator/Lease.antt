-- ===== src/IdAllocator/Lease.antt =====
-- How long the leases of src/osfx_id_allocator.c last: `compute_lease_seconds` and the policy.
use osynaptic_fx.Prelude.{
  ℕ, ◌^◌, ◌≤◌, ◌<◌, ◌≡◌, sym, ap, subst, ◌==◌, if◌then◌else◌, Bool, true, false, not, arith,
  Bool-cases, inl, inr,
}
use osynaptic_fx.IdAllocator.Reals.{Float, Laws}
use osynaptic_fx.IdAllocator.{
  Allocator, Policy, compute_lease_seconds, windowed, scaled_lease, cut_lease, set_policy_ex,
  fraction_or, one_real,
}

module _ (F : Float) (L : Laws F) where
  -- A factor above 0 and at most 1.
  abbrev IsFraction : F.Real → Type 0
  IsFraction x = (F.lt (F.literal 0 0) x ≡ true) × (F.le x (F.literal 1 0) ≡ true)

  -- A policy that makes sense: the limits are in order and exact as doubles.
  pub record IsPolicy (a : Allocator F) : Type 0 where
    pub ordered : a.min_lease_seconds ≤ a.max_lease_seconds
    pub exact : a.max_lease_seconds < 2 ^ 53
    pub rate : IsFraction a.high_rate_min_factor
    pub pressure : IsFraction a.pressure_min_factor

  fraction_or-IsFraction : (x d : F.Real) → IsFraction d → IsFraction (fraction_or F x d)
  fraction_or-IsFraction x d h = ground arith

  -- Whatever policy is set, with limits below 2 ^ 53, makes sense.
  pub set_policy_ex-IsPolicy :
      (a : Allocator F) (p : Policy F)
      → p.min_lease < 2 ^ 53
      → p.max_lease < 2 ^ 53
      → IsPolicy (set_policy_ex F a p)
  unfolding set_policy_ex
  set_policy_ex-IsPolicy a p h k = record {
    ordered = ground arith;
    exact = ground arith;
    rate =
        fraction_or-IsFraction p.rate_factor _
          (L.literal_fraction 2 1 (omega arith) (omega arith) (omega arith));
    pressure =
        fraction_or-IsFraction p.pressure_factor _
          (L.literal_fraction 25 2 (omega arith) (omega arith) (omega arith));
  }

  scale-IsNumber :
      (x f : F.Real) (b : Bool)
      → L.IsNumber x
      → IsFraction f
      → L.IsNumber (if b then F.mul x f else x)
  scale-IsNumber x f true h k = L.mul-IsNumber x f h k.0 k.1
  scale-IsNumber x f false h k = h

  factor-IsNumber :
      (x f : F.Real) (b : Bool)
      → L.IsNumber x
      → IsFraction f
      → L.IsNumber (F.mul x (if b then f else one_real F))
  factor-IsNumber x f true h k = L.mul-IsNumber x f h k.0 k.1
  factor-IsNumber x f false h k =
      let one = L.literal_fraction 1 0 (omega arith) (omega arith) (omega arith) in
      L.mul-IsNumber x (one_real F) h one.0 one.1

  scaled_lease-IsNumber :
      (a : Allocator F) (now : ℕ) → IsPolicy a → L.IsNumber (scaled_lease F a now)
  scaled_lease-IsNumber a now h =
      factor-IsNumber _ a.pressure_min_factor _
        (scale-IsNumber (F.of_ℕ a.default_lease_seconds) a.high_rate_min_factor _
          (L.of_ℕ-IsNumber a.default_lease_seconds) h.rate)
        h.pressure

  cut_lease_bounds :
      (a : Allocator F) (x : F.Real)
      → L.IsNumber x
      → IsPolicy a
      → (a.min_lease_seconds ≤ F.trunc (cut_lease F a x))
        × (F.trunc (cut_lease F a x) ≤ a.max_lease_seconds)
  cut_lease_bounds a x number h =
      let lo = F.of_ℕ a.min_lease_seconds in
      let hi = F.of_ℕ a.max_lease_seconds in
      let lo_exact = L.trunc-of_ℕ a.min_lease_seconds (omega (arith, h.ordered, h.exact)) in
      let hi_exact = L.trunc-of_ℕ a.max_lease_seconds h.exact in
      let above = L.trunc_mono x lo number (L.of_ℕ-IsNumber a.min_lease_seconds) in
      let under = L.trunc_mono hi x (L.of_ℕ-IsNumber a.max_lease_seconds) number in
      elim (Bool-cases (F.lt x lo)) [
        | inl low ↦ ground (arith, lo_exact, hi_exact, h.ordered)
        | inr enough ↦ ground (arith, lo_exact, hi_exact, h.ordered, above, under)
      ]

  if-IsPolicy :
      (b : Bool) (x y : Allocator F) → IsPolicy x → IsPolicy y → IsPolicy (if b then x else y)
  if-IsPolicy true x y h k = h
  if-IsPolicy false x y h k = k

  moved-IsPolicy :
      (a : Allocator F) (start n : ℕ)
      → IsPolicy a
      → IsPolicy (record a { recent_window_start = start; recent_alloc_count = n })
  moved-IsPolicy a start n h = record {
    ordered = h.ordered;
    exact = h.exact;
    rate = h.rate;
    pressure = h.pressure;
  }

  windowed_limits :
      (a : Allocator F) (now : ℕ)
      → ((windowed F a now).min_lease_seconds ≡ a.min_lease_seconds)
        × ((windowed F a now).max_lease_seconds ≡ a.max_lease_seconds)
  windowed_limits a now = ground arith

  windowed-IsPolicy : (a : Allocator F) (now : ℕ) → IsPolicy a → IsPolicy (windowed F a now)
  windowed-IsPolicy a now h =
      let opened =
        if-IsPolicy (a.recent_window_start == 0) _ a (moved-IsPolicy a now a.recent_alloc_count h)
          h in
      if-IsPolicy _ _ _ (moved-IsPolicy _ now 0 opened) opened

  -- With a policy that makes sense, an adaptive lease lies within its limits, however many ids were
  -- granted lately and however full the table is.
  pub compute_lease_seconds_bounds :
      (a : Allocator F) (now : ℕ)
      → a.adaptive_enabled ≡ true
      → IsPolicy a
      → (a.min_lease_seconds ≤ (compute_lease_seconds F a now).1)
        × ((compute_lease_seconds F a now).1 ≤ a.max_lease_seconds)
  unfolding compute_lease_seconds
  compute_lease_seconds_bounds a now on h =
      let limits = windowed_limits a now in
      let bounds =
        cut_lease_bounds (windowed F a now) (scaled_lease F (windowed F a now) now)
          (scaled_lease-IsNumber (windowed F a now) now (windowed-IsPolicy a now h))
          (windowed-IsPolicy a now h) in
      let lease =
        F.trunc (cut_lease F (windowed F a now) (scaled_lease F (windowed F a now) now)) in
      let adaptive : (compute_lease_seconds F a now).1 ≡ lease =
        ap
          (λ (b : Bool).
            (let r : Allocator F × ℕ =
                if not b then (a, a.default_lease_seconds) else (windowed F a now, lease) in
              r.1))
          on in
      (
        subst (λ n. a.min_lease_seconds ≤ n) (sym adaptive)
            (subst (λ n. n ≤ lease) limits.0 bounds.0),
        subst (λ n. n ≤ a.max_lease_seconds) (sym adaptive)
            (subst (λ n. lease ≤ n) limits.1 bounds.1),
      )
