-- ===== src/IdAllocator/Loop.antt =====
-- How long the loop of `osfx_id_allocate` in src/osfx_id_allocator.c runs.
use osynaptic_fx.Prelude.{
  ℕ, zero, suc, ◌+◌, ◌-◌, ◌%◌, ◌^◌, ◌≤◌, ◌<◌, ◌≡◌, ◌≢◌, refl, sym, ap, ◌∙◌, subst, ltb, leb, Bool,
  true, false, List, length, length-map, Option, none, some, Option-cases, Bool-cases, inl, inr,
  arith,
}
use osynaptic_fx.Prelude.Slots.{find_index, count, count-lt, count-le_length}
use osynaptic_fx.IdAllocator.Reals.{Float}
use osynaptic_fx.IdAllocator.{Entry, Allocator, is_for, compute_lease_seconds}
use mathlib.Core.List.{map}
use osynaptic_fx.IdAllocator.Calls.{alloc_loop, allocate, prepared, cleanup_expired, swept}

-- How far the loop goes from `start` before it comes to `aid`.
abbrev distance : ℕ → ℕ → ℕ
distance start aid = (aid + 2 ^ 32 - start) % 2 ^ 32

-- The slots whose id the loop has not come to after `k` rounds.
abbrev ahead : ℕ → ℕ → Entry → Bool
ahead start k e = leb k (distance start e.aid)

abbrev nth : ℕ → ℕ → ℕ
nth start k = (start + k) % 2 ^ 32

distance-nth : (start k : ℕ) → start < 2 ^ 32 → k < 2 ^ 32 → distance start (nth start k) ≡ k
distance-nth start k hs hk = omega arith

nth-suc : (start k : ℕ) → (nth start k + 1) % 2 ^ 32 ≡ nth start (suc k)
nth-suc start k = omega arith

count-ahead :
    (start k i : ℕ) (es : List Entry)
    → start < 2 ^ 32
    → k < 2 ^ 32
    → find_index (is_for (nth start k)) es ≡ some i
    → count (ahead start (suc k)) es < count (ahead start k) es
count-ahead start k i es hs hk e =
    count-lt (ahead start k) (ahead start (suc k)) (is_for (nth start k)) (λ x h. ground arith) es i
      e (λ x h. here x (ground arith))
  where
    here :
        (x : Entry)
        → x.aid ≡ nth start k
        → (ahead start k x ≡ true) × (ahead start (suc k) x ≡ false)
    here x m =
        let d : distance start x.aid ≡ k = ap (distance start) m ∙ distance-nth start k hs hk in
        ground arith

module _ (F : Float) where
  alloc_loop-fuel :
      (fuel : ℕ) (a : Allocator F) (now lease k : ℕ)
      → a.start_id < 2 ^ 32
      → k + fuel ≤ 2 ^ 32
      → count (ahead a.start_id k) a.entries < fuel
      → alloc_loop F fuel a now lease (nth a.start_id k) ≢ none
  unfolding alloc_loop
  alloc_loop-fuel zero a now lease k hs hk h = absurd (omega arith)
  alloc_loop-fuel (suc fuel) a now lease k hs hk h =
      elim (Option-cases (find_index (is_for (nth a.start_id k)) a.entries)) [
        | inl vacant ↦ ground arith
        | inr (i, taken) ↦
            let fewer = count-ahead a.start_id k i a.entries hs (omega arith) taken in
            let rest =
              subst (λ n. alloc_loop F fuel a now lease n ≢ none) (sym (nth-suc a.start_id k))
                (alloc_loop-fuel fuel a now lease (suc k) hs (omega arith) (omega arith)) in
            ground arith
      ]

  windowed-entries :
      (a : Allocator F) (now : ℕ)
      → ((compute_lease_seconds F a now).0.entries ≡ a.entries)
        × ((compute_lease_seconds F a now).0.start_id ≡ a.start_id)
        × ((compute_lease_seconds F a now).0.end_id ≡ a.end_id)
  unfolding compute_lease_seconds
  windowed-entries a now = ground arith

  -- What the loop starts from: the table after the clean-up, and the same range.
  pub prepared_lem :
      (a : Allocator F) (now : ℕ)
      → ((prepared F a now).0.entries ≡ map (swept now) a.entries)
        × ((prepared F a now).0.start_id ≡ a.start_id)
        × ((prepared F a now).0.end_id ≡ a.end_id)
  unfolding cleanup_expired
  prepared_lem a now = windowed-entries (record a { entries = map (swept now) a.entries }) now

  -- For any range, also one whose counter wraps, and any table of fewer than 2 ^ 32 slots, an
  -- allocation ends: its rounds are at most one more than there are slots.
  pub allocate_returns :
      (a : Allocator F) (now : ℕ)
      → a.start_id < 2 ^ 32
      → length a.entries < 2 ^ 32
      → (r : Allocator F × Option ℕ) × (allocate F a now ≡ some r)
  unfolding allocate
  allocate_returns a now hs hn = elim (Bool-cases (ltb a.end_id a.start_id)) [
    | inl empty ↦ ((a, none), rw empty refl)
    | inr range ↦
        let st : Allocator F = (prepared F a now).0 in
        let same = prepared_lem a now in
        let size : length st.entries ≡ length a.entries =
          ap length same.0 ∙ length-map a.entries (swept now) in
        let few = count-le_length (ahead st.start_id 0) st.entries in
        let ends : alloc_loop F (length a.entries + 1) st now (prepared F a now).1
              (nth st.start_id 0)
            ≢ none =
          alloc_loop-fuel (length a.entries + 1) st now (prepared F a now).1 0
            (omega (arith, same.1)) (omega arith) (omega (arith, size, few)) in
        let first : nth st.start_id 0 ≡ a.start_id = omega (arith, same.1) in
        elim (Option-cases
          (alloc_loop F (length a.entries + 1) st now (prepared F a now).1 a.start_id)) [
            | inl out ↦ absurd (
                ends (
                  ap (λ n. alloc_loop F (length a.entries + 1) st now (prepared F a now).1 n) first
                  ∙ out))
            | inr (r, got) ↦ (r, rw range got)
          ]
  ]
