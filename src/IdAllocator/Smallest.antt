-- ===== src/IdAllocator/Smallest.antt =====
-- Which id `osfx_id_allocate` of src/osfx_id_allocator.c grants, and when it refuses.
use mathlib.Core.List.{map}
use mathlib.Core.Option.{some-injective}
use osynaptic_fx.Prelude.{
  ℕ, zero, suc, ◌+◌, ◌%◌, ◌^◌, ◌≤◌, ◌<◌, ◌≡◌, ◌≢◌, ◌⊎◌, refl, sym, ap, ◌∙◌, subst, ◌==◌, leb, false,
  List, [], ◌∷◌, Option, none, some, Option-cases, Bool-cases, inl, inr, arith, get_or,
}
use osynaptic_fx.Prelude.Slots.{find_index, find, find_index-none, find_index-Finds}
use osynaptic_fx.IdAllocator.Reals.{Float}
use osynaptic_fx.IdAllocator.{Entry, Allocator, is_for, is_free, is_expired, zero_entry}
use osynaptic_fx.IdAllocator.Calls.{alloc_loop, granted, leased, grant_new, swept}

-- `id` is the smallest of the ids from `lo` to `hi` without a lease, and `slot` the first that is free.
pub record IsSmallest (es : List Entry) (lo hi id slot : ℕ) : Type 0 where
  pub from_lo : lo ≤ id
  pub to_hi : id ≤ hi
  pub vacant : find (is_for id) es ≡ none
  pub slot_free : find_index is_free es ≡ some slot
  pub below : (b : ℕ) → lo ≤ b → b < id → find (is_for b) es ≢ none

-- Each id from `lo` to `hi` is leased, or no slot is free.
abbrev pub IsExhausted : List Entry → ℕ → ℕ → Type 0
IsExhausted es lo hi =
    ((b : ℕ) → lo ≤ b → b ≤ hi → find (is_for b) es ≢ none) ⊎ (find_index is_free es ≡ none)

pub swept-fresh :
    (now i : ℕ) (es : List Entry)
    → is_expired now (get_or (map (swept now) es) i zero_entry) ≡ false
swept-fresh now i [] = refl
swept-fresh now zero (e ∷ es) = ground arith
swept-fresh now (suc i) (e ∷ es) = swept-fresh now i es

leased_now :
    (es : List Entry) (b i : ℕ) → find_index (is_for b) es ≡ some i → find (is_for b) es ≢ none
leased_now es b i e gone = let h = find_index-Finds (is_for b) es i e in ground arith

IsSmallest-below :
    (es : List Entry) (lo hi id slot : ℕ)
    → find (is_for lo) es ≢ none
    → IsSmallest es (lo + 1) hi id slot
    → IsSmallest es lo hi id slot
IsSmallest-below es lo hi id slot taken h = record {
  from_lo = omega (arith, h.from_lo);
  to_hi = h.to_hi;
  vacant = h.vacant;
  slot_free = h.slot_free;
  below = λ b from to. elim (Bool-cases (b == lo)) [
    | inl same ↦
        let e : b ≡ lo = ground arith in subst (λ n. find (is_for n) es ≢ none) (sym e) taken
    | inr differ ↦ h.below b (ground arith) to
  ];
}

IsExhausted-below :
    (es : List Entry) (lo hi : ℕ)
    → find (is_for lo) es ≢ none
    → IsExhausted es (lo + 1) hi
    → IsExhausted es lo hi
IsExhausted-below es lo hi taken (inr full) = inr full
IsExhausted-below es lo hi taken (inl all) = inl (λ b from to. elim (Bool-cases (b == lo)) [
  | inl same ↦ let e : b ≡ lo = ground arith in subst (λ n. find (is_for n) es ≢ none) (sym e) taken
  | inr differ ↦ all b (ground arith) to
])

module _ (F : Float) where
  -- What an allocation may give: a lease of the smallest free id, or nothing.
  unfoldable pub Outcome : Allocator F → ℕ → ℕ → ℕ → Allocator F × Option ℕ → Type 0
  Outcome a now lease lo r =
      ((id : ℕ) × (slot : ℕ) × IsSmallest a.entries lo a.end_id id slot
        × (r ≡ (granted F a slot (leased id now lease), some id)))
      ⊎ (IsExhausted a.entries lo a.end_id × (r ≡ (a, none)))

  Outcome-below :
      (a : Allocator F) (now lease lo : ℕ) (r : Allocator F × Option ℕ)
      → find (is_for lo) a.entries ≢ none
      → Outcome a now lease (lo + 1) r
      → Outcome a now lease lo r
  unfolding Outcome
  Outcome-below a now lease lo r taken (inl (id, slot, h, e)) =
      inl (id, slot, IsSmallest-below a.entries lo a.end_id id slot taken h, e)
  Outcome-below a now lease lo r taken (inr (h, e)) =
      inr (IsExhausted-below a.entries lo a.end_id taken h, e)

  -- A round that finds no lease for the id.
  Outcome-vacant :
      (a : Allocator F) (now lease lo : ℕ) (slot : Option ℕ)
      → lo ≤ a.end_id
      → find (is_for lo) a.entries ≡ none
      → find_index is_free a.entries ≡ slot
      → Outcome a now lease lo (grant_new F a now lease lo slot)
  unfolding Outcome
  Outcome-vacant a now lease lo none h gone e = inr (inr e, refl)
  Outcome-vacant a now lease lo (some i) h gone e = inl (
    lo,
    i,
    record {
      from_lo = omega arith;
      to_hi = h;
      vacant = gone;
      slot_free = e;
      below = λ b f t. absurd (omega arith);
    },
    refl,
  )

  pub loop-Outcome :
      (fuel : ℕ) (a : Allocator F) (now lease lo : ℕ) (r : Allocator F × Option ℕ)
      → a.end_id + 1 < 2 ^ 32
      → lo ≤ a.end_id + 1
      → ((i : ℕ) → is_expired now (get_or a.entries i zero_entry) ≡ false)
      → alloc_loop F fuel a now lease lo ≡ some r
      → Outcome a now lease lo r
  unfolding alloc_loop Outcome
  loop-Outcome zero a now lease lo r bound le fresh e = cc
  loop-Outcome (suc fuel) a now lease lo r bound le fresh e = elim (Bool-cases (leb lo a.end_id)) [
    | inl within ↦ elim (Option-cases (find_index (is_for lo) a.entries)) [
      | inl gone ↦
          let same : grant_new F a now lease lo (find_index is_free a.entries) ≡ r =
            some-injective _ _ (ground arith) in
          subst (Outcome a now lease lo) same (
            Outcome-vacant a now lease lo _ (ground arith)
              (find_index-none (is_for lo) a.entries gone) refl)
      | inr (i, taken) ↦
          let next : (lo + 1) % 2 ^ 32 ≡ lo + 1 = ground arith in
          let rest : alloc_loop F fuel a now lease (lo + 1) ≡ some r =
            ap (λ n. alloc_loop F fuel a now lease n) (sym next) ∙ ground (arith, fresh i) in
          Outcome-below a now lease lo r (leased_now a.entries lo i taken)
            (loop-Outcome fuel a now lease (lo + 1) r bound (ground arith) fresh rest)
    ]
    | inr beyond ↦ inr (inl (λ b f t. absurd (ground arith)), ground arith)
  ]
