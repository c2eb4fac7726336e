-- ===== src/IdAllocator/Allocate.antt =====
-- What `osfx_id_allocate` of src/osfx_id_allocator.c promises to its callers.
use mathlib.Core.List.{map}
use mathlib.Core.Option.{some-injective, none-ne-some}
use osynaptic_fx.Prelude.{
  ℕ, zero, suc, ltb, ◌%◌, Option-cases, Bool-cases, ◌+◌, ◌-◌, ◌^◌, ◌≤◌, ◌<◌, ◌≡◌, ◌≢◌, sym, ap, ◌∙◌,
  subst, Bool, true, false, List, [], ◌∷◌, length, Option, none, some, inl, inr, arith, get_or,
  ==_refl,
}
use osynaptic_fx.Prelude.Slots.{
  find_index, find, find_index-Finds, find-modify_fresh, find-modify_ne, count, count-modify,
  find-none_iff, modify,
}
use osynaptic_fx.IdAllocator.Reals.{Float}
use osynaptic_fx.IdAllocator.{Entry, Allocator, is_for, is_free, is_expired, zero_entry}
use osynaptic_fx.IdAllocator.Calls.{alloc_loop, allocate, prepared, granted, leased, swept}
use osynaptic_fx.IdAllocator.Loop.{prepared_lem, allocate_returns}
use osynaptic_fx.IdAllocator.Smallest.{Outcome, IsSmallest, loop-Outcome, swept-fresh}

-- No id has two leases.
abbrev pub IsUnique : List Entry → Type 0
IsUnique es = (b : ℕ) → count (is_for b) es ≤ 1

-- From `es` to `es'` the id gets the lease `e`, which it did not have, and no other id's changes.
pub record Leases (es es' : List Entry) (id : ℕ) (e : Entry) : Type 0 where
  pub was_vacant : find (is_for id) es ≡ none
  pub own : find (is_for id) es' ≡ some e
  pub others : (b : ℕ) → b ≢ id → find (is_for b) es' ≡ find (is_for b) es
  pub unique : IsUnique es → IsUnique es'

free-is_for : (b : ℕ) (e : Entry) → is_free e ≡ true → is_for b e ≡ false
free-is_for b e h = ground arith

leased-is_for :
    (b aid now lease : ℕ) (e : Entry) → b ≢ aid → is_for b (leased aid now lease e) ≡ false
leased-is_for b aid now lease e ne = ground arith

pub IsSmallest-Leases :
    (es : List Entry) (lo hi id slot now lease : ℕ)
    → IsSmallest es lo hi id slot
    → Leases es (modify es slot (leased id now lease)) id (leased id now lease zero_entry)
IsSmallest-Leases es lo hi id slot now lease h =
    let f = find_index-Finds is_free es slot h.slot_free in
    let write = leased id now lease in
    record {
      was_vacant = h.vacant;
      own = find-modify_fresh (is_for id) es slot write f.entry h.vacant f.there (==_refl id);
      others = λ b ne.
          find-modify_ne (is_for b) es slot write f.entry f.there (free-is_for b f.entry f.passes)
            (leased-is_for b id now lease f.entry ne);
      unique = λ u b. ground (
        arith,
        u b,
        count-modify (is_for b) es slot write f.entry f.there,
        free-is_for b f.entry f.passes,
        (find-none_iff (is_for id) es).0 h.vacant,
      );
    }

length_found :
    (p : Entry → Bool) (es : List Entry) (i : ℕ) → find_index p es ≡ some i → 0 < length es
unfolding find_index
length_found p [] i e = cc
length_found p (x ∷ es) i e = omega arith

module _ (F : Float) where
  -- If the range is not empty, its last id is below 2 ^ 32 - 1, and the table has fewer than 2 ^ 32
  -- slots, an allocation ends. After the clean-up, it
  -- grants the smallest id of the range without a lease, in the first free slot and for the
  -- computed time, or it grants none and changes nothing: then each id of the range is leased, or no
  -- slot is free.
  pub allocate_lem :
      (a : Allocator F) (now : ℕ)
      → a.start_id ≤ a.end_id
      → a.end_id + 1 < 2 ^ 32
      → length a.entries < 2 ^ 32
      → (r : Allocator F × Option ℕ) × (allocate F a now ≡ some r)
        × Outcome F (prepared F a now).0 now (prepared F a now).1 a.start_id r
  unfolding allocate
  allocate_lem a now range bound size =
      let (r, got) = allocate_returns F a now (omega arith) size in
      let same = prepared_lem F a now in
      let st = (prepared F a now).0 in
      let fresh = λ (i : ℕ).
        ap (λ es. is_expired now (get_or es i zero_entry)) same.0 ∙ swept-fresh now i a.entries in
      let loop : alloc_loop F (length a.entries + 1) st now (prepared F a now).1 a.start_id
          ≡ some r =
        ground (arith, got) in
      (
        r,
        got,
        loop-Outcome F (length a.entries + 1) st now (prepared F a now).1 a.start_id r
            (omega (arith, same.2)) (omega (arith, same.2)) fresh loop,
      )

  -- If the last id of the range is below 2 ^ 32 - 1 and the table has fewer than 2 ^ 32 slots:
  -- an allocation that gives an id gives one from the range that has no lease after the clean-up; it
  -- is leased then from now on for the computed time, every other id keeps its lease, and no id has
  -- two leases if none had two after the clean-up.
  pub allocate-Leases :
      (a : Allocator F) (now : ℕ) (after : Allocator F) (id : ℕ)
      → a.start_id ≤ a.end_id
      → a.end_id + 1 < 2 ^ 32
      → length a.entries < 2 ^ 32
      → allocate F a now ≡ some (after, some id)
      → (a.start_id ≤ id)
        × (id ≤ a.end_id)
        × Leases (map (swept now) a.entries) after.entries id (record {
          aid = id;
          leased_until = (now + (prepared F a now).1) % 2 ^ 64;
          last_seen = now;
          in_use = true;
        })
  unfolding Outcome
  allocate-Leases a now after id range bound size e =
      let (r, got, out) = allocate_lem a now range bound size in
      from (some-injective _ _ (sym got ∙ e)) out
    where
      lease : ℕ
      lease = (prepared F a now).1

      from :
          {r : Allocator F × Option ℕ}
          → r ≡ (after, some id)
          → Outcome F (prepared F a now).0 now lease a.start_id r
          → (a.start_id ≤ id)
            × (id ≤ a.end_id)
            × Leases (map (swept now) a.entries) after.entries id (leased id now lease zero_entry)
      from same (inl (n, slot, h, granted_r)) =
          let p = sym granted_r ∙ same in
          let n_id : n ≡ id = some-injective _ _ (ap (λ (q : Allocator F × Option ℕ). q.1) p) in
          let written = ap (λ (q : Allocator F × Option ℕ). q.0.entries) p in
          let st = prepared_lem F a now in
          let leases = IsSmallest-Leases _ a.start_id _ n slot now lease h in
          let moved : Leases (prepared F a now).0.entries after.entries id
              (leased id now lease zero_entry) =
            subst
              (λ k.
                Leases (prepared F a now).0.entries after.entries k (leased k now lease zero_entry))
              n_id
              (subst
                (λ es. Leases (prepared F a now).0.entries es n (leased n now lease zero_entry))
                written leases) in
          (
            omega (arith, h.from_lo),
            omega (arith, h.to_hi, st.2),
            subst (λ es. Leases es after.entries id (leased id now lease zero_entry)) st.0 moved,
          )
      from same (inr (h, nothing)) =
          absurd (none-ne-some id (ap (λ (q : Allocator F × Option ℕ). q.1) (sym nothing ∙ same)))

  loop_at_zero :
      (fuel : ℕ) (a : Allocator F) (now lease slot : ℕ) (r : Allocator F × Option ℕ)
      → a.end_id ≡ 2 ^ 32 - 1
      → find_index (is_for 0) a.entries ≡ none
      → find_index is_free a.entries ≡ some slot
      → alloc_loop F fuel a now lease 0 ≡ some r
      → r ≡ (granted F a slot (leased 0 now lease), some 0)
  unfolding alloc_loop
  loop_at_zero zero a now lease slot r he vacant free e = cc
  loop_at_zero (suc fuel) a now lease slot r he vacant free e = ground arith

  -- From any id on, of which all up to 2 ^ 32 - 1 have a lease that has not run out, a loop that ends
  -- wraps around and grants 0, if 0 has no lease and a slot is free.
  loop_wraps :
      (fuel : ℕ) (a : Allocator F) (now lease aid slot : ℕ) (r : Allocator F × Option ℕ)
      → a.end_id ≡ 2 ^ 32 - 1
      → ((n : ℕ) → aid ≤ n → n < 2 ^ 32 → find_index (is_for n) a.entries ≢ none)
      → ((i : ℕ) → is_expired now (get_or a.entries i zero_entry) ≡ false)
      → find_index (is_for 0) a.entries ≡ none
      → find_index is_free a.entries ≡ some slot
      → aid < 2 ^ 32
      → alloc_loop F fuel a now lease aid ≡ some r
      → r ≡ (granted F a slot (leased 0 now lease), some 0)
  unfolding alloc_loop
  loop_wraps zero a now lease aid slot r he taken fresh vacant free small e = cc
  loop_wraps (suc fuel) a now lease aid slot r he taken fresh vacant free small e =
      elim (Option-cases (find_index (is_for aid) a.entries)) [
        | inl none_there ↦ absurd (taken aid (omega arith) small none_there)
        | inr (i, there) ↦
            let next : alloc_loop F fuel a now lease ((aid + 1) % 2 ^ 32) ≡ some r =
              ground (arith, fresh i) in
            elim (Bool-cases (ltb (aid + 1) (2 ^ 32))) [
              | inl more ↦
                  loop_wraps fuel a now lease (aid + 1) slot r he
                    (λ n le lt. taken n (omega arith) lt) fresh vacant free (ground arith)
                    (ap (alloc_loop F fuel a now lease) (ground arith) ∙ next)
              | inr last ↦
                  loop_at_zero fuel a now lease slot r he vacant free
                    (ap (alloc_loop F fuel a now lease) (ground arith) ∙ next)
            ]
      ]

  -- A range that is not empty and ends at 2 ^ 32 - 1, in a table of fewer than 2 ^ 32 slots: where after
  -- the clean-up each id of the range has a lease, the id 0 has none, and a slot is free, the counter of
  -- the loop wraps around, and the id 0 is granted, which is below the range.
  pub allocate_wraps :
      (a : Allocator F) (now slot : ℕ)
      → a.start_id ≤ a.end_id
      → a.end_id ≡ 2 ^ 32 - 1
      → length a.entries < 2 ^ 32
      → ((n : ℕ)
          → a.start_id ≤ n
          → n ≤ a.end_id
          → find_index (is_for n) (map (swept now) a.entries) ≢ none)
      → find_index (is_for 0) (map (swept now) a.entries) ≡ none
      → find_index is_free (map (swept now) a.entries) ≡ some slot
      → (after : Allocator F) × (allocate F a now ≡ some (after, some 0)) × (0 < a.start_id)
  unfolding allocate
  allocate_wraps a now slot range he size taken vacant free =
      let (r, got) = allocate_returns F a now (omega arith) size in
      let st = (prepared F a now).0 in
      let same = prepared_lem F a now in
      let lease = (prepared F a now).1 in
      let fresh = λ (i : ℕ).
        ap (λ es. is_expired now (get_or es i zero_entry)) same.0 ∙ swept-fresh now i a.entries in
      let all_taken : (n : ℕ)
          → a.start_id ≤ n
          → n < 2 ^ 32
          → find_index (is_for n) st.entries ≢ none =
        λ n le lt e. taken n le (omega arith) (sym (ap (find_index (is_for n)) same.0) ∙ e) in
      let loop : alloc_loop F (length a.entries + 1) st now lease a.start_id ≡ some r =
        ground (arith, got) in
      let given =
        loop_wraps (length a.entries + 1) st now lease a.start_id slot r (same.2 ∙ he) all_taken
          fresh (ap (find_index (is_for 0)) same.0 ∙ vacant) (ap (find_index is_free) same.0 ∙ free)
          (omega arith) loop in
      (
        granted F st slot (leased 0 now lease),
        got ∙ ap some given,
        positive a.start_id (λ e. taken 0 (omega arith) (omega arith) vacant),
      )
    where
      positive : (n : ℕ) → n ≢ 0 → 0 < n
      positive n h = omega arith
