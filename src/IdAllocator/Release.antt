-- ===== src/IdAllocator/Release.antt =====
-- `osfx_id_release` and `osfx_id_touch` of src/osfx_id_allocator.c.
use osynaptic_fx.Prelude.{
  ℕ, ◌+◌, ◌%◌, ◌^◌, ◌≤◌, ◌≡◌, ◌≢◌, ◌⊎◌, refl, true, false, List, Option, none, some, Option-cases,
  inl, inr, arith,
}
use osynaptic_fx.Prelude.Slots.{
  find_index, find, find_index-none, find_index-Finds, find-modify_found, find-modify_ne,
  count-modify, find-none_iff, modify,
}
use osynaptic_fx.IdAllocator.Reals.{Float}
use osynaptic_fx.IdAllocator.{Entry, Allocator, is_for, zero_entry}
use osynaptic_fx.IdAllocator.Calls.{release, touch, touch_extension, extended}
use osynaptic_fx.IdAllocator.Allocate.{IsUnique}

-- The lease of an id, if it has one.
abbrev pub lease_of : List Entry → ℕ → Option Entry
lease_of es aid = find (is_for aid) es

cleared :
    (es : List Entry) (aid i : ℕ)
    → IsUnique es
    → find_index (is_for aid) es ≡ some i
    → (lease_of (modify es i (λ e. zero_entry)) aid ≡ none)
      × ((b : ℕ) → b ≢ aid → lease_of (modify es i (λ e. zero_entry)) b ≡ lease_of es b)
cleared es aid i u e =
    let f = find_index-Finds (is_for aid) es i e in
    let gone = count-modify (is_for aid) es i (λ e. zero_entry) f.entry f.there in
    (
      (find-none_iff (is_for aid) (modify es i (λ e. zero_entry))).1
          (ground (arith, u aid, f.passes)),
      λ b ne.
          find-modify_ne (is_for b) es i (λ e. zero_entry) f.entry f.there
            (other b f.entry f.passes ne) refl,
    )
  where
    other : (b : ℕ) (x : Entry) → is_for aid x ≡ true → b ≢ aid → is_for b x ≡ false
    other b x h ne = ground arith

renewed :
    (es : List Entry) (aid i now ext : ℕ) (e : Entry)
    → find_index (is_for aid) es ≡ some i
    → lease_of es aid ≡ some e
    → (lease_of (modify es i (extended now ext)) aid ≡ some (extended now ext e))
      × ((b : ℕ) → b ≢ aid → lease_of (modify es i (extended now ext)) b ≡ lease_of es b)
renewed es aid i now ext x e g =
    let f = find_index-Finds (is_for aid) es i e in
    (
      find-modify_found (is_for aid) es i (extended now ext) x e g
          (mine x (ground (arith, f.found, f.passes))),
      λ b ne.
          find-modify_ne (is_for b) es i (extended now ext) f.entry f.there
            (other b f.entry f.passes ne)
            (other b (extended now ext f.entry) (mine f.entry f.passes) ne),
    )
  where
    mine : (y : Entry) → is_for aid y ≡ true → is_for aid (extended now ext y) ≡ true
    mine y h = h

    other : (b : ℕ) (y : Entry) → is_for aid y ≡ true → b ≢ aid → is_for b y ≡ false
    other b y h ne = ground arith

module _ (F : Float) where
  -- If no id has two leases: a release of an id with a lease succeeds, the id has none afterwards, and
  -- every other keeps its own; a release of an id without a lease fails and changes nothing.
  pub release_lem :
      (a : Allocator F) (aid : ℕ)
      → IsUnique a.entries
      → (((release F a aid).1 ≡ true)
          × (lease_of a.entries aid ≢ none)
          × (lease_of (release F a aid).0.entries aid ≡ none)
          × ((b : ℕ) → b ≢ aid → lease_of (release F a aid).0.entries b ≡ lease_of a.entries b))
        ⊎ ((release F a aid ≡ (a, false)) × (lease_of a.entries aid ≡ none))
  unfolding release
  release_lem a aid u = elim (Option-cases (find_index (is_for aid) a.entries)) [
    | inl gone ↦ inr (rw gone refl, find_index-none (is_for aid) a.entries gone)
    | inr (i, e) ↦
        let f = find_index-Finds (is_for aid) a.entries i e in
        let c = cleared a.entries aid i u e in
        inl (rw e refl, (λ n. ground (arith, f.found)), rw e c.0, rw e c.1)
  ]

  touch_extension_bounds :
      (a : Allocator F)
      → (touch_extension F a ≤ a.max_lease_seconds)
        × ((a.min_lease_seconds ≤ touch_extension F a)
            ⊎ (touch_extension F a ≡ a.max_lease_seconds))
  touch_extension_bounds a = ground arith

  -- A renewal of an id with a lease sets that it was last seen now, and that it ends after a time that is
  -- at most the greatest one, and at least the least one or just the greatest; nothing else of the lease
  -- changes, and every other id keeps its own. A renewal of an id without a lease fails and changes
  -- nothing.
  pub touch_lem :
      (a : Allocator F) (aid now : ℕ)
      → ((e : Entry) × (ext : ℕ) × (ext ≤ a.max_lease_seconds)
          × ((a.min_lease_seconds ≤ ext) ⊎ (ext ≡ a.max_lease_seconds))
          × ((touch F a aid now).1 ≡ true)
          × (lease_of a.entries aid ≡ some e)
          × (lease_of (touch F a aid now).0.entries aid
              ≡ some (record {
                aid = e.aid;
                leased_until = (now + ext) % 2 ^ 64;
                last_seen = now;
                in_use = e.in_use;
              }))
          × ((b : ℕ) → b ≢ aid → lease_of (touch F a aid now).0.entries b ≡ lease_of a.entries b))
        ⊎ ((touch F a aid now ≡ (a, false)) × (lease_of a.entries aid ≡ none))
  unfolding touch
  touch_lem a aid now = elim (Option-cases (find_index (is_for aid) a.entries)) [
    | inl gone ↦ inr (rw gone refl, find_index-none (is_for aid) a.entries gone)
    | inr (i, e) ↦
        let f = find_index-Finds (is_for aid) a.entries i e in
        let c = renewed a.entries aid i now (touch_extension F a) f.entry e f.found in
        let (most, least) = touch_extension_bounds a in
        inl (f.entry, touch_extension F a, most, least, rw e refl, f.found, rw e c.0, rw e c.1)
  ]
