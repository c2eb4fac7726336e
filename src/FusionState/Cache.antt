-- ===== src/FusionState/Cache.antt =====
-- The slots of the cache of src/osfx_fusion_state.c.
use osynaptic_fx.Prelude.{
  ℕ, ◌≡◌, ◌≢◌, ◌⊎◌, refl, sym, ap, ◌∙◌, true, false, get_elem?, get_or, get_or-get_elem?, Option,
  none, some, arith, Option-cases, inl, inr, ==_refl, subst,
}
use mathlib.Core.Option
use osynaptic_fx.Prelude.Slots.{
  find_index, find, modify, find_index-none, find_index-Finds, get_elem?-modify,
  find_index-modify_same, find_index-modify_fresh, find-modify_ne,
}
use osynaptic_fx.FusionState.{
  FusionEntry, FusionCache, zero_entry, fresh_entry, is_for, is_free, find_entry, alloc_entry,
  find_or_alloc,
}

-- The entry of a source and template, and the one that a report of it is compared with.
abbrev pub entry_of : FusionCache → ℕ → ℕ → Option FusionEntry
entry_of st aid tid = find (is_for aid tid) st

abbrev pub entry_or_fresh : FusionCache → ℕ → ℕ → FusionEntry
entry_or_fresh st aid tid = Option.get_or (entry_of st aid tid) (fresh_entry aid tid)

-- There is an entry or a free slot for one.
abbrev pub HasRoom : FusionCache → ℕ → ℕ → Type 0
HasRoom st aid tid = (entry_of st aid tid ≢ none) ⊎ (find_index is_free st ≢ none)

-- The slot `i` of `st'` has the entry of a source and template, `e`; all else is as in `st`.
pub record HasSlot (aid tid : ℕ) (st : FusionCache) (e : FusionEntry) (st' : FusionCache) (i : ℕ)
    : Type 0 where
  pub there : get_elem? st' i ≡ some e
  pub passes : is_for aid tid e ≡ true
  pub first : find_index (is_for aid tid) st' ≡ some i
  pub others : (a t : ℕ) → (a ≢ aid) ⊎ (t ≢ tid) → entry_of st' a t ≡ entry_of st a t

is_for-fresh : (aid tid : ℕ) → is_for aid tid (fresh_entry aid tid) ≡ true
is_for-fresh aid tid = ground (arith, ==_refl aid, ==_refl tid)

is_for_other :
    (aid tid a t : ℕ) (e : FusionEntry)
    → (a ≢ aid) ⊎ (t ≢ tid)
    → is_for aid tid e ≡ true
    → is_for a t e ≡ false
is_for_other aid tid a t e ne h = ground arith

-- What `find_entry` or `alloc_entry` hands out: a slot of the changed cache.
pub record Given (aid tid : ℕ) (st : FusionCache) (e : FusionEntry) (got : FusionCache × Option ℕ)
    : Type 0 where
  pub cache : FusionCache
  pub index : ℕ
  pub given : got ≡ (cache, some index)
  pub slot : HasSlot aid tid st e cache index

pub found_slot :
    (aid tid : ℕ) (st : FusionCache) (i : ℕ)
    → find_entry st aid tid ≡ some i
    → HasSlot aid tid st (entry_or_fresh st aid tid) st i
found_slot aid tid st i e =
    let here = find_index-Finds (is_for aid tid) st i e in
    let same : entry_or_fresh st aid tid ≡ here.entry =
      ap (λ o. Option.get_or o (fresh_entry aid tid)) here.found in
    subst (λ x. HasSlot aid tid st x st i) (sym same)
      (record { there = here.there; passes = here.passes; first = e; others = λ a t ne. refl })

fresh_slot :
    (aid tid : ℕ) (st : FusionCache) (i : ℕ)
    → find_entry st aid tid ≡ none
    → find_index is_free st ≡ some i
    → HasSlot aid tid st (entry_or_fresh st aid tid) (modify st i (λ x. fresh_entry aid tid)) i
fresh_slot aid tid st i e vacant =
    let free = find_index-Finds is_free st i vacant in
    let same : entry_or_fresh st aid tid ≡ fresh_entry aid tid =
      ap (λ o. Option.get_or o (fresh_entry aid tid)) (find_index-none (is_for aid tid) st e) in
    subst (λ x. HasSlot aid tid st x (modify st i (λ y. fresh_entry aid tid)) i) (sym same)
      (record {
        there = get_elem?-modify st i (λ y. fresh_entry aid tid) free.entry free.there;
        passes = is_for-fresh aid tid;
        first =
            find_index-modify_fresh (is_for aid tid) st i (λ y. fresh_entry aid tid) free.entry e
              free.there (is_for-fresh aid tid);
        others = λ a t ne.
            find-modify_ne (is_for a t) st i (λ y. fresh_entry aid tid) free.entry free.there
              (unused a t free.entry free.passes)
              (is_for_other aid tid a t (fresh_entry aid tid) ne (is_for-fresh aid tid));
      })
  where
    unused : (a t : ℕ) (x : FusionEntry) → is_free x ≡ true → is_for a t x ≡ false
    unused a t x h = ground arith

pub find_or_alloc-Given :
    (aid tid : ℕ) (st : FusionCache)
    → HasRoom st aid tid
    → Given aid tid st (entry_or_fresh st aid tid) (find_or_alloc st aid tid)
unfolding find_or_alloc
find_or_alloc-Given aid tid st room = elim (Option-cases (find_entry st aid tid)) [
  | inr (i, e) ↦ record {
    cache = st;
    index = i;
    given = rw (find_or_alloc, e) refl;
    slot = found_slot aid tid st i e;
  }
  | inl e ↦ elim (Option-cases (find_index is_free st)) [
    | inr (i, vacant) ↦ record {
      cache = modify st i (λ x. fresh_entry aid tid);
      index = i;
      given = rw (find_or_alloc, e, alloc_entry, vacant) refl;
      slot = fresh_slot aid tid st i e vacant;
    }
    | inl full ↦ absurd (no_room (find_index-none (is_for aid tid) st e) full room)
  ]
]
  where
    no_room : entry_of st aid tid ≡ none → find_index is_free st ≡ none → HasRoom st aid tid → ⊥
    no_room e full (inl h) = h e
    no_room e full (inr h) = h full

-- A write through the pointer to the slot.
module _ {aid tid : ℕ} {st : FusionCache} {e : FusionEntry} {st' : FusionCache} {i : ℕ}
    (slot : HasSlot aid tid st e st' i) (f : FusionEntry → FusionEntry)
    (kept : is_for aid tid (f e) ≡ true) where
  pub written : HasSlot aid tid st (f e) (modify st' i f) i
  written = record {
    there = get_elem?-modify st' i f e slot.there;
    passes = kept;
    first =
        find_index-modify_same (is_for aid tid) st' i f e slot.there (kept ∙ sym slot.passes)
        ∙ slot.first;
    others = λ a t ne.
        find-modify_ne (is_for a t) st' i f e slot.there (is_for_other aid tid a t e ne slot.passes)
          (is_for_other aid tid a t (f e) ne kept)
        ∙ slot.others a t ne;
  }

module _ {aid tid : ℕ} {st : FusionCache} {e : FusionEntry} {st' : FusionCache} {i : ℕ}
    (slot : HasSlot aid tid st e st' i) where
  pub slot_entry : entry_of st' aid tid ≡ some e
  slot_entry =
      let here = find_index-Finds (is_for aid tid) st' i slot.first in
      here.found ∙ sym here.there ∙ slot.there

  pub slot_value : get_or st' i zero_entry ≡ e
  slot_value = get_or-get_elem? st' i zero_entry e slot.there
