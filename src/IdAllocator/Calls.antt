-- ===== src/IdAllocator/Calls.antt =====
-- The calls on the leases of src/osfx_id_allocator.c: clean-up, allocation, release and renewal.
use osynaptic_fx.Prelude.{
  ℕ, zero, suc, ◌+◌, ◌%◌, ◌^◌, ltb, leb, if◌then◌else◌, Bool, true, false, map, get_or, length,
  Option, none, some,
}
use osynaptic_fx.Prelude.Slots.{find_index, modify}
use osynaptic_fx.IdAllocator.Reals.{Float}
use osynaptic_fx.IdAllocator.{
  Entry, Allocator, zero_entry, is_for, is_free, is_expired, compute_lease_seconds,
}

-- The writes of a new lease into a free slot, and of a renewed one into its own.
abbrev pub leased : ℕ → ℕ → ℕ → Entry → Entry
leased aid now lease e = record {
  aid = aid;
  leased_until = (now + lease) % 2 ^ 64;
  last_seen = now;
  in_use = true;
}

abbrev pub extended : ℕ → ℕ → Entry → Entry
extended now lease e = record e { last_seen = now; leased_until = (now + lease) % 2 ^ 64 }

abbrev pub swept : ℕ → Entry → Entry
swept now e = if is_expired now e then zero_entry else e

module _ (F : Float) where
  open F use {Real, mul, of_ℕ, trunc}

  unfoldable pub cleanup_expired : Allocator F → ℕ → Allocator F
  cleanup_expired a now = record a { entries = map (swept now) a.entries }

  -- A lease written through the pointer to slot `i`, and one more allocation counted.
  abbrev pub granted : Allocator F → ℕ → (Entry → Entry) → Allocator F
  granted a i f = record a {
    entries = modify a.entries i f;
    recent_alloc_count = (a.recent_alloc_count + 1) % 2 ^ 32;
  }

  -- The first free slot for `aid`, if there is one.
  abbrev pub grant_new : Allocator F → ℕ → ℕ → ℕ → Option ℕ → Allocator F × Option ℕ
  grant_new a now lease aid none = (a, none)
  grant_new a now lease aid (some i) = (granted a i (leased aid now lease), some aid)

  -- One round for `aid`; `rest` are the rounds that follow if its lease has not run out.
  abbrev pub round :
      Allocator F
      → ℕ
      → ℕ
      → ℕ
      → Option ℕ
      → Option (Allocator F × Option ℕ)
      → Option (Allocator F × Option ℕ)
  round a now lease aid none rest = some (grant_new a now lease aid (find_index is_free a.entries))
  round a now lease aid (some i) rest =
      if is_expired now (get_or a.entries i zero_entry)
      then some (granted a i (extended now lease), some aid)
      else rest

  -- `for (aid = start_id; aid <= end_id; ++aid)` on 32 bits, with fuel; `none` means that it ran out.
  -- Within, `none` is the return of 0, and `some aid` that of 1.
  unfoldable pub alloc_loop : ℕ → Allocator F → ℕ → ℕ → ℕ → Option (Allocator F × Option ℕ)
  alloc_loop zero a now lease aid = none
  alloc_loop (suc fuel) a now lease aid =
      let rest = alloc_loop fuel a now lease ((aid + 1) % 2 ^ 32) in
      if leb aid a.end_id
      then round a now lease aid (find_index (is_for aid) a.entries) rest
      else some (a, none)

  -- The allocator that the loop starts from, and the lease that it grants.
  abbrev pub prepared : Allocator F → ℕ → Allocator F × ℕ
  prepared a now = compute_lease_seconds F (cleanup_expired a now) now

  unfoldable pub allocate : Allocator F → ℕ → Option (Allocator F × Option ℕ)
  allocate a now =
      if ltb a.end_id a.start_id
      then some (a, none)
      else alloc_loop (length a.entries + 1) (prepared a now).0 now (prepared a now).1 a.start_id

  abbrev pub write_entry : Allocator F → Option ℕ → (Entry → Entry) → Allocator F × Bool
  write_entry a none f = (a, false)
  write_entry a (some i) f = (record a { entries = modify a.entries i f }, true)

  unfoldable pub release : Allocator F → ℕ → Allocator F × Bool
  release a aid = write_entry a (find_index (is_for aid) a.entries) (λ e. zero_entry)

  abbrev pub touch_extension : Allocator F → ℕ
  touch_extension a =
      let extend = trunc (mul (of_ℕ a.default_lease_seconds) a.touch_extend_factor) in
      let raised = if ltb extend a.min_lease_seconds then a.min_lease_seconds else extend in
      if ltb a.max_lease_seconds raised then a.max_lease_seconds else raised

  unfoldable pub touch : Allocator F → ℕ → ℕ → Allocator F × Bool
  touch a aid now =
      write_entry a (find_index (is_for aid) a.entries) (extended now (touch_extension a))
