-- ===== src/IdAllocator/Tests.antt =====
-- src/osfx_id_allocator.c on concrete tables.
use mathlib.Core.List.{map}
use osynaptic_fx.Prelude.{
  ◌+◌, ◌%◌, ℕ, ◌-◌, ◌^◌, ◌≤◌, ◌<◌, ◌≡◌, ◌≢◌, ◌⊎◌, refl, true, false, [], ◌∷◌, Option, none, some,
  arith,
}
use osynaptic_fx.Prelude.Slots.{find_index, modify, count}
use osynaptic_fx.IdAllocator.FixedPoint.{thousandths, thousandths-laws}
use osynaptic_fx.IdAllocator.{
  is_for, Entry, Allocator, Policy, allocator_init, set_policy_ex, compute_lease_seconds,
  pool_capacity, count_in_use, zero_entry,
}
use osynaptic_fx.IdAllocator.Calls.{
  allocate, alloc_loop, cleanup_expired, prepared, leased, swept, release, touch,
}
use osynaptic_fx.IdAllocator.Loop.{allocate_returns}
use osynaptic_fx.IdAllocator.Smallest.{Outcome}
use osynaptic_fx.IdAllocator.Allocate.{
  Leases, IsUnique, allocate_lem, allocate-Leases, allocate_wraps,
}
use osynaptic_fx.IdAllocator.Release.{lease_of, release_lem, touch_lem}
use osynaptic_fx.IdAllocator.Lease.{IsPolicy, set_policy_ex-IsPolicy, compute_lease_seconds_bounds}

abbrev table : Allocator thousandths
table = allocator_init thousandths 3 10 20 100

allocate_returns_example :
    (r : Allocator thousandths × Option ℕ) × (allocate thousandths table 5 ≡ some r)
unfolding allocator_init
allocate_returns_example = allocate_returns thousandths table 5 (omega arith) (omega arith)

-- A table of two slots with one lease, of id 10 until 105.
abbrev leased_table : Allocator thousandths
leased_table = record table { entries = leased 10 5 100 zero_entry ∷ zero_entry ∷ [] }

leased_table-IsUnique : IsUnique leased_table.entries
unfolding count
leased_table-IsUnique b = ground arith

allocate_lem_example :
    (r : Allocator thousandths × Option ℕ) × (allocate thousandths leased_table 50 ≡ some r)
    × Outcome thousandths
        (prepared thousandths leased_table 50).0
        50
        (prepared thousandths leased_table 50).1
        10
        r
unfolding allocator_init
allocate_lem_example =
    allocate_lem thousandths leased_table 50 (omega arith) (omega arith) (omega arith)

-- The range has the two greatest ids of 32 bits, and both are leased.
abbrev full_range : Allocator thousandths
full_range = record leased_table {
  start_id = 2 ^ 32 - 2;
  end_id = 2 ^ 32 - 1;
  entries =
      leased (2 ^ 32 - 2) 5 100 zero_entry ∷ leased (2 ^ 32 - 1) 5 100 zero_entry ∷ zero_entry ∷ [];
}

full_range-taken :
    (n : ℕ)
    → 2 ^ 32 - 2 ≤ n
    → n ≤ 2 ^ 32 - 1
    → find_index (is_for n) (map (swept 50) full_range.entries) ≢ none
unfolding find_index
full_range-taken n low high = ground arith

allocate_wraps_example :
    (after : Allocator thousandths) × (allocate thousandths full_range 50 ≡ some (after, some 0))
    × (0 < 2 ^ 32 - 2)
unfolding find_index
allocate_wraps_example =
    allocate_wraps thousandths full_range 50 2 (omega arith) refl (omega arith) full_range-taken
      refl refl

release_lem_example :
    (((release thousandths leased_table 10).1 ≡ true)
      × (lease_of leased_table.entries 10 ≢ none)
      × (lease_of (release thousandths leased_table 10).0.entries 10 ≡ none)
      × ((b : ℕ)
          → b ≢ 10
          → lease_of (release thousandths leased_table 10).0.entries b
            ≡ lease_of leased_table.entries b))
    ⊎ ((release thousandths leased_table 10 ≡ (leased_table, false))
        × (lease_of leased_table.entries 10 ≡ none))
release_lem_example = release_lem thousandths leased_table 10 leased_table-IsUnique

touch_lem_example :
    ((e : Entry) × (ext : ℕ) × (ext ≤ 100)
      × ((60 ≤ ext) ⊎ (ext ≡ 100))
      × ((touch thousandths leased_table 10 70).1 ≡ true)
      × (lease_of leased_table.entries 10 ≡ some e)
      × (lease_of (touch thousandths leased_table 10 70).0.entries 10
          ≡ some (record {
            aid = e.aid;
            leased_until = (70 + ext) % 2 ^ 64;
            last_seen = 70;
            in_use = e.in_use;
          }))
      × ((b : ℕ)
          → b ≢ 10
          → lease_of (touch thousandths leased_table 10 70).0.entries b
            ≡ lease_of leased_table.entries b))
    ⊎ ((touch thousandths leased_table 10 70 ≡ (leased_table, false))
        × (lease_of leased_table.entries 10 ≡ none))
unfolding allocator_init
touch_lem_example = touch_lem thousandths leased_table 10 70

abbrev policy : Policy thousandths
policy = record {
  min_lease = 60;
  max_lease = 90;
  rate_window = 3600;
  threshold = 60000;
  rate_factor = 200;
  watermark = 800;
  pressure_factor = 5000;
  touch_factor = 1000;
  adaptive = true;
}

abbrev with_policy : Allocator thousandths
with_policy = set_policy_ex thousandths leased_table policy

with_policy-IsPolicy : IsPolicy thousandths thousandths-laws with_policy
with_policy-IsPolicy =
    set_policy_ex-IsPolicy thousandths thousandths-laws leased_table policy (omega arith)
      (omega arith)

compute_lease_seconds_bounds_example :
    (with_policy.min_lease_seconds ≤ (compute_lease_seconds thousandths with_policy 50).1)
    × ((compute_lease_seconds thousandths with_policy 50).1 ≤ with_policy.max_lease_seconds)
unfolding set_policy_ex
compute_lease_seconds_bounds_example =
    compute_lease_seconds_bounds thousandths thousandths-laws with_policy 50 refl
      with_policy-IsPolicy

abbrev second_leased : Allocator thousandths
second_leased = record leased_table {
  recent_window_start = 50;
  recent_alloc_count = 1;
  entries = leased 10 5 100 zero_entry ∷ leased 11 50 100 zero_entry ∷ [];
}

second_granted : allocate thousandths leased_table 50 ≡ some (second_leased, some 11)
unfolding allocate alloc_loop cleanup_expired compute_lease_seconds pool_capacity count_in_use
    allocator_init find_index modify count
second_granted = refl

allocate-Leases_example :
    (10 ≤ 11)
    × (11 ≤ 20)
    × Leases (map (swept 50) leased_table.entries) second_leased.entries 11 (record {
      aid = 11;
      leased_until = (50 + (prepared thousandths leased_table 50).1) % 2 ^ 64;
      last_seen = 50;
      in_use = true;
    })
unfolding allocator_init
allocate-Leases_example =
    allocate-Leases thousandths leased_table 50 second_leased 11 (omega arith) (omega arith)
      (omega arith) second_granted
