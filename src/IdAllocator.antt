-- ===== src/IdAllocator.antt =====
-- src/osfx_id_allocator.c and include/osfx_id_allocator.h: ids leased from a range, in a table of
-- fixed size. A call gives the new allocator and what the code returns. Saving to and loading from
-- a file are not here.
pub mod Reals
pub mod Calls
pub mod Loop
pub mod Smallest
pub mod Allocate
pub mod Release
pub mod Lease
pub mod FixedPoint
mod Tests
use osynaptic_fx.Prelude.{
  ℕ, zero, suc, ◌+◌, ◌-◌, ◌*◌, ◌/◌, ◌%◌, ◌^◌, ◌==◌, ltb, leb, if◌then◌else◌, Bool, true, false, not,
  ◌&&◌, List, [], ◌∷◌, map, replicate, get_or, length, Option, none, some,
}
use osynaptic_fx.Prelude.Slots.{find_index, modify, count}
use Reals.{Float}

pub record Entry : Type 0 where
  pub aid : ℕ
  pub leased_until : ℕ
  pub last_seen : ℕ
  pub in_use : Bool

-- A slot after `memset(..., 0, ...)`.
abbrev pub zero_entry : Entry
zero_entry = record { aid = 0; leased_until = 0; last_seen = 0; in_use = false }

pub record Allocator (F : Float) : Type 0 where
  pub start_id : ℕ
  pub end_id : ℕ
  pub default_lease_seconds : ℕ
  pub min_lease_seconds : ℕ
  pub max_lease_seconds : ℕ
  pub rate_window_seconds : ℕ
  pub high_rate_threshold_per_hour : F.Real
  pub high_rate_min_factor : F.Real
  pub pressure_high_watermark : F.Real
  pub pressure_min_factor : F.Real
  pub touch_extend_factor : F.Real
  pub adaptive_enabled : Bool
  pub recent_window_start : ℕ
  pub recent_alloc_count : ℕ
  pub entries : List Entry

-- `entries[i].in_use && entries[i].aid == aid`, and `!entries[i].in_use`.
abbrev pub is_for : ℕ → Entry → Bool
is_for aid e = e.in_use && e.aid == aid

abbrev pub is_free : Entry → Bool
is_free e = not e.in_use

abbrev pub is_used : Entry → Bool
is_used e = e.in_use

abbrev pub is_expired : ℕ → Entry → Bool
is_expired now e = e.in_use && ltb e.leased_until now

module _ (F : Float) where
  open F use {Real, of_ℕ, literal, mul, div, lt, le, trunc}

  abbrev zero_real : Real
  zero_real = literal 0 0

  abbrev one_real : Real
  one_real = literal 1 0

  unfoldable pub count_in_use : Allocator F → ℕ
  count_in_use a = count is_used a.entries

  -- `(uint32_t)(end_id - start_id + 1U)`.
  unfoldable pub pool_capacity : Allocator F → ℕ
  pool_capacity a = if ltb a.end_id a.start_id then 0 else (a.end_id - a.start_id + 1) % 2 ^ 32

  -- The window over which allocations are counted, moved on if it is over.
  abbrev pub windowed : Allocator F → ℕ → Allocator F
  windowed a now =
      let opened =
        if a.recent_window_start == 0 then record a { recent_window_start = now } else a in
      if ltb ((opened.recent_window_start + a.rate_window_seconds) % 2 ^ 64) now
      then record opened { recent_window_start = now; recent_alloc_count = 0 }
      else opened

  abbrev pub rate_per_hour : Allocator F → ℕ → Real
  rate_per_hour a now =
      let elapsed = if ltb a.recent_window_start now then now - a.recent_window_start else 1 in
      div (mul (of_ℕ a.recent_alloc_count) (literal 3600 0)) (of_ℕ elapsed)

  abbrev pub pressure_ratio : Allocator F → Real
  pressure_ratio a =
      if ltb 0 (pool_capacity a)
      then div (of_ℕ (count_in_use a)) (of_ℕ (pool_capacity a))
      else zero_real

  -- The lease before it is cut to the limits.
  abbrev pub scaled_lease : Allocator F → ℕ → Real
  scaled_lease a now =
      let lease = of_ℕ a.default_lease_seconds in
      let rated =
        if le a.high_rate_threshold_per_hour (rate_per_hour a now)
        then mul lease a.high_rate_min_factor
        else lease in
      mul rated (
        if le a.pressure_high_watermark (pressure_ratio a) then a.pressure_min_factor else one_real)

  abbrev pub cut_lease : Allocator F → Real → Real
  cut_lease a lease =
      let raised =
        if lt lease (of_ℕ a.min_lease_seconds) then of_ℕ a.min_lease_seconds else lease in
      if lt (of_ℕ a.max_lease_seconds) raised then of_ℕ a.max_lease_seconds else raised

  unfoldable pub compute_lease_seconds : Allocator F → ℕ → Allocator F × ℕ
  compute_lease_seconds a now =
      if not a.adaptive_enabled
      then (a, a.default_lease_seconds)
      else (windowed a now, trunc (cut_lease (windowed a now) (scaled_lease (windowed a now) now)))

  unfoldable pub allocator_init : ℕ → ℕ → ℕ → ℕ → Allocator F
  allocator_init max_entries start_id end_id default_lease_seconds =
      let lease = if ltb 0 default_lease_seconds then default_lease_seconds else 86400 in
      record {
        start_id = start_id;
        end_id = end_id;
        default_lease_seconds = lease;
        min_lease_seconds = 60;
        max_lease_seconds = lease;
        rate_window_seconds = 3600;
        high_rate_threshold_per_hour = literal 60 0;
        high_rate_min_factor = literal 2 1;
        pressure_high_watermark = literal 8 1;
        pressure_min_factor = literal 25 2;
        touch_extend_factor = one_real;
        adaptive_enabled = true;
        recent_window_start = 0;
        recent_alloc_count = 0;
        entries = replicate max_entries zero_entry;
      }

  -- `x > 0.0 && x <= 1.0 ? x : d`, and `x > 0.0 ? x : 1.0`.
  abbrev pub fraction_or : Real → Real → Real
  fraction_or x d = if lt zero_real x && le x one_real then x else d

  abbrev pub positive_or_one : Real → Real
  positive_or_one x = if lt zero_real x then x else one_real

  pub record Policy : Type 0 where
    pub min_lease : ℕ
    pub max_lease : ℕ
    pub rate_window : ℕ
    pub threshold : Real
    pub rate_factor : Real
    pub watermark : Real
    pub pressure_factor : Real
    pub touch_factor : Real
    pub adaptive : Bool

  -- The arguments of `osfx_id_set_policy_ex` are a record.
  unfoldable pub set_policy_ex : Allocator F → Policy → Allocator F
  set_policy_ex a p =
      let min_lease = if ltb 0 p.min_lease then p.min_lease else 1 in
      record a {
        min_lease_seconds = min_lease;
        max_lease_seconds = if leb min_lease p.max_lease then p.max_lease else min_lease;
        rate_window_seconds = if ltb 0 p.rate_window then p.rate_window else 1;
        high_rate_threshold_per_hour = positive_or_one p.threshold;
        high_rate_min_factor = fraction_or p.rate_factor (literal 2 1);
        pressure_high_watermark = fraction_or p.watermark (literal 8 1);
        pressure_min_factor = fraction_or p.pressure_factor (literal 25 2);
        touch_extend_factor = positive_or_one p.touch_factor;
        adaptive_enabled = p.adaptive;
      }

  unfoldable pub set_policy : Allocator F → ℕ → ℕ → Real → Real → Bool → Allocator F
  set_policy a min_lease rate_window threshold rate_factor adaptive =
      let default_lease =
        if ltb 0 a.default_lease_seconds then a.default_lease_seconds else 86400 in
      set_policy_ex a (record {
        min_lease = min_lease;
        max_lease = if a.max_lease_seconds == 0 then default_lease else a.max_lease_seconds;
        rate_window = rate_window;
        threshold = threshold;
        rate_factor = rate_factor;
        watermark = a.pressure_high_watermark;
        pressure_factor = a.pressure_min_factor;
        touch_factor = a.touch_extend_factor;
        adaptive = adaptive;
      })
