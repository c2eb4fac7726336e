-- ===== src/Easy/Tests.antt =====
-- A node of src/osfx_easy.c with a table of two slots, and a gateway that has heard nothing yet.
use osynaptic_fx.Prelude.{ℕ, ◌≤◌, ◌≡◌, sym, refl, inr, true, List, [], ◌∷◌, map, none, some, arith}
use mathlib.Core.Option
use osynaptic_fx.Prelude.Slots.{find, find_index, modify, count}
use osynaptic_fx.Solidity.Text.{pos}
use osynaptic_fx.FusionPacket.{Meta}
use osynaptic_fx.IdAllocator.FixedPoint.{thousandths}
use osynaptic_fx.IdAllocator.{
  Allocator, allocator_init, is_for, zero_entry, compute_lease_seconds, pool_capacity, count_in_use,
}
use osynaptic_fx.IdAllocator.Calls.{cleanup_expired, allocate, alloc_loop, leased, swept}
use osynaptic_fx.FusionState.{state_init}
use osynaptic_fx.FusionState.Cache.{HasRoom}
use osynaptic_fx.CoreFacade.{decode_sensor_packet_auto}
use osynaptic_fx.CoreFacade.Sample.{whole, no_units, temp, kelvin, wide_reading}
use osynaptic_fx.Easy.{EasyContext, easy_init, allocate_aid, encode_sensor_auto}
use osynaptic_fx.Easy.Report.{allocated_reading}

abbrev two_free : Allocator thousandths
two_free = record (allocator_init thousandths 0 10 20 100) {
  entries = zero_entry ∷ zero_entry ∷ [];
}

abbrev one_leased : Allocator thousandths
one_leased = record two_free {
  recent_window_start = 5;
  recent_alloc_count = 1;
  entries = leased 10 5 100 zero_entry ∷ zero_entry ∷ [];
}

abbrev node : EasyContext thousandths
node = record (easy_init thousandths) { id_alloc = some two_free }

abbrev holder : EasyContext thousandths
holder = record node { id_alloc = some one_leased; aid = 10; aid_ready = true }

granted : allocate_aid thousandths node 5 ≡ some (holder, some 10)
unfolding allocate_aid allocate alloc_loop cleanup_expired compute_lease_seconds pool_capacity
    count_in_use allocator_init find_index modify count
granted = refl

init_room : HasRoom state_init 10 2
unfolding find_index
init_room = inr (λ e. Option.none-ne-some _ (sym e))

allocated_reading_example :
    (packet : List ℕ) × (cmd : ℕ) × (meta : Meta) × ((encode_sensor_auto thousandths whole no_units
        holder 1700000000 temp
        (pos 300)
        kelvin
        79).1
      ≡ some (packet, cmd))
    × ((decode_sensor_packet_auto whole no_units state_init packet 32 24).1
        ≡ some (record { sensor_id = temp; value = pos 300; unit = kelvin }, meta))
    × (meta.source_aid ≡ 10)
    × (10 ≤ 10)
    × (10 ≤ 20)
    × (find (is_for 10) (map (swept 5) two_free.entries) ≡ none)
unfolding allocator_init
allocated_reading_example =
    allocated_reading thousandths whole no_units node holder two_free 5 10 1700000000 temp (pos 300)
      kelvin state_init 79 32 24 refl (omega arith) (omega arith) (omega arith) granted wide_reading
      (omega arith) (omega arith) (omega arith) (omega arith) (omega arith) (omega arith)
      (omega arith) (omega arith) (omega arith) (omega arith) refl init_room init_room
