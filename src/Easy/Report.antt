-- ===== src/Easy/Report.antt =====
-- A node of src/osfx_easy.c that gets its id from its allocator and sends a reading under it.
use osynaptic_fx.Prelude.{
  ℕ, ◌+◌, ◌^◌, ◌≤◌, ◌<◌, ◌≡◌, sym, ap, ◌∙◌, true, List, length, map, Option, none, some, arith,
}
use mathlib.Core.Option
use osynaptic_fx.Prelude.Slots.{find}
use osynaptic_fx.Prelude.Words.{IsByte}
use osynaptic_fx.Prelude.Texts.{Lacks}
use osynaptic_fx.FusionPacket.{Meta}
use osynaptic_fx.IdAllocator.Reals.{Float}
use osynaptic_fx.IdAllocator.{Allocator, is_for}
use osynaptic_fx.IdAllocator.Calls.{allocate, swept}
use osynaptic_fx.IdAllocator.Allocate.{allocate-Leases}
use osynaptic_fx.FusionState.{FusionCache, bar}
use osynaptic_fx.FusionState.Cache.{HasRoom, entry_of}
use osynaptic_fx.Standardization.{Double, Catalog}
use osynaptic_fx.CoreFacade.{decode_sensor_packet_auto}
use osynaptic_fx.CoreFacade.Body.{IsReading, reading_of}
use osynaptic_fx.CoreFacade.Auto.{decode-encode_auto}
use osynaptic_fx.Easy.{EasyContext, allocated, allocate_from, allocate_aid, encode_sensor_auto}

module _ (F : Float) where
  -- The context after an id was given out.
  abbrev holding : EasyContext F → Allocator F → ℕ → EasyContext F
  holding ctx a aid = record ctx { id_alloc = some a; aid = aid; aid_ready = true }

  allocated_lem :
      (ctx ctx' : EasyContext F) (aid : ℕ) (o : Option (Allocator F × Option ℕ))
      → allocated F ctx o ≡ some (ctx', some aid)
      → (a : Allocator F) × (o ≡ some (a, some aid)) × (ctx' ≡ holding ctx a aid)
  allocated_lem ctx ctx' aid none e = absurd (Option.none-ne-some _ e)
  allocated_lem ctx ctx' aid (some (a, none)) e =
      absurd (Option.none-ne-some aid (ap (λ p. p.1) (Option.some-injective _ _ e)))
  allocated_lem ctx ctx' aid (some (a, some b)) e =
      let p = Option.some-injective _ _ e in
      let same : b ≡ aid = Option.some-injective _ _ (ap (λ q. q.1) p) in
      (a, ap (λ n. some (a, some n)) same, sym (ap (λ q. q.0) p) ∙ ap (holding ctx a) same)

  allocate_aid_lem :
      (ctx ctx' : EasyContext F) (a : Allocator F) (now aid : ℕ)
      → ctx.id_alloc ≡ some a
      → allocate_aid F ctx now ≡ some (ctx', some aid)
      → (after : Allocator F) × (allocate F a now ≡ some (after, some aid))
        × (ctx' ≡ holding ctx after aid)
  unfolding allocate_aid
  allocate_aid_lem ctx ctx' a now aid has e =
      allocated_lem ctx ctx' aid (allocate F a now)
        (sym (ap (λ o. allocate_from F ctx o now) has) ∙ e)

  module _ (D : Double) (lib : Catalog D) where
    -- A node gets an id from its allocator, whose range ends below 2 ^ 32 - 1 and whose table has fewer
    -- than 2 ^ 32 slots. A reading that it sends then, with an 8-bit template, is a reading from that id
    -- at a gateway, and the id is in the range and had no lease before. For this the node and the gateway
    -- have the same cached entry for the id and the template, or none and a free slot each; the
    -- reading's id has fewer than 12 bytes and its standard unit fewer than 14, without separators or a
    -- 0 and with room at the gateway; its scaled value has 63 bits and a sign; and the packet has room
    -- for 79 bytes.
    pub allocated_reading :
        (ctx ctx' : EasyContext F) (a : Allocator F) (now aid ts : ℕ) (id : List ℕ) (value : D.Real)
        (unit : List ℕ) (r : FusionCache) (out_cap id_cap unit_cap : ℕ)
        → ctx.id_alloc ≡ some a
        → a.start_id ≤ a.end_id
        → a.end_id + 1 < 2 ^ 32
        → length a.entries < 2 ^ 32
        → allocate_aid F ctx now ≡ some (ctx', some aid)
        → (h : IsReading D lib id value unit 24) → IsByte ctx.tid
        → length id < 12
        → length h.std_unit < 14
        → Lacks bar id
        → Lacks 0 id
        → Lacks bar h.std_unit
        → Lacks 0 h.std_unit
        → length id < id_cap
        → length h.std_unit < unit_cap
        → 79 ≤ out_cap
        → entry_of ctx.tx_state aid ctx.tid ≡ entry_of r aid ctx.tid
        → HasRoom ctx.tx_state aid ctx.tid
        → HasRoom r aid ctx.tid
        → (packet : List ℕ) × (cmd : ℕ) × (meta : Meta) × ((encode_sensor_auto F D lib ctx' ts id
              value unit out_cap).1
            ≡ some (packet, cmd))
          × ((decode_sensor_packet_auto D lib r packet id_cap unit_cap).1
              ≡ some (reading_of D lib id value unit 24 h, meta))
          × (meta.source_aid ≡ aid)
          × (a.start_id ≤ aid)
          × (aid ≤ a.end_id)
          × (find (is_for aid) (map (swept now) a.entries) ≡ none)
    unfolding encode_sensor_auto
    allocated_reading ctx ctx' a now aid ts id value unit r out_cap id_cap unit_cap has range bound
          size got h tid short unit_short id_bar id_zero unit_bar unit_zero id_room unit_room room
          synced space_s space_r =
        let (after, granted, held) = allocate_aid_lem ctx ctx' a now aid has got in
        let (from_start, to_end, leases) =
          allocate-Leases F a now after aid range bound size granted in
        let (packet, cmd, meta, sent, taken, source, stamp, agree) =
          decode-encode_auto D lib aid ctx.tid ts id value unit ctx.tx_state r out_cap id_cap
            unit_cap h (omega arith) tid short unit_short id_bar id_zero unit_bar unit_zero id_room
            unit_room room synced space_s space_r in
        (
          packet,
          cmd,
          meta,
          ap (λ c. (encode_sensor_auto F D lib c ts id value unit out_cap).1) held ∙ sent,
          taken,
          source,
          from_start,
          to_end,
          leases.was_vacant,
        )
