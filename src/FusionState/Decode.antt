-- ===== src/FusionState/Decode.antt =====
-- `osfx_fusion_decode_apply` of src/osfx_fusion_state.c. It gives the new cache, and the body with the
-- metadata where the code returns 1.
use osynaptic_fx.Prelude.{
  ℕ, suc, ◌*◌, ◌/◌, ◌%◌, ◌^◌, ◌==◌, ltb, leb, if◌then◌else◌, Bool, true, false, not, ◌||◌, List, [],
  ◌∷◌, length, take, drop, get_or, Option, none, some, bit_or, bit_and,
}
use osynaptic_fx.Prelude.Slots.{modify}
use osynaptic_fx.HandshakeCmd.{cmd_data_full, cmd_data_diff, cmd_data_heart}
use osynaptic_fx.FusionPacket.{Meta, decode_meta, body_bytes}
use osynaptic_fx.FusionState.{
  FusionEntry, FusionCache, Report, parse_body_slots, zero_entry, find_or_alloc, find_entry,
  refreshed, reconstruct_body, fusion_max_val_len,
}
use osynaptic_fx.FusionState.Encode.{mask_len_of}

-- `mask = (mask << 8) | body[j]` over the bytes of the mask.
unfoldable pub read_mask : ℕ → List ℕ → ℕ
read_mask mask [] = mask
read_mask mask (b ∷ rest) = read_mask (bit_or (mask * 2 ^ 8 % 2 ^ 32) b) rest

-- `(mask >> j) & 1U`.
abbrev pub is_marked : ℕ → ℕ → Bool
is_marked mask j = not (bit_and (mask / 2 ^ j) 1 == 0)

-- One length byte and the value, and what follows; `none` where the code returns 0.
unfoldable pub read_value : List ℕ → Option (List ℕ × List ℕ)
read_value [] = none
read_value (v_len ∷ rest) =
    if ltb (length rest) v_len || leb fusion_max_val_len v_len
    then none
    else some (take v_len rest, drop v_len rest)

-- The loop over the slots from `j` on: the slots as they are left, and whether it came to the end.
unfoldable pub apply_slots : ℕ → ℕ → List (List ℕ) → List ℕ → List (List ℕ) × Bool
apply_slots j mask [] body = ([], true)
apply_slots j mask (v ∷ vals) body =
    elim (if is_marked mask j then read_value body else some (v, body)) [
      | none ↦ (v ∷ vals, false)
      | some r ↦ let (after, ok) = apply_slots (suc j) mask vals r.1 in (r.0 ∷ after, ok)
    ]

abbrev pub Received : Type 0
Received = FusionCache × Option (List ℕ × Meta)

abbrev pub with_meta : Meta → Option (List ℕ) → Option (List ℕ × Meta)
with_meta meta none = none
with_meta meta (some body) = some (body, meta)

abbrev pub copied : Meta → List ℕ → ℕ → Option (List ℕ × Meta)
copied meta body out_cap = if ltb out_cap (length body) then none else some (body, meta)

abbrev pub store_report : Report → FusionCache × Option ℕ → FusionCache
store_report p (st, none) = st
store_report p (st, some i) = modify st i (refreshed p)

abbrev pub learn : FusionCache → ℕ → ℕ → Option Report → FusionCache
learn st aid tid none = st
learn st aid tid (some p) = store_report p (find_or_alloc st aid tid)

unfoldable pub receive_full : FusionCache → Meta → List ℕ → ℕ → Received
receive_full st meta body out_cap =
    (learn st meta.source_aid meta.tid (parse_body_slots body), copied meta body out_cap)

abbrev pub rewritten : List (List ℕ) → FusionEntry → FusionEntry
rewritten vals e = record e { last_vals = vals }

-- `reconstruct_body` of the entry in slot `i`.
abbrev pub rebuild_at : FusionCache → ℕ → Meta → ℕ → Received
rebuild_at st i meta out_cap =
    (st, with_meta meta (reconstruct_body (get_or st i zero_entry) meta.timestamp_raw out_cap))

abbrev pub applied : FusionCache → ℕ → Meta → ℕ → List (List ℕ) × Bool → Received
applied st i meta out_cap (vals, false) = (modify st i (rewritten vals), none)
applied st i meta out_cap (vals, true) = rebuild_at (modify st i (rewritten vals)) i meta out_cap

abbrev pub diff_onto : FusionCache → ℕ → Meta → List ℕ → ℕ → List (List ℕ) → Received
diff_onto st i meta body out_cap vals =
    let mask_len = mask_len_of (length vals) in
    if length vals == 0 || length body == 0
    then (st, none)
    else if ltb (length body) mask_len
    then (st, none)
    else applied st i meta out_cap
        (apply_slots 0 (read_mask 0 (take mask_len body)) vals (drop mask_len body))

unfoldable pub receive_diff : FusionCache → ℕ → Meta → List ℕ → ℕ → Received
receive_diff st i meta body out_cap =
    diff_onto st i meta body out_cap (get_or st i zero_entry).last_vals

unfoldable pub receive_heart : FusionCache → ℕ → Meta → ℕ → Received
receive_heart st i meta out_cap =
    if length (get_or st i zero_entry).last_vals == 0
    then (st, none)
    else rebuild_at st i meta out_cap

abbrev pub receive_known : FusionCache → Meta → List ℕ → ℕ → Option ℕ → Received
receive_known st meta body out_cap none = (st, none)
receive_known st meta body out_cap (some i) =
    if meta.cmd == cmd_data_diff
    then receive_diff st i meta body out_cap
    else if meta.cmd == cmd_data_heart
    then receive_heart st i meta out_cap
    else (st, none)

abbrev pub receive : FusionCache → List ℕ → ℕ → Option Meta → Received
receive st packet out_cap none = (st, none)
receive st packet out_cap (some meta) =
    if meta.cmd == cmd_data_full
    then receive_full st meta (body_bytes packet meta) out_cap
    else receive_known st meta (body_bytes packet meta) out_cap
        (find_entry st meta.source_aid meta.tid)

unfoldable pub decode_apply : FusionCache → List ℕ → ℕ → Received
decode_apply st packet out_cap = receive st packet out_cap (decode_meta packet)
