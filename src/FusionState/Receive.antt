-- ===== src/FusionState/Receive.antt =====
-- What `osfx_fusion_decode_apply` of src/osfx_fusion_state.c does with the three kinds of packet.
use osynaptic_fx.Prelude.{
  ℕ, ◌≤◌, ◌≡◌, refl, ap, ◌∙◌, ◌==◌, ltb, if_false, true, ◌||◌, List, length, take, drop, get_or,
  none, some, arith,
}
use osynaptic_fx.Prelude.Slots.{modify}
use osynaptic_fx.FusionPacket.{Meta}
use osynaptic_fx.FusionState.{
  FusionEntry, FusionCache, Report, zero_entry, find_or_alloc, refreshed, parse_body_slots,
  reconstruct_body,
}
use osynaptic_fx.FusionState.Encode.{mask_len_of, diff_body}
use osynaptic_fx.FusionState.Decode.{
  receive_full, receive_diff, receive_heart, apply_slots, read_mask, applied, diff_onto, rebuild_at,
  rewritten, with_meta, learn, store_report, copied,
}
use osynaptic_fx.FusionState.Cache.{HasSlot, Given, written, slot_value}
use osynaptic_fx.FusionState.Masks.{Applies, diff_body-Applies}
use osynaptic_fx.FusionState.Rendered.{IsReport, report_text}
use osynaptic_fx.FusionState.Rebuild.{SameStruct, report_counts, report-Fits, reconstruct_body_lem}

pub receive_full_lem :
    (st : FusionCache) (meta : Meta) (body : List ℕ) (p : Report) (e : FusionEntry) (out_cap : ℕ)
    → parse_body_slots body ≡ some p
    → (given : Given meta.source_aid meta.tid st e (find_or_alloc st meta.source_aid meta.tid))
    → length body ≤ out_cap
    → receive_full st meta body out_cap
      ≡ (modify given.cache given.index (refreshed p), some (body, meta))
unfolding receive_full
receive_full_lem st meta body p e out_cap parsed given room =
    let learnt : learn st meta.source_aid meta.tid (parse_body_slots body)
        ≡ modify given.cache given.index (refreshed p) =
      ap (learn st meta.source_aid meta.tid) parsed ∙ ap (store_report p) given.given in
    let copy : copied meta body out_cap ≡ some (body, meta) =
      if_false (ltb out_cap (length body)) none _ (ground arith) in
    cc (learnt, copy)

one_byte : (n : ℕ) → 2 ≤ n → n ≤ 8 → mask_len_of n ≡ 1
one_byte n h k = omega arith

module _ {aid tid : ℕ} {st : FusionCache} {e : FusionEntry} {st' : FusionCache} {i : ℕ}
    (slot : HasSlot aid tid st e st' i) (p : Report) (meta : Meta) (out_cap : ℕ) (h : IsReport p)
    (same : SameStruct e p) (room : length (report_text p meta.timestamp_raw) ≤ out_cap) where
  rebuild_at_lem :
      e.last_vals ≡ p.slots
      → rebuild_at st' i meta out_cap ≡ (st', some (report_text p meta.timestamp_raw, meta))
  rebuild_at_lem vals =
      ap (λ x. (st', with_meta meta (reconstruct_body x meta.timestamp_raw out_cap)))
        (slot_value slot)
      ∙ ap (λ o. (st', with_meta meta o))
          (reconstruct_body_lem e p meta.timestamp_raw out_cap h same vals room)

  pub receive_heart_lem :
      e.last_vals ≡ p.slots
      → receive_heart st' i meta out_cap ≡ (st', some (report_text p meta.timestamp_raw, meta))
  unfolding receive_heart
  receive_heart_lem vals =
      let two = (report_counts p h).1 in
      let filled : length (get_or st' i zero_entry).last_vals ≡ length p.slots =
        ap (λ (x : FusionEntry). length x.last_vals) (slot_value slot) ∙ ap length vals in
      if_false (length (get_or st' i zero_entry).last_vals == 0) (st', none) _
        (ground (arith, filled))
      ∙ rebuild_at_lem vals

-- A slot after new values were written to it.
SameStruct-rewritten :
    (e : FusionEntry) (p : Report) → SameStruct e p → SameStruct (rewritten p.slots e) p
SameStruct-rewritten e p same = record {
  measured = same.measured;
  base = same.base;
  tags = same.tags;
  counts = refl;
}

module _ {aid tid : ℕ} {st : FusionCache} {e : FusionEntry} {st' : FusionCache} {i : ℕ}
    (slot : HasSlot aid tid st e st' i) (p : Report) (meta : Meta) (out_cap : ℕ) (h : IsReport p)
    (same : SameStruct e p) (room : length (report_text p meta.timestamp_raw) ≤ out_cap) where
  diff_onto_lem :
      (body : List ℕ)
      → Applies e.last_vals p.slots body
      → diff_onto st' i meta body out_cap e.last_vals ≡ applied st' i meta out_cap (p.slots, true)
  diff_onto_lem body diff =
      let (tagged, two, eight) = report_counts p h in
      let counts = same.counts in
      let filled = diff.filled in
      let one : mask_len_of (length e.last_vals) ≡ 1 =
        one_byte (length e.last_vals) (omega arith) (omega arith) in
      if_false (length e.last_vals == 0 || length body == 0) (st', none) _ (ground arith)
      ∙ if_false (ltb (length body) (mask_len_of (length e.last_vals))) (st', none) _
          (ground (arith, one))
      ∙ ap
          (λ n.
            applied st' i meta out_cap
              (apply_slots 0 (read_mask 0 (take n body)) e.last_vals (drop n body)))
          one
      ∙ ap (applied st' i meta out_cap) diff.slots_read

  pub receive_diff_lem :
      receive_diff st' i meta (diff_body e.last_vals p.slots) out_cap
      ≡ (modify st' i (rewritten p.slots), some (report_text p meta.timestamp_raw, meta))
  unfolding receive_diff
  receive_diff_lem =
      let (tagged, two, eight) = report_counts p h in
      let body = diff_body e.last_vals p.slots in
      ap (λ (x : FusionEntry). diff_onto st' i meta body out_cap x.last_vals) (slot_value slot)
      ∙ diff_onto_lem body
          (diff_body-Applies e.last_vals p.slots same.counts (omega arith) eight (report-Fits p h))
      ∙ rebuild_at_lem (written slot (rewritten p.slots) slot.passes) p meta out_cap h
          (SameStruct-rewritten e p same) room refl
