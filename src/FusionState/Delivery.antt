-- ===== src/FusionState/Delivery.antt =====
-- From `osfx_fusion_encode` to `osfx_fusion_decode_apply`, both of src/osfx_fusion_state.c.
use osynaptic_fx.Prelude.{
  ℕ, ◌+◌, ◌%◌, ◌^◌, ◌≤◌, ◌<◌, ◌≡◌, ◌≢◌, ◌⊎◌, refl, sym, ap, ◌∙◌, ◌==◌, if_false, true, false, List,
  [], length, none, some, arith, subst, Bool-cases, Option-cases, inl, inr,
}
use mathlib.Core.Option
use osynaptic_fx.Prelude.Words.{IsByte, IsBytes}
use osynaptic_fx.Prelude.Slots.{modify, find_index-none}
use osynaptic_fx.Prelude.Texts.{same_texts, same_texts→eq}
use osynaptic_fx.HandshakeCmd.{cmd_data_full, cmd_data_diff, cmd_data_heart}
use osynaptic_fx.FusionPacket.{body_bytes}
use osynaptic_fx.FusionPacket.Roundtrip.{meta_for, decode_meta-encode_full}
use osynaptic_fx.FusionState.{
  FusionEntry, FusionCache, Report, fresh_entry, find_or_alloc, find_entry, refreshed,
  parse_body_slots, is_for, strnlen,
}
use osynaptic_fx.FusionState.Encode.{
  Plan, plan, encode, encode_parsed, encode_at, send_with, struct_changed, diff_body, diff_cached,
  with_cmd,
}
use osynaptic_fx.FusionState.Decode.{
  decode_apply, receive, receive_known, receive_full, receive_diff, rewritten,
}
use osynaptic_fx.FusionState.Cache.{
  HasSlot, HasRoom, Given, entry_of, entry_or_fresh, find_or_alloc-Given, found_slot, written,
  slot_entry, slot_value,
}
use osynaptic_fx.FusionState.Masks.{diff_cached_lem, diff_body-IsBytes}
use osynaptic_fx.FusionState.Rendered.{
  IsReport, report_text, parse_body_slots-IsReport, parse-report_text,
}
use osynaptic_fx.FusionState.Rebuild.{
  SameStruct, struct_changed-SameStruct, report_counts, report-Fits,
}
use osynaptic_fx.FusionState.Bounds.{length-diff_body, length-report_text}
use osynaptic_fx.FusionState.Octets.{slots-IsBytes}
use osynaptic_fx.FusionState.Receive.{receive_full_lem, receive_diff_lem, receive_heart_lem}

-- A report goes from a cache `s` to a cache `r`: a packet is sent and taken, the body that comes out
-- means what the one that went in does, and both caches end with the same entry for it, the others
-- unchanged.
pub record Delivers (aid tid ts : ℕ) (body : List ℕ) (p : Report) (s : FusionCache) (cap : ℕ)
    (r : FusionCache) (out_cap : ℕ) : Type 0 where
  pub packet : List ℕ
  pub cmd : ℕ
  pub text : List ℕ
  pub sent_len : ℕ
  pub entry : FusionEntry
  pub sent : (encode s aid tid ts body cap).1 ≡ some (packet, cmd)
  pub received :
      (decode_apply r packet out_cap).1 ≡ some (text, meta_for cmd aid tid ts sent_len true)
  pub meaning : parse_body_slots text ≡ some p
  pub exact : (text ≡ body) ⊎ (text ≡ report_text p (ts % 2 ^ 48))
  pub sender : entry_of (encode s aid tid ts body cap).0 aid tid ≡ some entry
  pub receiver : entry_of (decode_apply r packet out_cap).0 aid tid ≡ some entry
  pub sender_others :
      (a t : ℕ)
      → (a ≢ aid) ⊎ (t ≢ tid)
      → entry_of (encode s aid tid ts body cap).0 a t ≡ entry_of s a t
  pub receiver_others :
      (a t : ℕ)
      → (a ≢ aid) ⊎ (t ≢ tid)
      → entry_of (decode_apply r packet out_cap).0 a t ≡ entry_of r a t

-- With the slot that is handed out, a body that parses is sent as planned.
pub encode_lem :
    (s : FusionCache) (aid tid ts : ℕ) (body : List ℕ) (p : Report) (e : FusionEntry) (cap : ℕ)
    → parse_body_slots body ≡ some p
    → (given : Given aid tid s e (find_or_alloc s aid tid))
    → encode s aid tid ts body cap
      ≡ send_with given.cache given.index aid tid ts cap (plan e p body)
unfolding encode
encode_lem s aid tid ts body p e cap parsed given =
    let shorter = length-diff_body body p [] parsed in
    if_false (length body == 0) (s, none) _ (ground arith)
    ∙ ap (encode_parsed s aid tid ts body cap) parsed
    ∙ ap (encode_at aid tid ts body cap p) given.given
    ∙ ap (λ x. send_with given.cache given.index aid tid ts cap (plan x p body))
        (slot_value given.slot)

module _ (aid tid ts : ℕ) (body : List ℕ) (p : Report) (s r : FusionCache) (cap out_cap : ℕ)
    (aid_word : aid < 2 ^ 32) (tid_byte : IsByte tid) (e : FusionEntry)
    (given : Given aid tid s e (find_or_alloc s aid tid)) where
  -- From what is planned and what the receiver makes of the packet.
  finish :
      (pl : Plan) (r' : FusionCache) (k : ℕ) (text : List ℕ)
      → encode s aid tid ts body cap ≡ send_with given.cache given.index aid tid ts cap pl
      → IsByte pl.cmd
      → IsBytes pl.body
      → 16 + length pl.body ≤ cap
      → is_for aid tid (pl.cached e) ≡ true
      → ((packet : List ℕ)
          → body_bytes packet (meta_for pl.cmd aid tid ts (length pl.body) true) ≡ pl.body
          → receive r packet out_cap (some (meta_for pl.cmd aid tid ts (length pl.body) true))
            ≡ (r', some (text, meta_for pl.cmd aid tid ts (length pl.body) true)))
      → HasSlot aid tid r (pl.cached e) r' k
      → parse_body_slots text ≡ some p
      → (text ≡ body) ⊎ (text ≡ report_text p (ts % 2 ^ 48))
      → Delivers aid tid ts body p s cap r out_cap
  unfolding decode_apply
  finish pl r' k text planned cmd_byte bytes room kept takes slot meaning exact =
      let meta = meta_for pl.cmd aid tid ts (length pl.body) true in
      let (packet, written_out, len, decoded, there) =
        decode_meta-encode_full pl.cmd aid tid ts pl.body cap cmd_byte aid_word tid_byte bytes
          room in
      let after = written given.slot pl.cached kept in
      let taken : decode_apply r packet out_cap ≡ (r', some (text, meta)) =
        ap (receive r packet out_cap) decoded ∙ takes packet there in
      record {
        packet = packet;
        cmd = pl.cmd;
        text = text;
        sent_len = length pl.body;
        entry = pl.cached e;
        sent = ap (λ x. x.1) planned ∙ ap (with_cmd pl.cmd) written_out;
        received = ap (λ x. x.1) taken;
        meaning = meaning;
        exact = exact;
        sender = ap (λ x. entry_of x.0 aid tid) planned ∙ slot_entry after;
        receiver = ap (λ x. entry_of x.0 aid tid) taken ∙ slot_entry slot;
        sender_others = λ a t ne. ap (λ x. entry_of x.0 a t) planned ∙ after.others a t ne;
        receiver_others = λ a t ne. ap (λ x. entry_of x.0 a t) taken ∙ slot.others a t ne;
      }

  module _ (parsed : parse_body_slots body ≡ some p) (bytes : IsBytes body)
      (room : 16 + length body ≤ cap) where
    abbrev report_ok : IsReport p
    report_ok = parse_body_slots-IsReport body p parsed

    deliver_full :
        struct_changed e p ≡ true
        → Given aid tid r e (find_or_alloc r aid tid)
        → length body ≤ out_cap
        → Delivers aid tid ts body p s cap r out_cap
    unfolding plan
    deliver_full changed taker fits =
        let pl : Plan = record { cmd = cmd_data_full; body = body; cached = refreshed p } in
        let planned : plan e p body ≡ pl = rw (plan, changed) refl in
        let meta = meta_for cmd_data_full aid tid ts (length body) true in
        finish pl (modify taker.cache taker.index (refreshed p)) taker.index body
          (encode_lem s aid tid ts body p e cap parsed given
            ∙ ap (send_with given.cache given.index aid tid ts cap) planned)
          (omega arith) bytes room given.slot.passes
          (λ packet there.
            ap (λ b. receive_full r meta b out_cap) there
            ∙ receive_full_lem r meta body p e out_cap parsed taker fits)
          (written taker.slot (refreshed p) given.slot.passes) parsed (inl refl)

    module _ (same : SameStruct e p) (k : ℕ) (found : find_entry r aid tid ≡ some k)
        (slot : HasSlot aid tid r e r k)
        (fits : length (report_text p (ts % 2 ^ 48)) ≤ out_cap) where
      deliver_heart :
          struct_changed e p ≡ false
          → same_texts e.last_vals p.slots ≡ true
          → Delivers aid tid ts body p s cap r out_cap
      unfolding plan
      deliver_heart kept_struct no_change =
          let pl : Plan = record { cmd = cmd_data_heart; body = []; cached = λ f. f } in
          let planned : plan e p body ≡ pl = rw (plan, kept_struct) (rw no_change refl) in
          let meta = meta_for cmd_data_heart aid tid ts 0 true in
          finish pl r k (report_text p (ts % 2 ^ 48))
            (encode_lem s aid tid ts body p e cap parsed given
              ∙ ap (send_with given.cache given.index aid tid ts cap) planned)
            (omega arith) tt (omega arith) given.slot.passes
            (λ packet there.
              ap (receive_known r meta (body_bytes packet meta) out_cap) found
              ∙ receive_heart_lem slot p meta out_cap report_ok same fits
                  (same_texts→eq e.last_vals p.slots no_change))
            slot (parse-report_text p (ts % 2 ^ 48) report_ok) (inr refl)

      deliver_diff :
          struct_changed e p ≡ false
          → same_texts e.last_vals p.slots ≡ false
          → Delivers aid tid ts body p s cap r out_cap
      unfolding plan
      deliver_diff kept_struct change =
          let diff = diff_body e.last_vals p.slots in
          let pl : Plan = record {
            cmd = cmd_data_diff;
            body = diff;
            cached = λ f. record f { last_vals = diff_cached f.last_vals p.slots };
          } in
          let planned : plan e p body ≡ pl = rw (plan, kept_struct) (rw change refl) in
          let (tagged, two, eight) = report_counts p report_ok in
          let meta = meta_for cmd_data_diff aid tid ts (length diff) true in
          let shorter = length-diff_body body p e.last_vals parsed in
          finish pl (modify r k (rewritten p.slots)) k (report_text p (ts % 2 ^ 48))
            (encode_lem s aid tid ts body p e cap parsed given
              ∙ ap (send_with given.cache given.index aid tid ts cap) planned)
            (omega arith)
            (diff_body-IsBytes e.last_vals p.slots (omega arith) eight (report-Fits p report_ok)
              (slots-IsBytes body p bytes parsed))
            (omega arith) given.slot.passes
            (λ packet there.
              ap (receive_known r meta (body_bytes packet meta) out_cap) found
              ∙ ap (λ b. receive_diff r k meta b out_cap) there
              ∙ receive_diff_lem slot p meta out_cap report_ok same fits)
            (subst
              (λ v.
                HasSlot aid tid r (record e { last_vals = v }) (modify r k (rewritten p.slots)) k)
              (sym (diff_cached_lem e.last_vals p.slots same.counts))
              (written slot (rewritten p.slots) given.slot.passes))
            (parse-report_text p (ts % 2 ^ 48) report_ok) (inr refl)

struct_changed-fresh : (aid tid : ℕ) (p : Report) → struct_changed (fresh_entry aid tid) p ≡ true
unfolding struct_changed strnlen
struct_changed-fresh aid tid p = refl

-- A report whose structure is the cached one has an entry.
has_entry :
    (aid tid : ℕ) (r : FusionCache) (p : Report)
    → struct_changed (entry_or_fresh r aid tid) p ≡ false
    → (k : ℕ) × (find_entry r aid tid ≡ some k)
has_entry aid tid r p h = elim (Option-cases (find_entry r aid tid)) [
  | inr found ↦ found
  | inl missing ↦
      let fresh : entry_or_fresh r aid tid ≡ fresh_entry aid tid =
        ap (λ o. Option.get_or o (fresh_entry aid tid))
          (find_index-none (is_for aid tid) r missing) in
      let changed : struct_changed (entry_or_fresh r aid tid) p ≡ true =
        ap (λ e. struct_changed e p) fresh ∙ struct_changed-fresh aid tid p in
      absurd (true_not_false (sym changed ∙ h))
]
  where
    true_not_false : true ≢ false
    true_not_false e = cc

-- A body of bytes that parses, of a 32-bit source and an 8-bit template, is delivered where sender and
-- receiver have the same entry for its source and template, or none and a free slot each, and the
-- buffers have room: for the full packet, and for 16 bytes more than the body. What comes out parses to
-- the same report, it is the body or the text of the report with the decimal timestamp, both caches
-- have the same entry for it afterwards, and no other source's or template's entry changes.
pub deliver :
    (aid tid ts : ℕ) (body : List ℕ) (p : Report) (s r : FusionCache) (cap out_cap : ℕ)
    → aid < 2 ^ 32
    → IsByte tid
    → IsBytes body
    → parse_body_slots body ≡ some p
    → entry_of s aid tid ≡ entry_of r aid tid
    → HasRoom s aid tid
    → HasRoom r aid tid
    → 16 + length body ≤ cap
    → length body + 16 ≤ out_cap
    → Delivers aid tid ts body p s cap r out_cap
deliver aid tid ts body p s r cap out_cap ha ht bytes parsed synced space_s space_r room fits =
    let fits_text = length-report_text body p ts parsed in
    let e = entry_or_fresh r aid tid in
    let same_entry : entry_or_fresh s aid tid ≡ e =
      ap (λ o. Option.get_or o (fresh_entry aid tid)) synced in
    let given : Given aid tid s e (find_or_alloc s aid tid) =
      subst (λ x. Given aid tid s x (find_or_alloc s aid tid)) same_entry
        (find_or_alloc-Given aid tid s space_s) in
    elim (Bool-cases (struct_changed e p)) [
      | inl changed ↦
          deliver_full aid tid ts body p s r cap out_cap ha ht e given parsed bytes room changed
            (find_or_alloc-Given aid tid r space_r) (omega arith)
      | inr kept ↦
          let (k, found) = has_entry aid tid r p kept in
          let same = struct_changed-SameStruct e p kept in
          let slot = found_slot aid tid r k found in
          elim (Bool-cases (same_texts e.last_vals p.slots)) [
            | inl no_change ↦
                deliver_heart aid tid ts body p s r cap out_cap ha ht e given parsed bytes room same
                  k found slot (omega arith) kept no_change
            | inr change ↦
                deliver_diff aid tid ts body p s r cap out_cap ha ht e given parsed bytes room same
                  k found slot (omega arith) kept change
          ]
    ]
