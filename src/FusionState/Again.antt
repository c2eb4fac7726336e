-- ===== src/FusionState/Again.antt =====
-- Repeated and uncached reports at `osfx_fusion_encode` of src/osfx_fusion_state.c.
use osynaptic_fx.Prelude.{
  ℕ, ◌+◌, ◌^◌, ◌≤◌, ◌<◌, ◌≡◌, refl, sym, ap, ◌∙◌, subst, ◌==◌, ltb, if◌then◌else◌, if_false, Bool,
  true, false, List, [], ◌∷◌, take, length, none, some, arith, inl,
}
use mathlib.Core.Option
use osynaptic_fx.Prelude.Words.{IsByte, IsBytes}
use osynaptic_fx.Prelude.Texts.{
  same_text, same_texts, same_text_refl, same_texts_refl, same_texts→eq,
}
use osynaptic_fx.HandshakeCmd.{cmd_data_full, cmd_data_heart}
use osynaptic_fx.FusionPacket.{encode_full}
use osynaptic_fx.FusionPacket.Roundtrip.{meta_for, decode_meta-encode_full}
use osynaptic_fx.FusionState.{
  FusionEntry, FusionCache, Report, parse_body_slots, strnlen, fresh_entry, is_for,
}
use osynaptic_fx.FusionState.Encode.{Plan, plan, encode, encode_parsed, with_cmd, struct_changed}
use osynaptic_fx.FusionState.Decode.{decode_apply, receive, receive_full, learn, copied}
use osynaptic_fx.FusionState.Cache.{
  HasRoom, entry_of, entry_or_fresh, find_or_alloc-Given, written, slot_entry,
}
use osynaptic_fx.FusionState.Rendered.{IsReport, parse_body_slots-IsReport}
use osynaptic_fx.FusionState.Rebuild.{SameStruct, struct_changed-SameStruct, sig_base-length}
use osynaptic_fx.FusionState.Masks.{diff_cached_lem}
use osynaptic_fx.FusionState.Delivery.{encode_lem}

-- A body that is not parsed passes through as it is, and no cache is changed for it.
pass_through :
    (aid tid ts : ℕ) (body : List ℕ) (s r : FusionCache) (cap out_cap : ℕ)
    → aid < 2 ^ 32
    → IsByte tid
    → IsBytes body
    → 1 ≤ length body
    → parse_body_slots body ≡ none
    → 16 + length body ≤ cap
    → length body ≤ out_cap
    → (packet : List ℕ) × (encode s aid tid ts body cap ≡ (s, some (packet, cmd_data_full)))
      × (decode_apply r packet out_cap
          ≡ (r, some (body, meta_for cmd_data_full aid tid ts (length body) true)))
unfolding encode decode_apply receive_full
pass_through aid tid ts body s r cap out_cap ha ht bytes filled unparsed room fits =
    let (packet, written_out, len, decoded, there) =
      decode_meta-encode_full cmd_data_full aid tid ts body cap (omega arith) ha ht bytes room in
    let meta = meta_for cmd_data_full aid tid ts (length body) true in
    (
      packet,
      if_false (length body == 0) (s, none) _ (ground arith)
          ∙ ap (encode_parsed s aid tid ts body cap) unparsed
          ∙ ap (λ o. (s, with_cmd cmd_data_full o)) written_out,
      ap (receive r packet out_cap) decoded
          ∙ ap (λ b. receive_full r meta b out_cap) there
          ∙ ap (λ o. (learn r aid tid o, copied meta body out_cap)) unparsed
          ∙ ap (λ o. (r, o))
              (if_false (ltb out_cap (length body)) none (some (body, meta)) (ground arith)),
    )

take_all : (s : List ℕ) → take (length s) s ≡ s
take_all [] = refl
take_all (c ∷ s) = ap (◌∷◌ c) (take_all s)

-- The entry stands for a report, its structure and its slots, and is the one for its source and template.
record Stands (aid tid : ℕ) (p : Report) (e : FusionEntry) : Type 0 where
  same : SameStruct e p
  vals : e.last_vals ≡ p.slots
  ours : is_for aid tid e ≡ true

planned-Stands :
    (aid tid : ℕ) (p : Report) (e : FusionEntry) (changed still : Bool) (full heart diff : Plan)
    → (changed ≡ true → Stands aid tid p (full.cached e))
    → (changed ≡ false → still ≡ true → Stands aid tid p (heart.cached e))
    → (changed ≡ false → Stands aid tid p (diff.cached e))
    → Stands aid tid p ((if changed then full else if still then heart else diff).cached e)
planned-Stands aid tid p e true still full heart diff f h d = f refl
planned-Stands aid tid p e false true full heart diff f h d = h refl refl
planned-Stands aid tid p e false false full heart diff f h d = d refl

-- Whatever is planned, the cached entry then stands for the report.
plan-Stands :
    (aid tid : ℕ) (e : FusionEntry) (p : Report) (body : List ℕ)
    → strnlen p.sig_base ≡ length p.sig_base
    → is_for aid tid e ≡ true
    → Stands aid tid p ((plan e p body).cached e)
unfolding plan
plan-Stands aid tid e p body text ours =
    planned-Stands aid tid p e (struct_changed e p) (same_texts e.last_vals p.slots) _ _ _
      (λ changed. record {
        same = record { measured = text; base = take_all p.sig_base; tags = refl; counts = refl };
        vals = refl;
        ours = ours;
      })
      (λ kept still. record {
        same = struct_changed-SameStruct e p kept;
        vals = same_texts→eq e.last_vals p.slots still;
        ours = ours;
      })
      (λ kept.
        let same = struct_changed-SameStruct e p kept in
        let cached = diff_cached_lem e.last_vals p.slots same.counts in
        record {
          same = record {
            measured = same.measured;
            base = same.base;
            tags = same.tags;
            counts = ap (length {A = List ℕ}) cached;
          };
          vals = cached;
          ours = ours;
        })

-- An entry that stands for a report has no change to send.
Stands-plan :
    (aid tid : ℕ) (e : FusionEntry) (p : Report) (body : List ℕ)
    → IsReport p
    → Stands aid tid p e
    → ((plan e p body).cmd ≡ cmd_data_heart) × ((plan e p body).body ≡ [])
unfolding plan struct_changed
Stands-plan aid tid e p body ok h =
    let same = h.same in
    let one = sig_base-length p ok in
    let base : same_text (take (length p.sig_base) e.sig_base) p.sig_base ≡ true =
      ap (λ x. same_text x p.sig_base) same.base ∙ same_text_refl p.sig_base in
    let tags : same_texts e.tag_names p.tag_names ≡ true =
      ap (λ t. same_texts t p.tag_names) same.tags ∙ same_texts_refl p.tag_names in
    let vals : same_texts e.last_vals p.slots ≡ true =
      ap (λ t. same_texts t p.slots) h.vals ∙ same_texts_refl p.slots in
    let measured = same.measured in let counts = same.counts in ground arith

-- A report was sent, or the packet did not fit: the entry is cached in either case.
cached_entry :
    (aid tid ts : ℕ) (body : List ℕ) (p : Report) (s : FusionCache) (cap : ℕ)
    → parse_body_slots body ≡ some p
    → strnlen p.sig_base ≡ length p.sig_base
    → HasRoom s aid tid
    → (e : FusionEntry) × (entry_of (encode s aid tid ts body cap).0 aid tid ≡ some e)
      × Stands aid tid p e
cached_entry aid tid ts body p s cap parsed text room =
    let given = find_or_alloc-Given aid tid s room in
    let e = entry_or_fresh s aid tid in
    let pl = plan e p body in
    let stands = plan-Stands aid tid e p body text given.slot.passes in
    (
      pl.cached e,
      ap (λ x. entry_of x.0 aid tid) (encode_lem s aid tid ts body p e cap parsed given)
          ∙ slot_entry (written given.slot pl.cached stands.ours),
      stands,
    )

-- The cache has an entry for a source and template, or a free slot, and a body parses to a report whose
-- header holds no 0. After a call for it, whether or not there was room for its packet, another body
-- that parses to the same report is sent as a HEART packet without a body, if there is room for that.
pub encode_again :
    (aid tid ts : ℕ) (body body' : List ℕ) (p : Report) (s : FusionCache) (cap ts' cap' : ℕ)
    → parse_body_slots body ≡ some p
    → parse_body_slots body' ≡ some p
    → strnlen p.sig_base ≡ length p.sig_base
    → HasRoom s aid tid
    → (encode (encode s aid tid ts body cap).0 aid tid ts' body' cap').1
      ≡ with_cmd cmd_data_heart (encode_full cmd_data_heart aid tid ts' [] (some cap'))
encode_again aid tid ts body body' p s cap ts' cap' parsed parsed' text room =
    let (e, cached, stands) = cached_entry aid tid ts body p s cap parsed text room in
    let s' = (encode s aid tid ts body cap).0 in
    let again = entry_or_fresh s' aid tid in
    let is_cached : again ≡ e = ap (λ o. Option.get_or o (fresh_entry aid tid)) cached in
    let given =
      find_or_alloc-Given aid tid s'
        (inl (λ missing. Option.none-ne-some e (sym missing ∙ cached))) in
    let pl = plan again p body' in
    let (is_heart, is_empty) : (pl.cmd ≡ cmd_data_heart) × (pl.body ≡ []) =
      Stands-plan aid tid again p body' (parse_body_slots-IsReport body' p parsed')
        (subst (Stands aid tid p) (sym is_cached) stands) in
    ap (λ x. x.1) (encode_lem s' aid tid ts' body' p again cap' parsed' given)
    ∙ ap (λ c. with_cmd c (encode_full c aid tid ts' pl.body (some cap'))) is_heart
    ∙ ap (λ b. with_cmd cmd_data_heart (encode_full cmd_data_heart aid tid ts' b (some cap')))
        is_empty
