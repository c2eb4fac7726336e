-- ===== src/CoreFacade/Auto.antt =====
-- A reading of src/osfx_core_facade.c from one fusion cache to another.
use osynaptic_fx.Prelude.{
  ◌==◌, [], ℕ, ◌+◌, ◌%◌, ◌^◌, ◌≤◌, ◌<◌, ◌≡◌, ◌≢◌, ◌⊎◌, refl, sym, ap, ◌∙◌, subst, ltb, if_false,
  if_true, true, List, length, none, some, ◌>>=◌, arith, inl, inr,
}
use osynaptic_fx.Prelude.Words.{IsByte, IsBytes}
use osynaptic_fx.Prelude.Texts.{Lacks, before_lacking, has_room}
use osynaptic_fx.Solidity.Text.{ℤ, b62_decode, u32toa}
use osynaptic_fx.Solidity.Text.Stamp.{b64url_ts6}
use osynaptic_fx.Solidity.Text.Letters.{
  u32_text, b64url_ts6-IsLetters, letters-Lacks, letters-IsBytes,
}
use osynaptic_fx.FusionPacket.{Meta}
use osynaptic_fx.FusionPacket.Roundtrip.{meta_for}
use osynaptic_fx.FusionState.{FusionCache, bar, decimal_text}
use osynaptic_fx.FusionState.Cache.{HasRoom, entry_of}
use osynaptic_fx.FusionState.Rendered.{report_text, decimal_text-Lacks}
use osynaptic_fx.FusionState.Bounds.{length-decimal_text}
use osynaptic_fx.FusionState.Delivery.{deliver}
use osynaptic_fx.TemplateGrammar.{template_decode}
use osynaptic_fx.TemplateGrammar.Roundtrip.{text_of, template_encode_lem, decode_text}
use osynaptic_fx.Standardization.{Double, Catalog}
use osynaptic_fx.CoreFacade.{
  sensor_body, sized, c_string, copy_text, copy_if_asked, unscaled, single_slot, single_body,
  value_text, send_body, encode_sensor_packet_auto, read_single, decode_sensor_packet_auto,
}
use osynaptic_fx.CoreFacade.Body.{
  IsReading, reading_of, value_text_lem, length-sensor_body, sensor_body-IsBytes, sensor_body-All,
}
use osynaptic_fx.CoreFacade.Single.{
  IsSingle, single_report, single_message, text_of-single, stamped-single, single-IsMessage,
  parse_body_slots-single,
}

module _ (F : Double) (lib : Catalog F) where
  copy_text_lem : (cap : ℕ) (text : List ℕ) → length text < cap → copy_text cap text ≡ some text
  copy_text_lem cap text h = if_true (has_room cap text) (some text) none (ground arith)

  copy_if_asked_lem :
      (cap : ℕ) (text : List ℕ) → length text < cap → copy_if_asked cap text ≡ some text
  copy_if_asked_lem cap text h =
      if_false (cap == 0) (some []) (copy_text cap text) (ground arith) ∙ copy_text_lem cap text h

  -- A body of a single sensor is read back, with any timestamp that has no separator and no 0.
  read_single_lem :
      (aid_str id unit b62 stamp : List ℕ) (scaled : ℤ) (id_cap unit_cap : ℕ) (meta : Meta)
      → IsSingle aid_str id unit b62
      → b62_decode b62 ≡ some scaled
      → Lacks 0 id
      → Lacks 0 unit
      → Lacks bar stamp
      → Lacks 0 stamp
      → length stamp < 32
      → length id < id_cap
      → length unit < unit_cap
      → read_single F lib id_cap unit_cap (sensor_body aid_str stamp id unit b62, meta)
        ≡ some (record { sensor_id = id; value = unscaled F lib scaled; unit = unit }, meta)
  unfolding read_single
  read_single_lem aid_str id unit b62 stamp scaled id_cap unit_cap meta h read id_zero unit_zero
        stamp_bar stamp_zero stamp_short id_room unit_room =
      let body = sensor_body aid_str stamp id unit b62 in
      let a = h.aid_token in
      let v = h.value_token in
      let a_short = a.short in
      let v_short = v.short in
      let short = h.id_short in
      let unit_short = h.unit_short in
      let fits : sized body ≡ some body =
        if_false (ltb 256 (length body + 1)) none (some body)
          (ground (arith, length-sensor_body aid_str stamp id unit b62)) in
      let no_zero : Lacks 0 body =
        sensor_body-All (λ x. x ≢ 0) aid_str stamp id unit b62
          (omega arith, omega arith, omega arith, omega arith, omega arith)
          (letters-Lacks 0 aid_str refl a.letters) stamp_zero id_zero unit_zero
          (letters-Lacks 0 b62 refl v.letters) in
      let whole : c_string body ≡ body = before_lacking 0 body no_zero in
      let decoded : template_decode body ≡ some (single_message aid_str id unit b62 stamp) =
        ap template_decode (sym (text_of-single aid_str id unit b62 stamp))
        ∙ decode_text (single_message aid_str id unit b62 stamp)
            (single-IsMessage aid_str id unit b62 h stamp stamp_bar stamp_short) in
      rw
        (
          fits,
          whole,
          decoded,
          copy_if_asked_lem id_cap id id_room,
          copy_if_asked_lem unit_cap unit unit_room,
          read,
        )
        refl

  -- So is the body that the receiver of such a report gets.
  read_delivered :
      (aid_str id unit b62 : List ℕ) (scaled : ℤ) (id_cap unit_cap ts : ℕ) (text : List ℕ)
      (meta : Meta)
      → IsSingle aid_str id unit b62
      → b62_decode b62 ≡ some scaled
      → Lacks 0 id
      → Lacks 0 unit
      → length id < id_cap
      → length unit < unit_cap
      → (text ≡ sensor_body aid_str (b64url_ts6 ts) id unit b62)
        ⊎ (text ≡ report_text (single_report aid_str id unit b62) (ts % 2 ^ 48))
      → read_single F lib id_cap unit_cap (text, meta)
        ≡ some (record { sensor_id = id; value = unscaled F lib scaled; unit = unit }, meta)
  unfolding report_text
  read_delivered aid_str id unit b62 scaled id_cap unit_cap ts text meta h read id_zero unit_zero
        id_room unit_room (inl e) =
      let (eight, stamp) = b64url_ts6-IsLetters ts in
      ap (λ t. read_single F lib id_cap unit_cap (t, meta)) e
      ∙ read_single_lem aid_str id unit b62 (b64url_ts6 ts) scaled id_cap unit_cap meta h read
          id_zero unit_zero (letters-Lacks bar (b64url_ts6 ts) refl stamp)
          (letters-Lacks 0 (b64url_ts6 ts) refl stamp) (omega arith) id_room unit_room
  read_delivered aid_str id unit b62 scaled id_cap unit_cap ts text meta h read id_zero unit_zero
        id_room unit_room (inr e) =
      let n = ts % 2 ^ 48 in
      let short = length-decimal_text n (omega arith) in
      ap (λ t. read_single F lib id_cap unit_cap (t, meta))
        (e ∙ stamped-single aid_str id unit b62 (decimal_text n))
      ∙ read_single_lem aid_str id unit b62 (decimal_text n) scaled id_cap unit_cap meta h read
          id_zero unit_zero (decimal_text-Lacks bar n (inr (omega arith)))
          (decimal_text-Lacks 0 n (inl (omega arith))) (omega arith) id_room unit_room

  -- The body of such a reading.
  single_body_lem :
      (aid ts : ℕ) (id unit : List ℕ) (value : F.Real) (aid_str std_unit b62 : List ℕ)
      → IsSingle aid_str id std_unit b62
      → value_text F lib value unit 24 48 ≡ some (b62, std_unit)
      → u32toa aid 11 ≡ some aid_str
      → single_body F lib aid ts id value unit
        ≡ some (sensor_body aid_str (b64url_ts6 ts) id std_unit b62)
  unfolding single_body single_slot
  single_body_lem aid ts id unit value aid_str std_unit b62 h text aid_text =
      let a = h.aid_token in
      let v = h.value_token in
      let a_short = a.short in
      let v_short = v.short in
      let short = h.id_short in
      let unit_short = h.unit_short in
      let (eight, stamp) = b64url_ts6-IsLetters ts in
      let shape = text_of-single aid_str id std_unit b62 (b64url_ts6 ts) in
      let size = length-sensor_body aid_str (b64url_ts6 ts) id std_unit b62 in
      let fits : length (text_of (single_message aid_str id std_unit b62 (b64url_ts6 ts))) < 256 =
        subst (λ t. length t < 256) (sym shape) (omega arith) in
      rw
        (
          text,
          copy_text_lem 32 id (omega arith),
          copy_text_lem 24 std_unit (omega arith),
          copy_text_lem 48 b62 (omega arith),
          aid_text,
        )
        (template_encode_lem (single_message aid_str id std_unit b62 (b64url_ts6 ts)) 256
            (omega arith) fits
          ∙ ap some shape)

  -- A reading whose id has fewer than 12 bytes and its standard unit fewer than 14, without separators
  -- or a 0 and with room at the receiver, and whose scaled value has 63 bits and a sign, goes from a
  -- node with a 32-bit id and an 8-bit template to another, where both caches have the same entry for
  -- these, or none and a free slot each, and the packet has room for 79 bytes. Whichever kind of packet is
  -- sent, the receiver reads the id, the value as it was scaled, the standard unit, the source and the low
  -- 48 bits of the timestamp, and the caches have the same entry afterwards.
  pub decode-encode_auto :
      (aid tid ts : ℕ) (id : List ℕ) (value : F.Real) (unit : List ℕ) (s r : FusionCache)
      (out_cap id_cap unit_cap : ℕ)
      → (h : IsReading F lib id value unit 24) → aid < 2 ^ 32
      → IsByte tid
      → length id < 12
      → length h.std_unit < 14
      → Lacks bar id
      → Lacks 0 id
      → Lacks bar h.std_unit
      → Lacks 0 h.std_unit
      → length id < id_cap
      → length h.std_unit < unit_cap
      → 79 ≤ out_cap
      → entry_of s aid tid ≡ entry_of r aid tid
      → HasRoom s aid tid
      → HasRoom r aid tid
      → (packet : List ℕ) × (cmd : ℕ) × (meta : Meta) × ((encode_sensor_packet_auto F lib s aid tid
            ts id value unit out_cap).1
          ≡ some (packet, cmd))
        × ((decode_sensor_packet_auto F lib r packet id_cap unit_cap).1
            ≡ some (reading_of F lib id value unit 24 h, meta))
        × (meta.source_aid ≡ aid)
        × (meta.timestamp_raw ≡ ts % 2 ^ 48)
        × (entry_of (encode_sensor_packet_auto F lib s aid tid ts id value unit out_cap).0 aid tid
            ≡ entry_of (decode_sensor_packet_auto F lib r packet id_cap unit_cap).0 aid tid)
  unfolding encode_sensor_packet_auto decode_sensor_packet_auto
  decode-encode_auto aid tid ts id value unit s r out_cap id_cap unit_cap h ha ht short unit_short
        id_bar id_zero unit_bar unit_zero id_room unit_room room synced space_s space_r =
      let (b62, text, read, token) = value_text_lem F lib id value unit 24 48 h (omega arith) in
      let (aid_str, aid_text, aid_token) = u32_text aid ha in
      let (eight, stamp) = b64url_ts6-IsLetters ts in
      let few = token.short in
      let few_digits = aid_token.short in
      let single : IsSingle aid_str id h.std_unit b62 = record {
        aid_token = aid_token;
        value_token = token;
        id_filled = h.id_filled;
        id_short = short;
        unit_short = omega arith;
        id_gt = h.id_gt;
        id_bar = id_bar;
        unit_colon = h.unit_colon;
        unit_bar = unit_bar;
      } in
      let p = single_report aid_str id h.std_unit b62 in
      let body = sensor_body aid_str (b64url_ts6 ts) id h.std_unit b62 in
      let size = length-sensor_body aid_str (b64url_ts6 ts) id h.std_unit b62 in
      let written =
        single_body_lem aid ts id unit value aid_str h.std_unit b62 single text aid_text in
      let parsed = parse_body_slots-single aid_str id h.std_unit b62 single ts in
      let bytes : IsBytes body =
        sensor_body-IsBytes aid_str (b64url_ts6 ts) id h.std_unit b62
          (letters-IsBytes aid_str aid_token.letters) (letters-IsBytes (b64url_ts6 ts) stamp)
          h.id_bytes h.unit_bytes (letters-IsBytes b62 token.letters) in
      let d =
        deliver aid tid ts body p s r out_cap 256 ha ht bytes parsed synced space_s space_r
          (omega arith) (omega arith) in
      let scaled = F.to_int (F.mul h.std F.value_scale) in
      let meta = meta_for d.cmd aid tid ts d.sent_len true in
      let taken =
        read_delivered aid_str id h.std_unit b62 scaled id_cap unit_cap ts d.text meta single read
          id_zero unit_zero id_room unit_room d.exact in
      let as_body = ap (send_body F lib s aid tid ts out_cap) written in
      (
        d.packet,
        d.cmd,
        meta,
        ap (λ x. x.1) as_body ∙ d.sent,
        ap (λ o. o >>= read_single F lib id_cap unit_cap) d.received ∙ taken,
        refl,
        refl,
        ap (λ x. entry_of x.0 aid tid) as_body ∙ d.sender ∙ sym d.receiver,
      )
