-- ===== src/CoreFacade/Packets.antt =====
-- Packets of one sensor of src/osfx_core_facade.c, in the clear and masked.
use osynaptic_fx.Prelude.{
  ℕ, ◌^◌, ◌≤◌, ◌<◌, ◌≡◌, refl, inl, ap, ◌∙◌, true, List, length, some, ◌>>=◌, arith,
}
use osynaptic_fx.Prelude.Words.{IsByte, IsBytes}
use osynaptic_fx.HandshakeCmd.{cmd_data_full, secure_variant}
use osynaptic_fx.FusionPacket.{Meta, decode_meta, body_bytes, encode_full}
use osynaptic_fx.FusionPacket.Roundtrip.{meta_for, decode_meta-encode_full, extract_body-encode_ex}
use osynaptic_fx.FusionPacket.Source.{extract_body-source}
use osynaptic_fx.SecureSession.{Store, get_key}
use osynaptic_fx.Standardization.{Double, Catalog}
use osynaptic_fx.CoreFacade.{
  encode_sensor_packet, decode_sensor_body, encode_sensor_packet_secure,
  decode_sensor_packet_secure,
}
use osynaptic_fx.CoreFacade.Body.{IsReading, reading_of, plain_body_lem}

module _ (F : Double) (lib : Catalog F) (aid tid ts : ℕ) (id : List ℕ) (value : F.Real)
    (unit : List ℕ) (out_cap id_cap unit_cap : ℕ) where
  -- A reading whose texts have no separator in them, and whose scaled value has 63 bits and a sign, is
  -- written to a packet with room for 208 bytes. The packet's metadata are those of a full packet, and
  -- its body is taken apart into the id, the value as it was scaled, and the standard unit.
  decode_body-encode_packet :
      (h : IsReading F lib id value unit 16)
      → aid < 2 ^ 32
      → IsByte tid
      → length id ≤ 128
      → length id < id_cap
      → length h.std_unit < 16
      → length h.std_unit < unit_cap
      → 208 ≤ out_cap
      → (packet : List ℕ) × (meta : Meta) × (encode_sensor_packet F lib aid tid ts id value unit
            out_cap
          ≡ some packet)
        × (decode_meta packet ≡ some meta)
        × (decode_sensor_body F lib (body_bytes packet meta) id_cap unit_cap
            ≡ some (reading_of F lib id value unit 16 h))
  unfolding encode_sensor_packet
  decode_body-encode_packet h ha ht short_id id_room short_unit unit_room room =
      let (body, written, size, bytes, read) =
        plain_body_lem F lib aid ts id value unit id_cap unit_cap h ha short_id id_room short_unit
          unit_room in
      let (packet, sent, len, decoded, there) =
        decode_meta-encode_full cmd_data_full aid tid ts body out_cap (omega arith) ha ht bytes
          (omega arith) in
      (
        packet,
        meta_for cmd_data_full aid tid ts (length body) true,
        ap (λ o. o >>= (λ b. encode_full cmd_data_full aid tid ts b (some out_cap))) written ∙ sent,
        decoded,
        ap (λ b. decode_sensor_body F lib b id_cap unit_cap) there ∙ read,
      )

  -- With the same key of bytes for a 32-bit source on both sides, a reading with an id of at most 128
  -- bytes, a standard unit of fewer than 16, no separator in them, room for both at the receiver, and a
  -- scaled value of 63 bits and a sign, is read from the masked packet that is written for it, if that
  -- has room for 208 bytes.
  pub decode-encode_secure :
      (sender receiver : Store) (key : List ℕ)
      → (h : IsReading F lib id value unit 16) → get_key sender aid ≡ some key
      → get_key receiver aid ≡ some key
      → IsBytes key
      → aid < 2 ^ 32
      → IsByte tid
      → length id ≤ 128
      → length id < id_cap
      → length h.std_unit < 16
      → length h.std_unit < unit_cap
      → 208 ≤ out_cap
      → (packet : List ℕ) × (meta : Meta) × (encode_sensor_packet_secure F lib sender aid tid ts id
            value unit out_cap
          ≡ some packet)
        × (decode_sensor_packet_secure F lib receiver packet id_cap unit_cap
            ≡ some (reading_of F lib id value unit 16 h, meta))
  unfolding encode_sensor_packet_secure decode_sensor_packet_secure
  decode-encode_secure sender receiver key h has_key knows_key key_bytes ha ht short_id id_room
        short_unit unit_room room =
      let (body, written, size, bytes, read) =
        plain_body_lem F lib aid ts id value unit id_cap unit_cap h ha short_id id_room short_unit
          unit_room in
      let (packet, sent, extracted) =
        extract_body-encode_ex cmd_data_full aid tid ts body key true out_cap 192 (inl refl) ha ht
          bytes key_bytes (omega arith) size in
      let m = meta_for (secure_variant cmd_data_full) aid tid ts (length body) true in
      let (meta, decoded, source) = extract_body-source packet key body (some 192) m extracted in
      let known : get_key receiver meta.source_aid ≡ some key =
        ap (get_key receiver) source ∙ knows_key in
      (packet, m, rw (has_key, written) sent, rw (decoded, known, extracted, read) refl)
