-- ===== src/FusionPacket/Roundtrip.antt =====
-- Round trips of the packets of src/osfx_fusion_packet.c.
use osynaptic_fx.Prelude.{
  ℕ, ◌+◌, ◌%◌, ◌^◌, ◌<◌, ◌≤◌, ◌≡◌, ◌≢◌, ap, ◌∙◌, ◌==◌, if◌then◌else◌, Bool, true, false, List, [],
  ◌∷◌, ◌++◌, length, some, arith, ==_refl, bit_and, not,
}
use mathlib.Core.Option
use osynaptic_fx.Prelude.Words.{IsByte, IsBytes}
use osynaptic_fx.Solidity.Crc.{crc8}
use osynaptic_fx.Solidity.Crc.Detect.{crc8-lt}
use osynaptic_fx.PayloadCrypto.{xor_payload}
use osynaptic_fx.PayloadCrypto.Involution.{
  xor_payload-IsBytes, length-xor_payload, xor_payload_involution,
}
use osynaptic_fx.HandshakeCmd.{normalize_data, secure_variant}
use osynaptic_fx.HandshakeCmd.Variants.{
  IsDataCommand, IsSecureCommand, normalize_data-secure_variant, normalize_data-ne_iff,
  normalize_data_plain,
}
use osynaptic_fx.FusionPacket.{
  header, seal, encode_full, encode_ex, decode_meta, Meta, body_bytes, extract_body,
}
use osynaptic_fx.FusionPacket.Frame.{length-frame, body-frame, decode_min-frame, crc8-seal}

-- The metadata of a packet with one route entry.
abbrev pub meta_for : ℕ → ℕ → ℕ → ℕ → ℕ → Bool → Meta
meta_for cmd source_aid tid timestamp_raw body_len crc8_ok = record {
  cmd = cmd;
  route_count = 1;
  source_aid = source_aid;
  tid = tid;
  timestamp_raw = timestamp_raw % 2 ^ 48;
  body_offset = 13;
  body_len = body_len;
  crc8_ok = crc8_ok;
  crc16_ok = true;
}

decode_meta-frame :
    (cmd aid tid ts : ℕ) (wire : List ℕ) (c8 : ℕ)
    → IsByte cmd
    → aid < 2 ^ 32
    → IsByte tid
    → IsBytes wire
    → IsByte c8
    → decode_meta (seal (header cmd aid tid ts ++ (wire ++ c8 ∷ [])))
      ≡ some (meta_for cmd aid tid ts (length wire) (crc8 wire 0x07 0 == c8))
unfolding decode_meta
decode_meta-frame cmd aid tid ts wire c8 hc ha ht hw h8 =
    rw (decode_min-frame cmd aid tid ts wire c8 hc ht hw h8) (ground arith)

-- With room for it, a packet of 16 bytes more than the body is written. Its metadata are the
-- arguments, the timestamp cut to 48 bits; both checksums pass, and the body stands where the
-- metadata say.
pub decode_meta-encode_full :
    (cmd aid tid ts : ℕ) (body : List ℕ) (cap : ℕ)
    → IsByte cmd
    → aid < 2 ^ 32
    → IsByte tid
    → IsBytes body
    → 16 + length body ≤ cap
    → (packet : List ℕ) × (encode_full cmd aid tid ts body (some cap) ≡ some packet)
      × (length packet ≡ 16 + length body)
      × (decode_meta packet ≡ some (meta_for cmd aid tid ts (length body) true))
      × (body_bytes packet (meta_for cmd aid tid ts (length body) true) ≡ body)
unfolding encode_full
decode_meta-encode_full cmd aid tid ts body cap hc ha ht hb room =
    let c8 : ℕ = crc8 body 0x07 0 in
    let small : IsByte c8 = crc8-lt 0x07 body 0 hb (omega arith) in
    (
      seal (header cmd aid tid ts ++ (body ++ c8 ∷ [])),
      ground arith,
      length-frame cmd aid tid ts body c8 hc ht hb small,
      decode_meta-frame cmd aid tid ts body c8 hc ha ht hb small
          ∙ ap (λ ok. some (meta_for cmd aid tid ts (length body) ok)) (==_refl c8),
      body-frame cmd aid tid ts body c8 hc ht hb small,
    )

-- What `osfx_packet_extract_body` makes of a frame whose wire body unmasks to `body`.
extract_body-frame :
    (cmd aid tid ts : ℕ) (wire body key : List ℕ) (cap : ℕ)
    → IsByte cmd
    → aid < 2 ^ 32
    → IsByte tid
    → IsBytes wire
    → IsBytes body
    → length wire ≤ cap
    → (if not (cmd == normalize_data cmd)
        then xor_payload wire key (bit_and (crc8 body 0x07 0) 31)
        else wire)
      ≡ body
    → extract_body (seal (header cmd aid tid ts ++ (wire ++ crc8 body 0x07 0 ∷ []))) key (some cap)
      ≡ some (body, meta_for cmd aid tid ts (length wire) true)
unfolding extract_body Option.bind
extract_body-frame cmd aid tid ts wire body key cap hc ha ht hw hb room unmasks =
    let c8 : ℕ = crc8 body 0x07 0 in
    let small : IsByte c8 = crc8-lt 0x07 body 0 hb (omega arith) in
    let packet = seal (header cmd aid tid ts ++ (wire ++ c8 ∷ [])) in
    let stored = crc8-seal (header cmd aid tid ts ++ wire) c8 in
    let there = body-frame cmd aid tid ts wire c8 hc ht hw small in
    rw (decode_meta-frame cmd aid tid ts wire c8 hc ha ht hw small, Option.bind)
      (rw (stored, there, unmasks) (ground (arith, ==_refl c8)))

plain_wire :
    (cmd : ℕ) (wire key : List ℕ) (o : ℕ)
    → normalize_data cmd ≡ cmd
    → (if not (cmd == normalize_data cmd) then xor_payload wire key o else wire) ≡ wire
plain_wire cmd wire key o e = ground arith

secure_wire :
    (cmd : ℕ) (wire key : List ℕ) (o : ℕ)
    → normalize_data cmd ≢ cmd
    → (if not (cmd == normalize_data cmd) then xor_payload wire key o else wire)
      ≡ xor_payload wire key o
secure_wire cmd wire key o e = ground arith

abbrev wire_cmd : ℕ → Bool → ℕ
wire_cmd cmd secure = if secure then secure_variant cmd else cmd

-- A data packet that `osfx_packet_encode_ex` writes, masked or not, is taken apart again by
-- `osfx_packet_extract_body` with the same key: the plain body comes back, with the metadata, the
-- secure variant of the command if the body was masked.
pub extract_body-encode_ex :
    (cmd aid tid ts : ℕ) (body key : List ℕ) (secure : Bool) (cap room : ℕ)
    → IsDataCommand cmd
    → aid < 2 ^ 32
    → IsByte tid
    → IsBytes body
    → IsBytes key
    → 16 + length body ≤ cap
    → length body ≤ room
    → (packet : List ℕ) × (encode_ex cmd aid tid ts body secure key (some cap) ≡ some packet)
      × (extract_body packet key (some room)
          ≡ some (
            body,
            meta_for (if secure then secure_variant cmd else cmd) aid tid ts (length body) true,
          ))
unfolding encode_ex
extract_body-encode_ex cmd aid tid ts body key false cap room plain ha ht hb hk fits_cap fits_room =
    (
      seal (header cmd aid tid ts ++ (body ++ crc8 body 0x07 0 ∷ [])),
      ground arith,
      extract_body-frame cmd aid tid ts body body key room (data_byte plain) ha ht hb hb fits_room
          (plain_wire cmd body key _ (normalize_data_plain cmd plain)),
    )
  where
    data_byte : IsDataCommand cmd → IsByte cmd
    data_byte d = omega arith
extract_body-encode_ex cmd aid tid ts body key true cap room plain ha ht hb hk fits_cap fits_room =
    (
      seal (header (secure_variant cmd) aid tid ts ++ (wire ++ crc8 body 0x07 0 ∷ [])),
      ground arith,
      extract_body-frame (secure_variant cmd) aid tid ts wire body key room (secure_byte secured) ha
            ht (xor_payload-IsBytes body key o hb hk) hb
            (rw (length-xor_payload body key o) fits_room)
            (secure_wire (secure_variant cmd) wire key o
                ((normalize_data-ne_iff (secure_variant cmd)).1 secured)
              ∙ xor_payload_involution body key o hb hk)
          ∙ ap (λ n. some (body, meta_for (secure_variant cmd) aid tid ts n true))
              (length-xor_payload body key o),
    )
  where
    o : ℕ
    o = bit_and (crc8 body 0x07 0) 31

    wire : List ℕ
    wire = xor_payload body key o

    secured : IsSecureCommand (secure_variant cmd)
    secured = (normalize_data-secure_variant cmd plain).0

    secure_byte : IsSecureCommand (secure_variant cmd) → IsByte (secure_variant cmd)
    secure_byte d = omega arith
