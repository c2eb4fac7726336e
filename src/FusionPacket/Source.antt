-- ===== src/FusionPacket/Source.antt =====
-- `osfx_packet_extract_body` of src/osfx_fusion_packet.c reports the source that the metadata name.
use osynaptic_fx.Prelude.{
  ℕ, ◌-◌, ◌≡◌, refl, sym, ap, ◌∙◌, subst, ◌==◌, not, if◌then◌else◌, Bool, true, false, List, length,
  Option, none, some, Option-cases, inl, inr, bit_and,
}
use mathlib.Core.Option
use osynaptic_fx.Prelude.Words.{byte_at, fits}
use osynaptic_fx.Solidity.Crc.{crc8}
use osynaptic_fx.PayloadCrypto.{xor_payload}
use osynaptic_fx.HandshakeCmd.{normalize_data}
use osynaptic_fx.FusionPacket.{Meta, decode_meta, body_bytes, extract_with, extract_body}

-- The outcome, if there is one, names the source of `meta`.
abbrev SourceOf : Meta → Option (List ℕ × Meta) → Type 0
SourceOf meta none = Unit
SourceOf meta (some (body, m)) = meta.source_aid ≡ m.source_aid

refused_or :
    (meta : Meta) (a b c : Bool) (out : Option (List ℕ × Meta))
    → SourceOf meta out
    → SourceOf meta (if a then none else if b then none else if c then none else out)
refused_or meta true b c out h = tt
refused_or meta false true c out h = tt
refused_or meta false false true out h = tt
refused_or meta false false false out h = h

extract_with-SourceOf :
    (packet key : List ℕ) (out_body : Option ℕ) (meta : Meta)
    → SourceOf meta (extract_with packet key out_body meta)
unfolding extract_with
extract_with-SourceOf packet key out_body meta =
    let body = body_bytes packet meta in
    let crc8_recv = byte_at packet (length packet - 3) in
    let secure = not (meta.cmd == normalize_data meta.cmd) in
    let plain = if secure then xor_payload body key (bit_and crc8_recv 31) else body in
    let same : meta.source_aid ≡ meta.source_aid = refl in
    refused_or meta (not meta.crc16_ok) (not (fits out_body meta.body_len))
      (not (crc8 plain 0x07 0 == crc8_recv)) (some (plain, record meta { crc8_ok = true })) same

pub extract_body-source :
    (packet key body : List ℕ) (out_body : Option ℕ) (m : Meta)
    → extract_body packet key out_body ≡ some (body, m)
    → (meta : Meta) × (decode_meta packet ≡ some meta) × (meta.source_aid ≡ m.source_aid)
unfolding extract_body Option.bind
extract_body-source packet key body out_body m e = elim (Option-cases (decode_meta packet)) [
  | inl missing ↦ absurd (
      Option.none-ne-some (body, m)
        (sym (ap (λ o. Option.bind o (extract_with packet key out_body)) missing) ∙ e))
  | inr (meta, found) ↦
      let same : extract_with packet key out_body meta ≡ some (body, m) =
        sym (ap (λ o. Option.bind o (extract_with packet key out_body)) found) ∙ e in
      (meta, found, subst (SourceOf meta) same (extract_with-SourceOf packet key out_body meta))
]
