-- ===== src/FusionPacket/Frame.antt =====
-- The layout of a sealed packet, as `osfx_packet_decode_min` of src/osfx_fusion_packet.c reads it.
use mathlib.Core.List.{append_assoc}
use osynaptic_fx.Prelude.{
  ℕ, ◌+◌, ◌-◌, ◌%◌, ◌^◌, ◌<◌, ◌≡◌, refl, ap, ◌∙◌, ◌==◌, if◌then◌else◌, List, [], ◌∷◌, ◌++◌, length,
  take, drop, some, arith, All-append, take-append, length-append, get_or-append,
}
use osynaptic_fx.Prelude.Words.{byte_at, u16_bytes, read_u16, IsByte, IsBytes, octet-lt}
use osynaptic_fx.Prelude.Words.Read.{read_u16_lem, read_u32_lem, read_u48_lem}
use osynaptic_fx.Solidity.Crc.{crc8, crc16_ccitt}
use osynaptic_fx.Solidity.Crc.Detect.{crc16-lt}
use osynaptic_fx.FusionPacket.{header, seal, decode_min}

module _ (pre : List ℕ) (c8 : ℕ) where
  abbrev so_far : List ℕ
  so_far = pre ++ c8 ∷ []

  pub length-seal : length (seal so_far) ≡ length pre + 3
  length-seal = omega (
    arith,
    length-append so_far (u16_bytes (crc16_ccitt so_far 0x1021 0xffff)),
    length-append pre (c8 ∷ []),
  )

  before_crc16 : length (seal so_far) - 2 ≡ length so_far
  before_crc16 = omega (arith, length-seal, length-append pre (c8 ∷ []))

  pub take-seal : take (length (seal so_far) - 2) (seal so_far) ≡ so_far
  take-seal =
      ap (λ n. take n (seal so_far)) before_crc16
      ∙ take-append so_far (u16_bytes (crc16_ccitt so_far 0x1021 0xffff))

  pub crc8-seal : byte_at (seal so_far) (length (seal so_far) - 3) ≡ c8
  crc8-seal =
      let at : length (seal so_far) - 3 ≡ length pre + 0 = omega (arith, length-seal) in
      ap (byte_at (seal so_far)) at
      ∙ ap (λ l. byte_at l (length pre + 0))
          (append_assoc pre (c8 ∷ []) (u16_bytes (crc16_ccitt so_far 0x1021 0xffff)))
      ∙ get_or-append pre (c8 ∷ u16_bytes (crc16_ccitt so_far 0x1021 0xffff)) 0 0

  pub crc16-seal :
      IsBytes so_far
      → read_u16 (seal so_far) (length (seal so_far) - 2) ≡ crc16_ccitt so_far 0x1021 0xffff
  crc16-seal h =
      let crc = crc16_ccitt so_far 0x1021 0xffff in
      let at0 : length (seal so_far) - 2 ≡ length so_far + 0 = omega (arith, before_crc16) in
      let at1 : length (seal so_far) - 2 + 1 ≡ length so_far + 1 = omega (arith, before_crc16) in
      let small : crc < 2 ^ 16 = crc16-lt 0x1021 (omega arith) so_far 0xffff h (omega arith) in
      read_u16_lem (seal so_far) (length (seal so_far) - 2) crc
        (ap (byte_at (seal so_far)) at0 ∙ get_or-append so_far (u16_bytes crc) 0 0)
        (ap (byte_at (seal so_far)) at1 ∙ get_or-append so_far (u16_bytes crc) 1 0)
      ∙ omega arith

pub header-IsBytes :
    (cmd source_aid tid timestamp_raw : ℕ)
    → IsByte cmd
    → IsByte tid
    → IsBytes (header cmd source_aid tid timestamp_raw)
header-IsBytes cmd aid tid ts hc ht = omega (arith, octet-lt)

-- The fields of a frame whose body is `wire`, behind one route entry.
module _ (cmd aid tid ts : ℕ) (wire : List ℕ) (c8 : ℕ) (cmd_byte : IsByte cmd)
    (tid_byte : IsByte tid) (wire_bytes : IsBytes wire) (c8_byte : IsByte c8) where
  abbrev frame : List ℕ
  frame = seal (header cmd aid tid ts ++ (wire ++ c8 ∷ []))

  pub frame-IsBytes : IsBytes (header cmd aid tid ts ++ (wire ++ c8 ∷ []))
  frame-IsBytes =
      All-append IsByte (header cmd aid tid ts) (wire ++ c8 ∷ [])
        (header-IsBytes cmd aid tid ts cmd_byte tid_byte)
        (All-append IsByte wire (c8 ∷ []) wire_bytes (c8_byte, tt))

  pub length-frame : length frame ≡ 16 + length wire
  length-frame = omega (arith, length-seal (header cmd aid tid ts ++ wire) c8)

  pub body-frame : take (length wire) (drop 13 frame) ≡ wire
  body-frame =
      ap (take (length wire)) (
        append_assoc wire (c8 ∷ [])
          (u16_bytes (crc16_ccitt (header cmd aid tid ts ++ (wire ++ c8 ∷ [])) 0x1021 0xffff)))
      ∙ take-append wire _

  pub decode_min-frame :
      decode_min frame
      ≡ some (
          cmd
          ∷ 1
          ∷ aid % 2 ^ 32
          ∷ tid
          ∷ ts % 2 ^ 48
          ∷ 13
          ∷ length wire
          ∷ (if crc8 wire 0x07 0 == c8 then 1 else 0)
          ∷ 1
          ∷ [])
  unfolding decode_min
  decode_min-frame =
      let pre = header cmd aid tid ts ++ wire in
      let n : length frame - 13 - 3 ≡ length wire = omega (arith, length-frame) in
      let body : take (length frame - 13 - 3) (drop 13 frame) ≡ wire =
        ap (λ k. take k (drop 13 frame)) n ∙ body-frame in
      ground (
        arith,
        length-frame,
        n,
        ap (λ b. crc8 b 0x07 0) body,
        crc8-seal pre c8,
        crc16-seal pre c8 frame-IsBytes,
        ap (λ b. crc16_ccitt b 0x1021 0xffff) (take-seal pre c8),
        read_u32_lem frame 2 aid refl refl refl refl,
        read_u48_lem frame 7 ts refl refl refl refl refl refl,
      )
