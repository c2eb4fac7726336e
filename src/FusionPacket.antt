-- ===== src/FusionPacket.antt =====
-- src/osfx_fusion_packet.c: the data packet.
--   cmd, route count 1, source id (4 bytes), tid, timestamp (6 bytes), body, CRC-8 of the plain
--   body, CRC-16 of all before it (2 bytes).
-- An encoder returns `none` where the code returns 0, and else the bytes written, whose number the
-- code returns. A body pointer with its length is the list of its bytes.
pub mod Frame
pub mod Roundtrip
pub mod Integrity
pub mod Source
mod Tests
use osynaptic_fx.Prelude.{
  ℕ, ◌+◌, ◌-◌, ◌*◌, ◌%◌, ◌^◌, ◌==◌, ltb, if◌then◌else◌, Bool, true, false, not, List, [], ◌∷◌, ◌++◌,
  length, take, drop, Option, none, some, bit_and,
}
use mathlib.Core.Option
use osynaptic_fx.Prelude.Words.{
  byte_at, u16_bytes, u32_bytes, u48_bytes, read_u16, read_u32, read_u48, fits,
}
use osynaptic_fx.Solidity.Crc.{crc8, crc16_ccitt}
use osynaptic_fx.PayloadCrypto.{xor_payload}
use osynaptic_fx.HandshakeCmd.{normalize_data, secure_variant}

-- The 13 bytes before the body: one route entry, and the low 48 bits of the timestamp.
abbrev pub header : ℕ → ℕ → ℕ → ℕ → List ℕ
header cmd source_aid tid timestamp_raw =
    cmd ∷ 1 ∷ u32_bytes source_aid ++ tid ∷ u48_bytes timestamp_raw

-- The CRC-16 goes behind what stands in the buffer so far.
abbrev pub seal : List ℕ → List ℕ
seal so_far = so_far ++ u16_bytes (crc16_ccitt so_far 0x1021 0xffff)

unfoldable pub encode_full : ℕ → ℕ → ℕ → ℕ → List ℕ → Option ℕ → Option (List ℕ)
encode_full cmd source_aid tid timestamp_raw body out =
    if fits out (13 + length body + 3)
    then some (seal (header cmd source_aid tid timestamp_raw ++ (body ++ crc8 body 0x07 0 ∷ [])))
    else none

unfoldable pub encode_ex : ℕ → ℕ → ℕ → ℕ → List ℕ → Bool → List ℕ → Option ℕ → Option (List ℕ)
encode_ex cmd source_aid tid timestamp_raw body secure key out =
    let wire_cmd = if secure then secure_variant cmd else cmd in
    let crc8v = crc8 body 0x07 0 in
    let wire_body = if secure then xor_payload body key (bit_and crc8v 31) else body in
    if fits out (13 + length body + 3)
    then some (seal (header wire_cmd source_aid tid timestamp_raw ++ (wire_body ++ crc8v ∷ [])))
    else none

-- `osfx_packet_decode_min`: the nine fields of `out_fields`.
unfoldable pub decode_min : List ℕ → Option (List ℕ)
decode_min packet =
    let packet_len = length packet in
    let route_count = byte_at packet 1 in
    let tid_pos = 2 + route_count * 4 in
    let body_off = tid_pos + 7 in
    let body_len = packet_len - body_off - 3 in
    let crc8_recv = byte_at packet (packet_len - 3) in
    let crc8_calc = crc8 (take body_len (drop body_off packet)) 0x07 0 in
    let crc16_recv = read_u16 packet (packet_len - 2) in
    let crc16_calc = crc16_ccitt (take (packet_len - 2) packet) 0x1021 0xffff in
    if ltb packet_len 16
    then none
    else if ltb packet_len (tid_pos + 1 + 6 + 3)
    then none
    else some (
        byte_at packet 0
        ∷ route_count
        ∷ read_u32 packet 2
        ∷ byte_at packet tid_pos
        ∷ read_u48 packet (tid_pos + 1)
        ∷ body_off
        ∷ body_len
        ∷ (if crc8_calc == crc8_recv then 1 else 0)
        ∷ (if crc16_calc == crc16_recv then 1 else 0)
        ∷ [])

pub record Meta : Type 0 where
  pub cmd : ℕ
  pub route_count : ℕ
  pub source_aid : ℕ
  pub tid : ℕ
  pub timestamp_raw : ℕ
  pub body_offset : ℕ
  pub body_len : ℕ
  pub crc8_ok : Bool
  pub crc16_ok : Bool

meta_of : List ℕ → Meta
meta_of f = record {
  cmd = byte_at f 0 % 2 ^ 8;
  route_count = byte_at f 1 % 2 ^ 8;
  source_aid = byte_at f 2 % 2 ^ 32;
  tid = byte_at f 3 % 2 ^ 8;
  timestamp_raw = byte_at f 4;
  body_offset = byte_at f 5;
  body_len = byte_at f 6;
  crc8_ok = not (byte_at f 7 == 0);
  crc16_ok = not (byte_at f 8 == 0);
}

unfoldable pub decode_meta : List ℕ → Option Meta
unfolding meta_of
decode_meta packet = Option.map meta_of (decode_min packet)

-- The body of a packet, where its metadata say that it stands.
abbrev pub body_bytes : List ℕ → Meta → List ℕ
body_bytes packet meta = take meta.body_len (drop meta.body_offset packet)

-- The end of `osfx_packet_extract_body`, with the metadata decoded. `none` where the code returns
-- 0; what it has written to `out_body` by then is not part of the result.
extract_with : List ℕ → List ℕ → Option ℕ → Meta → Option (List ℕ × Meta)
extract_with packet key out_body meta =
    let body = body_bytes packet meta in
    let crc8_recv = byte_at packet (length packet - 3) in
    let secure = not (meta.cmd == normalize_data meta.cmd) in
    let plain = if secure then xor_payload body key (bit_and crc8_recv 31) else body in
    if not meta.crc16_ok
    then none
    else if not (fits out_body meta.body_len)
    then none
    else if not (crc8 plain 0x07 0 == crc8_recv)
    then none
    else some (plain, record meta { crc8_ok = true })

unfoldable pub extract_body : List ℕ → List ℕ → Option ℕ → Option (List ℕ × Meta)
unfolding extract_with
extract_body packet key out_body =
    Option.bind (decode_meta packet) (extract_with packet key out_body)
