-- ===== src/HandshakeCmd.antt =====
-- src/osfx_handshake_cmd.c and include/osfx_handshake_cmd.h: the command bytes, and the control
-- packets that are built and parsed. A builder returns `none` where the code returns 0, and else
-- the bytes written, whose number the code returns.
pub mod Variants
pub mod Roundtrip
pub mod Pool
mod Tests
use osynaptic_fx.Prelude.{
  ℕ, zero, suc, ◌+◌, ◌*◌, ◌%◌, ◌^◌, ◌==◌, ltb, leb, ◌&&◌, if◌then◌else◌, List, [], ◌∷◌, ◌++◌,
  length, Option, none, some,
}
use osynaptic_fx.Prelude.Words.{
  byte_at, u16_bytes, u32_bytes, u64_bytes, read_u16, read_u32, read_u64, fits,
}

abbrev pub cmd_data_full : ℕ
cmd_data_full = 63

abbrev pub cmd_data_full_sec : ℕ
cmd_data_full_sec = 64

abbrev pub cmd_data_diff : ℕ
cmd_data_diff = 170

abbrev pub cmd_data_diff_sec : ℕ
cmd_data_diff_sec = 171

abbrev pub cmd_data_heart : ℕ
cmd_data_heart = 127

abbrev pub cmd_data_heart_sec : ℕ
cmd_data_heart_sec = 128

abbrev pub cmd_id_request : ℕ
cmd_id_request = 1

abbrev pub cmd_id_assign : ℕ
cmd_id_assign = 2

abbrev pub cmd_id_pool_req : ℕ
cmd_id_pool_req = 3

abbrev pub cmd_id_pool_res : ℕ
cmd_id_pool_res = 4

abbrev pub cmd_handshake_ack : ℕ
cmd_handshake_ack = 5

abbrev pub cmd_handshake_nack : ℕ
cmd_handshake_nack = 6

abbrev pub cmd_ping : ℕ
cmd_ping = 9

abbrev pub cmd_pong : ℕ
cmd_pong = 10

abbrev pub cmd_time_request : ℕ
cmd_time_request = 11

abbrev pub cmd_time_response : ℕ
cmd_time_response = 12

abbrev pub cmd_secure_dict_ready : ℕ
cmd_secure_dict_ready = 13

abbrev pub cmd_secure_channel_ack : ℕ
cmd_secure_channel_ack = 14

unfoldable pub normalize_data : ℕ → ℕ
normalize_data cmd =
    if cmd == cmd_data_full_sec
    then cmd_data_full
    else if cmd == cmd_data_diff_sec
    then cmd_data_diff
    else if cmd == cmd_data_heart_sec
    then cmd_data_heart
    else cmd

unfoldable pub secure_variant : ℕ → ℕ
secure_variant cmd =
    if cmd == cmd_data_full
    then cmd_data_full_sec
    else if cmd == cmd_data_diff
    then cmd_data_diff_sec
    else if cmd == cmd_data_heart
    then cmd_data_heart_sec
    else cmd

unfoldable pub build_ack : ℕ → Option ℕ → Option (List ℕ)
build_ack seq out = if fits out 3 then some (cmd_handshake_ack ∷ u16_bytes seq) else none

-- A null reason is the empty one.
unfoldable pub build_nack : ℕ → List ℕ → Option ℕ → Option (List ℕ)
build_nack seq reason out =
    if fits out 3
    then (if fits out (3 + length reason)
        then some (cmd_handshake_nack ∷ u16_bytes seq ++ reason)
        else none)
    else none

unfoldable pub build_id_assign : ℕ → ℕ → Option ℕ → Option (List ℕ)
build_id_assign seq assigned_id out =
    if fits out 7 then some (cmd_id_assign ∷ u16_bytes seq ++ u32_bytes assigned_id) else none

unfoldable pub build_time_request : ℕ → Option ℕ → Option (List ℕ)
build_time_request seq out = if fits out 3 then some (cmd_time_request ∷ u16_bytes seq) else none

unfoldable pub build_time_response : ℕ → ℕ → Option ℕ → Option (List ℕ)
build_time_response seq unix_ts out =
    if fits out 11 then some (cmd_time_response ∷ u16_bytes seq ++ u64_bytes unix_ts) else none

unfoldable pub build_secure_dict_ready : ℕ → ℕ → Option ℕ → Option (List ℕ)
build_secure_dict_ready assigned_id timestamp_raw out =
    if fits out 13
    then some (cmd_secure_dict_ready ∷ u32_bytes assigned_id ++ u64_bytes timestamp_raw)
    else none

unfoldable pub build_secure_channel_ack : ℕ → Option ℕ → Option (List ℕ)
build_secure_channel_ack assigned_id out =
    if fits out 5 then some (cmd_secure_channel_ack ∷ u32_bytes assigned_id) else none

unfoldable pub build_id_pool_request : ℕ → ℕ → Option ℕ → Option (List ℕ)
build_id_pool_request seq count out =
    if fits out 5 then some (cmd_id_pool_req ∷ u16_bytes seq ++ u16_bytes count) else none

-- What a parser stores through its output pointers, all of them given.
pub record IdAssign : Type 0 where
  pub seq : ℕ
  pub assigned_id : ℕ
  pub server_time : ℕ

unfoldable pub parse_id_assign : List ℕ → Option IdAssign
parse_id_assign packet =
    if leb 7 (length packet) && byte_at packet 0 == cmd_id_assign
    then some (record {
      seq = read_u16 packet 1;
      assigned_id = read_u32 packet 3;
      server_time = if leb 15 (length packet) then read_u64 packet 7 else 0;
    })
    else none

pub record TimeResponse : Type 0 where
  pub seq : ℕ
  pub unix_ts : ℕ

unfoldable pub parse_time_response : List ℕ → Option TimeResponse
parse_time_response packet =
    if leb 11 (length packet) && byte_at packet 0 == cmd_time_response
    then some (record { seq = read_u16 packet 1; unix_ts = read_u64 packet 3 })
    else none

-- `for (i = 0; i < actual; ++i)`, with the rounds left.
unfoldable pub read_pool : List ℕ → ℕ → ℕ → List ℕ
read_pool packet zero i = []
read_pool packet (suc left) i = read_u32 packet (5 + i * 4) ∷ read_pool packet left (i + 1)

pub record IdPool : Type 0 where
  pub seq : ℕ
  pub pool : List ℕ

-- `*out_count` is the length of `pool`. The capacity is cast to 16 bits before it is compared.
unfoldable pub parse_id_pool_response : List ℕ → ℕ → Option IdPool
parse_id_pool_response packet out_pool_cap =
    if leb 5 (length packet) && byte_at packet 0 == cmd_id_pool_res
    then (let declared_count = read_u16 packet 3 in
        let cap16 = out_pool_cap % 2 ^ 16 in
        let actual = if ltb declared_count cap16 then declared_count else cap16 in
        if ltb (length packet) (5 + declared_count * 4)
        then none
        else some (record { seq = read_u16 packet 1; pool = read_pool packet actual 0 }))
    else none
