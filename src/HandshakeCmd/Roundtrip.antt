-- ===== src/HandshakeCmd/Roundtrip.antt =====
-- Round trips of the control packets of src/osfx_handshake_cmd.c.
use osynaptic_fx.Prelude.{ℕ, ◌^◌, ◌<◌, ◌≤◌, ◌≡◌, refl, List, ◌∷◌, ◌++◌, some, arith}
use osynaptic_fx.Prelude.Words.{u16_bytes, u32_bytes, u64_bytes}
use osynaptic_fx.Prelude.Words.Read.{read_u16_lem, read_u32_lem, read_u64_lem}
use osynaptic_fx.HandshakeCmd.{
  build_id_assign, parse_id_assign, build_time_response, parse_time_response,
}

-- What `osfx_build_id_assign` writes parses as the same sequence number and id, with no server time.
pub parse-build_id_assign :
    (seq assigned_id cap : ℕ)
    → seq < 2 ^ 16
    → assigned_id < 2 ^ 32
    → 7 ≤ cap
    → (packet : List ℕ) × (build_id_assign seq assigned_id (some cap) ≡ some packet)
      × (parse_id_assign packet
          ≡ some (record { seq = seq; assigned_id = assigned_id; server_time = 0 }))
unfolding build_id_assign parse_id_assign
parse-build_id_assign seq assigned_id cap hs ha hc = (
  2 ∷ u16_bytes seq ++ u32_bytes assigned_id,
  ground arith,
  ground (
    arith,
    read_u16_lem (2 ∷ u16_bytes seq ++ u32_bytes assigned_id) 1 seq refl refl,
    read_u32_lem (2 ∷ u16_bytes seq ++ u32_bytes assigned_id) 3 assigned_id refl refl refl refl,
  ),
)

-- What `osfx_build_time_response` writes parses as the same sequence number and time.
pub parse-build_time_response :
    (seq unix_ts cap : ℕ)
    → seq < 2 ^ 16
    → unix_ts < 2 ^ 64
    → 11 ≤ cap
    → (packet : List ℕ) × (build_time_response seq unix_ts (some cap) ≡ some packet)
      × (parse_time_response packet ≡ some (record { seq = seq; unix_ts = unix_ts }))
unfolding build_time_response parse_time_response
parse-build_time_response seq unix_ts cap hs ht hc =
    let packet : List ℕ = 12 ∷ u16_bytes seq ++ u64_bytes unix_ts in
    (
      packet,
      ground arith,
      ground (
        arith,
        read_u16_lem packet 1 seq refl refl,
        read_u64_lem packet 3 unix_ts refl refl refl refl refl refl refl refl,
      ),
    )
