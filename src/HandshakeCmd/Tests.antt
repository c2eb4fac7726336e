-- ===== src/HandshakeCmd/Tests.antt =====
-- Commands of src/osfx_handshake_cmd.c on concrete packets.
use osynaptic_fx.Prelude.{◌≡◌, ◌*◌, ◌^◌, refl, [], ◌∷◌, some}
use osynaptic_fx.Prelude.Words.{read_u16, octet}
use osynaptic_fx.HandshakeCmd.{parse_id_pool_response, read_pool, IdPool}
use osynaptic_fx.HandshakeCmd.Pool.{pool_bytes, pool_response, parse_id_pool_response_cap_wraps}

two_ids_lost :
    parse_id_pool_response (pool_response 3 (10 ∷ 11 ∷ [])) (1 * 2 ^ 16)
    ≡ some (record { seq = 3; pool = [] })
unfolding parse_id_pool_response read_pool pool_bytes read_u16 octet
two_ids_lost = refl

abbrev no_ids : IdPool
no_ids = record { seq = 3; pool = [] }

parse_id_pool_response_cap_wraps_example : no_ids.pool ≡ []
parse_id_pool_response_cap_wraps_example =
    parse_id_pool_response_cap_wraps (pool_response 3 (10 ∷ 11 ∷ [])) 1 no_ids two_ids_lost
