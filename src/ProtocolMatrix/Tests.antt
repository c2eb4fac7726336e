-- ===== src/ProtocolMatrix/Tests.antt =====
-- The theorems on src/osfx_protocol_matrix.c at concrete payloads.
use osynaptic_fx.Prelude.{ℕ, ◌≡◌, true, List, [], ◌∷◌, ◌++◌, some, All}
use osynaptic_fx.ProtocolMatrix.{
  udp, tcp, uart, can, send_udp, send_tcp, send_uart, send_can, default_drivers,
  protocol_dispatch_auto,
}
use osynaptic_fx.ProtocolMatrix.Frames.{Log, keep, joined, IsCanFrame, send_can_lem}
use osynaptic_fx.ProtocolMatrix.Defaults.{first_to_send, protocol_dispatch_auto_lem}

abbrev nine : List ℕ
nine = 1 ∷ 2 ∷ 3 ∷ 4 ∷ 5 ∷ 6 ∷ 7 ∷ 8 ∷ 9 ∷ []

send_can_lem_example :
    (frames : Log) × (send_can Log (some keep) nine [] ≡ (true, [] ++ frames))
    × (joined frames ≡ nine)
    × All IsCanFrame frames
send_can_lem_example = send_can_lem nine []

protocol_dispatch_auto_lem_example :
    protocol_dispatch_auto Log (some keep) (default_drivers Log (some keep)) nine []
    ≡ first_to_send Log
        (some keep)
        ((udp, 1, send_udp Log (some keep))
          ∷ (tcp, 2, send_tcp Log (some keep))
          ∷ (uart, 2, send_uart Log (some keep))
          ∷ (can, 1, send_can Log (some keep))
          ∷ [])
        nine
        []
protocol_dispatch_auto_lem_example = protocol_dispatch_auto_lem Log (some keep) nine []
