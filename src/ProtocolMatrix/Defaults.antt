-- ===== src/ProtocolMatrix/Defaults.antt =====
-- The order in which src/osfx_protocol_matrix.c tries its default drivers.
use osynaptic_fx.Prelude.{ℕ, ◌≡◌, refl, true, false, List, [], ◌∷◌, Option, none, some}
use osynaptic_fx.Prelude.Texts.{same_text}
use osynaptic_fx.Prelude.Slots.{find_index, modify}
use osynaptic_fx.Transporter.{
  Send, Dispatched, register, set_retry, attempt, pick, try_others, dispatch_auto,
}
use osynaptic_fx.ProtocolMatrix.{
  Emit, udp, tcp, uart, can, send_udp, send_tcp, send_uart, send_can, default_drivers,
  register_defaults, protocol_dispatch_auto,
}

module _ (W : Type 0) (emit : Option (Emit W)) where
  -- Functions by their names, each to be tried so many times, until one sends.
  abbrev pub first_to_send : List (List ℕ × ℕ × Send W) → List ℕ → W → Dispatched W
  first_to_send [] payload w = (none, w)
  first_to_send ((name, times, send) ∷ rest) payload w =
      let (sent, w') = attempt W send payload times w in
      elim sent [ true ↦ (some name, w') | false ↦ first_to_send rest payload w' ]

  -- With its default drivers, a matrix tries udp once, then tcp and uart twice each, then can once,
  -- until one sends.
  pub protocol_dispatch_auto_lem :
      (payload : List ℕ) (w : W)
      → protocol_dispatch_auto W emit (default_drivers W emit) payload w
        ≡ first_to_send
            ((udp, 1, send_udp W emit)
              ∷ (tcp, 2, send_tcp W emit)
              ∷ (uart, 2, send_uart W emit)
              ∷ (can, 1, send_can W emit)
              ∷ [])
            payload
            w
  unfolding dispatch_auto register_defaults register set_retry find_index modify pick try_others
      same_text
  protocol_dispatch_auto_lem payload w = refl
