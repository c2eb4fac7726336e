-- ===== src/ProtocolMatrix.antt =====
-- src/osfx_protocol_matrix.c: the four default drivers, which frame a payload for a protocol. The
-- function that emits a frame is the application's: it takes the protocol's name, the frame and the
-- application's state, and gives whether it sent, and the new state.
pub mod Defaults
pub mod Frames
mod Tests
use osynaptic_fx.Prelude.{
  ℕ, zero, suc, ◌+◌, ◌-◌, ◌%◌, ◌^◌, ltb, if◌then◌else◌, Bool, true, false, List, [], ◌∷◌, ◌++◌,
  length, take, drop, Option, none, some,
}
use osynaptic_fx.Prelude.Words.{octet, u16_bytes}
use osynaptic_fx.Solidity.Text.{ℤ, pos}
use osynaptic_fx.Transporter.{
  Send, Drivers, Dispatched, drivers_init, register, set_retry, dispatch_auto,
}

-- "udp", "tcp", "uart" and "can".
abbrev pub udp : List ℕ
udp = b'u' ∷ b'd' ∷ b'p' ∷ []

abbrev pub tcp : List ℕ
tcp = b't' ∷ b'c' ∷ b'p' ∷ []

abbrev pub uart : List ℕ
uart = b'u' ∷ b'a' ∷ b'r' ∷ b't' ∷ []

abbrev pub can : List ℕ
can = b'c' ∷ b'a' ∷ b'n' ∷ []

-- `sizeof(frame)`.
abbrev pub frame_size : ℕ
frame_size = 1500

-- One frame: its number, cut to a byte, the length of its piece, and the piece.
abbrev pub can_frame : ℕ → List ℕ → List ℕ
can_frame idx payload = let chunk = take 8 payload in idx % 2 ^ 8 ∷ length chunk ∷ chunk

module _ (W : Type 0) where
  abbrev pub Emit : Type 0
  Emit = List ℕ → List ℕ → W → Bool × W

  abbrev pub matrix_emit : Option Emit → List ℕ → List ℕ → W → Bool × W
  matrix_emit none proto frame w = (false, w)
  matrix_emit (some emit_fn) proto frame w = emit_fn proto frame w

  module _ (emit : Option Emit) where
    unfoldable pub send_udp : Send W
    send_udp payload w = matrix_emit emit udp payload w

    unfoldable pub send_tcp : Send W
    send_tcp payload w =
        if ltb frame_size (length payload + 2)
        then (false, w)
        else matrix_emit emit tcp (u16_bytes (length payload) ++ payload) w

    unfoldable pub send_uart : Send W
    send_uart payload w =
        if ltb frame_size (length payload + 2)
        then (false, w)
        else matrix_emit emit uart (0x02 ∷ payload ++ 0x03 ∷ []) w

    -- `while (off < payload_len)`, on what is left of the payload.
    unfoldable pub can_loop : ℕ → ℕ → List ℕ → W → Bool × W
    can_loop zero idx payload w = (true, w)
    can_loop (suc fuel) idx [] w = (true, w)
    can_loop (suc fuel) idx (b ∷ rest) w =
        let (sent, w') = matrix_emit emit can (can_frame idx (b ∷ rest)) w in
        elim sent [ false ↦ (false, w') | true ↦ can_loop fuel (suc idx) (drop 8 (b ∷ rest)) w' ]

    -- The payload's length is fuel enough.
    unfoldable pub send_can : Send W
    send_can payload w = can_loop (length payload) 0 payload w

    abbrev pub register_with : List ℕ → ℕ → Send W → ℕ → Drivers W × Bool → Drivers W × Bool
    register_with name priority send_fn retries (rt, false) = (rt, false)
    register_with name priority send_fn retries (rt, true) =
        let (rt', ok) = register W rt name (pos priority) send_fn in
        if ok then ((set_retry W rt' name (pos retries)).0, true) else (rt', false)

    unfoldable pub register_defaults : Drivers W → Drivers W × Bool
    register_defaults rt = register_with can 15 send_can 0 (
        register_with uart 20 send_uart 1
          (register_with tcp 35 send_tcp 1 (register_with udp 40 send_udp 0 (rt, true))))

    -- A matrix as `osfx_protocol_matrix_init` leaves it, with its default drivers.
    abbrev pub default_drivers : Drivers W
    default_drivers = (register_defaults (drivers_init W)).0

    abbrev pub protocol_dispatch_auto : Drivers W → List ℕ → W → Dispatched W
    protocol_dispatch_auto rt payload w = dispatch_auto W rt payload w
