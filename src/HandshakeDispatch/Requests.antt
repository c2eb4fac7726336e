-- ===== src/HandshakeDispatch/Requests.antt =====
-- Requests for an id in src/osfx_handshake_dispatch.c.
use osynaptic_fx.Prelude.{ℕ, ◌≤◌, ◌≡◌, refl, true, false, List, ◌∷◌, length, none, some, arith}
use osynaptic_fx.HandshakeCmd.{normalize_data, cmd_id_request, build_nack}
use osynaptic_fx.IdAllocator.Reals.{Float}
use osynaptic_fx.IdAllocator.{Allocator}
use osynaptic_fx.IdAllocator.Calls.{allocate}
use osynaptic_fx.HandshakeDispatch.{
  Ctx, Outcome, Kind, answer_ctrl, classify_dispatch, outcome, clear_result,
}

module _ (F : Float) where
  -- A request for an id, at a gateway whose allocator grants none, counts as handled but gets no
  -- response: the refusal has 20 bytes, and the buffer for it 16.
  pub id_request_unanswered :
      (ctx : Ctx F) (rest : List ℕ) (a after : Allocator F)
      → ctx.id_allocator ≡ some a
      → 2 ≤ length rest
      → allocate F a ctx.now_ts ≡ some (after, none)
      → (o : Outcome F) × (classify_dispatch F ctx (cmd_id_request ∷ rest) ≡ some o)
        × (o.returned ≡ true)
        × (o.result.has_response ≡ false)
  unfolding classify_dispatch answer_ctrl normalize_data build_nack
  id_request_unanswered ctx rest a after ha hl e = (
    outcome F (record ctx { id_allocator = some after })
        (
          record clear_result {
            cmd = cmd_id_request;
            base_cmd = cmd_id_request;
            kind = Kind.ctrl;
            ok = true;
          },
          true,
        ),
    ground (arith, ha, e),
    refl,
    refl,
  )
