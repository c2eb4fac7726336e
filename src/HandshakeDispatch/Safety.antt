-- ===== src/HandshakeDispatch/Safety.antt =====
-- The outcomes of src/osfx_handshake_dispatch.c for any packet.
use osynaptic_fx.Prelude.{
  ℕ, ◌<◌, ◌^◌, ◌≡◌, refl, sym, ◌∙◌, subst, ◌==◌, ltb, if◌then◌else◌, Bool, true, false, not, List,
  [], ◌∷◌, length, Option, none, some, Bool-cases, inl, inr,
}
use osynaptic_fx.Prelude.Words.{read_u16, u16_bytes}
use osynaptic_fx.HandshakeCmd.{
  build_nack, build_id_assign, normalize_data, cmd_ping, cmd_pong, build_time_response,
  cmd_time_request, cmd_id_request, cmd_secure_dict_ready, cmd_secure_channel_ack,
}
use osynaptic_fx.FusionPacket.{decode_meta}
use osynaptic_fx.SecureSession.{Store}
use osynaptic_fx.IdAllocator.Reals.{Float}
use osynaptic_fx.IdAllocator.{Allocator}
use osynaptic_fx.IdAllocator.Loop.{allocate_returns}
use osynaptic_fx.HandshakeDispatch.{
  clear_result, write_nack, resp_max, malformed_id_request, no_allocator, Ctx, Outcome, Result,
  Reject, answer_ctrl, classify_dispatch, is_data, granted_outcome, is_reply, answer_id_request,
  outcome, with_store, answer_dict_ready, answer_channel_ack, write_granted, id_pool_exhausted,
  set_reject, answer_ping, answer_time_request,
}
use osynaptic_fx.HandshakeDispatch.Stores.{
  AreValid, answer_data-AreValid, answer_dict_ready-AreValid, answer_channel_ack-AreValid,
}
use osynaptic_fx.HandshakeDispatch.Success.{
  Agrees, agrees, Agrees-if, ok-write_response, ok-write_built, answer_data-Agrees,
}

module _ (F : Float) where
  -- What an outcome must be: a store that makes sense still does, and the value returned is `ok`.
  pub record IsGood (o : Outcome F) : Type 0 where
    pub stores : AreValid o.ctx.secure_store
    pub agrees : o.returned ≡ o.result.ok

  -- The table and the first id of an allocator that is there fit 32 bits.
  unfoldable pub Fits : Option (Allocator F) → Type 0
  Fits none = Unit
  Fits (some a) = (a.start_id < 2 ^ 32) × (length a.entries < 2 ^ 32)

  IsGood-outcome :
      (ctx : Ctx F) (r : Result) (b : Bool)
      → AreValid ctx.secure_store
      → b ≡ r.ok
      → IsGood (outcome F ctx (r, b))
  IsGood-outcome ctx r b v h = record { stores = v; agrees = h }

  IsGood-with_store :
      (ctx : Ctx F) (p : Option Store × Result × Bool)
      → AreValid p.0
      → Agrees p
      → IsGood (with_store F ctx p)
  IsGood-with_store ctx (st, r, b) v h = record { stores = v; agrees = h.same }

  -- A good outcome is there.
  pub record Returns (x : Option (Outcome F)) : Type 0 where
    pub outcome_of : Outcome F
    pub is_there : x ≡ some outcome_of
    pub good : IsGood outcome_of

  Returns-if :
      (b : Bool) {x y : Option (Outcome F)} → Returns x → Returns y → Returns (if b then x else y)
  Returns-if true h k = h
  Returns-if false h k = k

  returns : {o : Outcome F} → IsGood o → Returns (some o)
  returns {o} h = record { outcome_of = o; is_there = refl; good = h }

  IsGood-nack :
      (ctx : Ctx F) (r : Result) (reject : Reject) (seq : ℕ) (reason : List ℕ)
      → AreValid ctx.secure_store
      → IsGood (outcome F ctx (write_nack (set_reject r reject) seq reason, false))
  IsGood-nack ctx r reject seq reason v = record {
    stores = v;
    agrees = sym (ok-write_built (set_reject r reject) (build_nack seq reason (some resp_max)));
  }

  ok-write_granted : (r : Result) (seq : ℕ) (aid : Option ℕ) → (write_granted r seq aid).ok ≡ r.ok
  ok-write_granted r seq none = ok-write_built r (build_nack seq id_pool_exhausted (some 16))
  ok-write_granted r seq (some aid) = ok-write_built r (build_id_assign seq aid (some 16))

  granted-Returns :
      (ctx : Ctx F) (seq : ℕ) (r : Result) (a : Allocator F) (aid : Option ℕ)
      → AreValid ctx.secure_store
      → r.ok ≡ true
      → Returns (granted_outcome F ctx seq r (some (a, aid)))
  granted-Returns ctx seq r a aid v h =
      returns (record { stores = v; agrees = sym (ok-write_granted r seq aid ∙ h) })

  answer_id_request-Returns :
      (ctx : Ctx F) (packet : List ℕ) (allocator : Option (Allocator F)) (r : Result)
      → AreValid ctx.secure_store
      → Fits allocator
      → r.ok ≡ true
      → Returns (answer_id_request F ctx packet allocator r)
  unfolding Fits
  answer_id_request-Returns ctx packet none r v f h =
      Returns-if (ltb (length packet) 3)
        (returns (IsGood-nack ctx r Reject.malformed 0 malformed_id_request v))
        (returns (IsGood-nack ctx r Reject.unsupported (read_u16 packet 1) no_allocator v))
  answer_id_request-Returns ctx packet (some a) r v f h =
      let ((a', aid), got) = allocate_returns F a ctx.now_ts f.0 f.1 in
      Returns-if (ltb (length packet) 3)
        (returns (IsGood-nack ctx r Reject.malformed 0 malformed_id_request v))
        (subst (λ x. Returns (granted_outcome F ctx (read_u16 packet 1) r x)) (sym got)
          (granted-Returns ctx (read_u16 packet 1) r a' aid v h))

  answer_ping-Agrees :
      (ctx : Ctx F) (packet : List ℕ) (r : Result)
      → AreValid ctx.secure_store
      → r.ok ≡ true
      → IsGood (outcome F ctx (answer_ping packet r))
  answer_ping-Agrees ctx packet r v h = record {
    stores = v;
    agrees = elim (Bool-cases (length packet == 3)) [
      | inl ok ↦ rw ok (sym (ok-write_response r (cmd_pong ∷ u16_bytes (read_u16 packet 1)) ∙ h))
      | inr bad ↦ rw bad refl
    ];
  }

  answer_time_request-Agrees :
      (ctx : Ctx F) (packet : List ℕ) (r : Result)
      → AreValid ctx.secure_store
      → r.ok ≡ true
      → IsGood (outcome F ctx (answer_time_request packet ctx.now_ts r))
  answer_time_request-Agrees ctx packet r v h = record {
    stores = v;
    agrees = elim (Bool-cases (length packet == 3)) [
      | inl ok ↦ rw ok (
          sym (ok-write_built r (build_time_response (read_u16 packet 1) ctx.now_ts (some 16)) ∙ h))
      | inr bad ↦ rw bad refl
    ];
  }

  answer_dict_ready-Agrees :
      (st : Option Store) (packet : List ℕ) (now : ℕ) (r : Result)
      → r.ok ≡ true
      → Agrees (answer_dict_ready st packet now r)
  answer_dict_ready-Agrees none packet now r h = agrees refl
  answer_dict_ready-Agrees (some st) packet now r h =
      Agrees-if (not (length packet == 13)) (agrees refl) (agrees (sym h))

  answer_channel_ack-Agrees :
      (st : Option Store) (packet : List ℕ) (now : ℕ) (r : Result)
      → r.ok ≡ true
      → Agrees (answer_channel_ack st packet now r)
  answer_channel_ack-Agrees none packet now r h = agrees refl
  answer_channel_ack-Agrees (some st) packet now r h =
      Agrees-if (not (length packet == 5)) (agrees refl) (agrees (sym h))

  answer_ctrl-Returns :
      (ctx : Ctx F) (cmd : ℕ) (packet : List ℕ) (r : Result)
      → AreValid ctx.secure_store
      → Fits ctx.id_allocator
      → r.ok ≡ true
      → Returns (answer_ctrl F ctx cmd packet r)
  unfolding answer_ctrl
  answer_ctrl-Returns ctx cmd packet r v f h =
      Returns-if (cmd == cmd_ping) (returns (answer_ping-Agrees ctx packet r v h)) (
        Returns-if (cmd == cmd_time_request) (returns (answer_time_request-Agrees ctx packet r v h))
          (Returns-if (cmd == cmd_id_request)
            (answer_id_request-Returns ctx packet ctx.id_allocator r v f h)
            (Returns-if (cmd == cmd_secure_dict_ready)
              (returns (
                IsGood-with_store ctx (answer_dict_ready ctx.secure_store packet ctx.now_ts r)
                  (answer_dict_ready-AreValid ctx.secure_store packet ctx.now_ts r v)
                  (answer_dict_ready-Agrees ctx.secure_store packet ctx.now_ts r h)))
              (Returns-if (cmd == cmd_secure_channel_ack)
                (returns (
                  IsGood-with_store ctx (answer_channel_ack ctx.secure_store packet ctx.now_ts r)
                    (answer_channel_ack-AreValid ctx.secure_store packet ctx.now_ts r v)
                    (answer_channel_ack-Agrees ctx.secure_store packet ctx.now_ts r h)))
                (Returns-if (is_reply cmd) (returns (IsGood-outcome ctx r true v (sym h)))
                  (returns (IsGood-outcome ctx _ false v refl)))))))

  -- Whatever packet arrives, the handler gives an outcome, if the allocator's table and first id fit
  -- 32 bits: the value returned is `ok` of the result, and a session store in which no id has two slots
  -- and every session makes sense is still one.
  pub classify_dispatch-Returns :
      (ctx : Ctx F) (packet : List ℕ)
      → AreValid ctx.secure_store
      → Fits ctx.id_allocator
      → Returns (classify_dispatch F ctx packet)
  unfolding classify_dispatch
  classify_dispatch-Returns ctx [] v f = returns (IsGood-outcome ctx clear_result false v refl)
  classify_dispatch-Returns ctx (cmd ∷ rest) v f =
      let base_cmd = normalize_data cmd in
      Returns-if (is_data base_cmd)
        (returns (
          IsGood-with_store ctx _
            (answer_data-AreValid ctx.secure_store ctx.now_ts (decode_meta (cmd ∷ rest))
              (cmd == base_cmd) _ v)
            (answer_data-Agrees ctx.secure_store ctx.now_ts (decode_meta (cmd ∷ rest))
              (cmd == base_cmd) _)))
        (answer_ctrl-Returns ctx cmd (cmd ∷ rest) _ v f refl)
