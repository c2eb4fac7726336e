-- ===== src/HandshakeDispatch/Handshake.antt =====
-- The handshake that src/osfx_handshake_dispatch.c drives, at both ends.
use osynaptic_fx.Prelude.{
  ℕ, ◌+◌, ◌%◌, ◌^◌, ◌<◌, ◌≤◌, ◌≡◌, refl, sym, ap, ◌∙◌, ◌==◌, true, false, List, ◌∷◌, ◌++◌, length,
  some, arith, inl, inr,
}
use mathlib.Core.Option.{some-injective}
use osynaptic_fx.Prelude.Words.{IsByte, IsBytes, u32_bytes, u64_bytes}
use osynaptic_fx.Prelude.Words.Read.{read_u32_lem, read_u64_lem}
use osynaptic_fx.HandshakeCmd.{normalize_data, cmd_secure_dict_ready, build_secure_dict_ready}
use osynaptic_fx.HandshakeCmd.Variants.{IsDataCommand}
use osynaptic_fx.FusionPacket.{Meta, decode_meta, encode_full}
use osynaptic_fx.FusionPacket.Roundtrip.{meta_for, decode_meta-encode_full}
use osynaptic_fx.SecureSession.{
  Store, accept, check_and_update_timestamp, should_encrypt, confirm_dict, derive_key,
  note_plaintext_sent,
}
use osynaptic_fx.SecureSession.Lookup.{before}
use osynaptic_fx.SecureSession.Keys.{HasKey, keys_agree, confirm_ok_again}
use osynaptic_fx.IdAllocator.Reals.{Float}
use osynaptic_fx.HandshakeDispatch.{
  Ctx, Outcome, Kind, answer_plain, answer_checked, answer_ctrl, classify_dispatch, is_data,
  with_store, clear_result,
}
use osynaptic_fx.HandshakeDispatch.Sessions.{check-own, check-unkeyed, check-pending}
use osynaptic_fx.HandshakeDispatch.Data.{data_outcome, classify_data}

plain_is_data :
    (cmd : ℕ)
    → IsDataCommand cmd
    → (is_data (normalize_data cmd) ≡ true) × ((cmd == normalize_data cmd) ≡ true)
unfolding normalize_data
plain_is_data cmd (inl e) = rw e (refl, refl)
plain_is_data cmd (inr (inl e)) = rw e (refl, refl)
plain_is_data cmd (inr (inr e)) = rw e (refl, refl)

plain-IsByte : (cmd : ℕ) → IsDataCommand cmd → IsByte cmd
plain-IsByte cmd h = omega arith

module _ (F : Float) where
  -- The response that a gateway gives to a plaintext packet, at the node that gets it.
  dict_ready_confirms :
      (ctx : Ctx F) (st : Store) (aid ts : ℕ)
      → ctx.secure_store ≡ some st
      → aid < 2 ^ 32
      → ts < 2 ^ 64
      → (o : Outcome F) × (classify_dispatch F ctx
            (cmd_secure_dict_ready ∷ u32_bytes aid ++ u64_bytes ts)
          ≡ some o)
        × (o.ctx.secure_store ≡ some (confirm_dict st aid ts ctx.now_ts).0)
  unfolding classify_dispatch answer_ctrl normalize_data
  dict_ready_confirms ctx st aid ts hs ha ht =
      let packet : List ℕ = cmd_secure_dict_ready ∷ u32_bytes aid ++ u64_bytes ts in
      let r = record clear_result {
        cmd = cmd_secure_dict_ready;
        base_cmd = cmd_secure_dict_ready;
        kind = Kind.ctrl;
        ok = true;
      } in
      (
        with_store F ctx (some (confirm_dict st aid ts ctx.now_ts).0, r, true),
        ground (
          arith,
          hs,
          read_u32_lem packet 1 aid refl refl refl refl,
          read_u64_lem packet 5 ts refl refl refl refl refl refl refl refl,
        ),
        refl,
      )

  -- The outcome for a plaintext packet from a node without a key.
  plain_confirms :
      (ctx : Ctx F) (st st1 : Store) (cmd : ℕ) (meta : Meta)
      → check_and_update_timestamp st meta.source_aid meta.timestamp_raw ctx.now_ts ≡ (st1, accept)
      → (cmd == normalize_data cmd) ≡ true
      → should_encrypt st1 meta.source_aid ≡ false
      → ((data_outcome F ctx st meta cmd).ctx.secure_store
          ≡ some (confirm_dict st1 meta.source_aid meta.timestamp_raw ctx.now_ts).0)
        × ((data_outcome F ctx st meta cmd).result.response
            ≡ cmd_secure_dict_ready ∷ u32_bytes meta.source_aid ++ u64_bytes meta.timestamp_raw)
  unfolding answer_checked answer_plain build_secure_dict_ready
  plain_confirms ctx st st1 cmd meta hc hp hk = rw (hc, hp, hk) (refl, refl)

  -- A node sends a plaintext data packet with an id of 32 and a timestamp of 48 bits, and can note it;
  -- the gateway, which has no key for it and no
  -- pending one, and accepts its timestamp, answers; the node handles that answer. Then both encrypt
  -- with the same key, the one that the id and the timestamp give.
  pub handshake_agrees :
      (gateway_ctx node_ctx : Ctx F) (gateway node : Store) (cmd aid tid ts now cap : ℕ)
      (body rest : List ℕ)
      → IsDataCommand cmd
      → aid < 2 ^ 32
      → IsByte tid
      → ts < 2 ^ 48
      → IsBytes body
      → 16 + length body ≤ cap
      → encode_full cmd aid tid ts body (some cap) ≡ some (cmd ∷ rest)
      → gateway_ctx.secure_store ≡ some gateway
      → should_encrypt gateway aid ≡ false
      → (before gateway aid).pending_key_set ≡ false
      → (check_and_update_timestamp gateway aid ts gateway_ctx.now_ts).1 ≡ accept
      → (note_plaintext_sent node aid ts now).1 ≡ true
      → node_ctx.secure_store ≡ some (note_plaintext_sent node aid ts now).0
      → (answer : Outcome F) × (reply : Outcome F) × (g : Store) × (n : Store) × (classify_dispatch
            F gateway_ctx
            (cmd ∷ rest)
          ≡ some answer)
        × (classify_dispatch F node_ctx answer.result.response ≡ some reply)
        × (answer.ctx.secure_store ≡ some g)
        × (reply.ctx.secure_store ≡ some n)
        × HasKey g aid (derive_key aid ts)
        × HasKey n aid (derive_key aid ts)
  handshake_agrees gateway_ctx node_ctx gateway node cmd aid tid ts now cap body rest hd ha ht hts
        hb hcap sent hg unkeyed none_pending accepted ok_note hn =
      let st1 = (check_and_update_timestamp gateway aid ts gateway_ctx.now_ts).0 in
      let own = (check-own gateway aid ts gateway_ctx.now_ts accepted).0 in
      let ok_confirm = confirm_ok_again st1 aid ts gateway_ctx.now_ts _ own in
      let pending = check-pending gateway st1 aid ts gateway_ctx.now_ts own ∙ none_pending in
      let keys =
        keys_agree node st1 aid ts ts now node_ctx.now_ts gateway_ctx.now_ts ok_note ok_confirm
          pending in
      let (reply, replied, n) = dict_ready_confirms node_ctx _ aid ts hn ha (omega arith) in
      let (packet, made, size, decoded, placed) =
        decode_meta-encode_full cmd aid tid ts body cap (plain-IsByte cmd hd) ha ht hb hcap in
      let meta = record (meta_for cmd aid tid ts (length body) true) { timestamp_raw = ts } in
      let whole : ts % 2 ^ 48 ≡ ts = omega arith in
      let arrived : decode_meta (cmd ∷ rest) ≡ some meta =
        ap decode_meta (some-injective _ _ (sym sent ∙ made))
        ∙ decoded
        ∙ ap (λ t. some (record (meta_for cmd aid tid ts (length body) true) { timestamp_raw = t }))
            whole in
      let kind = plain_is_data cmd hd in
      let effects =
        plain_confirms gateway_ctx gateway st1 cmd meta (ap (λ v. (st1, v)) accepted) kind.1
          (check-unkeyed gateway st1 aid ts gateway_ctx.now_ts own unkeyed) in
      let first = data_outcome F gateway_ctx gateway meta cmd in
      (
        first,
        reply,
        _,
        _,
        classify_data F gateway_ctx gateway cmd rest meta hg kind.0 arrived refl,
        ap (classify_dispatch F node_ctx) effects.1 ∙ replied,
        effects.0,
        n,
        keys.1,
        keys.0,
      )
