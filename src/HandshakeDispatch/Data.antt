-- ===== src/HandshakeDispatch/Data.antt =====
-- Data packets in src/osfx_handshake_dispatch.c: what is refused, and what is accepted.
use mathlib.Core.Option.{some-injective}
use osynaptic_fx.Prelude.{
  ℕ, ◌≡◌, ◌≢◌, ◌⊎◌, refl, sym, ap, ◌∙◌, subst, ◌==◌, Bool, true, false, List, ◌∷◌, none, some,
  arith, Option-cases, Bool-cases, inl, inr,
}
use osynaptic_fx.HandshakeCmd.{normalize_data}
use osynaptic_fx.FusionPacket.{Meta, decode_meta}
use osynaptic_fx.SecureSession.{
  Session, Store, Verdict, accept, replay, check_and_update_timestamp, should_encrypt,
  is_channel_confirmed, session_of, timestamped, confirmed, marked,
}
use osynaptic_fx.SecureSession.Lookup.{before}
use osynaptic_fx.IdAllocator.Reals.{Float}
use osynaptic_fx.HandshakeDispatch.{
  Ctx, Outcome, Result, Reject, Kind, answer_plain, answer_secure, answer_checked, answer_data,
  classify_dispatch, is_data, with_store, clear_result, set_reject,
}
use osynaptic_fx.HandshakeDispatch.Sessions.{check-own, confirm-own, mark-own, check_again}

-- Whatever is done after a timestamp was accepted, it stays the last one of the session.
answer_checked-own :
    (st : Store) (now : ℕ) (meta : Meta) (plain : Bool) (r : Result) (s : Session)
    → session_of st meta.source_aid ≡ some s
    → (t : Session) × (session_of (answer_checked st accept now meta plain r).0 meta.source_aid
        ≡ some t)
      × (t.last_data_timestamp ≡ s.last_data_timestamp)
unfolding answer_checked answer_plain answer_secure
answer_checked-own st now meta true r s e = elim (Bool-cases (should_encrypt st meta.source_aid)) [
  | inl keyed ↦ (s, rw keyed e, refl)
  | inr plain ↦ (
    confirmed meta.source_aid meta.timestamp_raw now s,
    rw plain (confirm-own st meta.source_aid meta.timestamp_raw now s e),
    ground arith,
  )
]
answer_checked-own st now meta false r s e = elim (Bool-cases (should_encrypt st meta.source_aid)) [
  | inr plain ↦ (s, rw plain e, refl)
  | inl keyed ↦ elim (Bool-cases (is_channel_confirmed st meta.source_aid)) [
    | inl known ↦ (s, rw (keyed, known) e, refl)
    | inr new ↦ (marked now s, rw (keyed, new) (mark-own st meta.source_aid now s e), refl)
  ]
]

-- An answer after which the node has a key and a confirmed channel, if it is a success.
pub answer_secure-keyed :
    (st : Store) (now : ℕ) (meta : Meta) (r : Result)
    → (answer_secure st now meta r).2 ≡ true
    → (should_encrypt (answer_secure st now meta r).0 meta.source_aid ≡ true)
      × (is_channel_confirmed (answer_secure st now meta r).0 meta.source_aid ≡ true)
unfolding answer_secure should_encrypt is_channel_confirmed
answer_secure-keyed st now meta r ok = elim (Option-cases (session_of st meta.source_aid)) [
  | inl gone ↦ ground arith
  | inr (s, e) ↦ ground (arith, e, mark-own st meta.source_aid now s e)
]

only_accept :
    (st : Store) (v : Verdict) (now : ℕ) (meta : Meta) (plain : Bool) (r : Result)
    → (answer_checked st v now meta plain r).2 ≡ true
    → v ≡ accept
unfolding answer_checked
only_accept st Verdict.accept now meta plain r h = refl
only_accept st Verdict.replay now meta plain r h = cc
only_accept st Verdict.out_of_order now meta plain r h = cc

module _ (F : Float) where
  abbrev pub data_result : ℕ → Result
  data_result cmd = record clear_result {
    cmd = cmd;
    base_cmd = normalize_data cmd;
    kind = Kind.data_packet;
  }

  -- The outcome for a data packet whose CRC-16 fits, at a gateway with a session store.
  abbrev pub data_outcome : Ctx F → Store → Meta → ℕ → Outcome F
  data_outcome ctx st meta cmd =
      let check = check_and_update_timestamp st meta.source_aid meta.timestamp_raw ctx.now_ts in
      let r = record (data_result cmd) { source_aid = meta.source_aid; ok = true } in
      let answer = answer_checked check.0 check.1 ctx.now_ts meta (cmd == normalize_data cmd) r in
      with_store F ctx (some answer.0, answer.1, answer.2)

  pub classify_data :
      (ctx : Ctx F) (st : Store) (cmd : ℕ) (rest : List ℕ) (meta : Meta)
      → ctx.secure_store ≡ some st
      → is_data (normalize_data cmd) ≡ true
      → decode_meta (cmd ∷ rest) ≡ some meta
      → meta.crc16_ok ≡ true
      → classify_dispatch F ctx (cmd ∷ rest) ≡ some (data_outcome ctx st meta cmd)
  unfolding classify_dispatch answer_data
  classify_data ctx st cmd rest meta hs hd hm hc = ground (arith, hs, hd, hm, hc)

  -- A data packet that is not one, or whose CRC-16 does not fit, is refused without a response, and
  -- neither the session store nor the allocator changes.
  pub classify_dispatch_damaged :
      (ctx : Ctx F) (cmd : ℕ) (rest : List ℕ)
      → is_data (normalize_data cmd) ≡ true
      → (decode_meta (cmd ∷ rest) ≡ none)
        ⊎ ((meta : Meta) × (decode_meta (cmd ∷ rest) ≡ some meta) × (meta.crc16_ok ≡ false))
      → (o : Outcome F) × (classify_dispatch F ctx (cmd ∷ rest) ≡ some o)
        × (o.ctx ≡ ctx)
        × (o.returned ≡ false)
        × (o.result.has_response ≡ false)
  unfolding classify_dispatch answer_data
  classify_dispatch_damaged ctx cmd rest hd (inl none_there) = (
    with_store F ctx (ctx.secure_store, set_reject (data_result cmd) Reject.malformed, false),
    ground (arith, hd, none_there),
    refl,
    refl,
    refl,
  )
  classify_dispatch_damaged ctx cmd rest hd (inr (meta, hm, hc)) =
      let r = record (data_result cmd) { source_aid = meta.source_aid } in
      (
        with_store F ctx (ctx.secure_store, set_reject r Reject.crc, false),
        elim (Option-cases ctx.secure_store) [
          | inl no_store ↦ ground (arith, hd, hm, hc, no_store)
          | inr (st, stored) ↦ ground (arith, hd, hm, hc, stored)
        ],
        refl,
        refl,
        refl,
      )

  pub returned_data :
      (ctx : Ctx F) (st : Store) (cmd : ℕ) (rest : List ℕ) (meta : Meta) (o : Outcome F)
      → ctx.secure_store ≡ some st
      → is_data (normalize_data cmd) ≡ true
      → decode_meta (cmd ∷ rest) ≡ some meta
      → meta.crc16_ok ≡ true
      → classify_dispatch F ctx (cmd ∷ rest) ≡ some o
      → data_outcome ctx st meta cmd ≡ o
  returned_data ctx st cmd rest meta o hs hd hm hc e =
      some-injective _ _ (sym (classify_data ctx st cmd rest meta hs hd hm hc) ∙ e)

  pub verdict_of_success :
      (ctx : Ctx F) (st : Store) (cmd : ℕ) (meta : Meta)
      → (data_outcome ctx st meta cmd).returned ≡ true
      → (check_and_update_timestamp st meta.source_aid meta.timestamp_raw ctx.now_ts).1 ≡ accept
  unfolding answer_checked
  verdict_of_success ctx st cmd meta ok =
      only_accept _ _ ctx.now_ts meta (cmd == normalize_data cmd) _ ok

  outcome_of_replay :
      (ctx : Ctx F) (st : Store) (cmd : ℕ) (meta : Meta)
      → (check_and_update_timestamp st meta.source_aid meta.timestamp_raw ctx.now_ts).1 ≡ replay
      → ((data_outcome ctx st meta cmd).returned ≡ false)
        × ((data_outcome ctx st meta cmd).result.reject ≡ Reject.replayed)
        × ((data_outcome ctx st meta cmd).result.has_response ≡ false)
  unfolding answer_checked
  outcome_of_replay ctx st cmd meta h = rw h (refl, refl, refl)

  -- At a gateway with a session store, a data packet with a positive timestamp that was accepted is
  -- refused as a replay if it comes again, at whatever time.
  pub classify_dispatch_twice :
      (ctx : Ctx F) (st : Store) (cmd : ℕ) (rest : List ℕ) (meta : Meta) (o : Outcome F) (later : ℕ)
      → ctx.secure_store ≡ some st
      → is_data (normalize_data cmd) ≡ true
      → decode_meta (cmd ∷ rest) ≡ some meta
      → meta.timestamp_raw ≢ 0
      → meta.crc16_ok ≡ true
      → classify_dispatch F ctx (cmd ∷ rest) ≡ some o
      → o.returned ≡ true
      → (again : Outcome F) × (classify_dispatch F (record o.ctx { now_ts = later }) (cmd ∷ rest)
          ≡ some again)
        × (again.returned ≡ false)
        × (again.result.reject ≡ Reject.replayed)
        × (again.result.has_response ≡ false)
  classify_dispatch_twice ctx st cmd rest meta o later hs hd hm ht hc e ok =
      let same = returned_data ctx st cmd rest meta o hs hd hm hc e in
      subst
        (λ x.
          (again : Outcome F) × (classify_dispatch F (record x.ctx { now_ts = later }) (cmd ∷ rest)
            ≡ some again)
          × (again.returned ≡ false)
          × (again.result.reject ≡ Reject.replayed)
          × (again.result.has_response ≡ false))
        same
        (second (verdict_of_success ctx st cmd meta (ap (λ (x : Outcome F). x.returned) same ∙ ok)))
    where
      aid : ℕ
      aid = meta.source_aid

      first : Outcome F
      first = data_outcome ctx st meta cmd

      second :
          (check_and_update_timestamp st aid meta.timestamp_raw ctx.now_ts).1 ≡ accept
          → (again : Outcome F) × (classify_dispatch F
                (record first.ctx { now_ts = later })
                (cmd ∷ rest)
              ≡ some again)
            × (again.returned ≡ false)
            × (again.result.reject ≡ Reject.replayed)
            × (again.result.has_response ≡ false)
      second accepted =
          let st1 = (check_and_update_timestamp st aid meta.timestamp_raw ctx.now_ts).0 in
          let own = check-own st aid meta.timestamp_raw ctx.now_ts accepted in
          let plain = cmd == normalize_data cmd in
          let r = record (data_result cmd) { source_aid = meta.source_aid; ok = true } in
          let (t, kept, last) =
            subst
              (λ v.
                (t : Session) × (session_of (answer_checked st1 v ctx.now_ts meta plain r).0 aid
                  ≡ some t)
                × (t.last_data_timestamp
                    ≡ (timestamped meta.timestamp_raw ctx.now_ts
                        (before st aid)).last_data_timestamp))
              (sym accepted) (answer_checked-own st1 ctx.now_ts meta plain r _ own.0) in
          let st2 =
            (answer_checked st1 (check_and_update_timestamp st aid meta.timestamp_raw ctx.now_ts).1
              ctx.now_ts meta plain r).0 in
          let ctx2 = record first.ctx { now_ts = later } in
          let out =
            outcome_of_replay ctx2 st2 cmd meta
              (check_again st2 aid meta.timestamp_raw later t kept (last ∙ own.1) ht) in
          (
            data_outcome ctx2 st2 meta cmd,
            classify_data ctx2 st2 cmd rest meta refl hd hm hc,
            out.0,
            out.1,
            out.2,
          )
