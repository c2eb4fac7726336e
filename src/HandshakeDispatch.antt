-- ===== src/HandshakeDispatch.antt =====
-- src/osfx_handshake_dispatch.c: what a gateway does with a packet that arrives. The session store and
-- the id allocator that the context points to are passed in and returned. A null context is one
-- whose pointers are null and whose time is 0, for the code reads nothing else of it.
pub mod Stores
pub mod Success
pub mod Safety
pub mod Sessions
pub mod Data
pub mod Secure
pub mod Requests
pub mod Handshake
mod Tests
use osynaptic_fx.Prelude.{
  ℕ, ◌+◌, ◌==◌, ltb, leb, if◌then◌else◌, Bool, true, false, not, ◌&&◌, ◌||◌, List, [], ◌∷◌, ◌++◌,
  length, Option, none, some,
}
use osynaptic_fx.Prelude.Words.{byte_at, u16_bytes, read_u16, read_u32, read_u64}
use osynaptic_fx.HandshakeCmd.{
  normalize_data, build_nack, build_id_assign, build_time_response, build_secure_dict_ready,
  build_secure_channel_ack, cmd_data_full, cmd_data_diff, cmd_data_heart, cmd_id_request,
  cmd_id_assign, cmd_handshake_ack, cmd_handshake_nack, cmd_ping, cmd_pong, cmd_time_request,
  cmd_time_response, cmd_secure_dict_ready, cmd_secure_channel_ack,
}
use osynaptic_fx.FusionPacket.{Meta, decode_meta}
use osynaptic_fx.SecureSession.{
  Store, Verdict, check_and_update_timestamp, should_encrypt, confirm_dict, is_channel_confirmed,
  mark_channel,
}
use osynaptic_fx.IdAllocator.Reals.{Float}
use osynaptic_fx.IdAllocator.{Allocator}
use osynaptic_fx.IdAllocator.Calls.{allocate}

abbrev pub resp_max : ℕ
resp_max = 128

pub data Kind : Type 0 where
  error data_packet ctrl unknown : Kind

pub data Reject : Type 0 where
  no_reject malformed crc replayed late no_session unsupported : Reject

-- `osfx_hs_result`; `response_len` is the length of `response`.
pub record Result : Type 0 where
  pub kind : Kind
  pub cmd : ℕ
  pub base_cmd : ℕ
  pub source_aid : ℕ
  pub ok : Bool
  pub reject : Reject
  pub has_response : Bool
  pub response : List ℕ

-- `clear_result`.
abbrev pub clear_result : Result
clear_result = record {
  kind = Kind.error;
  cmd = 0;
  base_cmd = 0;
  source_aid = 0;
  ok = false;
  reject = Reject.no_reject;
  has_response = false;
  response = [];
}

abbrev pub set_reject : Result → Reject → Result
set_reject r reject = record r { ok = false; reject = reject }

abbrev pub write_response : Result → List ℕ → Result
write_response r bytes =
    if ltb resp_max (length bytes) then r else record r { response = bytes; has_response = true }

-- `if (n > 0) write_response(out_result, resp, n);` after a builder that returned `n`.
abbrev pub write_built : Result → Option (List ℕ) → Result
write_built r none = r
write_built r (some bytes) = write_response r bytes

-- `maybe_write_nack_seq`, whose own result no caller reads.
abbrev pub write_nack : Result → ℕ → List ℕ → Result
write_nack r seq reason = write_built r (build_nack seq reason (some resp_max))

-- The reasons "MALFORMED_ID_REQUEST", "NO_ALLOCATOR" and "ID_POOL_EXHAUSTED".
abbrev pub malformed_id_request : List ℕ
malformed_id_request =
    77 ∷ 65 ∷ 76 ∷ 70 ∷ 79 ∷ 82 ∷ 77 ∷ 69 ∷ 68 ∷ 95 ∷ 73 ∷ 68 ∷ 95 ∷ 82 ∷ 69 ∷ 81 ∷ 85 ∷ 69 ∷ 83
    ∷ 84 ∷ []

abbrev pub no_allocator : List ℕ
no_allocator = 78 ∷ 79 ∷ 95 ∷ 65 ∷ 76 ∷ 76 ∷ 79 ∷ 67 ∷ 65 ∷ 84 ∷ 79 ∷ 82 ∷ []

abbrev pub id_pool_exhausted : List ℕ
id_pool_exhausted =
    73 ∷ 68 ∷ 95 ∷ 80 ∷ 79 ∷ 79 ∷ 76 ∷ 95 ∷ 69 ∷ 88 ∷ 72 ∷ 65 ∷ 85 ∷ 83 ∷ 84 ∷ 69 ∷ 68 ∷ []

-- The session store, the result and the value that the code returns.
abbrev pub Answer : Type 0
Answer = Store × Result × Bool

-- A plaintext packet whose timestamp was accepted: its source is confirmed, unless it has a key.
unfoldable pub answer_plain : Store → ℕ → Meta → Result → Answer
answer_plain st now meta r = if should_encrypt st meta.source_aid then (st, r, true) else (
  (confirm_dict st meta.source_aid meta.timestamp_raw now).0,
  write_built r (build_secure_dict_ready meta.source_aid meta.timestamp_raw (some 16)),
  true,
)

-- A secure packet whose timestamp was accepted.
unfoldable pub answer_secure : Store → ℕ → Meta → Result → Answer
answer_secure st now meta r =
    if not (should_encrypt st meta.source_aid)
    then (st, set_reject r Reject.no_session, false)
    else if is_channel_confirmed st meta.source_aid
    then (st, r, true)
    else (
      (mark_channel st meta.source_aid now).0,
      write_built r (build_secure_channel_ack meta.source_aid (some 8)),
      true,
    )

-- From the answer of the guard on timestamps on; `plain` is `cmd == base_cmd`.
unfoldable pub answer_checked : Store → Verdict → ℕ → Meta → Bool → Result → Answer
answer_checked st Verdict.replay now meta plain r = (st, set_reject r Reject.replayed, false)
answer_checked st Verdict.out_of_order now meta plain r = (st, set_reject r Reject.late, false)
answer_checked st Verdict.accept now meta plain r =
    if plain then answer_plain st now meta r else answer_secure st now meta r

unfoldable pub answer_data :
    Option Store → ℕ → Option Meta → Bool → Result → Option Store × Result × Bool
answer_data st now none plain r = (st, set_reject r Reject.malformed, false)
answer_data none now (some meta) plain r =
    let named = record r { source_aid = meta.source_aid } in
    if not meta.crc16_ok
    then (none, set_reject named Reject.crc, false)
    else (none, record named { ok = true }, true)
answer_data (some st) now (some meta) plain r =
    let named = record r { source_aid = meta.source_aid } in
    let check = check_and_update_timestamp st meta.source_aid meta.timestamp_raw now in
    let answer = answer_checked check.0 check.1 now meta plain (record named { ok = true }) in
    if not meta.crc16_ok
    then (some st, set_reject named Reject.crc, false)
    else (some answer.0, answer.1, answer.2)

-- `cmd == base_cmd` is asked only of these.
abbrev pub is_data : ℕ → Bool
is_data base_cmd =
    base_cmd == cmd_data_full || (base_cmd == cmd_data_diff || base_cmd == cmd_data_heart)

-- Commands that are taken note of and nothing more.
abbrev pub is_reply : ℕ → Bool
is_reply cmd =
    cmd == cmd_handshake_ack
    || (cmd == cmd_handshake_nack
        || (cmd == cmd_id_assign || (cmd == cmd_time_response || cmd == cmd_pong)))

abbrev pub answer_ping : List ℕ → Result → Result × Bool
answer_ping packet r =
    if not (length packet == 3)
    then (set_reject r Reject.malformed, false)
    else (write_response r (cmd_pong ∷ u16_bytes (read_u16 packet 1)), true)

abbrev pub answer_time_request : List ℕ → ℕ → Result → Result × Bool
answer_time_request packet now r =
    if not (length packet == 3)
    then (set_reject r Reject.malformed, false)
    else (write_built r (build_time_response (read_u16 packet 1) now (some 16)), true)

abbrev pub answer_dict_ready : Option Store → List ℕ → ℕ → Result → Option Store × Result × Bool
answer_dict_ready none packet now r = (none, set_reject r Reject.malformed, false)
answer_dict_ready (some st) packet now r =
    if not (length packet == 13)
    then (some st, set_reject r Reject.malformed, false)
    else (some (confirm_dict st (read_u32 packet 1) (read_u64 packet 5) now).0, r, true)

abbrev pub answer_channel_ack : Option Store → List ℕ → ℕ → Result → Option Store × Result × Bool
answer_channel_ack none packet now r = (none, set_reject r Reject.malformed, false)
answer_channel_ack (some st) packet now r =
    if not (length packet == 5)
    then (some st, set_reject r Reject.malformed, false)
    else (some (mark_channel st (read_u32 packet 1) now).0, r, true)

-- The response to a request for an id, by the id that was granted.
abbrev pub write_granted : Result → ℕ → Option ℕ → Result
write_granted r seq none = write_built r (build_nack seq id_pool_exhausted (some 16))
write_granted r seq (some aid) = write_built r (build_id_assign seq aid (some 16))

module _ (F : Float) where
  pub record Ctx : Type 0 where
    pub secure_store : Option Store
    pub id_allocator : Option (Allocator F)
    pub now_ts : ℕ

  -- The context, the result and the value that the code returns.
  pub record Outcome : Type 0 where
    pub ctx : Ctx
    pub result : Result
    pub returned : Bool

  abbrev pub outcome : Ctx → Result × Bool → Outcome
  outcome ctx (r, returned) = record { ctx = ctx; result = r; returned = returned }

  abbrev pub with_store : Ctx → Option Store × Result × Bool → Outcome
  with_store ctx (st, r, returned) = record {
    ctx = record ctx { secure_store = st };
    result = r;
    returned = returned;
  }

  -- `none` if the loop of the allocator runs out of fuel.
  abbrev pub granted_outcome : Ctx → ℕ → Result → Option (Allocator F × Option ℕ) → Option Outcome
  granted_outcome ctx seq r none = none
  granted_outcome ctx seq r (some (a, aid)) =
      some (outcome (record ctx { id_allocator = some a }) (write_granted r seq aid, true))

  abbrev pub answer_id_request : Ctx → List ℕ → Option (Allocator F) → Result → Option Outcome
  answer_id_request ctx packet allocator r =
      if ltb (length packet) 3
      then some
          (outcome ctx (write_nack (set_reject r Reject.malformed) 0 malformed_id_request, false))
      else elim allocator [
        | none ↦ some (
            outcome ctx (
              write_nack (set_reject r Reject.unsupported) (read_u16 packet 1) no_allocator,
              false,
            ))
        | some a ↦ granted_outcome ctx (read_u16 packet 1) r (allocate F a ctx.now_ts)
      ]

  unfoldable pub answer_ctrl : Ctx → ℕ → List ℕ → Result → Option Outcome
  answer_ctrl ctx cmd packet r =
      if cmd == cmd_ping
      then some (outcome ctx (answer_ping packet r))
      else if cmd == cmd_time_request
      then some (outcome ctx (answer_time_request packet ctx.now_ts r))
      else if cmd == cmd_id_request
      then answer_id_request ctx packet ctx.id_allocator r
      else if cmd == cmd_secure_dict_ready
      then some (with_store ctx (answer_dict_ready ctx.secure_store packet ctx.now_ts r))
      else if cmd == cmd_secure_channel_ack
      then some (with_store ctx (answer_channel_ack ctx.secure_store packet ctx.now_ts r))
      else if is_reply cmd
      then some (outcome ctx (r, true))
      else some
          (outcome ctx (set_reject (record r { kind = Kind.unknown }) Reject.unsupported, false))

  -- `osfx_hs_classify_dispatch`, with a result to write to.
  unfoldable pub classify_dispatch : Ctx → List ℕ → Option Outcome
  classify_dispatch ctx [] = some (outcome ctx (clear_result, false))
  classify_dispatch ctx (cmd ∷ rest) =
      let packet = cmd ∷ rest in
      let base_cmd = normalize_data cmd in
      let r = record clear_result { cmd = cmd; base_cmd = base_cmd } in
      if is_data base_cmd
      then some (
          with_store ctx (
            answer_data ctx.secure_store ctx.now_ts (decode_meta packet) (cmd == base_cmd)
              (record r { kind = Kind.data_packet })))
      else answer_ctrl ctx cmd packet (record r { kind = Kind.ctrl; ok = true })
