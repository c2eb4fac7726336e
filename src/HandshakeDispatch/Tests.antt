-- ===== src/HandshakeDispatch/Tests.antt =====
-- src/osfx_handshake_dispatch.c on concrete packets, at gateways with and without a key.
use osynaptic_fx.Prelude.{ℕ, ◌≡◌, refl, inl, List, [], ◌∷◌, none, some, arith, true, false}
use osynaptic_fx.Prelude.Words.{octet, read_u16, read_u32, read_u48}
use osynaptic_fx.Prelude.Slots.{find, find_index, modify, count}
use osynaptic_fx.Solidity.Crc.{
  crc8, crc8_rounds, crc8_round, crc16_ccitt, crc16_rounds, crc16_round,
}
use osynaptic_fx.HandshakeCmd.{normalize_data, cmd_id_request}
use osynaptic_fx.FusionPacket.{Meta, decode_meta, decode_min, encode_full}
use osynaptic_fx.FusionPacket.Roundtrip.{meta_for}
use osynaptic_fx.SecureSession.{
  Store, store_init, confirm_dict, find_or_alloc, scan, check_and_update_timestamp, should_encrypt,
  note_plaintext_sent, accept, derive_key,
}
use osynaptic_fx.SecureSession.Lookup.{before}
use osynaptic_fx.SecureSession.Keys.{HasKey}
use osynaptic_fx.SecureSession.History.{run, run-IsValid}
use osynaptic_fx.IdAllocator.{
  Allocator, allocator_init, compute_lease_seconds, pool_capacity, count_in_use, zero_entry,
}
use osynaptic_fx.IdAllocator.Calls.{allocate, alloc_loop, cleanup_expired, leased}
use osynaptic_fx.IdAllocator.FixedPoint.{thousandths}
use osynaptic_fx.HandshakeDispatch.{
  Ctx, Outcome, Reject, classify_dispatch, answer_checked, answer_plain,
}
use osynaptic_fx.HandshakeDispatch.Stores.{AreValid}
use osynaptic_fx.HandshakeDispatch.Safety.{Returns, Fits, classify_dispatch-Returns}
use osynaptic_fx.HandshakeDispatch.Data.{
  classify_data, data_outcome, classify_dispatch_damaged, classify_dispatch_twice,
}
use osynaptic_fx.HandshakeDispatch.Requests.{id_request_unanswered}
use osynaptic_fx.HandshakeDispatch.Handshake.{handshake_agrees}

abbrev empty : Store
empty = store_init 60

abbrev gateway : Ctx thousandths
gateway = record { secure_store = some empty; id_allocator = none; now_ts = 100 }

classify_dispatch-Returns_example :
    Returns thousandths (classify_dispatch thousandths gateway (9 ∷ 1 ∷ 2 ∷ []))
unfolding AreValid Fits run
classify_dispatch-Returns_example =
    classify_dispatch-Returns thousandths gateway (9 ∷ 1 ∷ 2 ∷ []) (run-IsValid 60 []) tt

-- One byte of a data packet.
cut_off : decode_meta (63 ∷ []) ≡ none
unfolding decode_meta decode_min
cut_off = refl

classify_dispatch_damaged_example :
    (o : Outcome thousandths) × (classify_dispatch thousandths gateway (63 ∷ []) ≡ some o)
    × (o.ctx ≡ gateway)
    × (o.returned ≡ false)
    × (o.result.has_response ≡ false)
unfolding normalize_data
classify_dispatch_damaged_example =
    classify_dispatch_damaged thousandths gateway 63 [] refl (inl cut_off)

-- A plaintext packet of node 500 with timestamp 1000 and the body "a".
abbrev covered : List ℕ
covered = 63 ∷ 1 ∷ 0 ∷ 0 ∷ 1 ∷ 244 ∷ 1 ∷ 0 ∷ 0 ∷ 0 ∷ 0 ∷ 3 ∷ 232 ∷ 97 ∷ 32 ∷ []

abbrev rest : List ℕ
rest = 1 ∷ 0 ∷ 0 ∷ 1 ∷ 244 ∷ 1 ∷ 0 ∷ 0 ∷ 0 ∷ 0 ∷ 3 ∷ 232 ∷ 97 ∷ 32 ∷ 146 ∷ 49 ∷ []

crc8-body : crc8 (0x61 ∷ []) 0x07 0 ≡ 32
unfolding crc8 crc8_rounds crc8_round
crc8-body = refl

crc16_covered : crc16_ccitt covered 0x1021 0xffff ≡ 37425
unfolding crc16_ccitt crc16_rounds crc16_round
crc16_covered = refl

sent : encode_full 63 500 1 1000 (0x61 ∷ []) (some 17) ≡ some (63 ∷ rest)
unfolding encode_full octet
sent = rw (crc8-body, crc16_covered) refl

abbrev meta : Meta
meta = meta_for 63 500 1 1000 1 true

arrived : decode_meta (63 ∷ rest) ≡ some meta
unfolding decode_meta decode_min read_u16 read_u32 read_u48
arrived = rw (crc8-body, crc16_covered) refl

abbrev answered : Outcome thousandths
answered = data_outcome thousandths gateway empty meta 63

-- Both handle the packet: the first time with success.
first_time : classify_dispatch thousandths gateway (63 ∷ rest) ≡ some answered
unfolding normalize_data
first_time = classify_data thousandths gateway empty 63 rest meta refl refl arrived refl

first_ok : answered.returned ≡ true
unfolding normalize_data check_and_update_timestamp find_or_alloc scan store_init answer_checked
    answer_plain should_encrypt modify find
first_ok = refl

classify_dispatch_twice_example :
    (again : Outcome thousandths) × (classify_dispatch thousandths
        (record answered.ctx { now_ts = 101 })
        (63 ∷ rest)
      ≡ some again)
    × (again.returned ≡ false)
    × (again.result.reject ≡ Reject.replayed)
    × (again.result.has_response ≡ false)
unfolding normalize_data
classify_dispatch_twice_example =
    classify_dispatch_twice thousandths gateway empty 63 rest meta answered 101 refl refl arrived
      (omega arith) refl first_time first_ok

unkeyed : should_encrypt empty 500 ≡ false
unfolding should_encrypt store_init find
unkeyed = refl

none_pending : (before empty 500).pending_key_set ≡ false
unfolding store_init find
none_pending = refl

accepted : (check_and_update_timestamp empty 500 1000 100).1 ≡ accept
unfolding check_and_update_timestamp find_or_alloc scan store_init modify
accepted = refl

noted_ok : (note_plaintext_sent empty 500 1000 7).1 ≡ true
unfolding note_plaintext_sent find_or_alloc scan store_init
noted_ok = refl

abbrev node : Ctx thousandths
node = record {
  secure_store = some (note_plaintext_sent empty 500 1000 7).0;
  id_allocator = none;
  now_ts = 9;
}

handshake_agrees_example :
    (answer : Outcome thousandths) × (reply : Outcome thousandths) × (g : Store) × (n : Store)
    × (classify_dispatch thousandths gateway (63 ∷ rest) ≡ some answer)
    × (classify_dispatch thousandths node answer.result.response ≡ some reply)
    × (answer.ctx.secure_store ≡ some g)
    × (reply.ctx.secure_store ≡ some n)
    × HasKey g 500 (derive_key 500 1000)
    × HasKey n 500 (derive_key 500 1000)
handshake_agrees_example =
    handshake_agrees thousandths gateway node empty empty 63 500 1 1000 7 17 (0x61 ∷ []) rest
      (inl refl) (omega arith) (omega arith) (omega arith) (omega arith, tt) (omega arith) sent refl
      unkeyed none_pending accepted noted_ok refl

-- One slot, leased, and a range of one id.
abbrev exhausted : Allocator thousandths
exhausted = record (allocator_init thousandths 1 10 10 100) {
  entries = leased 10 5 100 zero_entry ∷ [];
}

abbrev busy : Ctx thousandths
busy = record { secure_store = none; id_allocator = some exhausted; now_ts = 50 }

none_left :
    allocate thousandths exhausted 50 ≡ some (record exhausted { recent_window_start = 50 }, none)
unfolding allocate alloc_loop cleanup_expired compute_lease_seconds pool_capacity count_in_use
    allocator_init find_index modify count
none_left = refl

id_request_unanswered_example :
    (o : Outcome thousandths) × (classify_dispatch thousandths busy (cmd_id_request ∷ 0 ∷ 7 ∷ [])
      ≡ some o)
    × (o.returned ≡ true)
    × (o.result.has_response ≡ false)
id_request_unanswered_example =
    id_request_unanswered thousandths busy (0 ∷ 7 ∷ []) exhausted
      (record exhausted { recent_window_start = 50 }) refl (omega arith) none_left

-- A secure packet of the same node, at a gateway that has a key for it.
abbrev keyed : Store
keyed = (confirm_dict empty 500 1000 5).0

abbrev keyed_gateway : Ctx thousandths
keyed_gateway = record { secure_store = some keyed; id_allocator = none; now_ts = 100 }

abbrev secure_rest : List ℕ
secure_rest = 1 ∷ 0 ∷ 0 ∷ 1 ∷ 244 ∷ 1 ∷ 0 ∷ 0 ∷ 0 ∷ 0 ∷ 3 ∷ 232 ∷ 102 ∷ 32 ∷ 173 ∷ 227 ∷ []

abbrev secure_meta : Meta
secure_meta = meta_for 64 500 1 1000 1 false

abbrev secure_answered : Outcome thousandths
secure_answered = data_outcome thousandths keyed_gateway keyed secure_meta 64
