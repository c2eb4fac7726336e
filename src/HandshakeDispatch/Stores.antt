-- ===== src/HandshakeDispatch/Stores.antt =====
-- Session stores through the handler of src/osfx_handshake_dispatch.c.
use osynaptic_fx.Prelude.{
  ℕ, ◌==◌, if◌then◌else◌, Bool, true, false, not, List, length, Option, none, some, Bool-cases, inl,
  inr,
}
use osynaptic_fx.FusionPacket.{Meta}
use osynaptic_fx.SecureSession.{
  Store, Verdict, check_and_update_timestamp, should_encrypt, confirm_dict, is_channel_confirmed,
  mark_channel,
}
use osynaptic_fx.SecureSession.Calls.{step, confirm, check, mark}
use osynaptic_fx.SecureSession.History.{IsValid, handle, handle-IsValid, call}
use osynaptic_fx.HandshakeDispatch.{
  Result, answer_plain, answer_secure, answer_checked, answer_data, answer_dict_ready,
  answer_channel_ack,
}

confirm-IsValid :
    (st : Store) (aid ts now : ℕ) → IsValid st → IsValid (confirm_dict st aid ts now).0
unfolding handle step
confirm-IsValid st aid ts now v = handle-IsValid st (call aid now (confirm ts)) v

mark-IsValid : (st : Store) (aid now : ℕ) → IsValid st → IsValid (mark_channel st aid now).0
unfolding handle step
mark-IsValid st aid now v = handle-IsValid st (call aid now mark) v

check-IsValid :
    (st : Store) (aid ts now : ℕ)
    → IsValid st
    → IsValid (check_and_update_timestamp st aid ts now).0
unfolding handle step
check-IsValid st aid ts now v = handle-IsValid st (call aid now (check ts)) v

-- What the handler does to a store that makes sense.
ruleset valid_rules = (confirm-IsValid, mark-IsValid, check-IsValid)

answer_plain-IsValid :
    (st : Store) (now : ℕ) (meta : Meta) (r : Result)
    → IsValid st
    → IsValid (answer_plain st now meta r).0
unfolding answer_plain
answer_plain-IsValid st now meta r v = elim (Bool-cases (should_encrypt st meta.source_aid)) [
  | inl keyed ↦ rw keyed v
  | inr plain ↦ rw plain (search valid_rules)
]

answer_secure-IsValid :
    (st : Store) (now : ℕ) (meta : Meta) (r : Result)
    → IsValid st
    → IsValid (answer_secure st now meta r).0
unfolding answer_secure
answer_secure-IsValid st now meta r v = elim (Bool-cases (should_encrypt st meta.source_aid)) [
  | inr plain ↦ rw plain v
  | inl keyed ↦ elim (Bool-cases (is_channel_confirmed st meta.source_aid)) [
    | inl known ↦ rw (keyed, known) v
    | inr new ↦ rw (keyed, new) (search valid_rules)
  ]
]

answer_checked-IsValid :
    (st : Store) (o : Verdict) (now : ℕ) (meta : Meta) (plain : Bool) (r : Result)
    → IsValid st
    → IsValid (answer_checked st o now meta plain r).0
unfolding answer_checked
answer_checked-IsValid st Verdict.replay now meta plain r v = v
answer_checked-IsValid st Verdict.out_of_order now meta plain r v = v
answer_checked-IsValid st Verdict.accept now meta true r v = answer_plain-IsValid st now meta r v
answer_checked-IsValid st Verdict.accept now meta false r v = answer_secure-IsValid st now meta r v

-- A store that is there makes sense.
unfoldable pub AreValid : Option Store → Type 0
AreValid none = Unit
AreValid (some st) = IsValid st

AreValid-if :
    (b : Bool) (x y : Option Store × Result × Bool)
    → AreValid x.0
    → AreValid y.0
    → AreValid (if b then x else y).0
AreValid-if true x y h k = h
AreValid-if false x y h k = k

pub answer_data-AreValid :
    (st : Option Store) (now : ℕ) (o : Option Meta) (plain : Bool) (r : Result)
    → AreValid st
    → AreValid (answer_data st now o plain r).0
unfolding answer_data AreValid
answer_data-AreValid st now none plain r v = v
answer_data-AreValid none now (some meta) plain r v = AreValid-if (not meta.crc16_ok) _ _ tt tt
answer_data-AreValid (some st) now (some meta) plain r v = AreValid-if (not meta.crc16_ok) _ _ v (
    answer_checked-IsValid _ _ now meta plain _
      (check-IsValid st meta.source_aid meta.timestamp_raw now v))

pub answer_dict_ready-AreValid :
    (st : Option Store) (packet : List ℕ) (now : ℕ) (r : Result)
    → AreValid st
    → AreValid (answer_dict_ready st packet now r).0
unfolding AreValid
answer_dict_ready-AreValid none packet now r v = tt
answer_dict_ready-AreValid (some st) packet now r v = elim (Bool-cases (length packet == 13)) [
  | inl ok ↦ rw ok (search valid_rules)
  | inr bad ↦ rw bad v
]

pub answer_channel_ack-AreValid :
    (st : Option Store) (packet : List ℕ) (now : ℕ) (r : Result)
    → AreValid st
    → AreValid (answer_channel_ack st packet now r).0
unfolding AreValid
answer_channel_ack-AreValid none packet now r v = tt
answer_channel_ack-AreValid (some st) packet now r v = elim (Bool-cases (length packet == 5)) [
  | inl ok ↦ rw ok (search valid_rules)
  | inr bad ↦ rw bad v
]
