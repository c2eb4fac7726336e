-- ===== src/SecureSession.antt =====
-- src/osfx_secure_session.c and include/osfx_secure_session.h: the sessions of a node or gateway,
-- their keys, and the check of timestamps against replay. A call gives the new store and what the
-- code returns; the `int` flags are Booleans. Saving to and loading from a file are not here.
pub mod Lookup
pub mod Calls
pub mod Expiry
pub mod History
pub mod Replay
pub mod Keys
mod Tests
use osynaptic_fx.Prelude.{
  ℕ, zero, suc, ◌+◌, ◌-◌, ◌*◌, ◌/◌, ◌%◌, ◌^◌, bit_and, bit_xor, ◌==◌, ltb, if◌then◌else◌, Bool,
  true, false, not, ◌&&◌, List, [], ◌∷◌, map, replicate, get_or, Option, none, some,
}
use osynaptic_fx.Prelude.Words.{octet}
use osynaptic_fx.Prelude.Slots.{find, modify}

abbrev pub session_max : ℕ
session_max = 64

abbrev pub key_len : ℕ
key_len = 32

pub data State : Type 0 where
  initial plaintext_sent dict_ready secure : State

pub data Verdict : Type 0 where
  accept replay out_of_order : Verdict

pub record Session : Type 0 where
  pub aid : ℕ
  pub last_seen : ℕ
  pub last_data_timestamp : ℕ
  pub first_plaintext_ts : ℕ
  pub pending_timestamp : ℕ
  pub key : List ℕ
  pub pending_key : List ℕ
  pub key_set : Bool
  pub pending_key_set : Bool
  pub dict_ready : Bool
  pub decrypt_confirmed : Bool
  pub state : State
  pub used : Bool

pub record Store : Type 0 where
  pub sessions : List Session
  pub expire_seconds : ℕ

-- A slot after `memset(..., 0, ...)`.
abbrev pub zero_session : Session
zero_session = record {
  aid = 0;
  last_seen = 0;
  last_data_timestamp = 0;
  first_plaintext_ts = 0;
  pending_timestamp = 0;
  key = replicate key_len 0;
  pending_key = replicate key_len 0;
  key_set = false;
  pending_key_set = false;
  dict_ready = false;
  decrypt_confirmed = false;
  state = State.initial;
  used = false;
}

abbrev pub fresh : ℕ → Session
fresh aid = record zero_session { used = true; aid = aid; state = State.initial }

-- `sessions[i].used && sessions[i].aid == aid`.
abbrev pub is_for : ℕ → Session → Bool
is_for aid s = s.used && s.aid == aid

pub data Scan : Type 0 where
  hit : ℕ → Scan
  free : Option ℕ → Scan

abbrev first_free : Option ℕ → ℕ → Session → Option ℕ
first_free (some j) i s = some j
first_free none i s = if not s.used then some i else none

-- The loop of `find_or_alloc` from slot `i` on, with `empty` as found so far.
unfoldable pub scan : ℕ → ℕ → Option ℕ → List Session → Scan
scan aid i empty [] = free empty
scan aid i empty (s ∷ ss) =
    let rest = scan aid (i + 1) (first_free empty i s) ss in if is_for aid s then hit i else rest

abbrev pub opened_by : Store → ℕ → Scan → Option (ℕ × Store)
opened_by st aid (hit i) = some (i, st)
opened_by st aid (free none) = none
opened_by st aid (free (some i)) =
    some (i, record st { sessions = modify st.sessions i (λ s. fresh aid) })

-- The slot whose address the code returns, and the store with that slot taken.
unfoldable pub find_or_alloc : Store → ℕ → Option (ℕ × Store)
find_or_alloc st aid = opened_by st aid (scan aid 0 none st.sessions)

-- `find_const`.
abbrev pub session_of : Store → ℕ → Option Session
session_of st aid = find (is_for aid) st.sessions

-- Each round: `x = x * 1664525 + 1013904223 + i`, and the top byte of it.
unfoldable pub key_loop : ℕ → ℕ → ℕ → List ℕ
key_loop zero i x = []
key_loop (suc left) i x =
    let x' = (x * 1664525 + 1013904223 + i) % 2 ^ 32 in octet x' 24 ∷ key_loop left (i + 1) x'

unfoldable pub derive_key : ℕ → ℕ → List ℕ
derive_key aid ts =
    key_loop key_len 0
      (bit_xor (bit_xor aid (bit_and ts 0xffffffff)) (bit_and (ts / 2 ^ 32) 0xffffffff))

unfoldable pub store_init : ℕ → Store
store_init expire_seconds = record {
  sessions = replicate session_max zero_session;
  expire_seconds = if ltb 0 expire_seconds then expire_seconds else 86400;
}

abbrev pub is_expired : ℕ → ℕ → Session → Bool
is_expired expire_seconds now s =
    s.used && (ltb s.last_seen now && ltb expire_seconds (now - s.last_seen))

unfoldable pub store_cleanup : Store → ℕ → Store
store_cleanup st now = record st {
  sessions = map (λ s. if is_expired st.expire_seconds now s then zero_session else s) st.sessions;
}

-- `find_or_alloc`, then the writes `f` through the pointer; without a slot, nothing.
abbrev pub write_session : Option (ℕ × Store) → Store → (Session → Session) → Store × Bool
write_session none st f = (st, false)
write_session (some (i, opened)) st f =
    (record opened { sessions = modify opened.sessions i f }, true)

abbrev pub noted : ℕ → ℕ → ℕ → Session → Session
noted aid timestamp_raw now s = record s {
  last_seen = now;
  pending_timestamp = timestamp_raw;
  pending_key = derive_key aid timestamp_raw;
  pending_key_set = true;
  state = State.plaintext_sent;
}

unfoldable pub note_plaintext_sent : Store → ℕ → ℕ → ℕ → Store × Bool
note_plaintext_sent st aid timestamp_raw now =
    write_session (find_or_alloc st aid) st (noted aid timestamp_raw now)

-- `if (!s->pending_key_set) { ... }`.
abbrev pub with_pending : ℕ → ℕ → Session → Session
with_pending aid timestamp_raw s =
    if not s.pending_key_set
    then record s {
      pending_timestamp = timestamp_raw;
      pending_key = derive_key aid timestamp_raw;
      pending_key_set = true;
    }
    else s

abbrev pub promoted : Session → Session
promoted s = record s {
  key = s.pending_key;
  key_set = true;
  dict_ready = true;
  first_plaintext_ts = s.pending_timestamp;
  state = State.dict_ready;
}

abbrev pub confirmed : ℕ → ℕ → ℕ → Session → Session
confirmed aid timestamp_raw now s =
    promoted (with_pending aid timestamp_raw (record s { last_seen = now }))

unfoldable pub confirm_dict : Store → ℕ → ℕ → ℕ → Store × Bool
confirm_dict st aid timestamp_raw now =
    write_session (find_or_alloc st aid) st (confirmed aid timestamp_raw now)

abbrev pub marked : ℕ → Session → Session
marked now s = record s { last_seen = now; decrypt_confirmed = true; state = State.secure }

unfoldable pub mark_channel : Store → ℕ → ℕ → Store × Bool
mark_channel st aid now = write_session (find_or_alloc st aid) st (marked now)

unfoldable pub should_encrypt : Store → ℕ → Bool
should_encrypt st aid = elim (session_of st aid) [
  | none ↦ false
  | some s ↦ s.dict_ready && s.key_set
]

unfoldable pub get_key : Store → ℕ → Option (List ℕ)
get_key st aid = elim (session_of st aid) [
  | none ↦ none
  | some s ↦ (if s.key_set then some s.key else none)
]

unfoldable pub is_channel_confirmed : Store → ℕ → Bool
is_channel_confirmed st aid = elim (session_of st aid) [
  | none ↦ false
  | some s ↦ s.decrypt_confirmed
]

-- What `check_and_update_timestamp` answers for the session `s`, and what it writes there.
abbrev pub verdict : ℕ → Session → Verdict
verdict timestamp_raw s =
    if s.last_data_timestamp == 0
    then accept
    else if timestamp_raw == s.last_data_timestamp
    then replay
    else if ltb timestamp_raw s.last_data_timestamp
    then out_of_order
    else accept

abbrev pub timestamped : ℕ → ℕ → Session → Session
timestamped timestamp_raw now s =
    if s.last_data_timestamp == 0
    then record s { last_seen = now; last_data_timestamp = timestamp_raw }
    else if timestamp_raw == s.last_data_timestamp
    then record s { last_seen = now }
    else if ltb timestamp_raw s.last_data_timestamp
    then record s { last_seen = now }
    else record s { last_seen = now; last_data_timestamp = timestamp_raw }

abbrev pub checked : Option (ℕ × Store) → ℕ → Verdict
checked none timestamp_raw = out_of_order
checked (some (i, opened)) timestamp_raw =
    verdict timestamp_raw (get_or opened.sessions i zero_session)

unfoldable pub check_and_update_timestamp : Store → ℕ → ℕ → ℕ → Store × Verdict
check_and_update_timestamp st aid timestamp_raw now =
    let place = find_or_alloc st aid in
    ((write_session place st (timestamped timestamp_raw now)).0, checked place timestamp_raw)
