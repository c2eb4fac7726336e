-- ===== src/HandshakeDispatch/Sessions.antt =====
-- The session of the node that a packet names, through the calls of src/osfx_handshake_dispatch.c.
use osynaptic_fx.Prelude.{Option-cases, false, ℕ, ◌≡◌, ◌≢◌, sym, ap, ◌∙◌, some, arith, inl, inr}
use mathlib.Core.Option
use mathlib.Core.Option.{none-ne-some}
use osynaptic_fx.Prelude.Slots.{find_index-none}
use osynaptic_fx.SecureSession.{
  should_encrypt, is_for, Session, Store, accept, replay, check_and_update_timestamp, confirm_dict,
  mark_channel, session_of, timestamped, verdict, confirmed, marked, fresh,
}
use osynaptic_fx.SecureSession.Lookup.{before, write_ok-Updates, write_ok_again}
use osynaptic_fx.SecureSession.Calls.{step, confirm, mark, effect-KeepsKey}
use osynaptic_fx.SecureSession.Replay.{check_outcome}

before_lem : (st : Store) (aid : ℕ) (s : Session) → session_of st aid ≡ some s → before st aid ≡ s
before_lem st aid s e = ap (λ o. Option.get_or o (fresh aid)) e

-- A timestamp that is accepted is the last one of the session afterwards.
pub check-own :
    (st : Store) (aid ts now : ℕ)
    → (check_and_update_timestamp st aid ts now).1 ≡ accept
    → (session_of (check_and_update_timestamp st aid ts now).0 aid
        ≡ some (timestamped ts now (before st aid)))
      × ((timestamped ts now (before st aid)).last_data_timestamp ≡ ts)
unfolding step
check-own st aid ts now ok = elim (check_outcome st aid ts now) [
  | inl (answer, u) ↦
      let own = u.own in
      let accepted : verdict ts (before st aid) ≡ accept = sym answer ∙ ok in
      (own, last (before st aid) accepted)
  | inr (full, answer, same) ↦ cc
]
  where
    last : (s : Session) → verdict ts s ≡ accept → (timestamped ts now s).last_data_timestamp ≡ ts
    last s h = ground arith

pub confirm-own :
    (st : Store) (aid ts now : ℕ) (s : Session)
    → session_of st aid ≡ some s
    → session_of (confirm_dict st aid ts now).0 aid ≡ some (confirmed aid ts now s)
unfolding confirm_dict
confirm-own st aid ts now s e =
    let keeps = effect-KeepsKey aid now (confirm ts) in
    let f = confirmed aid ts now in
    (write_ok-Updates st aid f keeps (write_ok_again st aid f keeps s e)).own
    ∙ ap (λ x. some (f x)) (before_lem st aid s e)

pub mark-own :
    (st : Store) (aid now : ℕ) (s : Session)
    → session_of st aid ≡ some s
    → session_of (mark_channel st aid now).0 aid ≡ some (marked now s)
unfolding mark_channel
mark-own st aid now s e =
    let keeps = effect-KeepsKey aid now mark in
    let f = marked now in
    (write_ok-Updates st aid f keeps (write_ok_again st aid f keeps s e)).own
    ∙ ap (λ x. some (f x)) (before_lem st aid s e)

-- A timestamp that the session last accepted is a replay.
pub check_again :
    (st : Store) (aid ts now : ℕ) (s : Session)
    → session_of st aid ≡ some s
    → s.last_data_timestamp ≡ ts
    → ts ≢ 0
    → (check_and_update_timestamp st aid ts now).1 ≡ replay
check_again st aid ts now s e last ne = elim (check_outcome st aid ts now) [
  | inl (answer, u) ↦ answer ∙ ap (verdict ts) (before_lem st aid s e) ∙ twice s last
  | inr (full, answer, same) ↦
      absurd (none-ne-some s (sym (find_index-none (is_for aid) st.sessions full.0) ∙ e))
]
  where
    twice : (x : Session) → x.last_data_timestamp ≡ ts → verdict ts x ≡ replay
    twice x h = ground arith

-- The guard on timestamps leaves keys alone.
module _ (st st1 : Store) (aid ts now : ℕ)
    (own : session_of st1 aid ≡ some (timestamped ts now (before st aid))) where
  timestamped_keys :
      (s : Session)
      → ((timestamped ts now s).key_set ≡ s.key_set)
        × ((timestamped ts now s).dict_ready ≡ s.dict_ready)
        × ((timestamped ts now s).pending_key_set ≡ s.pending_key_set)
  timestamped_keys s = ground arith

  pub check-unkeyed : should_encrypt st aid ≡ false → should_encrypt st1 aid ≡ false
  unfolding should_encrypt
  check-unkeyed h = elim (Option-cases (session_of st aid)) [
    | inl gone ↦ ground (arith, own, gone, timestamped_keys (before st aid))
    | inr (s, e) ↦ ground (arith, own, e, timestamped_keys (before st aid))
  ]

  pub check-pending : (before st1 aid).pending_key_set ≡ (before st aid).pending_key_set
  check-pending =
      ap (λ (s : Session). s.pending_key_set) (before_lem st1 aid _ own)
      ∙ (timestamped_keys (before st aid)).2
