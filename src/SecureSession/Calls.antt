-- ===== src/SecureSession/Calls.antt =====
-- The calls of src/osfx_secure_session.c on a session, as one step.
use osynaptic_fx.Prelude.{
  ℕ, ◌≡◌, ◌⊎◌, inl, inr, refl, subst, sym, ap, ◌∙◌, true, arith, Option-cases,
}
use osynaptic_fx.SecureSession.{
  Session, Store, State, note_plaintext_sent, confirm_dict, mark_channel,
  check_and_update_timestamp, noted, confirmed, marked, timestamped, write_session, find_or_alloc,
  fresh,
}
use osynaptic_fx.SecureSession.Lookup.{
  Updates, IsFullFor, KeepsKey, write-Updates, find_or_alloc-none_iff,
}

-- The calls that open a session.
pub data Call : Type 0 where
  note confirm check : ℕ → Call
  mark : Call

unfoldable pub step : Store → ℕ → ℕ → Call → Store
step st aid now (note ts) = (note_plaintext_sent st aid ts now).0
step st aid now (confirm ts) = (confirm_dict st aid ts now).0
step st aid now (check ts) = (check_and_update_timestamp st aid ts now).0
step st aid now mark = (mark_channel st aid now).0

-- What a call writes into the session.
abbrev pub effect : ℕ → ℕ → Call → Session → Session
effect aid now (note ts) = noted aid ts now
effect aid now (confirm ts) = confirmed aid ts now
effect aid now (check ts) = timestamped ts now
effect aid now mark = marked now

pub effect-KeepsKey : (aid now : ℕ) (c : Call) → KeepsKey (effect aid now c)
effect-KeepsKey aid now (note ts) s = (refl, refl)
effect-KeepsKey aid now (confirm ts) s = ground arith
effect-KeepsKey aid now (check ts) s = ground arith
effect-KeepsKey aid now mark s = (refl, refl)

pub step-write :
    (st : Store) (aid now : ℕ) (c : Call)
    → step st aid now c ≡ (write_session (find_or_alloc st aid) st (effect aid now c)).0
unfolding step note_plaintext_sent confirm_dict check_and_update_timestamp mark_channel
step-write st aid now (note ts) = refl
step-write st aid now (confirm ts) = refl
step-write st aid now (check ts) = refl
step-write st aid now mark = refl

-- A call changes the session of its id, made fresh if there was none, by what it writes and no
-- other id's; only if every slot is taken by other ids does it change nothing.
pub step-Updates :
    (st : Store) (aid now : ℕ) (c : Call)
    → Updates st aid (effect aid now c) (step st aid now c)
      ⊎ (IsFullFor st aid × (step st aid now c ≡ st))
step-Updates st aid now c = elim (Option-cases (find_or_alloc st aid)) [
  | inl full ↦ inr (
    (find_or_alloc-none_iff st aid).0 full,
    step-write st aid now c ∙ ap (λ p. (write_session p st (effect aid now c)).0) full,
  )
  | inr ((i, opened), got) ↦ inl (
      subst (Updates st aid (effect aid now c))
        (sym (step-write st aid now c ∙ ap (λ p. (write_session p st (effect aid now c)).0) got))
        (write-Updates st aid (effect aid now c) (effect-KeepsKey aid now c) i opened got))
]

-- What a session must be to make sense.
pub record IsSound (s : Session) : Type 0 where
  pub ready_has_key : s.dict_ready ≡ s.key_set
  pub key_was_pending : s.key_set ≡ true → s.pending_key_set ≡ true
  pub state_ready : s.state ≡ State.dict_ready → s.dict_ready ≡ true
  pub state_sent : s.state ≡ State.plaintext_sent → s.pending_key_set ≡ true
  pub state_secure : s.state ≡ State.secure → s.decrypt_confirmed ≡ true

pub fresh-IsSound : (aid : ℕ) → IsSound (fresh aid)
fresh-IsSound aid = ground arith

pub effect-IsSound :
    (aid now : ℕ) (c : Call) {s : Session} → IsSound s → IsSound (effect aid now c s)
effect-IsSound aid now (note ts) h = ground arith
effect-IsSound aid now (confirm ts) h = ground arith
effect-IsSound aid now (check ts) h = ground arith
effect-IsSound aid now mark h = ground arith
