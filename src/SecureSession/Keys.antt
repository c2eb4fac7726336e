-- ===== src/SecureSession/Keys.antt =====
-- The keys of src/osfx_secure_session.c, at both ends of a channel.
use osynaptic_fx.Prelude.{
  ℕ, zero, suc, ◌+◌, ◌≡◌, ◌≢◌, ◌↔◌, if◌then◌else◌, inl, inr, refl, subst, ap, Bool, true, false,
  List, none, some, arith, length, Option-cases,
}
use mathlib.Core.Option
use osynaptic_fx.Prelude.Words.{IsBytes, octet-lt}
use osynaptic_fx.SecureSession.{
  fresh, Session, Store, store_init, derive_key, key_loop, key_len, note_plaintext_sent,
  confirm_dict, noted, confirmed, get_key, should_encrypt, session_of,
}
use osynaptic_fx.SecureSession.Lookup.{before, write_ok-Updates, write_ok_again}
use osynaptic_fx.SecureSession.Calls.{note, confirm, effect-KeepsKey}
use osynaptic_fx.SecureSession.History.{Event, run, run-IsValid}

key_loop-IsBytes : (left i x : ℕ) → IsBytes (key_loop left i x)
unfolding key_loop
key_loop-IsBytes zero i x = tt
key_loop-IsBytes (suc left) i x = (octet-lt _ 24, key_loop-IsBytes left (i + 1) _)

length-key_loop : (left i x : ℕ) → length (key_loop left i x) ≡ left
unfolding key_loop
length-key_loop zero i x = refl
length-key_loop (suc left) i x = ap suc (length-key_loop left (i + 1) _)

-- A derived key is 32 bytes.
pub derive_key-IsBytes :
    (aid ts : ℕ) → IsBytes (derive_key aid ts) × (length (derive_key aid ts) ≡ key_len)
unfolding derive_key
derive_key-IsBytes aid ts = (key_loop-IsBytes key_len 0 _, length-key_loop key_len 0 _)

abbrev pub HasKey : Store → ℕ → List ℕ → Type 0
HasKey st aid k = (get_key st aid ≡ some k) × (should_encrypt st aid ≡ true)

session-HasKey :
    (st : Store) (aid : ℕ) (s : Session)
    → session_of st aid ≡ some s
    → s.key_set ≡ true
    → s.dict_ready ≡ true
    → HasKey st aid s.key
unfolding get_key should_encrypt
session-HasKey st aid s e k d = ground arith

-- The key that a confirmation promotes.
abbrev promoted_key : Session → ℕ → ℕ → List ℕ
promoted_key s aid ts = if s.pending_key_set then s.pending_key else derive_key aid ts

confirm-HasKey :
    (st : Store) (aid ts now : ℕ)
    → (confirm_dict st aid ts now).1 ≡ true
    → HasKey (confirm_dict st aid ts now).0 aid (promoted_key (before st aid) aid ts)
unfolding confirm_dict
confirm-HasKey st aid ts now ok =
    let keeps = effect-KeepsKey aid now (confirm ts) in
    let u = write_ok-Updates st aid (confirmed aid ts now) keeps ok in
    let st' = (confirm_dict st aid ts now).0 in
    let has = session-HasKey st' aid _ u.own refl refl in
    subst (HasKey st' aid) (key_of (before st aid)) has
  where
    key_of : (s : Session) → (confirmed aid ts now s).key ≡ promoted_key s aid ts
    key_of s = ground arith

noted-before :
    (st : Store) (aid ts now : ℕ)
    → (note_plaintext_sent st aid ts now).1 ≡ true
    → session_of (note_plaintext_sent st aid ts now).0 aid ≡ some (noted aid ts now (before st aid))
unfolding note_plaintext_sent
noted-before st aid ts now ok =
    (write_ok-Updates st aid (noted aid ts now) (effect-KeepsKey aid now (note ts)) ok).own

pub confirm_ok_again :
    (st : Store) (aid ts now : ℕ) (s : Session)
    → session_of st aid ≡ some s
    → (confirm_dict st aid ts now).1 ≡ true
unfolding confirm_dict
confirm_ok_again st aid ts now s e =
    write_ok_again st aid (confirmed aid ts now) (effect-KeepsKey aid now (confirm ts)) s e

-- The sender, having noted the plaintext packet of time `ts`, gets its confirmation; the receiver,
-- which has no pending key for the sender's id, confirms that packet. Then both encrypt, with the
-- same key, the one derived from the id and `ts`, whatever time the sender's confirmation names.
pub keys_agree :
    (sender receiver : Store) (aid ts ts' now now' later : ℕ)
    → (note_plaintext_sent sender aid ts now).1 ≡ true
    → (confirm_dict receiver aid ts later).1 ≡ true
    → (before receiver aid).pending_key_set ≡ false
    → HasKey
        (confirm_dict (note_plaintext_sent sender aid ts now).0 aid ts' now').0
        aid
        (derive_key aid ts)
      × HasKey (confirm_dict receiver aid ts later).0 aid (derive_key aid ts)
keys_agree sender receiver aid ts ts' now now' later ok_note ok_confirm none_pending =
    let st = (note_plaintext_sent sender aid ts now).0 in
    let own = noted-before sender aid ts now ok_note in
    let at_sender = confirm-HasKey st aid ts' now' (confirm_ok_again st aid ts' now' _ own) in
    let at_receiver = confirm-HasKey receiver aid ts later ok_confirm in
    (
      subst (HasKey _ aid) (ap (λ o. promoted_key (Option.get_or o (fresh aid)) aid ts') own)
          at_sender,
      subst (HasKey _ aid)
          (ap (λ (b : Bool). if b then (before receiver aid).pending_key else derive_key aid ts)
            none_pending)
          at_receiver,
    )

-- After any history, a node encrypts to another exactly if it has a key for it.
pub should_encrypt_iff :
    (expire : ℕ) (es : List Event) (aid : ℕ)
    → let st = run (store_init expire) es in
      (should_encrypt st aid ≡ true) ↔ (get_key st aid ≢ none)
unfolding get_key should_encrypt
should_encrypt_iff expire es aid =
    elim (Option-cases (session_of (run (store_init expire) es) aid)) [
      | inl e ↦ ground arith
      | inr (s, e) ↦ ground (arith, ((run-IsValid expire es).sound aid s e).ready_has_key)
    ]
