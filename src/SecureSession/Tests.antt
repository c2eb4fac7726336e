-- ===== src/SecureSession/Tests.antt =====
-- src/osfx_secure_session.c on concrete stores and histories.
use mathlib.Core.Option
use osynaptic_fx.Prelude.{
  sym, ◌≢◌, ℕ, ◌+◌, ◌<◌, ◌≤◌, ◌≡◌, ◌⊎◌, refl, List, [], ◌∷◌, none, some, arith, true, false,
}
use osynaptic_fx.Prelude.Slots.{find}
use osynaptic_fx.SecureSession.{
  Session, Store, accept, store_init, store_cleanup, find_or_alloc, session_of, note_plaintext_sent,
  confirm_dict, check_and_update_timestamp, derive_key, scan,
}
use osynaptic_fx.SecureSession.Lookup.{Updates, IsFullFor, before}
use osynaptic_fx.SecureSession.Calls.{Call, note, confirm, check, step, effect, step-Updates}
use osynaptic_fx.SecureSession.Expiry.{session_of-store_cleanup}
use osynaptic_fx.SecureSession.History.{Event, call, cleanup, run, IsValid, run-IsValid}
use osynaptic_fx.SecureSession.Replay.{
  Rises, last_accepted, accepted, accepted-Rises, check_zero_again,
}
use osynaptic_fx.SecureSession.Keys.{HasKey, keys_agree}

abbrev empty : Store
empty = store_init 60

abbrev history : List Event
history = call 5 100 (note 1) ∷ call 6 110 (check 7) ∷ call 5 120 (confirm 2) ∷ cleanup 175 ∷ []

run-IsValid_example : IsValid (run (store_init 60) history)
run-IsValid_example = run-IsValid 60 history

step-Updates_example :
    Updates empty 5 (effect 5 100 (note 1)) (step empty 5 100 (note 1))
    ⊎ (IsFullFor empty 5 × (step empty 5 100 (note 1) ≡ empty))
step-Updates_example = step-Updates empty 5 100 (note 1)

-- One session, of node 5, last seen at 120.
abbrev busy : Store
busy = run empty (call 5 100 (note 1) ∷ call 5 120 (confirm 2) ∷ [])

session_of-store_cleanup_example :
    ((session_of busy 5 ≡ none) × (session_of (store_cleanup busy 181) 5 ≡ none))
    ⊎ ((s : Session) × (session_of busy 5 ≡ some s)
        × (((s.last_seen + busy.expire_seconds < 181)
              × (session_of (store_cleanup busy 181) 5 ≡ none))
            ⊎ ((181 ≤ s.last_seen + busy.expire_seconds)
                × (session_of (store_cleanup busy 181) 5 ≡ some s))))
session_of-store_cleanup_example =
    session_of-store_cleanup busy 181 5
      (run-IsValid 60 (call 5 100 (note 1) ∷ call 5 120 (confirm 2) ∷ [])).unique

abbrev calls : List (ℕ × ℕ × Call)
calls = (5, 100, check 7) ∷ (5, 101, check 7) ∷ (6, 102, check 3) ∷ (5, 103, check 9) ∷ []

accepted-Rises_example : Rises (last_accepted empty 5) (accepted 5 empty calls)
accepted-Rises_example =
    accepted-Rises 5 empty calls (omega arith, (omega arith, (omega arith, (omega arith, tt))))

first_ok : (note_plaintext_sent empty 5 1000 3).1 ≡ true
unfolding note_plaintext_sent find_or_alloc scan store_init
first_ok = refl

confirm_ok : (confirm_dict empty 5 1000 4).1 ≡ true
unfolding confirm_dict find_or_alloc scan store_init
confirm_ok = refl

none_pending : (before empty 5).pending_key_set ≡ false
unfolding store_init find
none_pending = refl

keys_agree_example :
    HasKey (confirm_dict (note_plaintext_sent empty 5 1000 3).0 5 1001 9).0 5 (derive_key 5 1000)
    × HasKey (confirm_dict empty 5 1000 4).0 5 (derive_key 5 1000)
keys_agree_example = keys_agree empty empty 5 1000 1001 3 9 4 first_ok confirm_ok none_pending

none_yet : last_accepted empty 5 ≡ 0
unfolding store_init find
none_yet = refl

has_slot : find_or_alloc empty 5 ≢ none
unfolding find_or_alloc scan store_init
has_slot e = Option.none-ne-some _ (sym e)

check_zero_again_example :
    ((check_and_update_timestamp empty 5 0 100).1 ≡ accept)
    × ((check_and_update_timestamp (step empty 5 100 (check 0)) 5 0 101).1 ≡ accept)
check_zero_again_example = check_zero_again empty 5 100 101 has_slot none_yet
