-- ===== src/SecureSession/History.antt =====
-- Every history of calls on a store of src/osfx_secure_session.c, clean-ups included.
use osynaptic_fx.Prelude.{
  ℕ, ◌≡◌, ◌≢◌, inl, inr, refl, subst, sym, ap, ◌∙◌, List, [], ◌∷◌, Option, none, some, arith,
  Option-cases, ◌==◌, Bool-cases, ==_iff,
}
use mathlib.Core.Option.{some-injective, none-ne-some}
use osynaptic_fx.SecureSession.{Session, Store, store_init, store_cleanup, session_of}
use osynaptic_fx.SecureSession.Lookup.{Updates, IsUnique, before}
use osynaptic_fx.SecureSession.Calls.{
  Call, step, effect, step-Updates, IsSound, fresh-IsSound, effect-IsSound,
}
use osynaptic_fx.SecureSession.Expiry.{
  store_cleanup-IsUnique, session_of-swept, survives, store_init-IsUnique, session_of-store_init,
}

pub data Event : Type 0 where
  call : ℕ → ℕ → Call → Event
  cleanup : ℕ → Event

unfoldable pub handle : Store → Event → Store
handle st (call aid now c) = step st aid now c
handle st (cleanup now) = store_cleanup st now

unfoldable pub run : Store → List Event → Store
run st [] = st
run st (e ∷ es) = run (handle st e) es

-- No id has two slots, and every session makes sense.
pub record IsValid (st : Store) : Type 0 where
  pub unique : IsUnique st
  pub sound : (aid : ℕ) (s : Session) → session_of st aid ≡ some s → IsSound s

before-IsSound : (st : Store) (aid : ℕ) → IsValid st → IsSound (before st aid)
before-IsSound st aid v = elim (Option-cases (session_of st aid)) [
  | inl e ↦ rw e (fresh-IsSound aid)
  | inr (s, e) ↦ rw e (v.sound aid s e)
]

Updates-IsValid :
    (st st' : Store) (aid now : ℕ) (c : Call)
    → IsValid st
    → Updates st aid (effect aid now c) st'
    → IsValid st'
Updates-IsValid st st' aid now c v u = record {
  unique = u.counts v.unique;
  sound = λ b s e. elim (Bool-cases (b == aid)) [
    | inl same ↦
        let eb : b ≡ aid = (==_iff b aid).0 same in
        let mine : effect aid now c (before st aid) ≡ s =
          some-injective _ _ (sym u.own ∙ ap (session_of st') (sym eb) ∙ e) in
        subst IsSound mine (effect-IsSound aid now c (before-IsSound st aid v))
    | inr differ ↦ let ne : b ≢ aid = ground arith in v.sound b s (sym (u.others b ne) ∙ e)
  ];
}

pub handle-IsValid : (st : Store) (e : Event) → IsValid st → IsValid (handle st e)
unfolding handle
handle-IsValid st (call aid now c) v = elim (step-Updates st aid now c) [
  | inl u ↦ Updates-IsValid st _ aid now c v u
  | inr (full, same) ↦ rw same v
]
handle-IsValid st (cleanup now) v = record {
  unique = store_cleanup-IsUnique st now v.unique;
  sound = λ aid s e.
      let left = sym (session_of-swept st now aid v.unique) ∙ e in
      kept aid s (session_of st aid) refl left;
}
  where
    kept :
        (aid : ℕ) (s : Session) (o : Option Session)
        → session_of st aid ≡ o
        → survives st.expire_seconds now o ≡ some s
        → IsSound s
    kept aid s none e l = cc
    kept aid s (some t) e l = let same : t ≡ s = ground arith in v.sound aid s (e ∙ ap some same)

run_from-IsValid : (st : Store) (es : List Event) → IsValid st → IsValid (run st es)
unfolding run
run_from-IsValid st [] v = v
run_from-IsValid st (e ∷ es) v = run_from-IsValid (handle st e) es (handle-IsValid st e v)

store_init-IsValid : (expire : ℕ) → IsValid (store_init expire)
store_init-IsValid expire = record {
  unique = store_init-IsUnique expire;
  sound = λ aid s e. absurd (none-ne-some s (sym (session_of-store_init expire aid) ∙ e));
}

-- After any history from an empty store, no id has two slots, and in each session: the dictionary
-- is ready exactly if a key is set, a set key was pending, and the state matches the flags.
pub run-IsValid : (expire : ℕ) (es : List Event) → IsValid (run (store_init expire) es)
run-IsValid expire es = run_from-IsValid (store_init expire) es (store_init-IsValid expire)
