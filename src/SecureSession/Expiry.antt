-- ===== src/SecureSession/Expiry.antt =====
-- `osfx_secure_store_init` and `osfx_secure_store_cleanup` of src/osfx_secure_session.c.
use osynaptic_fx.Prelude.{
  ◌+◌, ◌<◌, ◌⊎◌, ap, ◌∙◌, ltb, Option-cases, Bool-cases, inl, inr, ℕ, zero, suc, ◌≤◌, ◌≡◌, refl,
  List, [], ◌∷◌, map, replicate, Option, none, some, arith, if◌then◌else◌,
}
use osynaptic_fx.Prelude.Slots.{count, find, find_passes, find-none_iff}
use osynaptic_fx.SecureSession.{
  Session, Store, store_init, store_cleanup, is_expired, is_for, session_of, zero_session,
  session_max,
}
use osynaptic_fx.SecureSession.Lookup.{IsUnique}

-- One round of the loop.
abbrev swept : ℕ → ℕ → Session → Session
swept expire now s = if is_expired expire now s then zero_session else s

count-swept :
    (expire now b : ℕ) (ss : List Session)
    → count (is_for b) (map (swept expire now) ss) ≤ count (is_for b) ss
unfolding count
count-swept expire now b [] = omega arith
count-swept expire now b (s ∷ ss) = ground (arith, count-swept expire now b ss)

-- What is left of the session of an id.
abbrev pub survives : ℕ → ℕ → Option Session → Option Session
survives expire now none = none
survives expire now (some s) = if is_expired expire now s then none else some s

find-swept :
    (expire now b : ℕ) (ss : List Session)
    → count (is_for b) ss ≤ 1
    → find (is_for b) (map (swept expire now) ss) ≡ survives expire now (find (is_for b) ss)
unfolding count find
find-swept expire now b [] h = refl
find-swept expire now b (s ∷ ss) h = ground (
  arith,
  find-swept expire now b ss,
  count-swept expire now b ss,
  find-none_iff (is_for b) ss,
  find-none_iff (is_for b) (map (swept expire now) ss),
)

pub store_cleanup-IsUnique : (st : Store) (now : ℕ) → IsUnique st → IsUnique (store_cleanup st now)
unfolding store_cleanup
store_cleanup-IsUnique st now h b =
    omega (arith, h b, count-swept st.expire_seconds now b st.sessions)

pub session_of-swept :
    (st : Store) (now b : ℕ)
    → IsUnique st
    → session_of (store_cleanup st now) b ≡ survives st.expire_seconds now (session_of st b)
unfolding store_cleanup
session_of-swept st now b h = find-swept st.expire_seconds now b st.sessions (h b)

-- If no id has two slots: an id without a session has none after a clean-up. The session of an id that
-- was last seen more than `expire_seconds` before is dropped, and one that was last seen no longer ago,
-- or later than now, is left as it is.
pub session_of-store_cleanup :
    (st : Store) (now b : ℕ)
    → IsUnique st
    → ((session_of st b ≡ none) × (session_of (store_cleanup st now) b ≡ none))
      ⊎ ((s : Session) × (session_of st b ≡ some s)
          × (((s.last_seen + st.expire_seconds < now)
                × (session_of (store_cleanup st now) b ≡ none))
              ⊎ ((now ≤ s.last_seen + st.expire_seconds)
                  × (session_of (store_cleanup st now) b ≡ some s))))
session_of-store_cleanup st now b h =
    let left = session_of-swept st now b h in
    elim (Option-cases (session_of st b)) [
      | inl absent ↦ inl (absent, left ∙ ap (survives st.expire_seconds now) absent)
      | inr (s, there) ↦
          let used = find_passes (is_for b) st.sessions s there in
          let kept = left ∙ ap (survives st.expire_seconds now) there in
          elim (Bool-cases (ltb (s.last_seen + st.expire_seconds) now)) [
            | inl late ↦ inr (s, there, inl (ground arith, kept ∙ ground (arith, used)))
            | inr fresh ↦ inr (s, there, inr (ground arith, kept ∙ ground arith))
          ]
    ]

count-replicate : (b n : ℕ) → count (is_for b) (replicate n zero_session) ≡ 0
unfolding count
count-replicate b zero = refl
count-replicate b (suc n) = omega (arith, count-replicate b n)

pub store_init-IsUnique : (expire : ℕ) → IsUnique (store_init expire)
unfolding store_init
store_init-IsUnique expire b = omega (arith, count-replicate b session_max)

pub session_of-store_init : (expire b : ℕ) → session_of (store_init expire) b ≡ none
unfolding store_init
session_of-store_init expire b =
    (find-none_iff (is_for b) (replicate session_max zero_session)).1
      (count-replicate b session_max)
