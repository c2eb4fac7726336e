-- ===== src/SecureSession/Replay.antt =====
-- `osfx_secure_check_and_update_timestamp` of src/osfx_secure_session.c: the guard against replay.
use osynaptic_fx.Prelude.{
  ℕ, zero, suc, ◌<◌, ◌≡◌, ◌≢◌, ◌⊎◌, inl, inr, refl, subst, sym, ap, ◌∙◌, List, [], ◌∷◌, Option,
  none, some, arith, Option-cases, ◌==◌, if◌then◌else◌, Bool-cases, ==_iff, All, get_or, get_elem?,
}
use mathlib.Core.Option
use mathlib.Core.Option.{none-ne-some}
use osynaptic_fx.Prelude.Slots.{find_index-none}
use osynaptic_fx.SecureSession.{
  fresh, is_for, Session, Store, Verdict, accept, replay, out_of_order, verdict, timestamped,
  checked, check_and_update_timestamp, find_or_alloc, write_session, zero_session,
}
use osynaptic_fx.SecureSession.Lookup.{
  Updates, IsFullFor, before, find_or_alloc-Opens, find_or_alloc-none_iff, write-Updates,
}
use osynaptic_fx.SecureSession.Calls.{
  Call, note, confirm, check, mark, step, effect, effect-KeepsKey, step-Updates,
}

-- The timestamp that a session last accepted, 0 if it has accepted none.
abbrev pub last_accepted : Store → ℕ → ℕ
last_accepted st aid = (before st aid).last_data_timestamp

get_or-eq :
    (ss : List Session) (i : ℕ) (s d : Session) → get_elem? ss i ≡ some s → get_or ss i d ≡ s
get_or-eq [] i s d e = cc
get_or-eq (t ∷ ss) zero s d e = ground arith
get_or-eq (t ∷ ss) (suc i) s d e = get_or-eq ss i s d e

-- A check answers by the session that the id had before, and writes there; if there is no slot
-- for the id, it refuses.
pub check_outcome :
    (st : Store) (aid ts now : ℕ)
    → (((check_and_update_timestamp st aid ts now).1 ≡ verdict ts (before st aid))
        × Updates st aid (timestamped ts now) (step st aid now (check ts)))
      ⊎ (IsFullFor st aid
          × ((check_and_update_timestamp st aid ts now).1 ≡ out_of_order)
          × (step st aid now (check ts) ≡ st))
unfolding check_and_update_timestamp step
check_outcome st aid ts now = elim (Option-cases (find_or_alloc st aid)) [
  | inl full ↦ inr (
    (find_or_alloc-none_iff st aid).0 full,
    ap (λ p. checked p ts) full,
    ap (λ p. (write_session p st (timestamped ts now)).0) full,
  )
  | inr ((i, opened), got) ↦
      let o = find_or_alloc-Opens st aid i opened got in
      inl (
        ap (λ p. checked p ts) got
            ∙ ap (verdict ts) (get_or-eq opened.sessions i o.session zero_session o.there ∙ o.was),
        subst (Updates st aid (timestamped ts now))
            (sym (ap (λ p. (write_session p st (timestamped ts now)).0) got))
            (write-Updates st aid (timestamped ts now) (effect-KeepsKey aid now (check ts)) i opened
              got),
      )
]

before-Updates :
    (st st' : Store) (aid : ℕ) (f : Session → Session)
    → Updates st aid f st'
    → before st' aid ≡ f (before st aid)
before-Updates st st' aid f u = rw u.own

-- The timestamp that a call makes the guard accept for `aid`.
abbrev accepted_by : ℕ → ℕ → ℕ → Verdict → Option ℕ
accepted_by aid b ts accept = if b == aid then some ts else none
accepted_by aid b ts replay = none
accepted_by aid b ts out_of_order = none

pub accepted_now : ℕ → Store → ℕ → ℕ → Call → Option ℕ
accepted_now aid st b now (check ts) =
    accepted_by aid b ts (check_and_update_timestamp st b ts now).1
accepted_now aid st b now (note ts) = none
accepted_now aid st b now (confirm ts) = none
accepted_now aid st b now mark = none

abbrev with_head : Option ℕ → List ℕ → List ℕ
with_head none ts = ts
with_head (some t) ts = t ∷ ts

-- All that it accepts for `aid` in a history of calls, each with its node id and time.
pub accepted : ℕ → Store → List (ℕ × ℕ × Call) → List ℕ
accepted aid st [] = []
accepted aid st ((b, now, c) ∷ es) =
    with_head (accepted_now aid st b now c) (accepted aid (step st b now c) es)

abbrev pub IsPositive : ℕ × ℕ × Call → Type 0
IsPositive (b, now, check ts) = 0 < ts
IsPositive (b, now, note ts) = Unit
IsPositive (b, now, confirm ts) = Unit
IsPositive (b, now, mark) = Unit

-- Each number is above the one before it, the first above `n`.
abbrev pub Rises : ℕ → List ℕ → Type 0
Rises n [] = Unit
Rises n (t ∷ ts) = (n < t) × Rises t ts

-- One call: what is accepted lies above the last accepted, and becomes the last accepted.
abbrev OneCall : Option ℕ → ℕ → ℕ → Type 0
OneCall none old new = new ≡ old
OneCall (some t) old new = (old < t) × (new ≡ t)

last_kept :
    (aid : ℕ) (st : Store) (b now : ℕ) (c : Call)
    → b ≢ aid
    → last_accepted (step st b now c) aid ≡ last_accepted st aid
last_kept aid st b now c ne = elim (step-Updates st b now c) [
  | inl u ↦
      ap (λ o. (Option.get_or o (fresh aid)).last_data_timestamp) (u.others aid (λ e. ne (sym e)))
  | inr (full, same) ↦ ap (λ x. last_accepted x aid) same
]

-- Calls other than a check leave the timestamp alone.
last_own :
    (aid : ℕ) (st : Store) (now : ℕ) (c : Call)
    → (effect aid now c (before st aid)).last_data_timestamp ≡ last_accepted st aid
    → last_accepted (step st aid now c) aid ≡ last_accepted st aid
last_own aid st now c e = elim (step-Updates st aid now c) [
  | inl u ↦ ap (λ (s : Session). s.last_data_timestamp) (before-Updates st _ aid _ u) ∙ e
  | inr (full, same) ↦ ap (λ x. last_accepted x aid) same
]

own_check :
    (aid : ℕ) (st : Store) (ts now : ℕ)
    → 0 < ts
    → OneCall
        (accepted_by aid aid ts (check_and_update_timestamp st aid ts now).1)
        (last_accepted st aid)
        (last_accepted (step st aid now (check ts)) aid)
own_check aid st ts now h = elim (check_outcome st aid ts now) [
  | inl (answer, u) ↦
      ground
        (arith, answer, ap (λ (s : Session). s.last_data_timestamp) (before-Updates st _ aid _ u))
  | inr (full, answer, same) ↦ rw (answer, same)
]

own_call :
    (aid : ℕ) (st : Store) (now : ℕ) (c : Call)
    → IsPositive (aid, now, c)
    → OneCall
        (accepted_now aid st aid now c)
        (last_accepted st aid)
        (last_accepted (step st aid now c) aid)
unfolding accepted_now
own_call aid st now (check ts) h = own_check aid st ts now h
own_call aid st now (note ts) h = last_own aid st now (note ts) refl
own_call aid st now (confirm ts) h = last_own aid st now (confirm ts) (ground arith)
own_call aid st now mark h = last_own aid st now mark refl

not_accepted :
    (aid : ℕ) (st : Store) (b now : ℕ) (c : Call) → b ≢ aid → accepted_now aid st b now c ≡ none
unfolding accepted_now
not_accepted aid st b now (check ts) ne = ground arith
not_accepted aid st b now (note ts) ne = refl
not_accepted aid st b now (confirm ts) ne = refl
not_accepted aid st b now mark ne = refl

one_call :
    (aid : ℕ) (st : Store) (b now : ℕ) (c : Call)
    → IsPositive (b, now, c)
    → OneCall
        (accepted_now aid st b now c)
        (last_accepted st aid)
        (last_accepted (step st b now c) aid)
one_call aid st b now c h = elim (Bool-cases (b == aid)) [
  | inl same ↦
      let e : b ≡ aid = (==_iff b aid).0 same in
      subst
        (λ n.
          OneCall (accepted_now aid st n now c) (last_accepted st aid)
            (last_accepted (step st n now c) aid))
        (sym e) (own_call aid st now c (subst (λ n. IsPositive (n, now, c)) e h))
  | inr differ ↦
      let ne : b ≢ aid = ground arith in
      rw (not_accepted aid st b now c ne) (last_kept aid st b now c ne)
]

Rises-with_head :
    (o : Option ℕ) (old new : ℕ) (ts : List ℕ)
    → OneCall o old new
    → Rises new ts
    → Rises old (with_head o ts)
Rises-with_head none old new ts h r = subst (λ n. Rises n ts) h r
Rises-with_head (some t) old new ts h r = (h.0, subst (λ n. Rises n ts) h.1 r)

-- Over any history of calls on any nodes, with positive timestamps and no clean-up, the timestamps
-- that are accepted for one node rise strictly, from above the last one accepted before: none is
-- accepted twice or late.
pub accepted-Rises :
    (aid : ℕ) (st : Store) (es : List (ℕ × ℕ × Call))
    → All IsPositive es
    → Rises (last_accepted st aid) (accepted aid st es)
unfolding accepted
accepted-Rises aid st [] h = tt
accepted-Rises aid st ((b, now, c) ∷ es) h =
    Rises-with_head (accepted_now aid st b now c) (last_accepted st aid)
      (last_accepted (step st b now c) aid) (accepted aid (step st b now c) es)
      (one_call aid st b now c h.0) (accepted-Rises aid (step st b now c) es h.1)

is_registered :
    (st st' : Store) (aid : ℕ) (f : Session → Session) → Updates st aid f st' → ¬ IsFullFor st' aid
is_registered st st' aid f u full =
    none-ne-some _ (sym (find_index-none (is_for aid) st'.sessions full.0) ∙ u.own)

-- Where a node has a session or one is free for it, and it has accepted nothing but timestamps of 0, a
-- packet with timestamp 0 is accepted, and accepted again, at whatever times.
pub check_zero_again :
    (st : Store) (aid now later : ℕ)
    → find_or_alloc st aid ≢ none
    → last_accepted st aid ≡ 0
    → ((check_and_update_timestamp st aid 0 now).1 ≡ accept)
      × ((check_and_update_timestamp (step st aid now (check 0)) aid 0 later).1 ≡ accept)
check_zero_again st aid now later room none_yet = elim (check_outcome st aid 0 now) [
  | inl (answer, u) ↦
      let zero_left : last_accepted (step st aid now (check 0)) aid ≡ 0 =
        ap (λ (s : Session). s.last_data_timestamp) (before-Updates st _ aid _ u) ∙ ground arith in
      (
        answer ∙ ground (arith, none_yet),
        elim (check_outcome (step st aid now (check 0)) aid 0 later) [
          | inl (again, v) ↦ again ∙ ground (arith, zero_left)
          | inr (full, again, same) ↦ absurd (is_registered st _ aid _ u full)
        ],
      )
  | inr (full, answer, same) ↦ absurd (room ((find_or_alloc-none_iff st aid).1 full))
]
