-- ===== src/SecureSession/Lookup.antt =====
-- The store of src/osfx_secure_session.c seen as a map from node ids to sessions.
use osynaptic_fx.Prelude.{
  ℕ, suc, ◌+◌, ◌≤◌, ◌≡◌, ◌≢◌, ◌↔◌, refl, subst, sym, ap, ◌∙◌, Bool, true, false, not, List, [], ◌∷◌,
  Option, none, some, arith, Option-cases, inl, inr, get_elem?, ==_refl,
}
use mathlib.Core.Option
use mathlib.Core.Option.{none-ne-some}
use mathlib.Core.Bool.{false≢true}
use osynaptic_fx.Prelude.Slots.{
  count, bit, count-modify, find-none_iff, find_index, modify, find_index-none, find_index-Finds,
  find-modify_found, find-modify_ne, find-modify_fresh, find_index-modify_fresh, get_elem?-modify,
}
use osynaptic_fx.SecureSession.{
  Session, Store, fresh, is_for, Scan, hit, free, first_free, scan, opened_by, find_or_alloc,
  session_of, write_session,
}

abbrev is_free : Session → Bool
is_free s = not s.used

-- What the scan gives, by the two searches that it makes at once.
abbrev two_searches : ℕ → Option ℕ → Option ℕ → Option ℕ → Scan
two_searches i empty (some k) vacant = hit (i + k)
two_searches i (some j) none vacant = free (some j)
two_searches i none none vacant = free (Option.map (λ k. i + k) vacant)

two_searches_next :
    (i : ℕ) (empty found vacant : Option ℕ)
    → two_searches (i + 1) empty found vacant
      ≡ two_searches i empty (Option.map suc found) (Option.map suc vacant)
two_searches_next i empty (some k) vacant = ap hit (omega arith)
two_searches_next i (some j) none vacant = refl
two_searches_next i none none none = refl
two_searches_next i none none (some k) = ap (λ n. free (some n)) (omega arith)

scan_lem :
    (aid i : ℕ) (empty : Option ℕ) (ss : List Session)
    → scan aid i empty ss
      ≡ two_searches i empty (find_index (is_for aid) ss) (find_index is_free ss)
unfolding scan find_index
scan_lem aid i none [] = refl
scan_lem aid i (some j) [] = refl
scan_lem aid i (some j) (s ∷ ss) = ground (
  arith,
  scan_lem aid (i + 1) (some j) ss,
  two_searches_next i (some j) (find_index (is_for aid) ss) (find_index is_free ss),
)
scan_lem aid i none (s ∷ ss) = ground (
  arith,
  scan_lem aid (i + 1) (first_free none i s) ss,
  two_searches_next i none (find_index (is_for aid) ss) (find_index is_free ss),
)

-- No id has two slots.
abbrev pub IsUnique : Store → Type 0
IsUnique st = (b : ℕ) → count (is_for b) st.sessions ≤ 1

-- The slot that a call works on: `session` stands there, the one of `aid` or a fresh one, and the
-- other ids keep theirs.
pub record Opens (st : Store) (aid i : ℕ) (opened : Store) : Type 0 where
  pub session : Session
  pub index : find_index (is_for aid) opened.sessions ≡ some i
  pub there : get_elem? opened.sessions i ≡ some session
  pub mine : is_for aid session ≡ true
  pub found : session_of opened aid ≡ some session
  pub was : session ≡ Option.get_or (session_of st aid) (fresh aid)
  pub others : (b : ℕ) → b ≢ aid → session_of opened b ≡ session_of st b
  pub expiry : opened.expire_seconds ≡ st.expire_seconds
  pub counts : IsUnique st → IsUnique opened

Opens-hit :
    (st : Store) (aid i : ℕ) → find_index (is_for aid) st.sessions ≡ some i → Opens st aid i st
Opens-hit st aid i e =
    let f = find_index-Finds (is_for aid) st.sessions i e in
    record {
      session = f.entry;
      index = e;
      there = f.there;
      mine = f.passes;
      found = f.found;
      was = rw f.found;
      others = λ b ne. refl;
      expiry = refl;
      counts = λ h. h;
    }

Opens-free :
    (st : Store) (aid i : ℕ)
    → find_index (is_for aid) st.sessions ≡ none
    → find_index is_free st.sessions ≡ some i
    → Opens st aid i (record st { sessions = modify st.sessions i (λ s. fresh aid) })
Opens-free st aid i absent vacant =
    let f = find_index-Finds is_free st.sessions i vacant in
    let gone = find_index-none (is_for aid) st.sessions absent in
    record {
      session = fresh aid;
      index =
          find_index-modify_fresh (is_for aid) st.sessions i (λ s. fresh aid) f.entry absent f.there
            (==_refl aid);
      there = get_elem?-modify st.sessions i (λ s. fresh aid) f.entry f.there;
      mine = ==_refl aid;
      found =
          find-modify_fresh (is_for aid) st.sessions i (λ s. fresh aid) f.entry gone f.there
            (==_refl aid);
      was = rw gone;
      others = λ b ne.
          find-modify_ne (is_for b) st.sessions i (λ s. fresh aid) f.entry f.there
            (other_free b f.entry f.passes) (other_fresh b ne);
      expiry = refl;
      counts = λ h b. ground (
        arith,
        h b,
        count-modify (is_for b) st.sessions i (λ s. fresh aid) f.entry f.there,
        other_free b f.entry f.passes,
        (find-none_iff (is_for aid) st.sessions).0 gone,
      );
    }
  where
    other_free : (b : ℕ) (s : Session) → is_free s ≡ true → is_for b s ≡ false
    other_free b s h = ground arith

    other_fresh : (b : ℕ) → b ≢ aid → is_for b (fresh aid) ≡ false
    other_fresh b ne = ground arith

moved :
    {st : Store} {aid j i : ℕ} {o opened : Store}
    → j ≡ i
    → o ≡ opened
    → Opens st aid j o
    → Opens st aid i opened
moved {st} {aid} {j} {i} {o} {opened} ej eo h =
    subst (λ s. Opens st aid i s) eo (subst (λ k. Opens st aid k o) ej h)

by_searches :
    (st : Store) (aid i : ℕ) (opened : Store) (found vacant : Option ℕ)
    → find_index (is_for aid) st.sessions ≡ found
    → find_index is_free st.sessions ≡ vacant
    → opened_by st aid (two_searches 0 none found vacant) ≡ some (i, opened)
    → Opens st aid i opened
by_searches st aid i opened (some k) vacant f v e =
    moved (ground arith) (ground arith) (Opens-hit st aid k f)
by_searches st aid i opened none (some k) f v e =
    let back : 0 + k ≡ k = omega arith in
    let eo : record st { sessions = modify st.sessions k (λ s. fresh aid) } ≡ opened =
      ground (arith, ap (λ n. modify st.sessions n (λ s. fresh aid)) back) in
    moved (ground arith) eo (Opens-free st aid k f v)
by_searches st aid i opened none none f v e = cc

-- Whatever slot a call gets, it holds the session of the id, or a fresh one if the id had none.
pub find_or_alloc-Opens :
    (st : Store) (aid i : ℕ) (opened : Store)
    → find_or_alloc st aid ≡ some (i, opened)
    → Opens st aid i opened
unfolding find_or_alloc
find_or_alloc-Opens st aid i opened e =
    by_searches st aid i opened _ _ refl refl
      (ap (opened_by st aid) (sym (scan_lem aid 0 none st.sessions)) ∙ e)

-- Neither the id's session nor a free slot is there.
abbrev pub IsFullFor : Store → ℕ → Type 0
IsFullFor st aid =
    (find_index (is_for aid) st.sessions ≡ none) × (find_index is_free st.sessions ≡ none)

none_by :
    (st : Store) (aid : ℕ) (found vacant : Option ℕ)
    → (opened_by st aid (two_searches 0 none found vacant) ≡ none)
      ↔ ((found ≡ none) × (vacant ≡ none))
none_by st aid (some k) vacant = ((λ e. cc), (λ h. cc h.0))
none_by st aid none (some k) = ((λ e. cc), (λ h. cc h.1))
none_by st aid none none = ((λ e. (refl, refl)), (λ h. refl))

-- No slot is given out exactly if the id has no session and every slot is taken.
pub find_or_alloc-none_iff :
    (st : Store) (aid : ℕ) → (find_or_alloc st aid ≡ none) ↔ IsFullFor st aid
unfolding find_or_alloc
find_or_alloc-none_iff st aid = rw (scan_lem aid 0 none st.sessions) (none_by st aid _ _)

-- The session that a call on `aid` starts from.
abbrev pub before : Store → ℕ → Session
before st aid = Option.get_or (session_of st aid) (fresh aid)

-- From `st` to `st'` the session of `aid` went through `f`, and no other id's changed.
pub record Updates (st : Store) (aid : ℕ) (f : Session → Session) (st' : Store) : Type 0 where
  pub own : session_of st' aid ≡ some (f (before st aid))
  pub others : (b : ℕ) → b ≢ aid → session_of st' b ≡ session_of st b
  pub expiry : st'.expire_seconds ≡ st.expire_seconds
  pub counts : IsUnique st → IsUnique st'

-- Writes that leave a session in its place: the id and the `used` flag stay.
abbrev pub KeepsKey : (Session → Session) → Type 0
KeepsKey f = (s : Session) → ((f s).aid ≡ s.aid) × ((f s).used ≡ s.used)

module _ (st : Store) (aid : ℕ) (f : Session → Session) (keeps : KeepsKey f) where
  keeps_for : (b : ℕ) (s : Session) → is_for b (f s) ≡ is_for b s
  keeps_for b s = ground (arith, keeps s)

  pub write-Updates :
      (i : ℕ) (opened : Store)
      → find_or_alloc st aid ≡ some (i, opened)
      → Updates st aid f (write_session (some (i, opened)) st f).0
  write-Updates i opened e =
      let o = find_or_alloc-Opens st aid i opened e in
      record {
        own =
            find-modify_found (is_for aid) opened.sessions i f o.session o.index o.found
              (keeps_for aid o.session ∙ o.mine)
            ∙ ap (λ s. some (f s)) o.was;
        others = λ b ne.
            find-modify_ne (is_for b) opened.sessions i f o.session o.there
              (elsewhere b ne o.session o.mine)
              (keeps_for b o.session ∙ elsewhere b ne o.session o.mine)
            ∙ o.others b ne;
        expiry = o.expiry;
        counts = λ h b. omega (
          arith,
          o.counts h b,
          count-modify (is_for b) opened.sessions i f o.session o.there,
          ap bit (keeps_for b o.session),
        );
      }
    where
      elsewhere : (b : ℕ) → b ≢ aid → (s : Session) → is_for aid s ≡ true → is_for b s ≡ false
      elsewhere b ne s mine = ground arith

  -- A call that reports success has updated the session of its id.
  pub write_ok-Updates :
      (write_session (find_or_alloc st aid) st f).1 ≡ true
      → Updates st aid f (write_session (find_or_alloc st aid) st f).0
  write_ok-Updates ok = elim (Option-cases (find_or_alloc st aid)) [
    | inl full ↦ absurd (false≢true (sym (ap (λ p. (write_session p st f).1) full) ∙ ok))
    | inr ((i, opened), got) ↦
        subst (λ p. Updates st aid f (write_session p st f).0) (sym got)
          (write-Updates i opened got)
  ]

  -- Where the id has a session, a call succeeds.
  pub write_ok_again :
      (s : Session)
      → session_of st aid ≡ some s
      → (write_session (find_or_alloc st aid) st f).1 ≡ true
  write_ok_again s e = elim (Option-cases (find_or_alloc st aid)) [
    | inl full ↦
        let gone =
          find_index-none (is_for aid) st.sessions ((find_or_alloc-none_iff st aid).0 full).0 in
        absurd (none-ne-some s (sym gone ∙ e))
    | inr (p, got) ↦ ap (λ q. (write_session q st f).1) got
  ]
