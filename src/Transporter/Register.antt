-- ===== src/Transporter/Register.antt =====
-- Registering and disabling drivers of src/osfx_transporter_runtime.c, and sending by their names.
use osynaptic_fx.Prelude.{
  ℕ, zero, suc, ◌≤◌, ◌≡◌, ◌≢◌, ◌⊎◌, refl, sym, ap, ◌∙◌, if_true, if_false, Bool, true, false, List,
  [], ◌∷◌, get_elem?, Option, none, some, arith, inl, inr, Option-cases,
}
use osynaptic_fx.Prelude.Texts.{same_text_refl, has_room}
use osynaptic_fx.Prelude.Slots.{
  bit, find_index, find, modify, count, find_index-none, find_index-Finds, find-modify_fresh,
  count-modify,
}
use osynaptic_fx.Solidity.Text.{ℤ}
use osynaptic_fx.Transporter.{
  tries, not_below_zero, Send, Driver, Drivers, is_named, is_vacant, is_sending, updated, occupied,
  named, register, register_at, set_enabled, attempt, try_driver, try_found, dispatch_named,
  transporter_name_max,
}

module _ {ℓ} {A : Type ℓ} (p q : A → Bool) (f : A → A) where
  -- The first entry that passes `p` is changed to pass `q`, which none passed without passing `p`.
  find-modify_first :
      (xs : List A) (i : ℕ) (x : A)
      → ((y : A) → q y ≡ true → p y ≡ true)
      → find_index p xs ≡ some i
      → get_elem? xs i ≡ some x
      → q (f x) ≡ true
      → find q (modify xs i f) ≡ some (f x)
  unfolding find_index find modify
  find-modify_first [] i x weaker e g h = cc
  find-modify_first (y ∷ xs) zero x weaker e g h = ground arith
  find-modify_first (y ∷ xs) (suc i) x weaker e g h =
      ground (arith, weaker y, find-modify_first xs i x weaker)

  -- The only entry that passes `p` is changed to fail `q`, so that no entry passes it.
  find-modify_only :
      (xs : List A) (i : ℕ)
      → ((y : A) → q y ≡ true → p y ≡ true)
      → ((y : A) → q (f y) ≡ false)
      → find_index p xs ≡ some i
      → count p xs ≤ 1
      → find q (modify xs i f) ≡ none
  unfolding find_index find modify count
  find-modify_only [] i weaker fails e h = cc
  find-modify_only (y ∷ xs) zero weaker fails e h = ground (arith, fails y, none_left xs)
    where
      none_left : (zs : List A) → count p zs ≡ 0 → find q zs ≡ none
      none_left [] k = refl
      none_left (z ∷ zs) k = ground (arith, weaker z, none_left zs)
  find-modify_only (y ∷ xs) (suc i) weaker fails e h =
      ground (arith, weaker y, find-modify_only xs i weaker fails)

module _ (W : Type 0) where
  sending_named :
      (name : List ℕ) (d : Driver W) → is_sending W name d ≡ true → is_named W name d ≡ true
  sending_named name d h = ground arith

  -- The tries that a driver has after it was registered: those of its name, or one.
  abbrev pub tries_after : Option (Driver W) → ℕ
  tries_after none = 1
  tries_after (some d) = tries (not_below_zero d.max_retries)

  found_again :
      (rt : Drivers W) (name : List ℕ) (priority : ℤ) (send : Send W) (payload : List ℕ) (w : W)
      (i : ℕ)
      → find_index (is_named W name) rt ≡ some i
      → dispatch_named W (modify rt i (updated W priority send)) name payload w
        ≡ attempt W send payload (tries_after (find (is_named W name) rt)) w
  unfolding dispatch_named
  found_again rt name priority send payload w i e =
      let here = find_index-Finds (is_named W name) rt i e in
      let hit = here.passes in
      ap (λ o. try_found W o payload w)
        (find-modify_first (is_named W name) (is_sending W name) (updated W priority send) rt i
          here.entry (sending_named name) e here.there (ground arith))
      ∙ ap (λ o. attempt W send payload (tries_after o) w) (sym here.found)

  not_sending :
      (name : List ℕ) (rt : Drivers W)
      → find_index (is_named W name) rt ≡ none
      → find (is_sending W name) rt ≡ none
  unfolding find_index find
  not_sending name [] e = refl
  not_sending name (d ∷ rt) e = ground (arith, sending_named name d, not_sending name rt)

  taken_slot :
      (rt : Drivers W) (name : List ℕ) (priority : ℤ) (send : Send W) (payload : List ℕ) (w : W)
      (i : ℕ)
      → has_room transporter_name_max name ≡ true
      → find_index (is_named W name) rt ≡ none
      → find_index (is_vacant W) rt ≡ some i
      → dispatch_named W
          (modify rt i (λ d. named W name (occupied W priority send d)))
          name
          payload
          w
        ≡ attempt W send payload (tries_after (find (is_named W name) rt)) w
  unfolding dispatch_named
  taken_slot rt name priority send payload w i room e vacant =
      let free = find_index-Finds (is_vacant W) rt i vacant in
      let x = occupied W priority send free.entry in
      let filled : named W name x ≡ record x { name = name } =
        if_true (has_room transporter_name_max name) (record x { name = name }) x room in
      let sends : is_sending W name (named W name x) ≡ true =
        ap (is_sending W name) filled ∙ same_text_refl name in
      ap (λ o. try_found W o payload w)
        (find-modify_fresh (is_sending W name) rt i (λ d. named W name (occupied W priority send d))
          free.entry (not_sending name rt e) free.there sends)
      ∙ ap (λ d. try_driver W d payload w) filled
      ∙ ap (λ o. attempt W send payload (tries_after o) w)
          (sym (find_index-none (is_named W name) rt e))

  -- A registration with room for the name, where the name has a slot or one is free, succeeds. To
  -- send by that name is then to try the function that was registered, once, or as often as the
  -- retries of the name's slot say.
  pub register_lem :
      (rt : Drivers W) (name : List ℕ) (priority : ℤ) (send : Send W) (payload : List ℕ) (w : W)
      → has_room transporter_name_max name ≡ true
      → (find_index (is_named W name) rt ≢ none) ⊎ (find_index (is_vacant W) rt ≢ none)
      → ((register W rt name priority send).1 ≡ true)
        × (dispatch_named W (register W rt name priority send).0 name payload w
            ≡ attempt W send payload (tries_after (find (is_named W name) rt)) w)
  unfolding register
  register_lem rt name priority send payload w room space =
      elim (Option-cases (find_index (is_named W name) rt)) [
        | inr (i, e) ↦ rw (register_at, e) (refl, found_again rt name priority send payload w i e)
        | inl e ↦ elim (Option-cases (find_index (is_vacant W) rt)) [
          | inr (i, vacant) ↦
              rw (e, vacant) (room, taken_slot rt name priority send payload w i room e vacant)
          | inl full ↦ absurd (no_slot e full space)
        ]
      ]
    where
      no_slot :
          find_index (is_named W name) rt ≡ none
          → find_index (is_vacant W) rt ≡ none
          → (find_index (is_named W name) rt ≢ none) ⊎ (find_index (is_vacant W) rt ≢ none)
          → ⊥
      no_slot e full (inl h) = h e
      no_slot e full (inr h) = h full

  -- A new name without room is refused, but it costs a free slot: one more is taken than before.
  pub register_long_name :
      (rt : Drivers W) (name : List ℕ) (priority : ℤ) (send : Send W) (i : ℕ)
      → has_room transporter_name_max name ≡ false
      → find_index (is_named W name) rt ≡ none
      → find_index (is_vacant W) rt ≡ some i
      → ((register W rt name priority send).1 ≡ false)
        × (suc (count (is_vacant W) (register W rt name priority send).0) ≡ count (is_vacant W) rt)
  unfolding register
  register_long_name rt name priority send i long e vacant =
      let free = find_index-Finds (is_vacant W) rt i vacant in
      let x = occupied W priority send free.entry in
      let kept : named W name x ≡ x =
        if_false (has_room transporter_name_max name) (record x { name = name }) x long in
      let counted =
        count-modify (is_vacant W) rt i (λ d. named W name (occupied W priority send d)) free.entry
          free.there in
      rw (e, vacant)
        (long, omega (arith, counted, ap (λ d. bit (is_vacant W d)) kept, ap bit free.passes))

  -- Where no name has two slots, a driver that was disabled sends nothing by its name.
  disabled_silent :
      (rt : Drivers W) (name payload : List ℕ) (w : W)
      → count (is_named W name) rt ≤ 1
      → dispatch_named W (set_enabled W rt name false).0 name payload w ≡ (false, w)
  unfolding dispatch_named set_enabled
  disabled_silent rt name payload w unique = elim (Option-cases (find_index (is_named W name) rt)) [
    | inl e ↦ rw e (ap (λ o. try_found W o payload w) (not_sending name rt e))
    | inr (i, e) ↦ rw e (
        ap (λ o. try_found W o payload w)
          (find-modify_only (is_named W name) (is_sending W name)
            (λ d. record d { enabled = false }) rt i (sending_named name) (off name) e unique))
  ]
    where
      off : (n : List ℕ) (d : Driver W) → is_sending W n (record d { enabled = false }) ≡ false
      off n d = ground arith
