-- ===== src/Transporter/Dispatch.antt =====
-- `osfx_transporter_dispatch_auto` of src/osfx_transporter_runtime.c: who sends, and when none does.
use osynaptic_fx.Prelude.{
  ℕ, zero, suc, ◌+◌, ◌≡◌, ◌≢◌, ◌⊎◌, refl, sym, ap, ◌∙◌, subst, ◌==◌, ◌||◌, not, Bool, true, false,
  List, [], ◌∷◌, get_elem?, get_or, get_or-get_elem?, none, some, arith, inl, inr,
}
use mathlib.Core.Option
use osynaptic_fx.Solidity.Text.{ℤ, pos, negsuc}
use osynaptic_fx.Transporter.{
  ltz, lowest, tries, Send, Driver, Drivers, Dispatched, is_ready, attempt, try_driver, attempt_all,
  try_others, dispatch_auto, dispatch_best, zero_driver,
}
use osynaptic_fx.Transporter.Best.{Below, pick_lem}

module _ (W : Type 0) where
  -- A driver that sends a payload in whatever state the application is.
  pub record Sends (payload : List ℕ) (d : Driver W) : Type 0 where
    pub send : Send W
    pub its : d.send_fn ≡ some send
    pub always : (w : W) → (send payload w).0 ≡ true

  attempt_first :
      (send : Send W) (payload : List ℕ) (left : ℕ) (w : W)
      → (send payload w).0 ≡ true
      → attempt W send payload (suc left) w ≡ (true, (send payload w).1)
  unfolding attempt
  attempt_first send payload left w h = rw (attempt, h) refl

  attempt-tries :
      (send : Send W) (payload : List ℕ) (n : ℤ) (w : W)
      → (send payload w).0 ≡ true
      → attempt W send payload (tries n) w ≡ (true, (send payload w).1)
  attempt-tries send payload (pos n) w h = attempt_first send payload n w h
  attempt-tries send payload (negsuc n) w h = attempt_first send payload 0 w h

  try_driver-Sends :
      (d : Driver W) (payload : List ℕ) (w : W)
      → (s : Sends payload d) → try_driver W d payload w ≡ (true, (s.send payload w).1)
  try_driver-Sends d payload w s =
      ap (λ f. attempt_all W d payload f w) s.its
      ∙ attempt-tries s.send payload d.max_retries w (s.always w)

  -- Some driver sent.
  abbrev pub IsSent : Dispatched W → Type 0
  IsSent out = (name : List ℕ) × (out.0 ≡ some name)

  IsSent-or :
      (name : List ℕ) (w : W) (next : Dispatched W) (sent : Bool)
      → (sent ≡ false → IsSent next)
      → (let out : Dispatched W = elim sent [ true ↦ (some name, w) | false ↦ next ] in IsSent out)
  IsSent-or name w next true h = (name, refl)
  IsSent-or name w next false h = h refl

  skip_or :
      (skipped tried : Dispatched W) (skip : Bool)
      → (skip ≡ true → IsSent skipped)
      → (skip ≡ false → IsSent tried)
      → (let out : Dispatched W = elim skip [ true ↦ skipped | false ↦ tried ] in IsSent out)
  skip_or skipped tried true h k = h refl
  skip_or skipped tried false h k = k refl

  -- The loop over the others comes to a driver that sends, if no other sent before.
  try_others-Sends :
      (best i : ℕ) (rt : Drivers W) (payload : List ℕ) (w : W) (k : ℕ) (d : Driver W)
      → get_elem? rt k ≡ some d
      → is_ready W d ≡ true
      → Sends payload d
      → i + k ≢ best
      → IsSent (try_others W best i rt payload w)
  unfolding try_others
  try_others-Sends best i [] payload w k d there ready s ne = absurd (Option.none-ne-some d there)
  try_others-Sends best i (x ∷ rest) payload w zero d there ready s ne =
      let same : x ≡ d = Option.some-injective x d there in
      let x_ready : is_ready W x ≡ true = ap (is_ready W) same ∙ ready in
      let sends : (try_driver W x payload w).0 ≡ true =
        ap (λ y. (try_driver W y payload w).0) same
        ∙ ap (λ r. r.0) (try_driver-Sends d payload w s) in
      skip_or _ _ (i == best || not (is_ready W x)) (λ e. absurd (not_best e x_ready))
        (λ e.
          IsSent-or x.name (try_driver W x payload w).1 _ (try_driver W x payload w).0
            (λ f. absurd (true_not_false (sym sends ∙ f))))
    where
      true_not_false : true ≢ false
      true_not_false e = cc

      not_best : (i == best || not (is_ready W x)) ≡ true → is_ready W x ≡ true → ⊥
      not_best e r = ground (arith, ne)
  try_others-Sends best i (x ∷ rest) payload w (suc k) d there ready s ne =
      let next = λ (v : W).
        try_others-Sends best (suc i) rest payload v k d there ready s
          (λ e. ne (omega (arith, e))) in
      skip_or _ _ (i == best || not (is_ready W x)) (λ e. next w)
        (λ e.
          IsSent-or x.name (try_driver W x payload w).1 _ (try_driver W x payload w).0
            (λ f. next (try_driver W x payload w).1))

  Below-none :
      (p : ℤ) (rt : Drivers W) (k : ℕ) (d : Driver W)
      → get_elem? rt k ≡ some d
      → Below W p rt
      → is_ready W d ≡ true
      → ltz p d.priority ≡ false
  Below-none p [] k d there h ready = absurd (Option.none-ne-some d there)
  Below-none p (x ∷ rest) zero d there h ready =
      let same : x ≡ d = Option.some-injective x d there in
      ap (λ (y : Driver W). ltz p y.priority) (sym same) ∙ h.0 (ap (is_ready W) same ∙ ready)
  Below-none p (x ∷ rest) (suc k) d there h ready = Below-none p rest k d there h.1 ready

  at_zero : (j : ℕ) → 0 + j ≡ j
  at_zero j = omega arith

  -- If a driver that is ready, with a priority above -2147483647, sends whatever the state of the
  -- application, then some driver sends.
  pub dispatch_auto-IsSent :
      (rt : Drivers W) (payload : List ℕ) (w : W) (k : ℕ) (d : Driver W)
      → get_elem? rt k ≡ some d
      → is_ready W d ≡ true
      → ltz lowest d.priority ≡ true
      → Sends payload d
      → IsSent (dispatch_auto W rt payload w)
  unfolding dispatch_auto
  dispatch_auto-IsSent rt payload w k d there ready higher s = elim (pick_lem W 0 none lowest rt) [
    | inl h ↦ absurd (never (sym (Below-none lowest rt k d there h.1 ready) ∙ higher))
    | inr h ↦
        subst (λ o. IsSent (dispatch_best W rt payload w o))
          (sym (h.out_is ∙ ap some (at_zero h.j)))
          (IsSent-or (get_or rt h.j (zero_driver W)).name _ _
            (try_driver W (get_or rt h.j (zero_driver W)) payload w).0
            (λ refused.
              try_others-Sends h.j 0 rt payload _ k d there ready s
                (λ same_slot. never (sym refused ∙ chosen h.j same_slot))))
  ]
    where
      chosen : (j : ℕ) → 0 + k ≡ j → (try_driver W (get_or rt j (zero_driver W)) payload w).0 ≡ true
      chosen j e =
          let at : get_or rt j (zero_driver W) ≡ d =
            ap (λ i. get_or rt i (zero_driver W)) (omega (arith, e))
            ∙ get_or-get_elem? rt k (zero_driver W) d there in
          ap (λ y. (try_driver W y payload w).0) at ∙ ap (λ r. r.0) (try_driver-Sends d payload w s)

      never : false ≢ true
      never e = cc

  -- A driver that is ready, with a priority above -2147483647 and above those of all the others that
  -- are ready, and that sends whatever the state of the application, sends the payload, once, and no
  -- other driver is called.
  pub dispatch_auto_best :
      (rt : Drivers W) (payload : List ℕ) (w : W) (k : ℕ) (d : Driver W)
      → get_elem? rt k ≡ some d
      → is_ready W d ≡ true
      → ltz lowest d.priority ≡ true
      → ((j : ℕ) (e : Driver W)
          → get_elem? rt j ≡ some e
          → is_ready W e ≡ true
          → j ≢ k
          → ltz e.priority d.priority ≡ true)
      → (s : Sends payload d) → dispatch_auto W rt payload w ≡ (some d.name, (s.send payload w).1)
  unfolding dispatch_auto
  dispatch_auto_best rt payload w k d there ready higher above s =
      elim (pick_lem W 0 none lowest rt) [
        | inl h ↦ absurd (never (sym (Below-none lowest rt k d there h.1 ready) ∙ higher))
        | inr h ↦ elim (same_or_not h.j) [
          | inl same ↦
              let at : get_or rt h.j (zero_driver W) ≡ d =
                ap (λ i. get_or rt i (zero_driver W)) same
                ∙ get_or-get_elem? rt k (zero_driver W) d there in
              let sends = try_driver-Sends d payload w s in
              ap (dispatch_best W rt payload w) (h.out_is ∙ ap some (at_zero h.j))
              ∙ ap (λ y. taken y h.j (try_driver W y payload w)) at
              ∙ ap (taken d h.j) sends
          | inr other ↦ absurd (
              never (
                sym (Below-none h.driver.priority rt k d there h.best ready)
                ∙ above h.j h.driver h.there h.ready other))
        ]
      ]
    where
      taken : Driver W → ℕ → Bool × W → Dispatched W
      taken y j r = elim r.0 [ true ↦ (some y.name, r.1) | false ↦ try_others W j 0 rt payload r.1 ]

      same_or_not : (j : ℕ) → (j ≡ k) ⊎ (j ≢ k)
      same_or_not j = grind arith

      never : false ≢ true
      never e = cc
