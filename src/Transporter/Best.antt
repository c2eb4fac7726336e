-- ===== src/Transporter/Best.antt =====
-- Which driver `osfx_transporter_dispatch_auto` of src/osfx_transporter_runtime.c tries first.
use osynaptic_fx.Prelude.{
  ℕ, suc, ◌+◌, ◌≡◌, ◌⊎◌, refl, ap, ◌∙◌, ◌&&◌, Bool, true, false, [], ◌∷◌, get_elem?, Option, some,
  arith, All, inl, inr,
}
use osynaptic_fx.Solidity.Text.{ℤ, pos, negsuc}
use osynaptic_fx.Transporter.{ltz, Driver, Drivers, is_ready, pick}

ltz_irrefl : (a : ℤ) → ltz a a ≡ false
ltz_irrefl (pos a) = ground arith
ltz_irrefl (negsuc a) = ground arith

ltz-asym : (a b : ℤ) → ltz a b ≡ true → ltz b a ≡ false
ltz-asym (pos a) (pos b) h = ground arith
ltz-asym (pos a) (negsuc b) h = cc
ltz-asym (negsuc a) (pos b) h = refl
ltz-asym (negsuc a) (negsuc b) h = ground arith

ltz_trans : (a b c : ℤ) → ltz a b ≡ true → ltz b c ≡ true → ltz a c ≡ true
ltz_trans (pos a) (pos b) (pos c) h k = ground arith
ltz_trans (pos a) (pos b) (negsuc c) h k = cc
ltz_trans (pos a) (negsuc b) c h k = cc
ltz_trans (negsuc a) b (pos c) h k = refl
ltz_trans (negsuc a) (pos b) (negsuc c) h k = cc
ltz_trans (negsuc a) (negsuc b) (negsuc c) h k = ground arith

-- `b` is not above `a`, and `c` is.
ltz-above : (a b c : ℤ) → ltz a b ≡ false → ltz a c ≡ true → ltz c b ≡ false
ltz-above a (pos b) (negsuc c) h k = above_negative a b c h k
  where
    above_negative :
        (a : ℤ) (b c : ℕ)
        → ltz a (pos b) ≡ false
        → ltz a (negsuc c) ≡ true
        → ltz (negsuc c) (pos b) ≡ false
    above_negative (pos a) b c h k = cc
    above_negative (negsuc a) b c h k = cc
ltz-above a (negsuc b) (pos c) h k = refl
ltz-above (pos a) (pos b) (pos c) h k = ground arith
ltz-above (negsuc a) (pos b) (pos c) h k = cc
ltz-above (pos a) (negsuc b) (negsuc c) h k = cc
ltz-above (negsuc a) (negsuc b) (negsuc c) h k = ground arith

module _ (W : Type 0) where
  -- No driver that is ready has a priority above `p`.
  abbrev pub Below : ℤ → Drivers W → Type 0
  Below p = All (λ d. is_ready W d ≡ true → ltz p d.priority ≡ false)

  -- The loop picks the slot `j`, counted from where it is: a ready driver with the highest priority.
  pub record Picks (i : ℕ) (p : ℤ) (rt : Drivers W) (out : Option ℕ) : Type 0 where
    pub j : ℕ
    pub driver : Driver W
    pub out_is : out ≡ some (i + j)
    pub there : get_elem? rt j ≡ some driver
    pub ready : is_ready W driver ≡ true
    pub higher : ltz p driver.priority ≡ true
    pub best : Below driver.priority rt

  pick_further :
      (i : ℕ) (p q : ℤ) (d : Driver W) (rest : Drivers W) (out : Option ℕ)
      → (h : Picks (suc i) q rest out) → ltz p h.driver.priority ≡ true
      → (is_ready W d ≡ true → ltz h.driver.priority d.priority ≡ false)
      → Picks i p (d ∷ rest) out
  pick_further i p q d rest out h above first = record {
    j = suc h.j;
    driver = h.driver;
    out_is = h.out_is ∙ ap some (omega arith);
    there = h.there;
    ready = h.ready;
    higher = above;
    best = (first, h.best);
  }

  pub pick_lem :
      (i : ℕ) (best : Option ℕ) (p : ℤ) (rt : Drivers W)
      → ((pick W i best p rt ≡ best) × Below p rt) ⊎ Picks i p rt (pick W i best p rt)
  unfolding pick
  pick_lem i best p [] = inl (refl, tt)
  pick_lem i best p (d ∷ rest) =
      choose (is_ready W d && ltz p d.priority) refl (pick_lem (suc i) (some i) d.priority rest)
        (pick_lem (suc i) best p rest)
    where
      choose :
          (b : Bool)
          → (is_ready W d && ltz p d.priority) ≡ b
          → ((pick W (suc i) (some i) d.priority rest ≡ some i) × Below d.priority rest)
            ⊎ Picks (suc i) d.priority rest (pick W (suc i) (some i) d.priority rest)
          → ((pick W (suc i) best p rest ≡ best) × Below p rest)
            ⊎ Picks (suc i) p rest (pick W (suc i) best p rest)
          → (let out : Option ℕ = elim b [
            | true ↦ pick W (suc i) (some i) d.priority rest
            | false ↦ pick W (suc i) best p rest
          ] in
              ((out ≡ best) × Below p (d ∷ rest)) ⊎ Picks i p (d ∷ rest) out)
      choose true e (inl taken) other = inr (record {
        j = 0;
        driver = d;
        out_is = taken.0 ∙ ap some (omega arith);
        there = refl;
        ready = ground arith;
        higher = ground arith;
        best = ((λ r. ltz_irrefl d.priority), taken.1);
      })
      choose true e (inr further) other = inr (
          pick_further i p d.priority d rest _ further
            (ltz_trans p d.priority further.driver.priority (ground arith) further.higher)
            (λ r. ltz-asym d.priority further.driver.priority further.higher))
      choose false e taken (inl none_higher) =
          inl (none_higher.0, ((λ r. ground arith), none_higher.1))
      choose false e taken (inr further) = inr (
          pick_further i p p d rest _ further further.higher
            (λ r. ltz-above p d.priority further.driver.priority (ground arith) further.higher))
