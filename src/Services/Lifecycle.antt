-- ===== src/Services/Lifecycle.antt =====
-- What src/osfx_service_runtime.c does with services that were closed, and how it counts them.
use osynaptic_fx.Prelude.{
  ℕ, ◌+◌, ◌≤◌, ◌<◌, ◌≡◌, ◌≢◌, ◌↔◌, refl, true, false, ◌&&◌, List, [], ◌∷◌, Option, none, some,
  arith, inl, inr, Option-cases, length,
}
use osynaptic_fx.Prelude.Slots.{count}
use osynaptic_fx.Services.{Slot, Runtime}
use osynaptic_fx.Services.Drive.{
  Turn, sweep, tick_all, close_all, tick_slot, tick_with, close_slot, close_with, service_count,
  name_from, name_at,
}

module _ (W : Type 0) where
  -- A slot whose service does not run.
  abbrev IsStopped : Slot W → Type 0
  IsStopped s = (s.used && s.running) ≡ false

  close_slot-IsStopped : (s : Slot W) (w : W) → IsStopped (close_slot W s w).0
  close_slot-IsStopped s w = by s.close_fn
    where
      by : (f : Option (ℕ → Unit {0} → W → ℕ × W)) → IsStopped (close_with W s w f).0
      by none = ground arith
      by (some f) = ground arith

  tick_slot_stopped :
      (s : Slot W) (now : ℕ) (w : W) → IsStopped s → tick_slot W now s w ≡ (s, w, true)
  tick_slot_stopped s now w h = by s.tick_fn
    where
      by : (f : Option (ℕ → ℕ → W → ℕ × W)) → tick_with W now s w f ≡ (s, w, true)
      by none = refl
      by (some f) = ground arith

  close_slot_stopped : (s : Slot W) (w : W) → IsStopped s → close_slot W s w ≡ (s, w, true)
  close_slot_stopped s w h = by s.close_fn
    where
      by : (f : Option (ℕ → Unit {0} → W → ℕ × W)) → close_with W s w f ≡ (s, w, true)
      by none = ground arith
      by (some f) = ground arith

  -- A turn that leaves stopped services alone leaves all alone after a loop that stops them.
  sweep_twice :
      (stop turn : Slot W → W → Turn W) (rt : Runtime W) (w x : W)
      → ((s : Slot W) (v : W) → IsStopped (stop s v).0)
      → ((s : Slot W) (v : W) → IsStopped s → turn s v ≡ (s, v, true))
      → sweep W turn (sweep W stop rt w).0 x ≡ ((sweep W stop rt w).0, x, true)
  unfolding sweep
  sweep_twice stop turn [] w x h k = refl
  sweep_twice stop turn (s ∷ rt) w x h k =
      rw (k (stop s w).0 x (h s w), sweep_twice stop turn rt (stop s w).1 x h k) refl

  -- After all services were closed, a tick runs none of them and succeeds, at whatever time.
  pub tick_all-close_all :
      (rt : Runtime W) (now : ℕ) (w x : W)
      → tick_all W (close_all W rt w).0 now x ≡ ((close_all W rt w).0, x, true)
  unfolding tick_all close_all
  tick_all-close_all rt now w x =
      sweep_twice (close_slot W) (tick_slot W now) rt w x close_slot-IsStopped
        (λ s v h. tick_slot_stopped s now v h)

  -- Services are closed once: to close all again runs none and succeeds.
  pub close_all-close_all :
      (rt : Runtime W) (w x : W)
      → close_all W (close_all W rt w).0 x ≡ ((close_all W rt w).0, x, true)
  unfolding close_all
  close_all-close_all rt w x =
      sweep_twice (close_slot W) (close_slot W) rt w x close_slot-IsStopped close_slot_stopped

  name_from_iff :
      (rt : Runtime W) (index seen : ℕ)
      → seen ≤ index
      → (name_from W rt index seen ≢ none) ↔ (index < seen + service_count W rt)
  unfolding name_from service_count count
  name_from_iff [] index seen h = ((λ e. absurd (e refl)), (λ k. absurd (omega arith)))
  name_from_iff (s ∷ rt) index seen h =
      ground (arith, name_from_iff rt index seen h, name_from_iff rt index (seen + 1))

  -- With room for the name that it finds, `osfx_service_name_at` finds a name exactly for the indices below what
  -- `osfx_service_count` gives.
  pub name_at_iff :
      (rt : Runtime W) (index cap : ℕ)
      → ((name : List ℕ) → name_from W rt index 0 ≡ some name → length name + 1 ≤ cap)
      → (name_at W rt index cap ≢ none) ↔ (index < service_count W rt)
  unfolding name_at
  name_at_iff rt index cap room = elim (Option-cases (name_from W rt index 0)) [
    | inl gone ↦ ground (arith, gone, name_from_iff rt index 0 (omega arith))
    | inr (name, e) ↦ ground (arith, e, room name e, name_from_iff rt index 0 (omega arith))
  ]
