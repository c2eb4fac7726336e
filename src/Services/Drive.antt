-- ===== src/Services/Drive.antt =====
-- The calls of src/osfx_service_runtime.c that run services, and those that ask about them.
use osynaptic_fx.Prelude.{
  ℕ, ◌+◌, ◌==◌, if◌then◌else◌, Bool, true, false, not, ◌&&◌, List, [], ◌∷◌, get_or, Option, none,
  some,
}
use osynaptic_fx.Prelude.Slots.{find, modify, count}
use osynaptic_fx.Prelude.Texts.{has_room}
use osynaptic_fx.Services.{
  Slot, Runtime, Command, zero_slot, find_slot, is_named, is_used, next_count, succeeds, has_room,
  service_config_max,
}

module _ (W : Type 0) where
  -- A call on one slot: the slot and the state of the application afterwards, and its success.
  abbrev pub Turn : Type 0
  Turn = Slot W × W × Bool

  -- `(s->config[0] != '\0') ? s->config : (default_config ? default_config : "")`.
  abbrev pub effective_config : Option (List ℕ) → List ℕ → List ℕ
  effective_config (some default_config) [] = default_config
  effective_config none [] = []
  effective_config default_config (c ∷ config) = c ∷ config

  abbrev pub started : Slot W → ℕ × W → Turn
  started s (rc, w) = (
    record s { last_rc = rc; init_count = next_count s.init_count; running = succeeds rc },
    w,
    succeeds rc,
  )

  abbrev pub init_with : Option (List ℕ) → Slot W → W → Option (ℕ → List ℕ → W → ℕ × W) → Turn
  init_with default_config s w none = (s, w, true)
  init_with default_config s w (some init_fn) =
      if s.used && s.enabled
      then started s (init_fn s.instance_ptr (effective_config default_config s.config) w)
      else (s, w, true)

  abbrev pub init_slot : Option (List ℕ) → Slot W → W → Turn
  init_slot default_config s w = init_with default_config s w s.init_fn

  abbrev pub ticked : Slot W → ℕ × W → Turn
  ticked s (rc, w) =
      (record s { last_rc = rc; tick_count = next_count s.tick_count }, w, succeeds rc)

  abbrev pub tick_with : ℕ → Slot W → W → Option (ℕ → ℕ → W → ℕ × W) → Turn
  tick_with now s w none = (s, w, true)
  tick_with now s w (some tick_fn) =
      if s.used && (s.enabled && s.running)
      then ticked s (tick_fn s.instance_ptr now w)
      else (s, w, true)

  abbrev pub tick_slot : ℕ → Slot W → W → Turn
  tick_slot now s w = tick_with now s w s.tick_fn

  abbrev pub closed : Slot W → ℕ × W → Turn
  closed s (rc, w) = (
    record s { last_rc = rc; close_count = next_count s.close_count; running = false },
    w,
    succeeds rc,
  )

  abbrev pub close_with : Slot W → W → Option (ℕ → Unit {0} → W → ℕ × W) → Turn
  close_with s w none =
      if s.used && s.running then (record s { running = false }, w, true) else (s, w, true)
  close_with s w (some close_fn) =
      if s.used && s.running then closed s (close_fn s.instance_ptr tt w) else (s, w, true)

  abbrev pub close_slot : Slot W → W → Turn
  close_slot s w = close_with s w s.close_fn

  -- One loop over all slots; `ok` is false if one turn failed.
  unfoldable pub sweep : (Slot W → W → Turn) → Runtime W → W → Runtime W × W × Bool
  sweep turn [] w = ([], w, true)
  sweep turn (s ∷ rt) w =
      let (s', w', ok) = turn s w in
      let (rt', w'', oks) = sweep turn rt w' in (s' ∷ rt', w'', ok && oks)

  unfoldable pub init_all : Runtime W → Option (List ℕ) → W → Runtime W × W × Bool
  init_all rt default_config w = sweep (init_slot default_config) rt w

  unfoldable pub tick_all : Runtime W → ℕ → W → Runtime W × W × Bool
  tick_all rt now w = sweep (tick_slot now) rt w

  unfoldable pub close_all : Runtime W → W → Runtime W × W × Bool
  close_all rt w = sweep close_slot rt w

  -- One turn on the slot of a name.
  abbrev pub run_at : Runtime W → W → (Slot W → W → Turn) → Option ℕ → Runtime W × W × Bool
  run_at rt w turn none = (rt, w, false)
  run_at rt w turn (some i) =
      let (s, w', ok) = turn (get_or rt i (zero_slot W)) w in (modify rt i (λ old. s), w', ok)

  abbrev pub load_with : Option (List ℕ) → Slot W → W → Option (ℕ → List ℕ → W → ℕ × W) → Turn
  load_with default_config s w none = (s, w, false)
  load_with default_config s w (some init_fn) =
      if s.enabled
      then started s (init_fn s.instance_ptr (effective_config default_config s.config) w)
      else (s, w, false)

  unfoldable pub load : Runtime W → List ℕ → Option (List ℕ) → W → Runtime W × W × Bool
  load rt name default_config w =
      run_at rt w (λ s x. load_with default_config s x s.init_fn) (find_slot W rt name)

  abbrev pub commanded : Slot W → ℕ × W → Turn
  commanded s (rc, w) =
      (record s { last_rc = rc; cmd_count = next_count s.cmd_count }, w, succeeds rc)

  abbrev pub command_with : Command W → Slot W → W → Option (ℕ → Command W → W → ℕ × W) → Turn
  command_with c s w none = (s, w, false)
  command_with c s w (some cmd_fn) =
      if s.enabled && s.running then commanded s (cmd_fn s.instance_ptr c w) else (s, w, false)

  unfoldable pub command : Runtime W → List ℕ → Command W → W → Runtime W × W × Bool
  command rt name c w = run_at rt w (λ s x. command_with c s x s.cmd_fn) (find_slot W rt name)

  abbrev pub reloaded : Slot W → ℕ × W → Turn
  reloaded s (rc, w) = (
    record s {
      last_rc = rc;
      reload_count = next_count s.reload_count;
      running = s.running && succeeds rc;
    },
    w,
    succeeds rc,
  )

  -- `if (s->running && s->close_fn) { ... }`, whose result is not read.
  abbrev pub close_before : Slot W → W → Option (ℕ → Unit {0} → W → ℕ × W) → Slot W × W
  close_before s w none = (s, w)
  close_before s w (some close_fn) =
      if s.running
      then (
        record s { close_count = next_count s.close_count; running = false },
        (close_fn s.instance_ptr tt w).1,
      )
      else (s, w)

  abbrev pub restarted : Slot W → ℕ × W → Turn
  restarted s (rc, w) = (
    record s {
      last_rc = rc;
      init_count = next_count s.init_count;
      reload_count = next_count s.reload_count;
      running = succeeds rc;
    },
    w,
    succeeds rc,
  )

  abbrev pub restart : Slot W × W → Option (ℕ → List ℕ → W → ℕ × W) → Turn
  restart (s, w) none = (s, w, false)
  restart (s, w) (some init_fn) = restarted s (init_fn s.instance_ptr s.config w)

  -- From the call of `reload_fn` on, or of what stands in for it.
  abbrev pub reload_with : Slot W → W → Option (ℕ → List ℕ → W → ℕ × W) → Turn
  reload_with s w (some reload_fn) = reloaded s (reload_fn s.instance_ptr s.config w)
  reload_with s w none = restart (close_before s w s.close_fn) s.init_fn

  abbrev pub reload_slot : Option (List ℕ) → Slot W → W → Turn
  reload_slot none s w = if s.enabled then reload_with s w s.reload_fn else (s, w, false)
  reload_slot (some config) s w =
      if not s.enabled
      then (s, w, false)
      else if has_room service_config_max config
      then reload_with (record s { config = config }) w s.reload_fn
      else (s, w, false)

  unfoldable pub reload : Runtime W → List ℕ → Option (List ℕ) → W → Runtime W × W × Bool
  reload rt name config w = run_at rt w (reload_slot config) (find_slot W rt name)

  pub record Status : Type 0 where
    pub enabled : Bool
    pub running : Bool
    pub last_rc : ℕ
    pub init_count : ℕ
    pub tick_count : ℕ
    pub close_count : ℕ
    pub reload_count : ℕ
    pub cmd_count : ℕ

  abbrev pub status_of : Slot W → Status
  status_of s = record {
    enabled = s.enabled;
    running = s.running;
    last_rc = s.last_rc;
    init_count = s.init_count;
    tick_count = s.tick_count;
    close_count = s.close_count;
    reload_count = s.reload_count;
    cmd_count = s.cmd_count;
  }

  unfoldable pub get_status : Runtime W → List ℕ → Option Status
  get_status rt name = elim (find (is_named W name) rt) [
    | none ↦ none
    | some s ↦ some (status_of s)
  ]

  unfoldable pub service_count : Runtime W → ℕ
  service_count rt = count (is_used W) rt

  -- The loop of `osfx_service_name_at`, with `seen` slots in use so far.
  unfoldable pub name_from : Runtime W → ℕ → ℕ → Option (List ℕ)
  name_from [] index seen = none
  name_from (s ∷ rt) index seen =
      let rest = name_from rt index seen in
      let next = name_from rt index (seen + 1) in
      if not s.used then rest else if seen == index then some s.name else next

  abbrev pub copied : ℕ → Option (List ℕ) → Option (List ℕ)
  copied cap none = none
  copied cap (some name) = if has_room cap name then some name else none

  unfoldable pub name_at : Runtime W → ℕ → ℕ → Option (List ℕ)
  name_at rt index out_cap = copied out_cap (name_from rt index 0)
