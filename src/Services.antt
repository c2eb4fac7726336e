-- ===== src/Services.antt =====
-- src/osfx_service_runtime.c: a table of named services and the calls that drive them. The functions
-- of a service are the application's: a function takes the instance and the state of the application,
-- and gives the `int` it returns, as a 32-bit word, and the new state. It is taken not to call the
-- runtime itself. A text is its characters without the final 0; a null pointer is `none`.
pub mod Drive
pub mod Table
pub mod Lifecycle
mod Tests
use osynaptic_fx.Prelude.{
  ℕ, zero, suc, ◌+◌, ◌%◌, ◌^◌, ◌==◌, ltb, leb, if◌then◌else◌, Bool, true, false, not, ◌&&◌, List,
  [], ◌∷◌, length, replicate, get_or, Option, none, some,
}
use osynaptic_fx.Prelude.Texts.{same_text, has_room}
use osynaptic_fx.Prelude.Slots.{find_index, find, modify, count}

abbrev pub service_max : ℕ
service_max = 32

abbrev pub service_name_max : ℕ
service_name_max = 32

abbrev pub service_config_max : ℕ
service_config_max = 512

abbrev pub next_count : ℕ → ℕ
next_count n = (n + 1) % 2 ^ 32

-- `rc ? 1 : 0`.
abbrev pub succeeds : ℕ → Bool
succeeds rc = not (rc == 0)

abbrev pub is_there {ℓ} : {A : Type ℓ} → Option A → Bool
is_there none = false
is_there (some x) = true

module _ (W : Type 0) where
  abbrev pub Hook : Type 0 → Type 0
  Hook A = Option (ℕ → A → W → ℕ × W)

  -- What `cmd_fn` gets: the command, its arguments, and the room for the answer, which it writes.
  pub record Command : Type 0 where
    pub cmd : List ℕ
    pub args : Option (List ℕ)
    pub out : Option ℕ

  pub record Slot : Type 0 where
    pub name : List ℕ
    pub config : List ℕ
    pub instance_ptr : ℕ
    pub init_fn : Hook (List ℕ)
    pub tick_fn : Hook ℕ
    pub close_fn : Hook (Unit {0})
    pub reload_fn : Hook (List ℕ)
    pub cmd_fn : Hook Command
    pub used : Bool
    pub enabled : Bool
    pub running : Bool
    pub last_rc : ℕ
    pub init_count : ℕ
    pub tick_count : ℕ
    pub close_count : ℕ
    pub reload_count : ℕ
    pub cmd_count : ℕ

  abbrev pub zero_slot : Slot
  zero_slot = record {
    name = [];
    config = [];
    instance_ptr = 0;
    init_fn = none;
    tick_fn = none;
    close_fn = none;
    reload_fn = none;
    cmd_fn = none;
    used = false;
    enabled = false;
    running = false;
    last_rc = 0;
    init_count = 0;
    tick_count = 0;
    close_count = 0;
    reload_count = 0;
    cmd_count = 0;
  }

  abbrev pub Runtime : Type 0
  Runtime = List Slot

  abbrev pub runtime_init : Runtime
  runtime_init = replicate service_max zero_slot

  abbrev pub is_named : List ℕ → Slot → Bool
  is_named name s = s.used && same_text s.name name

  abbrev pub is_used : Slot → Bool
  is_used s = s.used

  abbrev pub is_free : Slot → Bool
  is_free s = not s.used

  -- `find_slot` and `alloc_slot`: the place of the slot.
  abbrev pub find_slot : Runtime → List ℕ → Option ℕ
  find_slot rt name = find_index (is_named name) rt

  abbrev pub alloc_slot : Runtime → Option ℕ
  alloc_slot rt = find_index is_free rt

  -- The functions that a registration brings.
  pub record Hooks : Type 0 where
    pub instance_ptr : ℕ
    pub init_fn : Hook (List ℕ)
    pub tick_fn : Hook ℕ
    pub close_fn : Hook (Unit {0})
    pub reload_fn : Hook (List ℕ)
    pub cmd_fn : Hook Command

  abbrev pub hooked : Hooks → Slot → Slot
  hooked h s = record s {
    instance_ptr = h.instance_ptr;
    init_fn = h.init_fn;
    tick_fn = h.tick_fn;
    close_fn = h.close_fn;
    reload_fn = h.reload_fn;
    cmd_fn = h.cmd_fn;
    enabled = true;
  }

  -- The initial configuration, if one is given and has room.
  abbrev pub configured : Option (List ℕ) → Slot → Slot
  configured none s = s
  configured (some config) s =
      if has_room service_config_max config then record s { config = config } else s

  abbrev pub config_ok : Option (List ℕ) → Bool
  config_ok none = true
  config_ok (some config) = has_room service_config_max config

  abbrev pub named : List ℕ → Slot
  named name = record zero_slot { used = true; name = name }

  -- A registration in the slot of the name, or in a free one.
  abbrev pub register_at :
      Runtime → List ℕ → Hooks → Option (List ℕ) → Option ℕ → Option ℕ → Runtime × Bool
  register_at rt name h config (some i) vacant =
      (modify rt i (λ s. configured config (hooked h s)), config_ok config)
  register_at rt name h config none none = (rt, false)
  register_at rt name h config none (some i) =
      if has_room service_name_max name
      then (modify rt i (λ s. configured config (hooked h (named name))), config_ok config)
      else (modify rt i (λ s. zero_slot), false)

  unfoldable pub register_ex : Runtime → List ℕ → Hooks → Option (List ℕ) → Runtime × Bool
  register_ex rt name h config =
      if not (is_there h.init_fn)
      then (rt, false)
      else register_at rt name h config (find_slot rt name) (alloc_slot rt)

  unfoldable pub register : Runtime → List ℕ → Hooks → Option (List ℕ) → Runtime × Bool
  register rt name h config = register_ex rt name (record h { cmd_fn = none }) config

  abbrev pub write_slot : Runtime → Option ℕ → (Slot → Slot) → Runtime × Bool
  write_slot rt none f = (rt, false)
  write_slot rt (some i) f = (modify rt i f, true)

  unfoldable pub set_enabled : Runtime → List ℕ → Bool → Runtime × Bool
  set_enabled rt name enabled =
      write_slot rt (find_slot rt name) (λ s. record s { enabled = enabled })

  unfoldable pub set_config : Runtime → List ℕ → List ℕ → Runtime × Bool
  set_config rt name config =
      if has_room service_config_max config
      then write_slot rt (find_slot rt name) (λ s. record s { config = config })
      else (rt, false)

  unfoldable pub get_config : Runtime → List ℕ → Option (List ℕ)
  get_config rt name = elim (find (is_named name) rt) [ none ↦ none | some s ↦ some s.config ]
