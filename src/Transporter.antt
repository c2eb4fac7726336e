-- ===== src/Transporter.antt =====
-- src/osfx_transporter_runtime.c and include/osfx_transporter_runtime.h: a table of drivers that send
-- a payload, and the choice among them. The function of a driver is the application's: with its
-- `user_ctx` bound, it takes the payload and the application's state, and gives whether it sent, and
-- the new state. A text is its characters without the final 0.
pub mod Best
pub mod Dispatch
pub mod Register
mod Tests
use osynaptic_fx.Prelude.{
  ℕ, zero, suc, ◌+◌, ◌==◌, ltb, leb, if◌then◌else◌, Bool, true, false, not, ◌&&◌, ◌||◌, List, [],
  ◌∷◌, length, replicate, get_or, Option, none, some,
}
use osynaptic_fx.Prelude.Texts.{same_text, has_room}
use osynaptic_fx.Prelude.Slots.{find_index, find, modify}
use osynaptic_fx.Solidity.Text.{ℤ, pos, negsuc}

abbrev pub transporter_max : ℕ
transporter_max = 16

abbrev pub transporter_name_max : ℕ
transporter_name_max = 24

-- `a < b` of two `int`.
abbrev pub ltz : ℤ → ℤ → Bool
ltz (pos a) (pos b) = ltb a b
ltz (pos a) (negsuc b) = false
ltz (negsuc a) (pos b) = true
ltz (negsuc a) (negsuc b) = ltb b a

-- `(n < 0) ? 0 : n`.
abbrev pub not_below_zero : ℤ → ℤ
not_below_zero (pos n) = pos n
not_below_zero (negsuc n) = pos 0

-- `1 + (n > 0 ? n : 0)`, for retries below INT_MAX: at INT_MAX the sum overflows an `int`, which C leaves
-- undefined.
abbrev pub tries : ℤ → ℕ
tries (pos n) = suc n
tries (negsuc n) = 1

-- `best_priority` before the loop, -2147483647.
abbrev pub lowest : ℤ
lowest = negsuc 2147483646

module _ (W : Type 0) where
  abbrev pub Send : Type 0
  Send = List ℕ → W → Bool × W

  pub record Driver : Type 0 where
    pub name : List ℕ
    pub priority : ℤ
    pub enabled : Bool
    pub send_fn : Option Send
    pub max_retries : ℤ
    pub used : Bool

  abbrev pub zero_driver : Driver
  zero_driver = record {
    name = [];
    priority = pos 0;
    enabled = false;
    send_fn = none;
    max_retries = pos 0;
    used = false;
  }

  abbrev pub Drivers : Type 0
  Drivers = List Driver

  abbrev pub drivers_init : Drivers
  drivers_init = replicate transporter_max zero_driver

  abbrev pub is_named : List ℕ → Driver → Bool
  is_named name d = d.used && same_text d.name name

  abbrev pub is_vacant : Driver → Bool
  is_vacant d = not d.used

  -- A registration in the slot of the name.
  abbrev pub updated : ℤ → Send → Driver → Driver
  updated priority send_fn d = record d {
    priority = priority;
    send_fn = some send_fn;
    enabled = true;
    max_retries = not_below_zero d.max_retries;
  }

  -- A free slot taken for a driver, before its name is copied.
  abbrev pub occupied : ℤ → Send → Driver → Driver
  occupied priority send_fn d = record d {
    used = true;
    priority = priority;
    send_fn = some send_fn;
    enabled = true;
    max_retries = pos 0;
  }

  -- A name without room in the slot is not copied.
  abbrev pub named : List ℕ → Driver → Driver
  named name d = if has_room transporter_name_max name then record d { name = name } else d

  abbrev pub register_at : Drivers → List ℕ → ℤ → Send → Option ℕ → Option ℕ → Drivers × Bool
  register_at rt name priority send_fn (some i) vacant =
      (modify rt i (updated priority send_fn), true)
  register_at rt name priority send_fn none none = (rt, false)
  register_at rt name priority send_fn none (some i) = (
    modify rt i (λ d. named name (occupied priority send_fn d)),
    has_room transporter_name_max name,
  )

  unfoldable pub register : Drivers → List ℕ → ℤ → Send → Drivers × Bool
  register rt name priority send_fn =
      register_at rt name priority send_fn (find_index (is_named name) rt) (find_index is_vacant rt)

  abbrev pub write_driver : Drivers → Option ℕ → (Driver → Driver) → Drivers × Bool
  write_driver rt none f = (rt, false)
  write_driver rt (some i) f = (modify rt i f, true)

  unfoldable pub set_enabled : Drivers → List ℕ → Bool → Drivers × Bool
  set_enabled rt name enabled =
      write_driver rt (find_index (is_named name) rt) (λ d. record d { enabled = enabled })

  unfoldable pub set_retry : Drivers → List ℕ → ℤ → Drivers × Bool
  set_retry rt name max_retries =
      write_driver rt (find_index (is_named name) rt)
        (λ d. record d { max_retries = not_below_zero max_retries })

  -- `for (t = 0; t < tries; ++t) if (send_fn(...)) return 1;`
  unfoldable pub attempt : Send → List ℕ → ℕ → W → Bool × W
  attempt send_fn payload zero w = (false, w)
  attempt send_fn payload (suc left) w = elim (send_fn payload w).0 [
    | true ↦ (true, (send_fn payload w).1)
    | false ↦ attempt send_fn payload left (send_fn payload w).1
  ]

  -- A driver without a function sends nothing.
  abbrev pub attempt_all : Driver → List ℕ → Option Send → W → Bool × W
  attempt_all d payload none w = (false, w)
  attempt_all d payload (some send_fn) w = attempt send_fn payload (tries d.max_retries) w

  abbrev pub try_driver : Driver → List ℕ → W → Bool × W
  try_driver d payload w = attempt_all d payload d.send_fn w

  abbrev pub is_sending : List ℕ → Driver → Bool
  is_sending name d = d.used && d.enabled && same_text d.name name

  abbrev pub try_found : Option Driver → List ℕ → W → Bool × W
  try_found none payload w = (false, w)
  try_found (some d) payload w = try_driver d payload w

  unfoldable pub dispatch_named : Drivers → List ℕ → List ℕ → W → Bool × W
  dispatch_named rt name payload w = try_found (find (is_sending name) rt) payload w

  abbrev pub has_fn : Option Send → Bool
  has_fn none = false
  has_fn (some f) = true

  -- `used && enabled && send_fn`.
  abbrev pub is_ready : Driver → Bool
  is_ready d = d.used && d.enabled && has_fn d.send_fn

  -- The loop that looks for the best driver, at slot `i`: `best_idx` and `best_priority`.
  unfoldable pub pick : ℕ → Option ℕ → ℤ → Drivers → Option ℕ
  pick i best priority [] = best
  pick i best priority (d ∷ rest) = elim (is_ready d && ltz priority d.priority) [
    | true ↦ pick (suc i) (some i) d.priority rest
    | false ↦ pick (suc i) best priority rest
  ]

  -- The outcome of a dispatch: the name of the driver that sent, and the state of the application.
  abbrev pub Dispatched : Type 0
  Dispatched = Option (List ℕ) × W

  -- The loop over the other drivers, at slot `i`.
  unfoldable pub try_others : ℕ → ℕ → Drivers → List ℕ → W → Dispatched
  try_others best i [] payload w = (none, w)
  try_others best i (d ∷ rest) payload w = elim (i == best || not (is_ready d)) [
    | true ↦ try_others best (suc i) rest payload w
    | false ↦ elim (try_driver d payload w).0 [
      | true ↦ (some d.name, (try_driver d payload w).1)
      | false ↦ try_others best (suc i) rest payload (try_driver d payload w).1
    ]
  ]

  abbrev pub dispatch_best : Drivers → List ℕ → W → Option ℕ → Dispatched
  dispatch_best rt payload w none = (none, w)
  dispatch_best rt payload w (some best) =
      let d = get_or rt best zero_driver in
      elim (try_driver d payload w).0 [
        | true ↦ (some d.name, (try_driver d payload w).1)
        | false ↦ try_others best 0 rt payload (try_driver d payload w).1
      ]

  unfoldable pub dispatch_auto : Drivers → List ℕ → W → Dispatched
  dispatch_auto rt payload w = dispatch_best rt payload w (pick 0 none lowest rt)

  -- What is copied to `out_used_name`, if it has room for it.
  abbrev pub used_name : Dispatched → ℕ → Option (List ℕ)
  used_name (none, w) cap = none
  used_name (some name, w) cap = if has_room cap name then some name else none
