-- ===== src/Services/Tests.antt =====
-- src/osfx_service_runtime.c on a table of two slots, with an application that counts its calls.
use osynaptic_fx.Prelude.{ℕ, ◌+◌, ◌≡◌, refl, true, List, [], ◌∷◌, none, some}
use osynaptic_fx.Prelude.Slots.{find_index, modify}
use osynaptic_fx.Prelude.Texts.{same_text}
use osynaptic_fx.Services.{Runtime, Hooks, zero_slot, register_ex}
use osynaptic_fx.Services.Drive.{init_all, tick_all, close_all, sweep}
use osynaptic_fx.Services.Table.{Registers, register_ex-Registers}
use osynaptic_fx.Services.Lifecycle.{tick_all-close_all}

-- Each call succeeds and counts one.
abbrev hooks : Hooks ℕ
hooks = record {
  instance_ptr = 4096;
  init_fn = some (λ p c w. (1, w + 1));
  tick_fn = some (λ p t w. (1, w + 1));
  close_fn = some (λ p u w. (1, w + 1));
  reload_fn = none;
  cmd_fn = none;
}

-- The name "log".
abbrev log : List ℕ
log = 0x6c ∷ 0x6f ∷ 0x67 ∷ []

abbrev blank : Runtime ℕ
blank = zero_slot ℕ ∷ zero_slot ℕ ∷ []

abbrev registered : Runtime ℕ
registered = (register_ex ℕ blank log hooks none).0

-- The configuration "v".
abbrev options : List ℕ
options = 0x76 ∷ []

options_ok : (register_ex ℕ blank log hooks (some options)).1 ≡ true
unfolding register_ex find_index same_text
options_ok = refl

register_ex-Registers_example :
    Registers ℕ blank log hooks (some options) (register_ex ℕ blank log hooks (some options)).0
register_ex-Registers_example = register_ex-Registers ℕ blank log hooks (some options) options_ok

abbrev running : Runtime ℕ
running = (init_all ℕ registered none 0).0

-- One call for the start, one for a tick, one for the end.
three_calls : (close_all ℕ (tick_all ℕ running 60 1).0 (tick_all ℕ running 60 1).1).1 ≡ 3
unfolding close_all tick_all init_all sweep register_ex find_index same_text modify
three_calls = refl

tick_all-close_all_example :
    tick_all ℕ (close_all ℕ running 1).0 60 2 ≡ ((close_all ℕ running 1).0, 2, true)
tick_all-close_all_example = tick_all-close_all ℕ running 60 1 2
