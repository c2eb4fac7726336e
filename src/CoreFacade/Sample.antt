-- ===== src/CoreFacade/Sample.antt =====
-- A reading for src/osfx_core_facade.c. The numbers are whole, a scaled value is the value, and the
-- catalog has no unit, so that a unit is its own standard.
use osynaptic_fx.Prelude.{ℕ, ◌≡◌, refl, List, [], ◌∷◌, some, arith}
use osynaptic_fx.Prelude.Slots.{find}
use osynaptic_fx.Solidity.Text.{ℤ, pos}
use osynaptic_fx.Standardization.{Double, Catalog, standardize_value, resolve_with_prefix}
use osynaptic_fx.CoreFacade.Body.{IsReading}

abbrev pub whole : Double
whole = record {
  Real = ℤ;
  add = λ a b. a;
  mul = λ a b. a;
  div = λ a b. a;
  of_int = λ n. n;
  to_int = λ n. n;
  value_scale = pos 10000;
}

abbrev pub no_units : Catalog whole
no_units = record { units = []; prefixes = [] }

abbrev pub temp : List ℕ
temp = b'T' ∷ b'E' ∷ b'M' ∷ b'P' ∷ []

abbrev pub kelvin : List ℕ
kelvin = b'K' ∷ []

pub wide_kelvin_stays :
    standardize_value whole no_units (pos 300) kelvin 24 ≡ some (pos 300, kelvin)
unfolding standardize_value resolve_with_prefix find
wide_kelvin_stays = refl

abbrev pub wide_reading : IsReading whole no_units temp (pos 300) kelvin 24
wide_reading = record {
  std = pos 300;
  std_unit = kelvin;
  standard = wide_kelvin_stays;
  scaled_fits = omega arith;
  id_filled = omega arith;
  unit_filled = omega arith;
  id_gt = omega arith;
  unit_colon = omega arith;
  id_bytes = omega arith;
  unit_bytes = omega arith;
}
