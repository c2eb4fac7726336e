-- ===== src/Standardization.antt =====
-- src/osfx_standardization.c, and the look-ups of src/osfx_library_catalog.c that it needs. The tables
-- of units and prefixes are generated, and the C `double` is not modelled: both are parameters.
use osynaptic_fx.Prelude.{
  ℕ, ◌+◌, ◌-◌, ◌==◌, leb, if◌then◌else◌, Bool, true, false, not, ◌&&◌, ◌||◌, List, [], ◌∷◌, length,
  drop, Option, none, some,
}
use osynaptic_fx.Prelude.Texts.{has_room}
use osynaptic_fx.Prelude.Slots.{find}
use osynaptic_fx.Solidity.Text.{ℤ}

-- The C `double`, as the values of sensors use it.
pub record Double : Type 1 where
  pub Real : Type 0
  pub add : Real → Real → Real
  pub mul : Real → Real → Real
  pub div : Real → Real → Real
  -- `(double)n` and `(long long)x`.
  pub of_int : ℤ → Real
  pub to_int : Real → ℤ
  -- `OSFX_VALUE_SCALE`, 10000.0.
  pub value_scale : Real

-- `tolower` of the C locale.
abbrev pub to_lower : ℕ → ℕ
to_lower c = if leb 65 c && leb c 90 then c + 32 else c

unfoldable pub equals_ignore_case : List ℕ → List ℕ → Bool
equals_ignore_case [] [] = true
equals_ignore_case [] (b ∷ s) = false
equals_ignore_case (a ∷ r) [] = false
equals_ignore_case (a ∷ r) (b ∷ s) = to_lower a == to_lower b && equals_ignore_case r s

-- The text starts with the prefix.
unfoldable pub starts_with : List ℕ → List ℕ → Bool
starts_with text [] = true
starts_with [] (p ∷ prefix) = false
starts_with (c ∷ text) (p ∷ prefix) = c == p && starts_with text prefix

module _ (F : Double) where
  pub record UnitRecord : Type 0 where
    pub key : List ℕ
    pub ucum : List ℕ
    pub base_unit : List ℕ
    pub factor : F.Real
    pub offset : F.Real
    pub can_take_prefix : Bool

  pub record PrefixRecord : Type 0 where
    pub key : List ℕ
    pub factor : F.Real

  -- The generated tables.
  pub record Catalog : Type 0 where
    pub units : List UnitRecord
    pub prefixes : List PrefixRecord

  abbrev pub is_unit : List ℕ → UnitRecord → Bool
  is_unit unit_key u = equals_ignore_case unit_key u.key || equals_ignore_case unit_key u.ucum

  abbrev pub find_unit : Catalog → List ℕ → Option UnitRecord
  find_unit lib unit_key = find (is_unit unit_key) lib.units

  -- A factor, an offset and the base unit.
  pub record Resolved : Type 0 where
    pub factor : F.Real
    pub offset : F.Real
    pub base_unit : List ℕ

  abbrev pub prefixed : PrefixRecord → Option UnitRecord → Option Resolved
  prefixed p none = none
  prefixed p (some u) =
      if u.can_take_prefix
      then some
          (record { factor = F.mul u.factor p.factor; offset = u.offset; base_unit = u.base_unit })
      else none

  -- The body of the loop over the prefixes; `none` is `continue`. `rest` has 64 characters.
  abbrev pub resolve_one : Catalog → List ℕ → PrefixRecord → Option Resolved
  resolve_one lib input_unit p =
      let plen = length p.key in
      let n = length input_unit in
      if plen == 0 || leb n plen || not (starts_with input_unit p.key)
      then none
      else if leb 64 (n - plen)
      then none
      else prefixed p (find_unit lib (drop plen input_unit))

  unfoldable pub resolve_with_prefix : Catalog → List ℕ → List PrefixRecord → Option Resolved
  resolve_with_prefix lib input_unit [] = none
  resolve_with_prefix lib input_unit (p ∷ rest) = elim (resolve_one lib input_unit p) [
    | none ↦ resolve_with_prefix lib input_unit rest
    | some r ↦ some r
  ]

  -- `copy_unit`, with the value.
  abbrev pub with_unit : F.Real → List ℕ → ℕ → Option (F.Real × List ℕ)
  with_unit value unit cap = if has_room cap unit then some (value, unit) else none

  abbrev pub resolved_value : F.Real → List ℕ → ℕ → Option Resolved → Option (F.Real × List ℕ)
  resolved_value value input_unit cap none = with_unit value input_unit cap
  resolved_value value input_unit cap (some r) =
      with_unit (F.add (F.mul value r.factor) r.offset) r.base_unit cap

  -- `none` where the code returns 0.
  unfoldable pub standardize_value : Catalog → F.Real → List ℕ → ℕ → Option (F.Real × List ℕ)
  standardize_value lib value input_unit cap = elim (find_unit lib input_unit) [
    | some u ↦ with_unit (F.add (F.mul value u.factor) u.offset) u.base_unit cap
    | none ↦ resolved_value value input_unit cap (resolve_with_prefix lib input_unit lib.prefixes)
  ]
