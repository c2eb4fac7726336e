-- ===== src/Prelude/Words.antt =====
-- Bytes and big-endian words: the shift-and-mask idioms that every wire format of the source writes.
pub mod Read
use Prim.Native.Nat.{ℕ, zero, suc, ◌+◌, ◌*◌, ◌/◌, ◌%◌, ◌^◌, ◌<◌, bit_and, bit_or}
use mathlib.Core.Path.{◌≡◌, refl, sym, ap, ◌∙◌}
use mathlib.Core.List.{List, [], ◌∷◌}
use mathlib.Core.Bool.{Bool, false}
use mathlib.Core.Option.{Option, none, some}
use osynaptic_fx.Prelude.Tests.{leb}
use native.Mathlib.Omega.{arith}
use osynaptic_fx.Prelude.Bits.{or_fields, and_mask}
use osynaptic_fx.Prelude.Lists.{get_or, All}

abbrev pub IsByte : ℕ → Type 0
IsByte b = b < 256

abbrev pub IsBytes : List ℕ → Type 0
IsBytes = All IsByte

-- `p[i]`; the lengths that the code checks first keep each index in range.
abbrev pub byte_at : List ℕ → ℕ → ℕ
byte_at p i = get_or p i 0

pub byte_at-IsByte : (p : List ℕ) (i : ℕ) → IsBytes p → IsByte (byte_at p i)
byte_at-IsByte [] i h = omega arith
byte_at-IsByte (b ∷ p) zero h = h.0
byte_at-IsByte (b ∷ p) (suc i) h = byte_at-IsByte p i h.1

-- An output pointer with its capacity: `none` is a null pointer. `if (!out || out_cap < n) return 0`.
abbrev pub fits : Option ℕ → ℕ → Bool
fits none n = false
fits (some cap) n = leb n cap

-- `(uint8_t)((v >> k) & 0xFFU)`.
unfoldable pub octet : ℕ → ℕ → ℕ
octet v k = bit_and (v / 2 ^ k) 0xff

pub octet_lem : (v k : ℕ) → octet v k ≡ v / 2 ^ k % 256
unfolding octet
octet_lem v k = and_mask 8 (v / 2 ^ k)

pub octet-lt : (v k : ℕ) → octet v k < 256
octet-lt v k = omega (arith, octet_lem v k)

-- The bytes of a word, most significant first.
abbrev pub u16_bytes : ℕ → List ℕ
u16_bytes v = octet v 8 ∷ octet v 0 ∷ []

abbrev pub u32_bytes : ℕ → List ℕ
u32_bytes v = octet v 24 ∷ octet v 16 ∷ octet v 8 ∷ octet v 0 ∷ []

abbrev pub u48_bytes : ℕ → List ℕ
u48_bytes v = octet v 40 ∷ octet v 32 ∷ u32_bytes v

abbrev pub u64_bytes : ℕ → List ℕ
u64_bytes v = octet v 56 ∷ octet v 48 ∷ u48_bytes v

-- `(p[0] << 8) | p[1]`, and so on for wider words, at an offset `o`.
unfoldable pub read_u16 : List ℕ → ℕ → ℕ
read_u16 p o = bit_or (byte_at p o * 2 ^ 8) (byte_at p (o + 1))

unfoldable pub read_u32 : List ℕ → ℕ → ℕ
read_u32 p o =
    bit_or
      (bit_or (bit_or (byte_at p o * 2 ^ 24) (byte_at p (o + 1) * 2 ^ 16))
        (byte_at p (o + 2) * 2 ^ 8))
      (byte_at p (o + 3))

unfoldable pub read_u48 : List ℕ → ℕ → ℕ
read_u48 p o =
    bit_or
      (bit_or
        (bit_or
          (bit_or (bit_or (byte_at p o * 2 ^ 40) (byte_at p (o + 1) * 2 ^ 32))
            (byte_at p (o + 2) * 2 ^ 24))
          (byte_at p (o + 3) * 2 ^ 16))
        (byte_at p (o + 4) * 2 ^ 8))
      (byte_at p (o + 5))

unfoldable pub read_u64 : List ℕ → ℕ → ℕ
read_u64 p o =
    bit_or
      (bit_or
        (bit_or
          (bit_or
            (bit_or
              (bit_or (bit_or (byte_at p o * 2 ^ 56) (byte_at p (o + 1) * 2 ^ 48))
                (byte_at p (o + 2) * 2 ^ 40))
              (byte_at p (o + 3) * 2 ^ 32))
            (byte_at p (o + 4) * 2 ^ 24))
          (byte_at p (o + 5) * 2 ^ 16))
        (byte_at p (o + 6) * 2 ^ 8))
      (byte_at p (o + 7))
