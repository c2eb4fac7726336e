-- ===== src/Prelude/Words/Read.antt =====
-- Big-endian words of the wire formats of the source, read back from their bytes.
use Prim.Native.Nat.{ℕ, ◌+◌, ◌*◌, ◌%◌, ◌^◌, ◌<◌, bit_or}
use mathlib.Core.Path.{◌≡◌, refl, sym, ap, ◌∙◌}
use mathlib.Core.List.{List}
use native.Mathlib.Omega.{arith}
use osynaptic_fx.Prelude.Bits.{or_fields}
use osynaptic_fx.Prelude.Words.{
  IsByte, byte_at, octet, octet_lem, octet-lt, read_u16, read_u32, read_u48, read_u64,
}

-- One `|` of such a chain: what is there so far is a multiple of a power above the new byte.
join : (k x s b q : ℕ) → x ≡ s → s ≡ q * 2 ^ k → b < 2 ^ k → bit_or x b ≡ s + b
join k x s b q e m h = ap (λ t. bit_or t b) (e ∙ m) ∙ or_fields k q b h ∙ ap (λ t. t + b) (sym m)

join16 : (a b : ℕ) → IsByte b → bit_or (a * 2 ^ 8) b ≡ a * 2 ^ 8 + b
join16 a b h = join 8 (a * 2 ^ 8) (a * 2 ^ 8) b a refl refl h

-- A word read back from its bytes, wherever they stand.
pub read_u16_lem :
    (p : List ℕ) (o v : ℕ)
    → byte_at p o ≡ octet v 8
    → byte_at p (o + 1) ≡ octet v 0
    → read_u16 p o ≡ v % 2 ^ 16
unfolding read_u16
read_u16_lem p o v h0 h1 =
    rw (h0, h1)
      (omega (arith, join16 (octet v 8) (octet v 0) (octet-lt v 0), octet_lem v 8, octet_lem v 0))

join32 :
    (a b c d : ℕ)
    → IsByte b
    → IsByte c
    → IsByte d
    → bit_or (bit_or (bit_or (a * 2 ^ 24) (b * 2 ^ 16)) (c * 2 ^ 8)) d
      ≡ a * 2 ^ 24 + b * 2 ^ 16 + c * 2 ^ 8 + d
join32 a b c d hb hc hd =
    join 8 _ (a * 2 ^ 24 + b * 2 ^ 16 + c * 2 ^ 8) d (a * 2 ^ 16 + b * 2 ^ 8 + c)
      (join 16 _ (a * 2 ^ 24 + b * 2 ^ 16) (c * 2 ^ 8) (a * 2 ^ 8 + b)
        (join 24 _ (a * 2 ^ 24) (b * 2 ^ 16) a refl refl (omega arith)) (omega arith) (omega arith))
      (omega arith) hd

pub read_u32_lem :
    (p : List ℕ) (o v : ℕ)
    → byte_at p o ≡ octet v 24
    → byte_at p (o + 1) ≡ octet v 16
    → byte_at p (o + 2) ≡ octet v 8
    → byte_at p (o + 3) ≡ octet v 0
    → read_u32 p o ≡ v % 2 ^ 32
unfolding read_u32
read_u32_lem p o v h0 h1 h2 h3 =
    rw (h0, h1, h2, h3)
      (omega (
        arith,
        join32 (octet v 24) (octet v 16) (octet v 8) (octet v 0) (octet-lt v 16) (octet-lt v 8)
            (octet-lt v 0),
        octet_lem v 24,
        octet_lem v 16,
        octet_lem v 8,
        octet_lem v 0,
      ))

join48 :
    (a b c d e f : ℕ)
    → IsByte b
    → IsByte c
    → IsByte d
    → IsByte e
    → IsByte f
    → bit_or
        (bit_or
          (bit_or (bit_or (bit_or (a * 2 ^ 40) (b * 2 ^ 32)) (c * 2 ^ 24)) (d * 2 ^ 16))
          (e * 2 ^ 8))
        f
      ≡ a * 2 ^ 40 + b * 2 ^ 32 + c * 2 ^ 24 + d * 2 ^ 16 + e * 2 ^ 8 + f
join48 a b c d e f hb hc hd he hf =
    join 8 _ (a * 2 ^ 40 + b * 2 ^ 32 + c * 2 ^ 24 + d * 2 ^ 16 + e * 2 ^ 8) f
      (a * 2 ^ 32 + b * 2 ^ 24 + c * 2 ^ 16 + d * 2 ^ 8 + e)
      (join 16 _ (a * 2 ^ 40 + b * 2 ^ 32 + c * 2 ^ 24 + d * 2 ^ 16) (e * 2 ^ 8)
        (a * 2 ^ 24 + b * 2 ^ 16 + c * 2 ^ 8 + d)
        (join 24 _ (a * 2 ^ 40 + b * 2 ^ 32 + c * 2 ^ 24) (d * 2 ^ 16) (a * 2 ^ 16 + b * 2 ^ 8 + c)
          (join 32 _ (a * 2 ^ 40 + b * 2 ^ 32) (c * 2 ^ 24) (a * 2 ^ 8 + b)
            (join 40 _ (a * 2 ^ 40) (b * 2 ^ 32) a refl refl (omega arith)) (omega arith)
            (omega arith))
          (omega arith) (omega arith))
        (omega arith) (omega arith))
      (omega arith) hf

pub read_u48_lem :
    (p : List ℕ) (o v : ℕ)
    → byte_at p o ≡ octet v 40
    → byte_at p (o + 1) ≡ octet v 32
    → byte_at p (o + 2) ≡ octet v 24
    → byte_at p (o + 3) ≡ octet v 16
    → byte_at p (o + 4) ≡ octet v 8
    → byte_at p (o + 5) ≡ octet v 0
    → read_u48 p o ≡ v % 2 ^ 48
unfolding read_u48
read_u48_lem p o v h0 h1 h2 h3 h4 h5 =
    rw (h0, h1, h2, h3, h4, h5)
      (omega (
        arith,
        join48 (octet v 40) (octet v 32) (octet v 24) (octet v 16) (octet v 8) (octet v 0)
            (octet-lt v 32) (octet-lt v 24) (octet-lt v 16) (octet-lt v 8) (octet-lt v 0),
        octet_lem v 40,
        octet_lem v 32,
        octet_lem v 24,
        octet_lem v 16,
        octet_lem v 8,
        octet_lem v 0,
      ))

join64 :
    (a b c d e f g h : ℕ)
    → IsByte b
    → IsByte c
    → IsByte d
    → IsByte e
    → IsByte f
    → IsByte g
    → IsByte h
    → bit_or
        (bit_or
          (bit_or
            (bit_or
              (bit_or (bit_or (bit_or (a * 2 ^ 56) (b * 2 ^ 48)) (c * 2 ^ 40)) (d * 2 ^ 32))
              (e * 2 ^ 24))
            (f * 2 ^ 16))
          (g * 2 ^ 8))
        h
      ≡ a * 2 ^ 56 + b * 2 ^ 48 + c * 2 ^ 40 + d * 2 ^ 32 + e * 2 ^ 24 + f * 2 ^ 16 + g * 2 ^ 8 + h
join64 a b c d e f g h hb hc hd he hf hg hh =
    let w : ℕ = a * 2 ^ 40 + b * 2 ^ 32 + c * 2 ^ 24 + d * 2 ^ 16 + e * 2 ^ 8 + f in
    join 8 _
      (a * 2 ^ 56 + b * 2 ^ 48 + c * 2 ^ 40 + d * 2 ^ 32 + e * 2 ^ 24 + f * 2 ^ 16 + g * 2 ^ 8) h
      (w * 2 ^ 8 + g)
      (join 16 _ (a * 2 ^ 56 + b * 2 ^ 48 + c * 2 ^ 40 + d * 2 ^ 32 + e * 2 ^ 24 + f * 2 ^ 16)
        (g * 2 ^ 8) w
        (join 24 _ (a * 2 ^ 56 + b * 2 ^ 48 + c * 2 ^ 40 + d * 2 ^ 32 + e * 2 ^ 24) (f * 2 ^ 16)
          (a * 2 ^ 32 + b * 2 ^ 24 + c * 2 ^ 16 + d * 2 ^ 8 + e)
          (join 32 _ (a * 2 ^ 56 + b * 2 ^ 48 + c * 2 ^ 40 + d * 2 ^ 32) (e * 2 ^ 24)
            (a * 2 ^ 24 + b * 2 ^ 16 + c * 2 ^ 8 + d)
            (join 40 _ (a * 2 ^ 56 + b * 2 ^ 48 + c * 2 ^ 40) (d * 2 ^ 32)
              (a * 2 ^ 16 + b * 2 ^ 8 + c)
              (join 48 _ (a * 2 ^ 56 + b * 2 ^ 48) (c * 2 ^ 40) (a * 2 ^ 8 + b)
                (join 56 _ (a * 2 ^ 56) (b * 2 ^ 48) a refl refl (omega arith)) (omega arith)
                (omega arith))
              (omega arith) (omega arith))
            (omega arith) (omega arith))
          (omega arith) (omega arith))
        (omega arith) (omega arith))
      (omega arith) hh

pub read_u64_lem :
    (p : List ℕ) (o v : ℕ)
    → byte_at p o ≡ octet v 56
    → byte_at p (o + 1) ≡ octet v 48
    → byte_at p (o + 2) ≡ octet v 40
    → byte_at p (o + 3) ≡ octet v 32
    → byte_at p (o + 4) ≡ octet v 24
    → byte_at p (o + 5) ≡ octet v 16
    → byte_at p (o + 6) ≡ octet v 8
    → byte_at p (o + 7) ≡ octet v 0
    → read_u64 p o ≡ v % 2 ^ 64
unfolding read_u64
read_u64_lem p o v h0 h1 h2 h3 h4 h5 h6 h7 =
    rw (h0, h1, h2, h3, h4, h5, h6, h7)
      (omega (
        arith,
        join64 (octet v 56) (octet v 48) (octet v 40) (octet v 32) (octet v 24) (octet v 16)
            (octet v 8) (octet v 0) (octet-lt v 48) (octet-lt v 40) (octet-lt v 32) (octet-lt v 24)
            (octet-lt v 16) (octet-lt v 8) (octet-lt v 0),
        octet_lem v 56,
        octet_lem v 48,
        octet_lem v 40,
        octet_lem v 32,
        octet_lem v 24,
        octet_lem v 16,
        octet_lem v 8,
        octet_lem v 0,
      ))
