-- ===== src/Solidity/Crc/Detect.antt =====
-- What the checksums of src/osfx_solidity.c detect.
use osynaptic_fx.Prelude.{ℕ, ◌*◌, ◌%◌, ◌^◌, ◌<◌, ◌≡◌, ◌≢◌, bit_xor, arith, List, [], ◌∷◌, ◌++◌, ◌∙◌}
use osynaptic_fx.Prelude.Bits.{xor_injective, xor_comm, xor-lt}
use osynaptic_fx.Prelude.Words.{IsByte, IsBytes}
use osynaptic_fx.Solidity.Crc.Rounds.{
  crc8_rounds-lt, crc8_rounds_injective, crc16_rounds-lt, crc16_rounds_injective,
}
use osynaptic_fx.Solidity.Crc.{crc8, crc16_ccitt}

module _ (poly : ℕ) where
  pub crc8-lt : (bs : List ℕ) (crc : ℕ) → IsBytes bs → crc < 256 → crc8 bs poly crc < 256
  unfolding crc8
  crc8-lt [] crc h k = k
  crc8-lt (b ∷ bs) crc h k =
      crc8-lt bs _ h.1 (crc8_rounds-lt poly 8 (bit_xor crc b) (xor-lt 8 crc b k h.0))

  crc8_injective :
      (bs : List ℕ) (c d : ℕ)
      → poly % 2 ≡ 1
      → IsBytes bs
      → c < 256
      → d < 256
      → crc8 bs poly c ≡ crc8 bs poly d
      → c ≡ d
  unfolding crc8
  crc8_injective [] c d odd h hc hd e = e
  crc8_injective (b ∷ bs) c d odd h hc hd e =
      let xc : bit_xor c b < 256 = xor-lt 8 c b hc h.0 in
      let xd : bit_xor d b < 256 = xor-lt 8 d b hd h.0 in
      xor_injective c d b (
        crc8_rounds_injective poly 8 (bit_xor c b) (bit_xor d b) odd xc xd (
          crc8_injective bs _ _ odd h.1 (crc8_rounds-lt poly 8 (bit_xor c b) xc)
            (crc8_rounds-lt poly 8 (bit_xor d b) xd) e))

  -- With an odd polynomial, a change of any one byte of a message changes its CRC-8.
  pub crc8_single_byte :
      (pre suf : List ℕ) (x y crc : ℕ)
      → poly % 2 ≡ 1
      → IsBytes pre
      → IsBytes suf
      → IsByte x
      → IsByte y
      → crc < 256
      → x ≢ y
      → crc8 (pre ++ x ∷ suf) poly crc ≢ crc8 (pre ++ y ∷ suf) poly crc
  unfolding crc8
  crc8_single_byte [] suf x y crc odd hp hs hx hy hc ne e =
      let xx : bit_xor crc x < 256 = xor-lt 8 crc x hc hx in
      let xy : bit_xor crc y < 256 = xor-lt 8 crc y hc hy in
      ne (
        xor_injective x y crc (
          xor_comm x crc
          ∙ crc8_rounds_injective poly 8 (bit_xor crc x) (bit_xor crc y) odd xx xy (
              crc8_injective suf _ _ odd hs (crc8_rounds-lt poly 8 (bit_xor crc x) xx)
                (crc8_rounds-lt poly 8 (bit_xor crc y) xy) e)
          ∙ xor_comm crc y))
  crc8_single_byte (b ∷ pre) suf x y crc odd hp hs hx hy hc ne e =
      crc8_single_byte pre suf x y _ odd hp.1 hs hx hy
        (crc8_rounds-lt poly 8 (bit_xor crc b) (xor-lt 8 crc b hc hp.0)) ne e

-- A byte at the top of the 16-bit register.
abbrev high : ℕ → ℕ
high b = b * 2 ^ 8 % 2 ^ 16

high-lt : (b : ℕ) → high b < 2 ^ 16
high-lt b = omega arith

high_injective : (x y : ℕ) → IsByte x → IsByte y → high x ≡ high y → x ≡ y
high_injective x y hx hy e = omega arith

module _ (poly : ℕ) (fits : poly < 2 ^ 16) where
  pub crc16-lt :
      (bs : List ℕ) (crc : ℕ) → IsBytes bs → crc < 2 ^ 16 → crc16_ccitt bs poly crc < 2 ^ 16
  unfolding crc16_ccitt
  crc16-lt [] crc h k = k
  crc16-lt (b ∷ bs) crc h k =
      crc16-lt bs _ h.1
        (crc16_rounds-lt poly fits 8 (bit_xor crc (high b)) (xor-lt 16 crc (high b) k (high-lt b)))

  crc16_injective :
      (bs : List ℕ) (c d : ℕ)
      → poly % 2 ≡ 1
      → IsBytes bs
      → c < 2 ^ 16
      → d < 2 ^ 16
      → crc16_ccitt bs poly c ≡ crc16_ccitt bs poly d
      → c ≡ d
  unfolding crc16_ccitt
  crc16_injective [] c d odd h hc hd e = e
  crc16_injective (b ∷ bs) c d odd h hc hd e =
      let xc : bit_xor c (high b) < 2 ^ 16 = xor-lt 16 c (high b) hc (high-lt b) in
      let xd : bit_xor d (high b) < 2 ^ 16 = xor-lt 16 d (high b) hd (high-lt b) in
      xor_injective c d (high b) (
        crc16_rounds_injective poly fits 8 (bit_xor c (high b)) (bit_xor d (high b)) odd xc xd (
          crc16_injective bs _ _ odd h.1 (crc16_rounds-lt poly fits 8 (bit_xor c (high b)) xc)
            (crc16_rounds-lt poly fits 8 (bit_xor d (high b)) xd) e))

  -- With an odd polynomial, a change of any one byte of a message changes its CRC-16.
  pub crc16_single_byte :
      (pre suf : List ℕ) (x y crc : ℕ)
      → poly % 2 ≡ 1
      → IsBytes pre
      → IsBytes suf
      → IsByte x
      → IsByte y
      → crc < 2 ^ 16
      → x ≢ y
      → crc16_ccitt (pre ++ x ∷ suf) poly crc ≢ crc16_ccitt (pre ++ y ∷ suf) poly crc
  unfolding crc16_ccitt
  crc16_single_byte [] suf x y crc odd hp hs hx hy hc ne e =
      let xx : bit_xor crc (high x) < 2 ^ 16 = xor-lt 16 crc (high x) hc (high-lt x) in
      let xy : bit_xor crc (high y) < 2 ^ 16 = xor-lt 16 crc (high y) hc (high-lt y) in
      ne (
        high_injective x y hx hy (
          xor_injective (high x) (high y) crc (
            xor_comm (high x) crc
            ∙ crc16_rounds_injective poly fits 8 (bit_xor crc (high x)) (bit_xor crc (high y)) odd
                xx xy
                (crc16_injective suf _ _ odd hs
                  (crc16_rounds-lt poly fits 8 (bit_xor crc (high x)) xx)
                  (crc16_rounds-lt poly fits 8 (bit_xor crc (high y)) xy) e)
            ∙ xor_comm crc (high y))))
  crc16_single_byte (b ∷ pre) suf x y crc odd hp hs hx hy hc ne e =
      crc16_single_byte pre suf x y _ odd hp.1 hs hx hy
        (crc16_rounds-lt poly fits 8 (bit_xor crc (high b)) (xor-lt 16 crc (high b) hc (high-lt b)))
        ne e
