-- ===== src/PayloadCrypto/Involution.antt =====
-- `osfx_xor_payload` of src/osfx_payload_crypto.c, applied twice.
use osynaptic_fx.Prelude.{
  ℕ, ◌+◌, ◌%◌, ◌^◌, ◌<◌, ◌≡◌, refl, ap, ◌∙◌, bit_and, bit_xor, List, [], ◌∷◌, length, arith,
}
use osynaptic_fx.Prelude.Bits.{xor_cancel, xor_right_comm, xor-lt, and_mask}
use osynaptic_fx.Prelude.Words.{byte_at, byte_at-IsByte, IsByte, IsBytes}
use osynaptic_fx.PayloadCrypto.{xor_loop, xor_payload}

masked :
    (b k o : ℕ)
    → IsByte b
    → IsByte k
    → IsByte o
    → bit_xor (bit_xor b k) o % 2 ^ 8 ≡ bit_xor (bit_xor b k) o
masked b k o hb hk ho = omega (arith, xor-lt 8 (bit_xor b k) o (xor-lt 8 b k hb hk) ho)

-- Both masks come off in either order.
unmask : (b k o : ℕ) → bit_xor (bit_xor (bit_xor (bit_xor b k) o) k) o ≡ b
unmask b k o =
    ap (λ t. bit_xor t o)
      (xor_right_comm (bit_xor b k) o k ∙ ap (λ t. bit_xor t o) (xor_cancel b k))
    ∙ xor_cancel b o

module _ (key : List ℕ) (off : ℕ) (key_bytes : IsBytes key) (off_byte : off < 256) where
  xor_loop-IsBytes : (bs : List ℕ) (i : ℕ) → IsBytes (xor_loop key off i bs)
  unfolding xor_loop
  xor_loop-IsBytes [] i = tt
  xor_loop-IsBytes (b ∷ bs) i = (omega arith, xor_loop-IsBytes bs (i + 1))

  xor_loop_twice :
      (bs : List ℕ) (i : ℕ) → IsBytes bs → xor_loop key off i (xor_loop key off i bs) ≡ bs
  unfolding xor_loop
  xor_loop_twice [] i h = refl
  xor_loop_twice (b ∷ bs) i h =
      let k = byte_at key ((i + off) % length key) in
      let hk = byte_at-IsByte key ((i + off) % length key) key_bytes in
      let m = masked b k off h.0 hk off_byte in
      let back : bit_xor (bit_xor (bit_xor (bit_xor b k) off % 2 ^ 8) k) off % 2 ^ 8 ≡ b =
        ap (λ t. bit_xor (bit_xor t k) off % 2 ^ 8) m
        ∙ ap (λ t. t % 2 ^ 8) (unmask b k off)
        ∙ small b h.0 in
      cc (back, xor_loop_twice bs (i + 1) h.1)
    where
      small : (x : ℕ) → x < 256 → x % 2 ^ 8 ≡ x
      small x p = omega arith

offset-lt : (offset : ℕ) → bit_and offset 31 < 256
offset-lt offset = omega (arith, and_mask 5 offset)

pub xor_payload-IsBytes :
    (payload key : List ℕ) (offset : ℕ)
    → IsBytes payload
    → IsBytes key
    → IsBytes (xor_payload payload key offset)
unfolding xor_payload
xor_payload-IsBytes payload [] offset h k = h
xor_payload-IsBytes payload (b ∷ key) offset h k =
    xor_loop-IsBytes (b ∷ key) (bit_and offset 31) k (offset-lt offset) payload 0

length-xor_loop :
    (key : List ℕ) (off i : ℕ) (bs : List ℕ) → length (xor_loop key off i bs) ≡ length bs
unfolding xor_loop
length-xor_loop key off i [] = refl
length-xor_loop key off i (b ∷ bs) = omega (arith, length-xor_loop key off (i + 1) bs)

pub length-xor_payload :
    (payload key : List ℕ) (offset : ℕ) → length (xor_payload payload key offset) ≡ length payload
unfolding xor_payload
length-xor_payload payload [] offset = refl
length-xor_payload payload (b ∷ key) offset =
    length-xor_loop (b ∷ key) (bit_and offset 31) 0 payload

-- Applied twice with the same key and offset, the mask gives the payload back: decryption is
-- encryption. The key may be empty.
pub xor_payload_involution :
    (payload key : List ℕ) (offset : ℕ)
    → IsBytes payload
    → IsBytes key
    → xor_payload (xor_payload payload key offset) key offset ≡ payload
unfolding xor_payload
xor_payload_involution payload [] offset h k = refl
xor_payload_involution payload (b ∷ key) offset h k =
    xor_loop_twice (b ∷ key) (bit_and offset 31) k (offset-lt offset) payload 0 h
