-- ===== src/FusionPacket/Integrity.antt =====
-- What src/osfx_fusion_packet.c does with a packet that was damaged on the way.
use mathlib.Core.List.{append_assoc}
use mathlib.Core.Option
use osynaptic_fx.Prelude.{
  ℕ, ◌+◌, ◌-◌, ◌*◌, ◌≤◌, ◌≡◌, ◌≢◌, subst, sym, ap, ◌∙◌, Bool, true, false, bit_and, List, [], ◌∷◌,
  ◌++◌, length, take, Option, none, some, arith, inl, inr, take-append, length-append,
  get_or-append, All-append, Option-cases,
}
use osynaptic_fx.Prelude.Bits.{or_fields}
use osynaptic_fx.Prelude.Words.{octet-lt, byte_at, IsByte, IsBytes, read_u16}
use osynaptic_fx.Solidity.Crc.{crc8, crc16_ccitt}
use osynaptic_fx.Solidity.Crc.Detect.{crc8-lt, crc16_single_byte}
use osynaptic_fx.PayloadCrypto.{xor_payload}
use osynaptic_fx.PayloadCrypto.Involution.{xor_payload-IsBytes}
use osynaptic_fx.HandshakeCmd.{secure_variant}
use osynaptic_fx.FusionPacket.Frame.{length-frame, frame-IsBytes, take-seal, crc16-seal}
use osynaptic_fx.FusionPacket.{header, seal, decode_min, decode_meta, Meta, extract_body, encode_ex}

abbrev crc16 : List ℕ → ℕ
crc16 p = crc16_ccitt p 0x1021 0xffff

-- The last two bytes are the CRC-16 of those before them.
IsIntact : List ℕ → Type 0
IsIntact p = read_u16 p (length p - 2) ≡ crc16 (take (length p - 2) p)

-- A packet seen as what the CRC-16 covers and its last two bytes.
module _ (q : List ℕ) (h l : ℕ) where
  abbrev whole : List ℕ
  whole = q ++ h ∷ l ∷ []

  cut : length whole - 2 ≡ length q
  cut = omega (arith, length-append q (h ∷ l ∷ []))

  covered : take (length whole - 2) whole ≡ q
  covered = ap (λ n. take n whole) cut ∙ take-append q (h ∷ l ∷ [])

  trailer : IsByte l → read_u16 whole (length whole - 2) ≡ h * 256 + l
  unfolding read_u16
  trailer small =
      let at0 : length whole - 2 ≡ length q + 0 = omega (arith, cut) in
      let at1 : length whole - 2 + 1 ≡ length q + 1 = omega (arith, cut) in
      rw
        (
          ap (byte_at whole) at0 ∙ get_or-append q (h ∷ l ∷ []) 0 0,
          ap (byte_at whole) at1 ∙ get_or-append q (h ∷ l ∷ []) 1 0,
        )
        (or_fields 8 h l small)

  IsIntact-whole : IsByte l → IsIntact whole → h * 256 + l ≡ crc16 q
  unfolding IsIntact
  IsIntact-whole small intact = sym (trailer small) ∙ intact ∙ ap crc16 covered

-- The last two bytes of a list, if it has them.
data Ending : List ℕ → Type 0 where
  empty : Ending []
  single : (l : ℕ) → Ending (l ∷ [])
  double : (q : List ℕ) (h l : ℕ) → Ending (q ++ h ∷ l ∷ [])

extend : (b : ℕ) {p : List ℕ} → Ending p → Ending (b ∷ p)
extend b empty = single b
extend b (single l) = double [] b l
extend b (double q h l) = double (b ∷ q) h l

ending : (p : List ℕ) → Ending p
ending [] = empty
ending (b ∷ p) = extend b (ending p)

split-IsBytes : (q r : List ℕ) → IsBytes (q ++ r) → IsBytes q × IsBytes r
split-IsBytes [] r h = (tt, h)
split-IsBytes (b ∷ q) r h = let rest = split-IsBytes q r h.1 in ((h.0, rest.0), rest.1)

low_damaged :
    (q : List ℕ) (h x y : ℕ)
    → IsByte x
    → IsByte y
    → IsIntact (whole q h x)
    → IsIntact (whole q h y)
    → x ≡ y
low_damaged q h x y hx hy good bad =
    omega (arith, IsIntact-whole q h x hx good, IsIntact-whole q h y hy bad)

high_damaged :
    (q : List ℕ) (l x y : ℕ) → IsByte l → IsIntact (whole q x l) → IsIntact (whole q y l) → x ≡ y
high_damaged q l x y hl good bad =
    omega (arith, IsIntact-whole q x l hl good, IsIntact-whole q y l hl bad)

at_end :
    {pre : List ℕ} (x y : ℕ)
    → Ending pre
    → 1 ≤ length pre
    → IsByte x
    → IsByte y
    → IsIntact (pre ++ x ∷ [])
    → IsIntact (pre ++ y ∷ [])
    → x ≡ y
at_end x y empty h hx hy good bad = absurd (omega arith)
at_end x y (single b) h hx hy good bad = low_damaged [] b x y hx hy good bad
at_end x y (double q a b) h hx hy good bad =
    low_damaged (q ++ a ∷ []) b x y hx hy (subst IsIntact (moved x) good)
      (subst IsIntact (moved y) bad)
  where
    moved : (z : ℕ) → (q ++ a ∷ b ∷ []) ++ z ∷ [] ≡ (q ++ a ∷ []) ++ b ∷ z ∷ []
    moved z = append_assoc q (a ∷ b ∷ []) (z ∷ []) ∙ sym (append_assoc q (a ∷ []) (b ∷ z ∷ []))

-- Damage to one byte of a packet whose CRC-16 fits, wherever that byte stands, is noticed.
damaged :
    (pre : List ℕ) {suf : List ℕ} (x y : ℕ)
    → Ending suf
    → 1 ≤ length pre + length suf
    → IsBytes pre
    → IsBytes suf
    → IsByte x
    → IsByte y
    → x ≢ y
    → IsIntact (pre ++ x ∷ suf)
    → ¬ IsIntact (pre ++ y ∷ suf)
damaged pre x y empty h p s hx hy ne good bad =
    ne (at_end x y (ending pre) (omega arith) hx hy good bad)
damaged pre x y (single l) h p s hx hy ne good bad = ne (high_damaged pre l x y s.0 good bad)
damaged pre x y (double q a b) h p s hx hy ne good bad =
    let parts = split-IsBytes q (a ∷ b ∷ []) s in
    let moved = λ (z : ℕ). sym (append_assoc pre (z ∷ q) (a ∷ b ∷ [])) in
    crc16_single_byte 0x1021 (omega arith) pre q x y 0xffff (omega arith) p parts.0 hx hy
      (omega arith) ne
      (sym (IsIntact-whole (pre ++ x ∷ q) a b parts.1.1.0 (subst IsIntact (moved x) good))
        ∙ IsIntact-whole (pre ++ y ∷ q) a b parts.1.1.0 (subst IsIntact (moved y) bad))

-- `crc16_ok` says whether a packet is intact.
crc16_ok_lem : (p : List ℕ) (m : Meta) → decode_meta p ≡ some m → m.crc16_ok ≡ true → IsIntact p
unfolding decode_meta decode_min IsIntact
crc16_ok_lem p m e ok = ground arith

extract_body-IsIntact :
    (p key : List ℕ) (out : Option ℕ) (r : List ℕ × Meta)
    → extract_body p key out ≡ some r
    → IsIntact p
unfolding extract_body Option.bind
extract_body-IsIntact p key out r e = elim (Option-cases (decode_meta p)) [
  | inl gone ↦ ground arith
  | inr (m, some_m) ↦ crc16_ok_lem p m some_m (ground arith)
]

module _ (cmd aid tid ts : ℕ) (wire : List ℕ) (c8 : ℕ) (hc : IsByte cmd) (ht : IsByte tid)
    (hw : IsBytes wire) (h8 : IsByte c8) where
  abbrev sealed : List ℕ
  sealed = seal (header cmd aid tid ts ++ (wire ++ c8 ∷ []))

  sealed-IsIntact : IsIntact sealed
  unfolding IsIntact
  sealed-IsIntact =
      let covered_bytes = frame-IsBytes cmd aid tid ts wire c8 hc ht hw h8 in
      crc16-seal (header cmd aid tid ts ++ wire) c8 covered_bytes
      ∙ ap crc16 (sym (take-seal (header cmd aid tid ts ++ wire) c8))

  sealed-IsBytes : IsBytes sealed
  sealed-IsBytes =
      All-append IsByte (header cmd aid tid ts ++ (wire ++ c8 ∷ [])) _
        (frame-IsBytes cmd aid tid ts wire c8 hc ht hw h8) (omega (arith, octet-lt))

  sealed_damaged :
      (pre suf : List ℕ) (x y : ℕ)
      → sealed ≡ pre ++ x ∷ suf
      → IsByte y
      → x ≢ y
      → (key : List ℕ) (out : Option ℕ) → extract_body (pre ++ y ∷ suf) key out ≡ none
  sealed_damaged pre suf x y e hy ne key out =
      let bytes = split-IsBytes pre (x ∷ suf) (subst IsBytes e sealed-IsBytes) in
      let n : 1 ≤ length pre + length suf = omega (
        arith,
        length-frame cmd aid tid ts wire c8 hc ht hw h8,
        ap length e,
        length-append pre (x ∷ suf),
      ) in
      elim (Option-cases (extract_body (pre ++ y ∷ suf) key out)) [
        | inl refused ↦ refused
        | inr (r, got) ↦ absurd (
            damaged pre x y (ending suf) n bytes.0 bytes.1.1 bytes.1.0 hy ne
              (subst IsIntact e sealed-IsIntact)
              (extract_body-IsIntact (pre ++ y ∷ suf) key out r got))
      ]

-- A packet that `osfx_packet_encode_ex` wrote, masked or not, and of which one byte was changed on
-- the way, whichever, is refused by `osfx_packet_extract_body`, with any key and room.
pub extract_body_damaged :
    (cmd aid tid ts : ℕ) (body key : List ℕ) (secure : Bool) (out : Option ℕ) (pre suf : List ℕ)
    (x y : ℕ)
    → IsByte cmd
    → IsByte tid
    → IsBytes body
    → IsBytes key
    → encode_ex cmd aid tid ts body secure key out ≡ some (pre ++ x ∷ suf)
    → IsByte y
    → x ≢ y
    → (key' : List ℕ) (room : Option ℕ) → extract_body (pre ++ y ∷ suf) key' room ≡ none
unfolding encode_ex
extract_body_damaged cmd aid tid ts body key false out pre suf x y hc ht hb hk e =
    sealed_damaged cmd aid tid ts body (crc8 body 0x07 0) hc ht hb
      (crc8-lt 0x07 body 0 hb (omega arith)) pre suf x y (ground arith)
extract_body_damaged cmd aid tid ts body key true out pre suf x y hc ht hb hk e =
    sealed_damaged (secure_variant cmd) aid tid ts
      (xor_payload body key (bit_and (crc8 body 0x07 0) 31)) (crc8 body 0x07 0) (secure_byte cmd hc)
      ht (xor_payload-IsBytes body key _ hb hk) (crc8-lt 0x07 body 0 hb (omega arith)) pre suf x y
      (ground arith)
  where
    secure_byte : (c : ℕ) → IsByte c → IsByte (secure_variant c)
    secure_byte c h = unfold secure_variant in ground arith
