-- ===== src/Solidity/Text/Letters.antt =====
-- The characters that the texts of src/osfx_solidity.c are made of.
use osynaptic_fx.Prelude.{
  ℕ, zero, suc, ◌+◌, ◌/◌, ◌%◌, ◌^◌, ◌≤◌, ◌<◌, ◌≡◌, ◌≢◌, refl, sym, ap, ◌∙◌, ◌==◌, ltb, leb, ◌&&◌,
  ◌||◌, if◌then◌else◌, Bool, true, false, List, [], ◌∷◌, ◌++◌, length, get_or-All, Option, none,
  some, arith, All, All-append, All-map, Bool-cases, inl, inr, length-append, subst, bit_and,
}
use osynaptic_fx.Solidity.Text.{
  ℤ, pos, negsuc, magnitude, digits, backwards, b62, b62_encode, b62_decode, decimal, u32toa,
  sign_text, is_negative,
}
use osynaptic_fx.Prelude.Slots.{bit}
use osynaptic_fx.Prelude.Words.{IsByte, IsBytes}
use osynaptic_fx.Prelude.Bits.{and_mask}
use osynaptic_fx.Solidity.Text.Base62.{b62_decode-encode, length-digits}
use osynaptic_fx.Solidity.Text.Decimal
use osynaptic_fx.Solidity.Text.Decimal.{number-u32toa}
use osynaptic_fx.Solidity.Text.Stamp.{
  b64url, b64url_ts6, sextet, quartet, first_group, second_group,
}

-- A letter of the alphabet, a digit, '-' or '_'.
abbrev pub is_letter : ℕ → Bool
is_letter c =
    c == 45 || leb 48 c && leb c 57 || leb 65 c && leb c 90 || c == 95 || leb 97 c && leb c 122

abbrev pub IsLetters : List ℕ → Type 0
IsLetters = All (λ c. is_letter c ≡ true)

abbrev is_text : List ℕ → Bool
is_text [] = true
is_text (c ∷ s) = is_letter c && is_text s

is_text-IsLetters : (s : List ℕ) → is_text s ≡ true → IsLetters s
is_text-IsLetters [] h = tt
is_text-IsLetters (c ∷ s) h = both (is_letter c) (is_text s) h (is_text-IsLetters s)
  where
    both : (a b : Bool) → (a && b) ≡ true → (b ≡ true → IsLetters s) → (a ≡ true) × IsLetters s
    both true true e f = (refl, f refl)
    both true false e f = cc
    both false b e f = cc

b62-IsLetters : IsLetters b62
b62-IsLetters = is_text-IsLetters b62 refl

decimal-IsLetters : IsLetters decimal
decimal-IsLetters = is_text-IsLetters decimal refl

b64url-IsLetters : IsLetters b64url
b64url-IsLetters = is_text-IsLetters b64url refl

-- The digits of a number are letters, if those of the table are, and the base is not above its size.
digits-IsLetters :
    (chars : List ℕ) (base left n : ℕ)
    → IsLetters chars
    → ((m : ℕ) → m % base < length chars)
    → IsLetters (backwards (digits chars base left n))
unfolding digits backwards
digits-IsLetters chars base zero n h small = tt
digits-IsLetters chars base (suc left) n h small = elim (Bool-cases (n == 0)) [
  | inl e ↦ rw e tt
  | inr e ↦ rw e (
      All-append (λ c. is_letter c ≡ true) (backwards (digits chars base left (n / base))) _
        (digits-IsLetters chars base left (n / base) h small)
        (get_or-All (λ c. is_letter c ≡ true) chars (n % base) 0 h (small n), tt))
]

sextet-letter : (g k : ℕ) → is_letter (sextet g k) ≡ true
sextet-letter g k =
    get_or-All (λ c. is_letter c ≡ true) b64url (bit_and (g / 2 ^ k) 0x3f) 0 b64url-IsLetters
      (omega (arith, and_mask 6 (g / 2 ^ k)))

quartet-IsLetters : (g : ℕ) → IsLetters (quartet g)
quartet-IsLetters g =
    (sextet-letter g 18, (sextet-letter g 12, (sextet-letter g 6, (sextet-letter g 0, tt))))

pub b64url_ts6-IsLetters : (t : ℕ) → (length (b64url_ts6 t) ≡ 8) × IsLetters (b64url_ts6 t)
unfolding b64url_ts6
b64url_ts6-IsLetters t = (
  refl,
  All-append (λ c. is_letter c ≡ true) (quartet (first_group t)) (quartet (second_group t))
      (quartet-IsLetters (first_group t)) (quartet-IsLetters (second_group t)),
)

-- A text of letters, of at least one and at most `n`.
pub record IsToken (n : ℕ) (s : List ℕ) : Type 0 where
  pub letters : IsLetters s
  pub filled : 1 ≤ length s
  pub short : length s ≤ n

abbrev HasToken : ℕ → Option (List ℕ) → Type 0
HasToken n none = Unit
HasToken n (some s) = IsToken n s

length-backwards : (s : List ℕ) → length (backwards s) ≡ length s
unfolding backwards
length-backwards [] = refl
length-backwards (c ∷ s) = omega (arith, length-append (backwards s) (c ∷ []), length-backwards s)

digits-filled :
    (chars : List ℕ) (base left n : ℕ) → 0 < n → 1 ≤ length (digits chars base (suc left) n)
unfolding digits
digits-filled chars base left n h = ground arith

zero-IsToken : (n : ℕ) → 1 ≤ n → IsToken n (48 ∷ [])
zero-IsToken n h = record { letters = (refl, tt); filled = omega arith; short = h }

-- The three ways out of the functions that write a number.
choose-HasToken :
    (n : ℕ) (s : List ℕ) (small is_zero full : Bool)
    → 1 ≤ n
    → (is_zero ≡ false → IsToken n s)
    → HasToken n
        (if small then none else if is_zero then some (48 ∷ []) else if full then none else some s)
choose-HasToken n s true is_zero full one h = tt
choose-HasToken n s false true full one h = zero-IsToken n one
choose-HasToken n s false false true one h = tt
choose-HasToken n s false false false one h = h refl

signed-IsToken : (v : ℤ) (s : List ℕ) → IsToken 11 s → IsToken 12 (sign_text v ++ s)
signed-IsToken (pos n) s h =
    let one = h.filled in
    let few = h.short in record { letters = h.letters; filled = one; short = omega arith }
signed-IsToken (negsuc n) s h =
    let few = h.short in
    record { letters = (refl, h.letters); filled = omega arith; short = omega arith }

b62_encode-HasToken :
    (v : ℤ) (out_len : ℕ) → magnitude v < 2 ^ 64 → HasToken 12 (b62_encode v out_len)
unfolding b62_encode
b62_encode-HasToken v out_len h =
    let buf = digits b62 62 95 (magnitude v) in
    choose-HasToken 12 (sign_text v ++ backwards buf) (ltb out_len 2) (magnitude v == 0)
      (ltb out_len (length buf + bit (is_negative v) + 1)) (omega arith)
      (λ nonzero. signed-IsToken v (backwards buf) (record {
        letters = digits-IsLetters b62 62 95 (magnitude v) b62-IsLetters (λ m. omega arith);
        filled =
            omega
              (arith, length-backwards buf, digits-filled b62 62 94 (magnitude v) (ground arith));
        short =
            omega (arith, length-backwards buf, length-digits 95 11 (magnitude v) (omega arith));
      }))

-- A number of 63 bits or its negative is written in 1 to 12 letters, which read as the number.
pub b62_text :
    (v : ℤ) (out_len : ℕ)
    → magnitude v < 2 ^ 63
    → 13 ≤ out_len
    → (s : List ℕ) × (b62_encode v out_len ≡ some s) × (b62_decode s ≡ some v) × IsToken 12 s
b62_text v out_len h room =
    let (s, written, read) = b62_decode-encode v out_len h room in
    (s, written, read, subst (HasToken 12) written (b62_encode-HasToken v out_len (omega arith)))

u32toa-HasToken : (n cap : ℕ) → n < 2 ^ 32 → HasToken 10 (u32toa n cap)
unfolding u32toa
u32toa-HasToken n cap h =
    let tmp = digits decimal 10 11 n in
    choose-HasToken 10 (backwards tmp) (ltb cap 2) (n == 0) (leb cap (length tmp)) (omega arith)
      (λ nonzero. record {
        letters = digits-IsLetters decimal 10 11 n decimal-IsLetters (λ m. omega arith);
        filled = omega (arith, length-backwards tmp, digits-filled decimal 10 10 n (ground arith));
        short = omega (arith, length-backwards tmp, Decimal.length-digits 11 10 n (omega arith));
      })

-- A 32-bit number is written in 1 to 10 letters.
pub u32_text : (n : ℕ) → n < 2 ^ 32 → (s : List ℕ) × (u32toa n 11 ≡ some s) × IsToken 10 s
u32_text n h =
    let (s, written, read) = number-u32toa n 11 h (omega arith) in
    (s, written, subst (HasToken 10) written (u32toa-HasToken n 11 h))

pub letters-Lacks : (c : ℕ) (s : List ℕ) → is_letter c ≡ false → IsLetters s → All (λ x. x ≢ c) s
letters-Lacks c s no_letter h =
    All-map (λ x. is_letter x ≡ true) (λ x. x ≢ c)
      (λ x l e. true_not_false (sym l ∙ ap is_letter e ∙ no_letter)) s h
  where
    true_not_false : true ≢ false
    true_not_false e = cc

pub letters-IsBytes : (s : List ℕ) → IsLetters s → IsBytes s
letters-IsBytes s h = All-map (λ x. is_letter x ≡ true) IsByte (λ x l. ground arith) s h
