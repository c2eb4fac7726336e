-- ===== src/Solidity/Text/Digits.antt =====
-- The digit loops of src/osfx_solidity.c, and the number that a text stands for.
use osynaptic_fx.Prelude.{
  ℕ, zero, suc, ◌+◌, ◌*◌, ◌/◌, ◌%◌, ◌≤◌, ◌<◌, ◌≡◌, refl, ap, ◌∙◌, ◌==◌, List, [], ◌∷◌, ◌++◌, get_or,
  Option, none, some, arith, Bool-cases, inl, inr,
}
use osynaptic_fx.Solidity.Text.{digits, backwards}

-- A number in base `base`, its highest digit first, of which `value` says what a character stands for.
module _ (value : ℕ → Option ℕ) (base : ℕ) where
  abbrev pub push : ℕ → Option ℕ → Option ℕ
  push n none = none
  push n (some d) = some (n * base + d)

  unfoldable pub number : Option ℕ → List ℕ → Option ℕ
  number none s = none
  number (some n) [] = some n
  number (some n) (c ∷ s) = number (push n (value c)) s

  abbrev pub push_to : Option ℕ → Option ℕ → Option ℕ
  push_to none d = none
  push_to (some n) d = push n d

  number-append :
      (o : Option ℕ) (s : List ℕ) (c : ℕ) → number o (s ++ c ∷ []) ≡ push_to (number o s) (value c)
  unfolding number
  number-append none [] c = refl
  number-append none (d ∷ s) c = refl
  number-append (some n) [] c = last (push n (value c))
    where
      last : (x : Option ℕ) → number x [] ≡ x
      last none = refl
      last (some x) = refl
  number-append (some n) (d ∷ s) c = number-append (push n (value d)) s c

  -- The text of `digits`, read as a number: the table has a character for each digit, and division
  -- by the base does what it should. `bound` says how large a number so many digits can hold.
  pub number-digits :
      (chars : List ℕ)
      → ((d : ℕ) → d < base → value (get_or chars d 0) ≡ some d)
      → ((n : ℕ) → (n / base * base + n % base ≡ n) × (n % base < base))
      → (bound : ℕ → ℕ) → bound 0 ≤ 1
      → ((n k : ℕ) → n < bound (suc k) → n / base < bound k)
      → (left n : ℕ) → n < bound left
      → number (some 0) (backwards (digits chars base left n)) ≡ some n
  unfolding number digits backwards
  number-digits chars table divides bound least shrinks zero n h = ap some (omega arith)
  number-digits chars table divides bound least shrinks (suc left) n h =
      elim (Bool-cases (n == 0)) [
        | inl e ↦ ground (arith, e)
        | inr e ↦
            let rest = backwards (digits chars base left (n / base)) in
            let others =
              number-digits chars table divides bound least shrinks left (n / base)
                (shrinks n left h) in
            let last = table (n % base) (divides n).1 in
            let read : number (some 0) (rest ++ get_or chars (n % base) 0 ∷ []) ≡ some n =
              number-append (some 0) rest (get_or chars (n % base) 0)
              ∙ ap (λ o. push_to o (value (get_or chars (n % base) 0))) others
              ∙ ap (push (n / base)) last
              ∙ ap some (divides n).0 in
            rw e read
      ]
