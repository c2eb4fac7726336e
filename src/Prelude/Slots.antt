-- ===== src/Prelude/Slots.antt =====
-- Fixed tables of slots: every store of the source is an array that is scanned from the front,
-- for the entry of a key or for the first free slot.
use Prim.Native.Nat.{ℕ, zero, suc, ◌+◌, ◌≤◌, ◌<◌}
use mathlib.Core.Path.{◌≡◌, refl, ap}
use mathlib.Core.Logic.{◌↔◌}
use mathlib.Core.Bool.{Bool, true, false}
use mathlib.Core.List.{List, [], ◌∷◌}
use mathlib.Core.Option
use mathlib.Core.Option.{Option, none, some}
use native.Mathlib.Omega.{arith}
use osynaptic_fx.Prelude.Lists.{length, get_elem?}

abbrev pub bit : Bool → ℕ
bit true = 1
bit false = 0

module _ {ℓ} {A : Type ℓ} where
  -- `for (i = 0; i < N; ++i) if (test(slots[i])) return i;`, and `none` after the loop.
  unfoldable pub find_index : (A → Bool) → List A → Option ℕ
  find_index p [] = none
  find_index p (x ∷ xs) = elim (p x) [ true ↦ some 0 | false ↦ Option.map suc (find_index p xs) ]

  -- The same loop, handing out the entry.
  unfoldable pub find : (A → Bool) → List A → Option A
  find p [] = none
  find p (x ∷ xs) = elim (p x) [ true ↦ some x | false ↦ find p xs ]

  -- A write through the pointer to slot `i`.
  unfoldable pub modify : List A → ℕ → (A → A) → List A
  modify [] i f = []
  modify (x ∷ xs) zero f = f x ∷ xs
  modify (x ∷ xs) (suc i) f = x ∷ modify xs i f

  -- `for (i = 0; i < N; ++i) if (test(slots[i])) n++;`
  unfoldable pub count : (A → Bool) → List A → ℕ
  count p [] = 0
  count p (x ∷ xs) = bit (p x) + count p xs

  pub length-modify : (xs : List A) (i : ℕ) (f : A → A) → length (modify xs i f) ≡ length xs
  unfolding modify
  length-modify [] i f = refl
  length-modify (x ∷ xs) zero f = refl
  length-modify (x ∷ xs) (suc i) f = ap suc (length-modify xs i f)

  pub get_elem?-modify :
      (xs : List A) (i : ℕ) (f : A → A) (x : A)
      → get_elem? xs i ≡ some x
      → get_elem? (modify xs i f) i ≡ some (f x)
  unfolding modify
  get_elem?-modify [] i f x e = cc
  get_elem?-modify (y ∷ xs) zero f x e = ground arith
  get_elem?-modify (y ∷ xs) (suc i) f x e = get_elem?-modify xs i f x e

  -- What a scan that stops at slot `i` has found there.
  pub record Finds (p : A → Bool) (xs : List A) (i : ℕ) : Type ℓ where
    pub entry : A
    pub found : find p xs ≡ some entry
    pub there : get_elem? xs i ≡ some entry
    pub passes : p entry ≡ true

module _ {ℓ} {A : Type ℓ} (p : A → Bool) where
  pub find_index-none : (xs : List A) → find_index p xs ≡ none → find p xs ≡ none
  unfolding find_index find
  find_index-none [] e = refl
  find_index-none (x ∷ xs) e = ground (arith, find_index-none xs)

  Finds-skip : (x : A) (xs : List A) (i : ℕ) → p x ≡ false → Finds p xs i → Finds p (x ∷ xs) (suc i)
  unfolding find
  Finds-skip x xs i miss h = record {
    entry = h.entry;
    found = rw (miss, find) h.found;
    there = h.there;
    passes = h.passes;
  }

  pub find_index-Finds : (xs : List A) (i : ℕ) → find_index p xs ≡ some i → Finds p xs i
  unfolding find_index find
  find_index-Finds [] i e = cc
  find_index-Finds (x ∷ xs) zero e =
      let hit : p x ≡ true = ground arith in
      record { entry = x; found = rw (hit, find); there = refl; passes = hit }
  find_index-Finds (x ∷ xs) (suc i) e =
      Finds-skip x xs i (ground arith) (find_index-Finds xs i (ground arith))

  pub find-modify_found :
      (xs : List A) (i : ℕ) (f : A → A) (x : A)
      → find_index p xs ≡ some i
      → find p xs ≡ some x
      → p (f x) ≡ true
      → find p (modify xs i f) ≡ some (f x)
  unfolding find_index find modify
  find-modify_found [] i f x e g h = cc
  find-modify_found (y ∷ xs) zero f x e g h = ground arith
  find-modify_found (y ∷ xs) (suc i) f x e g h = ground (arith, find-modify_found xs i f x)

  pub find-modify_ne :
      (xs : List A) (i : ℕ) (f : A → A) (x : A)
      → get_elem? xs i ≡ some x
      → p x ≡ false
      → p (f x) ≡ false
      → find p (modify xs i f) ≡ find p xs
  unfolding find modify
  find-modify_ne [] i f x e g h = refl
  find-modify_ne (y ∷ xs) zero f x e g h = ground arith
  find-modify_ne (y ∷ xs) (suc i) f x e g h = ground (arith, find-modify_ne xs i f x)

  pub find-modify_fresh :
      (xs : List A) (i : ℕ) (f : A → A) (x : A)
      → find p xs ≡ none
      → get_elem? xs i ≡ some x
      → p (f x) ≡ true
      → find p (modify xs i f) ≡ some (f x)
  unfolding find modify
  find-modify_fresh [] i f x e g h = cc
  find-modify_fresh (y ∷ xs) zero f x e g h = ground arith
  find-modify_fresh (y ∷ xs) (suc i) f x e g h = ground (arith, find-modify_fresh xs i f x)

  pub count-modify :
      (xs : List A) (i : ℕ) (f : A → A) (x : A)
      → get_elem? xs i ≡ some x
      → count p (modify xs i f) + bit (p x) ≡ count p xs + bit (p (f x))
  unfolding count modify
  count-modify [] i f x e = cc
  count-modify (y ∷ xs) zero f x e = ground arith
  count-modify (y ∷ xs) (suc i) f x e = omega (arith, count-modify xs i f x e)

  pub find_passes : (xs : List A) (x : A) → find p xs ≡ some x → p x ≡ true
  unfolding find
  find_passes [] x e = cc
  find_passes (y ∷ xs) x e = ground (arith, find_passes xs x)

  pub find-none_iff : (xs : List A) → (find p xs ≡ none) ↔ (count p xs ≡ 0)
  unfolding find count
  find-none_iff [] = ((λ e. refl), (λ e. refl))
  find-none_iff (x ∷ xs) = ground (arith, find-none_iff xs)

  pub find_index-modify_fresh :
      (xs : List A) (i : ℕ) (f : A → A) (x : A)
      → find_index p xs ≡ none
      → get_elem? xs i ≡ some x
      → p (f x) ≡ true
      → find_index p (modify xs i f) ≡ some i
  unfolding find_index modify
  find_index-modify_fresh [] i f x e g h = cc
  find_index-modify_fresh (y ∷ xs) zero f x e g h = ground arith
  find_index-modify_fresh (y ∷ xs) (suc i) f x e g h =
      ground (arith, find_index-modify_fresh xs i f x)

  pub find_index-modify_same :
      (xs : List A) (i : ℕ) (f : A → A) (x : A)
      → get_elem? xs i ≡ some x
      → p (f x) ≡ p x
      → find_index p (modify xs i f) ≡ find_index p xs
  unfolding find_index modify
  find_index-modify_same [] i f x g h = refl
  find_index-modify_same (y ∷ xs) zero f x g h = ground arith
  find_index-modify_same (y ∷ xs) (suc i) f x g h = ground (arith, find_index-modify_same xs i f x)

module _ {ℓ} {A : Type ℓ} (p q r : A → Bool) (weaker : (x : A) → q x ≡ true → p x ≡ true) where
  pub count-le : (xs : List A) → count q xs ≤ count p xs
  unfolding count
  count-le [] = omega arith
  count-le (x ∷ xs) = ground (arith, weaker x, count-le xs)

  -- A slot that passes one test and not the other makes the counts differ.
  pub count-lt :
      (xs : List A) (i : ℕ)
      → find_index r xs ≡ some i
      → ((x : A) → r x ≡ true → (p x ≡ true) × (q x ≡ false))
      → count q xs < count p xs
  unfolding count find_index
  count-lt [] i e h = cc
  count-lt (x ∷ xs) zero e h = ground (arith, h x, count-le xs)
  count-lt (x ∷ xs) (suc i) e h = ground (arith, weaker x, count-lt xs i)

module _ {ℓ} {A : Type ℓ} where
  pub count-le_length : (p : A → Bool) (xs : List A) → count p xs ≤ length xs
  unfolding count
  count-le_length p [] = omega arith
  count-le_length p (x ∷ xs) = ground (arith, count-le_length p xs)
