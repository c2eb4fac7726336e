-- ===== src/Prelude/Texts.antt =====
-- Byte strings: comparing them, cutting them at a separator, and numbers in decimal.
use Prim.Native.Nat.{ℕ, ◌+◌}
use mathlib.Core.Path.{◌≡◌, refl, ap}
use mathlib.Core.Logic.{◌≢◌}
use mathlib.Core.Bool.{Bool, true, false, ◌&&◌}
use mathlib.Core.Option.{Option, none, some}
use mathlib.Core.List.{List, [], ◌∷◌, ◌++◌}
use native.Mathlib.Omega.{arith}
use osynaptic_fx.Prelude.Tests.{leb, ◌==◌, if◌then◌else◌, ==_refl}
use osynaptic_fx.Prelude.Lists.{All, length}

-- `strcmp(a, b) == 0`, or equal lengths and no difference for `memcmp`.
unfoldable pub same_text : List ℕ → List ℕ → Bool
same_text [] [] = true
same_text [] (c ∷ b) = false
same_text (c ∷ a) [] = false
same_text (c ∷ a) (d ∷ b) = c == d && same_text a b

pub same_text_refl : (a : List ℕ) → same_text a a ≡ true
unfolding same_text
same_text_refl [] = refl
same_text_refl (c ∷ a) = ground (arith, same_text_refl a, ==_refl c)

pub same_text→eq : (a b : List ℕ) → same_text a b ≡ true → a ≡ b
unfolding same_text
same_text→eq [] [] h = refl
same_text→eq [] (c ∷ b) h = cc
same_text→eq (c ∷ a) [] h = cc
same_text→eq (c ∷ a) (d ∷ b) h =
    let first : c ≡ d = ground arith in
    let others = same_text→eq a b (ground arith) in cc (first, others)

-- Whether a copy finds room for the text and its final 0.
abbrev pub has_room : ℕ → List ℕ → Bool
has_room cap text = leb (length text + 1) cap

-- All the texts of two lists agree.
unfoldable pub same_texts : List (List ℕ) → List (List ℕ) → Bool
same_texts [] [] = true
same_texts [] (b ∷ t) = false
same_texts (a ∷ s) [] = false
same_texts (a ∷ s) (b ∷ t) = same_text a b && same_texts s t

pub same_texts_refl : (s : List (List ℕ)) → same_texts s s ≡ true
unfolding same_texts
same_texts_refl [] = refl
same_texts_refl (a ∷ s) = ground (arith, same_texts_refl s, same_text_refl a)

pub same_texts→eq : (s t : List (List ℕ)) → same_texts s t ≡ true → s ≡ t
unfolding same_texts
same_texts→eq [] [] h = refl
same_texts→eq [] (b ∷ t) h = cc
same_texts→eq (a ∷ s) [] h = cc
same_texts→eq (a ∷ s) (b ∷ t) h =
    let first = same_text→eq a b (ground arith) in
    let others = same_texts→eq s t (ground arith) in cc (first, others)

-- What stands before and behind a place in a text.
abbrev pub before_with : ℕ → Option (List ℕ × List ℕ) → Option (List ℕ × List ℕ)
before_with c none = none
before_with c (some (a, b)) = some (c ∷ a, b)

-- The text before the first `c` and the text behind it.
unfoldable pub split_first : ℕ → List ℕ → Option (List ℕ × List ℕ)
split_first c [] = none
split_first c (x ∷ xs) =
    let rest = before_with x (split_first c xs) in if x == c then some ([], xs) else rest

abbrev pub or_split : Option (List ℕ × List ℕ) → Option (List ℕ × List ℕ) → Option (List ℕ × List ℕ)
or_split none d = d
or_split (some s) d = some s

-- The text before the last `c` and the text behind it.
unfoldable pub split_last : ℕ → List ℕ → Option (List ℕ × List ℕ)
split_last c [] = none
split_last c (x ∷ xs) =
    or_split (before_with x (split_last c xs)) (if x == c then some ([], xs) else none)

-- The text before the first `c`, or all of it.
unfoldable pub before : ℕ → List ℕ → List ℕ
before c [] = []
before c (x ∷ xs) = let rest = before c xs in if x == c then [] else x ∷ rest

-- No character of the text is `c`.
abbrev pub Lacks : ℕ → List ℕ → Type 0
Lacks c = All (λ x. x ≢ c)

pub split_first-append :
    (c : ℕ) (a b : List ℕ) → Lacks c a → split_first c (a ++ c ∷ b) ≡ some (a, b)
unfolding split_first
split_first-append c [] b h = ground (arith, ==_refl c)
split_first-append c (x ∷ a) b h = ground (arith, h.0, split_first-append c a b h.1)

split_last_lacking : (c : ℕ) (b : List ℕ) → Lacks c b → split_last c b ≡ none
unfolding split_last
split_last_lacking c [] h = refl
split_last_lacking c (x ∷ b) h = ground (arith, h.0, split_last_lacking c b h.1)

pub split_last-append : (c : ℕ) (a b : List ℕ) → Lacks c b → split_last c (a ++ c ∷ b) ≡ some (a, b)
unfolding split_last
split_last-append c [] b h = ground (arith, ==_refl c, split_last_lacking c b h)
split_last-append c (x ∷ a) b h = ground (arith, split_last-append c a b h)

-- What the two cuts promise of the text they cut.
abbrev pub FirstCut : ℕ → List ℕ → Option (List ℕ × List ℕ) → Type 0
FirstCut c s none = Lacks c s
FirstCut c s (some (a, b)) = (s ≡ a ++ c ∷ b) × Lacks c a

abbrev pub LastCut : ℕ → List ℕ → Option (List ℕ × List ℕ) → Type 0
LastCut c s none = Lacks c s
LastCut c s (some (a, b)) = (s ≡ a ++ c ∷ b) × Lacks c b

FirstCut-if :
    (c x : ℕ) (s : List ℕ) (o : Option (List ℕ × List ℕ)) (here : Bool)
    → (here ≡ true → x ≡ c)
    → (here ≡ false → x ≢ c)
    → FirstCut c s o
    → FirstCut c (x ∷ s) (if here then some ([], s) else before_with x o)
FirstCut-if c x s o true is not_c h = (ap (λ y. y ∷ s) (is refl), tt)
FirstCut-if c x s none false is not_c h = (not_c refl, h)
FirstCut-if c x s (some (a, b)) false is not_c h = (ap (◌∷◌ x) h.0, (not_c refl, h.1))

pub split_first-FirstCut : (c : ℕ) (s : List ℕ) → FirstCut c s (split_first c s)
unfolding split_first
split_first-FirstCut c [] = tt
split_first-FirstCut c (x ∷ s) =
    FirstCut-if c x s (split_first c s) (x == c) (λ h. ground arith) (λ h. ground arith)
      (split_first-FirstCut c s)

LastCut-if :
    (c x : ℕ) (s : List ℕ) (o : Option (List ℕ × List ℕ)) (here : Bool)
    → (here ≡ true → x ≡ c)
    → (here ≡ false → x ≢ c)
    → LastCut c s o
    → LastCut c (x ∷ s) (or_split (before_with x o) (if here then some ([], s) else none))
LastCut-if c x s none true is not_c h = (ap (λ y. y ∷ s) (is refl), h)
LastCut-if c x s none false is not_c h = (not_c refl, h)
LastCut-if c x s (some (a, b)) here is not_c h = (ap (◌∷◌ x) h.0, h.1)

pub split_last-LastCut : (c : ℕ) (s : List ℕ) → LastCut c s (split_last c s)
unfolding split_last
split_last-LastCut c [] = tt
split_last-LastCut c (x ∷ s) =
    LastCut-if c x s (split_last c s) (x == c) (λ h. ground arith) (λ h. ground arith)
      (split_last-LastCut c s)

pub before-append : (c : ℕ) (a b : List ℕ) → Lacks c a → before c (a ++ c ∷ b) ≡ a
unfolding before
before-append c [] b h = ground (arith, ==_refl c)
before-append c (x ∷ a) b h = ground (arith, h.0, before-append c a b h.1)

pub before_lacking : (c : ℕ) (a : List ℕ) → Lacks c a → before c a ≡ a
unfolding before
before_lacking c [] h = refl
before_lacking c (x ∷ a) h = ground (arith, h.0, before_lacking c a h.1)
