-- ===== src/FusionState/Masks.antt =====
-- The bit mask of a DIFF body of src/osfx_fusion_state.c, as the sender sets it and the receiver reads it.
use osynaptic_fx.Prelude.{
  ℕ, zero, suc, ◌+◌, ◌*◌, ◌/◌, ◌%◌, ◌^◌, ◌≤◌, ◌<◌, ◌≡◌, refl, sym, ap, ◌∙◌, ◌==◌, ltb, leb,
  if◌then◌else◌, if_false, Bool, true, false, not, ◌||◌, List, [], ◌∷◌, ◌++◌, length, take, drop,
  none, some, arith, All, All-append, subst, length-append, take-append, drop-append, Bool-cases,
  inl, inr, bit_or,
}
use native.Mathlib.Nat.{pow-suc, one-le-pow, div-one, pow-le-pow_right, div-div-eq-div-mul}
use osynaptic_fx.Prelude.Words.{IsByte, IsBytes}
use osynaptic_fx.Prelude.Bits.{or_fields, or_digit, and_mask}
use osynaptic_fx.Prelude.Texts.{same_text, same_text→eq}
use osynaptic_fx.FusionState.{fusion_max_val_len}
use osynaptic_fx.FusionState.Encode.{
  diff_mask, diff_values, diff_cached, mask_bytes, mask_len_of, diff_body,
}
use osynaptic_fx.FusionState.Decode.{read_mask, is_marked, read_value, apply_slots}

-- The changed slots as a number, the first in the lowest bit.
unfoldable pub flags : List (List ℕ) → List (List ℕ) → ℕ
flags [] slots = 0
flags (v ∷ vals) [] = 0
flags (v ∷ vals) (s ∷ slots) = (if same_text v s then 0 else 1) + 2 * flags vals slots

or_bit : (k m : ℕ) → m < 2 ^ k → bit_or m (2 ^ k) ≡ m + 2 ^ k
or_bit zero m h = let e : m ≡ 0 = omega arith in rw e refl
or_bit (suc k) m h =
    let half : 2 ^ suc k / 2 ≡ 2 ^ k = omega (arith, pow-suc 2 k) in
    omega (
      arith,
      pow-suc 2 k,
      or_digit m (2 ^ suc k),
      ap (bit_or (m / 2)) half,
      or_bit k (m / 2) (omega (arith, pow-suc 2 k)),
    )

scaled : (i f : ℕ) → 2 ^ suc i * f ≡ 2 ^ i * (2 * f)
scaled i f = omega (arith, ap (λ (t : ℕ). t * f) (pow-suc 2 i))

diff_mask_lem :
    (i : ℕ) (vals slots : List (List ℕ)) (mask : ℕ)
    → mask < 2 ^ i
    → diff_mask i vals slots mask ≡ mask + 2 ^ i * flags vals slots
unfolding diff_mask flags
diff_mask_lem i [] slots mask h = omega arith
diff_mask_lem i (v ∷ vals) [] mask h = omega arith
diff_mask_lem i (v ∷ vals) (s ∷ slots) mask h =
    let f : ℕ = flags vals slots in
    elim (Bool-cases (same_text v s)) [
      | inl e ↦ rw e (
          diff_mask_lem (suc i) vals slots mask (omega (arith, pow-suc 2 i))
          ∙ omega (arith, scaled i f))
      | inr e ↦ rw e (
          diff_mask_lem (suc i) vals slots (bit_or mask (2 ^ i))
            (omega (arith, pow-suc 2 i, or_bit i mask h))
          ∙ omega (arith, scaled i f, or_bit i mask h))
    ]

flags-lt : (vals slots : List (List ℕ)) → flags vals slots < 2 ^ length slots
unfolding flags
flags-lt [] slots = one-le-pow (length slots) 2 (omega arith)
flags-lt (v ∷ vals) [] = omega arith
flags-lt (v ∷ vals) (s ∷ slots) = ground (arith, flags-lt vals slots, pow-suc 2 (length slots))

-- The mask seen from bit `j` on.
halved : (mask j : ℕ) → mask / 2 ^ suc j ≡ mask / 2 ^ j / 2
halved mask j = ap (λ t. mask / t) (pow-suc 2 j) ∙ sym (div-div-eq-div-mul mask (2 ^ j) 2)

is_marked_lem : (mask j : ℕ) → is_marked mask j ≡ not (mask / 2 ^ j % 2 == 0)
is_marked_lem mask j = ap (λ t. not (t == 0)) (and_mask 1 (mask / 2 ^ j))

-- The slots are short enough for a length byte and for the cache.
abbrev pub Fits : List (List ℕ) → Type 0
Fits = All (λ s. length s < fusion_max_val_len)

read_value_lem :
    (s rest : List ℕ)
    → length s < fusion_max_val_len
    → read_value (length s ∷ s ++ rest) ≡ some (s, rest)
unfolding read_value
read_value_lem s rest h =
    if_false (ltb (length (s ++ rest)) (length s) || leb fusion_max_val_len (length s)) none _
      (ground (arith, length-append s rest))
    ∙ cc (take-append s rest, drop-append s rest)

apply_slots-step :
    (j mask : ℕ) (v s body rest : List ℕ) (vals slots : List (List ℕ))
    → (if is_marked mask j then read_value body else some (v, body)) ≡ some (s, rest)
    → apply_slots (suc j) mask vals rest ≡ (slots, true)
    → apply_slots j mask (v ∷ vals) body ≡ (s ∷ slots, true)
unfolding apply_slots
apply_slots-step j mask v s body rest vals slots e f = rw (apply_slots, e) (rw f refl)

-- What slot `j` finds in the body, from whether it changed and whether it is marked.
next_value :
    (v s rest : List ℕ) (same marked : Bool)
    → (same ≡ true → v ≡ s)
    → marked ≡ not same
    → length s < fusion_max_val_len
    → (let body : List ℕ = if same then rest else length s ∷ s ++ rest in
        (if marked then read_value body else some (v, body)) ≡ some (s, rest))
next_value v s rest true true h e fit = cc
next_value v s rest true false h e fit = ap (λ t. some (t, rest)) (h refl)
next_value v s rest false true h e fit = read_value_lem s rest fit
next_value v s rest false false h e fit = cc

marked_flag : (same : Bool) (f : ℕ) → not (((if same then 0 else 1) + 2 * f) % 2 == 0) ≡ not same
marked_flag same f = ground arith

shifted_flag : (same : Bool) (f : ℕ) → ((if same then 0 else 1) + 2 * f) / 2 ≡ f
shifted_flag same f = ground arith

-- The slots that a receiver reads from a DIFF body are the sender's.
apply_slots_lem :
    (j mask : ℕ) (vals slots : List (List ℕ))
    → mask / 2 ^ j ≡ flags vals slots
    → length vals ≡ length slots
    → Fits slots
    → apply_slots j mask vals (diff_values vals slots) ≡ (slots, true)
unfolding diff_values flags
apply_slots_lem j mask [] [] m l fit = unfold apply_slots in refl
apply_slots_lem j mask [] (s ∷ slots) m l fit = absurd (omega arith)
apply_slots_lem j mask (v ∷ vals) [] m l fit = absurd (omega arith)
apply_slots_lem j mask (v ∷ vals) (s ∷ slots) m l fit =
    let same : Bool = same_text v s in
    let marked : is_marked mask j ≡ not same =
      is_marked_lem mask j ∙ ap (λ t. not (t % 2 == 0)) m ∙ marked_flag same (flags vals slots) in
    apply_slots-step j mask v s _ (diff_values vals slots) vals slots
      (next_value v s (diff_values vals slots) same (is_marked mask j) (same_text→eq v s) marked
        fit.0)
      (apply_slots_lem (suc j) mask vals slots
        (halved mask j ∙ ap (λ t. t / 2) m ∙ shifted_flag same (flags vals slots)) (omega arith)
        fit.1)

-- The cached slots of the sender are those of the report.
pub diff_cached_lem :
    (vals slots : List (List ℕ)) → length vals ≡ length slots → diff_cached vals slots ≡ slots
unfolding diff_cached
diff_cached_lem [] [] l = refl
diff_cached_lem [] (s ∷ slots) l = absurd (omega arith)
diff_cached_lem (v ∷ vals) [] l = absurd (omega arith)
diff_cached_lem (v ∷ vals) (s ∷ slots) l = elim (Bool-cases (same_text v s)) [
  | inl e ↦ rw e (cc (same_text→eq v s e, diff_cached_lem vals slots (omega arith)))
  | inr e ↦ rw e (ap (◌∷◌ s) (diff_cached_lem vals slots (omega arith)))
]

one_byte : (n : ℕ) → 1 ≤ n → n ≤ 8 → mask_len_of n ≡ 1
one_byte n h k = omega arith

flags-IsByte : (vals slots : List (List ℕ)) → length slots ≤ 8 → IsByte (flags vals slots)
flags-IsByte vals slots k = omega (
  arith,
  flags-lt vals slots,
  pow-le-pow_right {n = 2} (omega arith) {i = length slots} {j = 8} k,
)

-- The mask of at most 8 slots is one byte.
pub diff_body_lem :
    (vals slots : List (List ℕ))
    → 1 ≤ length slots
    → length slots ≤ 8
    → diff_body vals slots ≡ flags vals slots ∷ diff_values vals slots
unfolding diff_body mask_bytes
diff_body_lem vals slots h k =
    let small = flags-IsByte vals slots k in
    ap (λ n. mask_bytes n (diff_mask 0 vals slots 0) ++ diff_values vals slots)
      (one_byte (length slots) h k)
    ∙ ap (λ t. t ∷ diff_values vals slots)
        (and_mask 8 (diff_mask 0 vals slots 0)
          ∙ omega (arith, diff_mask_lem 0 vals slots 0 (omega arith)))

read_one : (b : ℕ) → IsByte b → read_mask 0 (b ∷ []) ≡ b
unfolding read_mask
read_one b h = or_fields 8 0 b h ∙ omega arith

-- What a receiver with the same cached slots makes of a DIFF body.
pub record Applies (vals slots : List (List ℕ)) (body : List ℕ) : Type 0 where
  pub filled : length body ≡ suc (length (diff_values vals slots))
  pub slots_read : apply_slots 0 (read_mask 0 (take 1 body)) vals (drop 1 body) ≡ (slots, true)

pub diff_body-Applies :
    (vals slots : List (List ℕ))
    → length vals ≡ length slots
    → 1 ≤ length slots
    → length slots ≤ 8
    → Fits slots
    → Applies vals slots (diff_body vals slots)
diff_body-Applies vals slots l h k fit =
    subst (Applies vals slots) (sym (diff_body_lem vals slots h k)) (record {
      filled = refl;
      slots_read =
          ap (λ m. apply_slots 0 m vals (diff_values vals slots))
            (read_one (flags vals slots) (flags-IsByte vals slots k))
          ∙ apply_slots_lem 0 (flags vals slots) vals slots (div-one (flags vals slots)) l fit;
    })

-- The bytes of a DIFF body.
diff_values-IsBytes :
    (vals slots : List (List ℕ)) → Fits slots → All IsBytes slots → IsBytes (diff_values vals slots)
unfolding diff_values
diff_values-IsBytes [] slots fit b = tt
diff_values-IsBytes (v ∷ vals) [] fit b = tt
diff_values-IsBytes (v ∷ vals) (s ∷ slots) fit b =
    let rest = diff_values-IsBytes vals slots fit.1 b.1 in
    elim (Bool-cases (same_text v s)) [
      | inl e ↦ rw e rest
      | inr e ↦ rw e (omega (arith, fit.0), All-append IsByte s (diff_values vals slots) b.0 rest)
    ]

pub diff_body-IsBytes :
    (vals slots : List (List ℕ))
    → 1 ≤ length slots
    → length slots ≤ 8
    → Fits slots
    → All IsBytes slots
    → IsBytes (diff_body vals slots)
diff_body-IsBytes vals slots h k fit b =
    subst IsBytes (sym (diff_body_lem vals slots h k))
      (flags-IsByte vals slots k, diff_values-IsBytes vals slots fit b)

-- The bytes that the slots take up in a DIFF body, if all of them changed.
unfoldable pub slots_size : List (List ℕ) → ℕ
slots_size [] = 0
slots_size (s ∷ slots) = suc (length s) + slots_size slots

pub length-diff_values :
    (vals slots : List (List ℕ)) → length (diff_values vals slots) ≤ slots_size slots
unfolding diff_values slots_size
length-diff_values [] slots = omega arith
length-diff_values (v ∷ vals) [] = omega arith
length-diff_values (v ∷ vals) (s ∷ slots) =
    ground (arith, length-diff_values vals slots, length-append s (diff_values vals slots))
