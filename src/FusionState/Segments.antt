-- ===== src/FusionState/Segments.antt =====
-- What `parse_body_slots` of src/osfx_fusion_state.c makes of the segments behind the header.
use osynaptic_fx.Prelude.{
  ℕ, zero, suc, ◌≤◌, ◌≡◌, ◌≢◌, refl, ap, ◌∙◌, subst, ◌==◌, if◌then◌else◌, Bool, true, false, List,
  [], ◌∷◌, ◌++◌, length, Option, none, some, arith, All, All-append, All-append_parts, ==_refl,
}
use mathlib.Core.List.{append_assoc}
use osynaptic_fx.Prelude.Texts.{
  Lacks, FirstCut, LastCut, split_first, split_last, split_first-FirstCut, split_last-LastCut,
  split_first-append, split_last-append,
}
use osynaptic_fx.FusionState.{
  Sensor, sensor_ok, with_values, with_tag, read_segment, cons_first, segments, read_segments, bar,
  gt, colon,
}

-- A sensor that a segment can stand for.
pub record IsSensor (s : Sensor) : Type 0 where
  pub sized : sensor_ok s ≡ true
  pub tag_gt : Lacks gt s.tag
  pub tag_bar : Lacks bar s.tag
  pub meta_bar : Lacks bar s.meta
  pub val_colon : Lacks colon s.val
  pub val_bar : Lacks bar s.val

abbrev HasSensor : Option Sensor → Type 0
HasSensor none = Unit
HasSensor (some s) = IsSensor s

HasSensor-if :
    (s : Sensor) (ok : Bool) → (ok ≡ true → IsSensor s) → HasSensor (if ok then some s else none)
HasSensor-if s true h = h refl
HasSensor-if s false h = tt

with_values-HasSensor :
    (tag rest : List ℕ) (o : Option (List ℕ × List ℕ))
    → Lacks gt tag
    → Lacks bar tag
    → Lacks bar rest
    → LastCut colon rest o
    → HasSensor (with_values tag o)
with_values-HasSensor tag rest none g b r cut = tt
with_values-HasSensor tag rest (some (meta, val)) g b r cut =
    let (in_meta, behind) =
      All-append_parts (λ x. x ≢ bar) meta (colon ∷ val) (subst (Lacks bar) cut.0 r) in
    let s : Sensor = record { tag = tag; meta = meta; val = val } in
    HasSensor-if s (sensor_ok s) (λ ok. record {
      sized = ok;
      tag_gt = g;
      tag_bar = b;
      meta_bar = in_meta;
      val_colon = cut.1;
      val_bar = behind.1;
    })

with_tag-HasSensor :
    (segment : List ℕ) (o : Option (List ℕ × List ℕ))
    → Lacks bar segment
    → FirstCut gt segment o
    → HasSensor (with_tag o)
with_tag-HasSensor segment none b cut = tt
with_tag-HasSensor segment (some (tag, rest)) b cut =
    let (in_tag, behind) =
      All-append_parts (λ x. x ≢ bar) tag (gt ∷ rest) (subst (Lacks bar) cut.0 b) in
    with_values-HasSensor tag rest (split_last colon rest) cut.1 in_tag behind.1
      (split_last-LastCut colon rest)

read_segment-HasSensor : (segment : List ℕ) → Lacks bar segment → HasSensor (read_segment segment)
unfolding read_segment
read_segment-HasSensor segment b =
    with_tag-HasSensor segment (split_first gt segment) b (split_first-FirstCut gt segment)

cons_first-Lacks :
    (c : ℕ) (segs : List (List ℕ))
    → c ≢ bar
    → All (Lacks bar) segs
    → All (Lacks bar) (cons_first c segs)
cons_first-Lacks c [] ne h = ((ne, tt), tt)
cons_first-Lacks c (s ∷ segs) ne h = ((ne, h.0), h.1)

segments-Lacks-if :
    (c : ℕ) (segs : List (List ℕ)) (here : Bool)
    → (here ≡ false → c ≢ bar)
    → All (Lacks bar) segs
    → All (Lacks bar) (if here then [] ∷ segs else cons_first c segs)
segments-Lacks-if c segs true ne h = (tt, h)
segments-Lacks-if c segs false ne h = cons_first-Lacks c segs (ne refl) h

pub segments-Lacks : (s : List ℕ) → All (Lacks bar) (segments s)
unfolding segments
segments-Lacks [] = (tt, tt)
segments-Lacks (c ∷ s) =
    segments-Lacks-if c (segments s) (c == bar) (λ h. ground arith) (segments-Lacks s)

-- Every sensor that is read is one, and there are at most as many as may be.
pub read_segments-IsSensor :
    (left : ℕ) (segs : List (List ℕ))
    → All (Lacks bar) segs
    → All IsSensor (read_segments left segs) × (length (read_segments left segs) ≤ left)
unfolding read_segments
read_segments-IsSensor zero segs h = (tt, omega arith)
read_segments-IsSensor (suc left) [] h = (tt, omega arith)
read_segments-IsSensor (suc left) (s ∷ segs) h =
    step (read_segment s) (read_segment-HasSensor s h.0) (read_segments-IsSensor left segs h.1)
      (read_segments-IsSensor (suc left) segs h.1)
  where
    step :
        (o : Option Sensor)
        → HasSensor o
        → All IsSensor (read_segments left segs) × (length (read_segments left segs) ≤ left)
        → All IsSensor (read_segments (suc left) segs)
          × (length (read_segments (suc left) segs) ≤ suc left)
        → (let taken : List Sensor = elim o [
          | none ↦ read_segments (suc left) segs
          | some x ↦ x ∷ read_segments left segs
        ] in
            All IsSensor taken × (length taken ≤ suc left))
    step none x fewer all = all
    step (some x) is_sensor fewer all = ((is_sensor, fewer.0), omega (arith, fewer.1))

-- The text of a sensor, and of several, each ended by a '|'.
abbrev pub sensor_text : Sensor → List ℕ
sensor_text s = s.tag ++ gt ∷ (s.meta ++ colon ∷ s.val)

unfoldable pub sensors_text : List Sensor → List ℕ
sensors_text [] = []
sensors_text (s ∷ rest) = s.tag ++ gt ∷ (s.meta ++ colon ∷ (s.val ++ bar ∷ sensors_text rest))

read_segment-sensor_text : (s : Sensor) → IsSensor s → read_segment (sensor_text s) ≡ some s
unfolding read_segment
read_segment-sensor_text s h =
    ap with_tag (split_first-append gt s.tag (s.meta ++ colon ∷ s.val) h.tag_gt)
    ∙ ap (with_values s.tag) (split_last-append colon s.meta s.val h.val_colon)
    ∙ checked-if (sensor_ok s) h.sized
  where
    checked-if : (ok : Bool) → ok ≡ true → (if ok then some s else none) ≡ some s
    checked-if true e = refl
    checked-if false e = cc

segments-append : (a b : List ℕ) → Lacks bar a → segments (a ++ bar ∷ b) ≡ a ∷ segments b
unfolding segments
segments-append [] b h = ground (arith, ==_refl bar)
segments-append (c ∷ a) b h = ground (arith, h.0, segments-append a b h.1)

sensors_text_first :
    (s : Sensor) (rest : List Sensor)
    → sensors_text (s ∷ rest) ≡ sensor_text s ++ bar ∷ sensors_text rest
unfolding sensors_text
sensors_text_first s rest = rw (append_assoc, append_assoc) refl

sensor_text-Lacks : (s : Sensor) → IsSensor s → Lacks bar (sensor_text s)
sensor_text-Lacks s h =
    All-append (λ x. x ≢ bar) s.tag (gt ∷ (s.meta ++ colon ∷ s.val)) h.tag_bar
      (
        omega arith,
        All-append (λ x. x ≢ bar) s.meta (colon ∷ s.val) h.meta_bar (omega arith, h.val_bar),
      )

nothing_read : (left : ℕ) → read_segments (suc left) (segments (sensors_text [])) ≡ []
unfolding read_segments segments sensors_text read_segment split_first
nothing_read left = refl

-- The sensors that were written are read, if they are few enough.
pub read_segments-sensors_text :
    (left : ℕ) (sensors : List Sensor)
    → All IsSensor sensors
    → length sensors ≤ left
    → read_segments left (segments (sensors_text sensors)) ≡ sensors
unfolding read_segments
read_segments-sensors_text zero [] h few = refl
read_segments-sensors_text zero (s ∷ rest) h few = absurd (omega arith)
read_segments-sensors_text (suc left) [] h few = nothing_read left
read_segments-sensors_text (suc left) (s ∷ rest) h few =
    ap (read_segments (suc left)) (
      ap segments (sensors_text_first s rest)
      ∙ segments-append (sensor_text s) (sensors_text rest) (sensor_text-Lacks s h.0))
    ∙ rw (read_segments, read_segment-sensor_text s h.0)
        (ap (◌∷◌ s) (read_segments-sensors_text left rest h.1 (omega arith)))
