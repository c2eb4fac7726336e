-- ===== src/FusionState/Bounds.antt =====
-- How long a DIFF body of src/osfx_fusion_state.c can be.
use osynaptic_fx.Prelude.{
  ℕ, zero, suc, ◌+◌, ◌*◌, ◌%◌, ◌^◌, ◌≤◌, ◌<◌, ◌≡◌, refl, sym, ap, ◌==◌, ltb, if◌then◌else◌, Bool,
  true, false, List, [], ◌∷◌, ◌++◌, length, Option, none, some, arith, length-append, subst,
  Bool-cases, inl, inr,
}
use osynaptic_fx.Prelude.Texts.{
  FirstCut, LastCut, split_first, split_last, split_first-FirstCut, split_last-LastCut,
}
use osynaptic_fx.FusionState.{
  Sensor, Report, sensor_ok, with_values, with_tag, read_segment, cons_first, segments,
  read_segments, report, parse_sections, parse_header, parse_body_slots, decimal_text, slots_of,
  bar, gt, colon, dot, fusion_max_prefix, fusion_max_sensors,
}
use osynaptic_fx.Solidity.Text.{digits, backwards, decimal}
use osynaptic_fx.Solidity.Text.Decimal.{length-digits}
use osynaptic_fx.FusionState.Encode.{diff_body}
use osynaptic_fx.FusionState.Segments.{sensor_text, sensors_text}
use osynaptic_fx.FusionState.Masks.{Fits, slots_size, diff_body_lem, length-diff_values}
use osynaptic_fx.FusionState.Rendered.{
  slots_text, slots_text_sensors, report_text, parse_body_slots-IsReport,
}
use osynaptic_fx.FusionState.Rebuild.{report_counts, report-Fits}

-- A segment is the text of the sensor that is read from it.
abbrev pub TextOf : List ℕ → Option Sensor → Type 0
TextOf segment none = Unit
TextOf segment (some s) = segment ≡ sensor_text s

TextOf-if :
    (segment : List ℕ) (s : Sensor) (ok : Bool)
    → segment ≡ sensor_text s
    → TextOf segment (if ok then some s else none)
TextOf-if segment s true h = h
TextOf-if segment s false h = tt

with_values-TextOf :
    (tag rest : List ℕ) (o : Option (List ℕ × List ℕ))
    → LastCut colon rest o
    → TextOf (tag ++ gt ∷ rest) (with_values tag o)
with_values-TextOf tag rest none cut = tt
with_values-TextOf tag rest (some (meta, val)) cut =
    let s : Sensor = record { tag = tag; meta = meta; val = val } in
    TextOf-if (tag ++ gt ∷ rest) s (sensor_ok s) (ap (λ t. tag ++ gt ∷ t) cut.0)

with_tag-TextOf :
    (segment : List ℕ) (o : Option (List ℕ × List ℕ))
    → FirstCut gt segment o
    → TextOf segment (with_tag o)
with_tag-TextOf segment none cut = tt
with_tag-TextOf segment (some (tag, rest)) cut =
    subst (λ t. TextOf t (with_values tag (split_last colon rest))) (sym cut.0)
      (with_values-TextOf tag rest (split_last colon rest) (split_last-LastCut colon rest))

pub read_segment-TextOf : (segment : List ℕ) → TextOf segment (read_segment segment)
unfolding read_segment
read_segment-TextOf segment =
    with_tag-TextOf segment (split_first gt segment) (split_first-FirstCut gt segment)

-- The bytes of the segments, each with its '|', and of sensors with what they need in a body.
unfoldable total : List (List ℕ) → ℕ
total [] = 0
total (s ∷ segs) = suc (length s) + total segs

unfoldable sensors_size : List Sensor → ℕ
sensors_size [] = 0
sensors_size (s ∷ rest) = length s.tag + length s.meta + length s.val + 3 + sensors_size rest

total-cons_first :
    (c : ℕ) (segs : List (List ℕ)) → 1 ≤ total segs → total (cons_first c segs) ≡ suc (total segs)
unfolding total
total-cons_first c [] h = absurd (omega arith)
total-cons_first c (s ∷ segs) h = omega arith

total-segments : (s : List ℕ) → total (segments s) ≡ suc (length s)
unfolding total segments
total-segments [] = omega arith
total-segments (c ∷ s) = ground (arith, total-segments s, total-cons_first c (segments s))

length-sensor_text :
    (s : Sensor) → length (sensor_text s) ≡ length s.tag + length s.meta + length s.val + 2
length-sensor_text s = omega (
  arith,
  length-append s.tag (gt ∷ (s.meta ++ colon ∷ s.val)),
  length-append s.meta (colon ∷ s.val),
)

read_segments-size :
    (left : ℕ) (segs : List (List ℕ)) → sensors_size (read_segments left segs) ≤ total segs
unfolding read_segments sensors_size total
read_segments-size zero segs = omega arith
read_segments-size (suc left) [] = omega arith
read_segments-size (suc left) (s ∷ segs) =
    step (read_segment s) (read_segment-TextOf s) (read_segments-size left segs)
      (read_segments-size (suc left) segs)
  where
    step :
        (o : Option Sensor)
        → TextOf s o
        → sensors_size (read_segments left segs) ≤ total segs
        → sensors_size (read_segments (suc left) segs) ≤ total segs
        → sensors_size
            (elim o [ none ↦ read_segments (suc left) segs | some x ↦ x ∷ read_segments left segs ])
          ≤ suc (length s) + total segs
    step none e fewer all = omega arith
    step (some x) e fewer all = omega (arith, ap (length {A = ℕ}) e, length-sensor_text x)

slots_of-size :
    (sensors : List Sensor) → slots_size (slots_of sensors) + length sensors ≤ sensors_size sensors
unfolding slots_size sensors_size
slots_of-size [] = omega arith
slots_of-size (s ∷ rest) = omega (arith, slots_of-size rest)

slots_size-Fits : (slots : List (List ℕ)) → Fits slots → slots_size slots ≤ 16 * length slots
unfolding slots_size
slots_size-Fits [] h = omega arith
slots_size-Fits (s ∷ slots) h = omega (arith, h.0, slots_size-Fits slots h.1)

length-sensors_text : (sensors : List Sensor) → length (sensors_text sensors) ≡ sensors_size sensors
unfolding sensors_text sensors_size
length-sensors_text [] = refl
length-sensors_text (s ∷ rest) = omega (
  arith,
  length-append s.tag (gt ∷ (s.meta ++ colon ∷ (s.val ++ bar ∷ sensors_text rest))),
  length-append s.meta (colon ∷ (s.val ++ bar ∷ sensors_text rest)),
  length-append s.val (bar ∷ sensors_text rest),
  length-sensors_text rest,
)

-- A body of `n` bytes is long enough for what was read from it.
abbrev Covers : ℕ → Option Report → Type 0
Covers n none = Unit
Covers n (some p) =
    (suc (slots_size p.slots) < n)
    × (length p.sig_base + length (slots_text p.tag_names p.slots) ≤ n)

report-Covers :
    (sig_base : List ℕ) (sensors : List Sensor) (long : Bool) (n : ℕ)
    → sensors_size sensors < n
    → length sig_base + sensors_size sensors ≤ n
    → Covers n (if long then none else report sig_base sensors)
report-Covers sig_base sensors true n h k = tt
report-Covers sig_base [] false n h k = tt
report-Covers sig_base (s ∷ rest) false n h k = (
  omega (arith, slots_of-size (s ∷ rest)),
  omega
      (arith, ap (length {A = ℕ}) (slots_text_sensors (s ∷ rest)), length-sensors_text (s ∷ rest)),
)

parse_sections-Covers :
    (header rest : List ℕ) (o : Option (List ℕ × List ℕ))
    → LastCut dot header o
    → Covers (length (header ++ bar ∷ rest)) (parse_sections rest o)
parse_sections-Covers header rest none cut = tt
parse_sections-Covers header rest (some (name, stamp)) cut =
    let sensors = read_segments fusion_max_sensors (segments rest) in
    let size = read_segments-size fusion_max_sensors (segments rest) in
    let room : length (name ++ dot ∷ []) ≤ length header = omega (
      arith,
      ap (length {A = ℕ}) cut.0,
      length-append name (dot ∷ stamp),
      length-append name (dot ∷ []),
    ) in
    let whole = length-append header (bar ∷ rest) in
    let segs = total-segments rest in
    report-Covers (name ++ dot ∷ []) sensors (ltb fusion_max_prefix (length (name ++ dot ∷ []) + 1))
      (length (header ++ bar ∷ rest)) (omega (arith, length-append name (dot ∷ []))) (omega arith)

parse_header-Covers :
    (body : List ℕ) (o : Option (List ℕ × List ℕ))
    → FirstCut bar body o
    → Covers (length body) (parse_header o)
parse_header-Covers body none cut = tt
parse_header-Covers body (some (header, rest)) cut =
    subst (λ b. Covers (length b) (parse_sections rest (split_last dot header))) (sym cut.0)
      (parse_sections-Covers header rest (split_last dot header) (split_last-LastCut dot header))

parse-Covers :
    (body : List ℕ) (p : Report) → parse_body_slots body ≡ some p → Covers (length body) (some p)
unfolding parse_body_slots
parse-Covers body p e =
    subst (Covers (length body)) e
      (parse_header-Covers body (split_first bar body) (split_first-FirstCut bar body))

-- A DIFF body is shorter than the full body that it stands for, and fits the 138 bytes that the code
-- has for it, whichever slots of the cached entry changed.
pub length-diff_body :
    (body : List ℕ) (p : Report) (vals : List (List ℕ))
    → parse_body_slots body ≡ some p
    → (length (diff_body vals p.slots) < length body) × (length (diff_body vals p.slots) ≤ 138)
length-diff_body body p vals e =
    let h = parse_body_slots-IsReport body p e in
    let (named, two, eight) = report_counts p h in
    let covers = parse-Covers body p e in
    let size : length (diff_body vals p.slots) ≤ suc (slots_size p.slots) = omega (
      arith,
      ap (length {A = ℕ}) (diff_body_lem vals p.slots (omega arith) eight),
      length-diff_values vals p.slots,
    ) in
    (omega arith, omega (arith, slots_size-Fits p.slots (report-Fits p h)))

length-backwards : (s : List ℕ) → length (backwards s) ≡ length s
unfolding backwards
length-backwards [] = refl
length-backwards (c ∷ s) = omega (arith, length-append (backwards s) (c ∷ []), length-backwards s)

pub length-decimal_text : (n : ℕ) → n < 2 ^ 48 → length (decimal_text n) ≤ 15
unfolding decimal_text
length-decimal_text n h = elim (Bool-cases (n == 0)) [
  | inl e ↦ rw e (omega arith)
  | inr e ↦ rw e (
      omega (arith, length-backwards (digits decimal 10 20 n), length-digits 20 15 n (omega arith)))
]

-- A body that is rebuilt is at most 16 bytes longer than the one it stands for.
pub length-report_text :
    (body : List ℕ) (p : Report) (ts : ℕ)
    → parse_body_slots body ≡ some p
    → length (report_text p (ts % 2 ^ 48)) ≤ length body + 16
unfolding report_text
length-report_text body p ts e =
    let stamp = decimal_text (ts % 2 ^ 48) in
    let tail = slots_text p.tag_names p.slots in
    let covers = parse-Covers body p e in
    omega (
      arith,
      length-append p.sig_base (stamp ++ bar ∷ tail),
      length-append stamp (bar ∷ tail),
      length-decimal_text (ts % 2 ^ 48) (omega arith),
    )
