-- ===== src/FusionState/Rendered.antt =====
-- Reports of src/osfx_fusion_state.c: what `parse_body_slots` gives, and the text of a report.
use osynaptic_fx.Prelude.{
  ℕ, zero, suc, ◌+◌, ◌/◌, ◌%◌, ◌≤◌, ◌<◌, ◌≡◌, ◌≢◌, ◌⊎◌, refl, sym, ap, ◌∙◌, subst, ◌==◌, ltb,
  if_false, if◌then◌else◌, Bool, true, false, List, [], ◌∷◌, ◌++◌, length, get_or, drop, Option,
  none, some, arith, All, All-append, All-append_parts, All-map, get_or-All, length-append,
  Bool-cases, inl, inr,
}
use mathlib.Core.List.{append_assoc}
use mathlib.Core.Option
use osynaptic_fx.Prelude.Texts.{
  Lacks, FirstCut, LastCut, split_first, split_last, split_first-FirstCut, split_last-LastCut,
  split_first-append, split_last-append,
}
use osynaptic_fx.Solidity.Text.{digits, backwards, decimal}
use osynaptic_fx.FusionState.{
  Sensor, Report, report, parse_sections, parse_header, parse_body_slots, tags_of, slots_of,
  segments, read_segments, decimal_text, rebuild_slots, bar, gt, colon, dot, fusion_max_prefix,
  fusion_max_sensors,
}
use osynaptic_fx.FusionState.Segments.{
  IsSensor, segments-Lacks, read_segments-IsSensor, sensors_text, read_segments-sensors_text,
}

-- A report that a body can stand for.
pub record IsReport (p : Report) : Type 0 where
  pub name : List ℕ
  pub sensors : List Sensor
  pub named : p.sig_base ≡ name ++ dot ∷ []
  pub tagged : p.tag_names ≡ tags_of sensors
  pub valued : p.slots ≡ slots_of sensors
  pub name_bar : Lacks bar name
  pub short : length name + 2 ≤ fusion_max_prefix
  pub some_sensor : 1 ≤ length sensors
  pub few : length sensors ≤ fusion_max_sensors
  pub all : All IsSensor sensors

abbrev HasReport : Option Report → Type 0
HasReport none = Unit
HasReport (some p) = IsReport p

HasReport-if :
    (name : List ℕ) (sensors : List Sensor) (long : Bool)
    → (long ≡ false → length name + 2 ≤ fusion_max_prefix)
    → Lacks bar name
    → All IsSensor sensors
    → length sensors ≤ fusion_max_sensors
    → HasReport (if long then none else report (name ++ dot ∷ []) sensors)
HasReport-if name sensors true short b all few = tt
HasReport-if name [] false short b all few = tt
HasReport-if name (s ∷ rest) false short b all few = record {
  name = name;
  sensors = s ∷ rest;
  named = refl;
  tagged = refl;
  valued = refl;
  name_bar = b;
  short = short refl;
  some_sensor = omega arith;
  few = few;
  all = all;
}

parse_sections-HasReport :
    (header rest : List ℕ) (o : Option (List ℕ × List ℕ))
    → Lacks bar header
    → LastCut dot header o
    → HasReport (parse_sections rest o)
parse_sections-HasReport header rest none b cut = tt
parse_sections-HasReport header rest (some (name, stamp)) b cut =
    let (in_name, behind) =
      All-append_parts (λ x. x ≢ bar) name (dot ∷ stamp) (subst (Lacks bar) cut.0 b) in
    let (all, few) =
      read_segments-IsSensor fusion_max_sensors (segments rest) (segments-Lacks rest) in
    let sig_base = name ++ dot ∷ [] in
    HasReport-if name (read_segments fusion_max_sensors (segments rest))
      (ltb fusion_max_prefix (length sig_base + 1))
      (λ h. ground (arith, length-append name (dot ∷ []))) in_name all few

parse_header-HasReport :
    (body : List ℕ) (o : Option (List ℕ × List ℕ))
    → FirstCut bar body o
    → HasReport (parse_header o)
parse_header-HasReport body none cut = tt
parse_header-HasReport body (some (header, rest)) cut =
    parse_sections-HasReport header rest (split_last dot header) cut.1
      (split_last-LastCut dot header)

pub parse_body_slots-IsReport :
    (body : List ℕ) (p : Report) → parse_body_slots body ≡ some p → IsReport p
unfolding parse_body_slots
parse_body_slots-IsReport body p e =
    subst HasReport e
      (parse_header-HasReport body (split_first bar body) (split_first-FirstCut bar body))

-- The digits of a number.
abbrev IsDigit : ℕ → Type 0
IsDigit c = (48 ≤ c) × (c ≤ 57)

decimal_digits : All IsDigit decimal
decimal_digits = omega arith

digits-IsDigit : (left n : ℕ) → All IsDigit (backwards (digits decimal 10 left n))
unfolding digits backwards
digits-IsDigit zero n = tt
digits-IsDigit (suc left) n = elim (Bool-cases (n == 0)) [
  | inl e ↦ rw e tt
  | inr e ↦ rw e (
      All-append IsDigit (backwards (digits decimal 10 left (n / 10))) _
        (digits-IsDigit left (n / 10))
        (get_or-All IsDigit decimal (n % 10) 0 decimal_digits (omega arith), tt))
]

decimal_text-IsDigit : (n : ℕ) → All IsDigit (decimal_text n)
unfolding decimal_text
decimal_text-IsDigit n = elim (Bool-cases (n == 0)) [
  | inl e ↦ rw e (omega arith)
  | inr e ↦ rw e (digits-IsDigit 20 n)
]

pub decimal_text-Lacks : (c n : ℕ) → (c < 48) ⊎ (57 < c) → Lacks c (decimal_text n)
decimal_text-Lacks c n out =
    All-map IsDigit (λ x. x ≢ c) (λ x h. ground arith) (decimal_text n) (decimal_text-IsDigit n)

-- The sensors of a report, each ended by a '|'.
unfoldable pub slots_text : List (List ℕ) → List (List ℕ) → List ℕ
slots_text [] vals = []
slots_text (tag ∷ tags) vals =
    tag
    ++ gt ∷ (get_or vals 0 [] ++ colon ∷ (get_or vals 1 [] ++ bar ∷ slots_text tags (drop 2 vals)))

-- The body of a report: its header with a timestamp, and its sensors.
unfoldable pub report_text : Report → ℕ → List ℕ
report_text p timestamp =
    p.sig_base ++ (decimal_text timestamp ++ bar ∷ slots_text p.tag_names p.slots)

pub slots_text_sensors :
    (sensors : List Sensor) → slots_text (tags_of sensors) (slots_of sensors) ≡ sensors_text sensors
unfolding slots_text sensors_text
slots_text_sensors [] = refl
slots_text_sensors (s ∷ rest) =
    ap (λ t. s.tag ++ gt ∷ (s.meta ++ colon ∷ (s.val ++ bar ∷ t))) (slots_text_sensors rest)

parse_sections-if :
    (name : List ℕ) (sensors : List Sensor) (long : Bool) (p : Report)
    → (long ≡ true → fusion_max_prefix < length name + 2)
    → length name + 2 ≤ fusion_max_prefix
    → report (name ++ dot ∷ []) sensors ≡ some p
    → (if long then none else report (name ++ dot ∷ []) sensors) ≡ some p
parse_sections-if name sensors true p long short e = absurd (omega (arith, long refl))
parse_sections-if name sensors false p long short e = e

report_lem :
    (sig_base : List ℕ) (sensors : List Sensor) (p : Report)
    → 1 ≤ length sensors
    → p.sig_base ≡ sig_base
    → p.tag_names ≡ tags_of sensors
    → p.slots ≡ slots_of sensors
    → report sig_base sensors ≡ some p
report_lem sig_base [] p h e f g = absurd (omega arith)
report_lem sig_base (s ∷ rest) p h e f g = cc (e, f, g)

report_slots :
    (p : Report) (h : IsReport p) → slots_text p.tag_names p.slots ≡ sensors_text h.sensors
report_slots p h =
    ap (λ t. slots_text t p.slots) h.tagged
    ∙ ap (slots_text (tags_of h.sensors)) h.valued
    ∙ slots_text_sensors h.sensors

-- A header, a timestamp without a separator, and the sensors parse as the report.
pub parse_stamped :
    (p : Report) (stamp : List ℕ)
    → IsReport p
    → Lacks bar stamp
    → Lacks dot stamp
    → parse_body_slots (p.sig_base ++ (stamp ++ bar ∷ slots_text p.tag_names p.slots)) ≡ some p
unfolding parse_body_slots
parse_stamped p stamp h stamp_bar stamp_dot =
    let tail = sensors_text h.sensors in
    let header_bar : Lacks bar (h.name ++ dot ∷ stamp) =
      All-append (λ x. x ≢ bar) h.name (dot ∷ stamp) h.name_bar (omega arith, stamp_bar) in
    let whole : p.sig_base ++ (stamp ++ bar ∷ slots_text p.tag_names p.slots)
        ≡ h.name ++ dot ∷ stamp ++ bar ∷ tail =
      ap (λ b. b ++ (stamp ++ bar ∷ slots_text p.tag_names p.slots)) h.named
      ∙ append_assoc h.name (dot ∷ []) (stamp ++ bar ∷ slots_text p.tag_names p.slots)
      ∙ ap (λ t. h.name ++ dot ∷ (stamp ++ bar ∷ t)) (report_slots p h)
      ∙ sym (append_assoc h.name (dot ∷ stamp) (bar ∷ tail)) in
    ap (λ b. parse_header (split_first bar b)) whole
    ∙ ap parse_header (split_first-append bar (h.name ++ dot ∷ stamp) tail header_bar)
    ∙ ap (parse_sections tail) (split_last-append dot h.name stamp stamp_dot)
    ∙ parse_sections-if h.name (read_segments fusion_max_sensors (segments tail))
        (ltb fusion_max_prefix (length (h.name ++ dot ∷ []) + 1)) p
        (λ e. ground (arith, length-append h.name (dot ∷ []))) h.short
        (ap (report (h.name ++ dot ∷ []))
            (read_segments-sensors_text fusion_max_sensors h.sensors h.all h.few)
          ∙ report_lem (h.name ++ dot ∷ []) h.sensors p h.some_sensor h.named h.tagged h.valued)

-- The text of a report parses as that report, whatever the timestamp.
pub parse-report_text :
    (p : Report) (timestamp : ℕ) → IsReport p → parse_body_slots (report_text p timestamp) ≡ some p
unfolding report_text
parse-report_text p timestamp h =
    parse_stamped p (decimal_text timestamp) h
      (decimal_text-Lacks bar timestamp (inr (omega arith)))
      (decimal_text-Lacks dot timestamp (inl (omega arith)))

-- With room for it, `rebuild_slots` writes that text.
pub rebuild_slots_lem :
    (tags vals : List (List ℕ)) (off out_cap : ℕ)
    → off + length (slots_text tags vals) ≤ out_cap
    → rebuild_slots tags vals off out_cap ≡ some (slots_text tags vals)
unfolding rebuild_slots slots_text
rebuild_slots_lem [] vals off out_cap h = refl
rebuild_slots_lem (tag ∷ tags) vals off out_cap h =
    let meta = get_or vals 0 [] in
    let val = get_or vals 1 [] in
    let rest = slots_text tags (drop 2 vals) in
    let lengths : length (tag ++ gt ∷ (meta ++ colon ∷ (val ++ bar ∷ rest)))
        ≡ length tag + 1 + length meta + 1 + length val + 1 + length rest =
      omega (
        arith,
        length-append tag (gt ∷ (meta ++ colon ∷ (val ++ bar ∷ rest))),
        length-append meta (colon ∷ (val ++ bar ∷ rest)),
        length-append val (bar ∷ rest),
      ) in
    let next = off + length tag + 1 + length meta + 1 + length val + 1 in
    if_false (ltb out_cap next) none _ (ground (arith, lengths))
    ∙ ap (Option.map (λ r. tag ++ gt ∷ (meta ++ colon ∷ (val ++ bar ∷ r))))
        (rebuild_slots_lem tags (drop 2 vals) next out_cap (omega (arith, lengths)))
