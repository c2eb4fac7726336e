-- ===== src/FusionState/Octets.antt =====
-- The slots that `parse_body_slots` of src/osfx_fusion_state.c takes from a body are bytes.
use osynaptic_fx.Prelude.{
  ℕ, zero, suc, ◌≡◌, ◌==◌, ltb, if◌then◌else◌, Bool, true, false, List, [], ◌∷◌, ◌++◌, length,
  Option, none, some, ◌+◌, All, All-append_parts, subst,
}
use osynaptic_fx.Prelude.Words.{IsByte, IsBytes}
use osynaptic_fx.Prelude.Texts.{FirstCut, split_first, split_last, split_first-FirstCut}
use osynaptic_fx.FusionState.{
  Sensor, Report, read_segment, cons_first, segments, read_segments, report, parse_sections,
  parse_header, parse_body_slots, slots_of, bar, gt, colon, dot, fusion_max_prefix,
  fusion_max_sensors,
}
use osynaptic_fx.FusionState.Segments.{sensor_text}
use osynaptic_fx.FusionState.Bounds.{TextOf, read_segment-TextOf}

cons_first-IsBytes :
    (c : ℕ) (segs : List (List ℕ)) → IsByte c → All IsBytes segs → All IsBytes (cons_first c segs)
cons_first-IsBytes c [] b h = ((b, tt), tt)
cons_first-IsBytes c (s ∷ segs) b h = ((b, h.0), h.1)

segments-IsBytes-if :
    (c : ℕ) (segs : List (List ℕ)) (here : Bool)
    → IsByte c
    → All IsBytes segs
    → All IsBytes (if here then [] ∷ segs else cons_first c segs)
segments-IsBytes-if c segs true b h = (tt, h)
segments-IsBytes-if c segs false b h = cons_first-IsBytes c segs b h

segments-IsBytes : (s : List ℕ) → IsBytes s → All IsBytes (segments s)
unfolding segments
segments-IsBytes [] h = (tt, tt)
segments-IsBytes (c ∷ s) h =
    segments-IsBytes-if c (segments s) (c == bar) h.0 (segments-IsBytes s h.1)

sensor-IsBytes : (s : Sensor) → IsBytes (sensor_text s) → IsBytes s.meta × IsBytes s.val
sensor-IsBytes s h =
    let (in_tag, behind) = All-append_parts IsByte s.tag (gt ∷ (s.meta ++ colon ∷ s.val)) h in
    let (in_meta, rest) = All-append_parts IsByte s.meta (colon ∷ s.val) behind.1 in
    (in_meta, rest.1)

read_segments-IsBytes :
    (left : ℕ) (segs : List (List ℕ))
    → All IsBytes segs
    → All IsBytes (slots_of (read_segments left segs))
unfolding read_segments
read_segments-IsBytes zero segs h = tt
read_segments-IsBytes (suc left) [] h = tt
read_segments-IsBytes (suc left) (s ∷ segs) h =
    step (read_segment s) (read_segment-TextOf s) (read_segments-IsBytes left segs h.1)
      (read_segments-IsBytes (suc left) segs h.1)
  where
    step :
        (o : Option Sensor)
        → TextOf s o
        → All IsBytes (slots_of (read_segments left segs))
        → All IsBytes (slots_of (read_segments (suc left) segs))
        → All IsBytes (
            slots_of (elim o [
              | none ↦ read_segments (suc left) segs
              | some x ↦ x ∷ read_segments left segs
            ]))
    step none e fewer all = all
    step (some x) e fewer all =
        let (meta, val) = sensor-IsBytes x (subst IsBytes e h.0) in (meta, (val, fewer))

abbrev SlotBytes : Option Report → Type 0
SlotBytes none = Unit
SlotBytes (some p) = All IsBytes p.slots

report-SlotBytes :
    (sig_base : List ℕ) (sensors : List Sensor) (long : Bool)
    → All IsBytes (slots_of sensors)
    → SlotBytes (if long then none else report sig_base sensors)
report-SlotBytes sig_base sensors true h = tt
report-SlotBytes sig_base [] false h = tt
report-SlotBytes sig_base (s ∷ rest) false h = h

parse_sections-SlotBytes :
    (rest : List ℕ) (o : Option (List ℕ × List ℕ))
    → IsBytes rest
    → SlotBytes (parse_sections rest o)
parse_sections-SlotBytes rest none h = tt
parse_sections-SlotBytes rest (some (name, stamp)) h =
    report-SlotBytes (name ++ dot ∷ []) (read_segments fusion_max_sensors (segments rest))
      (ltb fusion_max_prefix (length (name ++ dot ∷ []) + 1))
      (read_segments-IsBytes fusion_max_sensors (segments rest) (segments-IsBytes rest h))

parse_header-SlotBytes :
    (body : List ℕ) (o : Option (List ℕ × List ℕ))
    → IsBytes body
    → FirstCut bar body o
    → SlotBytes (parse_header o)
parse_header-SlotBytes body none h cut = tt
parse_header-SlotBytes body (some (header, rest)) h cut =
    let (in_header, behind) = All-append_parts IsByte header (bar ∷ rest) (subst IsBytes cut.0 h) in
    parse_sections-SlotBytes rest (split_last dot header) behind.1

pub slots-IsBytes :
    (body : List ℕ) (p : Report)
    → IsBytes body
    → parse_body_slots body ≡ some p
    → All IsBytes p.slots
unfolding parse_body_slots
slots-IsBytes body p h e =
    subst SlotBytes e
      (parse_header-SlotBytes body (split_first bar body) h (split_first-FirstCut bar body))
