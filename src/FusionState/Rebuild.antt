-- ===== src/FusionState/Rebuild.antt =====
-- When an entry of the cache stands for a report, as src/osfx_fusion_state.c compares and rebuilds it.
use osynaptic_fx.Prelude.{
  ℕ, suc, ◌+◌, ◌*◌, ◌≤◌, ◌≡◌, refl, sym, ap, ◌∙◌, ◌==◌, ltb, if_false, false, ◌||◌, List, [], ◌∷◌,
  ◌++◌, length, take, none, some, arith, All, length-append, subst,
}
use mathlib.Core.List.{append_assoc}
use osynaptic_fx.Prelude.Texts.{same_text→eq, same_texts→eq}
use osynaptic_fx.FusionState.{
  FusionEntry, Report, Sensor, strnlen, reconstruct_body, rebuild_slots, rebuilt, decimal_text, bar,
  dot, tags_of, slots_of,
}
use osynaptic_fx.FusionState.Encode.{struct_changed}
use osynaptic_fx.FusionState.Segments.{IsSensor}
use osynaptic_fx.FusionState.Masks.{Fits}
use osynaptic_fx.FusionState.Rendered.{IsReport, report_text, slots_text, rebuild_slots_lem}

-- The structure of an entry is a report's, as far as C strings tell.
pub record SameStruct (e : FusionEntry) (p : Report) : Type 0 where
  pub measured : strnlen e.sig_base ≡ length p.sig_base
  pub base : take (length p.sig_base) e.sig_base ≡ p.sig_base
  pub tags : e.tag_names ≡ p.tag_names
  pub counts : length e.last_vals ≡ length p.slots

pub struct_changed-SameStruct :
    (e : FusionEntry) (p : Report) → struct_changed e p ≡ false → SameStruct e p
unfolding struct_changed
struct_changed-SameStruct e p h = record {
  measured = ground arith;
  base = same_text→eq (take (length p.sig_base) e.sig_base) p.sig_base (ground arith);
  tags = same_texts→eq e.tag_names p.tag_names (ground arith);
  counts = ground arith;
}

pub sig_base-length : (p : Report) → IsReport p → 1 ≤ length p.sig_base
sig_base-length p h = omega (arith, ap (length {A = ℕ}) h.named, length-append h.name (dot ∷ []))

pub length-tags_of : (sensors : List Sensor) → length (tags_of sensors) ≡ length sensors
length-tags_of [] = refl
length-tags_of (s ∷ rest) = ap suc (length-tags_of rest)

pub length-slots_of : (sensors : List Sensor) → length (slots_of sensors) ≡ 2 * length sensors
length-slots_of [] = omega arith
length-slots_of (s ∷ rest) = omega (arith, length-slots_of rest)

-- A report has at least one sensor, and 2 to 8 slots.
pub report_counts :
    (p : Report)
    → IsReport p
    → (1 ≤ length p.tag_names) × (2 ≤ length p.slots) × (length p.slots ≤ 8)
report_counts p h =
    let t : length p.tag_names ≡ length h.sensors =
      ap (length {A = List ℕ}) h.tagged ∙ length-tags_of h.sensors in
    let s : length p.slots ≡ 2 * length h.sensors =
      ap (length {A = List ℕ}) h.valued ∙ length-slots_of h.sensors in
    let one = h.some_sensor in let four = h.few in (omega arith, omega arith, omega arith)

sensors-Fits : (sensors : List Sensor) → All IsSensor sensors → Fits (slots_of sensors)
sensors-Fits [] h = tt
sensors-Fits (s ∷ rest) h =
    (ground (arith, h.0.sized), (ground (arith, h.0.sized), sensors-Fits rest h.1))

pub report-Fits : (p : Report) → IsReport p → Fits p.slots
report-Fits p h = subst Fits (sym h.valued) (sensors-Fits h.sensors h.all)

-- An entry with the structure and the slots of a report is rebuilt as its text, with room for it.
pub reconstruct_body_lem :
    (e : FusionEntry) (p : Report) (timestamp out_cap : ℕ)
    → IsReport p
    → SameStruct e p
    → e.last_vals ≡ p.slots
    → length (report_text p timestamp) ≤ out_cap
    → reconstruct_body e timestamp out_cap ≡ some (report_text p timestamp)
unfolding reconstruct_body report_text
reconstruct_body_lem e p timestamp out_cap h same vals room =
    let stamp = decimal_text timestamp in
    let tail = slots_text p.tag_names p.slots in
    let sbl = strnlen e.sig_base in
    let off = sbl + length stamp + 1 in
    let head = p.sig_base ++ (stamp ++ bar ∷ []) in
    let lengths : length (p.sig_base ++ (stamp ++ bar ∷ tail))
        ≡ length p.sig_base + length stamp + 1 + length tail =
      omega
        (arith, length-append p.sig_base (stamp ++ bar ∷ tail), length-append stamp (bar ∷ tail)) in
    let m = same.measured in
    let one = sig_base-length p h in
    let tagged : 1 ≤ length e.tag_names =
      subst (λ t. 1 ≤ length t) (sym same.tags) (report_counts p h).0 in
    if_false (sbl == 0 || length e.tag_names == 0) none _ (ground arith)
    ∙ if_false (ltb out_cap (sbl + 1)) none _ (ground (arith, lengths))
    ∙ if_false (ltb out_cap off) none _ (ground (arith, lengths))
    ∙ ap
        (λ x.
          rebuilt (x ++ (stamp ++ bar ∷ [])) (rebuild_slots e.tag_names e.last_vals off out_cap))
        (ap (λ n. take n e.sig_base) m ∙ same.base)
    ∙ ap (λ t. rebuilt head (rebuild_slots t e.last_vals off out_cap)) same.tags
    ∙ ap (λ v. rebuilt head (rebuild_slots p.tag_names v off out_cap)) vals
    ∙ ap (rebuilt head) (rebuild_slots_lem p.tag_names p.slots off out_cap (omega (arith, lengths)))
    ∙ ap some (
        append_assoc p.sig_base (stamp ++ bar ∷ []) tail
        ∙ ap (◌++◌ p.sig_base) (append_assoc stamp (bar ∷ []) tail))
