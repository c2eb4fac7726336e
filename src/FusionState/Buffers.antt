-- ===== src/FusionState/Buffers.antt =====
-- The sizes of the buffers of an entry of src/osfx_fusion_state.c, and what is written to them.
use osynaptic_fx.Prelude.{
  ℕ, zero, suc, ◌*◌, ◌≤◌, ◌<◌, ◌≡◌, refl, sym, ap, ◌∙◌, subst, ltb, leb, if◌then◌else◌, Bool, true,
  false, ◌||◌, List, [], ◌∷◌, take, drop, length, length-take, length-append, Option, none, some,
  arith, All,
}
use osynaptic_fx.Prelude.Slots.{find_index, modify}
use osynaptic_fx.Prelude.Texts.{same_text, same_texts}
use osynaptic_fx.HandshakeCmd.{cmd_data_full, cmd_data_heart, cmd_data_diff}
use osynaptic_fx.FusionState.{
  FusionEntry, FusionCache, Report, Sensor, refreshed, find_or_alloc, fresh_entry, zero_entry,
  is_free, find_entry, tags_of, dot, fusion_max_prefix, fusion_max_tag_len, fusion_max_val_len,
}
use osynaptic_fx.FusionState.Encode.{Plan, plan, struct_changed, diff_cached, diff_body}
use osynaptic_fx.FusionState.Decode.{apply_slots, read_value, is_marked}
use osynaptic_fx.FusionState.Segments.{IsSensor}
use osynaptic_fx.FusionState.Rendered.{IsReport}
use osynaptic_fx.FusionState.Rebuild.{report-Fits, length-tags_of, length-slots_of}
use osynaptic_fx.FusionState.Masks.{Fits}

-- An entry fits its buffers: each text with its final 0, and no more tags and slots than there is room for.
pub record IsEntry (e : FusionEntry) : Type 0 where
  pub base : length e.sig_base < fusion_max_prefix
  pub few : length e.tag_names ≤ 4
  pub tags : All (λ t. length t < fusion_max_tag_len) e.tag_names
  pub counts : length e.last_vals ≡ 2 * length e.tag_names
  pub vals : Fits e.last_vals

abbrev pub IsCache : FusionCache → Type 0
IsCache = All IsEntry

pub zero-IsEntry : IsEntry zero_entry
zero-IsEntry = record { base = omega arith; few = omega arith; tags = tt; counts = refl; vals = tt }

fresh-IsEntry : (aid tid : ℕ) → IsEntry (fresh_entry aid tid)
fresh-IsEntry aid tid = record {
  base = omega arith;
  few = omega arith;
  tags = tt;
  counts = refl;
  vals = tt;
}

sensors-tags :
    (sensors : List Sensor)
    → All IsSensor sensors
    → All (λ t. length t < fusion_max_tag_len) (tags_of sensors)
sensors-tags [] h = tt
sensors-tags (s ∷ rest) h = (ground (arith, h.0.sized), sensors-tags rest h.1)

pub refreshed-IsEntry : (p : Report) (e : FusionEntry) → IsReport p → IsEntry (refreshed p e)
refreshed-IsEntry p e h =
    let t : length p.tag_names ≡ length h.sensors =
      ap (length {A = List ℕ}) h.tagged ∙ length-tags_of h.sensors in
    let s : length p.slots ≡ 2 * length h.sensors =
      ap (length {A = List ℕ}) h.valued ∙ length-slots_of h.sensors in
    let short = h.short in
    let four = h.few in
    record {
      base = omega (arith, ap (length {A = ℕ}) h.named, length-append h.name (dot ∷ []));
      few = omega arith;
      tags =
          subst (All (λ x. length x < fusion_max_tag_len)) (sym h.tagged)
            (sensors-tags h.sensors h.all);
      counts = omega arith;
      vals = report-Fits p h;
    }

-- New values for the slots, as many as before.
pub revalued :
    (e : FusionEntry) (vals : List (List ℕ))
    → IsEntry e
    → length vals ≡ length e.last_vals
    → Fits vals
    → IsEntry (record e { last_vals = vals })
revalued e vals h l fit = record {
  base = h.base;
  few = h.few;
  tags = h.tags;
  counts = l ∙ h.counts;
  vals = fit;
}

pub modify-IsCache :
    (st : FusionCache) (i : ℕ) (f : FusionEntry → FusionEntry)
    → ((e : FusionEntry) → IsEntry e → IsEntry (f e))
    → IsCache st
    → IsCache (modify st i f)
unfolding modify
modify-IsCache [] i f h k = tt
modify-IsCache (e ∷ st) zero f h k = (h e k.0, k.1)
modify-IsCache (e ∷ st) (suc i) f h k = (k.0, modify-IsCache st i f h k.1)

-- The values that a slot may get from a packet, whatever its bytes.
AsValue : Option (List ℕ × List ℕ) → Type 0
AsValue none = Unit
AsValue (some (v, rest)) = length v < fusion_max_val_len

read_value-AsValue : (body : List ℕ) → AsValue (read_value body)
unfolding read_value AsValue
read_value-AsValue [] = tt
read_value-AsValue (n ∷ rest) =
    choose (ltb (length rest) n || leb fusion_max_val_len n)
      (λ h. omega (arith, length-take n rest (ground arith), small n h))
  where
    small :
        (n : ℕ) → (ltb (length rest) n || leb fusion_max_val_len n) ≡ false → n < fusion_max_val_len
    small n h = ground arith

    choose :
        (b : Bool)
        → (b ≡ false → length (take n rest) < fusion_max_val_len)
        → AsValue (if b then none else some (take n rest, drop n rest))
    choose true h = tt
    choose false h = h refl

pub apply_slots-Fits :
    (j mask : ℕ) (vals : List (List ℕ)) (body : List ℕ)
    → Fits vals
    → (length (apply_slots j mask vals body).0 ≡ length vals)
      × Fits (apply_slots j mask vals body).0
unfolding apply_slots AsValue
apply_slots-Fits j mask [] body h = (refl, tt)
apply_slots-Fits j mask (v ∷ vals) body h =
    next (if is_marked mask j then read_value body else some (v, body)) (choose (is_marked mask j))
      (λ rest. apply_slots-Fits (suc j) mask vals rest h.1)
  where
    choose : (m : Bool) → AsValue (if m then read_value body else some (v, body))
    choose true = read_value-AsValue body
    choose false = h.0

    next :
        (o : Option (List ℕ × List ℕ))
        → AsValue o
        → ((rest : List ℕ)
            → (length (apply_slots (suc j) mask vals rest).0 ≡ length vals)
              × Fits (apply_slots (suc j) mask vals rest).0)
        → (let out : List (List ℕ) × Bool = elim o [
          | none ↦ (v ∷ vals, false)
          | some r ↦ let (after, ok) = apply_slots (suc j) mask vals r.1 in (r.0 ∷ after, ok)
        ] in
            (length out.0 ≡ suc (length vals)) × Fits out.0)
    next none a others = (refl, h)
    next (some (w, rest)) a others = (ap suc (others rest).0, (a, (others rest).1))

diff_cached-Fits :
    (vals slots : List (List ℕ))
    → Fits vals
    → Fits slots
    → (length (diff_cached vals slots) ≡ length vals) × Fits (diff_cached vals slots)
unfolding diff_cached
diff_cached-Fits [] slots h k = (refl, tt)
diff_cached-Fits (v ∷ vals) [] h k = (refl, h)
diff_cached-Fits (v ∷ vals) (s ∷ slots) h k =
    let (l, fit) = diff_cached-Fits vals slots h.1 k.1 in (ap suc l, (either (same_text v s), fit))
  where
    either : (b : Bool) → length (if b then v else s) < fusion_max_val_len
    either true = h.0
    either false = k.0

pub plan-IsEntry :
    (e : FusionEntry) (p : Report) (body : List ℕ)
    → IsReport p
    → (f : FusionEntry) → IsEntry f
    → IsEntry ((plan e p body).cached f)
unfolding plan
plan-IsEntry e p body ok f h = choose (struct_changed e p) (same_texts e.last_vals p.slots)
  where
    choose :
        (changed still : Bool)
        → (let pl : Plan =
              if changed
              then record { cmd = cmd_data_full; body = body; cached = refreshed p }
              else if still
              then record { cmd = cmd_data_heart; body = []; cached = λ g. g }
              else record {
                cmd = cmd_data_diff;
                body = diff_body e.last_vals p.slots;
                cached = λ g. record g { last_vals = diff_cached g.last_vals p.slots };
              } in
            IsEntry (pl.cached f))
    choose true still = refreshed-IsEntry p f ok
    choose false true = h
    choose false false =
        let (l, fit) = diff_cached-Fits f.last_vals p.slots h.vals (report-Fits p ok) in
        revalued f (diff_cached f.last_vals p.slots) h l fit

pub find_or_alloc-IsCache :
    (st : FusionCache) (aid tid : ℕ) → IsCache st → IsCache (find_or_alloc st aid tid).0
unfolding find_or_alloc
find_or_alloc-IsCache st aid tid h = found (find_entry st aid tid) (find_index is_free st)
  where
    found :
        (o free : Option ℕ)
        → (let got : FusionCache × Option ℕ = elim o [
          | none ↦ elim free [
            | none ↦ (st, none)
            | some i ↦ (modify st i (λ e. fresh_entry aid tid), some i)
          ]
          | some i ↦ (st, some i)
        ] in
            IsCache got.0)
    found (some i) free = h
    found none none = h
    found none (some i) =
        modify-IsCache st i (λ e. fresh_entry aid tid) (λ e k. fresh-IsEntry aid tid) h
