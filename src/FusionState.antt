-- ===== src/FusionState.antt =====
-- src/osfx_fusion_state.c and include/osfx_fusion_state.h: the cache by which a sender and a receiver
-- send a sensor report in full once, and then only what changed of it. A buffer with its length is
-- the list of its bytes; the counts of an entry are the lengths of its lists.
pub mod Encode
pub mod Decode
pub mod Segments
pub mod Rendered
pub mod Masks
pub mod Cache
pub mod Rebuild
pub mod Bounds
pub mod Octets
pub mod Receive
pub mod Delivery
pub mod Stream
pub mod Again
pub mod Buffers
pub mod History
mod Tests
use osynaptic_fx.Prelude.{
  ℕ, zero, suc, ◌+◌, ◌*◌, ◌/◌, ◌%◌, ◌^◌, ◌==◌, ltb, leb, if◌then◌else◌, Bool, true, false, not,
  ◌&&◌, ◌||◌, List, [], ◌∷◌, ◌++◌, length, replicate, get_or, take, drop, Option, none, some,
}
use mathlib.Core.Option
use osynaptic_fx.Prelude.Slots.{find_index, modify}
use osynaptic_fx.Prelude.Texts.{split_first, split_last, before_with}
use osynaptic_fx.Solidity.Text.{digits, backwards, decimal}

abbrev pub fusion_max_entries : ℕ
fusion_max_entries = 32

abbrev pub fusion_max_prefix : ℕ
fusion_max_prefix = 64

abbrev pub fusion_max_val_len : ℕ
fusion_max_val_len = 16

abbrev pub fusion_max_sensors : ℕ
fusion_max_sensors = 4

abbrev pub fusion_max_tag_len : ℕ
fusion_max_tag_len = 12

-- The characters '|', '.', '>' and ':'.
abbrev pub bar : ℕ
bar = 124

abbrev pub dot : ℕ
dot = 46

abbrev pub gt : ℕ
gt = 62

abbrev pub colon : ℕ
colon = 58

pub record FusionEntry : Type 0 where
  pub source_aid : ℕ
  pub tid : ℕ
  pub used : Bool
  pub sig_base : List ℕ
  pub tag_names : List (List ℕ)
  pub last_vals : List (List ℕ)

abbrev pub zero_entry : FusionEntry
zero_entry = record {
  source_aid = 0;
  tid = 0;
  used = false;
  sig_base = [];
  tag_names = [];
  last_vals = [];
}

abbrev pub FusionCache : Type 0
FusionCache = List FusionEntry

abbrev pub state_init : FusionCache
state_init = replicate fusion_max_entries zero_entry

-- `osfx_strnlen_`, of a buffer that ends with a 0.
unfoldable pub strnlen : List ℕ → ℕ
strnlen [] = 0
strnlen (c ∷ s) = let n = strnlen s in if c == 0 then 0 else suc n

-- One segment, "TAG>META:VAL".
pub record Sensor : Type 0 where
  pub tag : List ℕ
  pub meta : List ℕ
  pub val : List ℕ

-- The checks on the lengths of the three parts.
abbrev pub sensor_ok : Sensor → Bool
sensor_ok s =
    ltb 0 (length s.tag)
    && ltb (length s.tag) fusion_max_tag_len
    && ltb 0 (length s.meta)
    && ltb (length s.meta) fusion_max_val_len
    && ltb 0 (length s.val)
    && ltb (length s.val) fusion_max_val_len

abbrev pub checked : Sensor → Option Sensor
checked s = if sensor_ok s then some s else none

-- The rest of a segment behind the '>', cut at its last ':'.
abbrev pub with_values : List ℕ → Option (List ℕ × List ℕ) → Option Sensor
with_values tag none = none
with_values tag (some (meta, val)) = checked (record { tag = tag; meta = meta; val = val })

abbrev pub with_tag : Option (List ℕ × List ℕ) → Option Sensor
with_tag none = none
with_tag (some (tag, rest)) = with_values tag (split_last colon rest)

-- The body of the loop over the segments; `none` is `continue`.
unfoldable pub read_segment : List ℕ → Option Sensor
read_segment segment = with_tag (split_first gt segment)

abbrev pub cons_first : ℕ → List (List ℕ) → List (List ℕ)
cons_first c [] = (c ∷ []) ∷ []
cons_first c (s ∷ rest) = (c ∷ s) ∷ rest

-- What stands between the '|'.
unfoldable pub segments : List ℕ → List (List ℕ)
segments [] = [] ∷ []
segments (c ∷ s) = let rest = segments s in if c == bar then [] ∷ rest else cons_first c rest

-- `while (seg_start < body_len && sensor_count < max_sensors)`.
unfoldable pub read_segments : ℕ → List (List ℕ) → List Sensor
read_segments zero segs = []
read_segments (suc left) [] = []
read_segments (suc left) (s ∷ segs) = elim (read_segment s) [
  | none ↦ read_segments (suc left) segs
  | some x ↦ x ∷ read_segments left segs
]

abbrev pub tags_of : List Sensor → List (List ℕ)
tags_of [] = []
tags_of (s ∷ rest) = s.tag ∷ tags_of rest

-- `{META_0, VAL_0, META_1, VAL_1, ...}`.
abbrev pub slots_of : List Sensor → List (List ℕ)
slots_of [] = []
slots_of (s ∷ rest) = s.meta ∷ s.val ∷ slots_of rest

-- What `parse_body_slots` writes.
pub record Report : Type 0 where
  pub sig_base : List ℕ
  pub tag_names : List (List ℕ)
  pub slots : List (List ℕ)

abbrev pub report : List ℕ → List Sensor → Option Report
report sig_base [] = none
report sig_base (s ∷ rest) =
    some
      (record { sig_base = sig_base; tag_names = tags_of (s ∷ rest); slots = slots_of (s ∷ rest) })

-- The header, cut at its last '.', and the bytes behind the first '|'.
abbrev pub parse_sections : List ℕ → Option (List ℕ × List ℕ) → Option Report
parse_sections rest none = none
parse_sections rest (some (name, stamp)) =
    let sig_base = name ++ dot ∷ [] in
    if ltb fusion_max_prefix (length sig_base + 1)
    then none
    else report sig_base (read_segments fusion_max_sensors (segments rest))

-- A header of no bytes has no '.' either.
abbrev pub parse_header : Option (List ℕ × List ℕ) → Option Report
parse_header none = none
parse_header (some (header, rest)) = parse_sections rest (split_last dot header)

-- `none` where the code returns 0.
unfoldable pub parse_body_slots : List ℕ → Option Report
parse_body_slots body = parse_header (split_first bar body)

-- `snprintf(..., "%llu", ...)` of a 64-bit number.
unfoldable pub decimal_text : ℕ → List ℕ
decimal_text n = if n == 0 then 48 ∷ [] else backwards (digits decimal 10 20 n)

-- The loop that writes the sensors, at the offset `off`.
unfoldable pub rebuild_slots : List (List ℕ) → List (List ℕ) → ℕ → ℕ → Option (List ℕ)
rebuild_slots [] vals off out_cap = some []
rebuild_slots (tag ∷ tags) vals off out_cap =
    let meta = get_or vals 0 [] in
    let val = get_or vals 1 [] in
    let next = off + length tag + 1 + length meta + 1 + length val + 1 in
    let rest = rebuild_slots tags (drop 2 vals) next out_cap in
    if ltb out_cap next
    then none
    else Option.map (λ r. tag ++ gt ∷ (meta ++ colon ∷ (val ++ bar ∷ r))) rest

abbrev pub rebuilt : List ℕ → Option (List ℕ) → Option (List ℕ)
rebuilt head slots = Option.map (λ r. head ++ r) slots

-- `none` where the code returns 0.
unfoldable pub reconstruct_body : FusionEntry → ℕ → ℕ → Option (List ℕ)
reconstruct_body e timestamp_raw out_cap =
    let sbl = strnlen e.sig_base in
    let ts_buf = decimal_text timestamp_raw in
    let off = sbl + length ts_buf + 1 in
    if sbl == 0 || length e.tag_names == 0
    then none
    else if ltb out_cap (sbl + 1)
    then none
    else if ltb out_cap off
    then none
    else rebuilt (take sbl e.sig_base ++ (ts_buf ++ bar ∷ []))
        (rebuild_slots e.tag_names e.last_vals off out_cap)

-- `entries[i].used && entries[i].source_aid == aid && entries[i].tid == tid`.
abbrev pub is_for : ℕ → ℕ → FusionEntry → Bool
is_for aid tid e = e.used && e.source_aid == aid && e.tid == tid

abbrev pub is_free : FusionEntry → Bool
is_free e = not e.used

abbrev pub fresh_entry : ℕ → ℕ → FusionEntry
fresh_entry aid tid = record zero_entry { used = true; source_aid = aid; tid = tid }

-- `find_entry` and `alloc_entry`: the place of the entry.
abbrev pub find_entry : FusionCache → ℕ → ℕ → Option ℕ
find_entry st aid tid = find_index (is_for aid tid) st

abbrev pub alloc_entry : FusionCache → ℕ → ℕ → FusionCache × Option ℕ
alloc_entry st aid tid = elim (find_index is_free st) [
  | none ↦ (st, none)
  | some i ↦ (modify st i (λ e. fresh_entry aid tid), some i)
]

-- `e = find_entry(...); if (!e) e = alloc_entry(...);`
unfoldable pub find_or_alloc : FusionCache → ℕ → ℕ → FusionCache × Option ℕ
find_or_alloc st aid tid = elim (find_entry st aid tid) [
  | none ↦ alloc_entry st aid tid
  | some i ↦ (st, some i)
]

-- The cached entry is made the report's.
abbrev pub refreshed : Report → FusionEntry → FusionEntry
refreshed p e = record e { sig_base = p.sig_base; tag_names = p.tag_names; last_vals = p.slots }
