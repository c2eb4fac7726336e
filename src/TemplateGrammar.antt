-- ===== src/TemplateGrammar.antt =====
-- src/osfx_template_grammar.c and include/osfx_template_grammar.h, in the default build, where of the
-- three extensions of a sensor only the supplementary message is kept:
--   node.state.time|sensor>state.unit:value!message|...
-- A text is its characters without the final 0; a scan for a character by `strchr` that must end
-- before another is the first cut of the text before it.
pub mod Read
pub mod Roundtrip
mod Tests
use osynaptic_fx.Prelude.{
  ℕ, zero, suc, ◌+◌, ◌==◌, ltb, leb, if◌then◌else◌, Bool, true, false, not, ◌&&◌, ◌||◌, List, [],
  ◌∷◌, ◌++◌, length, Option, none, some, ◌>>=◌,
}
use mathlib.Core.Option
use osynaptic_fx.Prelude.Texts.{split_first, has_room}
use osynaptic_fx.FusionState.{bar, dot, gt, colon}

-- As include/osfx_user_config.h sets it.
abbrev pub tmpl_max_sensors : ℕ
tmpl_max_sensors = 4

abbrev pub tmpl_id_max : ℕ
tmpl_id_max = 32

abbrev pub tmpl_state_max : ℕ
tmpl_state_max = 16

abbrev pub tmpl_unit_max : ℕ
tmpl_unit_max = 24

abbrev pub tmpl_value_max : ℕ
tmpl_value_max = 48

abbrev pub tmpl_ts_max : ℕ
tmpl_ts_max = 32

abbrev pub tmpl_msg_max : ℕ
tmpl_msg_max = 128

-- The character '!', and those that begin an extension, '#', '!' and '@'.
abbrev pub bang : ℕ
bang = 33

abbrev pub is_marker : ℕ → Bool
is_marker c = c == 35 || c == bang || c == 64

pub record SensorSlot : Type 0 where
  pub sensor_id : List ℕ
  pub sensor_state : List ℕ
  pub sensor_unit : List ℕ
  pub sensor_value : List ℕ
  pub supplementary_message : List ℕ

pub record TemplateMsg : Type 0 where
  pub node_id : List ℕ
  pub node_state : List ℕ
  pub ts_token : List ℕ
  pub sensors : List SensorSlot

-- `snprintf` at the end of what was written, if it fits with its final 0.
abbrev pub put : ℕ → Option (List ℕ) → List ℕ → Option (List ℕ)
put out_cap none piece = none
put out_cap (some out) piece =
    if ltb (length out + length piece) out_cap then some (out ++ piece) else none

abbrev pub put_message : ℕ → Option (List ℕ) → List ℕ → Option (List ℕ)
put_message out_cap out [] = out
put_message out_cap out (c ∷ message) = put out_cap out (bang ∷ c ∷ message)

-- "%s>%s.%s:%s".
abbrev pub reading : SensorSlot → List ℕ
reading s = s.sensor_id ++ gt ∷ (s.sensor_state ++ dot ∷ (s.sensor_unit ++ colon ∷ s.sensor_value))

abbrev pub put_sensor : ℕ → Option (List ℕ) → SensorSlot → Option (List ℕ)
put_sensor out_cap out s =
    put out_cap (put_message out_cap (put out_cap out (reading s)) s.supplementary_message)
      (bar ∷ [])

unfoldable pub put_sensors : ℕ → Option (List ℕ) → List SensorSlot → Option (List ℕ)
put_sensors out_cap out [] = out
put_sensors out_cap out (s ∷ rest) = put_sensors out_cap (put_sensor out_cap out s) rest

-- `none` where the code returns 0.
unfoldable pub template_encode : List ℕ → List ℕ → List ℕ → List SensorSlot → ℕ → Option (List ℕ)
template_encode node_id node_state ts_token sensors out_cap =
    if ltb tmpl_max_sensors (length sensors)
    then none
    else put_sensors out_cap
        (put out_cap (some []) (node_id ++ dot ∷ (node_state ++ dot ∷ (ts_token ++ bar ∷ []))))
        sensors

-- `copy_token`.
abbrev pub token : ℕ → List ℕ → Option (List ℕ)
token cap src = if has_room cap src then some src else none

-- The text before the first marker, and each marker with the text up to the next.
unfoldable pub extensions : List ℕ → List ℕ × List (ℕ × List ℕ)
extensions [] = ([], [])
extensions (c ∷ s) =
    let (value, exts) = extensions s in
    if is_marker c then ([], (c, value) ∷ exts) else (c ∷ value, exts)

-- The loop over the extensions, with the message that was copied last.
unfoldable pub read_message : List ℕ → List (ℕ × List ℕ) → Option (List ℕ)
read_message message [] = some message
read_message message ((mark, val) ∷ exts) =
    if mark == bang
    then (do m ← token tmpl_msg_max val; read_message m exts)
    else read_message message exts

abbrev pub read_value : List ℕ → List ℕ → List ℕ → List ℕ × List (ℕ × List ℕ) → Option SensorSlot
read_value id state unit (text, exts) = do
  i ← token tmpl_id_max id
  s ← token tmpl_state_max state
  u ← token tmpl_unit_max unit
  v ← token tmpl_value_max text
  m ← read_message [] exts
  some (record {
    sensor_id = i;
    sensor_state = s;
    sensor_unit = u;
    sensor_value = v;
    supplementary_message = m;
  })

abbrev pub read_unit : List ℕ → List ℕ → Option (List ℕ × List ℕ) → Option SensorSlot
read_unit id state none = none
read_unit id state (some (unit, rest)) = read_value id state unit (extensions rest)

abbrev pub read_state : List ℕ → Option (List ℕ × List ℕ) → Option SensorSlot
read_state id none = none
read_state id (some (state, rest)) = read_unit id state (split_first colon rest)

abbrev pub read_id : Option (List ℕ × List ℕ) → Option SensorSlot
read_id none = none
read_id (some (id, rest)) = read_state id (split_first dot rest)

unfoldable pub read_sensor : List ℕ → Option SensorSlot
read_sensor segment = read_id (split_first gt segment)

abbrev pub onto_first : ℕ → List (List ℕ) → List (List ℕ)
onto_first c [] = []
onto_first c (s ∷ rest) = (c ∷ s) ∷ rest

-- The segments that a '|' ends; what stands behind the last one is left.
unfoldable pub closed_segments : List ℕ → List (List ℕ)
closed_segments [] = []
closed_segments (c ∷ s) =
    let rest = closed_segments s in if c == bar then [] ∷ rest else onto_first c rest

-- `while (*p)`, with room for `left` sensors.
unfoldable pub read_sensors : ℕ → List (List ℕ) → Option (List SensorSlot)
read_sensors left [] = some []
read_sensors left ([] ∷ segs) = read_sensors left segs
read_sensors zero ((c ∷ s) ∷ segs) = none
read_sensors (suc left) ((c ∷ s) ∷ segs) = (do
  x ← read_sensor (c ∷ s)
  xs ← read_sensors left segs
  some (x ∷ xs))

abbrev pub message : List ℕ → List ℕ → List ℕ → List ℕ → Option TemplateMsg
message id state stamp rest = do
  i ← token tmpl_id_max id
  s ← token tmpl_state_max state
  t ← token tmpl_ts_max stamp
  sensors ← read_sensors tmpl_max_sensors (closed_segments rest)
  some (record { node_id = i; node_state = s; ts_token = t; sensors = sensors })

abbrev pub decode_stamp : List ℕ → List ℕ → Option (List ℕ × List ℕ) → Option TemplateMsg
decode_stamp id rest none = none
decode_stamp id rest (some (state, stamp)) = message id state stamp rest

abbrev pub decode_node : List ℕ → Option (List ℕ × List ℕ) → Option TemplateMsg
decode_node rest none = none
decode_node rest (some (id, after)) = decode_stamp id rest (split_first dot after)

abbrev pub decode_header : Option (List ℕ × List ℕ) → Option TemplateMsg
decode_header none = none
decode_header (some (header, rest)) = decode_node rest (split_first dot header)

-- `none` where the code returns 0.
unfoldable pub template_decode : List ℕ → Option TemplateMsg
template_decode text = decode_header (split_first bar text)
