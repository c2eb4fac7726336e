-- ===== src/TemplateGrammar/Roundtrip.antt =====
-- Writing and reading back a message of src/osfx_template_grammar.c.
use osynaptic_fx.Prelude.{
  ℕ, zero, suc, ◌+◌, ◌≤◌, ◌<◌, ◌≡◌, ◌≢◌, refl, sym, ap, ◌∙◌, subst, ltb, if_true, if_false, List,
  [], ◌∷◌, ◌++◌, length, none, some, arith, All, All-append, length-append, ==_refl,
}
use mathlib.Core.List.{append_assoc, append-nil}
use osynaptic_fx.Prelude.Texts.{Lacks, split_first-append}
use osynaptic_fx.FusionState.{bar, dot, gt, colon}
use osynaptic_fx.TemplateGrammar.{
  SensorSlot, TemplateMsg, tmpl_max_sensors, tmpl_id_max, tmpl_state_max, tmpl_ts_max, bang,
  reading, put, put_message, put_sensors, template_encode, read_sensor, closed_segments,
  read_sensors, message, decode_stamp, decode_node, decode_header, template_decode,
}
use osynaptic_fx.TemplateGrammar.Read.{IsSlot, tail, segment_of, read_sensor-segment_of, token_lem}

-- A message whose texts fit their buffers and hold no character that ends them.
pub record IsMessage (m : TemplateMsg) : Type 0 where
  pub id_len : length m.node_id < tmpl_id_max
  pub state_len : length m.node_state < tmpl_state_max
  pub ts_len : length m.ts_token < tmpl_ts_max
  pub id_dot : Lacks dot m.node_id
  pub id_bar : Lacks bar m.node_id
  pub state_dot : Lacks dot m.node_state
  pub state_bar : Lacks bar m.node_state
  pub ts_bar : Lacks bar m.ts_token
  pub few : length m.sensors ≤ tmpl_max_sensors
  pub all : All IsSlot m.sensors

abbrev pub header_of : TemplateMsg → List ℕ
header_of m = m.node_id ++ dot ∷ (m.node_state ++ dot ∷ m.ts_token)

unfoldable pub sensors_of : List SensorSlot → List ℕ
sensors_of [] = []
sensors_of (s ∷ rest) = segment_of s ++ bar ∷ sensors_of rest

-- The text of a message.
abbrev pub text_of : TemplateMsg → List ℕ
text_of m = header_of m ++ bar ∷ sensors_of m.sensors

regroup : (a b c d r : List ℕ) → a ++ b ++ c ++ d ++ r ≡ a ++ (b ++ c ++ (d ++ r))
regroup a b c d r =
    append_assoc (a ++ b ++ c) d r
    ∙ append_assoc (a ++ b) c (d ++ r)
    ∙ append_assoc a b (c ++ (d ++ r))
    ∙ ap (◌++◌ a) (sym (append_assoc b c (d ++ r)))

closed_segments-append :
    (a b : List ℕ) → Lacks bar a → closed_segments (a ++ bar ∷ b) ≡ a ∷ closed_segments b
unfolding closed_segments
closed_segments-append [] b h = ground (arith, ==_refl bar)
closed_segments-append (c ∷ a) b h = ground (arith, h.0, closed_segments-append a b h.1)

tail-Lacks : (message : List ℕ) → Lacks bar message → Lacks bar (tail message)
tail-Lacks [] h = tt
tail-Lacks (c ∷ message) h = (omega arith, h)

segment-Lacks : (s : SensorSlot) → IsSlot s → Lacks bar (segment_of s)
segment-Lacks s h =
    All-append (λ x. x ≢ bar) (reading s) (tail s.supplementary_message)
      (All-append (λ x. x ≢ bar) s.sensor_id _ h.id_bar
        (
          omega arith,
          All-append (λ x. x ≢ bar) s.sensor_state _ h.state_bar
              (
                omega arith,
                All-append (λ x. x ≢ bar) s.sensor_unit _ h.unit_bar (omega arith, h.value_bar),
              ),
        ))
      (tail-Lacks s.supplementary_message h.message_bar)

read_one :
    (left : ℕ) (s : SensorSlot) (segment : List ℕ) (segs : List (List ℕ)) (rest : List SensorSlot)
    → 1 ≤ length segment
    → read_sensor segment ≡ some s
    → read_sensors left segs ≡ some rest
    → read_sensors (suc left) (segment ∷ segs) ≡ some (s ∷ rest)
unfolding read_sensors
read_one left s [] segs rest h e f = absurd (omega arith)
read_one left s (c ∷ segment) segs rest h e f = rw (e, f) refl

nothing_read : (left : ℕ) → read_sensors left (closed_segments []) ≡ some []
unfolding read_sensors closed_segments
nothing_read left = refl

filled : (s : SensorSlot) → 1 ≤ length (segment_of s)
filled s = omega (
  arith,
  length-append (reading s) (tail s.supplementary_message),
  length-append s.sensor_id
      (gt ∷ (s.sensor_state ++ dot ∷ (s.sensor_unit ++ colon ∷ s.sensor_value))),
)

read_sensors-sensors_of :
    (left : ℕ) (sensors : List SensorSlot)
    → All IsSlot sensors
    → length sensors ≤ left
    → read_sensors left (closed_segments (sensors_of sensors)) ≡ some sensors
unfolding sensors_of
read_sensors-sensors_of left [] h few = nothing_read left
read_sensors-sensors_of zero (s ∷ rest) h few = absurd (omega arith)
read_sensors-sensors_of (suc left) (s ∷ rest) h few =
    ap (read_sensors (suc left))
      (closed_segments-append (segment_of s) (sensors_of rest) (segment-Lacks s h.0))
    ∙ read_one left s (segment_of s) (closed_segments (sensors_of rest)) rest (filled s)
        (read_sensor-segment_of s h.0) (read_sensors-sensors_of left rest h.1 (omega arith))

message_lem :
    (m : TemplateMsg)
    → IsMessage m
    → message m.node_id m.node_state m.ts_token (sensors_of m.sensors) ≡ some m
message_lem m h =
    rw
      (
        token_lem tmpl_id_max m.node_id h.id_len,
        token_lem tmpl_state_max m.node_state h.state_len,
        token_lem tmpl_ts_max m.ts_token h.ts_len,
        read_sensors-sensors_of tmpl_max_sensors m.sensors h.all h.few,
      )
      refl

pub decode_text : (m : TemplateMsg) → IsMessage m → template_decode (text_of m) ≡ some m
unfolding template_decode
decode_text m h =
    let header_bar : Lacks bar (header_of m) =
      All-append (λ x. x ≢ bar) m.node_id (dot ∷ (m.node_state ++ dot ∷ m.ts_token)) h.id_bar
        (
          omega arith,
          All-append (λ x. x ≢ bar) m.node_state (dot ∷ m.ts_token) h.state_bar
              (omega arith, h.ts_bar),
        ) in
    let rest = sensors_of m.sensors in
    ap decode_header (split_first-append bar (header_of m) rest header_bar)
    ∙ ap (decode_node rest)
        (split_first-append dot m.node_id (m.node_state ++ dot ∷ m.ts_token) h.id_dot)
    ∙ ap (decode_stamp m.node_id rest) (split_first-append dot m.node_state m.ts_token h.state_dot)
    ∙ message_lem m h

put_fits :
    (out_cap : ℕ) (out piece : List ℕ)
    → length (out ++ piece) < out_cap
    → put out_cap (some out) piece ≡ some (out ++ piece)
put_fits out_cap out piece h =
    if_true (ltb (length out + length piece) out_cap) (some (out ++ piece)) none
      (ground (arith, length-append out piece))

put_message_fits :
    (out_cap : ℕ) (out message : List ℕ)
    → length (out ++ tail message) < out_cap
    → put_message out_cap (some out) message ≡ some (out ++ tail message)
put_message_fits out_cap out [] h = ap some (sym (append-nil out))
put_message_fits out_cap out (c ∷ message) h = put_fits out_cap out (bang ∷ c ∷ message) h

put_sensors_fits :
    (out_cap : ℕ) (out : List ℕ) (sensors : List SensorSlot)
    → length (out ++ sensors_of sensors) < out_cap
    → put_sensors out_cap (some out) sensors ≡ some (out ++ sensors_of sensors)
unfolding put_sensors sensors_of
put_sensors_fits out_cap out [] h = ap some (sym (append-nil out))
put_sensors_fits out_cap out (s ∷ rest) h =
    let a = out ++ reading s in
    let b = a ++ tail s.supplementary_message in
    let c = b ++ bar ∷ [] in
    let shape =
      regroup out (reading s) (tail s.supplementary_message) (bar ∷ []) (sensors_of rest) in
    let whole : length (c ++ sensors_of rest) < out_cap =
      subst (λ t. length t < out_cap) (sym shape) h in
    let cs = length-append c (sensors_of rest) in
    let bs = length-append b (bar ∷ []) in
    let as_len = length-append a (tail s.supplementary_message) in
    ap
      (λ o.
        put_sensors out_cap (put out_cap (put_message out_cap o s.supplementary_message) (bar ∷ []))
          rest)
      (put_fits out_cap out (reading s) (omega arith))
    ∙ ap (λ o. put_sensors out_cap (put out_cap o (bar ∷ [])) rest)
        (put_message_fits out_cap a s.supplementary_message (omega arith))
    ∙ ap (λ o. put_sensors out_cap o rest) (put_fits out_cap b (bar ∷ []) (omega arith))
    ∙ put_sensors_fits out_cap c rest whole
    ∙ ap some shape

-- Where there is room, at most 4 sensors are encoded as the text of the message.
pub template_encode_lem :
    (m : TemplateMsg) (out_cap : ℕ)
    → length m.sensors ≤ tmpl_max_sensors
    → length (text_of m) < out_cap
    → template_encode m.node_id m.node_state m.ts_token m.sensors out_cap ≡ some (text_of m)
unfolding template_encode
template_encode_lem m out_cap few room =
    let head_text = m.node_id ++ dot ∷ (m.node_state ++ dot ∷ (m.ts_token ++ bar ∷ [])) in
    let head : head_text ≡ header_of m ++ bar ∷ [] = rw (append_assoc, append_assoc) refl in
    let shape = append_assoc (header_of m) (bar ∷ []) (sensors_of m.sensors) in
    let whole : length (header_of m ++ bar ∷ [] ++ sensors_of m.sensors) < out_cap =
      subst (λ t. length t < out_cap) (sym shape) room in
    let parts = length-append (header_of m ++ bar ∷ []) (sensors_of m.sensors) in
    if_false (ltb tmpl_max_sensors (length m.sensors)) none _ (ground arith)
    ∙ ap (λ t. put_sensors out_cap (put out_cap (some []) t) m.sensors) head
    ∙ ap (λ o. put_sensors out_cap o m.sensors)
        (put_fits out_cap [] (header_of m ++ bar ∷ []) (omega arith))
    ∙ put_sensors_fits out_cap (header_of m ++ bar ∷ []) m.sensors whole
    ∙ ap some shape

-- A message whose texts fit their buffers and hold no character that would end them is encoded, where
-- there is room for its text and the final 0, and decoded from what was encoded.
pub template_decode-encode :
    (m : TemplateMsg) (out_cap : ℕ)
    → IsMessage m
    → length (text_of m) < out_cap
    → (text : List ℕ) × (template_encode m.node_id m.node_state m.ts_token m.sensors out_cap
        ≡ some text)
      × (template_decode text ≡ some m)
template_decode-encode m out_cap h room =
    (text_of m, template_encode_lem m out_cap h.few room, decode_text m h)
