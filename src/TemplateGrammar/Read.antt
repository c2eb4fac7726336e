-- ===== src/TemplateGrammar/Read.antt =====
-- What src/osfx_template_grammar.c reads is what it wrote: sensors and their segments.
use osynaptic_fx.Prelude.{
  ℕ, ◌<◌, ◌≡◌, refl, ap, ◌∙◌, if_true, false, List, [], ◌∷◌, ◌++◌, length, none, some, ◌>>=◌, arith,
  All,
}
use mathlib.Core.List.{append_assoc, append-nil}
use osynaptic_fx.Prelude.Texts.{Lacks, split_first, split_first-append, has_room}
use osynaptic_fx.FusionState.{bar, dot, gt, colon}
use osynaptic_fx.TemplateGrammar.{
  SensorSlot, tmpl_id_max, tmpl_state_max, tmpl_unit_max, tmpl_value_max, tmpl_msg_max, bang,
  is_marker, reading, token, extensions, read_message, read_value, read_unit, read_state, read_id,
  read_sensor,
}

-- No character of the text begins an extension.
abbrev pub IsPlain : List ℕ → Type 0
IsPlain = All (λ c. is_marker c ≡ false)

-- A sensor whose texts fit their buffers and hold no character that ends them.
pub record IsSlot (s : SensorSlot) : Type 0 where
  pub id_len : length s.sensor_id < tmpl_id_max
  pub state_len : length s.sensor_state < tmpl_state_max
  pub unit_len : length s.sensor_unit < tmpl_unit_max
  pub value_len : length s.sensor_value < tmpl_value_max
  pub message_len : length s.supplementary_message < tmpl_msg_max
  pub id_gt : Lacks gt s.sensor_id
  pub id_bar : Lacks bar s.sensor_id
  pub state_dot : Lacks dot s.sensor_state
  pub state_bar : Lacks bar s.sensor_state
  pub unit_colon : Lacks colon s.sensor_unit
  pub unit_bar : Lacks bar s.sensor_unit
  pub value_plain : IsPlain s.sensor_value
  pub value_bar : Lacks bar s.sensor_value
  pub message_plain : IsPlain s.supplementary_message
  pub message_bar : Lacks bar s.supplementary_message

-- "!message", if there is one.
abbrev pub tail : List ℕ → List ℕ
tail [] = []
tail (c ∷ message) = bang ∷ c ∷ message

-- The segment of a sensor, without its '|'.
abbrev pub segment_of : SensorSlot → List ℕ
segment_of s = reading s ++ tail s.supplementary_message

extensions_plain : (s : List ℕ) → IsPlain s → extensions s ≡ (s, [])
unfolding extensions
extensions_plain [] h = refl
extensions_plain (c ∷ s) h = rw (h.0, extensions_plain s h.1) refl

extensions-append :
    (s : List ℕ) (rest : List ℕ)
    → IsPlain s
    → extensions (s ++ bang ∷ rest) ≡ (s, (bang, (extensions rest).0) ∷ (extensions rest).1)
unfolding extensions
extensions-append [] rest h = refl
extensions-append (c ∷ s) rest h = rw (h.0, extensions-append s rest h.1) refl

pub token_lem : (cap : ℕ) (s : List ℕ) → length s < cap → token cap s ≡ some s
token_lem cap s h = if_true (has_room cap s) (some s) none (ground arith)

-- The message is read back from the tail.
read_message-tail :
    (value message : List ℕ)
    → IsPlain value
    → IsPlain message
    → length message < tmpl_msg_max
    → (let (text, exts) = extensions (value ++ tail message) in
        (text ≡ value) × (read_message [] exts ≡ some message))
unfolding read_message
read_message-tail value [] v m l =
    let e = ap extensions (append-nil value) ∙ extensions_plain value v in rw e (refl, refl)
read_message-tail value (c ∷ message) v m l =
    let e = extensions-append value (c ∷ message) v in
    let inner = extensions_plain (c ∷ message) m in
    rw (e, inner)
      (refl, ap (λ t. t >>= (λ x. read_message x [])) (token_lem tmpl_msg_max (c ∷ message) l))

read_value_lem :
    (s : SensorSlot) (text : List ℕ) (exts : List (ℕ × List ℕ))
    → IsSlot s
    → text ≡ s.sensor_value
    → read_message [] exts ≡ some s.supplementary_message
    → read_value s.sensor_id s.sensor_state s.sensor_unit (text, exts) ≡ some s
read_value_lem s text exts h e m =
    rw
      (
        e,
        m,
        token_lem tmpl_id_max s.sensor_id h.id_len,
        token_lem tmpl_state_max s.sensor_state h.state_len,
        token_lem tmpl_unit_max s.sensor_unit h.unit_len,
        token_lem tmpl_value_max s.sensor_value h.value_len,
      )
      refl

-- A sensor is read back from its segment.
pub read_sensor-segment_of : (s : SensorSlot) → IsSlot s → read_sensor (segment_of s) ≡ some s
unfolding read_sensor
read_sensor-segment_of s h =
    let ending = tail s.supplementary_message in
    let after_unit = s.sensor_value ++ ending in
    let after_state = s.sensor_unit ++ colon ∷ after_unit in
    let after_id = s.sensor_state ++ dot ∷ after_state in
    let shape : segment_of s ≡ s.sensor_id ++ gt ∷ after_id =
      rw (append_assoc, append_assoc, append_assoc) refl in
    let (text, message) =
      read_message-tail s.sensor_value s.supplementary_message h.value_plain h.message_plain
        h.message_len in
    ap (λ t. read_id (split_first gt t)) shape
    ∙ ap read_id (split_first-append gt s.sensor_id after_id h.id_gt)
    ∙ ap (read_state s.sensor_id) (split_first-append dot s.sensor_state after_state h.state_dot)
    ∙ ap (read_unit s.sensor_id s.sensor_state)
        (split_first-append colon s.sensor_unit after_unit h.unit_colon)
    ∙ read_value_lem s (extensions after_unit).0 (extensions after_unit).1 h text message
