-- ===== src/CoreFacade.antt =====
-- src/osfx_core_facade.c and include/osfx_core.h, in the default build: sensor readings to packets and
-- back. A reading's unit and value are standardised, the value is scaled to an integer and written in
-- base 62. `none` stands for the code's 0, and null output pointers are not considered.
pub mod Body
pub mod Packets
pub mod Single
pub mod Auto
pub mod Sample
mod Tests
use osynaptic_fx.Prelude.{
  ℕ, zero, suc, ◌+◌, ◌-◌, ◌==◌, ltb, leb, if◌then◌else◌, Bool, true, false, not, ◌&&◌, ◌||◌, List,
  [], ◌∷◌, ◌++◌, length, take, drop, Option, none, some, ◌>>=◌,
}
use osynaptic_fx.Prelude.Texts.{split_first, before, has_room}
use osynaptic_fx.Solidity.Text.{ℤ, b62_encode, b62_decode, u32toa}
use osynaptic_fx.Solidity.Text.Stamp.{b64url_ts6}
use osynaptic_fx.HandshakeCmd.{cmd_data_full}
use osynaptic_fx.FusionPacket.{Meta, encode_full, encode_ex, decode_meta, extract_body}
use osynaptic_fx.SecureSession.{Store, get_key}
use osynaptic_fx.FusionState.{FusionCache, bar, dot, gt, colon, decimal_text}
use osynaptic_fx.FusionState.Encode.{Sent, encode}
use osynaptic_fx.FusionState.Decode.{decode_apply}
use osynaptic_fx.TemplateGrammar.{
  SensorSlot, TemplateMsg, tmpl_max_sensors, tmpl_state_max, template_encode, template_decode,
}
use osynaptic_fx.Standardization.{Double, Catalog, standardize_value}

-- The state "U", and the unit "NA" of the packets of several sensors.
abbrev pub state_u : List ℕ
state_u = b'U' ∷ []

abbrev pub unit_na : List ℕ
unit_na = b'N' ∷ b'A' ∷ []

-- `copy_text`.
abbrev pub copy_text : ℕ → List ℕ → Option (List ℕ)
copy_text cap src = if has_room cap src then some src else none

-- Without room for a text, not even for its final 0, none is asked for, and an empty one stands for it.
abbrev pub copy_if_asked : ℕ → List ℕ → Option (List ℕ)
copy_if_asked cap src = if cap == 0 then some [] else copy_text cap src

-- "{aid}.U.{ts_b64}|{sid}>U.{unit}:{b62}|"
abbrev pub sensor_body : List ℕ → List ℕ → List ℕ → List ℕ → List ℕ → List ℕ
sensor_body aid_str ts_b64 sensor_id unit b62 =
    aid_str
    ++ dot
      ∷ b'U'
      ∷ dot
      ∷ (ts_b64 ++ bar ∷ (sensor_id ++ gt ∷ b'U' ∷ dot ∷ (unit ++ colon ∷ (b62 ++ bar ∷ []))))

-- `char body[256]`, with the final 0.
abbrev pub sized : List ℕ → Option (List ℕ)
sized body = if ltb 256 (length body + 1) then none else some body

-- A text as C reads it, up to its final 0.
abbrev pub c_string : List ℕ → List ℕ
c_string text = before 0 text

-- As include/osfx_user_config.h sets it.
abbrev pub multi_body_cap : ℕ
multi_body_cap = 512

module _ (F : Double) (lib : Catalog F) where
  -- The standardised value, scaled and in base 62, and the unit.
  unfoldable pub value_text : F.Real → List ℕ → ℕ → ℕ → Option (List ℕ × List ℕ)
  value_text input_value input_unit unit_cap b62_cap = do
    (std_value, std_unit) ← standardize_value F lib input_value input_unit unit_cap
    b62 ← b62_encode (F.to_int (F.mul std_value F.value_scale)) b62_cap
    some (b62, std_unit)

  -- The body of a packet of one sensor.
  unfoldable pub plain_body : ℕ → ℕ → List ℕ → F.Real → List ℕ → Option (List ℕ)
  plain_body source_aid timestamp_raw sensor_id input_value input_unit = do
    (b62, std_unit) ← value_text input_value input_unit 16 64
    aid_str ← u32toa source_aid 11
    sized (sensor_body aid_str (b64url_ts6 timestamp_raw) sensor_id std_unit b62)

  unfoldable pub encode_sensor_packet : ℕ → ℕ → ℕ → List ℕ → F.Real → List ℕ → ℕ → Option (List ℕ)
  encode_sensor_packet source_aid tid timestamp_raw sensor_id input_value input_unit out_cap = do
    body ← plain_body source_aid timestamp_raw sensor_id input_value input_unit
    encode_full cmd_data_full source_aid tid timestamp_raw body (some out_cap)

  unfoldable pub encode_sensor_packet_secure :
      Store → ℕ → ℕ → ℕ → List ℕ → F.Real → List ℕ → ℕ → Option (List ℕ)
  encode_sensor_packet_secure secure_store source_aid tid timestamp_raw sensor_id input_value
        input_unit out_cap =
      do
        key ← get_key secure_store source_aid
        body ← plain_body source_aid timestamp_raw sensor_id input_value input_unit
        encode_ex cmd_data_full source_aid tid timestamp_raw body true key (some out_cap)

  -- A decoded reading: the sensor's id, the value, and the unit.
  pub record Reading : Type 0 where
    pub sensor_id : List ℕ
    pub value : F.Real
    pub unit : List ℕ

  abbrev pub unscaled : ℤ → F.Real
  unscaled scaled = F.div (F.of_int scaled) F.value_scale

  -- A part of the body that may not be empty and has to fit.
  abbrev pub part : ℕ → List ℕ → Option (List ℕ)
  part cap text = if length text == 0 || ltb cap (length text + 1) then none else some text

  unfoldable pub decode_sensor_body : List ℕ → ℕ → ℕ → Option Reading
  decode_sensor_body body id_cap unit_cap = do
    (header, segment) ← split_first bar body
    (id, after_id) ← split_first gt segment
    sensor_id ← part id_cap id
    (state, after_state) ← split_first dot after_id
    (unit_text, after_unit) ← split_first colon after_state
    unit ← part unit_cap unit_text
    tmp ← part 64 (before bar after_unit)
    scaled ← b62_decode (c_string tmp)
    some (record { sensor_id = sensor_id; value = unscaled scaled; unit = unit })

  -- The body has room for 192 bytes.
  unfoldable pub decode_sensor_packet_secure : Store → List ℕ → ℕ → ℕ → Option (Reading × Meta)
  decode_sensor_packet_secure secure_store packet id_cap unit_cap = do
    meta ← decode_meta packet
    key ← get_key secure_store meta.source_aid
    (body, meta') ← extract_body packet key (some 192)
    reading ← decode_sensor_body body id_cap unit_cap
    some (reading, meta')

  -- The slot of a single sensor.
  unfoldable pub single_slot : List ℕ → F.Real → List ℕ → Option SensorSlot
  single_slot sensor_id input_value input_unit = do
    (b62, std_unit) ← value_text input_value input_unit 24 48
    i ← copy_text 32 sensor_id
    u ← copy_text 24 std_unit
    v ← copy_text 48 b62
    some (record {
      sensor_id = i;
      sensor_state = state_u;
      sensor_unit = u;
      sensor_value = v;
      supplementary_message = [];
    })

  unfoldable pub single_body : ℕ → ℕ → List ℕ → F.Real → List ℕ → Option (List ℕ)
  single_body source_aid timestamp_raw sensor_id input_value input_unit = do
    slot ← single_slot sensor_id input_value input_unit
    aid_str ← u32toa source_aid 11
    template_encode aid_str state_u (b64url_ts6 timestamp_raw) (slot ∷ []) 256

  -- Nothing is sent where there is no body.
  abbrev pub send_body : FusionCache → ℕ → ℕ → ℕ → ℕ → Option (List ℕ) → Sent
  send_body st source_aid tid timestamp_raw out_cap none = (st, none)
  send_body st source_aid tid timestamp_raw out_cap (some body) =
      encode st source_aid tid timestamp_raw body out_cap

  unfoldable pub encode_sensor_packet_auto :
      FusionCache → ℕ → ℕ → ℕ → List ℕ → F.Real → List ℕ → ℕ → Sent
  encode_sensor_packet_auto st source_aid tid timestamp_raw sensor_id input_value input_unit
        out_cap =
      send_body st source_aid tid timestamp_raw out_cap
        (single_body source_aid timestamp_raw sensor_id input_value input_unit)

  abbrev pub first_reading : ℕ → ℕ → List SensorSlot → Option Reading
  first_reading id_cap unit_cap [] = none
  first_reading id_cap unit_cap (s ∷ rest) = do
    i ← copy_if_asked id_cap s.sensor_id
    u ← copy_if_asked unit_cap s.sensor_unit
    scaled ← b62_decode s.sensor_value
    some (record { sensor_id = i; value = unscaled scaled; unit = u })

  -- `uint8_t body[256]`, with the final 0.
  unfoldable pub read_single : ℕ → ℕ → List ℕ × Meta → Option (Reading × Meta)
  read_single id_cap unit_cap (body, meta) = do
    text ← sized body
    msg ← template_decode (c_string text)
    reading ← first_reading id_cap unit_cap msg.sensors
    some (reading, meta)

  unfoldable pub decode_sensor_packet_auto :
      FusionCache → List ℕ → ℕ → ℕ → FusionCache × Option (Reading × Meta)
  decode_sensor_packet_auto st packet id_cap unit_cap =
      let (st', out) = decode_apply st packet 256 in (st', out >>= read_single id_cap unit_cap)

  -- `osfx_core_sensor_input`, without the extensions that the default build leaves out.
  pub record SensorInput : Type 0 where
    pub sensor_id : List ℕ
    pub sensor_state : List ℕ
    pub value : F.Real
    pub unit : List ℕ
    pub supplementary_message : Option (List ℕ)

  -- `osfx_core_sensor_output`.
  pub record SensorOutput : Type 0 where
    pub sensor_id : List ℕ
    pub sensor_state : List ℕ
    pub value : F.Real
    pub unit : List ℕ
    pub supplementary_message : List ℕ

  abbrev pub or_empty : Option (List ℕ) → List ℕ
  or_empty none = []
  or_empty (some text) = text

  -- The default build does not send the unit.
  unfoldable pub multi_slot : SensorInput → Option SensorSlot
  multi_slot s = do
    i ← copy_text 32 s.sensor_id
    state ← copy_text tmpl_state_max s.sensor_state
    (b62, std_unit) ← value_text s.value s.unit 24 48
    v ← copy_text 48 b62
    m ← copy_text 128 (or_empty s.supplementary_message)
    some (record {
      sensor_id = i;
      sensor_state = state;
      sensor_unit = unit_na;
      sensor_value = v;
      supplementary_message = m;
    })

  unfoldable pub multi_slots : List SensorInput → Option (List SensorSlot)
  multi_slots [] = some []
  multi_slots (s ∷ rest) = do slot ← multi_slot s; slots ← multi_slots rest; some (slot ∷ slots)

  unfoldable pub multi_body : ℕ → List ℕ → List ℕ → List SensorInput → Option (List ℕ)
  multi_body timestamp_raw node_id node_state sensors =
      if length sensors == 0 || ltb tmpl_max_sensors (length sensors) then none else (do
        slots ← multi_slots sensors
        template_encode node_id node_state (decimal_text timestamp_raw) slots multi_body_cap)

  unfoldable pub encode_multi_sensor_packet_auto :
      FusionCache → ℕ → ℕ → ℕ → List ℕ → List ℕ → List SensorInput → ℕ → Sent
  encode_multi_sensor_packet_auto st source_aid tid timestamp_raw node_id node_state sensors
        out_cap =
      send_body st source_aid tid timestamp_raw out_cap
        (multi_body timestamp_raw node_id node_state sensors)

  unfoldable pub read_output : SensorSlot → Option SensorOutput
  read_output s = do
    scaled ← b62_decode s.sensor_value
    i ← copy_text 32 s.sensor_id
    state ← copy_text tmpl_state_max s.sensor_state
    u ← copy_text 24 s.sensor_unit
    m ← copy_text 128 s.supplementary_message
    some (record {
      sensor_id = i;
      sensor_state = state;
      value = unscaled scaled;
      unit = u;
      supplementary_message = m;
    })

  unfoldable pub read_outputs : List SensorSlot → Option (List SensorOutput)
  read_outputs [] = some []
  read_outputs (s ∷ rest) = do out ← read_output s; outs ← read_outputs rest; some (out ∷ outs)

  -- The node, its state, and its sensors.
  pub record NodeReport : Type 0 where
    pub node_id : List ℕ
    pub node_state : List ℕ
    pub sensors : List SensorOutput

  unfoldable pub read_multi : ℕ → ℕ → ℕ → List ℕ × Meta → Option (NodeReport × Meta)
  read_multi id_cap state_cap out_sensors_cap (body, meta) =
      if ltb multi_body_cap (length body + 1) then none else (do
        msg ← template_decode (c_string body)
        i ← copy_text id_cap msg.node_id
        s ← copy_text state_cap msg.node_state
        sensors ←
            (if ltb out_sensors_cap (length msg.sensors) then none else read_outputs msg.sensors)
        some (record { node_id = i; node_state = s; sensors = sensors }, meta))

  unfoldable pub decode_multi_sensor_packet_auto :
      FusionCache → List ℕ → ℕ → ℕ → ℕ → FusionCache × Option (NodeReport × Meta)
  decode_multi_sensor_packet_auto st packet id_cap state_cap out_sensors_cap =
      let (st', out) = decode_apply st packet multi_body_cap in
      (st', out >>= read_multi id_cap state_cap out_sensors_cap)
