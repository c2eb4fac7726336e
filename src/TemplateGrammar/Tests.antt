-- ===== src/TemplateGrammar/Tests.antt =====
-- The round trip of src/osfx_template_grammar.c at a concrete message.
use osynaptic_fx.Prelude.{ℕ, ◌≡◌, refl, List, [], ◌∷◌, some, arith}
use osynaptic_fx.TemplateGrammar.{SensorSlot, TemplateMsg, template_encode, template_decode}
use osynaptic_fx.TemplateGrammar.Read.{IsSlot}
use osynaptic_fx.TemplateGrammar.Roundtrip.{IsMessage, template_decode-encode, sensors_of}

abbrev slot : SensorSlot
slot = record {
  sensor_id = b'T' ∷ [];
  sensor_state = b'U' ∷ [];
  sensor_unit = b'K' ∷ [];
  sensor_value = b'5' ∷ [];
  supplementary_message = b'h' ∷ b'i' ∷ [];
}

abbrev msg : TemplateMsg
msg = record {
  node_id = b'7' ∷ [];
  node_state = b'U' ∷ [];
  ts_token = b'1' ∷ [];
  sensors = slot ∷ [];
}

slot_ok : IsSlot slot
slot_ok = record {
  id_len = omega arith;
  state_len = omega arith;
  unit_len = omega arith;
  value_len = omega arith;
  message_len = omega arith;
  id_gt = omega arith;
  id_bar = omega arith;
  state_dot = omega arith;
  state_bar = omega arith;
  unit_colon = omega arith;
  unit_bar = omega arith;
  value_plain = (refl, tt);
  value_bar = omega arith;
  message_plain = (refl, (refl, tt));
  message_bar = omega arith;
}

msg_ok : IsMessage msg
msg_ok = record {
  id_len = omega arith;
  state_len = omega arith;
  ts_len = omega arith;
  id_dot = omega arith;
  id_bar = omega arith;
  state_dot = omega arith;
  state_bar = omega arith;
  ts_bar = omega arith;
  few = omega arith;
  all = (slot_ok, tt);
}

template_decode-encode_example :
    (text : List ℕ) × (template_encode msg.node_id msg.node_state msg.ts_token msg.sensors 64
      ≡ some text)
    × (template_decode text ≡ some msg)
template_decode-encode_example =
    template_decode-encode msg 64 msg_ok (unfold sensors_of in omega arith)
