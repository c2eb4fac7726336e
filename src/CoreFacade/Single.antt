-- ===== src/CoreFacade/Single.antt =====
-- The body of `osfx_core_encode_sensor_packet_auto` of src/osfx_core_facade.c, as the fusion cache and
-- the template grammar read it.
use osynaptic_fx.Prelude.{
  ℕ, ◌+◌, ◌≤◌, ◌<◌, ◌≡◌, ◌≢◌, refl, sym, ap, ◌∙◌, List, [], ◌∷◌, ◌++◌, length, some, arith,
  All-append, length-append,
}
use mathlib.Core.List.{append_assoc, append-nil}
use osynaptic_fx.Prelude.Texts.{Lacks}
use osynaptic_fx.Solidity.Text.Letters.{IsLetters, IsToken, letters-Lacks, b64url_ts6-IsLetters}
use osynaptic_fx.Solidity.Text.Stamp.{b64url_ts6}
use osynaptic_fx.FusionState.{Sensor, Report, bar, dot, gt, colon, parse_body_slots}
use osynaptic_fx.FusionState.Rendered.{IsReport, slots_text, parse_stamped}
use osynaptic_fx.TemplateGrammar.{SensorSlot, TemplateMsg}
use osynaptic_fx.TemplateGrammar.Read.{IsPlain}
use osynaptic_fx.TemplateGrammar.Roundtrip.{IsMessage, text_of, sensors_of}
use osynaptic_fx.CoreFacade.{sensor_body, state_u}

-- The texts of a body, with no character in them that would end them.
pub record IsSingle (aid_str id unit b62 : List ℕ) : Type 0 where
  pub aid_token : IsToken 10 aid_str
  pub value_token : IsToken 12 b62
  pub id_filled : 1 ≤ length id
  pub id_short : length id < 12
  pub unit_short : length unit + 2 < 16
  pub id_gt : Lacks gt id
  pub id_bar : Lacks bar id
  pub unit_colon : Lacks colon unit
  pub unit_bar : Lacks bar unit

module _ (aid_str id unit b62 : List ℕ) where
  abbrev pub single_sensor : Sensor
  single_sensor = record { tag = id; meta = b'U' ∷ dot ∷ unit; val = b62 }

  abbrev pub single_report : Report
  single_report = record {
    sig_base = aid_str ++ dot ∷ b'U' ∷ dot ∷ [];
    tag_names = id ∷ [];
    slots = (b'U' ∷ dot ∷ unit) ∷ b62 ∷ [];
  }

  abbrev pub slot_of : SensorSlot
  slot_of = record {
    sensor_id = id;
    sensor_state = state_u;
    sensor_unit = unit;
    sensor_value = b62;
    supplementary_message = [];
  }

  abbrev pub single_message : List ℕ → TemplateMsg
  single_message stamp = record {
    node_id = aid_str;
    node_state = state_u;
    ts_token = stamp;
    sensors = slot_of ∷ [];
  }

  -- The two ways to write the body are the same.
  pub text_of-single :
      (stamp : List ℕ) → text_of (single_message stamp) ≡ sensor_body aid_str stamp id unit b62
  unfolding sensors_of
  text_of-single stamp =
      let inner = id ++ gt ∷ b'U' ∷ dot ∷ (unit ++ colon ∷ b62) in
      append_assoc aid_str (dot ∷ b'U' ∷ dot ∷ stamp) (bar ∷ (inner ++ [] ++ bar ∷ []))
      ∙ ap (λ x. aid_str ++ dot ∷ b'U' ∷ dot ∷ (stamp ++ bar ∷ x))
          (ap (λ y. y ++ bar ∷ []) (append-nil inner)
            ∙ append_assoc id (gt ∷ b'U' ∷ dot ∷ (unit ++ colon ∷ b62)) (bar ∷ [])
            ∙ ap (λ z. id ++ gt ∷ b'U' ∷ dot ∷ z) (append_assoc unit (colon ∷ b62) (bar ∷ [])))

  pub stamped-single :
      (stamp : List ℕ)
      → single_report.sig_base
          ++ (stamp ++ bar ∷ slots_text single_report.tag_names single_report.slots)
        ≡ sensor_body aid_str stamp id unit b62
  unfolding slots_text
  stamped-single stamp =
      append_assoc aid_str (dot ∷ b'U' ∷ dot ∷ [])
        (stamp ++ bar ∷ (id ++ gt ∷ b'U' ∷ dot ∷ (unit ++ colon ∷ (b62 ++ bar ∷ []))))

  module _ (h : IsSingle aid_str id unit b62) where
    single-IsReport : IsReport single_report
    single-IsReport =
        let a = h.aid_token in
        let v = h.value_token in
        let a_short = a.short in
        let v_filled = v.filled in
        let v_short = v.short in
        let filled = h.id_filled in
        let short = h.id_short in
        let unit_short = h.unit_short in
        record {
          name = aid_str ++ dot ∷ b'U' ∷ [];
          sensors = single_sensor ∷ [];
          named = sym (append_assoc aid_str (dot ∷ b'U' ∷ []) (dot ∷ []));
          tagged = refl;
          valued = refl;
          name_bar =
              All-append (λ x. x ≢ bar) aid_str (dot ∷ b'U' ∷ [])
                (letters-Lacks bar aid_str refl a.letters) (omega arith, (omega arith, tt));
          short = omega (arith, length-append aid_str (dot ∷ b'U' ∷ []));
          some_sensor = omega arith;
          few = omega arith;
          all = (
            record {
              sized = ground arith;
              tag_gt = h.id_gt;
              tag_bar = h.id_bar;
              meta_bar = (omega arith, (omega arith, h.unit_bar));
              val_colon = letters-Lacks colon b62 refl v.letters;
              val_bar = letters-Lacks bar b62 refl v.letters;
            },
            tt,
          );
        }

    letters-IsPlain : (s : List ℕ) → IsLetters s → IsPlain s
    letters-IsPlain [] l = tt
    letters-IsPlain (c ∷ s) l = (ground (arith, l.0), letters-IsPlain s l.1)

    pub single-IsMessage :
        (stamp : List ℕ) → Lacks bar stamp → length stamp < 32 → IsMessage (single_message stamp)
    single-IsMessage stamp stamp_bar stamp_short =
        let a = h.aid_token in
        let v = h.value_token in
        let a_short = a.short in
        let v_short = v.short in
        let short = h.id_short in
        let unit_short = h.unit_short in
        record {
          id_len = omega arith;
          state_len = omega arith;
          ts_len = stamp_short;
          id_dot = letters-Lacks dot aid_str refl a.letters;
          id_bar = letters-Lacks bar aid_str refl a.letters;
          state_dot = (omega arith, tt);
          state_bar = (omega arith, tt);
          ts_bar = stamp_bar;
          few = omega arith;
          all = (
            record {
              id_len = omega arith;
              state_len = omega arith;
              unit_len = omega arith;
              value_len = omega arith;
              message_len = omega arith;
              id_gt = h.id_gt;
              id_bar = h.id_bar;
              state_dot = (omega arith, tt);
              state_bar = (omega arith, tt);
              unit_colon = h.unit_colon;
              unit_bar = h.unit_bar;
              value_plain = letters-IsPlain b62 v.letters;
              value_bar = letters-Lacks bar b62 refl v.letters;
              message_plain = tt;
              message_bar = tt;
            },
            tt,
          );
        }

    pub parse_body_slots-single :
        (ts : ℕ)
        → parse_body_slots (sensor_body aid_str (b64url_ts6 ts) id unit b62) ≡ some single_report
    parse_body_slots-single ts =
        let stamp = b64url_ts6 ts in
        let (eight, letters) = b64url_ts6-IsLetters ts in
        ap parse_body_slots (sym (stamped-single stamp))
        ∙ parse_stamped single_report stamp single-IsReport (letters-Lacks bar stamp refl letters)
            (letters-Lacks dot stamp refl letters)
