-- ===== src/CoreFacade/Tests.antt =====
-- The theorems on src/osfx_core_facade.c at the reading of Sample.
use osynaptic_fx.Prelude.{
  ◌%◌, ◌^◌, sym, inl, ℕ, ◌≡◌, refl, true, List, [], ◌∷◌, replicate, some, arith,
}
use osynaptic_fx.Solidity.Text.{pos}
use osynaptic_fx.FusionPacket.{Meta}
use osynaptic_fx.SecureSession.{Store, zero_session, get_key}
use osynaptic_fx.Standardization.{standardize_value, resolve_with_prefix}
use osynaptic_fx.CoreFacade.{
  encode_sensor_packet_secure, decode_sensor_packet_secure, encode_sensor_packet_auto,
  decode_sensor_packet_auto,
}
use osynaptic_fx.CoreFacade.Sample.{whole, no_units, temp, kelvin, wide_reading}
use osynaptic_fx.CoreFacade.Auto.{decode-encode_auto}
use osynaptic_fx.FusionState.{FusionCache}
use osynaptic_fx.FusionState.Cache.{HasRoom, entry_of}
use osynaptic_fx.Prelude.Slots.{find}
use mathlib.Core.Option
use osynaptic_fx.CoreFacade.Body.{IsReading}
use osynaptic_fx.CoreFacade.Packets.{decode-encode_secure}

kelvin_stays : standardize_value whole no_units (pos 300) kelvin 16 ≡ some (pos 300, kelvin)
unfolding standardize_value resolve_with_prefix find
kelvin_stays = refl

abbrev temp_reading : IsReading whole no_units temp (pos 300) kelvin 16
temp_reading = record {
  std = pos 300;
  std_unit = kelvin;
  standard = kelvin_stays;
  scaled_fits = omega arith;
  id_filled = omega arith;
  unit_filled = omega arith;
  id_gt = omega arith;
  unit_colon = omega arith;
  id_bytes = omega arith;
  unit_bytes = omega arith;
}

abbrev shared_key : List ℕ
shared_key = replicate 32 170

abbrev keyed : Store
keyed = record {
  sessions =
      record zero_session {
        aid = 5;
        key = shared_key;
        key_set = true;
        dict_ready = true;
        used = true;
      }
      ∷ [];
  expire_seconds = 60;
}

has_key : get_key keyed 5 ≡ some shared_key
unfolding get_key find
has_key = refl

decode-encode_secure_example :
    (packet : List ℕ) × (meta : Meta) × (encode_sensor_packet_secure whole no_units keyed 5 1
        1700000000 temp
        (pos 300)
        kelvin
        256
      ≡ some packet)
    × (decode_sensor_packet_secure whole no_units keyed packet 32 24
        ≡ some (record { sensor_id = temp; value = pos 300; unit = kelvin }, meta))
decode-encode_secure_example =
    decode-encode_secure whole no_units 5 1 1700000000 temp (pos 300) kelvin 256 32 24 keyed keyed
      shared_key temp_reading has_key has_key (omega arith) (omega arith) (omega arith)
      (omega arith) (omega arith) (omega arith) (omega arith) (omega arith)

-- A cache that knows another temp_reading of the sensor, and one with nothing in it.
abbrev knowing : FusionCache
knowing =
    record {
      source_aid = 5;
      tid = 1;
      used = true;
      sig_base = b'5' ∷ b'.' ∷ b'U' ∷ b'.' ∷ [];
      tag_names = temp ∷ [];
      last_vals = (b'U' ∷ b'.' ∷ b'K' ∷ []) ∷ (b'4' ∷ []) ∷ [];
    }
    ∷ []

knowing_room : HasRoom knowing 5 1
unfolding find
knowing_room = inl (λ e. Option.none-ne-some _ (sym e))

decode-encode_auto_example :
    (packet : List ℕ) × (cmd : ℕ) × (meta : Meta) × ((encode_sensor_packet_auto whole no_units
        knowing 5 1 1700000000 temp
        (pos 300)
        kelvin
        79).1
      ≡ some (packet, cmd))
    × ((decode_sensor_packet_auto whole no_units knowing packet 32 24).1
        ≡ some (record { sensor_id = temp; value = pos 300; unit = kelvin }, meta))
    × (meta.source_aid ≡ 5)
    × (meta.timestamp_raw ≡ 1700000000 % 2 ^ 48)
    × (entry_of
          (encode_sensor_packet_auto whole no_units knowing 5 1 1700000000 temp
            (pos 300)
            kelvin
            79).0
          5
          1
        ≡ entry_of (decode_sensor_packet_auto whole no_units knowing packet 32 24).0 5 1)
decode-encode_auto_example =
    decode-encode_auto whole no_units 5 1 1700000000 temp (pos 300) kelvin knowing knowing 79 32 24
      wide_reading (omega arith) (omega arith) (omega arith) (omega arith) (omega arith)
      (omega arith) (omega arith) (omega arith) (omega arith) (omega arith) (omega arith) refl
      knowing_room knowing_room
