-- ===== src/FusionState/Tests.antt =====
-- The theorems on src/osfx_fusion_state.c at concrete inputs.
use osynaptic_fx.Prelude.{
  ℕ, ◌≤◌, ◌<◌, ◌≡◌, refl, sym, List, [], ◌∷◌, map, length, some, arith, inl, inr, true,
}
use mathlib.Core.Option
use osynaptic_fx.Prelude.Slots.{find, find_index}
use osynaptic_fx.HandshakeCmd.{cmd_data_heart}
use osynaptic_fx.FusionPacket.{encode_full}
use osynaptic_fx.Prelude.Texts.{split_first, split_last}
use osynaptic_fx.FusionState.{
  FusionCache, Report, parse_body_slots, state_init, zero_entry, segments, read_segment,
  read_segments, strnlen,
}
use osynaptic_fx.FusionState.Encode.{encode, with_cmd, diff_body}
use osynaptic_fx.FusionState.Delivery.{Delivers, deliver}
use osynaptic_fx.FusionState.Cache.{HasRoom}
use osynaptic_fx.FusionState.Stream.{Message, IsReporting, relay, relay_lem}
use osynaptic_fx.FusionState.Again.{encode_again}
use osynaptic_fx.FusionState.Buffers.{IsCache}
use osynaptic_fx.FusionState.History.{encode_call, apply_call, reset_call, run, run-IsCache}
use osynaptic_fx.FusionState.Bounds.{length-diff_body}

-- "n.s.1|T>c:5|H>r:7|", and the same report with 6 in place of 5.
abbrev body_five : List ℕ
body_five =
    b'n' ∷ b'.' ∷ b's' ∷ b'.' ∷ b'1' ∷ b'|' ∷ b'T' ∷ b'>' ∷ b'c' ∷ b':' ∷ b'5' ∷ b'|' ∷ b'H' ∷ b'>'
    ∷ b'r' ∷ b':' ∷ b'7' ∷ b'|' ∷ []

abbrev body_six : List ℕ
body_six =
    b'n' ∷ b'.' ∷ b's' ∷ b'.' ∷ b'2' ∷ b'|' ∷ b'T' ∷ b'>' ∷ b'c' ∷ b':' ∷ b'6' ∷ b'|' ∷ b'H' ∷ b'>'
    ∷ b'r' ∷ b':' ∷ b'7' ∷ b'|' ∷ []

abbrev report_of : ℕ → Report
report_of c = record {
  sig_base = b'n' ∷ b'.' ∷ b's' ∷ b'.' ∷ [];
  tag_names = (b'T' ∷ []) ∷ (b'H' ∷ []) ∷ [];
  slots = (b'c' ∷ []) ∷ (c ∷ []) ∷ (b'r' ∷ []) ∷ (b'7' ∷ []) ∷ [];
}

-- A cache that has seen the first report.
abbrev seen : FusionCache
seen =
    record {
      source_aid = 7;
      tid = 1;
      used = true;
      sig_base = b'n' ∷ b'.' ∷ b's' ∷ b'.' ∷ [];
      tag_names = (b'T' ∷ []) ∷ (b'H' ∷ []) ∷ [];
      last_vals = (b'c' ∷ []) ∷ (b'5' ∷ []) ∷ (b'r' ∷ []) ∷ (b'7' ∷ []) ∷ [];
    }
    ∷ zero_entry
    ∷ []

five_parsed : parse_body_slots body_five ≡ some (report_of b'5')
unfolding parse_body_slots split_first split_last segments read_segments read_segment
five_parsed = refl

six_parsed : parse_body_slots body_six ≡ some (report_of b'6')
unfolding parse_body_slots split_first split_last segments read_segments read_segment
six_parsed = refl

seen_room : HasRoom seen 7 1
unfolding find
seen_room = inl (λ e. Option.none-ne-some _ (sym e))

init_room : HasRoom state_init 7 1
unfolding find_index
init_room = inr (λ e. Option.none-ne-some _ (sym e))

deliver_example : Delivers 7 1 99 body_six (report_of b'6') seen 64 seen 64
deliver_example =
    deliver 7 1 99 body_six (report_of b'6') seen seen 64 64 (omega arith) (omega arith)
      (omega arith) six_parsed refl seen_room seen_room (omega arith) (omega arith)

abbrev messages : List Message
messages =
    record { ts = 1; body = body_five }
    ∷ record { ts = 2; body = body_six }
    ∷ record { ts = 3; body = body_six }
    ∷ []

five-IsReporting : IsReporting 7 1 64 64 (record { ts = 1; body = body_five })
five-IsReporting = record {
  report = report_of b'5';
  bytes = omega arith;
  parsed = five_parsed;
  room = omega arith;
  fits = omega arith;
}

six-IsReporting : (t : ℕ) → IsReporting 7 1 64 64 (record { ts = t; body = body_six })
six-IsReporting t = record {
  report = report_of b'6';
  bytes = omega arith;
  parsed = six_parsed;
  room = omega arith;
  fits = omega arith;
}

relay_lem_example :
    relay 7 1 64 64 state_init state_init messages ≡ map (λ m. parse_body_slots m.body) messages
relay_lem_example =
    relay_lem 7 1 64 64 state_init state_init messages (omega arith) (omega arith) refl init_room
      init_room (five-IsReporting, (six-IsReporting 2, (six-IsReporting 3, tt)))

-- Four sensors, and a fifth, whose value is the argument.
abbrev five_sensors : ℕ → List ℕ
five_sensors v =
    b'n' ∷ b'.' ∷ b'1' ∷ b'|' ∷ b'A' ∷ b'>' ∷ b'c' ∷ b':' ∷ b'1' ∷ b'|' ∷ b'B' ∷ b'>' ∷ b'c' ∷ b':'
    ∷ b'1' ∷ b'|' ∷ b'C' ∷ b'>' ∷ b'c' ∷ b':' ∷ b'1' ∷ b'|' ∷ b'D' ∷ b'>' ∷ b'c' ∷ b':' ∷ b'1'
    ∷ b'|' ∷ b'E' ∷ b'>' ∷ b'c' ∷ b':' ∷ v ∷ b'|' ∷ []

abbrev four_read : Report
four_read = record {
  sig_base = b'n' ∷ b'.' ∷ [];
  tag_names = (b'A' ∷ []) ∷ (b'B' ∷ []) ∷ (b'C' ∷ []) ∷ (b'D' ∷ []) ∷ [];
  slots =
      (b'c' ∷ [])
      ∷ (b'1' ∷ [])
      ∷ (b'c' ∷ [])
      ∷ (b'1' ∷ [])
      ∷ (b'c' ∷ [])
      ∷ (b'1' ∷ [])
      ∷ (b'c' ∷ [])
      ∷ (b'1' ∷ [])
      ∷ [];
}

one_parsed : parse_body_slots (five_sensors b'1') ≡ some four_read
unfolding parse_body_slots split_first split_last segments read_segments read_segment
one_parsed = refl

nine_parsed : parse_body_slots (five_sensors b'9') ≡ some four_read
unfolding parse_body_slots split_first split_last segments read_segments read_segment
nine_parsed = refl

no_zero : strnlen four_read.sig_base ≡ length four_read.sig_base
unfolding strnlen
no_zero = refl

-- The first packet has no room, and the fifth sensor of the second body differs.
encode_again_example :
    (encode (encode state_init 7 1 99 (five_sensors b'1') 10).0 7 1 100 (five_sensors b'9') 64).1
    ≡ with_cmd cmd_data_heart (encode_full cmd_data_heart 7 1 100 [] (some 64))
encode_again_example =
    encode_again 7 1 99 (five_sensors b'1') (five_sensors b'9') four_read state_init 10 100 64
      one_parsed nine_parsed no_zero init_room

run-IsCache_example : IsCache (
    run state_init
      (encode_call 7 1 99 body_six 10 ∷ apply_call (170 ∷ 1 ∷ 255 ∷ []) 64 ∷ reset_call ∷ []))
run-IsCache_example =
    run-IsCache
      (encode_call 7 1 99 body_six 10 ∷ apply_call (170 ∷ 1 ∷ 255 ∷ []) 64 ∷ reset_call ∷ [])

length-diff_body_example :
    (length (
        diff_body
          ((b'c' ∷ []) ∷ (b'5' ∷ []) ∷ (b'r' ∷ []) ∷ (b'7' ∷ []) ∷ [])
          (report_of b'6').slots)
      < length body_six)
    × (length (
          diff_body
            ((b'c' ∷ []) ∷ (b'5' ∷ []) ∷ (b'r' ∷ []) ∷ (b'7' ∷ []) ∷ [])
            (report_of b'6').slots)
        ≤ 138)
length-diff_body_example =
    length-diff_body body_six (report_of b'6')
      ((b'c' ∷ []) ∷ (b'5' ∷ []) ∷ (b'r' ∷ []) ∷ (b'7' ∷ []) ∷ []) six_parsed
