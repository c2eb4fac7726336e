-- ===== src/FusionState/Encode.antt =====
-- `osfx_fusion_encode` of src/osfx_fusion_state.c. It gives the new cache, and the packet with its
-- command where the code returns 1.
use osynaptic_fx.Prelude.{
  ℕ, zero, suc, ◌+◌, ◌/◌, ◌^◌, ◌==◌, if◌then◌else◌, Bool, not, ◌||◌, List, [], ◌∷◌, ◌++◌, length,
  take, get_or, Option, none, some, bit_or, bit_and,
}
use osynaptic_fx.Prelude.Slots.{modify}
use osynaptic_fx.Prelude.Texts.{same_text, same_texts}
use osynaptic_fx.HandshakeCmd.{cmd_data_full, cmd_data_diff, cmd_data_heart}
use osynaptic_fx.FusionPacket.{encode_full}
use osynaptic_fx.FusionState.{
  FusionEntry, FusionCache, Report, strnlen, parse_body_slots, zero_entry, find_or_alloc, refreshed,
}

unfoldable pub struct_changed : FusionEntry → Report → Bool
struct_changed e p =
    let sbl = strnlen e.sig_base in
    sbl == 0
    || not (length e.last_vals == length p.slots)
    || not (sbl == length p.sig_base)
    || not (same_text (take (length p.sig_base) e.sig_base) p.sig_base)
    || not (same_texts e.tag_names p.tag_names)

-- `mask |= (1U << i)`.
abbrev pub mark : Bool → ℕ → ℕ → ℕ
mark same mask i = if same then mask else bit_or mask (2 ^ i)

-- The mask of the slots from `i` on that changed.
unfoldable pub diff_mask : ℕ → List (List ℕ) → List (List ℕ) → ℕ → ℕ
diff_mask i [] slots mask = mask
diff_mask i (v ∷ vals) [] mask = mask
diff_mask i (v ∷ vals) (s ∷ slots) mask = diff_mask (suc i) vals slots (mark (same_text v s) mask i)

-- The length and the bytes of each slot that changed.
unfoldable pub diff_values : List (List ℕ) → List (List ℕ) → List ℕ
diff_values [] slots = []
diff_values (v ∷ vals) [] = []
diff_values (v ∷ vals) (s ∷ slots) =
    let rest = diff_values vals slots in if same_text v s then rest else length s ∷ s ++ rest

-- The cached slots after the same loop.
unfoldable pub diff_cached : List (List ℕ) → List (List ℕ) → List (List ℕ)
diff_cached [] slots = []
diff_cached (v ∷ vals) [] = v ∷ vals
diff_cached (v ∷ vals) (s ∷ slots) = (if same_text v s then v else s) ∷ diff_cached vals slots

-- `for (k = 0; k < mask_len; ++k) { diff_body[mask_len - 1 - k] = m & 0xFF; m >>= 8; }`
unfoldable pub mask_bytes : ℕ → ℕ → List ℕ
mask_bytes zero m = []
mask_bytes (suc mask_len) m = mask_bytes mask_len (m / 2 ^ 8) ++ bit_and m 0xff ∷ []

abbrev pub mask_len_of : ℕ → ℕ
mask_len_of val_count = (val_count + 7) / 8

unfoldable pub diff_body : List (List ℕ) → List (List ℕ) → List ℕ
diff_body vals slots =
    mask_bytes (mask_len_of (length slots)) (diff_mask 0 vals slots 0) ++ diff_values vals slots

-- What is sent: the command, the body, and what becomes of the cached entry.
pub record Plan : Type 0 where
  pub cmd : ℕ
  pub body : List ℕ
  pub cached : FusionEntry → FusionEntry

unfoldable pub plan : FusionEntry → Report → List ℕ → Plan
plan e p full_body =
    if struct_changed e p
    then record { cmd = cmd_data_full; body = full_body; cached = refreshed p }
    else if same_texts e.last_vals p.slots
    then record { cmd = cmd_data_heart; body = []; cached = λ f. f }
    else record {
      cmd = cmd_data_diff;
      body = diff_body e.last_vals p.slots;
      cached = λ f. record f { last_vals = diff_cached f.last_vals p.slots };
    }

abbrev pub with_cmd : ℕ → Option (List ℕ) → Option (List ℕ × ℕ)
with_cmd cmd none = none
with_cmd cmd (some packet) = some (packet, cmd)

abbrev pub Sent : Type 0
Sent = FusionCache × Option (List ℕ × ℕ)

abbrev pub send_with : FusionCache → ℕ → ℕ → ℕ → ℕ → ℕ → Plan → Sent
send_with st i aid tid timestamp_raw out_cap pl = (
  modify st i pl.cached,
  with_cmd pl.cmd (encode_full pl.cmd aid tid timestamp_raw pl.body (some out_cap)),
)

-- With the cached entry, if there is room for one.
abbrev pub encode_at : ℕ → ℕ → ℕ → List ℕ → ℕ → Report → FusionCache × Option ℕ → Sent
encode_at aid tid timestamp_raw full_body out_cap p (st, none) = (st, none)
encode_at aid tid timestamp_raw full_body out_cap p (st, some i) =
    send_with st i aid tid timestamp_raw out_cap (plan (get_or st i zero_entry) p full_body)

abbrev pub encode_parsed : FusionCache → ℕ → ℕ → ℕ → List ℕ → ℕ → Option Report → Sent
encode_parsed st aid tid timestamp_raw full_body out_cap none = (
  st,
  with_cmd cmd_data_full (encode_full cmd_data_full aid tid timestamp_raw full_body (some out_cap)),
)
encode_parsed st aid tid timestamp_raw full_body out_cap (some p) =
    encode_at aid tid timestamp_raw full_body out_cap p (find_or_alloc st aid tid)

unfoldable pub encode : FusionCache → ℕ → ℕ → ℕ → List ℕ → ℕ → Sent
encode st aid tid timestamp_raw full_body out_cap =
    if length full_body == 0
    then (st, none)
    else encode_parsed st aid tid timestamp_raw full_body out_cap (parse_body_slots full_body)
