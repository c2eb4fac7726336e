-- ===== src/CoreFacade/Body.antt =====
-- The body of a packet of one sensor of src/osfx_core_facade.c, written and taken apart.
use osynaptic_fx.Prelude.{
  ℕ, ◌+◌, ◌^◌, ◌≤◌, ◌<◌, ◌≡◌, ◌≢◌, refl, sym, ap, ◌∙◌, ◌==◌, ltb, ◌||◌, if_false, List, [], ◌∷◌,
  ◌++◌, length, none, some, arith, All, All-append, length-append,
}
use mathlib.Core.List.{append_assoc}
use osynaptic_fx.Prelude.Words.{IsByte, IsBytes}
use osynaptic_fx.Prelude.Texts.{
  Lacks, split_first, split_first-append, before, before-append, before_lacking,
}
use osynaptic_fx.Solidity.Text.{ℤ, magnitude, b62_decode}
use osynaptic_fx.Solidity.Text.Stamp.{b64url_ts6}
use osynaptic_fx.Solidity.Text.Letters.{
  IsLetters, IsToken, b62_text, u32_text, b64url_ts6-IsLetters, letters-Lacks, letters-IsBytes,
}
use osynaptic_fx.FusionState.{bar, dot, gt, colon}
use osynaptic_fx.Standardization.{Double, Catalog, standardize_value}
use osynaptic_fx.CoreFacade.{
  sensor_body, sized, Reading, unscaled, part, decode_sensor_body, value_text, plain_body,
}

pub length-sensor_body :
    (aid_str stamp id unit b62 : List ℕ)
    → length (sensor_body aid_str stamp id unit b62)
      ≡ length aid_str + length stamp + length id + length unit + length b62 + 9
length-sensor_body aid_str stamp id unit b62 =
    let c = unit ++ colon ∷ (b62 ++ bar ∷ []) in
    let b = id ++ gt ∷ b'U' ∷ dot ∷ c in
    let a = stamp ++ bar ∷ b in
    omega (
      arith,
      length-append aid_str (dot ∷ b'U' ∷ dot ∷ a),
      length-append stamp (bar ∷ b),
      length-append id (gt ∷ b'U' ∷ dot ∷ c),
      length-append unit (colon ∷ (b62 ++ bar ∷ [])),
      length-append b62 (bar ∷ []),
    )

pub sensor_body-All :
    (P : ℕ → Type 0) (aid_str stamp id unit b62 : List ℕ)
    → P dot × P b'U' × P bar × P gt × P colon
    → All P aid_str
    → All P stamp
    → All P id
    → All P unit
    → All P b62
    → All P (sensor_body aid_str stamp id unit b62)
sensor_body-All P aid_str stamp id unit b62 (d, u, b, g, c) ha ht hi hu hb =
    let value = All-append P b62 (bar ∷ []) hb (b, tt) in
    let units = All-append P unit _ hu (c, value) in
    let segment = All-append P id _ hi (g, (u, (d, units))) in
    let stamped = All-append P stamp _ ht (b, segment) in
    All-append P aid_str _ ha (d, (u, (d, stamped)))

pub sensor_body-IsBytes :
    (aid_str stamp id unit b62 : List ℕ)
    → IsBytes aid_str
    → IsBytes stamp
    → IsBytes id
    → IsBytes unit
    → IsBytes b62
    → IsBytes (sensor_body aid_str stamp id unit b62)
sensor_body-IsBytes aid_str stamp id unit b62 =
    sensor_body-All IsByte aid_str stamp id unit b62
      (omega arith, omega arith, omega arith, omega arith, omega arith)

module _ (F : Double) (lib : Catalog F) where
  part_lem :
      (cap : ℕ) (text : List ℕ)
      → 1 ≤ length text
      → length text < cap
      → part F lib cap text ≡ some text
  part_lem cap text h k =
      if_false (length text == 0 || ltb cap (length text + 1)) none (some text) (ground arith)

  -- A body is taken apart into what it was put together from.
  decode_sensor_body_lem :
      (aid_str stamp id unit b62 : List ℕ) (scaled : ℤ) (id_cap unit_cap : ℕ)
      → IsLetters aid_str
      → IsLetters stamp
      → Lacks gt id
      → Lacks colon unit
      → IsToken 12 b62
      → b62_decode b62 ≡ some scaled
      → 1 ≤ length id
      → 1 ≤ length unit
      → length id < id_cap
      → length unit < unit_cap
      → decode_sensor_body F lib (sensor_body aid_str stamp id unit b62) id_cap unit_cap
        ≡ some (record { sensor_id = id; value = unscaled F lib scaled; unit = unit })
  unfolding decode_sensor_body
  decode_sensor_body_lem aid_str stamp id unit b62 scaled id_cap unit_cap ha ht hi hu hb read i1 u1
        ic uc =
      let after_unit = b62 ++ bar ∷ [] in
      let after_state = unit ++ colon ∷ after_unit in
      let after_id = b'U' ∷ dot ∷ after_state in
      let segment = id ++ gt ∷ after_id in
      let header = aid_str ++ dot ∷ b'U' ∷ dot ∷ stamp in
      let header_bar : Lacks bar header =
        All-append (λ x. x ≢ bar) aid_str (dot ∷ b'U' ∷ dot ∷ stamp)
          (letters-Lacks bar aid_str refl ha)
          (omega arith, (omega arith, (omega arith, letters-Lacks bar stamp refl ht))) in
      let shape : sensor_body aid_str stamp id unit b62 ≡ header ++ bar ∷ segment =
        sym (append_assoc aid_str (dot ∷ b'U' ∷ dot ∷ stamp) (bar ∷ segment)) in
      let whole : split_first bar (sensor_body aid_str stamp id unit b62) ≡ some (header, segment) =
        ap (split_first bar) shape ∙ split_first-append bar header segment header_bar in
      let state : split_first dot after_id ≡ some (b'U' ∷ [], after_state) =
        split_first-append dot (b'U' ∷ []) after_state (omega arith, tt) in
      let value : before bar after_unit ≡ b62 =
        before-append bar b62 [] (letters-Lacks bar b62 refl hb.letters) in
      let filled = hb.filled in
      let short = hb.short in
      rw
        (
          whole,
          split_first-append gt id after_id hi,
          part_lem id_cap id i1 ic,
          state,
          split_first-append colon unit after_unit hu,
          part_lem unit_cap unit u1 uc,
          value,
          part_lem 64 b62 filled (omega arith),
          before_lacking 0 b62 (letters-Lacks 0 b62 refl hb.letters),
          read,
        )
        refl

  -- A reading that has a body: what it is standardised to, and that its texts can be read back.
  pub record IsReading (id : List ℕ) (value : F.Real) (unit : List ℕ) (unit_room : ℕ) : Type 0 where
    pub std : F.Real
    pub std_unit : List ℕ
    pub standard : standardize_value F lib value unit unit_room ≡ some (std, std_unit)
    pub scaled_fits : magnitude (F.to_int (F.mul std F.value_scale)) < 2 ^ 63
    pub id_filled : 1 ≤ length id
    pub unit_filled : 1 ≤ length std_unit
    pub id_gt : Lacks gt id
    pub unit_colon : Lacks colon std_unit
    pub id_bytes : IsBytes id
    pub unit_bytes : IsBytes std_unit

  -- What the receiver of a reading is to get.
  abbrev pub reading_of :
      (id : List ℕ) (value : F.Real) (unit : List ℕ) (unit_room : ℕ)
      → IsReading id value unit unit_room
      → Reading F lib
  reading_of id value unit unit_room h = record {
    sensor_id = id;
    value = unscaled F lib (F.to_int (F.mul h.std F.value_scale));
    unit = h.std_unit;
  }

  -- The base 62 text of a reading's value.
  pub value_text_lem :
      (id : List ℕ) (value : F.Real) (unit : List ℕ) (unit_room b62_cap : ℕ)
      → (h : IsReading id value unit unit_room) → 13 ≤ b62_cap
      → (b62 : List ℕ) × (value_text F lib value unit unit_room b62_cap ≡ some (b62, h.std_unit))
        × (b62_decode b62 ≡ some (F.to_int (F.mul h.std F.value_scale)))
        × IsToken 12 b62
  unfolding value_text
  value_text_lem id value unit unit_room b62_cap h room =
      let (b62, written, read, token) =
        b62_text (F.to_int (F.mul h.std F.value_scale)) b62_cap h.scaled_fits room in
      (b62, rw (h.standard, written) refl, read, token)

  -- The body of a reading, which is taken apart into it.
  pub plain_body_lem :
      (aid ts : ℕ) (id : List ℕ) (value : F.Real) (unit : List ℕ) (id_cap unit_cap : ℕ)
      → (h : IsReading id value unit 16) → aid < 2 ^ 32
      → length id ≤ 128
      → length id < id_cap
      → length h.std_unit < 16
      → length h.std_unit < unit_cap
      → (body : List ℕ) × (plain_body F lib aid ts id value unit ≡ some body)
        × (length body ≤ 192)
        × IsBytes body
        × (decode_sensor_body F lib body id_cap unit_cap ≡ some (reading_of id value unit 16 h))
  unfolding plain_body
  plain_body_lem aid ts id value unit id_cap unit_cap h ha short_id id_room short_unit unit_room =
      let (b62, text, read, token) = value_text_lem id value unit 16 64 h (omega arith) in
      let (aid_str, aid_text, aid_token) = u32_text aid ha in
      let (eight, stamp) = b64url_ts6-IsLetters ts in
      let body = sensor_body aid_str (b64url_ts6 ts) id h.std_unit b62 in
      let few = token.short in
      let few_digits = aid_token.short in
      let size : length body ≤ 192 =
        omega (arith, length-sensor_body aid_str (b64url_ts6 ts) id h.std_unit b62) in
      let fits : sized body ≡ some body =
        if_false (ltb 256 (length body + 1)) none _ (ground arith) in
      (
        body,
        rw (text, aid_text, fits) refl,
        size,
        sensor_body-IsBytes aid_str (b64url_ts6 ts) id h.std_unit b62
            (letters-IsBytes aid_str aid_token.letters) (letters-IsBytes (b64url_ts6 ts) stamp)
            h.id_bytes h.unit_bytes (letters-IsBytes b62 token.letters),
        decode_sensor_body_lem aid_str (b64url_ts6 ts) id h.std_unit b62
            (F.to_int (F.mul h.std F.value_scale)) id_cap unit_cap aid_token.letters stamp h.id_gt
            h.unit_colon token read h.id_filled h.unit_filled id_room unit_room,
      )
