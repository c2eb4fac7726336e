-- ===== src/ProtocolMatrix/Frames.antt =====
-- The frames of src/osfx_protocol_matrix.c, as a receiver can take them apart.
use osynaptic_fx.Prelude.{
  ℕ, zero, suc, ◌+◌, ◌%◌, ◌^◌, ◌≤◌, ◌≡◌, refl, sym, ap, ◌∙◌, ltb, if_false, true, List, [], ◌∷◌,
  ◌++◌, length, take, drop, some, arith, All, length-drop,
}
use mathlib.Core.List.{append_assoc, append-nil}
use osynaptic_fx.Prelude.Words.{u16_bytes, read_u16}
use osynaptic_fx.Prelude.Words.Read.{read_u16_lem}
use osynaptic_fx.ProtocolMatrix.{Emit, frame_size, send_tcp, send_can, can_frame, can_loop}

-- An application that keeps the frames it is handed, the oldest first.
abbrev pub Log : Type 0
Log = List (List ℕ)

abbrev pub keep : Emit Log
keep proto frame log = (true, log ++ frame ∷ [])

-- A payload of at most 1498 bytes goes out over tcp as one frame, whose first two bytes are its length.
send_tcp_lem :
    (payload : List ℕ) (log : Log)
    → length payload ≤ 1498
    → (frame : List ℕ) × (send_tcp Log (some keep) payload log ≡ (true, log ++ frame ∷ []))
      × (read_u16 frame 0 ≡ length payload)
      × (drop 2 frame ≡ payload)
unfolding send_tcp
send_tcp_lem payload log h =
    let n = length payload in
    (
      u16_bytes n ++ payload,
      if_false (ltb frame_size (n + 2)) _ _ (ground arith),
      read_u16_lem (u16_bytes n ++ payload) 0 n refl refl ∙ omega arith,
      refl,
    )

-- The pieces behind the two bytes of each frame, joined.
unfoldable pub joined : Log → List ℕ
joined [] = []
joined (frame ∷ rest) = drop 2 frame ++ joined rest

take-drop : (n : ℕ) (s : List ℕ) → take n s ++ drop n s ≡ s
take-drop zero s = refl
take-drop (suc n) [] = refl
take-drop (suc n) (c ∷ s) = ap (◌∷◌ c) (take-drop n s)

length-take_le : (n : ℕ) (s : List ℕ) → length (take n s) ≤ n
length-take_le zero s = omega arith
length-take_le (suc n) [] = omega arith
length-take_le (suc n) (c ∷ s) = omega (arith, length-take_le n s)

-- A frame of at most 8 bytes of payload, and the number of its bytes at its second place.
pub record IsCanFrame (frame : List ℕ) : Type 0 where
  pub number : ℕ
  pub chunk : List ℕ
  pub is : frame ≡ number % 2 ^ 8 ∷ length chunk ∷ chunk
  pub short : length chunk ≤ 8

can_loop_lem :
    (fuel idx : ℕ) (payload : List ℕ) (log : Log)
    → length payload ≤ fuel
    → (frames : Log) × (can_loop Log (some keep) fuel idx payload log ≡ (true, log ++ frames))
      × (joined frames ≡ payload)
      × All IsCanFrame frames
unfolding can_loop joined
can_loop_lem zero idx [] log h = ([], ap (λ l. (true, l)) (sym (append-nil log)), refl, tt)
can_loop_lem zero idx (b ∷ rest) log h = absurd (omega arith)
can_loop_lem (suc fuel) idx [] log h = ([], ap (λ l. (true, l)) (sym (append-nil log)), refl, tt)
can_loop_lem (suc fuel) idx (b ∷ rest) log h =
    let frame = can_frame idx (b ∷ rest) in
    let (frames, sent, whole, shaped) =
      can_loop_lem fuel (suc idx) (drop 8 (b ∷ rest)) (log ++ frame ∷ [])
        (omega (arith, length-drop 7 rest)) in
    (
      frame ∷ frames,
      sent ∙ ap (λ l. (true, l)) (append_assoc log (frame ∷ []) frames),
      ap (◌++◌ (take 8 (b ∷ rest))) whole ∙ take-drop 8 (b ∷ rest),
      (
        record {
          number = idx;
          chunk = take 8 (b ∷ rest);
          is = refl;
          short = length-take_le 8 (b ∷ rest);
        },
        shaped,
      ),
    )

-- Where every frame is taken, a payload of any length goes out over CAN in frames of at most 8 bytes
-- behind a number and a length, and the pieces of the frames in their order are the payload.
pub send_can_lem :
    (payload : List ℕ) (log : Log)
    → (frames : Log) × (send_can Log (some keep) payload log ≡ (true, log ++ frames))
      × (joined frames ≡ payload)
      × All IsCanFrame frames
unfolding send_can
send_can_lem payload log = can_loop_lem (length payload) 0 payload log (omega arith)
