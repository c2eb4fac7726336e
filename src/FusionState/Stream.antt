-- ===== src/FusionState/Stream.antt =====
-- Reports of one source and template, sent one after the other from one cache of
-- src/osfx_fusion_state.c to another.
use osynaptic_fx.Prelude.{
  ℕ, ◌+◌, ◌^◌, ◌≤◌, ◌<◌, ◌≡◌, refl, sym, ap, ◌∙◌, List, [], ◌∷◌, map, length, Option, none, some,
  All, inl,
}
use mathlib.Core.Option
use osynaptic_fx.Prelude.Words.{IsByte, IsBytes}
use osynaptic_fx.FusionPacket.{Meta}
use osynaptic_fx.FusionState.{FusionEntry, FusionCache, Report, parse_body_slots}
use osynaptic_fx.FusionState.Encode.{encode}
use osynaptic_fx.FusionState.Decode.{decode_apply}
use osynaptic_fx.FusionState.Cache.{HasRoom, entry_of}
use osynaptic_fx.FusionState.Delivery.{Delivers, deliver}

-- A report with its timestamp.
pub record Message : Type 0 where
  pub ts : ℕ
  pub body : List ℕ

module _ (aid tid cap out_cap : ℕ) where
  -- The receiver gets what was sent, if anything was.
  abbrev pub passed_on : FusionCache → Option (List ℕ × ℕ) → FusionCache × Option (List ℕ)
  passed_on r none = (r, none)
  passed_on r (some (packet, cmd)) =
      let (r', got) = decode_apply r packet out_cap in (r', Option.map (λ x. x.0) got)

  -- The bodies that the receiver hands on, parsed.
  unfoldable pub relay : FusionCache → FusionCache → List Message → List (Option Report)
  relay s r [] = []
  relay s r (m ∷ rest) =
      let (s', out) = encode s aid tid m.ts m.body cap in
      let (r', text) = passed_on r out in Option.bind text parse_body_slots ∷ relay s' r' rest

  -- A message that can be cached and has room in every buffer.
  pub record IsReporting (m : Message) : Type 0 where
    pub report : Report
    pub bytes : IsBytes m.body
    pub parsed : parse_body_slots m.body ≡ some report
    pub room : 16 + length m.body ≤ cap
    pub fits : length m.body + 16 ≤ out_cap

  relay-step :
      (s r : FusionCache) (m : Message) (rest : List Message) (p : Report)
      → (d : Delivers aid tid m.ts m.body p s cap r out_cap)
      → relay s r (m ∷ rest)
        ≡ some p
          ∷ relay (encode s aid tid m.ts m.body cap).0 (decode_apply r d.packet out_cap).0 rest
  unfolding relay Option.bind
  relay-step s r m rest p d =
      let s' = (encode s aid tid m.ts m.body cap).0 in
      ap (λ o. Option.bind (passed_on r o).1 parse_body_slots ∷ relay s' (passed_on r o).0 rest)
        d.sent
      ∙ ap
          (λ g.
            Option.bind (Option.map (λ (x : List ℕ × Meta). x.0) g) parse_body_slots
            ∷ relay s' (decode_apply r d.packet out_cap).0 rest)
          d.received
      ∙ ap (λ o. o ∷ relay s' (decode_apply r d.packet out_cap).0 rest) d.meaning

  cached_room :
      (st : FusionCache) (e : FusionEntry) → entry_of st aid tid ≡ some e → HasRoom st aid tid
  cached_room st e h = inl (λ missing. Option.none-ne-some e (sym missing ∙ h))

  -- A sender and a receiver have the same entry for a 32-bit source and an 8-bit template, or none and a
  -- free slot each, and their buffers have room for the full packets and 16 bytes more than the bodies.
  -- Then each report of a list that is sent one after the other arrives with its meaning, be it as a
  -- full, a differing or an empty packet.
  pub relay_lem :
      (s r : FusionCache) (ms : List Message)
      → aid < 2 ^ 32
      → IsByte tid
      → entry_of s aid tid ≡ entry_of r aid tid
      → HasRoom s aid tid
      → HasRoom r aid tid
      → All IsReporting ms
      → relay s r ms ≡ map (λ m. parse_body_slots m.body) ms
  relay_lem s r [] ha ht synced space_s space_r h = unfold relay in refl
  relay_lem s r (m ∷ rest) ha ht synced space_s space_r h =
      let ok = h.0 in
      let p = ok.report in
      let d =
        deliver aid tid m.ts m.body p s r cap out_cap ha ht ok.bytes ok.parsed synced space_s
          space_r ok.room ok.fits in
      let s' = (encode s aid tid m.ts m.body cap).0 in
      let r' = (decode_apply r d.packet out_cap).0 in
      let others =
        relay_lem s' r' rest ha ht (d.sender ∙ sym d.receiver) (cached_room s' d.entry d.sender)
          (cached_room r' d.entry d.receiver) h.1 in
      relay-step s r m rest p d ∙ cc (ok.parsed, others)
