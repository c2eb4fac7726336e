-- ===== src/FusionState/History.antt =====
-- The cache of src/osfx_fusion_state.c over any history of calls.
use osynaptic_fx.Prelude.{
  ℕ, zero, suc, ◌≡◌, refl, ◌==◌, ltb, if◌then◌else◌, Bool, true, false, ◌||◌, List, [], ◌∷◌, take,
  drop, length, Option, none, some, All-replicate, get_or,
}
use osynaptic_fx.Prelude.Slots.{modify}
use osynaptic_fx.HandshakeCmd.{cmd_data_full, cmd_data_heart, cmd_data_diff}
use osynaptic_fx.FusionPacket.{Meta, decode_meta, body_bytes}
use osynaptic_fx.FusionState.{
  FusionEntry, FusionCache, Report, parse_body_slots, refreshed, find_or_alloc, zero_entry,
  state_init, find_entry, fusion_max_entries,
}
use osynaptic_fx.FusionState.Encode.{plan, encode, encode_parsed, encode_at, mask_len_of}
use osynaptic_fx.FusionState.Decode.{
  Received, decode_apply, receive, receive_known, receive_full, receive_diff, receive_heart,
  applied, rebuild_at, learn, store_report, apply_slots, read_mask, rewritten,
}
use osynaptic_fx.FusionState.Rendered.{IsReport, parse_body_slots-IsReport}
use osynaptic_fx.FusionState.Buffers.{
  IsEntry, IsCache, zero-IsEntry, refreshed-IsEntry, revalued, modify-IsCache, apply_slots-Fits,
  plan-IsEntry, find_or_alloc-IsCache,
}

encode-IsCache :
    (st : FusionCache) (aid tid ts : ℕ) (body : List ℕ) (cap : ℕ)
    → IsCache st
    → IsCache (encode st aid tid ts body cap).0
unfolding encode
encode-IsCache st aid tid ts body cap h =
    empty (length body == 0)
      (parsed (parse_body_slots body) (λ p e. parse_body_slots-IsReport body p e))
  where
    at :
        (p : Report) (got : FusionCache × Option ℕ)
        → IsReport p
        → IsCache got.0
        → IsCache (encode_at aid tid ts body cap p got).0
    at p (s, none) ok k = k
    at p (s, some i) ok k =
        let e = get_or s i zero_entry in
        modify-IsCache s i (plan e p body).cached (plan-IsEntry e p body ok) k

    parsed :
        (o : Option Report)
        → ((p : Report) → o ≡ some p → IsReport p)
        → IsCache (encode_parsed st aid tid ts body cap o).0
    parsed none ok = h
    parsed (some p) ok =
        at p (find_or_alloc st aid tid) (ok p refl) (find_or_alloc-IsCache st aid tid h)

    empty :
        (b : Bool)
        → IsCache (encode_parsed st aid tid ts body cap (parse_body_slots body)).0
        → IsCache
            (if b
              then (st, none)
              else encode_parsed st aid tid ts body cap (parse_body_slots body)).0
    empty true k = h
    empty false k = k

store_report-IsCache :
    (p : Report) (got : FusionCache × Option ℕ)
    → IsReport p
    → IsCache got.0
    → IsCache (store_report p got)
store_report-IsCache p (s, none) ok k = k
store_report-IsCache p (s, some i) ok k =
    modify-IsCache s i (refreshed p) (λ e x. refreshed-IsEntry p e ok) k

learn-IsCache :
    (st : FusionCache) (aid tid : ℕ) (o : Option Report)
    → ((p : Report) → o ≡ some p → IsReport p)
    → IsCache st
    → IsCache (learn st aid tid o)
learn-IsCache st aid tid none ok h = h
learn-IsCache st aid tid (some p) ok h =
    store_report-IsCache p (find_or_alloc st aid tid) (ok p refl)
      (find_or_alloc-IsCache st aid tid h)

get_or-IsEntry : (st : FusionCache) (i : ℕ) → IsCache st → IsEntry (get_or st i zero_entry)
get_or-IsEntry [] i h = zero-IsEntry
get_or-IsEntry (e ∷ st) zero h = h.0
get_or-IsEntry (e ∷ st) (suc i) h = get_or-IsEntry st i h.1

-- A write to slot `i` that suits the entry there.
modify_at-IsCache :
    (st : FusionCache) (i : ℕ) (f : FusionEntry → FusionEntry)
    → IsCache st
    → IsEntry (f (get_or st i zero_entry))
    → IsCache (modify st i f)
unfolding modify
modify_at-IsCache [] i f h k = tt
modify_at-IsCache (e ∷ st) zero f h k = (k, h.1)
modify_at-IsCache (e ∷ st) (suc i) f h k = (h.0, modify_at-IsCache st i f h.1 k)

applied-IsCache :
    (st : FusionCache) (i : ℕ) (meta : Meta) (out_cap : ℕ) (got : List (List ℕ) × Bool)
    → IsCache (modify st i (rewritten got.0))
    → IsCache (applied st i meta out_cap got).0
applied-IsCache st i meta out_cap (vals, true) h = h
applied-IsCache st i meta out_cap (vals, false) h = h

receive_diff-IsCache :
    (st : FusionCache) (i : ℕ) (meta : Meta) (body : List ℕ) (out_cap : ℕ)
    → IsCache st
    → IsCache (receive_diff st i meta body out_cap).0
unfolding receive_diff
receive_diff-IsCache st i meta body out_cap h =
    let e = get_or st i zero_entry in
    let entry = get_or-IsEntry st i h in
    let mask_len = mask_len_of (length e.last_vals) in
    let mask = read_mask 0 (take mask_len body) in
    let (l, fit) = apply_slots-Fits 0 mask e.last_vals (drop mask_len body) entry.vals in
    let got = apply_slots 0 mask e.last_vals (drop mask_len body) in
    choose (length e.last_vals == 0 || length body == 0) (ltb (length body) mask_len)
      (applied st i meta out_cap got)
      (applied-IsCache st i meta out_cap got
        (modify_at-IsCache st i (rewritten got.0) h (revalued e got.0 entry l fit)))
  where
    choose :
        (b c : Bool) (out : Received)
        → IsCache out.0
        → (let result : Received = if b then (st, none) else if c then (st, none) else out in
            IsCache result.0)
    choose true c out k = h
    choose false true out k = h
    choose false false out k = k

receive_heart-IsCache :
    (st : FusionCache) (i : ℕ) (meta : Meta) (out_cap : ℕ)
    → IsCache st
    → IsCache (receive_heart st i meta out_cap).0
unfolding receive_heart
receive_heart-IsCache st i meta out_cap h =
    choose (length (get_or st i zero_entry).last_vals == 0) (rebuild_at st i meta out_cap) h
  where
    choose :
        (b : Bool) (out : Received)
        → IsCache out.0
        → (let result : Received = if b then (st, none) else out in IsCache result.0)
    choose true out k = h
    choose false out k = k

decode_apply-IsCache :
    (st : FusionCache) (packet : List ℕ) (out_cap : ℕ)
    → IsCache st
    → IsCache (decode_apply st packet out_cap).0
unfolding decode_apply receive_full
decode_apply-IsCache st packet out_cap h = decoded (decode_meta packet)
  where
    at :
        (meta : Meta) (body : List ℕ) (i : ℕ) (is_diff is_heart : Bool)
        → (let result : Received =
              if is_diff
              then receive_diff st i meta body out_cap
              else if is_heart
              then receive_heart st i meta out_cap
              else (st, none) in
            IsCache result.0)
    at meta body i true is_heart = receive_diff-IsCache st i meta body out_cap h
    at meta body i false true = receive_heart-IsCache st i meta out_cap h
    at meta body i false false = h

    known :
        (meta : Meta) (body : List ℕ) (o : Option ℕ)
        → IsCache (receive_known st meta body out_cap o).0
    known meta body none = h
    known meta body (some i) =
        at meta body i (meta.cmd == cmd_data_diff) (meta.cmd == cmd_data_heart)

    kinds :
        (meta : Meta) (is_full : Bool)
        → (let body : List ℕ = body_bytes packet meta in
            let result : Received =
              if is_full
              then receive_full st meta body out_cap
              else receive_known st meta body out_cap (find_entry st meta.source_aid meta.tid) in
            IsCache result.0)
    kinds meta true =
        learn-IsCache st meta.source_aid meta.tid (parse_body_slots (body_bytes packet meta))
          (λ p e. parse_body_slots-IsReport (body_bytes packet meta) p e) h
    kinds meta false = known meta (body_bytes packet meta) (find_entry st meta.source_aid meta.tid)

    decoded : (o : Option Meta) → IsCache (receive st packet out_cap o).0
    decoded none = h
    decoded (some meta) = kinds meta (meta.cmd == cmd_data_full)

-- The calls; a packet may hold any bytes.
pub data Call : Type 0 where
  encode_call : ℕ → ℕ → ℕ → List ℕ → ℕ → Call
  apply_call : List ℕ → ℕ → Call
  reset_call : Call

abbrev pub step : FusionCache → Call → FusionCache
step st (encode_call aid tid ts body cap) = (encode st aid tid ts body cap).0
step st (apply_call packet out_cap) = (decode_apply st packet out_cap).0
step st reset_call = state_init

unfoldable pub run : FusionCache → List Call → FusionCache
run st [] = st
run st (c ∷ calls) = run (step st c) calls

step-IsCache : (st : FusionCache) (c : Call) → IsCache st → IsCache (step st c)
step-IsCache st (encode_call aid tid ts body cap) h = encode-IsCache st aid tid ts body cap h
step-IsCache st (apply_call packet out_cap) h = decode_apply-IsCache st packet out_cap h
step-IsCache st reset_call h = All-replicate IsEntry fusion_max_entries zero_entry zero-IsEntry

run_from : (st : FusionCache) (calls : List Call) → IsCache st → IsCache (run st calls)
unfolding run
run_from st [] h = h
run_from st (c ∷ calls) h = run_from (step st c) calls (step-IsCache st c h)

-- After any history of calls from an empty cache, with any bodies and packets, each entry of the cache
-- fits its buffers: its header, at most 4 tags and twice as many slots, each with its final 0.
pub run-IsCache : (calls : List Call) → IsCache (run state_init calls)
run-IsCache calls =
    run_from state_init calls (All-replicate IsEntry fusion_max_entries zero_entry zero-IsEntry)
