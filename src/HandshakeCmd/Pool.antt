-- ===== src/HandshakeCmd/Pool.antt =====
-- `osfx_parse_id_pool_response` of src/osfx_handshake_cmd.c against the wire format that
-- include/osfx_handshake_cmd.h describes.
use mathlib.Core.List.{append_assoc}
use osynaptic_fx.Prelude.{
  ℕ, zero, suc, ◌+◌, ◌*◌, ◌%◌, ◌^◌, ◌<◌, ◌≤◌, ◌≡◌, refl, ap, ◌∙◌, sym, List, [], ◌∷◌, ◌++◌, length,
  some, arith, take, get_or-append, length-append, All,
}
use osynaptic_fx.Prelude.Words.{u16_bytes, u32_bytes, read_u32, byte_at}
use osynaptic_fx.Prelude.Words.Read.{read_u16_lem, read_u32_lem}
use osynaptic_fx.HandshakeCmd.{parse_id_pool_response, IdPool, read_pool, cmd_id_pool_res}

-- The ids of a pool as the wire format lays them out.
unfoldable pub pool_bytes : List ℕ → List ℕ
pool_bytes [] = []
pool_bytes (aid ∷ aids) = u32_bytes aid ++ pool_bytes aids

length-pool_bytes : (aids : List ℕ) → length (pool_bytes aids) ≡ length aids * 4
unfolding pool_bytes
length-pool_bytes [] = refl
length-pool_bytes (aid ∷ aids) = omega (arith, length-pool_bytes aids)

abbrev pub pool_response : ℕ → List ℕ → List ℕ
pool_response seq aids =
    cmd_id_pool_res ∷ u16_bytes seq ++ u16_bytes (length aids) ++ pool_bytes aids

abbrev AreIds : List ℕ → Type 0
AreIds = All (λ aid. aid < 2 ^ 32)

read_one :
    (pre rest : List ℕ) (aid : ℕ)
    → read_u32 (pre ++ (u32_bytes aid ++ rest)) (length pre) ≡ aid % 2 ^ 32
read_one pre rest aid =
    read_u32_lem (pre ++ (u32_bytes aid ++ rest)) (length pre) aid
      (ap (byte_at (pre ++ (u32_bytes aid ++ rest))) (no_offset (length pre))
        ∙ get_or-append pre (u32_bytes aid ++ rest) 0 0)
      (get_or-append pre (u32_bytes aid ++ rest) 1 0)
      (get_or-append pre (u32_bytes aid ++ rest) 2 0)
      (get_or-append pre (u32_bytes aid ++ rest) 3 0)
  where
    no_offset : (n : ℕ) → n ≡ n + 0
    no_offset n = omega arith

-- The ids behind any prefix are read one by one.
read_pool-take :
    (aids pre packet : List ℕ) (left i : ℕ)
    → AreIds aids
    → packet ≡ pre ++ pool_bytes aids
    → length pre ≡ 5 + i * 4
    → left ≤ length aids
    → read_pool packet left i ≡ take left aids
unfolding read_pool pool_bytes
read_pool-take aids pre packet zero i h e at le = refl
read_pool-take [] pre packet (suc left) i h e at le = absurd (omega arith)
read_pool-take (aid ∷ aids) pre packet (suc left) i h e at le =
    let head : read_u32 packet (5 + i * 4) ≡ aid =
      ap (read_u32 packet) (sym at)
      ∙ ap (λ p. read_u32 p (length pre)) e
      ∙ read_one pre (pool_bytes aids) aid
      ∙ omega arith in
    let tail =
      read_pool-take aids (pre ++ u32_bytes aid) packet left (i + 1) h.1
        (e ∙ sym (append_assoc pre (u32_bytes aid) (pool_bytes aids)))
        (omega (arith, length-append pre (u32_bytes aid))) (omega arith) in
    cc (head, tail)

abbrev packet_head : ℕ → ℕ → List ℕ
packet_head seq n = cmd_id_pool_res ∷ u16_bytes seq ++ u16_bytes n

take-all : (n : ℕ) (xs : List ℕ) → length xs ≤ n → take n xs ≡ xs
take-all zero [] h = refl
take-all zero (x ∷ xs) h = absurd (omega arith)
take-all (suc n) [] h = refl
take-all (suc n) (x ∷ xs) h = ap (◌∷◌ x) (take-all n xs (omega arith))

-- A response that carries fewer than 65536 ids parses to the ids that fit a capacity below 65536.
pub parse_id_pool_response-take :
    (seq cap : ℕ) (aids : List ℕ)
    → seq < 2 ^ 16
    → cap < 2 ^ 16
    → length aids < 2 ^ 16
    → AreIds aids
    → parse_id_pool_response (pool_response seq aids) cap
      ≡ some (record { seq = seq; pool = take cap aids })
unfolding parse_id_pool_response
parse_id_pool_response-take seq cap aids hs hc hn h =
    let packet = pool_response seq aids in
    ground (
      arith,
      read_u16_lem packet 1 seq refl refl,
      read_u16_lem packet 3 (length aids) refl refl,
      length-pool_bytes aids,
      read_pool-take aids (packet_head seq (length aids)) packet (length aids) 0 h refl refl,
      read_pool-take aids (packet_head seq (length aids)) packet cap 0 h refl refl,
      take-all cap aids,
      take-all (length aids) aids,
    )

-- The capacity is cut to 16 bits, so with a capacity that is a multiple of 65536 no response, of
-- whatever length, yields an id.
pub parse_id_pool_response_cap_wraps :
    (packet : List ℕ) (k : ℕ) (p : IdPool)
    → parse_id_pool_response packet (k * 2 ^ 16) ≡ some p
    → p.pool ≡ []
unfolding parse_id_pool_response read_pool
parse_id_pool_response_cap_wraps packet k p e =
    let wraps : k * 2 ^ 16 % 2 ^ 16 ≡ 0 = omega arith in ground (arith, wraps)
