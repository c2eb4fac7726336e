-- ===== src/Easy.antt =====
-- src/osfx_easy.c and include/osfx_easy.h: a node's context, with its id, its allocator and the cache of
-- what it sent, without `osfx_easy_save_ids` and `osfx_easy_load_ids`. A null text is an empty one, as
-- the code takes them alike.
pub mod Report
mod Tests
use osynaptic_fx.Prelude.{
  ℕ, ◌==◌, ltb, if◌then◌else◌, Bool, true, false, ◌||◌, List, [], ◌∷◌, length, Option, none, some,
}
use mathlib.Core.Option
use osynaptic_fx.Prelude.Texts.{has_room}
use osynaptic_fx.HandshakeCmd.{cmd_data_full, cmd_data_diff, cmd_data_heart}
use osynaptic_fx.IdAllocator.Reals.{Float}
use osynaptic_fx.IdAllocator.{Allocator, allocator_init}
use osynaptic_fx.IdAllocator.Calls.{allocate, touch}
use osynaptic_fx.FusionState.{FusionCache, state_init}
use osynaptic_fx.FusionState.Encode.{Sent}
use osynaptic_fx.TemplateGrammar.{tmpl_id_max, tmpl_state_max}
use osynaptic_fx.Standardization.{Double, Catalog}
use osynaptic_fx.CoreFacade.{
  SensorInput, encode_sensor_packet_auto, encode_multi_sensor_packet_auto,
}

-- "NODE_A" and "ONLINE".
abbrev pub node_a : List ℕ
node_a = b'N' ∷ b'O' ∷ b'D' ∷ b'E' ∷ b'_' ∷ b'A' ∷ []

abbrev pub online : List ℕ
online = b'O' ∷ b'N' ∷ b'L' ∷ b'I' ∷ b'N' ∷ b'E' ∷ []

abbrev pub or_fallback : List ℕ → List ℕ → List ℕ
or_fallback [] fallback = fallback
or_fallback (c ∷ value) fallback = c ∷ value

abbrev pub copy_with_fallback : ℕ → List ℕ → List ℕ → Option (List ℕ)
copy_with_fallback cap value fallback =
    let src = or_fallback value fallback in if has_room cap src then some src else none

-- `osfx_easy_cmd_name`.
unfoldable pub cmd_name : ℕ → List ℕ
cmd_name cmd =
    if cmd == cmd_data_full
    then b'F' ∷ b'U' ∷ b'L' ∷ b'L' ∷ []
    else if cmd == cmd_data_diff
    then b'D' ∷ b'I' ∷ b'F' ∷ b'F' ∷ []
    else if cmd == cmd_data_heart
    then b'H' ∷ b'E' ∷ b'A' ∷ b'R' ∷ b'T' ∷ []
    else b'U' ∷ b'N' ∷ b'K' ∷ b'N' ∷ b'O' ∷ b'W' ∷ b'N' ∷ []

module _ (F : Float) where
  -- `id_alloc` is `none` while `id_alloc_ready` is 0, when the code does not read it.
  pub record EasyContext : Type 0 where
    pub tx_state : FusionCache
    pub id_alloc : Option (Allocator F)
    pub aid : ℕ
    pub tid : ℕ
    pub aid_ready : Bool
    pub node_id : List ℕ
    pub node_state : List ℕ

  abbrev pub easy_init : EasyContext
  easy_init = record {
    tx_state = state_init;
    id_alloc = none;
    aid = 0;
    tid = 2;
    aid_ready = false;
    node_id = node_a;
    node_state = online;
  }

  abbrev pub with_state : EasyContext → Option (List ℕ) → EasyContext × Bool
  with_state ctx none = (ctx, false)
  with_state ctx (some s) = (record ctx { node_state = s }, true)

  abbrev pub with_node : EasyContext → Option (List ℕ) → List ℕ → EasyContext × Bool
  with_node ctx none node_state = (ctx, false)
  with_node ctx (some i) node_state =
      with_state (record ctx { node_id = i }) (copy_with_fallback tmpl_state_max node_state online)

  -- The id is written also if the state is too long.
  unfoldable pub set_node : EasyContext → List ℕ → List ℕ → EasyContext × Bool
  set_node ctx node_id node_state =
      with_node ctx (copy_with_fallback tmpl_id_max node_id node_a) node_state

  abbrev pub set_tid : EasyContext → ℕ → EasyContext
  set_tid ctx tid = record ctx { tid = tid }

  abbrev pub set_aid : EasyContext → ℕ → EasyContext
  set_aid ctx aid = record ctx { aid = aid; aid_ready = ltb 0 aid }

  unfoldable pub init_id_allocator : EasyContext → ℕ → ℕ → ℕ → ℕ → EasyContext × Bool
  init_id_allocator ctx max_entries start_id end_id default_lease_seconds =
      if ltb end_id start_id then (ctx, false) else (
        record ctx {
          id_alloc = some (allocator_init F max_entries start_id end_id default_lease_seconds);
        },
        true,
      )

  -- `none` if the loop of the allocator runs out of fuel.
  abbrev pub allocated :
      EasyContext → Option (Allocator F × Option ℕ) → Option (EasyContext × Option ℕ)
  allocated ctx none = none
  allocated ctx (some (a, none)) = some (record ctx { id_alloc = some a }, none)
  allocated ctx (some (a, some aid)) =
      some (record ctx { id_alloc = some a; aid = aid; aid_ready = true }, some aid)

  abbrev pub allocate_from :
      EasyContext → Option (Allocator F) → ℕ → Option (EasyContext × Option ℕ)
  allocate_from ctx none now = some (ctx, none)
  allocate_from ctx (some a) now = allocated ctx (allocate F a now)

  unfoldable pub allocate_aid : EasyContext → ℕ → Option (EasyContext × Option ℕ)
  allocate_aid ctx now = allocate_from ctx ctx.id_alloc now

  abbrev pub touched : EasyContext → Option (Allocator F) → ℕ → EasyContext × Bool
  touched ctx none now = (ctx, false)
  touched ctx (some a) now =
      let (a', ok) = touch F a ctx.aid now in (record ctx { id_alloc = some a' }, ok)

  unfoldable pub touch_aid : EasyContext → ℕ → EasyContext × Bool
  touch_aid ctx now = if ctx.aid_ready then touched ctx ctx.id_alloc now else (ctx, false)

  abbrev pub after_sent : EasyContext → Sent → EasyContext × Option (List ℕ × ℕ)
  after_sent ctx (st, out) = (record ctx { tx_state = st }, out)

  module _ (D : Double) (lib : Catalog D) where
    unfoldable pub encode_sensor_auto :
        EasyContext → ℕ → List ℕ → D.Real → List ℕ → ℕ → EasyContext × Option (List ℕ × ℕ)
    encode_sensor_auto ctx timestamp_raw sensor_id input_value input_unit out_cap =
        if ctx.aid_ready
        then after_sent ctx (
            encode_sensor_packet_auto D lib ctx.tx_state ctx.aid ctx.tid timestamp_raw sensor_id
              input_value input_unit out_cap)
        else (ctx, none)

    unfoldable pub encode_multi_sensor_auto :
        EasyContext → ℕ → List (SensorInput D lib) → ℕ → EasyContext × Option (List ℕ × ℕ)
    encode_multi_sensor_auto ctx timestamp_raw sensors out_cap =
        if ctx.aid_ready
        then after_sent ctx (
            encode_multi_sensor_packet_auto D lib ctx.tx_state ctx.aid ctx.tid timestamp_raw
              ctx.node_id ctx.node_state sensors out_cap)
        else (ctx, none)
