-- ===== src/Services/Table.antt =====
-- The names in the table of src/osfx_service_runtime.c.
use osynaptic_fx.Prelude.{
  if_true, ℕ, ◌≤◌, ◌≡◌, ◌≢◌, refl, sym, ap, ◌∙◌, subst, if◌then◌else◌, Bool, true, false, not, List,
  Option, none, some, arith, Bool-cases, inl, inr,
}
use mathlib.Core.Option
use osynaptic_fx.Prelude.Slots.{
  find, modify, count, bit, find_index-none, find_index-Finds, find-modify_found, find-modify_fresh,
  find-modify_ne, count-modify, find-none_iff,
}
use osynaptic_fx.Prelude.Texts.{has_room, same_text_refl, same_text→eq}
use osynaptic_fx.Services.{
  Slot, Runtime, Hooks, is_named, is_free, find_slot, alloc_slot, hooked, configured, named,
  register_at, register_ex, is_there, service_name_max, service_config_max, zero_slot, config_ok,
}

module _ (W : Type 0) where
  -- No name has two slots.
  abbrev pub IsUnique : Runtime W → Type 0
  IsUnique rt = (name : List ℕ) → count (is_named W name) rt ≤ 1

  -- The slot of a name, if it has one.
  abbrev pub slot_of : Runtime W → List ℕ → Option (Slot W)
  slot_of rt name = find (is_named W name) rt

  -- The slot of `name`, a blank one if it had none, went through `f`; no other name's changed.
  record Rewrites (rt : Runtime W) (name : List ℕ) (f : Slot W → Slot W) (rt' : Runtime W)
      : Type 0 where
    pub own : slot_of rt' name ≡ some (f (Option.get_or (slot_of rt name) (named W name)))
    pub others : (b : List ℕ) → b ≢ name → slot_of rt' b ≡ slot_of rt b
    pub unique : IsUnique rt → IsUnique rt'

  other_name :
      (b name : List ℕ) (s : Slot W) → b ≢ name → is_named W name s ≡ true → is_named W b s ≡ false
  other_name b name s ne h = elim (Bool-cases (is_named W b s)) [
    | inr no_match ↦ no_match
    | inl match ↦
        absurd (
          ne (sym (same_text→eq s.name b (ground arith)) ∙ same_text→eq s.name name (ground arith)))
  ]

  free_name : (b : List ℕ) (s : Slot W) → is_free W s ≡ true → is_named W b s ≡ false
  free_name b s h = ground arith

  module _ (h : Hooks W) (config : Option (List ℕ)) where
    abbrev filled : Slot W → Slot W
    filled s = configured W config (hooked W h s)

    is_named-filled : (b : List ℕ) (s : Slot W) → is_named W b (filled s) ≡ is_named W b s
    is_named-filled b s = by config
      where
        by : (c : Option (List ℕ)) → is_named W b (configured W c (hooked W h s)) ≡ is_named W b s
        by none = refl
        by (some c) = ground arith

    register_found :
        (rt : Runtime W) (name : List ℕ) (i : ℕ)
        → find_slot W rt name ≡ some i
        → Rewrites rt name filled (modify rt i filled)
    register_found rt name i e =
        let f = find_index-Finds (is_named W name) rt i e in
        record {
          own =
              find-modify_found (is_named W name) rt i filled f.entry e f.found
                (is_named-filled name f.entry ∙ f.passes)
              ∙ ap (λ o. some (filled (Option.get_or o (named W name)))) (sym f.found);
          others = λ b ne.
              let other = other_name b name f.entry ne f.passes in
              find-modify_ne (is_named W b) rt i filled f.entry f.there other
                (is_named-filled b f.entry ∙ other);
          unique = λ u b. omega (
            arith,
            u b,
            count-modify (is_named W b) rt i filled f.entry f.there,
            ap bit (is_named-filled b f.entry),
          );
        }

    register_new :
        (rt : Runtime W) (name : List ℕ) (i : ℕ)
        → find_slot W rt name ≡ none
        → alloc_slot W rt ≡ some i
        → Rewrites rt name filled (modify rt i (λ s. filled (named W name)))
    register_new rt name i absent e =
        let f = find_index-Finds (is_free W) rt i e in
        let gone = find_index-none (is_named W name) rt absent in
        let write = λ (s : Slot W). filled (named W name) in
        let mine = is_named-filled name (named W name) ∙ same_text_refl name in
        record {
          own =
              find-modify_fresh (is_named W name) rt i write f.entry gone f.there mine
              ∙ ap (λ o. some (filled (Option.get_or o (named W name)))) (sym gone);
          others = λ b ne.
              find-modify_ne (is_named W b) rt i write f.entry f.there
                (free_name b f.entry f.passes)
                (is_named-filled b (named W name)
                  ∙ other_name b name (named W name) ne (same_text_refl name));
          unique = λ u b. elim (Bool-cases (is_named W b (named W name))) [
            | inl match ↦
                let same = same_text→eq name b match in
                let none_there =
                  (find-none_iff (is_named W b) rt).0
                    (subst (λ n. slot_of rt n ≡ none) same gone) in
                ground (arith, none_there, count-modify (is_named W b) rt i write f.entry f.there)
            | inr differ ↦ ground (
              arith,
              u b,
              is_named-filled b (named W name),
              count-modify (is_named W b) rt i write f.entry f.there,
            )
          ];
        }

  register_at-Rewrites :
      (rt : Runtime W) (name : List ℕ) (h : Hooks W) (config : Option (List ℕ))
      (found vacant : Option ℕ)
      → find_slot W rt name ≡ found
      → alloc_slot W rt ≡ vacant
      → (register_at W rt name h config found vacant).1 ≡ true
      → Rewrites rt name
          (λ s. configured W config (hooked W h s))
          (register_at W rt name h config found vacant).0
  register_at-Rewrites rt name h config (some i) vacant e k ok = register_found h config rt name i e
  register_at-Rewrites rt name h config none none e k ok = cc
  register_at-Rewrites rt name h config none (some i) e k ok =
      elim (Bool-cases (has_room service_name_max name)) [
        | inl room ↦ rw room (register_new h config rt name i e k)
        | inr long ↦ ground (arith, long)
      ]

  checked-Rewrites :
      (b : Bool) (rt : Runtime W) (name : List ℕ) (f : Slot W → Slot W) (r : Runtime W × Bool)
      → (r.1 ≡ true → Rewrites rt name f r.0)
      → (if not b then (rt, false) else r).1 ≡ true
      → Rewrites rt name f (if not b then (rt, false) else r).0
  checked-Rewrites true rt name f r h ok = h ok
  checked-Rewrites false rt name f r h ok = cc

  register_ex-Rewrites :
      (rt : Runtime W) (name : List ℕ) (h : Hooks W) (config : Option (List ℕ))
      → (register_ex W rt name h config).1 ≡ true
      → Rewrites rt name
          (λ s. configured W config (hooked W h s))
          (register_ex W rt name h config).0
  unfolding register_ex
  register_ex-Rewrites rt name h config ok =
      checked-Rewrites (is_there h.init_fn) rt name _ _
        (register_at-Rewrites rt name h config (find_slot W rt name) (alloc_slot W rt) refl refl) ok

  -- A registration succeeds only with room for the configuration.
  register_at-config_ok :
      (rt : Runtime W) (name : List ℕ) (h : Hooks W) (config : Option (List ℕ))
      (found vacant : Option ℕ)
      → (register_at W rt name h config found vacant).1 ≡ true
      → config_ok W config ≡ true
  register_at-config_ok rt name h config (some i) vacant ok = ok
  register_at-config_ok rt name h config none none ok = cc
  register_at-config_ok rt name h config none (some i) ok =
      by (has_room service_name_max name)
        (modify rt i (λ s. configured W config (hooked W h (named W name))), config_ok W config)
        (modify rt i (λ s. zero_slot W), false) (λ e. e) ok
    where
      by :
          (room : Bool) (r q : Runtime W × Bool)
          → (r.1 ≡ true → config_ok W config ≡ true)
          → (if room then r else (q.0, false)).1 ≡ true
          → config_ok W config ≡ true
      by true r q k e = k e
      by false r q k e = cc

  register_ex-config_ok :
      (rt : Runtime W) (name : List ℕ) (h : Hooks W) (config : Option (List ℕ))
      → (register_ex W rt name h config).1 ≡ true
      → config_ok W config ≡ true
  unfolding register_ex
  register_ex-config_ok rt name h config ok =
      by (is_there h.init_fn)
        (register_at W rt name h config (find_slot W rt name) (alloc_slot W rt))
        (register_at-config_ok rt name h config (find_slot W rt name) (alloc_slot W rt)) ok
    where
      by :
          (b : Bool) (r : Runtime W × Bool)
          → (r.1 ≡ true → config_ok W config ≡ true)
          → (if not b then (rt, false) else r).1 ≡ true
          → config_ok W config ≡ true
      by true r k e = k e
      by false r k e = cc

  configured_lem :
      (config : Option (List ℕ)) (s : Slot W)
      → config_ok W config ≡ true
      → configured W config s ≡ record s { config = Option.get_or config s.config }
  configured_lem none s e = refl
  configured_lem (some c) s e =
      if_true (has_room service_config_max c) (record s { config = c }) s e

  -- The slot that a registration of the name starts from: the name's own, or a blank one.
  abbrev pub slot_before : Runtime W → List ℕ → Slot W
  slot_before rt name =
      Option.get_or (slot_of rt name) (record (zero_slot W) { used = true; name = name })

  -- In `rt'` the slot of `name` has the functions, the instance and, if one was given, the
  -- configuration of the registration, it is enabled, and is else as before; no other name's slot
  -- changed.
  pub record Registers (rt : Runtime W) (name : List ℕ) (h : Hooks W) (config : Option (List ℕ))
      (rt' : Runtime W) : Type 0 where
    pub own :
        slot_of rt' name
        ≡ some (record (slot_before rt name) {
          config = Option.get_or config (slot_before rt name).config;
          instance_ptr = h.instance_ptr;
          init_fn = h.init_fn;
          tick_fn = h.tick_fn;
          close_fn = h.close_fn;
          reload_fn = h.reload_fn;
          cmd_fn = h.cmd_fn;
          enabled = true;
        })
    pub others : (b : List ℕ) → b ≢ name → slot_of rt' b ≡ slot_of rt b
    pub unique : IsUnique rt → IsUnique rt'

  -- A registration that succeeds gives the name its slot, made anew from a free one or the one that it
  -- had, with the instance, the functions and, if one was given, the configuration of the registration,
  -- and enabled; all else in the slot, and every other name's slot, stays, and no name has two slots if
  -- none had two.
  pub register_ex-Registers :
      (rt : Runtime W) (name : List ℕ) (h : Hooks W) (config : Option (List ℕ))
      → (register_ex W rt name h config).1 ≡ true
      → Registers rt name h config (register_ex W rt name h config).0
  register_ex-Registers rt name h config ok =
      let done = register_ex-Rewrites rt name h config ok in
      record {
        own =
            done.own
            ∙ ap some (
                configured_lem config (hooked W h (slot_before rt name))
                  (register_ex-config_ok rt name h config ok));
        others = done.others;
        unique = done.unique;
      }
