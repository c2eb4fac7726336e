-- ===== src/Transporter/Tests.antt =====
-- The theorems on src/osfx_transporter_runtime.c at concrete drivers. The application's state is the
-- list of the payloads that were sent.
use osynaptic_fx.Prelude.{
  ℕ, zero, suc, ◌≡◌, ◌≢◌, refl, sym, ap, true, false, List, [], ◌∷◌, ◌++◌, get_elem?, none, some,
  inr,
}
use mathlib.Core.Option
use osynaptic_fx.Prelude.Slots.{find_index, find, count}
use osynaptic_fx.Solidity.Text.{pos}
use osynaptic_fx.Transporter.{
  ltz, Send, Driver, Drivers, drivers_init, register, is_named, is_vacant, is_ready, attempt,
  dispatch_named, dispatch_auto,
}
use osynaptic_fx.Transporter.Dispatch.{Sends, IsSent, dispatch_auto-IsSent, dispatch_auto_best}
use osynaptic_fx.Transporter.Register.{tries_after, register_lem, register_long_name}

abbrev Payloads : Type 0
Payloads = List (List ℕ)

abbrev works : Send Payloads
works payload w = (true, w ++ payload ∷ [])

abbrev refuses : Send Payloads
refuses payload w = (false, w)

abbrev good : Driver Payloads
good = record {
  name = b'g' ∷ [];
  priority = pos 5;
  enabled = true;
  send_fn = some works;
  max_retries = pos 1;
  used = true;
}

abbrev bad : Driver Payloads
bad = record {
  name = b'b' ∷ [];
  priority = pos 3;
  enabled = true;
  send_fn = some refuses;
  max_retries = pos 2;
  used = true;
}

abbrev table : Drivers Payloads
table = bad ∷ good ∷ []

abbrev good_sends : Sends Payloads (1 ∷ []) good
good_sends = record { send = works; its = refl; always = λ w. refl }

dispatch_auto-IsSent_example : IsSent Payloads (dispatch_auto Payloads table (1 ∷ []) [])
dispatch_auto-IsSent_example =
    dispatch_auto-IsSent Payloads table (1 ∷ []) [] 1 good refl refl refl good_sends

only_good :
    (j : ℕ) (e : Driver Payloads)
    → get_elem? table j ≡ some e
    → is_ready Payloads e ≡ true
    → j ≢ 1
    → ltz e.priority (pos 5) ≡ true
only_good zero e there ready ne =
    ap (λ (d : Driver Payloads). ltz d.priority (pos 5)) (sym (Option.some-injective bad e there))
only_good (suc zero) e there ready ne = absurd (ne refl)
only_good (suc (suc j)) e there ready ne = absurd (Option.none-ne-some e there)

dispatch_auto_best_example :
    dispatch_auto Payloads table (1 ∷ []) [] ≡ (some (b'g' ∷ []), (1 ∷ []) ∷ [])
dispatch_auto_best_example =
    dispatch_auto_best Payloads table (1 ∷ []) [] 1 good refl refl refl only_good good_sends

vacant_slot : find_index (is_vacant Payloads) (drivers_init Payloads) ≢ none
unfolding find_index
vacant_slot e = Option.none-ne-some 0 (sym e)

register_lem_example :
    ((register Payloads (drivers_init Payloads) (b'g' ∷ []) (pos 5) works).1 ≡ true)
    × (dispatch_named Payloads
          (register Payloads (drivers_init Payloads) (b'g' ∷ []) (pos 5) works).0
          (b'g' ∷ [])
          (1 ∷ [])
          []
        ≡ attempt Payloads works
            (1 ∷ [])
            (tries_after Payloads (find (is_named Payloads (b'g' ∷ [])) (drivers_init Payloads)))
            [])
register_lem_example =
    register_lem Payloads (drivers_init Payloads) (b'g' ∷ []) (pos 5) works (1 ∷ []) [] refl
      (inr vacant_slot)

-- 24 characters, which with the final 0 are one too many.
abbrev long_name : List ℕ
long_name =
    1 ∷ 1 ∷ 1 ∷ 1 ∷ 1 ∷ 1 ∷ 1 ∷ 1 ∷ 1 ∷ 1 ∷ 1 ∷ 1 ∷ 1 ∷ 1 ∷ 1 ∷ 1 ∷ 1 ∷ 1 ∷ 1 ∷ 1 ∷ 1 ∷ 1 ∷ 1 ∷ 1
    ∷ []

none_named : find_index (is_named Payloads long_name) (drivers_init Payloads) ≡ none
unfolding find_index
none_named = refl

first_vacant : find_index (is_vacant Payloads) (drivers_init Payloads) ≡ some 0
unfolding find_index
first_vacant = refl

register_long_name_example :
    ((register Payloads (drivers_init Payloads) long_name (pos 5) works).1 ≡ false)
    × (suc (
          count
            (is_vacant Payloads)
            (register Payloads (drivers_init Payloads) long_name (pos 5) works).0)
        ≡ count (is_vacant Payloads) (drivers_init Payloads))
register_long_name_example =
    register_long_name Payloads (drivers_init Payloads) long_name (pos 5) works 0 refl none_named
      first_vacant
