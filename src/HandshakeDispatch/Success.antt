-- ===== src/HandshakeDispatch/Success.antt =====
-- `ok` in the results of src/osfx_handshake_dispatch.c, and the value that it returns.
use osynaptic_fx.Prelude.{
  ℕ, ◌≡◌, refl, sym, ◌∙◌, if◌then◌else◌, Bool, true, false, not, List, Option, none, some, arith,
}
use osynaptic_fx.HandshakeCmd.{build_secure_dict_ready, build_secure_channel_ack}
use osynaptic_fx.FusionPacket.{Meta}
use osynaptic_fx.SecureSession.{
  Store, Verdict, check_and_update_timestamp, should_encrypt, is_channel_confirmed,
}
use osynaptic_fx.HandshakeDispatch.{
  Result, answer_plain, answer_secure, answer_checked, answer_data, write_response, write_built,
}

pub ok-write_response : (r : Result) (bytes : List ℕ) → (write_response r bytes).ok ≡ r.ok
ok-write_response r bytes = ground arith

pub ok-write_built : (r : Result) (o : Option (List ℕ)) → (write_built r o).ok ≡ r.ok
ok-write_built r none = refl
ok-write_built r (some bytes) = ok-write_response r bytes

-- The value that a part of the handler returns is `ok`.
pub record Agrees {ℓ} {A : Type ℓ} (p : A × Result × Bool) : Type 0 where
  pub same : p.2 ≡ p.1.ok

pub agrees {ℓ} : {A : Type ℓ} {x : A} {r : Result} {b : Bool} → b ≡ r.ok → Agrees (x, r, b)
agrees h = record { same = h }

pub Agrees-if {ℓ} :
    {A : Type ℓ} (b : Bool) {x y : A × Result × Bool}
    → Agrees x
    → Agrees y
    → Agrees (if b then x else y)
Agrees-if true h k = h
Agrees-if false h k = k

pub answer_checked-Agrees :
    (st : Store) (o : Verdict) (now : ℕ) (meta : Meta) (plain : Bool) (r : Result)
    → r.ok ≡ true
    → Agrees (answer_checked st o now meta plain r)
unfolding answer_checked answer_plain answer_secure
answer_checked-Agrees st Verdict.replay now meta plain r h = agrees refl
answer_checked-Agrees st Verdict.out_of_order now meta plain r h = agrees refl
answer_checked-Agrees st Verdict.accept now meta true r h =
    Agrees-if (should_encrypt st meta.source_aid) (agrees (sym h)) (
      agrees (
        sym (
          ok-write_built r (build_secure_dict_ready meta.source_aid meta.timestamp_raw (some 16))
          ∙ h)))
answer_checked-Agrees st Verdict.accept now meta false r h =
    Agrees-if (not (should_encrypt st meta.source_aid)) (agrees refl) (
      Agrees-if (is_channel_confirmed st meta.source_aid) (agrees (sym h))
        (agrees (sym (ok-write_built r (build_secure_channel_ack meta.source_aid (some 8)) ∙ h))))

pub answer_data-Agrees :
    (st : Option Store) (now : ℕ) (o : Option Meta) (plain : Bool) (r : Result)
    → Agrees (answer_data st now o plain r)
unfolding answer_data
answer_data-Agrees st now none plain r = agrees refl
answer_data-Agrees none now (some meta) plain r =
    Agrees-if (not meta.crc16_ok) (agrees refl) (agrees refl)
answer_data-Agrees (some st) now (some meta) plain r =
    let check = check_and_update_timestamp st meta.source_aid meta.timestamp_raw now in
    Agrees-if (not meta.crc16_ok) (agrees refl)
      (agrees (answer_checked-Agrees check.0 check.1 now meta plain _ refl).same)
