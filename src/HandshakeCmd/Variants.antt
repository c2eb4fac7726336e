-- ===== src/HandshakeCmd/Variants.antt =====
-- Plain and secure data commands of src/osfx_handshake_cmd.c.
use osynaptic_fx.Prelude.{ℕ, ◌≡◌, ◌≢◌, ◌⊎◌, inl, inr, ◌↔◌, arith, refl}
use osynaptic_fx.HandshakeCmd.{
  normalize_data, secure_variant, cmd_data_full, cmd_data_diff, cmd_data_heart, cmd_data_full_sec,
  cmd_data_diff_sec, cmd_data_heart_sec,
}

-- One of the three commands that carry a body of readings in the clear.
abbrev pub IsDataCommand : ℕ → Type 0
IsDataCommand cmd = (cmd ≡ cmd_data_full) ⊎ (cmd ≡ cmd_data_diff) ⊎ (cmd ≡ cmd_data_heart)

abbrev pub IsSecureCommand : ℕ → Type 0
IsSecureCommand cmd =
    (cmd ≡ cmd_data_full_sec) ⊎ (cmd ≡ cmd_data_diff_sec) ⊎ (cmd ≡ cmd_data_heart_sec)

-- The secure variant of a data command is a secure command, and normalises back to it.
pub normalize_data-secure_variant :
    (cmd : ℕ)
    → IsDataCommand cmd
    → IsSecureCommand (secure_variant cmd) × (normalize_data (secure_variant cmd) ≡ cmd)
unfolding normalize_data secure_variant
normalize_data-secure_variant cmd (inl e) = rw e (inl refl, refl)
normalize_data-secure_variant cmd (inr (inl e)) = rw e (inr (inl refl), refl)
normalize_data-secure_variant cmd (inr (inr e)) = rw e (inr (inr refl), refl)

-- Normalising changes exactly the secure commands.
pub normalize_data-ne_iff : (cmd : ℕ) → (normalize_data cmd ≢ cmd) ↔ IsSecureCommand cmd
unfolding normalize_data
normalize_data-ne_iff cmd = ((λ h. ground arith), (λ h. ground arith))

-- A data command is its own normal form.
pub normalize_data_plain : (cmd : ℕ) → IsDataCommand cmd → normalize_data cmd ≡ cmd
unfolding normalize_data
normalize_data_plain cmd h = ground arith
