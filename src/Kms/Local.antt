-- ===== src/Kms/Local.antt =====
-- genesis-core/src/kms/local.rs: a provider whose master key lies on disk in a hybrid envelope.
pub mod Laws
use genesis_operator.Prelude.{
  ℕ, String, [], ◌∷◌, ◌++◌, Bytes, length, take, drop, concat, ltb, if◌then◌else◌,
}
use genesis_operator.Errors.{GenesisError, kms_call_failed, pq_key_gen_failed}
use genesis_operator.KeyMaterial.{KeyMaterial, new}
use genesis_operator.Outcome.{Res, err, Ext, Eff, map_err}
use genesis_operator.Outcome.Effect.{pure, lift, call, ◌>>=◌}
use genesis_operator.Crypto.Hybrid.{new_cipher}
use genesis_operator.Envelope.Wire.{from_bytes, to_bytes}
use genesis_operator.Envelope.Hybrid.{Crypto, seal}
use genesis_operator.Envelope.Hybrid.Open.{open_envelope}
use genesis_operator.Kms.{KmsProvider}

-- `std::fs::read` and `std::fs::write` at a path.
pub record FileSystem (E : Type 0) : Type 0 where
  pub read : String → E → Ext Bytes × E
  pub write : String → Bytes → E → Ext (Unit {0}) × E

pub record LocalKmsProvider : Type 0 where
  pub master_key : KeyMaterial

abbrev failed : String → String → GenesisError
failed what e = kms_call_failed (concat (what ∷ e ∷ []))

module _ {E : Type 0} (c : Crypto E) (fs : FileSystem E) where
  unfoldable pub from_envelope : String → KeyMaterial → KeyMaterial → Eff E LocalKmsProvider
  from_envelope envelope_path age_identity mlkem_private_key = do
    input ← call (fs.read envelope_path) (failed "read envelope: ")
    envelope ← lift (from_bytes input)
    master_key_bytes ← lift (open_envelope c envelope age_identity mlkem_private_key)
    pure (record { master_key = new master_key_bytes })

  unfoldable pub generate : String → String → Bytes → KeyMaterial → Eff E LocalKmsProvider
  generate envelope_path age_recipient mlkem_public_key signing_key = do
    master_key_bytes ← call (c.fill 32) (λ e. pq_key_gen_failed (concat ("RNG: " ∷ e ∷ [])))
    envelope ← seal c master_key_bytes age_recipient mlkem_public_key signing_key
    let bytes = to_bytes envelope
    _ ← call (fs.write envelope_path bytes) (failed "write envelope: ")
    pure (record { master_key = new master_key_bytes })

module _ {E : Type 0} (c : Crypto E) (local : LocalKmsProvider) where
  unfoldable pub encrypt : Bytes → Eff E Bytes
  encrypt plaintext = do
    cipher ← lift (new_cipher local.master_key)
    nonce ← call (c.fill 12) (failed "RNG: ")
    ciphertext ← lift (map_err (c.sym.aead_encrypt cipher nonce plaintext) (failed "encrypt: "))
    pure (nonce ++ ciphertext)

  unfoldable pub decrypt : Bytes → Eff E Bytes
  decrypt ciphertext =
      if ltb (length ciphertext) 12
      then lift (err (kms_call_failed "ciphertext too short"))
      else (do
        cipher ← lift (new_cipher local.master_key)
        lift (
            map_err (c.sym.aead_decrypt cipher (take 12 ciphertext) (drop 12 ciphertext))
              (failed "decrypt: ")))

  abbrev pub provider : KmsProvider E
  provider = record { encrypt = encrypt; decrypt = decrypt; provider_name = "local" }
