-- ===== src/Kms.antt =====
-- genesis-core/src/kms/mod.rs: the trait `KmsProvider`, with the contract that its users rely on,
-- and the provider that does nothing; `envelope_encrypt` and `envelope_decrypt` of envelope.rs.
pub mod Environment
pub mod Mock
pub mod Local
pub mod Aws
pub mod Gcp
pub mod Azure
pub mod Config
use genesis_operator.Prelude.{String, ◌≡◌, Bytes}
use genesis_operator.Outcome.{ok, Eff}
use genesis_operator.Outcome.Effect.{pure}

pub record KmsProvider (E : Type 0) : Type 0 where
  pub encrypt : Bytes → Eff E Bytes
  pub decrypt : Bytes → Eff E Bytes
  pub provider_name : String

-- A blob that `encrypt` returned decrypts to its plaintext whenever it decrypts, at any later time.
pub record KmsContract {E : Type 0} (kms : KmsProvider E) : Type 0 where
  pub unwraps :
      (plaintext ciphertext result : Bytes) (env1 env2 env3 env4 : E)
      → kms.encrypt plaintext env1 ≡ (ok ciphertext, env2)
      → kms.decrypt ciphertext env3 ≡ (ok result, env4)
      → result ≡ plaintext

-- `NullKmsProvider`
abbrev pub null_kms_provider : {E : Type 0} → KmsProvider E
null_kms_provider = record { encrypt = pure; decrypt = pure; provider_name = "null-dev" }

module _ {E : Type 0} (kms : KmsProvider E) where
  abbrev pub envelope_encrypt : Bytes → Eff E Bytes
  envelope_encrypt key_bytes = kms.encrypt key_bytes

  abbrev pub envelope_decrypt : Bytes → Eff E Bytes
  envelope_decrypt ciphertext = kms.decrypt ciphertext
