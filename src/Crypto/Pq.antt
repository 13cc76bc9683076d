-- ===== src/Crypto/Pq.antt =====
-- genesis-core/src/crypto/pq.rs over the `ml-kem` and `ml-dsa` crates, which are parameters.
pub mod Laws
use genesis_operator.Prelude.{
  ℕ, String, Bool, Option, none, some, [], ◌∷◌, Bytes, length, concat, decimal, ◌==◌, if◌then◌else◌,
}
use genesis_operator.Errors.{
  pq_key_gen_failed, pq_encapsulate_failed, pq_decapsulate_failed, pq_sign_failed, pq_verify_failed,
}
use genesis_operator.KeyMaterial.{KeyMaterial, new, as_bytes}
use genesis_operator.Outcome.{Res, ok, err, panicked, Ext, good, bad, Eff, ok_or, map_err, res_map}
use genesis_operator.Outcome.Effect.{pure, act, lift, ◌>>=◌}
use genesis_operator.Crypto.Interface.{PqOps}

-- ML-KEM-1024. The sizes are those of the fixed arrays that `try_into` converts to.
pub record MlKemCrate (E : Type 0) : Type 1 where
  pub DecapsulationKey : Type 0
  pub EncapsulationKey : Type 0
  pub seed_size : ℕ
  pub encapsulation_key_size : ℕ
  pub ciphertext_size : ℕ
  pub generate : E → (DecapsulationKey × EncapsulationKey) × E
  pub key_bytes : EncapsulationKey → Bytes
  pub to_seed : DecapsulationKey → Option Bytes
  pub from_seed : Bytes → DecapsulationKey
  pub new_key : Bytes → Option EncapsulationKey
  pub encapsulate : EncapsulationKey → E → (Bytes × Bytes) × E
  pub decapsulate : DecapsulationKey → Bytes → Bytes

-- ML-DSA-87. `key_gen` panics when the random generator of the system fails.
pub record MlDsaCrate (E : Type 0) : Type 1 where
  pub SigningKey : Type 0
  pub VerifyingKey : Type 0
  pub Signature : Type 0
  pub seed_size : ℕ
  pub verifying_key_size : ℕ
  pub key_gen : E → Ext SigningKey × E
  pub to_seed : SigningKey → Bytes
  pub from_seed : Bytes → SigningKey
  pub verifying_key : SigningKey → VerifyingKey
  pub encode_key : VerifyingKey → Bytes
  pub decode_key : Bytes → VerifyingKey
  pub sign : SigningKey → Bytes → Signature
  pub encode_signature : Signature → Bytes
  pub decode_signature : Bytes → Ext Signature
  pub verify : VerifyingKey → Bytes → Signature → Bool

-- `UnwrapErr`: a failure of the generator is a panic.
abbrev unwrap {ℓ} : {A : Type ℓ} → Ext A → Res A
unwrap (good a) = ok a
unwrap (bad e) = panicked e

abbrev unwrap_call : {E A : Type 0} → (E → Ext A × E) → Eff E A
unwrap_call c env = (unwrap (c env).0, (c env).1)

module _ {E : Type 0} (kem : MlKemCrate E) where
  open kem use {
    seed_size, encapsulation_key_size, ciphertext_size, generate, key_bytes, to_seed, from_seed,
    new_key, encapsulate, decapsulate,
  }

  unfoldable pub mlkem_generate_keypair : Eff E (Bytes × KeyMaterial)
  mlkem_generate_keypair = do
    (dk, ek) ← act generate
    let ek_bytes = key_bytes ek
    dk_seed ← lift (ok_or (to_seed dk) (pq_key_gen_failed "seed not available"))
    pure (ek_bytes, new dk_seed)

  unfoldable pub mlkem_encapsulate : Bytes → Eff E (Bytes × Bytes)
  mlkem_encapsulate public_key =
      if length public_key == encapsulation_key_size
      then (do
        ek ← lift (ok_or (new_key public_key) (pq_encapsulate_failed "invalid encapsulation key"))
        act (encapsulate ek))
      else lift (
          err (
            pq_encapsulate_failed (
              concat
                ("invalid encapsulation key length: got " ∷ decimal (length public_key) ∷ []))))

  unfoldable pub mlkem_decapsulate : KeyMaterial → Bytes → Res Bytes
  mlkem_decapsulate private_key ciphertext =
      if length (as_bytes private_key) == seed_size
      then if length ciphertext == ciphertext_size
        then ok (decapsulate (from_seed (as_bytes private_key)) ciphertext)
        else err (
            pq_decapsulate_failed
              (concat ("invalid ciphertext length: got " ∷ decimal (length ciphertext) ∷ [])))
      else err (
          pq_decapsulate_failed (
            concat (
              "invalid decapsulation key seed length: expected 64, got "
              ∷ decimal (length (as_bytes private_key))
              ∷ [])))

module _ {E : Type 0} (dsa : MlDsaCrate E) where
  open dsa use {
    seed_size, verifying_key_size, key_gen, to_seed, from_seed, verifying_key, encode_key,
    decode_key, sign, encode_signature, decode_signature, verify,
  }

  unfoldable pub mldsa_generate_keypair : Eff E (Bytes × KeyMaterial)
  mldsa_generate_keypair = do
    kp ← unwrap_call key_gen
    let vk_bytes = encode_key (verifying_key kp)
    let seed = to_seed kp
    pure (vk_bytes, new seed)

  unfoldable pub mldsa_sign : KeyMaterial → Bytes → Res Bytes
  mldsa_sign private_key message =
      if length (as_bytes private_key) == seed_size
      then ok (encode_signature (sign (from_seed (as_bytes private_key)) message))
      else err (
          pq_sign_failed (
            concat (
              "invalid signing key seed length: expected 32, got "
              ∷ decimal (length (as_bytes private_key))
              ∷ [])))

  unfoldable pub mldsa_verify : Bytes → Bytes → Bytes → Res Bool
  mldsa_verify public_key message signature =
      if length public_key == verifying_key_size
      then res_map (verify (decode_key public_key) message) (
          map_err (decode_signature signature)
            (λ e. pq_verify_failed (concat ("signature decode: " ∷ e ∷ []))))
      else err (
          pq_verify_failed
            (concat ("invalid verifying key length: got " ∷ decimal (length public_key) ∷ [])))

  -- The verifying key that `HybridEnvelope::seal` puts into the envelope.
  unfoldable pub signing_public_key : KeyMaterial → Res Bytes
  signing_public_key signing_key =
      if length (as_bytes signing_key) == seed_size
      then ok (encode_key (verifying_key (from_seed (as_bytes signing_key))))
      else err (pq_sign_failed "invalid seed")

abbrev pub pq_ops : {E : Type 0} → MlKemCrate E → MlDsaCrate E → PqOps E
pq_ops kem dsa = record {
  mlkem_generate_keypair = mlkem_generate_keypair kem;
  mlkem_encapsulate = mlkem_encapsulate kem;
  mlkem_decapsulate = mlkem_decapsulate kem;
  mldsa_generate_keypair = mldsa_generate_keypair dsa;
  mldsa_sign = mldsa_sign dsa;
  mldsa_verify = mldsa_verify dsa;
  signing_public_key = signing_public_key dsa;
}
