-- ===== src/Crypto/Pq/Laws.antt =====
-- `crypto::pq` keeps its contract when the `ml-kem` and `ml-dsa` crates keep theirs.
use genesis_operator.Prelude.{true, some, ◌≡◌, Bytes, length, arith}
use genesis_operator.KeyMaterial.{KeyMaterial, as_bytes}
use genesis_operator.Outcome.{ok, good}
use genesis_operator.Crypto.Interface.{KemPair, PqContract}
use genesis_operator.Crypto.Pq.{
  MlKemCrate, MlDsaCrate, mlkem_generate_keypair, mlkem_encapsulate, mlkem_decapsulate, mldsa_sign,
  mldsa_verify, signing_public_key, pq_ops,
}

module _ {E : Type 0} (kem : MlKemCrate E) where
  open kem use {
    DecapsulationKey, EncapsulationKey, seed_size, ciphertext_size, generate, key_bytes, to_seed,
    from_seed, new_key, encapsulate, decapsulate,
  }

  -- FIPS 203: sizes, round trips of keys, and correctness of decapsulation for a generated pair.
  pub record MlKemLaws : Type 0 where
    pub decodes_key : (ek : EncapsulationKey) → new_key (key_bytes ek) ≡ some ek
    pub reloads :
        (dk : DecapsulationKey) (seed : Bytes) → to_seed dk ≡ some seed → from_seed seed ≡ dk
    pub sized_seed :
        (dk : DecapsulationKey) (seed : Bytes) → to_seed dk ≡ some seed → length seed ≡ seed_size
    pub sized_ciphertext :
        (ek : EncapsulationKey) (env : E) → length (encapsulate ek env).0.0 ≡ ciphertext_size
    pub agrees :
        (env0 env : E)
        → let (dk, ek) = (generate env0).0 in
          decapsulate dk (encapsulate ek env).0.0 ≡ (encapsulate ek env).0.1

module _ {E : Type 0} (dsa : MlDsaCrate E) where
  open dsa use {
    SigningKey, VerifyingKey, Signature, verifying_key_size, verifying_key, encode_key, decode_key,
    sign, encode_signature, decode_signature, verify,
  }

  -- FIPS 204: sizes, round trips of encodings, and a signature verifies under its key.
  pub record MlDsaLaws : Type 0 where
    pub sized_key : (vk : VerifyingKey) → length (encode_key vk) ≡ verifying_key_size
    pub decodes_key : (vk : VerifyingKey) → decode_key (encode_key vk) ≡ vk
    pub decodes_signature : (s : Signature) → decode_signature (encode_signature s) ≡ good s
    pub verifies : (sk : SigningKey) (m : Bytes) → verify (verifying_key sk) m (sign sk m) ≡ true

module _ {E : Type 0} (kem : MlKemCrate E) (dsa : MlDsaCrate E) (kem_laws : MlKemLaws kem)
    (dsa_laws : MlDsaLaws dsa) where
  sign_verifies :
      (key : KeyMaterial) (message signature public_key : Bytes)
      → mldsa_sign dsa key message ≡ ok signature
      → signing_public_key dsa key ≡ ok public_key
      → mldsa_verify dsa public_key message signature ≡ ok true
  unfolding mldsa_sign mldsa_verify signing_public_key
  sign_verifies key message signature public_key signed published =
      let sk = dsa.from_seed (as_bytes key) in
      ground (
        arith,
        dsa_laws.sized_key (dsa.verifying_key sk),
        dsa_laws.decodes_key (dsa.verifying_key sk),
        dsa_laws.decodes_signature (dsa.sign sk message),
        dsa_laws.verifies sk message,
      )

  -- The seed that a generated pair is stored as.
  generated_seed :
      (public_key : Bytes) (key : KeyMaterial) (env env' : E)
      → mlkem_generate_keypair kem env ≡ (ok (public_key, key), env')
      → let (dk, ek) = (kem.generate env).0 in
        (kem.to_seed dk ≡ some (as_bytes key)) × (public_key ≡ kem.key_bytes ek)
  unfolding mlkem_generate_keypair
  generated_seed public_key key env env' h = ground arith

  generated_pair :
      (public_key : Bytes) (key : KeyMaterial) (env env' : E)
      → mlkem_generate_keypair kem env ≡ (ok (public_key, key), env')
      → KemPair (pq_ops kem dsa) public_key key
  unfolding mlkem_encapsulate mlkem_decapsulate
  generated_pair public_key key env env' h =
      let (seed, named) = generated_seed public_key key env env' h in
      let (dk, ek) = (kem.generate env).0 in
      record {
        agrees = λ ciphertext shared env1 env2 e. ground (
          arith,
          kem_laws.decodes_key ek,
          kem_laws.reloads dk (as_bytes key),
          kem_laws.sized_seed dk (as_bytes key),
          kem_laws.sized_ciphertext ek env1,
          kem_laws.agrees env env1,
        );
      }

  -- With crates that keep their documented laws, a generated ML-KEM pair agrees on the secret, and
  -- what a signing key signs verifies under the public key that the envelope names for it.
  pub pq_ops-contract : PqContract (pq_ops kem dsa)
  pq_ops-contract = record { generates = generated_pair; verifies = sign_verifies }
