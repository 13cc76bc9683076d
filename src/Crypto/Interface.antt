-- ===== src/Crypto/Interface.antt =====
-- What the rest of the crate uses of `crypto::age` and `crypto::pq`: the operations, and the
-- contracts that their users rely on.
use genesis_operator.Prelude.{String, Bool, true, ◌≡◌, Bytes}
use genesis_operator.KeyMaterial.{KeyMaterial, as_bytes}
use genesis_operator.Outcome.{Res, ok, Ext, good, Eff}

-- `str::from_utf8` and `str::as_bytes` of the standard library.
pub record Utf8 : Type 0 where
  pub from_utf8 : Bytes → Ext String
  pub text_bytes : String → Bytes
  pub from_utf8-text_bytes : (s : String) → from_utf8 (text_bytes s) ≡ good s

pub record AgeOps (E : Type 0) : Type 0 where
  pub generate_keypair : Eff E (String × KeyMaterial)
  pub public_key_from_private : Bytes → Res String
  pub encrypt_with_public_key : String → Bytes → Eff E Bytes
  pub decrypt_with_private_key : Bytes → Bytes → Res Bytes

pub record PqOps (E : Type 0) : Type 0 where
  pub mlkem_generate_keypair : Eff E (Bytes × KeyMaterial)
  pub mlkem_encapsulate : Bytes → Eff E (Bytes × Bytes)
  pub mlkem_decapsulate : KeyMaterial → Bytes → Res Bytes
  pub mldsa_generate_keypair : Eff E (Bytes × KeyMaterial)
  pub mldsa_sign : KeyMaterial → Bytes → Res Bytes
  pub mldsa_verify : Bytes → Bytes → Bytes → Res Bool
  pub signing_public_key : KeyMaterial → Res Bytes

module _ {E : Type 0} where
  -- The private key bytes belong to the public key.
  pub record AgePair (age : AgeOps E) (public_key : String) (private_bytes : Bytes) : Type 0 where
    pub derives : age.public_key_from_private private_bytes ≡ ok public_key
    pub decrypts :
        (plaintext ciphertext : Bytes) (env env' : E)
        → age.encrypt_with_public_key public_key plaintext env ≡ (ok ciphertext, env')
        → age.decrypt_with_private_key private_bytes ciphertext ≡ ok plaintext

  pub record KemPair (pq : PqOps E) (public_key : Bytes) (private_key : KeyMaterial) : Type 0 where
    pub agrees :
        (ciphertext shared : Bytes) (env env' : E)
        → pq.mlkem_encapsulate public_key env ≡ (ok (ciphertext, shared), env')
        → pq.mlkem_decapsulate private_key ciphertext ≡ ok shared

  -- What users of `crypto::age` rely on.
  pub record AgeContract (age : AgeOps E) : Type 0 where
    pub generates :
        (public_key : String) (key : KeyMaterial) (env env' : E)
        → age.generate_keypair env ≡ (ok (public_key, key), env')
        → AgePair age public_key (as_bytes key)

  -- What users of `crypto::pq` rely on.
  pub record PqContract (pq : PqOps E) : Type 0 where
    pub generates :
        (public_key : Bytes) (key : KeyMaterial) (env env' : E)
        → pq.mlkem_generate_keypair env ≡ (ok (public_key, key), env')
        → KemPair pq public_key key
    pub verifies :
        (key : KeyMaterial) (message signature public_key : Bytes)
        → pq.mldsa_sign key message ≡ ok signature
        → pq.signing_public_key key ≡ ok public_key
        → pq.mldsa_verify public_key message signature ≡ ok true
