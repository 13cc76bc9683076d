-- ===== src/Envelope/Hybrid.antt =====
-- Sealing and opening a hybrid envelope, and the upgrade of an older one.
pub mod Open
pub mod SealOpen
pub mod Authentic
use genesis_operator.Prelude.{ℕ, String, [], ◌∷◌, ◌++◌, Bytes, length, ◌≡◌, concat, codes}
use genesis_operator.Errors.{pq_key_gen_failed, pq_encapsulate_failed, age_encrypt_failed}
use genesis_operator.KeyMaterial.{KeyMaterial, as_bytes}
use genesis_operator.Outcome.{Ext, good, Eff, map_err}
use genesis_operator.Outcome.Effect.{pure, lift, call, ◌>>=◌}
use genesis_operator.Crypto.Interface.{AgeOps, PqOps}
use genesis_operator.Crypto.Hybrid.{SymCrates, combine_shared_secrets, new_cipher}
use genesis_operator.Envelope.Wire.{HybridEnvelope, v2_hybrid}

-- What an envelope is made with. `fill n` draws n random bytes from the system.
pub record Crypto (E : Type 0) : Type 0 where
  pub age : AgeOps E
  pub pq : PqOps E
  pub sym : SymCrates
  pub fill : ℕ → E → Ext Bytes × E

-- A successful draw yields the bytes that were asked for.
pub record FillLaw {E : Type 0} (c : Crypto E) : Type 0 where
  pub fills :
      (n : ℕ) (bytes : Bytes) (env env' : E) → c.fill n env ≡ (good bytes, env') → length bytes ≡ n

-- SHA3-256 fed with the three parts in turn.
abbrev pub envelope_digest : {E : Type 0} → Crypto E → Bytes → Bytes → Bytes → Bytes
envelope_digest c mlkem_ct age_ct secret = c.sym.sha3_256 (mlkem_ct ++ (age_ct ++ secret))

module _ {E : Type 0} (c : Crypto E) where
  open c use {age, pq, sym, fill}

  -- Steps 1 to 4 of `seal`, and the cipher: the two encapsulated secrets and the combined key.
  unfoldable pub seal_keys : String → Bytes → Eff E (Bytes × Bytes × Bytes)
  seal_keys age_recipient mlkem_public_key = do
    ss_classical ← call (fill 32) (λ e. pq_key_gen_failed (concat ("RNG: " ∷ e ∷ [])))
    age_ciphertext ← age.encrypt_with_public_key age_recipient ss_classical
    (mlkem_ciphertext, ss_pq) ← pq.mlkem_encapsulate mlkem_public_key
    combined_dek ← lift (combine_shared_secrets sym ss_classical ss_pq (codes "seal"))
    cipher ← lift (new_cipher combined_dek)
    pure (age_ciphertext, mlkem_ciphertext, cipher)

  -- Step 5: a fresh nonce, in front of the ciphertext.
  unfoldable pub seal_secret : Bytes → Bytes → Eff E Bytes
  seal_secret cipher plaintext = do
    nonce ← call (fill 12) (λ e. pq_encapsulate_failed (concat ("RNG: " ∷ e ∷ [])))
    ciphertext ← lift (
        map_err (sym.aead_encrypt cipher nonce plaintext)
          (λ e. age_encrypt_failed (concat ("ChaCha20 encrypt: " ∷ e ∷ []))))
    pure (nonce ++ ciphertext)

  -- Step 6: the signature over the three ciphertexts, and the key to check it with.
  unfoldable pub seal_signature : KeyMaterial → Bytes → Bytes → Bytes → Eff E HybridEnvelope
  seal_signature signing_key mlkem_ciphertext age_ciphertext encrypted_secret = do
    let digest = envelope_digest c mlkem_ciphertext age_ciphertext encrypted_secret
    signature ← lift (pq.mldsa_sign signing_key digest)
    vk ← lift (pq.signing_public_key signing_key)
    pure (record {
      version = v2_hybrid;
      mlkem_ciphertext = mlkem_ciphertext;
      age_ciphertext = age_ciphertext;
      encrypted_secret = encrypted_secret;
      signature = signature;
      signing_public_key = vk;
    })

  unfoldable pub seal : Bytes → String → Bytes → KeyMaterial → Eff E HybridEnvelope
  seal plaintext age_recipient mlkem_public_key signing_key = do
    (age_ciphertext, mlkem_ciphertext, cipher) ← seal_keys age_recipient mlkem_public_key
    encrypted_secret ← seal_secret cipher plaintext
    seal_signature signing_key mlkem_ciphertext age_ciphertext encrypted_secret

  unfoldable pub upgrade_envelope :
      Bytes → KeyMaterial → String → Bytes → KeyMaterial → Eff E HybridEnvelope
  upgrade_envelope v1_data age_identity new_age_recipient new_mlkem_public new_signing_key = do
    plaintext ← lift (age.decrypt_with_private_key (as_bytes age_identity) v1_data)
    seal plaintext new_age_recipient new_mlkem_public new_signing_key
