-- ===== src/Envelope/Hybrid/Open.antt =====
-- `HybridEnvelope::open`.
use genesis_operator.Prelude.{
  [], ◌∷◌, Bytes, length, take, drop, concat, codes, ltb, not, if◌then◌else◌,
}
use genesis_operator.Errors.{envelope_signature_invalid, envelope_parse_failed, age_decrypt_failed}
use genesis_operator.KeyMaterial.{KeyMaterial, as_bytes}
use genesis_operator.Outcome.{Res, err, map_err}
use genesis_operator.Outcome.Pure.{◌>>=◌}
use genesis_operator.Crypto.Hybrid.{combine_shared_secrets, new_cipher}
use genesis_operator.Envelope.Wire.{HybridEnvelope}
use genesis_operator.Envelope.Hybrid.{Crypto, envelope_digest}

module _ {E : Type 0} (c : Crypto E) where
  open c use {age, pq, sym}

  -- from the check of the nonce on
  abbrev decrypt_secret : HybridEnvelope → KeyMaterial → Res Bytes
  decrypt_secret e combined_dek =
      if ltb (length e.encrypted_secret) 12
      then err (envelope_parse_failed "encrypted_secret too short for nonce")
      else (do
        cipher ← new_cipher combined_dek
        map_err (sym.aead_decrypt cipher (take 12 e.encrypted_secret) (drop 12 e.encrypted_secret))
            (λ m. age_decrypt_failed (concat ("ChaCha20 decrypt: " ∷ m ∷ []))))

  -- from the verified signature on
  abbrev pub open_verified : HybridEnvelope → KeyMaterial → KeyMaterial → Res Bytes
  open_verified e age_identity mlkem_private_key = do
    ss_classical ← age.decrypt_with_private_key (as_bytes age_identity) e.age_ciphertext
    ss_pq ← pq.mlkem_decapsulate mlkem_private_key e.mlkem_ciphertext
    combined_dek ← combine_shared_secrets sym ss_classical ss_pq (codes "seal")
    decrypt_secret e combined_dek

  unfoldable pub open_envelope : HybridEnvelope → KeyMaterial → KeyMaterial → Res Bytes
  open_envelope e age_identity mlkem_private_key = do
    let digest = envelope_digest c e.mlkem_ciphertext e.age_ciphertext e.encrypted_secret
    valid ← pq.mldsa_verify e.signing_public_key digest e.signature
    if not valid
        then err envelope_signature_invalid
        else open_verified e age_identity mlkem_private_key
