-- ===== src/Envelope/Hybrid/Authentic.antt =====
-- What the signature protects when an envelope is opened (envelope.rs).
use genesis_operator.Prelude.{true, Bytes, ◌++◌, ◌≡◌}
use genesis_operator.KeyMaterial.{KeyMaterial}
use genesis_operator.Outcome.{ok}
use genesis_operator.Envelope.Wire.{HybridEnvelope}
use genesis_operator.Envelope.Hybrid.{Crypto, envelope_digest}

module _ {E : Type 0} (c : Crypto E) where
  open c use {age, pq, sym}

  abbrev digest_of : HybridEnvelope → Bytes
  digest_of e = envelope_digest c e.mlkem_ciphertext e.age_ciphertext e.encrypted_secret

  -- what is hashed
  abbrev signed_part : HybridEnvelope → Bytes
  signed_part e = e.mlkem_ciphertext ++ (e.age_ciphertext ++ e.encrypted_secret)

  -- The signature of this envelope was not forged: if it verifies with the key of the signer, then
  -- on the digest of the envelope that the signer made; and the hash of the two does not collide.
  pub record Unforged (made received : HybridEnvelope) : Type 0 where
    pub genuine :
        pq.mldsa_verify made.signing_public_key (digest_of received) received.signature ≡ ok true
        → digest_of received ≡ digest_of made
    pub no_collision :
        sym.sha3_256 (signed_part received) ≡ sym.sha3_256 (signed_part made)
        → signed_part received ≡ signed_part made
