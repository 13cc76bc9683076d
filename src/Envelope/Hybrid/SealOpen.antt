-- ===== src/Envelope/Hybrid/SealOpen.antt =====
-- What `open` recovers from what `seal` made.
use genesis_operator.Prelude.{String, true, ◌≡◌, ◌≤◌, ap, Bytes, length, take, drop, codes, arith}
use genesis_operator.KeyMaterial.{KeyMaterial, as_bytes}
use genesis_operator.Outcome.{ok, good}
use genesis_operator.Outcome.Steps.{bind_elim, lift_elim, checked_elim, call_elim}
use genesis_operator.Crypto.Interface.{AgePair, KemPair, PqContract}
use genesis_operator.Crypto.Hybrid.{SymLaws, combine_shared_secrets, new_cipher}
use genesis_operator.Crypto.Framing.{framed}
use genesis_operator.Envelope.Wire.{HybridEnvelope}
use genesis_operator.Envelope.Hybrid.{
  Crypto, FillLaw, envelope_digest, seal, seal_keys, seal_secret, seal_signature,
}
use genesis_operator.Envelope.Hybrid.Open.{open_envelope}

module _ {E : Type 0} (c : Crypto E) where
  open c use {age, pq, sym, fill}

  module _ (laws : SymLaws sym) (sized : FillLaw c) where
    -- A sealed secret starts with a nonce of twelve bytes, and decrypts behind it.
    seal_secret_steps :
        (key plaintext secret : Bytes) (env env' : E)
        → seal_secret c key plaintext env ≡ (ok secret, env')
        → (12 ≤ length secret)
          × (sym.aead_decrypt key (take 12 secret) (drop 12 secret) ≡ good plaintext)
    unfolding seal_secret
    seal_secret_steps key plaintext secret env env' h =
        call_elim (fill 12) _ _ env h λ nonce env1 drawn h1.
          checked_elim (sym.aead_encrypt key nonce plaintext) _ _ env1 h1 λ ct encrypted h2.
            let size : length nonce ≡ 12 = sized.fills 12 nonce env env1 drawn in
            framed sym nonce ct secret plaintext key size (ground arith)
              (laws.opens key nonce plaintext ct encrypted)

  -- The two secrets that `seal` encapsulated give the key that it used.
  seal_keys_steps :
      (age_recipient : String) (mlkem_public_key : Bytes) (keys : Bytes × Bytes × Bytes)
      (env env' : E)
      → seal_keys c age_recipient mlkem_public_key env ≡ (ok keys, env')
      → (ss_classical : Bytes) × (ss_pq : Bytes) × (dek : KeyMaterial) × (env1 : E) × (env2 : E)
        × (env3 : E) × (age.encrypt_with_public_key age_recipient ss_classical env1
            ≡ (ok keys.0, env2))
        × (pq.mlkem_encapsulate mlkem_public_key env2 ≡ (ok (keys.1, ss_pq), env3))
        × (combine_shared_secrets sym ss_classical ss_pq (codes "seal") ≡ ok dek)
        × (new_cipher dek ≡ ok keys.2)
  unfolding seal_keys
  seal_keys_steps age_recipient mlkem_public_key keys env env' h =
      call_elim (fill 32) _ _ env h λ ss env1 _ h1.
        bind_elim (age.encrypt_with_public_key age_recipient ss) _ env1 h1 λ age_ct env2 wrapped h2.
          bind_elim (pq.mlkem_encapsulate mlkem_public_key) _ env2 h2 λ kem env3 encapsulated h3.
            lift_elim (combine_shared_secrets sym ss kem.1 (codes "seal")) _ env3 h3
              λ dek combined h4. lift_elim (new_cipher dek) _ env3 h4 λ key keyed h5.
                let made : (age_ct, kem.0, key) ≡ keys = ground arith in
                (
                  ss,
                  kem.1,
                  dek,
                  env1,
                  env2,
                  env3,
                  rw (ap (λ p. p.0) made) at wrapped,
                  rw (ap (λ p. p.1) made) at encapsulated,
                  combined,
                  rw (ap (λ p. p.2) made) at keyed,
                )

  seal_signature_steps :
      (signing_key : KeyMaterial) (mlkem_ct age_ct secret : Bytes) (e : HybridEnvelope)
      (env env' : E)
      → seal_signature c signing_key mlkem_ct age_ct secret env ≡ (ok e, env')
      → (e.mlkem_ciphertext ≡ mlkem_ct)
        × (e.age_ciphertext ≡ age_ct)
        × (e.encrypted_secret ≡ secret)
        × (pq.mldsa_sign signing_key (envelope_digest c mlkem_ct age_ct secret) ≡ ok e.signature)
        × (pq.signing_public_key signing_key ≡ ok e.signing_public_key)
  unfolding seal_signature
  seal_signature_steps signing_key mlkem_ct age_ct secret e env env' h = ground arith

  -- What a successful seal leaves to be opened.
  record Openable (plaintext : Bytes) (age_identity mlkem_private_key : KeyMaterial)
      (e : HybridEnvelope) : Type 0 where
    ss_classical : Bytes
    ss_pq : Bytes
    dek : KeyMaterial
    key : Bytes
    verified :
        pq.mldsa_verify e.signing_public_key
          (envelope_digest c e.mlkem_ciphertext e.age_ciphertext e.encrypted_secret)
          e.signature
        ≡ ok true
    unwrapped :
        age.decrypt_with_private_key (as_bytes age_identity) e.age_ciphertext ≡ ok ss_classical
    decapsulated : pq.mlkem_decapsulate mlkem_private_key e.mlkem_ciphertext ≡ ok ss_pq
    combined : combine_shared_secrets sym ss_classical ss_pq (codes "seal") ≡ ok dek
    keyed : new_cipher dek ≡ ok key
    long : 12 ≤ length e.encrypted_secret
    decrypted :
        sym.aead_decrypt key (take 12 e.encrypted_secret) (drop 12 e.encrypted_secret)
        ≡ good plaintext

  Openable-opens :
      (plaintext : Bytes) (age_identity mlkem_private_key : KeyMaterial) (e : HybridEnvelope)
      → Openable plaintext age_identity mlkem_private_key e
      → open_envelope c e age_identity mlkem_private_key ≡ ok plaintext
  unfolding open_envelope
  Openable-opens plaintext age_identity mlkem_private_key e o =
      rw (o.verified, o.unwrapped, o.decapsulated, o.combined, o.keyed, o.decrypted) (ground arith)

  module _ (pq_laws : PqContract pq) (sym_laws : SymLaws sym) (sized : FillLaw c) where
    -- Whatever `seal` made, `open` recovers the plaintext from it: with the private key of the age
    -- recipient and the private key of the ML-KEM public key, and by crates that keep their
    -- contracts.
    pub open_envelope-seal :
        (plaintext : Bytes) (age_recipient : String) (mlkem_public_key : Bytes)
        (signing_key age_identity mlkem_private_key : KeyMaterial) (e : HybridEnvelope)
        (env env' : E)
        → AgePair age age_recipient (as_bytes age_identity)
        → KemPair pq mlkem_public_key mlkem_private_key
        → seal c plaintext age_recipient mlkem_public_key signing_key env ≡ (ok e, env')
        → open_envelope c e age_identity mlkem_private_key ≡ ok plaintext
    unfolding seal
    open_envelope-seal plaintext age_recipient mlkem_public_key signing_key age_identity
          mlkem_private_key e env env' age_pair kem_pair h =
        bind_elim (seal_keys c age_recipient mlkem_public_key) _ env h λ keys env1 k h1.
          bind_elim (seal_secret c keys.2 plaintext) _ env1 h1 λ secret env2 s h2.
            let (ss, ss_pq, dek, a, b, d, wrapped, encapsulated, combined, keyed) =
              seal_keys_steps age_recipient mlkem_public_key keys env env1 k in
            let (long, decrypted) =
              seal_secret_steps sym_laws sized keys.2 plaintext secret env1 env2 s in
            let (m, y, x, signed, published) =
              seal_signature_steps signing_key keys.1 keys.0 secret e env2 env' h2 in
            Openable-opens plaintext age_identity mlkem_private_key e (record {
              ss_classical = ss;
              ss_pq = ss_pq;
              dek = dek;
              key = keys.2;
              verified = rw (m, y, x) (pq_laws.verifies signing_key _ _ _ signed published);
              unwrapped = rw y (age_pair.decrypts ss keys.0 a b wrapped);
              decapsulated = rw m (kem_pair.agrees keys.1 ss_pq b d encapsulated);
              combined = combined;
              keyed = keyed;
              long = rw x long;
              decrypted = rw x decrypted;
            })
