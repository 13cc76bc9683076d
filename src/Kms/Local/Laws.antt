-- ===== src/Kms/Local/Laws.antt =====
-- What the local provider promises.
use genesis_operator.Prelude.{
  refl, ◌∙◌, String, [], ◌≡◌, ap, ◌≤◌, take, drop, Bytes, length, arith, append-nil,
}
use genesis_operator.KeyMaterial.{KeyMaterial, new, as_bytes}
use genesis_operator.Outcome.{ok, good}
use genesis_operator.Outcome.Steps.{bind_elim, lift_elim, checked_elim, call_elim}
use genesis_operator.Crypto.Interface.{AgePair, KemPair, PqContract}
use genesis_operator.Crypto.Hybrid.{SymLaws, new_cipher}
use genesis_operator.Crypto.Framing.{framed}
use genesis_operator.Envelope.Wire.{HybridEnvelope, v2_hybrid, from_bytes, to_bytes}
use genesis_operator.Envelope.Wire.RoundTrip.{Fits, from_bytes-to_bytes}
use genesis_operator.Envelope.Hybrid.{Crypto, FillLaw, seal}
use genesis_operator.Envelope.Hybrid.Open.{open_envelope}
use genesis_operator.Envelope.Hybrid.SealOpen.{open_envelope-seal}
use genesis_operator.Kms.{KmsContract}
use genesis_operator.Kms.Local.{
  LocalKmsProvider, FileSystem, from_envelope, generate, encrypt, decrypt, provider,
}

module _ {E : Type 0} (c : Crypto E) where
  decrypt_keyed :
      (local : LocalKmsProvider) (ciphertext plaintext cipher : Bytes) (env : E)
      → new_cipher local.master_key ≡ ok cipher
      → 12 ≤ length ciphertext
      → c.sym.aead_decrypt cipher (take 12 ciphertext) (drop 12 ciphertext) ≡ good plaintext
      → decrypt c local ciphertext env ≡ (ok plaintext, env)
  unfolding decrypt
  decrypt_keyed local ciphertext plaintext cipher env keyed long opened = rw keyed (ground arith)

module _ {E : Type 0} (c : Crypto E) (sym_laws : SymLaws c.sym) (sized : FillLaw c) where
  -- Whatever `encrypt` returned, `decrypt` with the same master key returns the plaintext, at any
  -- later time, and draws nothing from the outside.
  pub decrypt-encrypt :
      (local : LocalKmsProvider) (plaintext ciphertext : Bytes) (env env' later : E)
      → encrypt c local plaintext env ≡ (ok ciphertext, env')
      → decrypt c local ciphertext later ≡ (ok plaintext, later)
  unfolding encrypt
  decrypt-encrypt local plaintext ciphertext env env' later h =
      lift_elim (new_cipher local.master_key) _ env h λ cipher keyed h1.
        call_elim (c.fill 12) _ _ env h1 λ nonce env1 drawn h2.
          checked_elim (c.sym.aead_encrypt cipher nonce plaintext) _ _ env1 h2 λ ct encrypted h3.
            let (long, opened) =
              framed c.sym nonce ct ciphertext plaintext cipher
                (sized.fills 12 nonce env env1 drawn) (ground arith)
                (sym_laws.opens cipher nonce plaintext ct encrypted) in
            decrypt_keyed c local ciphertext plaintext cipher later keyed long opened

  -- So the local provider keeps the contract of a key service.
  pub provider-KmsContract : (local : LocalKmsProvider) → KmsContract (provider c local)
  provider-KmsContract local = record {
    unwraps = λ plaintext ciphertext result env1 env2 env3 env4 h k.
        let same = decrypt-encrypt local plaintext ciphertext env1 env2 env3 h in ground arith;
  }

-- What was written to a path is what is read from it.
pub record FileLaw {E : Type 0} (fs : FileSystem E) : Type 0 where
  pub reads_back :
      (path : String) (bytes : Bytes) (env1 env2 : E)
      → fs.write path bytes env1 ≡ (good tt, env2)
      → (fs.read path env2).0 ≡ good bytes

module _ {E : Type 0} (c : Crypto E) (fs : FileSystem E) where
  from_envelope_loads :
      (path : String) (age_identity mlkem_private_key : KeyMaterial) (input key : Bytes)
      (e : HybridEnvelope) (env : E)
      → (fs.read path env).0 ≡ good input
      → from_bytes input ≡ ok e
      → open_envelope c e age_identity mlkem_private_key ≡ ok key
      → (from_envelope c fs path age_identity mlkem_private_key env).0
        ≡ ok (record { master_key = new key })
  unfolding from_envelope
  from_envelope_loads path age_identity mlkem_private_key input key e env stored parsed opened =
      rw (stored, parsed, opened)

  -- `open` does not look at the version.
  open_envelope-version :
      (e : HybridEnvelope) (age_identity mlkem_private_key : KeyMaterial)
      → open_envelope c (record e { version = v2_hybrid }) age_identity mlkem_private_key
        ≡ open_envelope c e age_identity mlkem_private_key
  unfolding open_envelope
  open_envelope-version e age_identity mlkem_private_key = refl

module _ {E : Type 0} (c : Crypto E) (fs : FileSystem E) (pq_laws : PqContract c.pq)
    (sym_laws : SymLaws c.sym) (sized : FillLaw c) (files : FileLaw fs) where
  -- A provider that `generate` returned is the one that `from_envelope` then loads from the file,
  -- with the private keys of the recipients, where the parts of a sealed envelope fit their
  -- lengths.
  pub from_envelope-generate :
      (path age_recipient : String) (mlkem_public_key : Bytes)
      (signing_key age_identity mlkem_private_key : KeyMaterial) (local : LocalKmsProvider)
      (env env' : E)
      → AgePair c.age age_recipient (as_bytes age_identity)
      → KemPair c.pq mlkem_public_key mlkem_private_key
      → ((plaintext : Bytes) (e : HybridEnvelope) (env1 env2 : E)
          → length plaintext ≡ 32
          → seal c plaintext age_recipient mlkem_public_key signing_key env1 ≡ (ok e, env2)
          → Fits e)
      → generate c fs path age_recipient mlkem_public_key signing_key env ≡ (ok local, env')
      → (from_envelope c fs path age_identity mlkem_private_key env').0 ≡ ok local
  unfolding generate
  from_envelope-generate path age_recipient mlkem_public_key signing_key age_identity
        mlkem_private_key local env env' age_pair kem_pair fits h =
      call_elim (c.fill 32) _ _ env h λ key env1 drawn h1.
        bind_elim (seal c key age_recipient mlkem_public_key signing_key) _ env1 h1
          λ e env2 sealed h2.
            call_elim (fs.write path (to_bytes e)) _ _ env2 h2 λ _ env3 written h3.
              let opened =
                open_envelope-seal c pq_laws sym_laws sized key age_recipient mlkem_public_key
                  signing_key age_identity mlkem_private_key e env1 env2 age_pair kem_pair sealed in
              let parsed = rw append-nil at (
                from_bytes-to_bytes e []
                  (fits key e env1 env2 (sized.fills 32 key env env1 drawn) sealed)) in
              let stored = files.reads_back path (to_bytes e) env2 env3 written in
              let loaded =
                from_envelope_loads c fs path age_identity mlkem_private_key (to_bytes e) key _ env3
                  stored parsed
                  (open_envelope-version c fs e age_identity mlkem_private_key ∙ opened) in
              rw (ap (λ p. p.1) h3) at loaded ∙ ap (λ p. p.0) h3
