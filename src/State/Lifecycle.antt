-- ===== src/State/Lifecycle.antt =====
-- What an instance that `init` made can do: `verify` confirms its key, and `unseal` opens what
-- `seal` sealed. The age operations and the key service keep their contracts.
use genesis_operator.Prelude.{sym, length, eq_iff, String, true, some, Bytes, ◌≡◌, refl, ap}
use genesis_operator.KeyMaterial.{KeyMaterial, as_bytes}
use genesis_operator.Outcome.{Res, ok, err, panicked, res_map}
use genesis_operator.Outcome.Steps.{bind_elim}
use genesis_operator.Crypto.Interface.{AgeOps, AgePair, AgeContract}
use genesis_operator.Audit.{AuditEvent}
use genesis_operator.Kms.{KmsProvider, KmsContract}
use genesis_operator.State.{StateTag, Genesis, PublicArtifacts, keys_of, artifacts_of}
use genesis_operator.State.Operations.{init, verify, seal, unseal}

module _ {E : Type 0} (age : AgeOps E) where
  -- the steps of an `init` that succeeded
  pub init_elim {κ} :
      {P : Type κ} (g : Genesis E StateTag.uninitialized) (kms : KmsProvider E)
      (g' : Genesis E StateTag.initialized) (artifacts : PublicArtifacts) (env env' : E)
      → init age g kms env ≡ (ok (g', artifacts), env')
      → ((public_key : String) (key : KeyMaterial) (envelope : Bytes) (env1 env2 : E)
          → age.generate_keypair env ≡ (ok (public_key, key), env1)
          → kms.encrypt (as_bytes key) env1 ≡ (ok envelope, env2)
          → record { config = keys_of public_key envelope g.config; audit = g.audit } ≡ g'
          → artifacts_of public_key envelope ≡ artifacts
          → P)
      → P
  unfolding init
  init_elim g kms g' artifacts env env' h use_it =
      bind_elim age.generate_keypair _ env h λ keys env1 generated h1.
        bind_elim (kms.encrypt (as_bytes keys.1)) _ env1 h1 λ envelope env2 wrapped h2.
          use_it keys.0 keys.1 envelope env1 env2 generated wrapped (fst_ok (ap (λ p. p.0) h2))
            (snd_ok (ap (λ p. p.0) h2))
    where
      fst_ok :
          {A B : Type 0} {a a' : A} {b b' : B}
          → ◌≡◌ {A = Res (A × B)} (ok (a, b)) (ok (a', b'))
          → a ≡ a'
      fst_ok e = cc e

      snd_ok :
          {A B : Type 0} {a a' : A} {b b' : B}
          → ◌≡◌ {A = Res (A × B)} (ok (a, b)) (ok (a', b'))
          → b ≡ b'
      snd_ok e = cc e

  module _ (age_laws : AgeContract age) where
    -- the steps of `verify` and of `unseal` on the machine that `init` gave
    verified :
        (g : Genesis E StateTag.initialized) (kms : KmsProvider E) (public_key : String)
        (private_bytes envelope : Bytes) (env : E)
        → g.config.public_key ≡ some public_key
        → g.config.envelope_ciphertext ≡ some envelope
        → age.public_key_from_private private_bytes ≡ ok public_key
        → ((result : Bytes) (env' : E)
            → kms.decrypt envelope env ≡ (ok result, env')
            → result ≡ private_bytes)
        → (r : Res Bytes) (env' : E) → kms.decrypt envelope env ≡ (r, env')
        → (verify age g kms env).0
          ≡ res_map (λ _. record { public_key_matches = true; public_key = public_key }) r
    unfolding verify
    verified g kms public_key private_bytes envelope env has_key has_envelope derives unwraps
          (ok result) env' h =
        rw (
          has_key,
          has_envelope,
          h,
          unwraps result env' h,
          derives,
          (eq_iff public_key public_key).1 refl,
        )
    verified g kms public_key private_bytes envelope env has_key has_envelope derives unwraps
          (err e) env' h =
        rw (has_key, has_envelope, h)
    verified g kms public_key private_bytes envelope env has_key has_envelope derives unwraps
          (panicked m) env' h =
        rw (has_key, has_envelope, h)

    sealed_with :
        (g : Genesis E StateTag.initialized) (public_key : String) (plaintext ciphertext : Bytes)
        (env env' : E)
        → g.config.public_key ≡ some public_key
        → seal age g plaintext env ≡ (ok ciphertext, env')
        → age.encrypt_with_public_key public_key plaintext
            (g.audit.emit_event (AuditEvent.seal (length plaintext)) env)
          ≡ (ok ciphertext, env')
    unfolding seal
    sealed_with g public_key plaintext ciphertext env env' has_key h = rw has_key at h

    unsealed :
        (g : Genesis E StateTag.initialized) (kms : KmsProvider E) (public_key : String)
        (private_bytes envelope plaintext ciphertext : Bytes) (env env' later : E)
        → g.config.public_key ≡ some public_key
        → g.config.envelope_ciphertext ≡ some envelope
        → AgePair age public_key private_bytes
        → seal age g plaintext env ≡ (ok ciphertext, env')
        → ((result : Bytes) (env' : E)
            → kms.decrypt envelope later ≡ (ok result, env')
            → result ≡ private_bytes)
        → (r : Res Bytes) (later' : E) → kms.decrypt envelope later ≡ (r, later')
        → (unseal age g kms ciphertext later).0 ≡ res_map (λ _. plaintext) r
    unfolding unseal
    unsealed g kms public_key private_bytes envelope plaintext ciphertext env env' later has_key
          has_envelope pair sealed unwraps (ok result) later' h =
        rw (
          has_envelope,
          h,
          unwraps result later' h,
          pair.decrypts plaintext ciphertext _ env'
              (sealed_with g public_key plaintext ciphertext env env' has_key sealed),
        )
    unsealed g kms public_key private_bytes envelope plaintext ciphertext env env' later has_key
          has_envelope pair sealed unwraps (err e) later' h =
        rw (has_envelope, h)
    unsealed g kms public_key private_bytes envelope plaintext ciphertext env env' later has_key
          has_envelope pair sealed unwraps (panicked m) later' h =
        rw (has_envelope, h)

    -- On the machine that `init` returned, `verify` fails exactly where the key service fails to
    -- decrypt the new envelope, with that failure, and else reports that the key matches, with the
    -- public key of the artifacts, at any later time. The age operations and the key service keep
    -- their contracts.
    pub verify-init :
        (g : Genesis E StateTag.uninitialized) (kms : KmsProvider E)
        (g' : Genesis E StateTag.initialized) (artifacts : PublicArtifacts) (env env' later : E)
        → KmsContract kms
        → init age g kms env ≡ (ok (g', artifacts), env')
        → (verify age g' kms later).0
          ≡ res_map
              (λ _. record { public_key_matches = true; public_key = artifacts.public_key })
              (kms.decrypt artifacts.envelope_ciphertext later).0
    verify-init g kms g' artifacts env env' later kms_laws h =
        init_elim g kms g' artifacts env env' h
          λ public_key key envelope env1 env2 generated wrapped same_g same_artifacts.
            let derives = (age_laws.generates public_key key env env1 generated).derives in
            let unwraps =
              λ (result : Bytes) (later' : E)
                  (unwrapped : kms.decrypt envelope later ≡ (ok result, later')).
                kms_laws.unwraps (as_bytes key) envelope result env1 env2 later later' wrapped
                  unwrapped in
            let fact =
              verified (record { config = keys_of public_key envelope g.config; audit = g.audit })
                kms public_key (as_bytes key) envelope later refl refl derives unwraps
                (kms.decrypt envelope later).0 (kms.decrypt envelope later).1 refl in
            rw
              (
                same_g,
                ap (λ a. a.public_key) same_artifacts,
                ap (λ a. a.envelope_ciphertext) same_artifacts,
              )
              at fact

    -- What `seal` made on the machine that `init` returned, `unseal` turns back into the plaintext,
    -- whenever the key service decrypts the envelope; where that fails, `unseal` fails in the same
    -- way. The age operations and the key service keep their contracts.
    pub unseal-seal :
        (g : Genesis E StateTag.uninitialized) (kms : KmsProvider E)
        (g' : Genesis E StateTag.initialized) (artifacts : PublicArtifacts)
        (plaintext ciphertext : Bytes) (env env' env3 env4 later : E)
        → KmsContract kms
        → init age g kms env ≡ (ok (g', artifacts), env')
        → seal age g' plaintext env3 ≡ (ok ciphertext, env4)
        → (unseal age g' kms ciphertext later).0
          ≡ res_map (λ _. plaintext) (kms.decrypt artifacts.envelope_ciphertext later).0
    unseal-seal g kms g' artifacts plaintext ciphertext env env' env3 env4 later kms_laws h sealed =
        init_elim g kms g' artifacts env env' h
          λ public_key key envelope env1 env2 generated wrapped same_g same_artifacts.
            let pair = age_laws.generates public_key key env env1 generated in
            let unwraps =
              λ (result : Bytes) (later' : E)
                  (unwrapped : kms.decrypt envelope later ≡ (ok result, later')).
                kms_laws.unwraps (as_bytes key) envelope result env1 env2 later later' wrapped
                  unwrapped in
            let fact =
              unsealed (record { config = keys_of public_key envelope g.config; audit = g.audit })
                kms public_key (as_bytes key) envelope plaintext ciphertext env3 env4 later refl
                refl pair (rw (sym same_g) at sealed) unwraps (kms.decrypt envelope later).0
                (kms.decrypt envelope later).1 refl in
            rw (same_g, ap (λ a. a.envelope_ciphertext) same_artifacts) at fact
