-- ===== src/State/Progress.antt =====
-- The bootstrap of a cluster from end to end: `init`, `begin_bootstrap`,
-- `inject_secret_with_metadata`, where the outside answers.
use genesis_operator.Prelude.{true, String, Option, some, Bytes, ◌≡◌, refl, subst}
use genesis_operator.KeyMaterial.{KeyMaterial, as_bytes}
use genesis_operator.Outcome.{Res, ok, Eff}
use genesis_operator.Outcome.Effect.{◌>>=◌}
use genesis_operator.Crypto.Interface.{AgeOps, AgePair, AgeContract}
use genesis_operator.Kms.{KmsProvider, KmsContract}
use genesis_operator.K8s.Metadata.{SecretMetadata}
use genesis_operator.K8s.Injector.{SecretInjector}
use genesis_operator.State.{StateTag, Genesis, become, keys_of, artifacts_of}
use genesis_operator.State.Operations.{init, begin_bootstrap}
use genesis_operator.Audit.{AuditEvent}
use genesis_operator.State.Bootstrapping.{inject_secret_with_metadata}
use genesis_operator.State.Injection.{inject-begin_bootstrap}

module _ {E : Type 0} where
  -- the step succeeds
  abbrev pub Answers : {A : Type 0} → Res A × E → Type 0
  Answers {A = A} run = (a : A) × (env : E) × (run ≡ (ok a, env))

  -- The outside answers: a key is generated, the key service encrypts any plaintext and decrypts
  -- what it encrypted, and the cluster takes any secret.
  pub record Available (age : AgeOps E) (kms : KmsProvider E) (injector : SecretInjector E)
      : Type 0 where
    pub generates : (env : E) → Answers (age.generate_keypair env)
    pub encrypts : (plaintext : Bytes) (env : E) → Answers (kms.encrypt plaintext env)
    pub decrypts :
        (plaintext ciphertext : Bytes) (env1 env2 env3 : E)
        → kms.encrypt plaintext env1 ≡ (ok ciphertext, env2)
        → Answers (kms.decrypt ciphertext env3)
    pub injects :
        (key_bytes : Bytes) (name ns key : String) (metadata : Option SecretMetadata) (env : E)
        → Answers (injector.inject key_bytes name ns key metadata env)

  module _ (age : AgeOps E) (g : Genesis E StateTag.uninitialized) (kms : KmsProvider E)
      (injector : SecretInjector E) (name ns key : String) (metadata : Option SecretMetadata) where
    -- what a host does with a new machine
    unfoldable pub bootstrap : Eff E (Genesis E StateTag.active)
    bootstrap = init age g kms >>= λ made. begin_bootstrap made.0 kms >>= λ b.
        inject_secret_with_metadata b injector name ns key metadata

    -- It ends in the active state with the keys stored, and its whole effect is these steps, each
    -- in the state that the one before left: one key pair is generated in the first state, its
    -- private key is wrapped, the envelope is unwrapped again, and the cluster takes the private
    -- key, which belongs to the public key in the machine; an event follows on the second, the
    -- third and the last.
    abbrev pub Bootstrapped : E → Type 0
    Bootstrapped env =
        (public_key : String) × (private_key : KeyMaterial) × (envelope : Bytes) × (active : Genesis
          E StateTag.active)
        × (env1 env2 env3 env4 : E) × (age.generate_keypair env
            ≡ (ok (public_key, private_key), env1))
        × (kms.encrypt (as_bytes private_key) env1 ≡ (ok envelope, env2))
        × (kms.decrypt envelope
              (g.audit.emit_event (AuditEvent.init public_key (some kms.provider_name)) env2)
            ≡ (ok (as_bytes private_key), env3))
        × (injector.inject (as_bytes private_key) name ns key metadata
              (g.audit.emit_event (AuditEvent.begin_bootstrap true) env3)
            ≡ (ok tt, env4))
        × (bootstrap env
            ≡ (ok active, g.audit.emit_event (AuditEvent.inject_secret name ns true) env4))
        × (active.config ≡ keys_of public_key envelope g.config)
        × AgePair age public_key (as_bytes private_key)

    initialized_with : String → Bytes → Genesis E StateTag.initialized
    initialized_with public_key envelope = record {
      config = keys_of public_key envelope g.config;
      audit = g.audit;
    }

    -- From an uninitialized machine, where the key generation, the key service and the cluster
    -- answer and keep their contracts: init, begin_bootstrap and inject_secret_with_metadata
    -- succeed one after the other and end in the active state, with the new public key and envelope
    -- in the configuration. From the first state to the last they generated one key pair, wrapped
    -- its private key, unwrapped the envelope to the same private key and gave it to the cluster,
    -- with an event after the second, third and fourth of these steps, and did nothing else
    -- outside; the private key belongs to the public key.
    pub bootstrap-Bootstrapped :
        (env : E)
        → AgeContract age
        → KmsContract kms
        → Available age kms injector
        → Bootstrapped env
    unfolding bootstrap init initialized_with
    bootstrap-Bootstrapped env age_laws kms_laws live =
        let (keys, env1, generated) = live.generates env in
        let (envelope, env2, wrapped) = live.encrypts (as_bytes keys.1) env1 in
        let env3 = g.audit.emit_event (AuditEvent.init keys.0 (some kms.provider_name)) env2 in
        let made = initialized_with keys.0 envelope in
        let (result, env4, unwrapped) =
          live.decrypts (as_bytes keys.1) envelope env1 env2 env3 wrapped in
        let same =
          kms_laws.unwraps (as_bytes keys.1) envelope result env1 env2 env3 env4 wrapped
            unwrapped in
        let env5 = g.audit.emit_event (AuditEvent.begin_bootstrap true) env4 in
        let (u, env6, injected) = live.injects result name ns key metadata env5 in
        let inited : init age g kms env ≡ (ok (made, artifacts_of keys.0 envelope), env3) =
          rw (generated, wrapped) in
        let whole =
          inject-begin_bootstrap made kms injector name ns key metadata envelope result env3 env4
            refl unwrapped in
        (
          keys.0,
          keys.1,
          envelope,
          become StateTag.active (become StateTag.bootstrapping made),
          env1,
          env2,
          env4,
          env6,
          generated,
          wrapped,
          subst (λ z. kms.decrypt envelope env3 ≡ (ok z, env4)) same unwrapped,
          subst (λ z. injector.inject z name ns key metadata env5 ≡ (ok tt, env6)) same injected,
          rw (inited, whole, injected),
          refl,
          age_laws.generates keys.0 keys.1 env env1 generated,
        )
