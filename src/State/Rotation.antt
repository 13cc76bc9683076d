-- ===== src/State/Rotation.antt =====
-- What a completed rotation does.
use genesis_operator.Prelude.{String, Option, some, ◌≡◌, ap, sym}
use genesis_operator.KeyMaterial.{KeyMaterial, as_bytes}
use genesis_operator.Outcome.{Res, ok}
use genesis_operator.Outcome.Steps.{bind_elim}
use genesis_operator.Crypto.Interface.{AgeOps, AgePair, AgeContract}
use genesis_operator.Audit.{AuditEvent}
use genesis_operator.Kms.{KmsProvider}
use genesis_operator.K8s.Metadata.{SecretMetadata}
use genesis_operator.K8s.Injector.{SecretInjector}
use genesis_operator.State.{StateTag, Genesis, GenesisConfig, PublicArtifacts, keys_of}
use genesis_operator.State.Operations.{complete_rotation}

abbrev pub rotation_metadata :
    GenesisConfig → String → Option String → Option String → SecretMetadata
rotation_metadata config public_key bootstrap_name bootstrap_namespace = record {
  provider_type = some config.provider_type;
  public_key = some public_key;
  bootstrap_name = bootstrap_name;
  bootstrap_namespace = bootstrap_namespace;
}

-- The whole effect of the rotation is four steps, each in the state that the one before left: one
-- key pair is generated in the first state, its private key, which belongs to its public key, is
-- wrapped by the key service and written to the cluster, and the event comes last. The machine and
-- the artifacts name that public key and the envelope.
abbrev pub Rotated :
    {E : Type 0}
    → AgeOps E
    → Genesis E StateTag.rotating
    → KmsProvider E
    → SecretInjector E
    → String
    → String
    → String
    → Option String
    → Option String
    → Genesis E StateTag.active
    → PublicArtifacts
    → E
    → E
    → Type 0
Rotated {E} age g kms injector name ns key bootstrap_name bootstrap_namespace g' artifacts env
      env' =
    (private_key : KeyMaterial) × (env1 : E) × (env2 : E) × (env3 : E) × (age.generate_keypair env
      ≡ (ok (artifacts.public_key, private_key), env1))
    × AgePair age artifacts.public_key (as_bytes private_key)
    × (kms.encrypt (as_bytes private_key) env1 ≡ (ok artifacts.envelope_ciphertext, env2))
    × (injector.inject (as_bytes private_key) name ns key
          (some
            (rotation_metadata g.config artifacts.public_key bootstrap_name bootstrap_namespace))
          env2
        ≡ (ok tt, env3))
    × (g' ≡ record {
      config = keys_of artifacts.public_key artifacts.envelope_ciphertext g.config;
      audit = g.audit;
    })
    × (env' ≡ g.audit.emit_event (AuditEvent.complete_rotation artifacts.public_key) env3)

module _ {E : Type 0} (age : AgeOps E) (age_laws : AgeContract age) where
  -- A rotation that completed generated one key pair in the state that it began in, wrapped its
  -- private key with the key service, wrote the same bytes to the named secret, and then emitted
  -- the event of completion, and did nothing else outside. It returned the machine and the
  -- artifacts with the public key that the private key belongs to and the new envelope. The age
  -- operations keep their contract.
  pub complete_rotation_replaces :
      (g : Genesis E StateTag.rotating) (kms : KmsProvider E) (injector : SecretInjector E)
      (name ns key : String) (bootstrap_name bootstrap_namespace : Option String)
      (g' : Genesis E StateTag.active) (artifacts : PublicArtifacts) (env env' : E)
      → complete_rotation age g kms injector name ns key bootstrap_name bootstrap_namespace env
        ≡ (ok (g', artifacts), env')
      → Rotated age g kms injector name ns key bootstrap_name bootstrap_namespace g' artifacts env
          env'
  unfolding complete_rotation
  complete_rotation_replaces g kms injector name ns key bootstrap_name bootstrap_namespace g'
        artifacts env env' h =
      bind_elim age.generate_keypair _ env h λ keys env1 generated h1.
        bind_elim (kms.encrypt (as_bytes keys.1)) _ env1 h1 λ envelope env2 wrapped h2.
          bind_elim
            (injector.inject (as_bytes keys.1) name ns key
              (some (rotation_metadata g.config keys.0 bootstrap_name bootstrap_namespace)))
            _ env2 h2
            λ u env3 written h3.
              let same_g = fst_ok (ap (λ p. p.0) h3) in
              let same_artifacts = snd_ok (ap (λ p. p.0) h3) in
              let same_key = ap (λ a. a.public_key) same_artifacts in
              let same_envelope = ap (λ a. a.envelope_ciphertext) same_artifacts in
              let pair = rw same_key at (age_laws.generates keys.0 keys.1 env env1 generated) in
              let generated' = rw same_key at generated in
              let wrapped' = rw same_envelope at wrapped in
              let written' = rw same_key at written in
              let config' = rw (same_key, same_envelope) at (sym same_g) in
              let last = rw same_key at (sym (ap (λ p. p.1) h3)) in
              (keys.1, env1, env2, env3, generated', pair, wrapped', written', config', last)
    where
      fst_ok :
          {A B : Type 0} {a a' : A} {b b' : B}
          → ◌≡◌ {A = Res (A × B)} (ok (a, b)) (ok (a', b'))
          → a ≡ a'
      fst_ok e = cc e

      snd_ok :
          {A B : Type 0} {a a' : A} {b b' : B}
          → ◌≡◌ {A = Res (A × B)} (ok (a, b)) (ok (a', b'))
          → b ≡ b'
      snd_ok e = cc e
