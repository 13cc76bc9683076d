-- ===== src/State/Operations.antt =====
-- The operations of the states `Uninitialized`, `Initialized`, `Active`, `Rotating` and `Degraded`.
use genesis_operator.Prelude.{String, true, Option, some, Bytes, length, str_eq}
use genesis_operator.Errors.{no_envelope, no_public_key}
use genesis_operator.KeyMaterial
use genesis_operator.KeyMaterial.{KeyMaterial}
use genesis_operator.Outcome.{Eff, ok_or}
use genesis_operator.Outcome.Effect.{pure, lift, ◌>>=◌, ◌>>◌}
use genesis_operator.Crypto.Interface.{AgeOps}
use genesis_operator.Audit.{AuditSink, AuditEvent, emit}
use genesis_operator.Kms.{KmsProvider}
use genesis_operator.Kms.Environment.{is_some}
use genesis_operator.K8s.Metadata.{SecretMetadata}
use genesis_operator.K8s.Injector.{SecretInjector}
use genesis_operator.State.{
  StateTag, Genesis, GenesisConfig, GenesisBootstrapping, PublicArtifacts, VerifyResult,
  GenesisStatus, become, keys_of, artifacts_of,
}

module _ {E : Type 0} where
  abbrev pub new : GenesisConfig → AuditSink E → Genesis E StateTag.uninitialized
  new config audit = record { config = config; audit = audit }

  unfoldable pub load :
      Genesis E StateTag.uninitialized → String → Bytes → Genesis E StateTag.initialized
  load g public_key envelope_ciphertext = record {
    config = keys_of public_key envelope_ciphertext g.config;
    audit = g.audit;
  }

  unfoldable pub status : Genesis E StateTag.active → GenesisStatus
  status g = record {
    state = StateTag.active;
    public_key = g.config.public_key;
    has_envelope = is_some g.config.envelope_ciphertext;
  }

  unfoldable pub begin_rotation : Genesis E StateTag.active → Eff E (Genesis E StateTag.rotating)
  begin_rotation g = do emit g.audit AuditEvent.begin_rotation; pure (become StateTag.rotating g)

  unfoldable pub abort_rotation : Genesis E StateTag.rotating → Eff E (Genesis E StateTag.active)
  abort_rotation g = do emit g.audit AuditEvent.abort_rotation; pure (become StateTag.active g)

  unfoldable pub retry :
      Genesis E StateTag.degraded → KmsProvider E → Eff E (Genesis E StateTag.active)
  retry g kms = do
    envelope ← lift (ok_or g.config.envelope_ciphertext no_envelope)
    _ ← kms.decrypt envelope
    emit g.audit AuditEvent.recover_from_degraded
    pure (become StateTag.active g)

  unfoldable pub begin_bootstrap :
      Genesis E StateTag.initialized → KmsProvider E → Eff E (GenesisBootstrapping E)
  begin_bootstrap g kms = do
    envelope ← lift (ok_or g.config.envelope_ciphertext no_envelope)
    private_bytes ← kms.decrypt envelope
    emit g.audit (AuditEvent.begin_bootstrap true)
    pure (record {
      inner = some (become StateTag.bootstrapping g);
      key_material = some (KeyMaterial.new private_bytes);
    })

module _ {E : Type 0} (age : AgeOps E) where
  unfoldable pub init :
      Genesis E StateTag.uninitialized
      → KmsProvider E
      → Eff E (Genesis E StateTag.initialized × PublicArtifacts)
  init g kms = do
    (public_key, key_material) ← age.generate_keypair
    envelope_ciphertext ← kms.encrypt (KeyMaterial.as_bytes key_material)
    emit g.audit (AuditEvent.init public_key (some kms.provider_name))
    pure (
      record { config = keys_of public_key envelope_ciphertext g.config; audit = g.audit },
      artifacts_of public_key envelope_ciphertext,
    )

  unfoldable pub verify : Genesis E StateTag.initialized → KmsProvider E → Eff E VerifyResult
  verify g kms = do
    envelope ← lift (ok_or g.config.envelope_ciphertext no_envelope)
    expected_pub ← lift (ok_or g.config.public_key no_public_key)
    private_bytes ← kms.decrypt envelope
    derived_pub ← lift (age.public_key_from_private private_bytes)
    let matches = str_eq derived_pub expected_pub
    emit g.audit (AuditEvent.verify matches)
    pure (record { public_key_matches = matches; public_key = derived_pub })

  unfoldable pub seal : Genesis E StateTag.initialized → Bytes → Eff E Bytes
  seal g plaintext = do
    public_key ← lift (ok_or g.config.public_key no_public_key)
    emit g.audit (AuditEvent.seal (length plaintext))
    age.encrypt_with_public_key public_key plaintext

  unfoldable pub unseal : Genesis E StateTag.initialized → KmsProvider E → Bytes → Eff E Bytes
  unseal g kms ciphertext = do
    envelope ← lift (ok_or g.config.envelope_ciphertext no_envelope)
    private_bytes ← kms.decrypt envelope
    emit g.audit (AuditEvent.unseal (length ciphertext))
    lift (age.decrypt_with_private_key private_bytes ciphertext)

  unfoldable pub complete_rotation :
      Genesis E StateTag.rotating
      → KmsProvider E
      → SecretInjector E
      → String
      → String
      → String
      → Option String
      → Option String
      → Eff E (Genesis E StateTag.active × PublicArtifacts)
  complete_rotation g kms injector name ns key bootstrap_name bootstrap_namespace = do
    (new_public_key, new_key_material) ← age.generate_keypair
    new_envelope ← kms.encrypt (KeyMaterial.as_bytes new_key_material)
    let metadata : SecretMetadata = record {
      provider_type = some g.config.provider_type;
      public_key = some new_public_key;
      bootstrap_name = bootstrap_name;
      bootstrap_namespace = bootstrap_namespace;
    }
    injector.inject (KeyMaterial.as_bytes new_key_material) name ns key (some metadata)
    emit g.audit (AuditEvent.complete_rotation new_public_key)
    pure (
      record { config = keys_of new_public_key new_envelope g.config; audit = g.audit },
      artifacts_of new_public_key new_envelope,
    )
