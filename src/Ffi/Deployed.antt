-- ===== src/Ffi/Deployed.antt =====
-- From an uninitialized machine to a cluster that holds its key: three calls of the C ABI (ffi.rs),
-- where the outside answers.
use genesis_operator.Prelude.{
  String, true, Option, none, some, List, [], ◌∷◌, Bytes, ◌≡◌, refl, ap, ◌∙◌,
}
use genesis_operator.KeyMaterial
use genesis_operator.KeyMaterial.{KeyMaterial, as_bytes}
use genesis_operator.Outcome.{ok, good}
use genesis_operator.Audit.{AuditEvent, AuditSink}
use genesis_operator.Crypto.Interface.{AgePair, AgeContract}
use genesis_operator.Kms.{KmsProvider, KmsContract}
use genesis_operator.Kms.Config.{KmsConfig, create_provider}
use genesis_operator.K8s.Metadata.{SecretMetadata, secret_body}
use genesis_operator.K8s.Cluster.{UreqSecretInjector, in_cluster}
use genesis_operator.K8s.Stored.{ApiServer, inject-Present}
use genesis_operator.State.{
  StateTag, Genesis, GenesisConfig, PublicArtifacts, become, keys_of, artifacts_of,
}
use genesis_operator.State.Operations.{init, begin_bootstrap}
use genesis_operator.State.Bootstrapping.{inject_secret_with_metadata}
use genesis_operator.State.Injection.{holding, inject_secret_calls}
use genesis_operator.State.Progress.{Available}
use genesis_operator.Ffi.{GenesisHandle, uninitialized, initialized, bootstrapping, active}
use genesis_operator.Ffi.Runtime.{Runtime, enter}
use genesis_operator.Ffi.Calls.{Host}
use genesis_operator.Ffi.Injecting.{metadata_of}
use genesis_operator.Ffi.Lifecycle.{Call, perform}
use genesis_operator.Ffi.Boxes.{WellFormed, Owns}
use genesis_operator.Ffi.Protocol.{success_of, run_successes}
use genesis_operator.Ffi.Progress.{
  text, writer, three_run, body-Succeeds, genesis_init_runs, genesis_begin_bootstrap_runs,
  genesis_inject_secret_runs,
}

module _ {E : Type 0} (host : Host E) (kms : KmsProvider E) (injector : UreqSecretInjector host.tls)
    (config_text : String) where
  -- The texts and the environment are in order: the configuration names this key service, the
  -- artifacts can be printed, and the service account of the cluster is there.
  pub record Configured : Type 0 where
    pub config : KmsConfig
    pub reads : host.serde.read_kms_config config_text ≡ good config
    pub makes : (env : E) → create_provider host.cloud config env ≡ ok kms
    pub prints :
        (artifacts : PublicArtifacts)
        → (json : String) × (host.serde.print_artifacts artifacts ≡ good json)
    pub service :
        (env : E)
        → (address : String) × (host.cloud.vars.var "KUBERNETES_SERVICE_HOST" env ≡ some address)
    pub joins : (env : E) → (env' : E) × (in_cluster host.tls env ≡ (ok injector, env'))

  module _ (name ns key : String) where
    -- what a host calls
    abbrev pub deploy : List (Call E)
    deploy =
        Call.init (text config_text)
        ∷ Call.begin_bootstrap (text config_text)
        ∷ Call.inject_secret (text name) (text ns) (text key) none none
        ∷ []

    -- the audit sink writes no secret of this name and namespace
    abbrev pub NoSecrets : (String → String → E → Option String) → AuditSink E → Type 0
    NoSecrets stored audit =
        (event : AuditEvent) (env : E)
        → stored ns name (audit.emit_event event env) ≡ stored ns name env

    -- The last handle owns an active machine with the new keys, and in the state that the calls
    -- leave, the server stores the private key that belongs to its public key.
    abbrev pub Deployed :
        (String → String → E → Option String)
        → Genesis E StateTag.uninitialized
        → GenesisHandle
        → Runtime E
        → Type 0
    Deployed stored g handle rt =
        (after : GenesisHandle × Runtime E) × (public_key : String) × (private_bytes
          envelope : Bytes)
        × (machine : Genesis E StateTag.active) × (run_successes host deploy (handle, rt)
            ≡ some after)
        × Owns after.1 after.0 (active machine)
        × (machine.config ≡ keys_of public_key envelope g.config)
        × AgePair host.age public_key private_bytes
        × (stored ns name after.1.env
            ≡ some (
                host.cloud.web.print_json (
                  secret_body (host.cloud.b64.encode private_bytes) name ns key
                    (some (metadata_of host machine.config none none)))))

    -- the body of a secret with this key
    abbrev body_of : GenesisConfig → Bytes → String
    body_of config key_bytes = host.cloud.web.print_json (
        secret_body (host.cloud.b64.encode key_bytes) name ns key
          (some (metadata_of host config none none)))

    abbrev answer_of : Call E → GenesisHandle × Runtime E → Option (GenesisHandle × Runtime E)
    answer_of call start = success_of (enter (perform host call) start.0 start.1)

    module _ (ready : Configured) (live : Available host.age kms (writer host injector)) where
      init_done :
          (g : Genesis E StateTag.uninitialized) (start : GenesisHandle × Runtime E)
          → WellFormed start.1
          → Owns start.1 start.0 (uninitialized g)
          → AgeContract host.age
          → (after : GenesisHandle × Runtime E) × (public_key : String) × (private_bytes
              envelope : Bytes)
            × (env1 env2 : E) × (answer_of (Call.init (text config_text)) start ≡ some after)
            × WellFormed after.1
            × Owns after.1 after.0 (
                initialized
                  (record { config = keys_of public_key envelope g.config; audit = g.audit }))
            × AgePair host.age public_key private_bytes
            × (kms.encrypt private_bytes env1 ≡ (ok envelope, env2))
      unfolding init
      init_done g start well owns age_laws =
          let (keys, env1, generated) = live.generates start.1.env in
          let (envelope, env2, wrapped) = live.encrypts (as_bytes keys.1) env1 in
          let env3 = g.audit.emit_event (AuditEvent.init keys.0 (some kms.provider_name)) env2 in
          let made : Genesis E StateTag.initialized = record {
            config = keys_of keys.0 envelope g.config;
            audit = g.audit;
          } in
          let (json, printed) = ready.prints (artifacts_of keys.0 envelope) in
          let (h1, rt1, first, well1, owns1, _) =
            body-Succeeds host (Call.init (text config_text)) start.0 start.1 (uninitialized g)
              (initialized made) _ env3 well owns
              (genesis_init_runs host kms g made (artifacts_of keys.0 envelope) config_text json
                ready.config start.1.env env3 ready.reads (ready.makes start.1.env)
                (rw (generated, wrapped)) printed)
              (λ h. (refl, refl)) in
          (
            (h1, rt1),
            keys.0,
            as_bytes keys.1,
            envelope,
            env1,
            env2,
            first,
            well1,
            owns1,
            age_laws.generates keys.0 keys.1 start.1.env env1 generated,
            wrapped,
          )

      bootstrap_done :
          (g : Genesis E StateTag.initialized) (private_bytes envelope : Bytes) (env1 env2 : E)
          (start : GenesisHandle × Runtime E)
          → WellFormed start.1
          → Owns start.1 start.0 (initialized g)
          → g.config.envelope_ciphertext ≡ some envelope
          → kms.encrypt private_bytes env1 ≡ (ok envelope, env2)
          → KmsContract kms
          → (after : GenesisHandle × Runtime E) × (answer_of
                (Call.begin_bootstrap (text config_text))
                start
              ≡ some after)
            × WellFormed after.1
            × Owns after.1 after.0 (
                bootstrapping
                  (holding (become StateTag.bootstrapping g) (KeyMaterial.new private_bytes)))
      unfolding begin_bootstrap
      bootstrap_done g private_bytes envelope env1 env2 start well owns has wrapped kms_laws =
          let (result, env4, unwrapped) =
            live.decrypts private_bytes envelope env1 env2 start.1.env wrapped in
          let same =
            kms_laws.unwraps private_bytes envelope result env1 env2 start.1.env env4 wrapped
              unwrapped in
          let env5 = g.audit.emit_event (AuditEvent.begin_bootstrap true) env4 in
          let b = holding (become StateTag.bootstrapping g) (KeyMaterial.new private_bytes) in
          let begun : begin_bootstrap g kms start.1.env ≡ (ok b, env5) =
            rw (has, unwrapped, same) in
          let (h2, rt2, second, well2, owns2, _) =
            body-Succeeds host (Call.begin_bootstrap (text config_text)) start.0 start.1
              (initialized g) (bootstrapping b) _ env5 well owns
              (genesis_begin_bootstrap_runs host kms g b config_text ready.config start.1.env env5
                ready.reads (ready.makes start.1.env) begun)
              (λ h. (refl, refl)) in
          ((h2, rt2), second, well2, owns2)

      inject_done :
          (g : Genesis E StateTag.bootstrapping) (held : KeyMaterial)
          (start : GenesisHandle × Runtime E) (stored : String → String → E → Option String)
          → WellFormed start.1
          → Owns start.1 start.0 (bootstrapping (holding g held))
          → ApiServer host.tls host.cloud.b64 host.cloud.web.print_json injector stored
          → NoSecrets stored g.audit
          → (after : GenesisHandle × Runtime E) × (answer_of
                (Call.inject_secret (text name) (text ns) (text key) none none)
                start
              ≡ some after)
            × Owns after.1 after.0 (active (become StateTag.active g))
            × (stored ns name after.1.env ≡ some (body_of g.config (as_bytes held)))
      inject_done g held start stored well owns server silent =
          let (address, there) = ready.service start.1.env in
          let (env6, joined) = ready.joins start.1.env in
          let metadata : Option SecretMetadata = some (metadata_of host g.config none none) in
          let (u, env7, injected) = live.injects (as_bytes held) name ns key metadata env6 in
          let env8 = g.audit.emit_event (AuditEvent.inject_secret name ns true) env7 in
          let wrote : inject_secret_with_metadata (holding g held) (writer host injector) name ns
                key metadata env6
              ≡ (ok (become StateTag.active g), env8) =
            inject_secret_calls g held (writer host injector) name ns key metadata env6
            ∙ rw injected in
          let (h3, rt3, third, _, owns3, last) =
            body-Succeeds host (Call.inject_secret (text name) (text ns) (text key) none none)
              start.0 start.1 (bootstrapping (holding g held)) (active (become StateTag.active g)) _
              env8 well owns
              (genesis_inject_secret_runs host injector g held (become StateTag.active g) name ns
                key address start.1.env env6 env8 there joined wrote)
              (λ h. (refl, refl)) in
          let kept =
            inject-Present host.tls host.cloud.b64 host.cloud.web.print_json injector stored server
              (as_bytes held) name ns key metadata env6 env7 injected in
          (
            (h3, rt3),
            third,
            owns3,
            ap (stored ns name) last ∙ silent (AuditEvent.inject_secret name ns true) env7 ∙ kept.0,
          )

    -- The bootstrap of a cluster through the C ABI, from a handle that owns an uninitialized
    -- machine. The configuration can be read, key generation, key service and cluster answer and
    -- keep their contracts, and the API server does what its reference says. Then `genesis_init`,
    -- `genesis_begin_bootstrap` and `genesis_inject_secret` report success one after the other; the
    -- last handle owns an active machine with a new public key and its envelope; and in the state
    -- that the calls leave, the server stores under the name and namespace that were asked for the
    -- private key that belongs to this public key. The audit sink of the machine writes no such
    -- secret.
    pub deploy-Deployed :
        (g : Genesis E StateTag.uninitialized) (handle : GenesisHandle) (rt : Runtime E)
        (stored : String → String → E → Option String)
        → WellFormed rt
        → Owns rt handle (uninitialized g)
        → Configured
        → AgeContract host.age
        → KmsContract kms
        → Available host.age kms (writer host injector)
        → ApiServer host.tls host.cloud.b64 host.cloud.web.print_json injector stored
        → NoSecrets stored g.audit
        → Deployed stored g handle rt
    deploy-Deployed g handle rt stored well owns ready age_laws kms_laws live server silent =
        let (
          s1, public_key, private_bytes, envelope, env1, env2, first, well1, owns1, pair, wrapped,
        ) =
          init_done ready live g (handle, rt) well owns age_laws in
        let made : Genesis E StateTag.initialized = record {
          config = keys_of public_key envelope g.config;
          audit = g.audit;
        } in
        let (s2, second, well2, owns2) =
          bootstrap_done ready live made private_bytes envelope env1 env2 s1 well1 owns1 refl
            wrapped kms_laws in
        let (s3, third, owns3, kept) =
          inject_done ready live (become StateTag.bootstrapping made)
            (KeyMaterial.new private_bytes) s2 stored well2 owns2 server silent in
        (
          s3,
          public_key,
          private_bytes,
          envelope,
          become StateTag.active (become StateTag.bootstrapping made),
          three_run host (Call.init (text config_text)) (Call.begin_bootstrap (text config_text))
              (Call.inject_secret (text name) (text ns) (text key) none none) (handle, rt) s1 s2 s3
              first second third,
          owns3,
          refl,
          pair,
          kept,
        )
