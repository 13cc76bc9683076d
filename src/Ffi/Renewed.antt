-- ===== src/Ffi/Renewed.antt =====
-- The rotation of the key of a cluster: two calls of the C ABI (ffi.rs), where the outside answers.
use genesis_operator.Prelude.{String, Option, none, some, List, [], ◌∷◌, Bytes, ◌≡◌, refl, ap, ◌∙◌}
use genesis_operator.KeyMaterial.{as_bytes}
use genesis_operator.Outcome.{ok, good}
use genesis_operator.Audit.{AuditEvent}
use genesis_operator.Crypto.Interface.{AgePair, AgeContract}
use genesis_operator.Kms.{KmsProvider, KmsContract}
use genesis_operator.Kms.Config.{KmsConfig, create_provider}
use genesis_operator.K8s.Metadata.{secret_body}
use genesis_operator.K8s.Cluster.{UreqSecretInjector, in_cluster}
use genesis_operator.K8s.Stored.{ApiServer, inject-Present}
use genesis_operator.State.{
  StateTag, Genesis, GenesisConfig, PublicArtifacts, become, keys_of, artifacts_of,
}
use genesis_operator.State.Operations.{complete_rotation}
use genesis_operator.State.Rotation.{rotation_metadata}
use genesis_operator.State.Progress.{Available}
use genesis_operator.Ffi.{
  GenesisHandle, rotating, active, success_result_with_data, parse_c_str, optional_c_str,
}
use genesis_operator.Ffi.Flow
use genesis_operator.Ffi.Flow.{with_handle, next, pure, or_graft, attempt}
use genesis_operator.Ffi.Runtime.{Runtime}
use genesis_operator.Ffi.Calls.{Host}
use genesis_operator.Ffi.Injecting.{genesis_complete_rotation, injector_for, injector_if}
use genesis_operator.Ffi.Lifecycle.{Call, perform}
use genesis_operator.Ffi.Boxes.{WellFormed, Owns}
use genesis_operator.Ffi.Protocol.{run_successes}
use genesis_operator.Ffi.Progress.{text, writer, two_run, body-Succeeds, provider_for_found}
use genesis_operator.Ffi.Aborted.{begin_done}
use genesis_operator.Ffi.Deployed.{Configured, NoSecrets}

module _ {E : Type 0} (host : Host E) (kms : KmsProvider E) (injector : UreqSecretInjector host.tls)
    (config_text name ns key : String) where
  abbrev complete : Call E
  complete = Call.complete_rotation (text config_text) (text name) (text ns) (text key) none none

  -- what a host calls
  abbrev pub renew : List (Call E)
  renew = Call.begin_rotation ∷ complete ∷ []

  complete_rotation_runs :
      (g : Genesis E StateTag.rotating) (machine : Genesis E StateTag.active)
      (artifacts : PublicArtifacts) (json address : String) (config : KmsConfig) (env env1 env' : E)
      → host.serde.read_kms_config config_text ≡ good config
      → create_provider host.cloud config env ≡ ok kms
      → host.cloud.vars.var "KUBERNETES_SERVICE_HOST" env ≡ some address
      → in_cluster host.tls env ≡ (ok injector, env1)
      → complete_rotation host.age g kms (writer host injector) name ns key none none env1
        ≡ (ok (machine, artifacts), env')
      → host.serde.print_artifacts artifacts ≡ good json
      → perform host complete (rotating g) env
        ≡ (next (with_handle (active machine) (success_result_with_data json)), env')
  unfolding perform genesis_complete_rotation Flow.◌>>=◌ attempt pure or_graft parse_c_str
      injector_for injector_if optional_c_str
  complete_rotation_runs g machine artifacts json address config env env1 env' reads makes there
        joined ran prints =
      rw (
        provider_for_found host kms (rotating g) config_text config env reads makes,
        there,
        joined,
        ran,
        prints,
      )

  -- the body of a secret with this key, which names its public key
  abbrev pub renewed_body : GenesisConfig → String → Bytes → String
  renewed_body config public_key key_bytes = host.cloud.web.print_json (
      secret_body (host.cloud.b64.encode key_bytes) name ns key
        (some (rotation_metadata config public_key none none)))

  -- The last handle owns an active machine with new keys; in the state that the calls leave, the
  -- server stores the private key that belongs to its public key, and its envelope decrypts to no
  -- other.
  abbrev pub Renewed :
      (String → String → E → Option String)
      → Genesis E StateTag.active
      → GenesisHandle
      → Runtime E
      → Type 0
  Renewed stored g handle rt =
      (after : GenesisHandle × Runtime E) × (public_key : String) × (private_bytes envelope : Bytes)
      × (machine : Genesis E StateTag.active) × (run_successes host renew (handle, rt) ≡ some after)
      × Owns after.1 after.0 (active machine)
      × (machine.config ≡ keys_of public_key envelope g.config)
      × AgePair host.age public_key private_bytes
      × (stored ns name after.1.env ≡ some (renewed_body g.config public_key private_bytes))
      × ((result : Bytes) (env3 env4 : E)
          → kms.decrypt envelope env3 ≡ (ok result, env4)
          → result ≡ private_bytes)

  -- The rotation of the key through the C ABI, from a handle that owns an active machine, where the
  -- same is in order and answers as for a bootstrap. `genesis_begin_rotation` and
  -- `genesis_complete_rotation` report success one after the other; the last handle owns an active
  -- machine with a new public key and envelope; in the state that the calls leave, the server
  -- stores under the name and namespace that were asked for the private key that belongs to this
  -- public key; and the new envelope decrypts to this private key only. The audit sink of the
  -- machine writes no such secret.
  pub renew-Renewed :
      (g : Genesis E StateTag.active) (handle : GenesisHandle) (rt : Runtime E)
      (stored : String → String → E → Option String)
      → WellFormed rt
      → Owns rt handle (active g)
      → Configured host kms injector config_text
      → AgeContract host.age
      → KmsContract kms
      → Available host.age kms (writer host injector)
      → ApiServer host.tls host.cloud.b64 host.cloud.web.print_json injector stored
      → NoSecrets host kms injector config_text name ns key stored g.audit
      → Renewed stored g handle rt
  unfolding complete_rotation
  renew-Renewed g handle rt stored well owns ready age_laws kms_laws live server silent =
      let (s1, first, well1, owns1, _) = begin_done host g handle rt well owns in
      let (address, there) = ready.service s1.1.env in
      let (env1, joined) = ready.joins s1.1.env in
      let (keys, env2, generated) = live.generates env1 in
      let (envelope, env3, wrapped) = live.encrypts (as_bytes keys.1) env2 in
      let metadata = some (rotation_metadata g.config keys.0 none none) in
      let (u, env4, injected) = live.injects (as_bytes keys.1) name ns key metadata env3 in
      let env5 = g.audit.emit_event (AuditEvent.complete_rotation keys.0) env4 in
      let machine : Genesis E StateTag.active = record {
        config = keys_of keys.0 envelope g.config;
        audit = g.audit;
      } in
      let (json, printed) = ready.prints (artifacts_of keys.0 envelope) in
      let rotated : complete_rotation host.age (become StateTag.rotating g) kms
            (writer host injector) name ns key none none env1
          ≡ (ok (machine, artifacts_of keys.0 envelope), env5) =
        rw (generated, wrapped, injected) in
      let (h2, rt2, second, _, owns2, last) =
        body-Succeeds host complete s1.0 s1.1 (rotating (become StateTag.rotating g))
          (active machine) _ env5 well1 owns1
          (complete_rotation_runs (become StateTag.rotating g) machine
            (artifacts_of keys.0 envelope) json address ready.config s1.1.env env1 env5 ready.reads
            (ready.makes s1.1.env) there joined rotated printed)
          (λ h. (refl, refl)) in
      let kept =
        inject-Present host.tls host.cloud.b64 host.cloud.web.print_json injector stored server
          (as_bytes keys.1) name ns key metadata env3 env4 injected in
      (
        (h2, rt2),
        keys.0,
        as_bytes keys.1,
        envelope,
        machine,
        two_run host Call.begin_rotation complete (handle, rt) s1 (h2, rt2) first second,
        owns2,
        refl,
        age_laws.generates keys.0 keys.1 env1 env2 generated,
        ap (stored ns name) last ∙ silent (AuditEvent.complete_rotation keys.0) env4 ∙ kept.0,
        λ result e e' unwrapped.
            kms_laws.unwraps (as_bytes keys.1) envelope result env2 env3 e e' wrapped unwrapped,
      )
