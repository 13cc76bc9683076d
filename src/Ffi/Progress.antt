-- ===== src/Ffi/Progress.antt =====
-- The bootstrap of a cluster through the C ABI (ffi.rs): `genesis_init`, `genesis_begin_bootstrap`,
-- `genesis_inject_secret`, where the outside answers.
use genesis_operator.Prelude.{
  ◌==◌, suc, String, true, false, none, some, [], ◌∷◌, ◌≡◌, refl, subst, arith,
}
use genesis_operator.KeyMaterial.{KeyMaterial}
use genesis_operator.Outcome.{ok, good}
use genesis_operator.Kms.{KmsProvider}
use genesis_operator.Kms.Config.{KmsConfig, create_provider}
use genesis_operator.K8s.Injector.{SecretInjector}
use genesis_operator.K8s.Cluster.{UreqSecretInjector, injector_of, in_cluster}
use genesis_operator.State.{StateTag, Genesis, GenesisBootstrapping, PublicArtifacts}
use genesis_operator.State.Operations
use genesis_operator.State.Bootstrapping.{inject_secret_with_metadata, config_ref}
use genesis_operator.State.Injection.{holding}
use genesis_operator.Ffi.{
  CStr, parse_c_str, parse_kms_config, optional_c_str, success_result, success_result_with_data,
  GenesisHandle, GenesisResult, GenesisInner, uninitialized, initialized, bootstrapping, active,
  state_tag,
}
use genesis_operator.Ffi.Flow
use genesis_operator.Ffi.Flow.{with_handle, next, pure, or_graft, attempt}
use genesis_operator.Ffi.Runtime.{Runtime, put, enter, settle, inner_to_handle}
use genesis_operator.Ffi.Calls.{Host, provider_for, genesis_init, genesis_begin_bootstrap}
use genesis_operator.Ffi.Injecting.{genesis_inject_secret, injector_for, injector_if, metadata_of}
use genesis_operator.Ffi.Sound.{SoundEnd}
use genesis_operator.Ffi.Lifecycle.{Call, move_of, perform, perform_sound}
use genesis_operator.Ffi.Boxes.{WellFormed, Owns, put-same, settled}
use genesis_operator.Ffi.Protocol.{success_of, run_successes}

module _ {E : Type 0} (host : Host E) where
  -- a call that reports success, and the machine that the handle of its result owns
  abbrev Succeeds : Call E → GenesisHandle → Runtime E → GenesisInner E → E → Type 0
  Succeeds call handle rt inner env =
      (handle' : GenesisHandle) × (rt' : Runtime E) × (success_of
          (enter (perform host call) handle rt)
        ≡ some (handle', rt'))
      × WellFormed rt'
      × Owns rt' handle' inner
      × (rt'.env ≡ env)

  pub two_run :
      (c1 c2 : Call E) (s0 s1 s2 : GenesisHandle × Runtime E)
      → success_of (enter (perform host c1) s0.0 s0.1) ≡ some s1
      → success_of (enter (perform host c2) s1.0 s1.1) ≡ some s2
      → run_successes host (c1 ∷ c2 ∷ []) s0 ≡ some s2
  unfolding run_successes
  two_run c1 c2 s0 s1 s2 first second = rw (first, second)

  -- three calls that succeed
  pub three_run :
      (c1 c2 c3 : Call E) (s0 s1 s2 s3 : GenesisHandle × Runtime E)
      → success_of (enter (perform host c1) s0.0 s0.1) ≡ some s1
      → success_of (enter (perform host c2) s1.0 s1.1) ≡ some s2
      → success_of (enter (perform host c3) s2.0 s2.1) ≡ some s3
      → run_successes host (c1 ∷ c2 ∷ c3 ∷ []) s0 ≡ some s3
  unfolding run_successes
  three_run c1 c2 c3 s0 s1 s2 s3 first second third = rw (first, second, third)

  pub body-Succeeds :
      (call : Call E) (handle : GenesisHandle) (rt : Runtime E) (inner inner' : GenesisInner E)
      (f : GenesisHandle → GenesisResult) (env' : E)
      → WellFormed rt
      → Owns rt handle inner
      → perform host call inner rt.env ≡ (next (with_handle inner' f), env')
      → ((h : GenesisHandle) → ((f h).success ≡ true) × ((f h).handle ≡ h))
      → Succeeds call handle rt inner' env'
  unfolding enter settle inner_to_handle
  body-Succeeds call handle rt inner inner' f env' well owns ran says =
      let not_null : (handle.ptr == 0) ≡ false = ground (arith, well, owns) in
      let new_handle : GenesisHandle = record { ptr = rt.fresh; state = state_tag inner' } in
      let sound =
        subst (λ z. SoundEnd (state_tag inner) (move_of call) z.0) ran
          (perform_sound host call inner rt.env) in
      let fact =
        settled (state_tag inner) (move_of call) rt handle.ptr inner (next (with_handle inner' f))
          env' well owns.0 sound in
      (
        new_handle,
        record rt {
          env = env';
          heap = put (put rt.heap handle.ptr none) rt.fresh (some inner');
          fresh = suc rt.fresh;
        },
        rw (not_null, owns.0, ran, (says new_handle).0, (says new_handle).1),
        fact.0.3,
        (put-same (put rt.heap handle.ptr none) rt.fresh (some inner'), refl),
        refl,
      )

-- a text that crosses the boundary
abbrev pub text : String → CStr
text s = some (good s)

module _ {E : Type 0} (host : Host E) (kms : KmsProvider E) where
  -- the first two steps of a call that needs the key service
  pub provider_for_found :
      (inner : GenesisInner E) (config_text : String) (config : KmsConfig) (env : E)
      → host.serde.read_kms_config config_text ≡ good config
      → create_provider host.cloud config env ≡ ok kms
      → provider_for host inner (text config_text) env ≡ (next kms, env)
  unfolding provider_for parse_kms_config parse_c_str or_graft attempt Flow.◌>>=◌
  provider_for_found inner config_text config env reads makes = rw (reads, makes)

  pub genesis_init_runs :
      (g : Genesis E StateTag.uninitialized) (made : Genesis E StateTag.initialized)
      (artifacts : PublicArtifacts) (config_text json : String) (config : KmsConfig) (env env' : E)
      → host.serde.read_kms_config config_text ≡ good config
      → create_provider host.cloud config env ≡ ok kms
      → Operations.init host.age g kms env ≡ (ok (made, artifacts), env')
      → host.serde.print_artifacts artifacts ≡ good json
      → perform host (Call.init (text config_text)) (uninitialized g) env
        ≡ (next (with_handle (initialized made) (success_result_with_data json)), env')
  unfolding perform genesis_init Flow.◌>>=◌ attempt pure
  genesis_init_runs g made artifacts config_text json config env env' reads makes ran prints =
      rw (provider_for_found (uninitialized g) config_text config env reads makes, ran, prints)

  pub genesis_begin_bootstrap_runs :
      (g : Genesis E StateTag.initialized) (b : GenesisBootstrapping E) (config_text : String)
      (config : KmsConfig) (env env' : E)
      → host.serde.read_kms_config config_text ≡ good config
      → create_provider host.cloud config env ≡ ok kms
      → Operations.begin_bootstrap g kms env ≡ (ok b, env')
      → perform host (Call.begin_bootstrap (text config_text)) (initialized g) env
        ≡ (next (with_handle (bootstrapping b) success_result), env')
  unfolding perform genesis_begin_bootstrap Flow.◌>>=◌ attempt pure
  genesis_begin_bootstrap_runs g b config_text config env env' reads makes ran =
      rw (provider_for_found (initialized g) config_text config env reads makes, ran)

module _ {E : Type 0} (host : Host E) (injector : UreqSecretInjector host.tls) where
  abbrev pub writer : SecretInjector E
  writer = injector_of host.tls host.cloud.b64 host.cloud.web.print_json injector

  pub genesis_inject_secret_runs :
      (g : Genesis E StateTag.bootstrapping) (held : KeyMaterial)
      (machine : Genesis E StateTag.active) (name ns key address : String) (env env1 env' : E)
      → host.cloud.vars.var "KUBERNETES_SERVICE_HOST" env ≡ some address
      → in_cluster host.tls env ≡ (ok injector, env1)
      → inject_secret_with_metadata
          (holding g held)
          writer
          name
          ns
          key
          (some (metadata_of host g.config none none))
          env1
        ≡ (ok machine, env')
      → perform host
          (Call.inject_secret (text name) (text ns) (text key) none none)
          (bootstrapping (holding g held))
          env
        ≡ (next (with_handle (active machine) success_result), env')
  unfolding perform genesis_inject_secret Flow.◌>>=◌ attempt pure or_graft parse_c_str injector_for
      injector_if config_ref optional_c_str
  genesis_inject_secret_runs g held machine name ns key address env env1 env' there joined ran =
      rw (there, joined, ran)
