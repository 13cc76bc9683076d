-- ===== src/Ffi/Injecting.antt =====
-- The entry points that write key material to the cluster.
use genesis_operator.Prelude.{
  Bool, true, false, String, Option, none, some, List, [], ◌∷◌, concat, map,
}
use genesis_operator.Errors.{GenesisError, to_string}
use genesis_operator.Outcome.Effect
use genesis_operator.K8s.Cluster
use genesis_operator.K8s.Mock
use genesis_operator.Audit.{AuditEvent}
use genesis_operator.Outcome.{Res, ok, err, panicked}
use genesis_operator.K8s.Metadata.{SecretMetadata}
use genesis_operator.K8s.Injector.{SecretInjector}
use genesis_operator.State.{GenesisConfig}
use genesis_operator.State.Operations
use genesis_operator.State.Bootstrapping
use genesis_operator.State.Bootstrapping.{Target}
use genesis_operator.Ffi.{
  GenesisHandle, GenesisResult, CStr, GenesisInner, bootstrapping, active, rotating, parse_json,
  parse_c_str, optional_c_str, error_with_handle, success_result,
}
use genesis_operator.Ffi.Flow.{
  Exit, with_handle, Flow, next, return, unwinds, Body, pure, or_graft, attempt, ◌>>=◌, consumed,
  wrong_state,
}
use genesis_operator.Ffi.Calls.{Host, InjectTarget, provider_for, artifacts_exit}

module _ {E : Type 0} (host : Host E) where
  open host use {age, cloud, tls, serde}

  abbrev auth_failed : GenesisError → GenesisHandle → GenesisResult
  auth_failed e =
      error_with_handle 400 (concat ("in-cluster authentication failed: " ∷ to_string e ∷ []))

  abbrev not_in_cluster : GenesisHandle → GenesisResult
  not_in_cluster =
      error_with_handle 400 "in-cluster authentication required (KUBERNETES_SERVICE_HOST not set)"

  -- The warning is an audit event where a key is held, and else a line on the standard error.
  abbrev pub warned : GenesisInner E → String → E → E
  warned (bootstrapping b) message env = Bootstrapping.emit_audit b (AuditEvent.warning message) env
  warned _ message env = env

  -- No injector was found: a build with the feature `mock` falls back to one in memory, any other
  -- gives the machine back with the error.
  abbrev pub without_cluster :
      Bool → GenesisInner E → String → (GenesisHandle → GenesisResult) → Body E (SecretInjector E)
  without_cluster true inner message failure env =
      (next Mock.made_for_call, warned inner message env)
  without_cluster false inner message failure env = (return (with_handle inner failure), env)

  abbrev pub injector_or :
      Bool
      → GenesisInner E
      → Res (Cluster.UreqSecretInjector tls) × E
      → Flow E (SecretInjector E) × E
  injector_or mock inner (ok injector, env) =
      (next (Cluster.injector_of tls cloud.b64 cloud.web.print_json injector), env)
  injector_or mock inner (err e, env) =
      without_cluster mock inner
        (concat ("using mock secret injector (in-cluster auth failed: " ∷ to_string e ∷ ")" ∷ []))
        (auth_failed e) env
  injector_or mock inner (panicked m, env) = (unwinds m, env)

  unfoldable pub injector_if : GenesisInner E → Option String → Body E (SecretInjector E)
  injector_if inner none env =
      without_cluster cloud.mock_build inner
        "WARNING: using mock secret injector (KUBERNETES_SERVICE_HOST not set)" not_in_cluster env
  injector_if inner (some service_host) env =
      injector_or cloud.mock_build inner (Cluster.in_cluster tls env)

  -- the `match std::env::var("KUBERNETES_SERVICE_HOST")` that the three entry points share
  unfoldable pub injector_for : GenesisInner E → Body E (SecretInjector E)
  unfolding injector_if
  injector_for inner env = injector_if inner (cloud.vars.var "KUBERNETES_SERVICE_HOST" env) env

  abbrev pub metadata_of : GenesisConfig → Option String → Option String → SecretMetadata
  metadata_of config bootstrap_name bootstrap_namespace = record {
    provider_type = some config.provider_type;
    public_key = config.public_key;
    bootstrap_name = bootstrap_name;
    bootstrap_namespace = bootstrap_namespace;
  }

  unfoldable pub genesis_inject_secret :
      CStr → CStr → CStr → CStr → CStr → GenesisInner E → Body E (Exit E)
  genesis_inject_secret secret_name secret_namespace secret_key bootstrap_name bootstrap_namespace
        (bootstrapping b) =
      do
        name ← or_graft (bootstrapping b) (parse_c_str secret_name)
        ns ← or_graft (bootstrapping b) (parse_c_str secret_namespace)
        key ← or_graft (bootstrapping b) (parse_c_str secret_key)
        injector ← injector_for (bootstrapping b)
        config ← attempt consumed (Effect.lift (Bootstrapping.config_ref b))
        let metadata =
            metadata_of config (optional_c_str bootstrap_name) (optional_c_str bootstrap_namespace)
        machine ←
            attempt consumed
              (Bootstrapping.inject_secret_with_metadata b injector name ns key (some metadata))
        pure (with_handle (active machine) success_result)
  genesis_inject_secret _ _ _ _ _ other =
      wrong_state "invalid state: genesis_inject_secret requires Bootstrapping state" other

  abbrev first_text : (InjectTarget → Option String) → List InjectTarget → Option String
  first_text member [] = none
  first_text member (target ∷ rest) = member target

  abbrev target_tuple : InjectTarget → Target
  target_tuple target = (target.name, target.namespace, target.key)

  unfoldable pub genesis_inject_secrets : CStr → GenesisInner E → Body E (Exit E)
  genesis_inject_secrets targets_json (bootstrapping b) = do
    targets_str ← or_graft (bootstrapping b) (parse_c_str targets_json)
    targets ←
        or_graft (bootstrapping b)
          (parse_json 400 "invalid targets JSON: " serde.read_targets targets_str)
    injector ← injector_for (bootstrapping b)
    config ← attempt consumed (Effect.lift (Bootstrapping.config_ref b))
    let metadata =
        metadata_of config (first_text (λ t. t.bootstrap_name) targets)
          (first_text (λ t. t.bootstrap_namespace) targets)
    machine ←
        attempt consumed
          (Bootstrapping.inject_secrets_multi b injector (map target_tuple targets) (some metadata))
    pure (with_handle (active machine) success_result)
  genesis_inject_secrets targets_json other =
      wrong_state "invalid state: genesis_inject_secrets requires Bootstrapping state" other

  unfoldable pub genesis_complete_rotation :
      CStr → CStr → CStr → CStr → CStr → CStr → GenesisInner E → Body E (Exit E)
  genesis_complete_rotation kms_config_json secret_name secret_namespace secret_key bootstrap_name
        bootstrap_namespace (rotating genesis) =
      do
        provider ← provider_for host (rotating genesis) kms_config_json
        name ← or_graft (rotating genesis) (parse_c_str secret_name)
        ns ← or_graft (rotating genesis) (parse_c_str secret_namespace)
        key ← or_graft (rotating genesis) (parse_c_str secret_key)
        injector ← injector_for (rotating genesis)
        (machine, artifacts) ← attempt consumed (
            Operations.complete_rotation age genesis provider injector name ns key
              (optional_c_str bootstrap_name) (optional_c_str bootstrap_namespace))
        pure (artifacts_exit host (active machine) artifacts)
  genesis_complete_rotation _ _ _ _ _ _ other =
      wrong_state "invalid state: genesis_complete_rotation requires Rotating state" other
