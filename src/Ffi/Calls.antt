-- ===== src/Ffi/Calls.antt =====
-- The entry points of ffi.rs that take a handle, each as the function of the machine that
-- `take_inner` took out of its box. Those that write to the cluster are in `Ffi.Injecting`.
use genesis_operator.Prelude.{
  String, Option, none, some, Bytes, List, is_empty, [], ◌∷◌, concat, if◌then◌else◌,
}
use genesis_operator.Outcome.{Ext, good, bad}
use genesis_operator.Crypto.Interface.{AgeOps}
use genesis_operator.Kms.{KmsProvider}
use genesis_operator.Kms.Config.{KmsConfig, Cloud, create_provider}
use genesis_operator.K8s.Cluster.{Tls}
use genesis_operator.State.{
  StateTag, Genesis, GenesisConfig, PublicArtifacts, VerifyResult, GenesisStatus,
}
use genesis_operator.State.Operations
use genesis_operator.Ffi.{
  CStr, GenesisInner, uninitialized, initialized, bootstrapping, active, rotating, parse_c_str,
  parse_kms_config, error_with_handle, success_result, success_result_with_data, c_string,
}
use genesis_operator.Ffi.Flow.{
  Exit, with_handle, Body, pure, or_graft, attempt, ◌>>=◌, keeping, consumed, wrong_state,
}

pub record InjectTarget : Type 0 where
  pub name : String
  pub namespace : String
  pub key : String
  pub bootstrap_name : Option String
  pub bootstrap_namespace : Option String

-- What `serde_json` makes of the types that cross the boundary as JSON.
pub record Serde : Type 0 where
  pub read_config : String → Ext GenesisConfig
  pub read_kms_config : String → Ext KmsConfig
  pub read_targets : String → Ext (List InjectTarget)
  pub print_artifacts : PublicArtifacts → Ext String
  pub print_verify : VerifyResult → Ext String
  pub print_status : GenesisStatus → Ext String

-- An out-parameter: absent where the pointer is null, else the write to the memory of the caller.
abbrev pub Out : Type 0 → Type 0
Out E = Option (Option String → E → E)

-- What the entry points stand on.
pub record Host (E : Type 0) : Type 1 where
  pub age : AgeOps E
  pub cloud : Cloud E
  pub tls : Tls E
  pub serde : Serde

-- `serde_json::to_string(a).unwrap_or_default()`
abbrev or_empty : Ext String → String
or_empty (good s) = s
or_empty (bad e) = ""

abbrev c_json : Ext String → Option String
c_json (good json) = some (c_string json "{}")
c_json (bad e) = none

module _ {E : Type 0} (host : Host E) where
  open host use {age, cloud, serde}

  unfoldable pub write_out : Out E → Ext String → Body E (Unit {0})
  unfolding pure
  write_out none json env = pure tt env
  write_out (some write) json env = pure tt (write (c_json json) env)

  -- the two steps that begin each call that needs the key service
  unfoldable pub provider_for : GenesisInner E → CStr → Body E (KmsProvider E)
  provider_for inner kms_config_json = do
    kms_config ← or_graft inner (parse_kms_config serde.read_kms_config kms_config_json)
    attempt (keeping inner) (λ env. (create_provider cloud kms_config env, env))

  abbrev pub printed_exit : GenesisInner E → Ext String → Exit E
  printed_exit inner (good json) = with_handle inner (success_result_with_data json)
  printed_exit inner (bad e) =
      with_handle inner
        (error_with_handle 500 (concat ("failed to serialize artifacts: " ∷ e ∷ [])))

  -- how a call that made new artifacts ends
  abbrev pub artifacts_exit : GenesisInner E → PublicArtifacts → Exit E
  artifacts_exit inner artifacts = printed_exit inner (serde.print_artifacts artifacts)

  unfoldable pub genesis_init : CStr → GenesisInner E → Body E (Exit E)
  genesis_init kms_config_json (uninitialized genesis) = do
    provider ← provider_for (uninitialized genesis) kms_config_json
    (machine, artifacts) ← attempt consumed (Operations.init age genesis provider)
    pure (artifacts_exit (initialized machine) artifacts)
  genesis_init kms_config_json other =
      wrong_state "invalid state: genesis_init requires Uninitialized state" other

  -- `envelope` is the buffer, absent where its pointer is null
  unfoldable pub loaded : Genesis E StateTag.uninitialized → String → Option Bytes → Body E (Exit E)
  loaded genesis pk_str none = pure (
      with_handle (uninitialized genesis)
        (error_with_handle 100 "envelope_ciphertext is null or empty"))
  loaded genesis pk_str (some envelope) =
      if is_empty envelope
      then pure (
          with_handle (uninitialized genesis)
            (error_with_handle 100 "envelope_ciphertext is null or empty"))
      else pure (with_handle (initialized (Operations.load genesis pk_str envelope)) success_result)

  unfoldable pub genesis_load : CStr → Option Bytes → GenesisInner E → Body E (Exit E)
  genesis_load public_key envelope_ciphertext (uninitialized genesis) = do
    pk_str ← or_graft (uninitialized genesis) (parse_c_str public_key)
    loaded genesis pk_str envelope_ciphertext
  genesis_load public_key envelope_ciphertext other =
      wrong_state "invalid state: genesis_load requires Uninitialized state" other

  unfoldable pub genesis_verify : CStr → Out E → GenesisInner E → Body E (Exit E)
  genesis_verify kms_config_json result_json_out (initialized genesis) = do
    provider ← provider_for (initialized genesis) kms_config_json
    verify_result ← attempt (keeping (initialized genesis)) (Operations.verify age genesis provider)
    _ ← write_out result_json_out (serde.print_verify verify_result)
    pure (
        with_handle (initialized genesis)
          (success_result_with_data (or_empty (serde.print_verify verify_result))))
  genesis_verify kms_config_json result_json_out other =
      wrong_state "invalid state: genesis_verify requires Initialized state" other

  unfoldable pub genesis_begin_bootstrap : CStr → GenesisInner E → Body E (Exit E)
  genesis_begin_bootstrap kms_config_json (initialized genesis) = do
    provider ← provider_for (initialized genesis) kms_config_json
    machine ← attempt consumed (Operations.begin_bootstrap genesis provider)
    pure (with_handle (bootstrapping machine) success_result)
  genesis_begin_bootstrap kms_config_json other =
      wrong_state "invalid state: genesis_begin_bootstrap requires Initialized state" other

  unfoldable pub genesis_status : Out E → GenesisInner E → Body E (Exit E)
  genesis_status status_json_out (active genesis) = do
    let json = serde.print_status (Operations.status genesis)
    _ ← write_out status_json_out json
    pure (with_handle (active genesis) (success_result_with_data (or_empty json)))
  genesis_status status_json_out other =
      wrong_state "invalid state: genesis_status requires Active state" other

  unfoldable pub genesis_begin_rotation : GenesisInner E → Body E (Exit E)
  genesis_begin_rotation (active genesis) = do
    machine ← attempt consumed (Operations.begin_rotation genesis)
    pure (with_handle (rotating machine) success_result)
  genesis_begin_rotation other =
      wrong_state "invalid state: genesis_begin_rotation requires Active state" other

  unfoldable pub genesis_abort_rotation : GenesisInner E → Body E (Exit E)
  genesis_abort_rotation (rotating genesis) = do
    machine ← attempt consumed (Operations.abort_rotation genesis)
    pure (with_handle (active machine) success_result)
  genesis_abort_rotation other =
      wrong_state "invalid state: genesis_abort_rotation requires Rotating state" other
