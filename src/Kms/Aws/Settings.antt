-- ===== src/Kms/Aws/Settings.antt =====
-- How `AwsKmsProvider` finds its credentials: `from_env`, `from_config`, `from_env_vars`.
use genesis_operator.Prelude.{String, Option, some, ◌≡◌, ◌⊎◌, ◌&&◌, if◌then◌else◌, arith}
use genesis_operator.Errors.{kms_not_configured}
use genesis_operator.Outcome.{Res, ok, ok_or}
use genesis_operator.Outcome.Pure.{◌>>=◌}
use genesis_operator.Json.{Value, get_str}
use genesis_operator.Kms.Environment.{Environment, is_some}
use genesis_operator.Kms.Aws.{AwsKmsProvider, or_else}

unfoldable pub from_env_vars :
    Option String
    → Option String
    → Option String
    → Option String
    → Option String
    → Res AwsKmsProvider
from_env_vars access_key_id secret_access_key region key_arn session_token = do
  access_key_id ← ok_or access_key_id kms_not_configured
  secret_access_key ← ok_or secret_access_key kms_not_configured
  region ← ok_or region kms_not_configured
  key_arn ← ok_or key_arn kms_not_configured
  ok (record {
    key_arn = key_arn;
    region = region;
    access_key_id = access_key_id;
    secret_access_key = secret_access_key;
    session_token = session_token;
  })

module _ {E : Type 0} (vars : Environment E) where
  open vars use {var}

  unfoldable pub from_env : E → Res AwsKmsProvider
  unfolding from_env_vars
  from_env env =
      from_env_vars (var "AWS_ACCESS_KEY_ID" env) (var "AWS_SECRET_ACCESS_KEY" env)
        (var "AWS_DEFAULT_REGION" env) (var "GENESIS_AWS_KMS_KEY_ARN" env)
        (var "AWS_SESSION_TOKEN" env)

  unfoldable pub from_config : Value → E → Res AwsKmsProvider
  unfolding from_env_vars
  from_config settings env =
      let key_arn = get_str settings "key_arn" in
      let region = get_str settings "region" in
      let access_key_id = get_str settings "access_key_id" in
      let secret_access_key = get_str settings "secret_access_key" in
      let session_token = get_str settings "session_token" in
      if is_some access_key_id && is_some secret_access_key
      then from_env_vars access_key_id secret_access_key region key_arn session_token
      else from_env_vars (var "AWS_ACCESS_KEY_ID" env) (var "AWS_SECRET_ACCESS_KEY" env)
          (or_else region (var "AWS_DEFAULT_REGION" env))
          (or_else key_arn (var "GENESIS_AWS_KMS_KEY_ARN" env)) (var "AWS_SESSION_TOKEN" env)

  -- The key id, the secret and the session token of a provider come from one place: all three from
  -- the settings, or all three from the environment.
  pub from_config_source :
      (settings : Value) (env : E) (p : AwsKmsProvider)
      → from_config settings env ≡ ok p
      → ((get_str settings "access_key_id" ≡ some p.access_key_id)
          × (get_str settings "secret_access_key" ≡ some p.secret_access_key)
          × (get_str settings "session_token" ≡ p.session_token))
        ⊎ ((var "AWS_ACCESS_KEY_ID" env ≡ some p.access_key_id)
            × (var "AWS_SECRET_ACCESS_KEY" env ≡ some p.secret_access_key)
            × (var "AWS_SESSION_TOKEN" env ≡ p.session_token))
  unfolding from_config
  from_config_source settings env p h = ground arith
