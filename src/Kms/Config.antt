-- ===== src/Kms/Config.antt =====
-- genesis-core/src/kms/config.rs. The feature `mock` of the build is a Boolean.
pub mod Contract
use genesis_operator.Prelude.{String, str_eq, if◌then◌else◌, ◌||◌, ◌&&◌, Bool}
use genesis_operator.Errors.{kms_call_failed, kms_not_configured}
use genesis_operator.Outcome.{Res, ok, err, res_map}
use genesis_operator.Json.{Value}
use genesis_operator.Http.{Web, Base64}
use genesis_operator.Kms.{KmsProvider, null_kms_provider}
use genesis_operator.Kms.Mock
use genesis_operator.Kms.Environment.{Environment}
use genesis_operator.Kms.Aws
use genesis_operator.Kms.Aws.Settings
use genesis_operator.Kms.Gcp
use genesis_operator.Kms.Azure

pub record KmsConfig : Type 0 where
  pub provider_type : String
  pub settings : Value

-- What the providers are made with.
pub record Cloud (E : Type 0) : Type 0 where
  pub vars : Environment E
  pub web : Web E
  pub sign : Aws.Signer E
  pub b64 : Base64
  pub b64_url : Base64
  pub replies : Azure.AzureReplies
  pub mock_build : Bool

module _ {E : Type 0} (cloud : Cloud E) where
  open cloud use {vars, web, sign, b64, b64_url, replies, mock_build}

  unfoldable pub create_provider : KmsConfig → E → Res (KmsProvider E)
  create_provider config env =
      if mock_build && str_eq config.provider_type "mock"
      then ok (Mock.provider Mock.new)
      else if mock_build && str_eq config.provider_type "null"
      then ok null_kms_provider
      else if str_eq config.provider_type "mock" || str_eq config.provider_type "null"
      then err kms_not_configured
      else if str_eq config.provider_type "aws"
      then res_map (Aws.provider web sign b64) (Settings.from_config vars config.settings env)
      else if str_eq config.provider_type "gcp"
      then res_map (Gcp.provider web b64) (Gcp.from_config vars config.settings env)
      else if str_eq config.provider_type "azure"
      then res_map (Azure.provider web replies b64_url) (Azure.from_config vars config.settings env)
      else if str_eq config.provider_type "local"
      then err (
          kms_call_failed
            "local provider requires identity keys; use LocalKmsProvider::from_envelope()")
      else err kms_not_configured
