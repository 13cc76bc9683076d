-- ===== src/Kms/Config/Contract.antt =====
-- Every provider that `create_provider` makes keeps the contract of a key service.
use genesis_operator.Prelude.{
  Bool, true, false, str_eq, ◌||◌, ◌&&◌, sym, ap, ◌∙◌, if◌then◌else◌, ◌≡◌, subst,
}
use genesis_operator.Outcome.{Res, ok, err, panicked, res_map}
use genesis_operator.Http.{Base64Law}
use genesis_operator.Kms.{KmsProvider, KmsContract, null_kms_provider}
use genesis_operator.Kms.Mock
use genesis_operator.Kms.Mock.Laws.{ok_inj, mock-KmsContract}
use genesis_operator.Kms.Config.{KmsConfig, Cloud, create_provider}
use genesis_operator.Kms.Aws
use genesis_operator.Kms.Aws.{AwsKmsProvider}
use genesis_operator.Kms.Aws.Replies.{AwsService, aws_provider-KmsContract}
use genesis_operator.Kms.Gcp
use genesis_operator.Kms.Gcp.{GcpKmsProvider}
use genesis_operator.Kms.Gcp.Replies.{GcpService, gcp_provider-KmsContract}
use genesis_operator.Kms.Azure
use genesis_operator.Kms.Azure.{AzureKeyVaultProvider}
use genesis_operator.Kms.Azure.Replies.{AzureService, azure_provider-KmsContract}

module _ {E : Type 0} (cloud : Cloud E) where
  open cloud use {web, sign, b64, b64_url, replies, mock_build}

  -- the three services, each with any settings, and base64
  pub record Services : Type 0 where
    pub aws : (p : AwsKmsProvider) → AwsService web sign b64 p
    pub gcp : (p : GcpKmsProvider) → GcpService web b64 p
    pub azure : (p : AzureKeyVaultProvider) → AzureService web replies b64_url p
    pub base64 : Base64Law b64

  -- the provider, if there is one
  abbrev Keeps : Res (KmsProvider E) → Type 0
  Keeps (ok kms) = KmsContract kms
  Keeps (err e) = Unit {0}
  Keeps (panicked m) = Unit {0}

  if_Keeps : (b : Bool) (x y : Res (KmsProvider E)) → Keeps x → Keeps y → Keeps (if b then x else y)
  if_Keeps true x y f g = f
  if_Keeps false x y f g = g

  res_map-Keeps :
      {A : Type 0} (f : A → KmsProvider E) (r : Res A)
      → ((a : A) → KmsContract (f a))
      → Keeps (res_map f r)
  res_map-Keeps f (ok a) keeps = keeps a
  res_map-Keeps f (err e) keeps = tt
  res_map-Keeps f (panicked m) keeps = tt

  null-KmsContract : KmsContract (null_kms_provider {E = E})
  null-KmsContract = record {
    unwraps = λ plaintext ciphertext result env1 env2 env3 env4 h k.
        sym (ok_inj (ap (λ p. p.0) h) ∙ ok_inj (ap (λ p. p.0) k));
  }

  create_provider-Keeps :
      (config : KmsConfig) (env : E) → Services → Keeps (create_provider cloud config env)
  unfolding create_provider
  create_provider-Keeps config env services =
      let is = str_eq config.provider_type in
      if_Keeps (mock_build && is "mock") _ _ (mock-KmsContract Mock.new) (
        if_Keeps (mock_build && is "null") _ _ null-KmsContract (
          if_Keeps (is "mock" || is "null") _ _ tt (
            if_Keeps (is "aws") _ _
              (res_map-Keeps (Aws.provider web sign b64) _
                (λ p. aws_provider-KmsContract web sign b64 p services.base64 (services.aws p)))
              (if_Keeps (is "gcp") _ _
                (res_map-Keeps (Gcp.provider web b64) _
                  (λ p. gcp_provider-KmsContract web b64 p services.base64 (services.gcp p)))
                (if_Keeps (is "azure") _ _
                  (res_map-Keeps (Azure.provider web replies b64_url) _
                    (λ p. azure_provider-KmsContract web replies b64_url p (services.azure p)))
                  (if_Keeps (is "local") _ _ tt tt))))))

  -- In every build, with the feature mock or without, whatever the configuration and the
  -- environment are: a provider that create_provider makes keeps the contract of a key service,
  -- where the services of the three clouds remember what they wrapped and base64 keeps its law.
  pub create_provider-KmsContract :
      (config : KmsConfig) (env : E) (kms : KmsProvider E)
      → Services
      → create_provider cloud config env ≡ ok kms
      → KmsContract kms
  create_provider-KmsContract config env kms services h =
      subst Keeps h (create_provider-Keeps config env services)
