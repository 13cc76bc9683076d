-- ===== src/Kms/Azure.antt =====
-- genesis-core/src/kms/azure.rs
pub mod Urls
pub mod Replies
use Prim.Native.Char.{code}
use Prim.Native.String
use genesis_operator.Prelude.{
  String, Option, none, some, Bool, true, false, ◌&&◌, [], ◌∷◌, Bytes, concat, str_eq, ◌==◌,
  if◌then◌else◌,
}
use genesis_operator.Errors.{GenesisError, kms_call_failed, kms_response_invalid}
use genesis_operator.Outcome.{Res, ok, err, Ext, good, bad, Eff, ok_or, map_err}
use genesis_operator.Outcome.Effect.{lift, act, ◌>>=◌}
use genesis_operator.Outcome.Pure
use genesis_operator.Json.{Value, object, texts, get_str}
use genesis_operator.Http.{
  Method, Request, Reply, response, status_error, transport_error, Web, Base64,
}
use genesis_operator.Kms.{KmsProvider}
use genesis_operator.Kms.Environment.{Environment}
use genesis_operator.Kms.Aws.{or_else, or_text}

pub record AzureKeyVaultProvider : Type 0 where
  pub vault_url : String
  pub key_name : String
  pub key_version : Option String
  pub access_token : String

-- The derived `Deserialize` of `KeyVaultErrorResponse` (the error, and in it the message) and of
-- `KeyOperationResponse` (the value).
pub record AzureReplies : Type 0 where
  pub error_response : Value → Ext (Option (Option String))
  pub operation_response : Value → Ext (Option String)

-- `trim_end_matches('/')`
unfoldable pub trim_slashes : String → String
trim_slashes String.[] = ""
trim_slashes (String.◌∷◌ c s) =
    let rest = trim_slashes s in if code c == b'/' && str_eq rest "" then "" else String.◌∷◌ c rest

unfoldable pub new : String → String → Option String → String → AzureKeyVaultProvider
unfolding trim_slashes
new vault_url key_name key_version access_token = record {
  vault_url = trim_slashes vault_url;
  key_name = key_name;
  key_version = key_version;
  access_token = access_token;
}

unfoldable pub operation_url : AzureKeyVaultProvider → String → String
operation_url p operation =
    let version_segment = or_text p.key_version "" in
    if str_eq version_segment ""
    then concat (p.vault_url ∷ "/keys/" ∷ p.key_name ∷ "/" ∷ operation ∷ "?api-version=7.4" ∷ [])
    else concat (
        p.vault_url ∷ "/keys/" ∷ p.key_name ∷ "/" ∷ version_segment ∷ "/" ∷ operation
        ∷ "?api-version=7.4" ∷ [])

abbrev or_missing : Option String → String → Res String
or_missing o what = ok_or o (kms_call_failed what)

-- The parts in their order: the first that is missing gives the error.
unfoldable pub from_parts :
    Res String → Res String → Option String → Res String → Res AzureKeyVaultProvider
from_parts vault_url key_name key_version access_token = Pure.◌>>=◌ vault_url (λ url.
    Pure.◌>>=◌ key_name
      (λ name. Pure.◌>>=◌ access_token (λ token. ok (new url name key_version token))))

module _ {E : Type 0} (vars : Environment E) where
  open vars use {var}

  unfoldable pub from_env : E → Res AzureKeyVaultProvider
  unfolding from_parts
  from_env env =
      from_parts (or_missing (var "AZURE_KEY_VAULT_URL" env) "AZURE_KEY_VAULT_URL not set")
        (or_missing (var "AZURE_KEY_NAME" env) "AZURE_KEY_NAME not set")
        (var "AZURE_KEY_VERSION" env)
        (or_missing (var "AZURE_ACCESS_TOKEN" env) "AZURE_ACCESS_TOKEN not set")

  unfoldable pub from_config : Value → E → Res AzureKeyVaultProvider
  unfolding from_parts
  from_config settings env =
      from_parts
        (or_missing (or_else (get_str settings "vault_url") (var "AZURE_KEY_VAULT_URL" env))
          "vault_url not configured")
        (or_missing (or_else (get_str settings "key_name") (var "AZURE_KEY_NAME" env))
          "key_name not configured")
        (or_else (get_str settings "key_version") (var "AZURE_KEY_VERSION" env))
        (or_missing (or_else (get_str settings "access_token") (var "AZURE_ACCESS_TOKEN" env))
          "access_token not configured")

module _ {E : Type 0} (web : Web E) (replies : AzureReplies) (b64_url : Base64)
    (p : AzureKeyVaultProvider) where
  unfoldable pub request : String → Bytes → Request
  unfolding operation_url
  request operation input = record {
    method = Method.post;
    url = operation_url p operation;
    headers =
        ("Authorization", concat ("Bearer " ∷ p.access_token ∷ []))
        ∷ ("Content-Type", "application/json")
        ∷ [];
    body =
        web.print_json
          (object (texts (("alg", "RSA-OAEP-256") ∷ ("value", b64_url.encode input) ∷ [])));
  }

  -- The value of a parsed body, or the error that it reports.
  unfoldable pub read_body : Value → Res Bytes
  read_body body = elim (replies.error_response body) [
    | good (some message) ↦ err (kms_call_failed (or_text message "unknown Azure Key Vault error"))
    | _ ↦ elim (replies.operation_response body) [
      | bad e ↦ err kms_response_invalid
      | good none ↦ err kms_response_invalid
      | good (some text) ↦
          map_err (b64_url.decode text)
            (λ e. kms_call_failed (concat ("base64url decode failed: " ∷ e ∷ [])))
    ]
  ]

  abbrev request_failed : String → String → GenesisError
  request_failed operation e =
      kms_call_failed (concat ("Azure Key Vault " ∷ operation ∷ " request failed: " ∷ e ∷ []))

  unfoldable pub read_reply : String → Reply → Res Bytes
  unfolding read_body
  read_reply operation (response status text) = elim (web.parse_json text) [
    | good body ↦ read_body body
    | bad e ↦ err (kms_call_failed (concat ("failed to read response body: " ∷ e ∷ [])))
  ]
  read_reply operation (status_error code e) = err (request_failed operation e)
  read_reply operation (transport_error e) = err (request_failed operation e)

  unfoldable pub key_operation : String → Bytes → Eff E Bytes
  unfolding request read_reply
  key_operation operation input = do
    reply ← act (web.send (request operation input))
    lift (read_reply operation reply)

  abbrev pub provider : KmsProvider E
  provider = record {
    encrypt = key_operation "encrypt";
    decrypt = key_operation "decrypt";
    provider_name = "azure-keyvault";
  }
