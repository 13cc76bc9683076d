-- ===== src/Kms/Gcp.antt =====
-- genesis-core/src/kms/gcp.rs
pub mod Replies
use genesis_operator.Prelude.{String, none, some, [], ◌∷◌, Bytes, concat, if◌then◌else◌}
use genesis_operator.Errors.{GenesisError, kms_call_failed, kms_not_configured}
use genesis_operator.Outcome.{Res, ok, err, good, bad, Eff, map_err, res_map}
use genesis_operator.Outcome.Effect.{lift, act, ◌>>=◌}
use genesis_operator.Json.{Value, object, texts, get_str}
use genesis_operator.Http.{
  Method, Request, Reply, response, status_error, transport_error, Web, Base64,
}
use genesis_operator.Kms.{KmsProvider}
use genesis_operator.Kms.Environment.{Environment}
use genesis_operator.Kms.Aws.{or_else}

abbrev pub gcp_kms_base_url : String
gcp_kms_base_url = "https://cloudkms.googleapis.com/v1"

pub record GcpKmsProvider : Type 0 where
  pub key_resource_name : String
  pub access_token : String

module _ {E : Type 0} (vars : Environment E) where
  open vars use {var, exists}

  -- The token of `from_env`. A file of credentials is looked for, and is refused if it is there.
  unfoldable pub env_token : E → Res String
  env_token env = elim (var "GENESIS_GCP_ACCESS_TOKEN" env) [
    | some token ↦ ok token
    | none ↦ elim (var "GOOGLE_APPLICATION_CREDENTIALS" env) [
      | none ↦ err kms_not_configured
      | some path ↦
          if exists path env
          then err (
              kms_call_failed
                "GOOGLE_APPLICATION_CREDENTIALS found but automatic token exchange is not yet implemented; set GENESIS_GCP_ACCESS_TOKEN directly")
          else err (kms_call_failed (concat ("credentials file not found: " ∷ path ∷ [])))
    ]
  ]

  unfoldable pub from_env : E → Res GcpKmsProvider
  unfolding env_token
  from_env env = elim (var "GENESIS_GCP_KMS_KEY" env) [
    | none ↦ err kms_not_configured
    | some name ↦
        res_map (λ token. record { key_resource_name = name; access_token = token }) (env_token env)
  ]

  unfoldable pub from_config : Value → E → Res GcpKmsProvider
  from_config settings env =
      elim (or_else (get_str settings "key_resource_name") (var "GENESIS_GCP_KMS_KEY" env)) [
        | none ↦ err kms_not_configured
        | some name ↦
            elim (or_else (get_str settings "access_token") (var "GENESIS_GCP_ACCESS_TOKEN" env)) [
              | none ↦ err (
                  kms_call_failed
                    "access_token not in settings and GENESIS_GCP_ACCESS_TOKEN not set")
              | some token ↦ ok (record { key_resource_name = name; access_token = token })
            ]
      ]

module _ {E : Type 0} (web : Web E) (b64 : Base64) (p : GcpKmsProvider) where
  unfoldable pub request : String → String → String → Request
  request operation name text = record {
    method = Method.post;
    url = concat (gcp_kms_base_url ∷ "/" ∷ p.key_resource_name ∷ ":" ∷ operation ∷ []);
    headers = ("Authorization", concat ("Bearer " ∷ p.access_token ∷ [])) ∷ [];
    body = web.print_json (object (texts ((name, text) ∷ [])));
  }

  abbrev failed : String → String → String → GenesisError
  failed operation what e = kms_call_failed (concat ("GCP KMS " ∷ operation ∷ what ∷ e ∷ []))

  -- `into_json` of a body that has one text member, and the member.
  unfoldable pub read_reply : String → String → Reply → Res String
  read_reply operation name (response status text) = elim (web.parse_json text) [
    | good v ↦ map_err (web.one_text name v) (failed operation " response: ")
    | bad e ↦ err (failed operation " response: " e)
  ]
  read_reply operation name (status_error code e) = err (failed operation ": " e)
  read_reply operation name (transport_error e) = err (failed operation ": " e)

  unfoldable pub encrypt : Bytes → Eff E Bytes
  unfolding request read_reply
  encrypt plaintext = do
    reply ← act (web.send (request "encrypt" "plaintext" (b64.encode plaintext)))
    text ← lift (read_reply "encrypt" "ciphertext" reply)
    lift (
        map_err (b64.decode text)
          (λ e. kms_call_failed (concat ("base64 decode ciphertext: " ∷ e ∷ []))))

  unfoldable pub decrypt : Bytes → Eff E Bytes
  unfolding request read_reply
  decrypt ciphertext = do
    reply ← act (web.send (request "decrypt" "ciphertext" (b64.encode ciphertext)))
    text ← lift (read_reply "decrypt" "plaintext" reply)
    lift (
        map_err (b64.decode text)
          (λ e. kms_call_failed (concat ("base64 decode plaintext: " ∷ e ∷ []))))

  abbrev pub provider : KmsProvider E
  provider = record { encrypt = encrypt; decrypt = decrypt; provider_name = "gcp-kms" }
