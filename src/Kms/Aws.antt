-- ===== src/Kms/Aws.antt =====
-- genesis-core/src/kms/aws.rs. The SigV4 signature and the time that it takes are a parameter.
pub mod Settings
pub mod Replies
use genesis_operator.Prelude.{
  ℕ, String, Option, none, some, [], ◌∷◌, ◌++◌, List, Bytes, concat, ◌==◌, not, if◌then◌else◌,
}
use genesis_operator.Errors.{GenesisError, kms_call_failed, kms_response_invalid}
use genesis_operator.Outcome.{Res, ok, err, Ext, good, bad, Eff, map_err}
use genesis_operator.Outcome.Effect.{lift, call, act, ◌>>=◌}
use genesis_operator.Json.{Value, object, texts, get, get_str, as_str}
use genesis_operator.Http.{
  Method, Request, Reply, response, status_error, transport_error, Web, Base64,
}
use genesis_operator.Kms.{KmsProvider}

pub record AwsKmsProvider : Type 0 where
  pub key_arn : String
  pub region : String
  pub access_key_id : String
  pub secret_access_key : String
  pub session_token : Option String

-- The headers that `aws_sigv4` adds to a request of this provider at this moment, or its error text
-- with the phase in front (`SigV4 params: `, `signable request: ` or `SigV4 sign: `).
abbrev pub Signer : Type 0 → Type 0
Signer E = AwsKmsProvider → Request → E → Ext (List (String × String)) × E

unfoldable pub endpoint : AwsKmsProvider → String
endpoint p = concat ("https://kms." ∷ p.region ∷ ".amazonaws.com/" ∷ [])

abbrev pub host : AwsKmsProvider → String
host p = concat ("kms." ∷ p.region ∷ ".amazonaws.com" ∷ [])

abbrev pub or_text : Option String → String → String
or_text none d = d
or_text (some s) d = s

abbrev pub or_else {ℓ} : {A : Type ℓ} → Option A → Option A → Option A
or_else none b = b
or_else (some a) b = some a

unfoldable pub unsigned_request : AwsKmsProvider → String → String → Request
unfolding endpoint
unsigned_request p target body = record {
  method = Method.post;
  url = endpoint p;
  headers =
      ("host", host p)
      ∷ ("content-type", "application/x-amz-json-1.1")
      ∷ ("x-amz-target", target)
      ∷ [];
  body = body;
}

-- What `call` makes of the parsed body of a response with this status.
unfoldable pub check_status : ℕ → Value → Res Value
check_status status response_body =
    let msg = or_text (get_str response_body "__type") "UnknownError" in
    let detail =
      or_text (as_str (or_else (get response_body "message") (get response_body "Message")))
        "no detail" in
    if status == 200
    then ok response_body
    else err (kms_call_failed (concat ("AWS KMS " ∷ msg ∷ ": " ∷ detail ∷ [])))

module _ {E : Type 0} (web : Web E) (sign : Signer E) (b64 : Base64) (p : AwsKmsProvider) where
  abbrev request_failed : String → GenesisError
  request_failed e = kms_call_failed (concat ("HTTP request failed: " ∷ e ∷ []))

  unfoldable pub read_reply : Reply → Res Value
  unfolding check_status
  read_reply (response status text) = elim (web.parse_json text) [
    | good v ↦ check_status status v
    | bad e ↦ err (kms_call_failed (concat ("response parse: " ∷ e ∷ [])))
  ]
  read_reply (status_error code e) = err (request_failed e)
  read_reply (transport_error e) = err (request_failed e)

  unfoldable pub call_api : String → String → Eff E Value
  unfolding unsigned_request read_reply
  call_api target body = do
    let request = unsigned_request p target body
    signing_headers ← call (sign p request) kms_call_failed
    reply ← act (web.send (record request { headers = request.headers ++ signing_headers }))
    lift (read_reply reply)

  abbrev decode_failed : String → GenesisError
  decode_failed e = kms_call_failed (concat ("base64 decode: " ∷ e ∷ []))

  -- The member of the answer, decoded.
  unfoldable pub read_blob : Value → String → Res Bytes
  read_blob resp name = elim (get_str resp name) [
    | none ↦ err kms_response_invalid
    | some text ↦ map_err (b64.decode text) decode_failed
  ]

  unfoldable pub encrypt : Bytes → Eff E Bytes
  encrypt plaintext = do
    let body =
        web.print_json
          (object (texts (("KeyId", p.key_arn) ∷ ("Plaintext", b64.encode plaintext) ∷ [])))
    resp ← call_api "TrentService.Encrypt" body
    lift (read_blob resp "CiphertextBlob")

  unfoldable pub decrypt : Bytes → Eff E Bytes
  decrypt ciphertext = do
    let body = web.print_json (object (texts (("CiphertextBlob", b64.encode ciphertext) ∷ [])))
    resp ← call_api "TrentService.Decrypt" body
    lift (read_blob resp "Plaintext")

  abbrev pub provider : KmsProvider E
  provider = record { encrypt = encrypt; decrypt = decrypt; provider_name = "aws-kms" }
