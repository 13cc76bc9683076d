-- ===== src/Kms/Aws/Replies.antt =====
-- What the AWS provider asks the service, and what it makes of the answers.
use mathlib.Core.List.{Memᴰ}
use mathlib.Core.List.Memᴰ.{head, tail}
use genesis_operator.Prelude.{
  ℕ, sym, String, some, ◌≡◌, refl, ap, ◌∙◌, [], ◌∷◌, ◌++◌, Bytes, arith, ==_iff,
}
use genesis_operator.Errors.{kms_call_failed}
use genesis_operator.Outcome.{ok, Ext, good, bad}
use genesis_operator.Outcome.Steps.{bind_elim, call_elim}
use genesis_operator.Json.{Value, object, texts, get_str}
use genesis_operator.Http.{
  Request, Reply, response, status_error, transport_error, Web, Base64, Base64Law,
}
use genesis_operator.Kms.{KmsContract}
use genesis_operator.Kms.Aws.{
  AwsKmsProvider, Signer, endpoint, unsigned_request, check_status, read_reply, call_api, read_blob,
  encrypt, decrypt, provider,
}

module _ {E : Type 0} (web : Web E) (sign : Signer E) (b64 : Base64) (p : AwsKmsProvider) where
  abbrev pub encrypt_body : Bytes → String
  encrypt_body plaintext =
      web.print_json
        (object (texts (("KeyId", p.key_arn) ∷ ("Plaintext", b64.encode plaintext) ∷ [])))

  abbrev pub decrypt_body : Bytes → String
  decrypt_body ciphertext =
      web.print_json (object (texts (("CiphertextBlob", b64.encode ciphertext) ∷ [])))

  -- a request to the endpoint for this operation
  abbrev pub Asks : Request → String → String → Type 0
  Asks r target body =
      (r.url ≡ endpoint p) × (r.body ≡ body) × Memᴰ ("x-amz-target", target) r.headers

  -- the service answers the request with this value
  abbrev pub Answered : Request → E → E → Value → Type 0
  Answered r env env' v =
      (text : String) × (web.send r env ≡ (response 200 text, env'))
      × (web.parse_json text ≡ good v)

  -- What the service promises: asked to decrypt the blob of an earlier answer, if it answers, it
  -- answers with the text that it had been given.
  pub record AwsService : Type 0 where
    pub remembers :
        (r1 r2 : Request) (plaintext blob : Bytes) (text answer : String) (v1 v2 : Value)
        (env1 env2 env3 env4 : E)
        → Asks r1 "TrentService.Encrypt" (encrypt_body plaintext)
        → Answered r1 env1 env2 v1
        → get_str v1 "CiphertextBlob" ≡ some text
        → b64.decode text ≡ good blob
        → Asks r2 "TrentService.Decrypt" (decrypt_body blob)
        → Answered r2 env3 env4 v2
        → get_str v2 "Plaintext" ≡ some answer
        → answer ≡ b64.encode plaintext

  read_blob_text :
      (resp : Value) (name : String) (bytes : Bytes)
      → read_blob web sign b64 p resp name ≡ ok bytes
      → (text : String) × (get_str resp name ≡ some text) × (b64.decode text ≡ good bytes)
  unfolding read_blob
  read_blob_text resp name bytes h = ground arith

  check_status-ok :
      (status : ℕ) (v w : Value) → check_status status v ≡ ok w → (status ≡ 200) × (v ≡ w)
  unfolding check_status
  check_status-ok status v w h = ground (arith, ==_iff status 200)

  read_reply-ok :
      (reply : Reply) (w : Value)
      → read_reply web sign b64 p reply ≡ ok w
      → (text : String) × (reply ≡ response 200 text) × (web.parse_json text ≡ good w)
  unfolding read_reply
  read_reply-ok (response status text) w h = by_value (web.parse_json text) refl
    where
      by_value :
          (e : Ext Value)
          → web.parse_json text ≡ e
          → (text' : String) × (response status text ≡ response 200 text')
            × (web.parse_json text' ≡ good w)
      by_value (good v) parsed =
          let (fine, same) = check_status-ok status v w (rw (parsed, read_reply) at h) in
          (text, ap (λ z. response z text) fine, parsed ∙ ap good same)
      by_value (bad e) parsed = cc (rw (parsed, read_reply) at h)
  read_reply-ok (status_error code e) w h = cc h
  read_reply-ok (transport_error e) w h = cc h

  -- a call that succeeded asked the service, with some headers of the signature, and was answered
  called :
      (target body : String) (env env' : E) (v : Value)
      → call_api web sign b64 p target body env ≡ (ok v, env')
      → (r : Request) × (env1 env2 : E) × Asks r target body × Answered r env1 env2 v
  unfolding call_api unsigned_request
  called target body env env' v h =
      call_elim (sign p (unsigned_request p target body)) kms_call_failed _ env h
        λ headers env1 signed rest.
          let request = unsigned_request p target body in
          let r : Request = record request { headers = request.headers ++ headers } in
          let (text, replied, parsed) = read_reply-ok (web.send r env1).0 v (ap (λ z. z.0) rest) in
          (
            r,
            env1,
            (web.send r env1).1,
            (refl, refl, tail (tail (head refl))),
            (text, (λ i. (replied i, (web.send r env1).1)), parsed),
          )

  module _ (law : Base64Law b64) (service : AwsService) where
    -- With a service that remembers what it wrapped, the AWS provider keeps the contract of a key
    -- service: its requests ask for the right operations on the right texts, and it reads the right
    -- members of the answers. The base64 functions keep their law.
    pub aws_provider-KmsContract : KmsContract (provider web sign b64 p)
    unfolding encrypt decrypt
    aws_provider-KmsContract = record {
      unwraps = λ plaintext ciphertext result env1 env2 env3 env4 h k.
          bind_elim (call_api web sign b64 p "TrentService.Encrypt" (encrypt_body plaintext)) _ env1
            h
            λ resp1 env5 called1 h1.
              bind_elim (call_api web sign b64 p "TrentService.Decrypt" (decrypt_body ciphertext)) _
                env3 k
                λ resp2 env6 called2 k1.
                  let (text, found1, decoded1) =
                    read_blob_text resp1 "CiphertextBlob" ciphertext (ap (λ r. r.0) h1) in
                  let (answer, found2, decoded2) =
                    read_blob_text resp2 "Plaintext" result (ap (λ r. r.0) k1) in
                  let (r1, e1, e2, asks1, answered1) =
                    called "TrentService.Encrypt" (encrypt_body plaintext) env1 env5 resp1
                      called1 in
                  let (r2, e3, e4, asks2, answered2) =
                    called "TrentService.Decrypt" (decrypt_body ciphertext) env3 env6 resp2
                      called2 in
                  let same =
                    service.remembers r1 r2 plaintext ciphertext text answer resp1 resp2 e1 e2 e3 e4
                      asks1 answered1 found1 decoded1 asks2 answered2 found2 in
                  good_inj (sym decoded2 ∙ ap b64.decode same ∙ law.decodes plaintext);
    }
      where
        good_inj : {a b : Bytes} → ◌≡◌ {A = Ext Bytes} (good a) (good b) → a ≡ b
        good_inj e = cc e
