-- ===== src/Kms/Azure/Replies.antt =====
-- What the Azure provider asks the service, and what it makes of the answers.
use genesis_operator.Prelude.{ℕ, sym, String, some, ◌≡◌, refl, ap, ◌∙◌, [], ◌∷◌, Bytes, arith}
use genesis_operator.Outcome.{ok, Ext, good, bad}
use genesis_operator.Json.{Value, object, texts}
use genesis_operator.Http.{Request, Reply, response, status_error, transport_error, Web, Base64}
use genesis_operator.Kms.{KmsContract}
use genesis_operator.Kms.Azure.{
  AzureKeyVaultProvider, AzureReplies, operation_url, request, read_body, read_reply, key_operation,
  provider,
}

module _ {E : Type 0} (web : Web E) (replies : AzureReplies) (b64_url : Base64)
    (p : AzureKeyVaultProvider) where
  -- a request for this operation on some bytes
  abbrev pub Asks : Request → String → Bytes → Type 0
  Asks r operation input =
      (r.url ≡ operation_url p operation)
      × (r.body
          ≡ web.print_json
              (object (texts (("alg", "RSA-OAEP-256") ∷ ("value", b64_url.encode input) ∷ []))))

  -- the service answers the request with this text
  abbrev pub Answered : Request → E → E → String → Type 0
  Answered r env env' text =
      (status : ℕ) × (body : String) × (v : Value) × (web.send r env ≡ (response status body, env'))
      × (web.parse_json body ≡ good v)
      × (replies.operation_response v ≡ good (some text))

  -- What the service promises: asked to decrypt the blob of an earlier answer, if it answers, it
  -- answers with the text that it had been given.
  pub record AzureService : Type 0 where
    pub remembers :
        (r1 r2 : Request) (plaintext blob : Bytes) (text answer : String) (env1 env2 env3 env4 : E)
        → Asks r1 "encrypt" plaintext
        → Answered r1 env1 env2 text
        → b64_url.decode text ≡ good blob
        → Asks r2 "decrypt" blob
        → Answered r2 env3 env4 answer
        → b64_url.decode answer ≡ good plaintext

  read_body-ok :
      (v : Value) (bytes : Bytes)
      → read_body web replies b64_url p v ≡ ok bytes
      → (text : String) × (replies.operation_response v ≡ good (some text))
        × (b64_url.decode text ≡ good bytes)
  unfolding read_body
  read_body-ok v bytes h = ground arith

  abbrev Replied : Request → E → Bytes → Type 0
  Replied r env bytes =
      (text : String) × Answered r env (web.send r env).1 text × (b64_url.decode text ≡ good bytes)

  read_reply-ok :
      (r : Request) (env : E) (operation : String) (bytes : Bytes)
      → read_reply web replies b64_url p operation (web.send r env).0 ≡ ok bytes
      → Replied r env bytes
  unfolding read_reply
  read_reply-ok r env operation bytes h = by_reply (web.send r env).0 refl h
    where
      by_value :
          (status : ℕ) (body : String) (e : Ext Value)
          → (web.send r env).0 ≡ response status body
          → web.parse_json body ≡ e
          → read_reply web replies b64_url p operation (response status body) ≡ ok bytes
          → Replied r env bytes
      by_value status body (good v) sent parsed h =
          let (text, found, decoded) = read_body-ok v bytes (rw (parsed, read_reply) at h) in
          (text, (status, body, v, (λ i. (sent i, (web.send r env).1)), parsed, found), decoded)
      by_value status body (bad e) sent parsed h = cc (rw (parsed, read_reply) at h)

      by_reply :
          (reply : Reply)
          → (web.send r env).0 ≡ reply
          → read_reply web replies b64_url p operation reply ≡ ok bytes
          → Replied r env bytes
      by_reply (response status body) sent h =
          by_value status body (web.parse_json body) sent refl h
      by_reply (status_error code e) sent h = cc h
      by_reply (transport_error e) sent h = cc h

  -- With a service that remembers what it wrapped, the Azure provider keeps the contract of a key
  -- service.
  pub azure_provider-KmsContract : AzureService → KmsContract (provider web replies b64_url p)
  unfolding key_operation request
  azure_provider-KmsContract service = record {
    unwraps = λ plaintext ciphertext result env1 env2 env3 env4 h k.
        let r1 = request web replies b64_url p "encrypt" plaintext in
        let r2 = request web replies b64_url p "decrypt" ciphertext in
        let (text, answered1, decoded1) =
          read_reply-ok r1 env1 "encrypt" ciphertext (ap (λ z. z.0) h) in
        let (answer, answered2, decoded2) =
          read_reply-ok r2 env3 "decrypt" result (ap (λ z. z.0) k) in
        let same =
          service.remembers r1 r2 plaintext ciphertext text answer env1 (web.send r1 env1).1 env3
            (web.send r2 env3).1 (refl, refl) answered1 decoded1 (refl, refl) answered2 in
        good_inj (sym decoded2 ∙ same);
  }
    where
      good_inj : {a b : Bytes} → ◌≡◌ {A = Ext Bytes} (good a) (good b) → a ≡ b
      good_inj e = cc e
