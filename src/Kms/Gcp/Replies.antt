-- ===== src/Kms/Gcp/Replies.antt =====
-- What the Google provider asks the service, and what it makes of the answers.
use genesis_operator.Prelude.{ℕ, sym, String, ◌≡◌, refl, ap, ◌∙◌, [], ◌∷◌, Bytes, concat}
use genesis_operator.Outcome.{ok, Ext, good, bad}
use genesis_operator.Outcome.Steps.{map_err-eq-ok, lift_elim}
use genesis_operator.Json.{Value, object, texts}
use genesis_operator.Http.{
  Request, Reply, response, status_error, transport_error, Web, Base64, Base64Law,
}
use genesis_operator.Kms.{KmsContract}
use genesis_operator.Kms.Gcp.{
  GcpKmsProvider, gcp_kms_base_url, request, read_reply, encrypt, decrypt, provider,
}

module _ {E : Type 0} (web : Web E) (b64 : Base64) (p : GcpKmsProvider) where
  -- a request to the key for this operation, with one text in its body
  abbrev pub Asks : Request → String → String → String → Type 0
  Asks r operation name text =
      (r.url ≡ concat (gcp_kms_base_url ∷ "/" ∷ p.key_resource_name ∷ ":" ∷ operation ∷ []))
      × (r.body ≡ web.print_json (object (texts ((name, text) ∷ []))))

  -- the service answers the request with this text
  abbrev pub Answered : Request → E → E → String → String → Type 0
  Answered r env env' name text =
      (status : ℕ) × (body : String) × (v : Value) × (web.send r env ≡ (response status body, env'))
      × (web.parse_json body ≡ good v)
      × (web.one_text name v ≡ good text)

  -- What the service promises: asked to decrypt the blob of an earlier answer, if it answers, it
  -- answers with the text that it had been given.
  pub record GcpService : Type 0 where
    pub remembers :
        (r1 r2 : Request) (plaintext blob : Bytes) (text answer : String) (env1 env2 env3 env4 : E)
        → Asks r1 "encrypt" "plaintext" (b64.encode plaintext)
        → Answered r1 env1 env2 "ciphertext" text
        → b64.decode text ≡ good blob
        → Asks r2 "decrypt" "ciphertext" (b64.encode blob)
        → Answered r2 env3 env4 "plaintext" answer
        → answer ≡ b64.encode plaintext

  read_reply-ok :
      (r : Request) (env : E) (operation name text : String)
      → read_reply web b64 p operation name (web.send r env).0 ≡ ok text
      → Answered r env (web.send r env).1 name text
  unfolding read_reply
  read_reply-ok r env operation name text h = by_reply (web.send r env).0 refl h
    where
      by_value :
          (status : ℕ) (body : String) (e : Ext Value)
          → (web.send r env).0 ≡ response status body
          → web.parse_json body ≡ e
          → read_reply web b64 p operation name (response status body) ≡ ok text
          → Answered r env (web.send r env).1 name text
      by_value status body (good v) sent parsed h = (
        status,
        body,
        v,
        (λ i. (sent i, (web.send r env).1)),
        parsed,
        map_err-eq-ok (web.one_text name v) _ (rw (parsed, read_reply) at h),
      )
      by_value status body (bad e) sent parsed h = cc (rw (parsed, read_reply) at h)

      by_reply :
          (reply : Reply)
          → (web.send r env).0 ≡ reply
          → read_reply web b64 p operation name reply ≡ ok text
          → Answered r env (web.send r env).1 name text
      by_reply (response status body) sent h =
          by_value status body (web.parse_json body) sent refl h
      by_reply (status_error code e) sent h = cc h
      by_reply (transport_error e) sent h = cc h

  module _ (law : Base64Law b64) (service : GcpService) where
    -- With a service that remembers what it wrapped, the Google provider keeps the contract of a
    -- key service. The base64 functions keep their law.
    pub gcp_provider-KmsContract : KmsContract (provider web b64 p)
    unfolding encrypt decrypt request
    gcp_provider-KmsContract = record {
      unwraps = λ plaintext ciphertext result env1 env2 env3 env4 h k.
          let r1 = request web b64 p "encrypt" "plaintext" (b64.encode plaintext) in
          let r2 = request web b64 p "decrypt" "ciphertext" (b64.encode ciphertext) in
          lift_elim (read_reply web b64 p "encrypt" "ciphertext" (web.send r1 env1).0) _
            (web.send r1 env1).1 h
            λ text read1 h1.
              lift_elim (read_reply web b64 p "decrypt" "plaintext" (web.send r2 env3).0) _
                (web.send r2 env3).1 k
                λ answer read2 k1.
                  let answered1 = read_reply-ok r1 env1 "encrypt" "ciphertext" text read1 in
                  let answered2 = read_reply-ok r2 env3 "decrypt" "plaintext" answer read2 in
                  let decoded1 = map_err-eq-ok (b64.decode text) _ (ap (λ z. z.0) h1) in
                  let decoded2 = map_err-eq-ok (b64.decode answer) _ (ap (λ z. z.0) k1) in
                  let same =
                    service.remembers r1 r2 plaintext ciphertext text answer env1
                      (web.send r1 env1).1 env3 (web.send r2 env3).1 (refl, refl) answered1 decoded1
                      (refl, refl) answered2 in
                  good_inj (sym decoded2 ∙ ap b64.decode same ∙ law.decodes plaintext);
    }
      where
        good_inj : {a b : Bytes} → ◌≡◌ {A = Ext Bytes} (good a) (good b) → a ≡ b
        good_inj e = cc e
