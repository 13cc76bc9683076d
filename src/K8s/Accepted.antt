-- ===== src/K8s/Accepted.antt =====
-- What a successful injection says of the answers of the API server.
use genesis_operator.Prelude.{
  ℕ, ◌==◌, String, Option, Bytes, ◌≡◌, refl, ap, ◌⊎◌, inl, inr, Bool-cases, ==_iff,
}
use genesis_operator.Outcome.{Res, ok}
use genesis_operator.Json.{Value}
use genesis_operator.Http.{Method, Request, Reply, response, status_error, transport_error, Base64}
use genesis_operator.K8s.Metadata.{SecretMetadata}
use genesis_operator.K8s.Cluster.{
  Tls, UreqSecretInjector, inject, body_text, write_request, secret_url, secrets_collection_url,
  after_post, put_result,
}

module _ {E : Type 0} (tls : Tls E) (b64 : Base64) (print_json : Value → String)
    (injector : UreqSecretInjector tls) where
  abbrev pub post_request : Bytes → String → String → String → Option SecretMetadata → Request
  post_request key_bytes name ns key metadata =
      write_request tls b64 print_json injector Method.post
        (secrets_collection_url tls b64 print_json injector ns)
        (body_text tls b64 print_json injector key_bytes name ns key metadata)

  abbrev pub put_request : Bytes → String → String → String → Option SecretMetadata → Request
  put_request key_bytes name ns key metadata =
      write_request tls b64 print_json injector Method.put
        (secret_url tls b64 print_json injector ns name)
        (body_text tls b64 print_json injector key_bytes name ns key metadata)

  -- the server took the create, or refused it with a conflict and took the update
  abbrev pub Accepted : Request → Request → E → E → Type 0
  Accepted post put env env' =
      ((status : ℕ) × (text : String) × (tls.send injector.agent post env
          ≡ (response status text, env')))
      ⊎ ((e : String) × (env1 : E) × (status : ℕ) × (text : String) × (tls.send injector.agent post
              env
            ≡ (status_error 409 e, env1))
          × (tls.send injector.agent put env1 ≡ (response status text, env')))

  -- An injection that succeeds was accepted: the server answered the POST of the secret, or
  -- answered it with a conflict and then answered the PUT of the same body at the URL of the
  -- secret.
  pub inject-Accepted :
      (key_bytes : Bytes) (name ns key : String) (metadata : Option SecretMetadata) (env env' : E)
      → inject tls b64 print_json injector key_bytes name ns key metadata env ≡ (ok tt, env')
      → Accepted
          (post_request key_bytes name ns key metadata)
          (put_request key_bytes name ns key metadata)
          env
          env'
  unfolding inject
  inject-Accepted key_bytes name ns key metadata env env' h =
      by_post (tls.send injector.agent (post_request key_bytes name ns key metadata) env).0 refl h
    where
      put_url : String
      put_url = secret_url tls b64 print_json injector ns name

      body : String
      body = body_text tls b64 print_json injector key_bytes name ns key metadata

      env1 : E
      env1 = (tls.send injector.agent (post_request key_bytes name ns key metadata) env).1

      by_put :
          (e : String) (reply : Reply) (env2 : E)
          → tls.send injector.agent (post_request key_bytes name ns key metadata) env
            ≡ (status_error 409 e, env1)
          → tls.send injector.agent (put_request key_bytes name ns key metadata) env1
            ≡ (reply, env2)
          → ◌≡◌ {A = Res (Unit {0}) × E}
              (put_result tls b64 print_json injector reply, env2)
              (ok tt, env')
          → Accepted
              (post_request key_bytes name ns key metadata)
              (put_request key_bytes name ns key metadata)
              env
              env'
      by_put e (response status text) env2 posted put g =
          inr (e, env1, status, text, posted, rw (ap (λ p. p.1) g) at put)
      by_put e (status_error code m) env2 posted put g = cc (ap (λ p. p.0) g)
      by_put e (transport_error m) env2 posted put g = cc (ap (λ p. p.0) g)

      by_post :
          (reply : Reply)
          → (tls.send injector.agent (post_request key_bytes name ns key metadata) env).0 ≡ reply
          → after_post tls b64 print_json injector put_url body reply env1 ≡ (ok tt, env')
          → Accepted
              (post_request key_bytes name ns key metadata)
              (put_request key_bytes name ns key metadata)
              env
              env'
      by_post (response status text) e g = inl (status, text, λ i. (e i, ap (λ p. p.1) g i))
      by_post (transport_error m) e g = cc (ap (λ p. p.0) g)
      by_post (status_error code m) e g = elim (Bool-cases (code == 409)) [
        | inl same ↦
            let e409 : code ≡ 409 = (==_iff code 409).0 same in
            let posted : tls.send injector.agent (post_request key_bytes name ns key metadata) env
                ≡ (status_error code m, env1) =
              λ i. (e i, env1) in
            let conflict = rw same at g in
            by_put m (tls.send injector.agent (put_request key_bytes name ns key metadata) env1).0
              (tls.send injector.agent (put_request key_bytes name ns key metadata) env1).1
              (rw e409 at posted) refl conflict
        | inr other ↦ cc (ap (λ p. p.0) (rw other at g))
      ]
