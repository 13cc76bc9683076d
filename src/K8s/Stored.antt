-- ===== src/K8s/Stored.antt =====
-- What a successful injection leaves in the cluster, where the API server does what its
-- documentation says.
use genesis_operator.Prelude.{
  ℕ, ◌==◌, String, Bool, true, Option, some, Bytes, [], ◌∷◌, concat, ◌≡◌, ◌≢◌, refl, ap, ◌∙◌, inl,
  inr, Bool-cases, ==_iff,
}
use genesis_operator.Outcome.{Res, ok}
use genesis_operator.Json.{Value}
use genesis_operator.Http.{Method, Request, Reply, response, status_error, transport_error, Base64}
use genesis_operator.K8s.Metadata.{SecretMetadata, secret_body}
use genesis_operator.K8s.Cluster.{
  Tls, UreqSecretInjector, inject, secret_exists, secret_url, secrets_collection_url, read_request,
  exists_result,
}
use genesis_operator.K8s.Accepted.{Accepted, inject-Accepted, post_request, put_request}

module _ {E : Type 0} (tls : Tls E) (b64 : Base64) (print_json : Value → String)
    (injector : UreqSecretInjector tls) where
  -- the paths of the API, as its reference writes them
  abbrev pub collection : String → String
  collection ns = concat (injector.api_server ∷ "/api/v1/namespaces/" ∷ ns ∷ "/secrets" ∷ [])

  abbrev pub resource : String → String → String
  resource ns name =
      concat (injector.api_server ∷ "/api/v1/namespaces/" ∷ ns ∷ "/secrets/" ∷ name ∷ [])

  -- What the reference of the API says of secrets: a POST to the collection that is answered
  -- creates the secret that its body names, a PUT to a secret that is answered replaces it, and a
  -- GET of one finds it exactly where it is.
  pub record ApiServer (stored : String → String → E → Option String) : Type 0 where
    pub creates :
        (r : Request) (encoded name ns key text : String) (metadata : Option SecretMetadata)
        (status : ℕ) (env env' : E)
        → r.method ≡ Method.post
        → r.url ≡ collection ns
        → r.body ≡ print_json (secret_body encoded name ns key metadata)
        → tls.send injector.agent r env ≡ (response status text, env')
        → stored ns name env' ≡ some r.body
    pub replaces :
        (r : Request) (name ns text : String) (status : ℕ) (env env' : E)
        → r.method ≡ Method.put
        → r.url ≡ resource ns name
        → tls.send injector.agent r env ≡ (response status text, env')
        → stored ns name env' ≡ some r.body
    pub shows :
        (r : Request) (name ns body e : String) (env env' : E)
        → r.method ≡ Method.get
        → r.url ≡ resource ns name
        → stored ns name env ≡ some body
        → tls.send injector.agent r env ≢ (status_error 404 e, env')

  -- the secret is stored with this body, and a check that is answered finds it
  abbrev pub Present : (String → String → E → Option String) → String → String → String → E → Type 0
  Present stored name ns body env =
      (stored ns name env ≡ some body)
      × ((found : Bool) (env' : E)
          → secret_exists tls b64 print_json injector name ns env ≡ (ok found, env')
          → found ≡ true)

  module _ (stored : String → String → E → Option String) (server : ApiServer stored) where
    secret_exists-stored :
        (name ns body : String) (env env' : E) (found : Bool)
        → stored ns name env ≡ some body
        → secret_exists tls b64 print_json injector name ns env ≡ (ok found, env')
        → found ≡ true
    unfolding secret_exists secret_url
    secret_exists-stored name ns body env env' found there h =
        by_reply (tls.send injector.agent request env).0 refl (ap (λ p. p.0) h)
      where
        request : Request
        request = read_request tls b64 print_json injector (resource ns name)

        ok_inj : {a b : Bool} → ◌≡◌ {A = Res Bool} (ok a) (ok b) → b ≡ a
        ok_inj e = cc e

        by_reply :
            (reply : Reply)
            → (tls.send injector.agent request env).0 ≡ reply
            → exists_result tls b64 print_json injector reply ≡ ok found
            → found ≡ true
        by_reply (response status text) sent g = ok_inj g
        by_reply (transport_error m) sent g = cc g
        by_reply (status_error code m) sent g = elim (Bool-cases (code == 404)) [
          | inl same ↦
              let e404 : code ≡ 404 = (==_iff code 404).0 same in
              absurd (
                server.shows request name ns body m env (tls.send injector.agent request env).1 refl
                  refl there
                  (λ i. (
                    (sent ∙ ap (λ z. status_error z m) e404) i,
                    (tls.send injector.agent request env).1,
                  )))
          | inr other ↦ cc (rw other at g)
        ]

    -- After an injection that succeeded, the server stores the secret under its name and namespace,
    -- with the body that holds the encoded key bytes, whether it was created or replaced; and
    -- secret_exists, if it is answered, then says that it is there. The server does what the
    -- reference of the API says.
    pub inject-Present :
        (key_bytes : Bytes) (name ns key : String) (metadata : Option SecretMetadata) (env env' : E)
        → inject tls b64 print_json injector key_bytes name ns key metadata env ≡ (ok tt, env')
        → Present stored name ns
            (print_json (secret_body (b64.encode key_bytes) name ns key metadata))
            env'
    unfolding secret_url secrets_collection_url
    inject-Present key_bytes name ns key metadata env env' h =
        let there =
          by_case (
            inject-Accepted tls b64 print_json injector key_bytes name ns key metadata env env'
              h) in
        (there, λ found env'' g. secret_exists-stored name ns body env' env'' found there g)
      where
        body : String
        body = print_json (secret_body (b64.encode key_bytes) name ns key metadata)

        post : Request
        post = post_request tls b64 print_json injector key_bytes name ns key metadata

        put : Request
        put = put_request tls b64 print_json injector key_bytes name ns key metadata

        by_case :
            Accepted tls b64 print_json injector post put env env' → stored ns name env' ≡ some body
        by_case (inl (status, text, sent)) =
            server.creates post (b64.encode key_bytes) name ns key text metadata status env env'
              refl refl refl sent
        by_case (inr (e, env1, status, text, posted, sent)) =
            server.replaces put name ns text status env1 env' refl refl sent
