-- ===== src/K8s/Cluster.antt =====
-- `UreqSecretInjector` of genesis-core/src/k8s/inject.rs: the API server over HTTP. The agent with
-- its certificates is a parameter, and so is what builds one.
use genesis_operator.Prelude.{
  String, Bool, true, false, Option, [], ◌∷◌, Bytes, concat, is_empty, ◌==◌, if◌then◌else◌, List,
}
use genesis_operator.Errors.{GenesisError, k8s_auth_failed, k8s_inject_failed, k8s_check_failed}
use genesis_operator.Outcome.{Res, ok, err, Ext, good, bad, Eff, res_map}
use genesis_operator.Outcome.Effect.{pure, lift, act, call, ◌>>=◌}
use genesis_operator.Json.{Value}
use genesis_operator.Http.{Method, Request, Reply, response, status_error, transport_error, Base64}
use genesis_operator.K8s.Metadata.{SecretMetadata, secret_body}
use genesis_operator.K8s.Injector.{SecretInjector}

-- The crates `ureq`, `rustls` and `rustls_pemfile`, and the files that they are fed from.
pub record Tls (E : Type 0) : Type 1 where
  pub Agent : Type 0
  pub Certificate : Type 0
  pub RootStore : Type 0
  pub read_text : String → E → Ext String × E
  pub read_file : String → E → Ext Bytes × E
  pub default_agent : Agent
  pub agent_with : RootStore → Agent
  pub pem_certificates : Bytes → List Certificate  -- those that parse
  pub empty_store : RootStore
  pub add_certificate : RootStore → Certificate → Ext RootStore
  pub send : Agent → Request → E → Reply × E

module _ {E : Type 0} (tls : Tls E) where
  open tls use {
    Agent, Certificate, RootStore, read_text, read_file, default_agent, agent_with,
    pem_certificates, empty_store, add_certificate, send,
  }

  add_all : RootStore → List Certificate → Res RootStore
  add_all store [] = ok store
  add_all store (cert ∷ rest) = elim (add_certificate store cert) [
    | good next ↦ add_all next rest
    | bad e ↦ err (k8s_auth_failed (concat ("failed to add CA cert: " ∷ e ∷ [])))
  ]

  unfoldable pub build_tls_config : Bytes → Res RootStore
  unfolding add_all
  build_tls_config ca_cert_pem =
      let certs = pem_certificates ca_cert_pem in
      if is_empty certs
      then err (k8s_auth_failed "no valid PEM certificates found in CA bundle")
      else add_all empty_store certs

  unfoldable pub build_agent : Bytes → Res Agent
  unfolding build_tls_config
  build_agent ca_cert_pem =
      if is_empty ca_cert_pem
      then ok default_agent
      else res_map agent_with (build_tls_config ca_cert_pem)

  pub record UreqSecretInjector : Type 0 where
    pub api_server : String
    pub token : String
    pub agent : Agent

  unfoldable pub in_cluster : Eff E UreqSecretInjector
  unfolding build_agent
  in_cluster = do
    token ←
        call (read_text "/var/run/secrets/kubernetes.io/serviceaccount/token")
          (λ e. k8s_auth_failed (concat ("failed to read SA token: " ∷ e ∷ [])))
    ca_cert ←
        call (read_file "/var/run/secrets/kubernetes.io/serviceaccount/ca.crt")
          (λ e. k8s_auth_failed (concat ("failed to read CA cert: " ∷ e ∷ [])))
    agent ← lift (build_agent ca_cert)
    pure (record { api_server = "https://kubernetes.default.svc"; token = token; agent = agent })

  abbrev or_default : Res Agent → Agent
  or_default (ok agent) = agent
  or_default _ = default_agent

  unfoldable pub new : String → String → Bytes → UreqSecretInjector
  unfolding build_agent
  new api_server token ca_cert = record {
    api_server = api_server;
    token = token;
    agent = or_default (build_agent ca_cert);
  }

  module _ (b64 : Base64) (print_json : Value → String) (injector : UreqSecretInjector) where
    unfoldable pub secret_url : String → String → String
    secret_url namespace name =
        concat (injector.api_server ∷ "/api/v1/namespaces/" ∷ namespace ∷ "/secrets/" ∷ name ∷ [])

    unfoldable pub secrets_collection_url : String → String
    secrets_collection_url namespace =
        concat (injector.api_server ∷ "/api/v1/namespaces/" ∷ namespace ∷ "/secrets" ∷ [])

    abbrev pub authorization : String × String
    authorization = ("Authorization", concat ("Bearer " ∷ injector.token ∷ []))

    abbrev pub write_request : Method → String → String → Request
    write_request method url body = record {
      method = method;
      url = url;
      headers = authorization ∷ ("Content-Type", "application/json") ∷ [];
      body = body;
    }

    abbrev pub read_request : String → Request
    read_request url = record {
      method = Method.get;
      url = url;
      headers = authorization ∷ [];
      body = "";
    }

    -- The reply to the PUT that follows a conflict.
    abbrev pub put_result : Reply → Res (Unit {0})
    put_result (response status text) = ok tt
    put_result (status_error code e) =
        err (k8s_inject_failed (concat ("PUT update failed: " ∷ e ∷ [])))
    put_result (transport_error e) =
        err (k8s_inject_failed (concat ("PUT update failed: " ∷ e ∷ [])))

    abbrev pub update : String → String → Eff E (Unit {0})
    update put_url body = do
      reply ← act (send injector.agent (write_request Method.put put_url body))
      lift (put_result reply)

    abbrev pub post_failed : String → GenesisError
    post_failed e = k8s_inject_failed (concat ("POST create failed: " ∷ e ∷ []))

    abbrev pub after_post : String → String → Reply → Eff E (Unit {0})
    after_post put_url body (response status text) = pure tt
    after_post put_url body (status_error code e) =
        if code == 409 then update put_url body else lift (err (post_failed e))
    after_post put_url body (transport_error e) = lift (err (post_failed e))

    abbrev pub body_text : Bytes → String → String → String → Option SecretMetadata → String
    body_text key_bytes name namespace key metadata =
        print_json (secret_body (b64.encode key_bytes) name namespace key metadata)

    unfoldable pub inject :
        Bytes → String → String → String → Option SecretMetadata → Eff E (Unit {0})
    inject key_bytes secret_name secret_namespace secret_key metadata = do
      let body = body_text key_bytes secret_name secret_namespace secret_key metadata
      let url = secrets_collection_url secret_namespace
      reply ← act (send injector.agent (write_request Method.post url body))
      after_post (secret_url secret_namespace secret_name) body reply

    abbrev pub exists_result : Reply → Res Bool
    exists_result (response status text) = ok true
    exists_result (status_error code e) =
        if code == 404
        then ok false
        else err (k8s_check_failed (concat ("secret existence check failed: " ∷ e ∷ [])))
    exists_result (transport_error e) =
        err (k8s_check_failed (concat ("secret existence check failed: " ∷ e ∷ [])))

    unfoldable pub secret_exists : String → String → Eff E Bool
    secret_exists secret_name secret_namespace = do
      reply ← act (send injector.agent (read_request (secret_url secret_namespace secret_name)))
      lift (exists_result reply)

    abbrev pub injector_of : SecretInjector E
    injector_of = record { inject = inject; secret_exists = secret_exists }
