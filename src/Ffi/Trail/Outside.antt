-- ===== src/Ffi/Trail/Outside.antt =====
-- The key services and the injectors that the entry points (ffi.rs) make, as actions that write no
-- event.
use genesis_operator.Prelude.{
  Bool, true, false, str_eq, ◌==◌, ◌&&◌, ◌||◌, String, Option, List, Bytes, refl, if◌then◌else◌,
}
use genesis_operator.Errors.{GenesisError}
use genesis_operator.Outcome.{Res, ok, err, panicked, res_map}
use genesis_operator.Outcome.Effect
use genesis_operator.Audit.{AuditEvent, AuditSink}
use genesis_operator.Http.{Request, Reply, response, status_error, transport_error}
use genesis_operator.Kms.{KmsProvider}
use genesis_operator.Kms.Config.{KmsConfig, create_provider}
use genesis_operator.Kms.Aws
use genesis_operator.Kms.Aws.{AwsKmsProvider}
use genesis_operator.Kms.Gcp
use genesis_operator.Kms.Gcp.{GcpKmsProvider}
use genesis_operator.Kms.Azure
use genesis_operator.Kms.Azure.{AzureKeyVaultProvider}
use genesis_operator.K8s.Metadata.{SecretMetadata}
use genesis_operator.K8s.Injector.{SecretInjector}
use genesis_operator.K8s.Cluster
use genesis_operator.K8s.Mock as MockCluster
use genesis_operator.Ffi.Calls.{Host}
use genesis_operator.Ffi.Trail.{Recorder, Quiet, lift-Quiet, then-Quiet}

module _ {E : Type 0} (log : E → List AuditEvent) where
  pub record QuietKms (kms : KmsProvider E) : Type 0 where
    pub encrypts : (plaintext : Bytes) → Quiet log (kms.encrypt plaintext)
    pub decrypts : (ciphertext : Bytes) → Quiet log (kms.decrypt ciphertext)

  abbrev pub QuietInjector : SecretInjector E → Type 0
  QuietInjector injector =
      (key_bytes : Bytes) (name ns key : String) (metadata : Option SecretMetadata)
      → Quiet log (injector.inject key_bytes name ns key metadata)

  abbrev pub QuietResult : Res (KmsProvider E) → Type 0
  QuietResult (ok kms) = QuietKms kms
  QuietResult (err e) = Unit {0}
  QuietResult (panicked message) = Unit {0}

module _ {E : Type 0} (host : Host E) (log : E → List AuditEvent) (sink : AuditSink E)
    (recorder : Recorder host log sink) where
  open host use {cloud, tls}

  sent-Quiet : (request : Request) → Quiet log (Effect.act (cloud.web.send request))
  sent-Quiet request = record { keeps = λ env. recorder.asks request env }

  signed-Quiet :
      (p : AwsKmsProvider) (request : Request) (f : String → GenesisError)
      → Quiet log (Effect.call (cloud.sign p request) f)
  signed-Quiet p request f = record { keeps = λ env. recorder.signs p request env }

  call_api-Quiet :
      (p : AwsKmsProvider) (target body : String)
      → Quiet log (Aws.call_api cloud.web cloud.sign cloud.b64 p target body)
  unfolding Aws.call_api
  call_api-Quiet p target body = search (then-Quiet, lift-Quiet, sent-Quiet, signed-Quiet)

  aws-QuietKms : (p : AwsKmsProvider) → QuietKms log (Aws.provider cloud.web cloud.sign cloud.b64 p)
  unfolding Aws.encrypt Aws.decrypt
  aws-QuietKms p = record {
    encrypts = λ plaintext. search (then-Quiet, lift-Quiet, call_api-Quiet);
    decrypts = λ ciphertext. search (then-Quiet, lift-Quiet, call_api-Quiet);
  }

  gcp-QuietKms : (p : GcpKmsProvider) → QuietKms log (Gcp.provider cloud.web cloud.b64 p)
  unfolding Gcp.encrypt Gcp.decrypt
  gcp-QuietKms p = record {
    encrypts = λ plaintext. search (then-Quiet, lift-Quiet, sent-Quiet);
    decrypts = λ ciphertext. search (then-Quiet, lift-Quiet, sent-Quiet);
  }

  azure-QuietKms :
      (p : AzureKeyVaultProvider)
      → QuietKms log (Azure.provider cloud.web cloud.replies cloud.b64_url p)
  unfolding Azure.key_operation
  azure-QuietKms p = record {
    encrypts = λ plaintext. search (then-Quiet, lift-Quiet, sent-Quiet);
    decrypts = λ ciphertext. search (then-Quiet, lift-Quiet, sent-Quiet);
  }

  if_Quiet :
      (b : Bool) (x y : Res (KmsProvider E))
      → QuietResult log x
      → QuietResult log y
      → QuietResult log (if b then x else y)
  if_Quiet true x y f g = f
  if_Quiet false x y f g = g

  res_map-Quiet :
      {A : Type 0} (f : A → KmsProvider E) (r : Res A)
      → ((a : A) → QuietKms log (f a))
      → QuietResult log (res_map f r)
  res_map-Quiet f (ok a) quiet = quiet a
  res_map-Quiet f (err e) quiet = tt
  res_map-Quiet f (panicked m) quiet = tt

  -- whatever the configuration and the build
  pub create_provider-Quiet :
      (config : KmsConfig) (env : E) → QuietResult log (create_provider cloud config env)
  unfolding create_provider
  create_provider-Quiet config env =
      let is = str_eq config.provider_type in
      if_Quiet (cloud.mock_build && is "mock") _ _
        (record { encrypts = λ x. lift-Quiet log _; decrypts = λ x. lift-Quiet log _ })
        (if_Quiet (cloud.mock_build && is "null") _ _
          (record { encrypts = λ x. lift-Quiet log _; decrypts = λ x. lift-Quiet log _ })
          (if_Quiet (is "mock" || is "null") _ _ tt (
            if_Quiet (is "aws") _ _ (res_map-Quiet _ _ aws-QuietKms) (
              if_Quiet (is "gcp") _ _ (res_map-Quiet _ _ gcp-QuietKms) (
                if_Quiet (is "azure") _ _ (res_map-Quiet _ _ azure-QuietKms)
                  (if_Quiet (is "local") _ _ tt tt))))))

  pub cluster-QuietInjector :
      (injector : Cluster.UreqSecretInjector tls)
      → QuietInjector log (Cluster.injector_of tls cloud.b64 cloud.web.print_json injector)
  unfolding Cluster.inject
  cluster-QuietInjector injector key_bytes name ns key metadata =
      then-Quiet log _ _ (asked_Quiet _) by_reply
    where
      body : String
      body =
          Cluster.body_text tls cloud.b64 cloud.web.print_json injector key_bytes name ns key
            metadata

      url : String
      url = Cluster.secret_url tls cloud.b64 cloud.web.print_json injector ns name

      asked_Quiet : (request : Request) → Quiet log (Effect.act (tls.send injector.agent request))
      asked_Quiet request = record { keeps = λ env. recorder.sends injector.agent request env }

      by_code :
          (conflict : Bool) (failed : GenesisError)
          → Quiet log (
              if conflict
              then Cluster.update tls cloud.b64 cloud.web.print_json injector url body
              else Effect.lift (err failed))
      by_code true failed = search (then-Quiet, lift-Quiet, asked_Quiet)
      by_code false failed = lift-Quiet log (err failed)

      by_reply :
          (reply : Reply)
          → Quiet log
              (Cluster.after_post tls cloud.b64 cloud.web.print_json injector url body reply)
      by_reply (response status text) = lift-Quiet log (ok tt)
      by_reply (transport_error m) = lift-Quiet log _
      by_reply (status_error code m) = by_code (code == 409) _

  pub mock-QuietInjector : QuietInjector log MockCluster.made_for_call
  unfolding MockCluster.inject
  mock-QuietInjector key_bytes name ns key metadata = record { keeps = λ env. refl }

  pub in_cluster-Quiet : Quiet log (Cluster.in_cluster tls)
  unfolding Cluster.in_cluster
  in_cluster-Quiet = search (then-Quiet, lift-Quiet, text_Quiet, file_Quiet)
    where
      text_Quiet :
          (path : String) (f : String → GenesisError)
          → Quiet log (Effect.call (tls.read_text path) f)
      text_Quiet path f = record { keeps = λ env. recorder.reads_text path env }

      file_Quiet :
          (path : String) (f : String → GenesisError)
          → Quiet log (Effect.call (tls.read_file path) f)
      file_Quiet path f = record { keeps = λ env. recorder.reads_file path env }
