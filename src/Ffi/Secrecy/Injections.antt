-- ===== src/Ffi/Secrecy/Injections.antt =====
-- The injections (state.rs) of two machines that differ in the bytes of the key.
use genesis_operator.Prelude.{
  String, Option, some, List, [], ◌∷◌, ◌≡◌, refl, sym, ap, ◌∙◌, ◌==◌, inl, inr, Bool-cases,
  if◌then◌else◌,
}
use genesis_operator.Errors.{GenesisError}
use genesis_operator.Outcome.Effect.{lift, ◌>>◌}
use genesis_operator.KeyMaterial.{KeyMaterial, as_bytes}
use genesis_operator.Outcome.{err, Eff}
use genesis_operator.Http.{Method, Request, Reply, response, status_error, transport_error}
use genesis_operator.K8s.Metadata.{SecretMetadata}
use genesis_operator.K8s.Injector.{SecretInjector}
use genesis_operator.K8s.Cluster
use genesis_operator.K8s.Mock
use genesis_operator.State.{StateTag, Genesis, GenesisBootstrapping}
use genesis_operator.State.Bootstrapping.{
  Target, drop, inject_secret_with_metadata, inject_all, inject_secrets_multi,
}
use genesis_operator.Ffi.Calls.{Host}
use genesis_operator.Ffi.Secrecy.{Opaque}

module _ {E : Type 0} (host : Host E) (key1 key2 : KeyMaterial)
    (opaque : Opaque host (as_bytes key1) (as_bytes key2)) where
  open host use {cloud, tls}

  -- an injector that does the same with both keys
  abbrev pub Discreet : SecretInjector E → Type 0
  Discreet injector =
      (name ns key : String) (metadata : Option SecretMetadata) (env : E)
      → injector.inject (as_bytes key1) name ns key metadata env
        ≡ injector.inject (as_bytes key2) name ns key metadata env

  abbrev pub machine :
      Option (Genesis E StateTag.bootstrapping) → KeyMaterial → GenesisBootstrapping E
  machine inner key = record { inner = inner; key_material = some key }

  pub cluster-Discreet :
      (injector : Cluster.UreqSecretInjector tls)
      → Discreet (Cluster.injector_of tls cloud.b64 cloud.web.print_json injector)
  unfolding Cluster.inject
  cluster-Discreet injector name ns key metadata env =
      let created =
        opaque injector.agent Method.post (collection ns) headers name ns key metadata env in
      ap (λ z. after_post key1 z.0 z.1) created
      ∙ by_reply (tls.send injector.agent (posted key2) env).0
          (tls.send injector.agent (posted key2) env).1
    where
      collection : String → String
      collection = Cluster.secrets_collection_url tls cloud.b64 cloud.web.print_json injector

      resource : String
      resource = Cluster.secret_url tls cloud.b64 cloud.web.print_json injector ns name

      headers : List (String × String)
      headers =
          Cluster.authorization tls cloud.b64 cloud.web.print_json injector
          ∷ ("Content-Type", "application/json")
          ∷ []

      body : KeyMaterial → String
      body held =
          Cluster.body_text tls cloud.b64 cloud.web.print_json injector (as_bytes held) name ns key
            metadata

      posted : KeyMaterial → Request
      posted held =
          Cluster.write_request tls cloud.b64 cloud.web.print_json injector Method.post
            (collection ns) (body held)

      after_post : KeyMaterial → Reply → Eff E (Unit {0})
      after_post held =
          Cluster.after_post tls cloud.b64 cloud.web.print_json injector resource (body held)

      update : KeyMaterial → Eff E (Unit {0})
      update held = Cluster.update tls cloud.b64 cloud.web.print_json injector resource (body held)

      post_failed : String → GenesisError
      post_failed = Cluster.post_failed tls cloud.b64 cloud.web.print_json injector

      by_reply :
          (reply : Reply) (env' : E) → after_post key1 reply env' ≡ after_post key2 reply env'
      by_reply (response status text) env' = refl
      by_reply (transport_error m) env' = refl
      by_reply (status_error code m) env' = elim (Bool-cases (code == 409)) [
        | inl conflict ↦
            ap (λ c. (if c then update key1 else lift (err (post_failed m))) env') conflict
            ∙ ap (λ z. (Cluster.put_result tls cloud.b64 cloud.web.print_json injector z.0, z.1))
                (opaque injector.agent Method.put resource headers name ns key metadata env')
            ∙ sym (ap (λ c. (if c then update key2 else lift (err (post_failed m))) env') conflict)
        | inr other ↦ rw other
      ]

  pub mock-Discreet : Discreet Mock.made_for_call
  unfolding Mock.inject
  mock-Discreet name ns key metadata env = refl

  pub inject_one-Alike :
      (inner : Option (Genesis E StateTag.bootstrapping)) (injector : SecretInjector E)
      (name ns key : String) (metadata : Option SecretMetadata)
      → Discreet injector
      → (env : E)
      → inject_secret_with_metadata (machine inner key1) injector name ns key metadata env
        ≡ inject_secret_with_metadata (machine inner key2) injector name ns key metadata env
  unfolding inject_secret_with_metadata
  inject_one-Alike inner injector name ns key metadata discreet env =
      rw (discreet name ns key metadata env)

  inject_all-Alike :
      (injector : SecretInjector E) (metadata : Option SecretMetadata) (targets : List Target)
      → Discreet injector
      → (env : E)
      → inject_all injector (as_bytes key1) metadata targets env
        ≡ inject_all injector (as_bytes key2) metadata targets env
  unfolding inject_all
  inject_all-Alike injector metadata [] discreet env = refl
  inject_all-Alike injector metadata ((name, ns, key) ∷ rest) discreet env =
      let later = inject_all-Alike injector metadata rest discreet in
      λ i. ((λ e. discreet name ns key metadata e i) >> (λ e. later e i)) env

  pub inject_many-Alike :
      (inner : Option (Genesis E StateTag.bootstrapping)) (injector : SecretInjector E)
      (targets : List Target) (metadata : Option SecretMetadata)
      → Discreet injector
      → (env : E)
      → inject_secrets_multi (machine inner key1) injector targets metadata env
        ≡ inject_secrets_multi (machine inner key2) injector targets metadata env
  unfolding inject_secrets_multi drop
  inject_many-Alike inner injector [] metadata discreet env = refl
  inject_many-Alike inner injector (target ∷ rest) metadata discreet env =
      rw (inject_all-Alike injector metadata (target ∷ rest) discreet env)
