-- ===== src/State/Targets.antt =====
-- What the injection into several targets leaves in the cluster: inject_secrets_multi of state.rs
-- with UreqSecretInjector of k8s/inject.rs.
use genesis_operator.Prelude.{
  ℕ, String, str_eq, eq_iff, Bool-cases, Option, some, List, [], ◌∷◌, Bytes, if◌then◌else◌, ◌≡◌,
  ◌≢◌, refl, ap, sym, ◌∙◌, inl, inr,
}
use genesis_operator.Outcome.{Res, ok, err, panicked}
use genesis_operator.Outcome.Effect.{continue}
use genesis_operator.Json.{Value}
use genesis_operator.Http.{Method, Request, response, status_error, Base64}
use genesis_operator.K8s.Metadata.{SecretMetadata, secret_body}
use genesis_operator.K8s.Cluster.{
  Tls, UreqSecretInjector, inject, injector_of, body_text, secret_url, secrets_collection_url,
}
use genesis_operator.K8s.Accepted.{Accepted, inject-Accepted, post_request, put_request}
use genesis_operator.K8s.Stored.{ApiServer, collection, resource, inject-Present}
use genesis_operator.State.Bootstrapping.{Target, inject_all}

module _ {E : Type 0} (tls : Tls E) (b64 : Base64) (print_json : Value → String)
    (injector : UreqSecretInjector tls) (stored : String → String → E → Option String) where
  -- What the reference of the API says of the other secrets, where nobody else writes: a create or
  -- an update that is answered changes none of another URL, and one that is refused with a conflict
  -- changes none at all.
  pub record Undisturbed : Type 0 where
    pub creates_only :
        (r : Request) (encoded name ns key text other_name other_ns : String)
        (metadata : Option SecretMetadata) (status : ℕ) (env env' : E)
        → r.method ≡ Method.post
        → r.url ≡ collection tls b64 print_json injector ns
        → r.body ≡ print_json (secret_body encoded name ns key metadata)
        → resource tls b64 print_json injector ns name
          ≢ resource tls b64 print_json injector other_ns other_name
        → tls.send injector.agent r env ≡ (response status text, env')
        → stored other_ns other_name env' ≡ stored other_ns other_name env
    pub replaces_only :
        (r : Request) (name ns text other_name other_ns : String) (status : ℕ) (env env' : E)
        → r.method ≡ Method.put
        → r.url ≡ resource tls b64 print_json injector ns name
        → resource tls b64 print_json injector ns name
          ≢ resource tls b64 print_json injector other_ns other_name
        → tls.send injector.agent r env ≡ (response status text, env')
        → stored other_ns other_name env' ≡ stored other_ns other_name env
    pub refuses :
        (r : Request) (e other_name other_ns : String) (env env' : E)
        → tls.send injector.agent r env ≡ (status_error 409 e, env')
        → stored other_ns other_name env' ≡ stored other_ns other_name env
    -- a secret is known by its URL
    pub by_url :
        (name ns other_name other_ns : String) (env : E)
        → resource tls b64 print_json injector ns name
          ≡ resource tls b64 print_json injector other_ns other_name
        → stored other_ns other_name env ≡ stored ns name env

  -- what the targets, one after the other, make of the secret of this name and namespace
  unfoldable pub settled :
      Bytes → Option SecretMetadata → List Target → String → String → Option String → Option String
  settled key_bytes metadata [] name ns before = before
  settled key_bytes metadata ((n, s, key) ∷ rest) name ns before =
      settled key_bytes metadata rest name ns (
        if str_eq (resource tls b64 print_json injector s n)
          (resource tls b64 print_json injector ns name)
        then some (body_text tls b64 print_json injector key_bytes n s key metadata)
        else before)

  module _ (server : ApiServer tls b64 print_json injector stored) (alone : Undisturbed) where
    inject_leaves :
        (key_bytes : Bytes) (n s key name ns : String) (metadata : Option SecretMetadata)
        (env env' : E)
        → resource tls b64 print_json injector s n ≢ resource tls b64 print_json injector ns name
        → inject tls b64 print_json injector key_bytes n s key metadata env ≡ (ok tt, env')
        → stored ns name env' ≡ stored ns name env
    unfolding secret_url secrets_collection_url
    inject_leaves key_bytes n s key name ns metadata env env' differ h =
        by_case (inject-Accepted tls b64 print_json injector key_bytes n s key metadata env env' h)
      where
        post : Request
        post = post_request tls b64 print_json injector key_bytes n s key metadata

        put : Request
        put = put_request tls b64 print_json injector key_bytes n s key metadata

        by_case :
            Accepted tls b64 print_json injector post put env env'
            → stored ns name env' ≡ stored ns name env
        by_case (inl (status, text, sent)) =
            alone.creates_only post (b64.encode key_bytes) n s key text name ns metadata status env
              env' refl refl refl differ sent
        by_case (inr (e, env1, status, text, posted, sent)) =
            alone.replaces_only put n s text name ns status env1 env' refl refl differ sent
            ∙ alone.refuses post e name ns env env1 posted

    inject_settles :
        (key_bytes : Bytes) (n s key name ns : String) (metadata : Option SecretMetadata)
        (env env' : E)
        → inject tls b64 print_json injector key_bytes n s key metadata env ≡ (ok tt, env')
        → stored ns name env' ≡ (
            if str_eq
              (resource tls b64 print_json injector s n)
              (resource tls b64 print_json injector ns name)
            then some (body_text tls b64 print_json injector key_bytes n s key metadata)
            else stored ns name env)
    inject_settles key_bytes n s key name ns metadata env env' h =
        elim (Bool-cases (str_eq there here)) [
          | inl same ↦ rw same (
              alone.by_url n s name ns env' ((eq_iff there here).0 same)
              ∙ (inject-Present tls b64 print_json injector stored server key_bytes n s key metadata
                  env env' h).0)
          | inr other ↦ rw other (
              inject_leaves key_bytes n s key name ns metadata env env'
                (λ p. cc (other, (eq_iff there here).1 p)) h)
        ]
      where
        there : String
        there = resource tls b64 print_json injector s n

        here : String
        here = resource tls b64 print_json injector ns name

    -- After an injection into several targets that succeeded, every secret that a target names
    -- stands with the whole body that the last target with its URL wrote, in which the key of that
    -- target is the only one, and a secret that none names is as it was before. The server does
    -- what the reference of the API says, and nobody else writes.
    pub inject_all_settles :
        (key_bytes : Bytes) (targets : List Target) (metadata : Option SecretMetadata)
        (name ns : String) (env env' : E)
        → inject_all (injector_of tls b64 print_json injector) key_bytes metadata targets env
          ≡ (ok tt, env')
        → stored ns name env' ≡ settled key_bytes metadata targets name ns (stored ns name env)
    unfolding inject_all settled
    inject_all_settles key_bytes [] metadata name ns env env' h =
        ap (λ p. stored ns name p.1) (sym h)
    inject_all_settles key_bytes ((n, s, key) ∷ rest) metadata name ns env env' h =
        by_first (inject tls b64 print_json injector key_bytes n s key metadata env).0
          (inject tls b64 print_json injector key_bytes n s key metadata env).1 refl
          (λ env1. inject_all_settles key_bytes rest metadata name ns env1 env') h
      where
        later : E → Res (Unit {0}) × E
        later = inject_all (injector_of tls b64 print_json injector) key_bytes metadata rest

        by_first :
            (r : Res (Unit {0})) (env1 : E)
            → inject tls b64 print_json injector key_bytes n s key metadata env ≡ (r, env1)
            → ((env2 : E)
                → later env2 ≡ (ok tt, env')
                → stored ns name env'
                  ≡ settled key_bytes metadata rest name ns (stored ns name env2))
            → continue r (λ _. later) env1 ≡ (ok tt, env')
            → stored ns name env'
              ≡ settled key_bytes metadata ((n, s, key) ∷ rest) name ns (stored ns name env)
        by_first (ok u) env1 first rest_settles g =
            rest_settles env1 g
            ∙ ap (settled key_bytes metadata rest name ns)
                (inject_settles key_bytes n s key name ns metadata env env1 first)
        by_first (err e) env1 first rest_settles g = cc (ap (λ p. p.0) g)
        by_first (panicked m) env1 first rest_settles g = cc (ap (λ p. p.0) g)
