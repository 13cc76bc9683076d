-- ===== src/Ffi/Secrecy.antt =====
-- Two runs of the C ABI (ffi.rs) that differ in the bytes of the keys that are held: the relation
-- of machines, flows and runtimes, and its rules for each kind of step.
pub mod Injections
pub mod Calls
pub mod Runs
pub mod Observed
use genesis_operator.Prelude.{
  List, String, Option, none, some, Bytes, ◌≡◌, refl, sym, ap, ◌∙◌, subst,
}
use genesis_operator.Errors.{GenesisError}
use genesis_operator.KeyMaterial.{KeyMaterial, as_bytes}
use genesis_operator.Http.{Method, Request}
use genesis_operator.Outcome.{Res, ok, err, panicked, Eff}
use genesis_operator.K8s.Metadata.{SecretMetadata, secret_body}
use genesis_operator.State.{StateTag, Genesis}
use genesis_operator.Ffi.{GenesisInner, bootstrapping, Parsed, parsed, refused}
use genesis_operator.Ffi.Flow.{
  Exit, with_handle, without_handle, Flow, next, return, unwinds, Body, pure, or_graft, attempt,
  ◌>>=◌, go_on, outcome, wrong_state,
}
use genesis_operator.Ffi.Calls.{Host}

-- the machine of an instance that is bootstrapping with this key
abbrev pub boxed :
    {E : Type 0} → Option (Genesis E StateTag.bootstrapping) → KeyMaterial → GenesisInner E
boxed inner key = bootstrapping (record { inner = inner; key_material = some key })

module _ {E : Type 0} (host : Host E) where
  open host use {cloud, tls}

  -- the body of the request that writes these bytes as a secret
  abbrev pub written_body : Bytes → String → String → String → Option SecretMetadata → String
  written_body key_bytes name ns key metadata =
      cloud.web.print_json (secret_body (cloud.b64.encode key_bytes) name ns key metadata)

  -- The server does the same with the two keys where they are written: to someone who does not see
  -- the bodies of these requests, everything outside is the same.
  abbrev pub Opaque : Bytes → Bytes → Type 0
  Opaque key1 key2 =
      (agent : tls.Agent) (method : Method) (url : String) (headers : List (String × String))
      (name ns key : String) (metadata : Option SecretMetadata) (env : E)
      → tls.send agent
          (record {
            method = method;
            url = url;
            headers = headers;
            body = written_body key1 name ns key metadata;
          })
          env
        ≡ tls.send agent
            (record {
              method = method;
              url = url;
              headers = headers;
              body = written_body key2 name ns key metadata;
            })
            env

  -- the same machine, or two that hold different keys
  pub data Alike : GenesisInner E → GenesisInner E → Type 0 where
    same : {inner : GenesisInner E} → Alike inner inner
    hidden :
        (inner : Option (Genesis E StateTag.bootstrapping)) (key1 key2 : KeyMaterial)
        → Opaque (as_bytes key1) (as_bytes key2)
        → Alike (boxed inner key1) (boxed inner key2)

  abbrev pub AlikeExit : Exit E → Exit E → Type 0
  AlikeExit (with_handle i f) (with_handle j g) = Alike i j × (f ≡ g)
  AlikeExit (without_handle r) (without_handle s) = r ≡ s
  AlikeExit _ _ = ⊥

  -- the same value, of which something is known
  abbrev pub AlikeFlow : {A : Type 0} → (A → Type 0) → Flow E A → Flow E A → Type 0
  AlikeFlow P (next a) (next b) = (a ≡ b) × P a
  AlikeFlow P (return e) (return e') = AlikeExit e e'
  AlikeFlow P (unwinds m) (unwinds m') = m ≡ m'
  AlikeFlow P _ _ = ⊥

  abbrev pub AlikeEnd : Flow E (Exit E) → Flow E (Exit E) → Type 0
  AlikeEnd (next e) (next e') = AlikeExit e e'
  AlikeEnd (return e) (return e') = AlikeExit e e'
  AlikeEnd (unwinds m) (unwinds m') = m ≡ m'
  AlikeEnd _ _ = ⊥

  abbrev pub AlikeStep : {A : Type 0} → (A → Type 0) → Body E A → Body E A → Type 0
  AlikeStep P m n = (env : E) → AlikeFlow P (m env).0 (n env).0 × ((m env).1 ≡ (n env).1)

  abbrev pub AlikeBody : Body E (Exit E) → Body E (Exit E) → Type 0
  AlikeBody m n = (env : E) → AlikeEnd (m env).0 (n env).0 × ((m env).1 ≡ (n env).1)

  pub then-Alike :
      {A : Type 0} {P : A → Type 0} (m n : Body E A) (k l : A → Body E (Exit E))
      → AlikeStep P m n
      → ((a : A) → P a → AlikeBody (k a) (l a))
      → AlikeBody (m >>= k) (n >>= l)
  unfolding ◌>>=◌
  then-Alike {A = A} {P = P} m n k l first rest env =
      by_flow (m env).0 (n env).0 (m env).1 (n env).1 (first env).0 (first env).1
    where
      by_flow :
          (flow flow' : Flow E A) (env1 env2 : E)
          → AlikeFlow P flow flow'
          → env1 ≡ env2
          → AlikeEnd (go_on flow k env1).0 (go_on flow' l env2).0
            × ((go_on flow k env1).1 ≡ (go_on flow' l env2).1)
      by_flow (next a) (next b) env1 env2 (e, known) h =
          subst (λ z. AlikeEnd (k a env1).0 (l z env2).0 × ((k a env1).1 ≡ (l z env2).1)) e
            (subst (λ z. AlikeEnd (k a env1).0 (l a z).0 × ((k a env1).1 ≡ (l a z).1)) h
              (rest a known env1))
      by_flow (return e) (return e') env1 env2 alike h = (alike, h)
      by_flow (unwinds m) (unwinds m') env1 env2 alike h = (alike, h)
      by_flow (next a) (return e) env1 env2 alike h = absurd alike
      by_flow (next a) (unwinds m) env1 env2 alike h = absurd alike
      by_flow (return e) (next a) env1 env2 alike h = absurd alike
      by_flow (return e) (unwinds m) env1 env2 alike h = absurd alike
      by_flow (unwinds m) (next a) env1 env2 alike h = absurd alike
      by_flow (unwinds m) (return e) env1 env2 alike h = absurd alike

  abbrev pub Known : {A : Type 0} → A → Type 0
  Known a = Unit {0}

  pub exit-Alike : (exit : Exit E) → AlikeExit exit exit
  exit-Alike (with_handle inner f) = (same, refl)
  exit-Alike (without_handle result) = refl

  pub body-Alike : (m : Body E (Exit E)) → AlikeBody m m
  body-Alike m env = (by_flow (m env).0, refl)
    where
      by_flow : (flow : Flow E (Exit E)) → AlikeEnd flow flow
      by_flow (next exit) = exit-Alike exit
      by_flow (return exit) = exit-Alike exit
      by_flow (unwinds message) = refl

  pub or_graft-Alike :
      {A : Type 0} (i j : GenesisInner E) (r : Parsed A)
      → Alike i j
      → AlikeStep Known (or_graft i r) (or_graft j r)
  unfolding or_graft
  or_graft-Alike i j (parsed a) alike env = ((refl, tt), refl)
  or_graft-Alike i j (refused code message) alike env = ((alike, refl), refl)

  pub attempt-Alike :
      {A : Type 0} (exit : GenesisError → Exit E) (m n : Eff E A)
      → ((env : E) → m env ≡ n env)
      → AlikeStep Known (attempt exit m) (attempt exit n)
  unfolding attempt
  attempt-Alike {A = A} exit m n h env =
      subst (λ z. AlikeFlow Known (outcome exit (m env).0) (outcome exit z.0) × ((m env).1 ≡ z.1))
        (h env) (by_result (m env).0, refl)
    where
      by_result : (r : Res A) → AlikeFlow Known (outcome exit r) (outcome exit r)
      by_result (ok a) = (refl, tt)
      by_result (err e) = exit-Alike (exit e)
      by_result (panicked message) = refl

  pub wrong_state-Alike :
      (message : String) (i j : GenesisInner E)
      → Alike i j
      → AlikeBody (wrong_state message i) (wrong_state message j)
  unfolding wrong_state pure
  wrong_state-Alike message i j alike env = ((alike, refl), refl)
