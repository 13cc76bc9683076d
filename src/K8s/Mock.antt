-- ===== src/K8s/Mock.antt =====
-- `MockSecretInjector` of genesis-core/src/k8s/inject.rs: a cluster in memory. Its two maps stand
-- behind locks, so it is the state that its methods act on; a `HashMap` is a list of entries whose
-- keys differ.
pub mod Paths
pub mod Laws
use Prim.Native.String
use genesis_operator.Prelude.{
  String, str_eq, Bool, false, ◌||◌, Option, none, some, List, [], ◌∷◌, Bytes, concat,
  if◌then◌else◌,
}
use genesis_operator.Outcome.{Eff}
use genesis_operator.Outcome.Effect.{lift}
use genesis_operator.Outcome.{ok}
use genesis_operator.K8s.Metadata.{SecretMetadata}
use genesis_operator.K8s.Injector.{SecretInjector}
use genesis_operator.K8s.Auth.{starts_with}

-- `HashMap::insert`
unfoldable pub insert : {A : Type 0} → String → A → List (String × A) → List (String × A)
insert key value [] = (key, value) ∷ []
insert key value ((k, v) ∷ rest) =
    let later = insert key value rest in if str_eq k key then (k, value) ∷ rest else (k, v) ∷ later

-- `keys().any(test)`
unfoldable pub any_key : {A : Type 0} → (String → Bool) → List (String × A) → Bool
any_key test [] = false
any_key test ((k, v) ∷ rest) = test k || any_key test rest

-- `str::contains`
unfoldable pub contains : String → String → Bool
contains part String.[] = starts_with part ""
contains part (String.◌∷◌ c s) = starts_with part (String.◌∷◌ c s) || contains part s

pub record MockSecretInjector : Type 0 where
  pub secrets : List (String × Bytes)
  pub metadata_log : List (String × SecretMetadata)

abbrev pub new : MockSecretInjector
new = record { secrets = []; metadata_log = [] }

unfoldable pub was_injected : String → MockSecretInjector → Bool
unfolding any_key contains
was_injected name injector = any_key (contains name) injector.secrets

abbrev pub snapshot : MockSecretInjector → List (String × Bytes)
snapshot injector = injector.secrets

abbrev pub metadata_snapshot : MockSecretInjector → List (String × SecretMetadata)
metadata_snapshot injector = injector.metadata_log

abbrev pub compound_key : String → String → String → String
compound_key secret_namespace secret_name secret_key =
    concat (secret_namespace ∷ "/" ∷ secret_name ∷ "/" ∷ secret_key ∷ [])

abbrev pub logged :
    String → Option SecretMetadata → List (String × SecretMetadata) → List (String × SecretMetadata)
logged meta_key none log = log
logged meta_key (some meta) log = insert meta_key meta log

unfoldable pub inject :
    Bytes → String → String → String → Option SecretMetadata → Eff MockSecretInjector (Unit {0})
unfolding insert
inject key_bytes secret_name secret_namespace secret_key metadata injector = (
  ok tt,
  record {
    secrets =
        insert (compound_key secret_namespace secret_name secret_key) key_bytes injector.secrets;
    metadata_log =
        logged (concat (secret_namespace ∷ "/" ∷ secret_name ∷ [])) metadata injector.metadata_log;
  },
)

unfoldable pub secret_exists : String → String → Eff MockSecretInjector Bool
unfolding any_key
secret_exists secret_name secret_namespace injector =
    let prefix = concat (secret_namespace ∷ "/" ∷ secret_name ∷ "/" ∷ []) in
    (ok (any_key (starts_with prefix) injector.secrets), injector)

abbrev pub injector_of : SecretInjector MockSecretInjector
injector_of = record { inject = inject; secret_exists = secret_exists }

-- A mock that is made for one call and dropped at its end: nothing asks what it remembers, and the
-- result of an injection does not depend on it.
abbrev pub made_for_call : {E : Type 0} → SecretInjector E
made_for_call = record {
  inject = λ key_bytes name namespace key metadata.
      lift (inject key_bytes name namespace key metadata new).0;
  secret_exists = λ name namespace. lift (secret_exists name namespace new).0;
}
