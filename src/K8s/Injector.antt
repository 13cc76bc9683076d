-- ===== src/K8s/Injector.antt =====
-- The trait `SecretInjector` of genesis-core/src/k8s/inject.rs.
use genesis_operator.Prelude.{String, Bool, Option, Bytes}
use genesis_operator.Outcome.{Eff}
use genesis_operator.K8s.Metadata.{SecretMetadata}

-- The arguments: the key bytes, then the name, the namespace and the key of the secret.
pub record SecretInjector (E : Type 0) : Type 0 where
  pub inject : Bytes → String → String → String → Option SecretMetadata → Eff E (Unit {0})
  pub secret_exists : String → String → Eff E Bool
