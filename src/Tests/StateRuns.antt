-- ===== src/Tests/StateRuns.antt =====
-- One run of each property of the lifecycle.
use genesis_operator.Prelude.{
  str_eq, if◌then◌else◌, ◌++◌, true, none, some, List, [], ◌∷◌, Bytes, ◌≡◌, refl,
}
use genesis_operator.KeyMaterial.{new}
use genesis_operator.Json
use genesis_operator.Outcome.{Res, ok, err}
use genesis_operator.Outcome.Effect.{pure}
use genesis_operator.Audit.{AuditEvent}
use genesis_operator.Errors.{k8s_inject_failed}
use genesis_operator.K8s.Injector.{SecretInjector}
use genesis_operator.Kms.{null_kms_provider}
use genesis_operator.State.{
  StateTag, Genesis, GenesisConfig, PublicArtifacts, become, keys_of, artifacts_of,
}
use genesis_operator.State.Operations
use genesis_operator.State.Operations.{
  init, verify, seal, unseal, begin_bootstrap, begin_rotation, abort_rotation, complete_rotation,
}
use genesis_operator.State.Bootstrapping.{
  Target, drop, inject_secret_with_metadata, inject_secrets_multi, inject_all,
}
use genesis_operator.State.Lifecycle.{verify-init, unseal-seal}
use genesis_operator.State.Injection.{
  holding, inject_secret_calls, inject_secrets_multi-inject_secret,
}
use genesis_operator.State.Writes.{Stopped, inject_secrets_multi_writes}
use genesis_operator.State.Progress.{Available, Bootstrapped, bootstrap-Bootstrapped}
use genesis_operator.State.Rotation.{Rotated, complete_rotation_replaces}
use genesis_operator.Tests.Worlds.{
  small_age, small-AgeContract, null-KmsContract, event, secret, Log, log_audit, log_injector,
}

abbrev config : GenesisConfig
config = record {
  provider_type = "aws";
  provider_config = Json.Value.null;
  public_key = none;
  envelope_ciphertext = none;
}

abbrev initial : Genesis Log StateTag.uninitialized
initial = Operations.new config log_audit

abbrev envelope : Bytes
envelope = 1 ∷ 2 ∷ []

abbrev machine : Genesis Log StateTag.initialized
machine = record { config = keys_of "age1" envelope config; audit = log_audit }

abbrev artifacts : PublicArtifacts
artifacts = artifacts_of "age1" envelope

abbrev log_init : Log
log_init = event (AuditEvent.init "age1" (some "null-dev")) ∷ []

verify-init_example :
    (verify small_age machine null_kms_provider log_init).0
    ≡ ok (record { public_key_matches = true; public_key = "age1" })
unfolding init
verify-init_example =
    verify-init small_age small-AgeContract initial null_kms_provider machine artifacts [] log_init
      log_init null-KmsContract refl

unseal-seal_example :
    (unseal small_age machine null_kms_provider (7 ∷ 3 ∷ 4 ∷ []) log_init).0 ≡ ok (3 ∷ 4 ∷ [])
unfolding init seal
unseal-seal_example =
    unseal-seal small_age small-AgeContract initial null_kms_provider machine artifacts (3 ∷ 4 ∷ [])
      (7 ∷ 3 ∷ 4 ∷ []) [] log_init [] (event (AuditEvent.seal 2) ∷ []) log_init null-KmsContract
      refl refl

abbrev boot : Genesis Log StateTag.bootstrapping
boot = become StateTag.bootstrapping machine

abbrev targets : List Target
targets = ("b", "other", "key") ∷ ("c", "ns", "key") ∷ []

inject_secret_calls_example :
    inject_secret_with_metadata (holding boot (new envelope)) log_injector "a" "ns" "key" none []
    ≡ (
      ok (become StateTag.active boot),
      secret "a" envelope ∷ event (AuditEvent.inject_secret "a" "ns" true) ∷ [],
    )
inject_secret_calls_example =
    inject_secret_calls boot (new envelope) log_injector "a" "ns" "key" none []

-- a cluster that refuses the secret b
abbrev refused : Res (Unit {0})
refused = err (k8s_inject_failed "forbidden")

abbrev picky_injector : SecretInjector Log
picky_injector = record {
  inject = λ key_bytes name ns key metadata log.
      if str_eq name "b" then (refused, log) else (ok tt, log ++ (secret name key_bytes ∷ []));
  secret_exists = λ name ns. pure true;
}

inject_secrets_multi_writes_example :
    Stopped picky_injector envelope none
      (("a", "ns", "key") ∷ targets)
      refused
      []
      (secret "a" envelope ∷ [])
unfolding inject_secrets_multi inject_all drop
inject_secrets_multi_writes_example =
    inject_secrets_multi_writes boot (new envelope) picky_injector ("a", "ns", "key") targets none
      []

abbrev rotating : Genesis Log StateTag.rotating
rotating = become StateTag.rotating machine

abbrev log_rotation : Log
log_rotation = secret "a" envelope ∷ event (AuditEvent.complete_rotation "age1") ∷ []

complete_rotation_replaces_example :
    Rotated small_age rotating null_kms_provider log_injector "a" "ns" "key" none none
      (become StateTag.active machine)
      artifacts
      []
      log_rotation
unfolding complete_rotation
complete_rotation_replaces_example =
    complete_rotation_replaces small_age small-AgeContract rotating null_kms_provider log_injector
      "a" "ns" "key" none none (become StateTag.active machine) artifacts [] log_rotation refl

inject_secrets_multi-inject_secret_example :
    inject_secrets_multi
      (holding boot (new envelope))
      log_injector
      (("a", "ns", "key") ∷ [])
      none
      []
    ≡ inject_secret_with_metadata (holding boot (new envelope)) log_injector "a" "ns" "key" none []
inject_secrets_multi-inject_secret_example =
    inject_secrets_multi-inject_secret (holding boot (new envelope)) boot log_injector "a" "ns"
      "key" none [] refl

log-Available : Available small_age null_kms_provider log_injector
log-Available = record {
  generates = λ env. (_, _, refl);
  encrypts = λ plaintext env. (_, _, refl);
  decrypts = λ plaintext ciphertext env1 env2 env3 h. (_, _, refl);
  injects = λ key_bytes name ns key metadata env. (_, _, refl);
}

bootstrap-Bootstrapped_example :
    Bootstrapped small_age initial null_kms_provider log_injector "a" "ns" "key" none []
bootstrap-Bootstrapped_example =
    bootstrap-Bootstrapped small_age initial null_kms_provider log_injector "a" "ns" "key" none []
      small-AgeContract null-KmsContract log-Available
