-- ===== src/Tests/MockRuns.antt =====
-- Injections into the mock of a cluster.
use genesis_operator.Prelude.{true, none, List, [], ◌∷◌, ◌≡◌, refl}
use genesis_operator.Outcome.{ok}
use genesis_operator.K8s.Mock.{new, inject, secret_exists, was_injected, contains}
use genesis_operator.K8s.Mock.Paths.{no_slash}
use genesis_operator.K8s.Auth.{strip_prefix}
use genesis_operator.K8s.Mock.Laws.{Injection, injects, any_into, names_free, secret_exists-injects}

abbrev two_secrets : List Injection
two_secrets =
    record { key_bytes = 1 ∷ []; name = "age"; namespace = "flux"; key = "k"; metadata = none }
    ∷ record {
      key_bytes = 2 ∷ [];
      name = "age-key";
      namespace = "flux";
      key = "k";
      metadata = none;
    }
    ∷ []

secret_exists-injects_example :
    (secret_exists "age-key" "flux" (injects two_secrets new).1).0 ≡ ok true
unfolding any_into no_slash names_free
secret_exists-injects_example = secret_exists-injects "age-key" "flux" refl refl two_secrets refl

-- a part of a compound key is enough
part_was_injected : was_injected "ux/a" (injects two_secrets new).1 ≡ true
unfolding was_injected injects inject contains strip_prefix
part_was_injected = refl
