-- ===== src/Tests/ProtocolRuns.antt =====
-- Sessions of successful calls on small stand-ins: a cluster that accepts each secret.
use genesis_operator.Prelude.{
  ◌==◌, if◌then◌else◌, true, false, none, some, List, [], ◌∷◌, map, ◌≡◌, refl, arith,
}
use mathlib.Core.List.{Memᴰ}
use genesis_operator.KeyMaterial.{new}
use genesis_operator.Http.{response}
use genesis_operator.Outcome.{good}
use genesis_operator.State.{StateTag, keys_of}
use genesis_operator.Ffi.Flow.{◌>>=◌, attempt, or_graft, pure}
use genesis_operator.State.Bootstrapping.{config_ref, inject_secret_with_metadata}
use genesis_operator.Ffi.{parse_c_str, success_result, GenesisResult, GenesisHandle, GenesisInner}
use genesis_operator.K8s.Cluster.{in_cluster, inject}
use genesis_operator.Ffi.Calls.{Host}
use genesis_operator.Ffi.Injecting.{genesis_inject_secret, injector_for, injector_if}
use genesis_operator.Audit.{AuditEvent}
use genesis_operator.Ffi.Runtime.{done, put, settle, inner_to_handle, Runtime, enter}
use genesis_operator.Ffi.Moves.{inject_move}
use genesis_operator.Ffi.Boxes.{WellFormed, Reached}
use genesis_operator.Ffi.Ownership.{enter-Reached}
use genesis_operator.Ffi.Lifecycle.{Call, move_of, perform}
use genesis_operator.Ffi.Protocol.{
  run_successes, Arrives, run_successes-Arrives, before_active, activation-injects,
}
use genesis_operator.Tests.FfiRuns.{plain_config, small_host, text}
use genesis_operator.Tests.Worlds.{event, Log, log_audit}

abbrev accepting : Host Log
accepting = record small_host {
  cloud = record small_host.cloud {
    vars = record { var = λ name env. some "10.0.0.1"; exists = λ path env. true };
  };
  tls = record small_host.tls {
    read_text = λ path env. (good "token", env);
    read_file = λ path env. (good [], env);
    send = λ agent request env. (response 201 "", env);
  };
}

abbrev held : GenesisInner Log
held = GenesisInner.bootstrapping (record {
  inner = some (record { config = keys_of "age1" (1 ∷ []) plain_config; audit = log_audit });
  key_material = some (new (1 ∷ 2 ∷ []));
})

abbrev activated : GenesisInner Log
activated =
    GenesisInner.active
      (record { config = keys_of "age1" (1 ∷ []) plain_config; audit = log_audit })

abbrev holding_one : Runtime Log
holding_one = record { env = []; heap = λ p. if p == 1 then some held else none; fresh = 2 }

holding-WellFormed : WellFormed holding_one
holding-WellFormed =
    (omega arith, (λ p above. let other : (p == 1) ≡ false = ground arith in rw other), refl)

abbrev injecting : List (Call Log)
injecting =
    Call.inject_secret (text "age-key") (text "flux-system") (text "age.agekey") none none ∷ []

abbrev first : GenesisHandle
first = record { ptr = 1; state = StateTag.bootstrapping }

-- the end of that session
abbrev after : GenesisHandle × Runtime Log
after = (
  record { ptr = 2; state = StateTag.active },
  record {
    env = event (AuditEvent.inject_secret "age-key" "flux-system" true) ∷ [];
    heap = put (put holding_one.heap 1 none) 2 (some activated);
    fresh = 3;
  },
)

injecting_runs : run_successes accepting injecting (first, holding_one) ≡ some after
unfolding run_successes enter perform genesis_inject_secret ◌>>=◌ or_graft injector_for injector_if
    attempt inject_secret_with_metadata settle parse_c_str in_cluster pure config_ref inject
    inner_to_handle
injecting_runs = refl

run_successes-Arrives_example : Arrives accepting StateTag.bootstrapping injecting after
run_successes-Arrives_example =
    run_successes-Arrives accepting injecting first held holding_one after holding-WellFormed
      (refl, refl) injecting_runs

activation-injects_example : Memᴰ inject_move (map move_of injecting)
unfolding before_active
activation-injects_example =
    activation-injects accepting injecting first held activated holding_one after holding-WellFormed
      (refl, refl) injecting_runs (refl, refl) refl refl

abbrev injected : GenesisResult
injected = success_result after.0

injected_done :
    enter
      (perform accepting
        (Call.inject_secret (text "age-key") (text "flux-system") (text "age.agekey") none none))
      first
      holding_one
    ≡ (done injected, after.1)
unfolding enter perform genesis_inject_secret ◌>>=◌ or_graft injector_for injector_if attempt
    inject_secret_with_metadata settle parse_c_str in_cluster pure config_ref inject inner_to_handle
injected_done = refl

enter-Reached_example : Reached inject_move StateTag.bootstrapping after.1 after.0
unfolding move_of
enter-Reached_example =
    enter-Reached accepting
      (Call.inject_secret (text "age-key") (text "flux-system") (text "age.agekey") none none) first
      held holding_one after.1 injected holding-WellFormed (refl, refl) injected_done refl
