-- ===== src/Tests/SecrecyRuns.antt =====
-- Two runtimes that hold different keys, in front of a cluster that has the secret already and logs
-- the address of each request.
use genesis_operator.Prelude.{true, Option, none, some, List, [], ◌∷◌, ◌≡◌, refl}
use genesis_operator.KeyMaterial.{KeyMaterial, new, as_bytes}
use genesis_operator.Audit.{AuditEvent}
use genesis_operator.Http.{Method, Reply, response, status_error}
use genesis_operator.Outcome.{good}
use genesis_operator.State.{StateTag, Genesis, keys_of}
use genesis_operator.Ffi.{GenesisHandle}
use genesis_operator.Ffi.Calls.{Host}
use genesis_operator.Ffi.Runtime.{Runtime, Ended}
use genesis_operator.Ffi.Lifecycle.{Call}
use genesis_operator.Ffi.Secrecy.{Opaque}
use genesis_operator.Ffi.Secrecy.Observed.{Action, observe, holding, observe_hides}
use genesis_operator.Tests.FfiRuns.{plain_config, small_host, text}
use genesis_operator.Tests.Worlds.{event, Log, log_audit}

abbrev answer_to : Method → Reply
answer_to Method.post = status_error 409 "conflict"
answer_to _ = response 200 "{}"

abbrev busy : Host Log
busy = record small_host {
  cloud = record small_host.cloud {
    vars = record { var = λ name env. some "10.0.0.1"; exists = λ path env. true };
  };
  tls = record small_host.tls {
    read_text = λ path env. (good "token", env);
    read_file = λ path env. (good [], env);
    send = λ agent request env.
        (answer_to request.method, event (AuditEvent.warning request.url) ∷ env);
  };
}

abbrev waiting : Genesis Log StateTag.bootstrapping
waiting = record { config = keys_of "age1" (1 ∷ []) plain_config; audit = log_audit }

abbrev short_key : KeyMaterial
short_key = new []

abbrev long_key : KeyMaterial
long_key = new (1 ∷ 2 ∷ 3 ∷ [])

abbrev unseen : Opaque busy (as_bytes short_key) (as_bytes long_key)
unseen = λ agent method url headers name ns key metadata env. refl

abbrev nothing_yet : Runtime Log
nothing_yet = record { env = []; heap = λ p. none; fresh = 2 }

abbrev first : GenesisHandle
first = record { ptr = 1; state = StateTag.bootstrapping }

-- a call in a wrong state, an injection, and a new machine that is freed
abbrev actions : List (Action Log)
actions =
    Action.call Call.begin_rotation first
    ∷ Action.call
        (Call.inject_secret (text "age-key") (text "flux-system") (text "age.agekey") none none)
        (record { ptr = 2; state = StateTag.bootstrapping })
    ∷ Action.create (text "{}") none
    ∷ Action.free (record { ptr = 4; state = StateTag.uninitialized })
    ∷ []

-- what the host sees of a runtime that holds this key
abbrev seen_with : KeyMaterial → List (Option Ended) × Runtime Log
seen_with key =
    observe busy (λ env. 0) (λ r. good "{}") actions (holding 1 (some waiting) key nothing_yet)

observe_hides_example :
    ((seen_with short_key).0 ≡ (seen_with long_key).0)
    × ((seen_with short_key).1.env ≡ (seen_with long_key).1.env)
observe_hides_example =
    observe_hides busy (λ env. 0) (λ r. good "{}") 1 (some waiting) short_key long_key nothing_yet
      actions unseen
