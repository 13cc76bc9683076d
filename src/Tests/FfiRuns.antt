-- ===== src/Tests/FfiRuns.antt =====
-- Calls of the C ABI on small stand-ins, and one run of each of its properties.
use genesis_operator.Prelude.{
  ◌==◌, if◌then◌else◌, String, false, none, some, List, [], ◌∷◌, ◌≡◌, ◌≢◌, refl, ◌⊎◌, arith,
}
use genesis_operator.Json
use genesis_operator.Json.{Value}
use genesis_operator.Http.{transport_error}
use genesis_operator.Outcome.{good, bad}
use genesis_operator.K8s.Cluster.{Tls}
use genesis_operator.Kms.Config.{Cloud}
use genesis_operator.State.{StateTag, GenesisConfig, keys_of}
use genesis_operator.Ffi.{Ptr, GenesisHandle, GenesisResult, GenesisInner, state_tag, CStr}
use genesis_operator.Ffi.Calls.{Host, Serde}
use genesis_operator.Ffi.Runtime.{Runtime, done, enter, genesis_new}
use genesis_operator.Ffi.Sound.{Consistent}
use genesis_operator.Ffi.Lifecycle.{Call, move_of, perform}
use genesis_operator.Ffi.Boxes.{Owns, KeepsBoxes}
use genesis_operator.Ffi.Ownership.{enter-KeepsBoxes}
use genesis_operator.Ffi.Refusal.{required, Refused, perform_refuses}
use genesis_operator.Ffi.Sole.{run_calls}
use genesis_operator.Ffi.Session.{session, session_leaks_nothing, never_degraded}
use genesis_operator.Tests.Worlds.{small_age, log_audit, Log}

abbrev pub plain_config : GenesisConfig
plain_config = record {
  provider_type = "aws";
  provider_config = Json.Value.null;
  public_key = none;
  envelope_ciphertext = none;
}

abbrev small_cloud : Cloud Log
small_cloud = record {
  vars = record { var = λ name env. none; exists = λ path env. false };
  web = record {
    send = λ request env. (transport_error "down", env);
    parse_json = λ text. good Json.Value.null;
    print_json = λ value. "{}";
    one_text = λ name value. bad "missing field";
  };
  sign = λ provider request env. (good [], env);
  b64 = record { encode = λ bytes. "b64"; decode = λ text. bad "symbol" };
  b64_url = record { encode = λ bytes. "b64"; decode = λ text. bad "symbol" };
  replies = record {
    error_response = λ value. bad "type";
    operation_response = λ value. bad "type";
  };
  mock_build = false;
}

abbrev small_tls : Tls Log
small_tls = record {
  Agent = Unit {0};
  Certificate = Unit {0};
  RootStore = Unit {0};
  read_text = λ path env. (bad "no file", env);
  read_file = λ path env. (bad "no file", env);
  default_agent = tt;
  agent_with = λ store. tt;
  pem_certificates = λ bytes. [];
  empty_store = tt;
  add_certificate = λ store cert. good tt;
  send = λ agent request env. (transport_error "down", env);
}

abbrev small_serde : Serde
small_serde = record {
  read_config = λ text. good plain_config;
  read_kms_config = λ text. good (record { provider_type = "mock"; settings = Json.Value.null });
  read_targets = λ text. good [];
  print_artifacts = λ artifacts. good "{}";
  print_verify = λ result. good "{}";
  print_status = λ status. good "{}";
}

abbrev pub small_host : Host Log
small_host = record { age = small_age; cloud = small_cloud; tls = small_tls; serde = small_serde }

abbrev pub text : String → CStr
text s = some (good s)

abbrev no_boxes : Runtime Log
no_boxes = record { env = []; heap = λ p. none; fresh = 1 }

abbrev loaded : GenesisInner Log
loaded =
    GenesisInner.initialized
      (record { config = keys_of "age1" (1 ∷ []) plain_config; audit = log_audit })

abbrev one_box : Runtime Log
one_box = record { env = []; heap = λ p. if p == 1 then some loaded else none; fresh = 2 }

abbrev pub handle : GenesisHandle
handle = record { ptr = 1; state = StateTag.initialized }

enter-KeepsBoxes_example :
    (result : GenesisResult) × (rt' : Runtime Log) × (enter
        (perform small_host (Call.begin_bootstrap (text "{}")))
        handle
        one_box
      ≡ (done result, rt'))
    × KeepsBoxes StateTag.initialized 1 one_box result.handle rt'
    × Consistent result
enter-KeepsBoxes_example =
    enter-KeepsBoxes small_host (Call.begin_bootstrap (text "{}")) handle loaded one_box
      (omega arith, (λ p above. let other : (p == 1) ≡ false = ground arith in rw other), refl)
      (refl, refl)

perform_refuses_example : Refused small_host Call.begin_rotation loaded []
unfolding required move_of
perform_refuses_example = perform_refuses small_host Call.begin_rotation loaded [] (λ e. cc e)

abbrev a_session : List (Call Log)
a_session =
    Call.load (text "age1") (some (1 ∷ 2 ∷ []))
    ∷ Call.begin_rotation
    ∷ Call.begin_bootstrap (text "{}")
    ∷ []

session_leaks_nothing_example :
    (rt' : Runtime Log) × (session small_host
        (λ env. 0)
        (λ r. good "{}")
        (text "{}")
        none
        a_session
        no_boxes
      ≡ some rt')
    × ((q : Ptr) → rt'.heap q ≡ none)
session_leaks_nothing_example =
    session_leaks_nothing small_host (λ env. 0) (λ r. good "{}") (text "{}") none a_session no_boxes
      (omega arith) (λ q. refl)

never_degraded_example :
    (after : GenesisHandle × Runtime Log) × (run_calls small_host a_session (
      (genesis_new
          (λ env. 0)
          (λ r. good "{}")
          small_serde.read_config
          (text "{}")
          none
          no_boxes).0.handle,
      (genesis_new (λ env. 0) (λ r. good "{}") small_serde.read_config (text "{}") none no_boxes).1,
    )
      ≡ some after)
    × ((after.0.ptr ≡ 0)
        ⊎ ((inner : GenesisInner Log) × Owns after.1 after.0 inner
            × (state_tag inner ≢ StateTag.degraded)))
never_degraded_example =
    never_degraded small_host (λ env. 0) (λ r. good "{}") (text "{}") none a_session no_boxes
      (omega arith) (λ q. refl)
