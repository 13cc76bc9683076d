-- ===== src/Tests/TrailRuns.antt =====
-- A host that keeps the outline of each event, as the tag of its text, and a session in front of it
-- in a build with the feature `mock`.
use genesis_operator.Prelude.{
  String, str_eq, true, false, none, some, List, [], ◌∷◌, ◌≡◌, refl, if◌then◌else◌, arith,
}
use genesis_operator.Json
use genesis_operator.Json.{Value}
use genesis_operator.Http.{transport_error}
use genesis_operator.Outcome.{Ext, good, bad}
use genesis_operator.Audit.{AuditEvent, AuditRecord, ffi_audit_sink}
use genesis_operator.K8s.Cluster.{Tls}
use genesis_operator.Kms.Config.{Cloud}
use genesis_operator.Ffi.{GenesisHandle}
use genesis_operator.Ffi.Calls.{Host, Serde}
use genesis_operator.Ffi.Runtime.{Runtime, genesis_new, audit_of}
use genesis_operator.Ffi.Lifecycle.{Call}
use genesis_operator.Ffi.Sole.{run_calls}
use genesis_operator.Ffi.Trail.{outline, told, Recorder}
use genesis_operator.Ffi.Trail.Calls.{AllApart}
use genesis_operator.Ffi.Trail.Sessions.{TellsLast, run_calls-Tells}
use genesis_operator.Tests.FfiRuns.{plain_config, text}
use genesis_operator.Tests.Worlds.{small_age}

tag_text : AuditEvent → String
tag_text (AuditEvent.init _ _) = "Init"
tag_text (AuditEvent.verify _) = "Verify"
tag_text (AuditEvent.seal _) = "Seal"
tag_text (AuditEvent.unseal _) = "Unseal"
tag_text (AuditEvent.begin_bootstrap _) = "BeginBootstrap"
tag_text (AuditEvent.inject_secret _ _ true) = "InjectSecret, zeroed"
tag_text (AuditEvent.inject_secret _ _ false) = "InjectSecret"
tag_text AuditEvent.abort_bootstrap = "AbortBootstrap"
tag_text AuditEvent.bootstrapping_dropped = "BootstrappingDropped"
tag_text AuditEvent.reconcile_noop = "ReconcileNoop"
tag_text (AuditEvent.reconcile_reinjected _ _) = "ReconcileReinjected"
tag_text AuditEvent.begin_rotation = "BeginRotation"
tag_text (AuditEvent.complete_rotation _) = "CompleteRotation"
tag_text AuditEvent.abort_rotation = "AbortRotation"
tag_text AuditEvent.recover_from_degraded = "RecoverFromDegraded"
tag_text (AuditEvent.warning _) = "Warning"

abbrev read_tag : String → AuditEvent
read_tag tag =
    if str_eq tag "Init"
    then AuditEvent.init "" none
    else if str_eq tag "Verify"
    then AuditEvent.verify true
    else if str_eq tag "Seal"
    then AuditEvent.seal 0
    else if str_eq tag "Unseal"
    then AuditEvent.unseal 0
    else if str_eq tag "BeginBootstrap"
    then AuditEvent.begin_bootstrap true
    else if str_eq tag "InjectSecret, zeroed"
    then AuditEvent.inject_secret "" "" true
    else if str_eq tag "InjectSecret"
    then AuditEvent.inject_secret "" "" false
    else if str_eq tag "AbortBootstrap"
    then AuditEvent.abort_bootstrap
    else if str_eq tag "BootstrappingDropped"
    then AuditEvent.bootstrapping_dropped
    else if str_eq tag "ReconcileNoop"
    then AuditEvent.reconcile_noop
    else if str_eq tag "ReconcileReinjected"
    then AuditEvent.reconcile_reinjected "" ""
    else if str_eq tag "BeginRotation"
    then AuditEvent.begin_rotation
    else if str_eq tag "CompleteRotation"
    then AuditEvent.complete_rotation ""
    else if str_eq tag "AbortRotation"
    then AuditEvent.abort_rotation
    else if str_eq tag "RecoverFromDegraded"
    then AuditEvent.recover_from_degraded
    else AuditEvent.warning ""

read_tag-tag_text : (event : AuditEvent) → read_tag (tag_text event) ≡ outline event
unfolding tag_text outline
read_tag-tag_text (AuditEvent.inject_secret _ _ true) = refl
read_tag-tag_text (AuditEvent.inject_secret _ _ false) = refl
read_tag-tag_text _ = refl

-- the outside is the log
abbrev Seen : Type 0
Seen = List AuditEvent

abbrev print_record : AuditRecord → Ext String
print_record r = good (tag_text r.event)

abbrev callback : String → Seen → Seen
callback tag seen = read_tag tag ∷ seen

abbrev mock_cloud : Cloud Seen
mock_cloud = record {
  vars = record { var = λ name env. none; exists = λ path env. false };
  web = record {
    send = λ request env. (transport_error "down", env);
    parse_json = λ text. good Json.Value.null;
    print_json = λ value. "{}";
    one_text = λ name value. bad "missing field";
  };
  sign = λ provider request env. (good [], env);
  b64 = record { encode = λ bytes. "b64"; decode = λ text. bad "symbol" };
  b64_url = record { encode = λ bytes. "b64"; decode = λ text. bad "symbol" };
  replies = record {
    error_response = λ value. bad "type";
    operation_response = λ value. bad "type";
  };
  mock_build = true;
}

abbrev no_tls : Tls Seen
no_tls = record {
  Agent = Unit {0};
  Certificate = Unit {0};
  RootStore = Unit {0};
  read_text = λ path env. (bad "no file", env);
  read_file = λ path env. (bad "no file", env);
  default_agent = tt;
  agent_with = λ store. tt;
  pem_certificates = λ bytes. [];
  empty_store = tt;
  add_certificate = λ store cert. good tt;
  send = λ agent request env. (transport_error "down", env);
}

abbrev mock_serde : Serde
mock_serde = record {
  read_config = λ text. good plain_config;
  read_kms_config = λ text. good (record { provider_type = "mock"; settings = Json.Value.null });
  read_targets = λ text. good [];
  print_artifacts = λ artifacts. good "{}";
  print_verify = λ result. good "{}";
  print_status = λ status. good "{}";
}

abbrev audited : Host Seen
audited = record { age = small_age; cloud = mock_cloud; tls = no_tls; serde = mock_serde }

audited-Recorder :
    Recorder audited (λ seen. seen) (audit_of (λ seen. 0) print_record (some callback))
unfolding ffi_audit_sink
audited-Recorder = record {
  records = λ event seen i. read_tag-tag_text event i ∷ seen;
  generates = λ seen. refl;
  signs = λ p request seen. refl;
  asks = λ request seen. refl;
  reads_text = λ path seen. refl;
  reads_file = λ path seen. refl;
  sends = λ agent request seen. refl;
}

abbrev unused : Runtime Seen
unused = record { env = []; heap = λ p. none; fresh = 1 }

-- a life up to the second rotation, with a call in a wrong state
abbrev lifetime : List (Call Seen)
lifetime =
    Call.init (text "{}")
    ∷ Call.verify (text "{}") none
    ∷ Call.begin_rotation
    ∷ Call.begin_bootstrap (text "{}")
    ∷ Call.inject_secret (text "age-key") (text "flux-system") (text "age.agekey") none none
    ∷ Call.begin_rotation
    ∷ Call.complete_rotation (text "{}") (text "age-key") (text "flux-system") (text "age.agekey")
        none none
    ∷ Call.status none
    ∷ Call.begin_rotation
    ∷ []

run_calls-Tells_example :
    (after : GenesisHandle × Runtime Seen) × (run_calls audited lifetime (
      (genesis_new
          (λ seen. 0)
          print_record
          mock_serde.read_config
          (text "{}")
          (some callback)
          unused).0.handle,
      (genesis_new
          (λ seen. 0)
          print_record
          mock_serde.read_config
          (text "{}")
          (some callback)
          unused).1,
    )
      ≡ some after)
    × TellsLast (λ seen. seen) after
unfolding told AllApart
run_calls-Tells_example =
    run_calls-Tells audited (λ seen. seen) (λ seen. 0) print_record (some callback) audited-Recorder
      (text "{}") lifetime unused (omega arith, (λ p above. refl), refl) refl
      (tt, (tt, (tt, (tt, (tt, (tt, (tt, (tt, (tt, tt)))))))))
