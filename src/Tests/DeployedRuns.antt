-- ===== src/Tests/DeployedRuns.antt =====
-- A bootstrap and a rotation in front of a cluster with room for one secret, in a build with the
-- feature `mock`.
use genesis_operator.Prelude.{
  ◌==◌, if◌then◌else◌, String, true, false, Option, none, some, [], ◌∷◌, Bytes, concat, digit, ◌≡◌,
  refl, arith,
}
use genesis_operator.Json
use genesis_operator.Json.{Value, string, object, member}
use genesis_operator.Http.{transport_error, Base64}
use genesis_operator.Outcome.{good, bad}
use genesis_operator.Audit.{null_audit_sink}
use genesis_operator.K8s.Cluster.{Tls, UreqSecretInjector, inject, in_cluster, build_agent}
use genesis_operator.K8s.Stored.{ApiServer}
use genesis_operator.Kms.{null_kms_provider}
use genesis_operator.Kms.Config.{Cloud, create_provider}
use genesis_operator.State.{StateTag, Genesis, keys_of}
use genesis_operator.State.Progress.{Answers, Available}
use genesis_operator.Ffi.{GenesisHandle, GenesisInner}
use genesis_operator.Ffi.Calls.{Host, Serde}
use genesis_operator.Ffi.Runtime.{Runtime}
use genesis_operator.Ffi.Progress.{writer}
use genesis_operator.Ffi.Deployed.{Configured, Deployed, deploy-Deployed}
use genesis_operator.Ffi.Aborted.{Restored, abort-Restored}
use genesis_operator.Ffi.Renewed.{Renewed, renew-Renewed}
use genesis_operator.Tests.FfiRuns.{plain_config}
use genesis_operator.Tests.StoredRuns.{one_secret, only, created, replaced, shown}
use genesis_operator.Tests.Worlds.{small_age, small-AgeContract, null-KmsContract}

abbrev Cell : Type 0
Cell = Option String

-- a digit for each byte
abbrev spelled : Bytes → String
spelled [] = ""
spelled (byte ∷ rest) = concat (digit byte ∷ spelled rest ∷ [])

abbrev b64 : Base64
b64 = record { encode = spelled; decode = λ text. bad "symbol" }

-- the encoded key of a secret
abbrev print_data : Value → String
print_data
      (object (
        member _ _ (
          member _ _
            (member _ _ (member _ _ (member _ (object (member _ (string encoded) _)) _)))))) =
    encoded
print_data _ = "{}"

abbrev null_cloud : Cloud Cell
null_cloud = record {
  vars = record { var = λ name env. some "10.0.0.1"; exists = λ path env. true };
  web = record {
    send = λ request env. (transport_error "down", env);
    parse_json = λ text. good Json.Value.null;
    print_json = print_data;
    one_text = λ name value. bad "missing field";
  };
  sign = λ provider request env. (good [], env);
  b64 = b64;
  b64_url = b64;
  replies = record {
    error_response = λ value. bad "type";
    operation_response = λ value. bad "type";
  };
  mock_build = true;
}

abbrev cluster_tls : Tls Cell
cluster_tls = record one_secret {
  read_text = λ path env. (good "token", env);
  read_file = λ path env. (good [], env);
}

abbrev null_serde : Serde
null_serde = record {
  read_config = λ text. good plain_config;
  read_kms_config = λ text. good (record { provider_type = "null"; settings = Json.Value.null });
  read_targets = λ text. good [];
  print_artifacts = λ artifacts. good "{}";
  print_verify = λ result. good "{}";
  print_status = λ status. good "{}";
}

abbrev one_cell : Host Cell
one_cell = record { age = small_age; cloud = null_cloud; tls = cluster_tls; serde = null_serde }

abbrev joined : UreqSecretInjector cluster_tls
joined = record { api_server = "https://kubernetes.default.svc"; token = "token"; agent = tt }

one_cell-Configured : Configured one_cell null_kms_provider joined "{}"
unfolding create_provider in_cluster build_agent
one_cell-Configured = record {
  config = record { provider_type = "null"; settings = Json.Value.null };
  reads = refl;
  makes = λ env. refl;
  prints = λ artifacts. ("{}", refl);
  service = λ env. ("10.0.0.1", refl);
  joins = λ env. (env, refl);
}

cell-ApiServer : ApiServer cluster_tls b64 print_data joined only
cell-ApiServer = record {
  creates = λ r encoded name ns key text metadata status env env' m url body sent.
      created r.method r.body text status env env' m sent;
  replaces = λ r name ns text status env env' m url sent.
      replaced r.method r.body text status env env' m sent;
  shows = λ r name ns body e env env' m url there. shown r.method r.body body e env env' m there;
}

cell-Available : Available small_age null_kms_provider (writer one_cell joined)
unfolding inject
cell-Available = record {
  generates = λ env. (_, _, refl);
  encrypts = λ plaintext env. (_, _, refl);
  decrypts = λ plaintext ciphertext env1 env2 env3 h. (_, _, refl);
  injects = λ key_bytes name ns key metadata env.
      elim env
        as (λ e. Answers ((writer one_cell joined).inject key_bytes name ns key metadata e)) [
          | none ↦ (tt, _, refl)
          | some old ↦ (tt, _, refl)
        ];
}

abbrev fresh_machine : Genesis Cell StateTag.uninitialized
fresh_machine = record { config = plain_config; audit = null_audit_sink }

abbrev one_box : Runtime Cell
one_box = record {
  env = some "old";
  heap = λ p. if p == 1 then some (GenesisInner.uninitialized fresh_machine) else none;
  fresh = 2;
}

abbrev first : GenesisHandle
first = record { ptr = 1; state = StateTag.uninitialized }

deploy-Deployed_example :
    Deployed one_cell null_kms_provider joined "{}" "age-key" "flux-system" "age.agekey" only
      fresh_machine first one_box
deploy-Deployed_example =
    deploy-Deployed one_cell null_kms_provider joined "{}" "age-key" "flux-system" "age.agekey"
      fresh_machine first one_box only
      (omega arith, (λ p above. let other : (p == 1) ≡ false = ground arith in rw other), refl)
      (refl, refl) one_cell-Configured small-AgeContract null-KmsContract cell-Available
      cell-ApiServer (λ event env. refl)

abbrev running : Genesis Cell StateTag.active
running = record { config = keys_of "age0" (9 ∷ []) plain_config; audit = null_audit_sink }

abbrev running_box : Runtime Cell
running_box = record {
  env = some "old";
  heap = λ p. if p == 1 then some (GenesisInner.active running) else none;
  fresh = 2;
}

renew-Renewed_example :
    Renewed one_cell null_kms_provider joined "{}" "age-key" "flux-system" "age.agekey" only running
      (record { ptr = 1; state = StateTag.active })
      running_box
renew-Renewed_example =
    renew-Renewed one_cell null_kms_provider joined "{}" "age-key" "flux-system" "age.agekey"
      running (record { ptr = 1; state = StateTag.active }) running_box only
      (omega arith, (λ p above. let other : (p == 1) ≡ false = ground arith in rw other), refl)
      (refl, refl) one_cell-Configured small-AgeContract null-KmsContract cell-Available
      cell-ApiServer (λ event env. refl)

abort-Restored_example :
    Restored one_cell running (record { ptr = 1; state = StateTag.active }) running_box
abort-Restored_example =
    abort-Restored one_cell running (record { ptr = 1; state = StateTag.active }) running_box
      (omega arith, (λ p above. let other : (p == 1) ≡ false = ground arith in rw other), refl)
      (refl, refl)
