-- ===== src/Ffi/Trail/Calls.antt =====
-- The audit trail of each entry point (ffi.rs) that does not write to the cluster.
use genesis_operator.Prelude.{
  Bool, true, false, String, Option, none, some, List, [], ◌∷◌, Bytes, ◌≡◌, refl, ap, ◌∙◌, inl, inr,
  is_empty, if◌then◌else◌,
}
use genesis_operator.Outcome.{Res, ok, err, panicked, Ext, good, bad}
use genesis_operator.Audit.{AuditEvent, AuditSink}
use genesis_operator.Kms.{KmsProvider}
use genesis_operator.Kms.Config.{create_provider}
use genesis_operator.State.{StateTag}
use genesis_operator.State.Operations
use genesis_operator.Ffi.{
  CStr, GenesisInner, uninitialized, initialized, bootstrapping, active, rotating, parse_c_str,
  error_with_handle, success_result,
}
use genesis_operator.Ffi.Flow.{pure, or_graft, attempt, with_handle, keeping, outcome}
use genesis_operator.Ffi.Calls.{
  Host, Out, write_out, provider_for, printed_exit, loaded, genesis_init, genesis_load,
  genesis_verify, genesis_begin_bootstrap, genesis_status, genesis_begin_rotation,
  genesis_abort_rotation,
}
use genesis_operator.Ffi.Lifecycle.{Call}
use genesis_operator.Ffi.Trail.{told, Recorder, Any}
use genesis_operator.Ffi.Trail.Rules.{
  Traced, Traced-still, TracedFlow, TracedStep, TracedBody, then-TracedBody, then-TracedStep,
  consumed-TracedStep, keeping-TracedStep, or_graft-TracedStep, pure-TracedBody,
  wrong_state-TracedBody,
}
use genesis_operator.Ffi.Trail.Outside.{QuietKms, QuietResult, create_provider-Quiet}
use genesis_operator.Ffi.Trail.Operations.{
  init-Leaves, begin_bootstrap-Leaves, begin_rotation-Leaves, abort_rotation-Leaves, verify-Steady,
}

module _ {E : Type 0} (log : E → List AuditEvent) where
  -- the memory that a call writes its answer to is not the log
  abbrev pub Apart : Out E → Type 0
  Apart none = Unit {0}
  Apart (some write) = (text : Option String) (env : E) → log (write text env) ≡ log env

  abbrev pub ApartFrom : Call E → Type 0
  ApartFrom (Call.verify config out) = Apart out
  ApartFrom (Call.status out) = Apart out
  ApartFrom _ = Unit {0}

  unfoldable pub AllApart : List (Call E) → Type 0
  AllApart [] = Unit {0}
  AllApart (call ∷ rest) = ApartFrom call × AllApart rest

module _ {E : Type 0} (host : Host E) (log : E → List AuditEvent) (sink : AuditSink E)
    (recorder : Recorder host log sink) where
  pub text-TracedStep :
      (inner : GenesisInner E) (s : CStr) (said : Option StateTag)
      → Traced log sink inner said
      → TracedStep log sink (Any log) said said (or_graft inner (parse_c_str s))
  text-TracedStep inner s said traced = or_graft-TracedStep log sink inner (parse_c_str s) traced

  pub provider_for-TracedStep :
      (inner : GenesisInner E) (kms_config_json : CStr) (said : Option StateTag)
      → Traced log sink inner said
      → TracedStep log sink (QuietKms log) said said (provider_for host inner kms_config_json)
  unfolding provider_for attempt
  provider_for-TracedStep inner kms_config_json said traced =
      then-TracedStep log sink _ _ (or_graft-TracedStep log sink inner _ traced) λ config _.
        record {
          run = λ env h.
              by_result (create_provider host.cloud config env) env
                (create_provider-Quiet host log sink recorder config env) h;
        }
    where
      by_result :
          (r : Res (KmsProvider E)) (env : E)
          → QuietResult log r
          → told (log env) ≡ said
          → TracedFlow log sink (QuietKms log) said (outcome (keeping inner) r, env)
      by_result (ok kms) env quiet h = (quiet, h)
      by_result (err e) env quiet h = Traced-still log sink inner _ _ traced h
      by_result (panicked message) env quiet h = tt

  -- the machine goes back with the text of what was made
  pub printed-TracedBody :
      (inner : GenesisInner E) (printed : Ext String) (said : Option StateTag)
      → Traced log sink inner said
      → TracedBody log sink said (pure (printed_exit host inner printed))
  printed-TracedBody inner (good json) said traced = pure-TracedBody log sink inner _ traced
  printed-TracedBody inner (bad e) said traced = pure-TracedBody log sink inner _ traced

  pub genesis_init-TracedBody :
      (config : CStr) (inner : GenesisInner E) (said : Option StateTag)
      → Traced log sink inner said
      → TracedBody log sink said (genesis_init host config inner)
  unfolding genesis_init
  genesis_init-TracedBody config (uninitialized g) said traced =
      then-TracedBody log sink _ _ (provider_for-TracedStep (uninitialized g) config said traced)
        λ kms quiet.
          then-TracedBody log sink _ _
            (consumed-TracedStep log sink _
              (init-Leaves host log sink recorder g kms said traced.0 quiet))
            λ made reports. printed-TracedBody (initialized made.0) _ _ (reports, inr refl)
  genesis_init-TracedBody config other said traced = wrong_state-TracedBody log sink _ other traced

  pub genesis_load-TracedBody :
      (key : CStr) (envelope : Option Bytes) (inner : GenesisInner E) (said : Option StateTag)
      → Traced log sink inner said
      → TracedBody log sink said (genesis_load host key envelope inner)
  unfolding genesis_load loaded Operations.load
  genesis_load-TracedBody key envelope (uninitialized g) said traced =
      then-TracedBody log sink _ _ (text-TracedStep (uninitialized g) key said traced)
        λ pk _. by_envelope pk envelope
    where
      by_length :
          (b : Bool) (pk : String) (bytes : Bytes)
          → TracedBody log sink said (
              if b
              then pure (
                  with_handle
                    (uninitialized g)
                    (error_with_handle 100 "envelope_ciphertext is null or empty"))
              else pure (with_handle (initialized (Operations.load g pk bytes)) success_result))
      by_length true pk bytes = pure-TracedBody log sink (uninitialized g) _ traced
      by_length false pk bytes = pure-TracedBody log sink (initialized _) _ (traced.0, inl traced.1)

      by_envelope :
          (pk : String) (envelope : Option Bytes)
          → TracedBody log sink said (loaded host g pk envelope)
      by_envelope pk none = pure-TracedBody log sink (uninitialized g) _ traced
      by_envelope pk (some bytes) = by_length (is_empty bytes) pk bytes
  genesis_load-TracedBody key envelope other said traced =
      wrong_state-TracedBody log sink _ other traced

  write_out-TracedStep :
      (out : Out E) (json : Ext String) (said : Option StateTag)
      → Apart log out
      → TracedStep log sink (Any log) said said (write_out host out json)
  unfolding write_out pure
  write_out-TracedStep none json said apart = record { run = λ env h. (tt, h) }
  write_out-TracedStep (some write) json said apart = record {
    run = λ env h. (tt, ap told (apart _ env) ∙ h);
  }

  pub genesis_verify-TracedBody :
      (config : CStr) (out : Out E) (inner : GenesisInner E) (said : Option StateTag)
      → Apart log out
      → Traced log sink inner said
      → TracedBody log sink said (genesis_verify host config out inner)
  unfolding genesis_verify
  genesis_verify-TracedBody config out (initialized g) said apart traced =
      then-TracedBody log sink _ _ (provider_for-TracedStep (initialized g) config said traced)
        λ kms quiet.
          then-TracedBody log sink _ _
            (keeping-TracedStep log sink (initialized g) _ traced
              (verify-Steady host log sink recorder g kms said traced.0 quiet))
            λ result _.
              then-TracedBody log sink _ _ (write_out-TracedStep out _ said apart)
                λ done _. pure-TracedBody log sink (initialized g) _ traced
  genesis_verify-TracedBody config out other said apart traced =
      wrong_state-TracedBody log sink _ other traced

  pub genesis_begin_bootstrap-TracedBody :
      (config : CStr) (inner : GenesisInner E) (said : Option StateTag)
      → Traced log sink inner said
      → TracedBody log sink said (genesis_begin_bootstrap host config inner)
  unfolding genesis_begin_bootstrap
  genesis_begin_bootstrap-TracedBody config (initialized g) said traced =
      then-TracedBody log sink _ _ (provider_for-TracedStep (initialized g) config said traced)
        λ kms quiet.
          then-TracedBody log sink _ _
            (consumed-TracedStep log sink _
              (begin_bootstrap-Leaves host log sink recorder g kms said traced.0 quiet))
            λ b reports. pure-TracedBody log sink (bootstrapping b) _ (reports, refl)
  genesis_begin_bootstrap-TracedBody config other said traced =
      wrong_state-TracedBody log sink _ other traced

  pub genesis_status-TracedBody :
      (out : Out E) (inner : GenesisInner E) (said : Option StateTag)
      → Apart log out
      → Traced log sink inner said
      → TracedBody log sink said (genesis_status host out inner)
  unfolding genesis_status
  genesis_status-TracedBody out (active g) said apart traced =
      then-TracedBody log sink _ _ (write_out-TracedStep out _ said apart)
        λ done _. pure-TracedBody log sink (active g) _ traced
  genesis_status-TracedBody out other said apart traced =
      wrong_state-TracedBody log sink _ other traced

  pub genesis_begin_rotation-TracedBody :
      (inner : GenesisInner E) (said : Option StateTag)
      → Traced log sink inner said
      → TracedBody log sink said (genesis_begin_rotation host inner)
  unfolding genesis_begin_rotation
  genesis_begin_rotation-TracedBody (active g) said traced =
      then-TracedBody log sink _ _
        (consumed-TracedStep log sink _
          (begin_rotation-Leaves host log sink recorder g said traced.0))
        λ machine reports. pure-TracedBody log sink (rotating machine) _ (reports, refl)
  genesis_begin_rotation-TracedBody other said traced =
      wrong_state-TracedBody log sink _ other traced

  pub genesis_abort_rotation-TracedBody :
      (inner : GenesisInner E) (said : Option StateTag)
      → Traced log sink inner said
      → TracedBody log sink said (genesis_abort_rotation host inner)
  unfolding genesis_abort_rotation
  genesis_abort_rotation-TracedBody (rotating g) said traced =
      then-TracedBody log sink _ _
        (consumed-TracedStep log sink _
          (abort_rotation-Leaves host log sink recorder g said traced.0))
        λ machine reports. pure-TracedBody log sink (active machine) _ (reports, refl)
  genesis_abort_rotation-TracedBody other said traced =
      wrong_state-TracedBody log sink _ other traced
