-- ===== src/Ffi/Trail/Injecting.antt =====
-- The audit trail of the entry points that write to the cluster (ffi.rs), and of all calls
-- together.
use genesis_operator.Prelude.{
  Bool, true, false, String, Option, none, some, List, ◌≡◌, refl, ap, ◌∙◌,
}
use genesis_operator.Outcome.{Res, ok, err, panicked}
use genesis_operator.Audit.{AuditEvent, AuditSink}
use genesis_operator.K8s.Cluster
use genesis_operator.State.{StateTag, Genesis, GenesisBootstrapping}
use genesis_operator.State.Bootstrapping.{emit_audit, config_ref}
use genesis_operator.Outcome.Effect
use genesis_operator.Ffi.{
  CStr, GenesisHandle, GenesisResult, GenesisInner, uninitialized, initialized, bootstrapping,
  active, rotating, degraded,
}
use genesis_operator.Ffi.Flow.{attempt, consumed}
use genesis_operator.Ffi.Calls.{Host}
use genesis_operator.Ffi.Injecting.{
  warned, without_cluster, injector_or, injector_if, injector_for, genesis_inject_secret,
  genesis_inject_secrets, genesis_complete_rotation,
}
use genesis_operator.Ffi.Lifecycle.{Call, perform}
use genesis_operator.Ffi.Trail.{told, told_by, outline, Recorder, Any, Quiet-Leaves, lift-Quiet}
use genesis_operator.Ffi.Trail.Rules.{
  HeldReports, Traced, Traced-still, TracedFlow, TracedStep, TracedBody, then-TracedBody,
  consumed-TracedStep, or_graft-TracedStep, pure-TracedBody, wrong_state-TracedBody,
}
use genesis_operator.Ffi.Trail.Outside.{
  QuietInjector, cluster-QuietInjector, mock-QuietInjector, in_cluster-Quiet,
}
use genesis_operator.Ffi.Trail.Operations.{complete_rotation-Leaves}
use genesis_operator.Ffi.Trail.Injections.{inject_secret-Leaves, inject_secrets-Leaves}
use genesis_operator.Ffi.Trail.Calls.{
  text-TracedStep, provider_for-TracedStep, printed-TracedBody, genesis_init-TracedBody,
  genesis_load-TracedBody, genesis_verify-TracedBody, genesis_begin_bootstrap-TracedBody,
  genesis_status-TracedBody, genesis_begin_rotation-TracedBody, genesis_abort_rotation-TracedBody,
  ApartFrom,
}

module _ {E : Type 0} (host : Host E) (log : E → List AuditEvent) (sink : AuditSink E)
    (recorder : Recorder host log sink) where
  -- a warning does not change what the log says
  warned-told :
      (inner : GenesisInner E) (message : String) (env : E) (said : Option StateTag)
      → Traced log sink inner said
      → told (log env) ≡ said
      → told (log (warned host inner message env)) ≡ said
  unfolding emit_audit told told_by outline
  warned-told (bootstrapping b) message env said traced h = by_inner b.inner traced.0
    where
      event : AuditEvent
      event = AuditEvent.warning message

      by_inner :
          (held : Option (Genesis E StateTag.bootstrapping))
          → HeldReports log sink held
          → told (log (emit_audit (record { inner = held; key_material = none }) event env)) ≡ said
      by_inner none reports = h
      by_inner (some g) reports =
          ap (λ a. told (log (a.emit_event event env))) reports
          ∙ ap told (recorder.records event env)
          ∙ h
  warned-told (uninitialized g) message env said traced h = h
  warned-told (initialized g) message env said traced h = h
  warned-told (active g) message env said traced h = h
  warned-told (rotating g) message env said traced h = h
  warned-told (degraded g) message env said traced h = h

  module _ (inner : GenesisInner E) (said : Option StateTag)
      (traced : Traced log sink inner said) where
    without_cluster-TracedStep :
        (mock : Bool) (message : String) (failure : GenesisHandle → GenesisResult)
        → TracedStep log sink
            (QuietInjector log)
            said
            said
            (without_cluster host mock inner message failure)
    without_cluster-TracedStep true message failure = record {
      run = λ env h.
          (mock-QuietInjector host log sink recorder, warned-told inner message env said traced h);
    }
    without_cluster-TracedStep false message failure = record {
      run = λ env h. Traced-still log sink inner _ _ traced h;
    }

    injector_for-TracedStep :
        TracedStep log sink (QuietInjector log) said said (injector_for host inner)
    unfolding injector_for injector_if
    injector_for-TracedStep = record {
      run = λ env h. by_service (host.cloud.vars.var "KUBERNETES_SERVICE_HOST" env) env h;
    }
      where
        by_cluster :
            (r : Res (Cluster.UreqSecretInjector host.tls)) (env : E)
            → told (log env) ≡ said
            → TracedFlow log sink
                (QuietInjector log)
                said
                (injector_or host host.cloud.mock_build inner (r, env))
        by_cluster (ok injector) env h = (cluster-QuietInjector host log sink recorder injector, h)
        by_cluster (err e) env h = (without_cluster-TracedStep host.cloud.mock_build _ _).run env h
        by_cluster (panicked message) env h = tt

        by_service :
            (service_host : Option String) (env : E)
            → told (log env) ≡ said
            → TracedFlow log sink (QuietInjector log) said (injector_if host inner service_host env)
        by_service none env h = (without_cluster-TracedStep host.cloud.mock_build _ _).run env h
        by_service (some service_host) env h =
            by_cluster (Cluster.in_cluster host.tls env).0 (Cluster.in_cluster host.tls env).1
              (ap told ((in_cluster-Quiet host log sink recorder).keeps env) ∙ h)

  config_ref-TracedStep :
      (b : GenesisBootstrapping E) (said : Option StateTag)
      → TracedStep log sink (Any log) said said (attempt consumed (Effect.lift (config_ref b)))
  config_ref-TracedStep b said =
      consumed-TracedStep log sink _ (Quiet-Leaves log _ (lift-Quiet log (config_ref b)))

  genesis_inject_secret-TracedBody :
      (a1 a2 a3 a4 a5 : CStr) (inner : GenesisInner E) (said : Option StateTag)
      → Traced log sink inner said
      → TracedBody log sink said (genesis_inject_secret host a1 a2 a3 a4 a5 inner)
  unfolding genesis_inject_secret
  genesis_inject_secret-TracedBody a1 a2 a3 a4 a5 (bootstrapping b) said traced =
      let text =
        λ (s : CStr). text-TracedStep host log sink recorder (bootstrapping b) s said traced in
      then-TracedBody log sink _ _ (text a1) λ name _.
        then-TracedBody log sink _ _ (text a2) λ ns _.
          then-TracedBody log sink _ _ (text a3) λ key _.
            then-TracedBody log sink _ _ (injector_for-TracedStep (bootstrapping b) said traced)
              λ injector quiet.
                then-TracedBody log sink _ _ (config_ref-TracedStep b said) λ config _.
                  then-TracedBody log sink _ _
                    (consumed-TracedStep log sink _ (
                      inject_secret-Leaves host log sink recorder b injector name ns key _ said
                        traced.0))
                    λ machine reports. pure-TracedBody log sink (active machine) _ (reports, refl)
  genesis_inject_secret-TracedBody a1 a2 a3 a4 a5 other said traced =
      wrong_state-TracedBody log sink _ other traced

  genesis_inject_secrets-TracedBody :
      (json : CStr) (inner : GenesisInner E) (said : Option StateTag)
      → Traced log sink inner said
      → TracedBody log sink said (genesis_inject_secrets host json inner)
  unfolding genesis_inject_secrets
  genesis_inject_secrets-TracedBody json (bootstrapping b) said traced =
      then-TracedBody log sink _ _
        (text-TracedStep host log sink recorder (bootstrapping b) json said traced)
        λ text _.
          then-TracedBody log sink _ _ (or_graft-TracedStep log sink (bootstrapping b) _ traced)
            λ targets _.
              then-TracedBody log sink _ _ (injector_for-TracedStep (bootstrapping b) said traced)
                λ injector quiet.
                  then-TracedBody log sink _ _ (config_ref-TracedStep b said) λ config _.
                    then-TracedBody log sink _ _
                      (consumed-TracedStep log sink _
                        (inject_secrets-Leaves host log sink recorder b injector _ _ said traced.0))
                      λ machine reports. pure-TracedBody log sink (active machine) _ (reports, refl)
  genesis_inject_secrets-TracedBody json other said traced =
      wrong_state-TracedBody log sink _ other traced

  genesis_complete_rotation-TracedBody :
      (a1 a2 a3 a4 a5 a6 : CStr) (inner : GenesisInner E) (said : Option StateTag)
      → Traced log sink inner said
      → TracedBody log sink said (genesis_complete_rotation host a1 a2 a3 a4 a5 a6 inner)
  unfolding genesis_complete_rotation
  genesis_complete_rotation-TracedBody a1 a2 a3 a4 a5 a6 (rotating g) said traced =
      let text = λ (s : CStr). text-TracedStep host log sink recorder (rotating g) s said traced in
      then-TracedBody log sink _ _
        (provider_for-TracedStep host log sink recorder (rotating g) a1 said traced)
        λ kms quiet. then-TracedBody log sink _ _ (text a2) λ name _.
          then-TracedBody log sink _ _ (text a3) λ ns _.
            then-TracedBody log sink _ _ (text a4) λ key _.
              then-TracedBody log sink _ _ (injector_for-TracedStep (rotating g) said traced)
                λ injector writes.
                  then-TracedBody log sink _ _
                    (consumed-TracedStep log sink _ (
                      complete_rotation-Leaves host log sink recorder g kms injector name ns key _ _
                        said traced.0 quiet writes))
                    λ made reports.
                      printed-TracedBody host log sink recorder (active made.0) _ _ (reports, refl)
  genesis_complete_rotation-TracedBody a1 a2 a3 a4 a5 a6 other said traced =
      wrong_state-TracedBody log sink _ other traced

  pub perform-TracedBody :
      (call : Call E) (inner : GenesisInner E) (said : Option StateTag)
      → ApartFrom log call
      → Traced log sink inner said
      → TracedBody log sink said (perform host call inner)
  unfolding perform
  perform-TracedBody (Call.init config) inner said apart traced =
      genesis_init-TracedBody host log sink recorder config inner said traced
  perform-TracedBody (Call.load key envelope) inner said apart traced =
      genesis_load-TracedBody host log sink recorder key envelope inner said traced
  perform-TracedBody (Call.verify config out) inner said apart traced =
      genesis_verify-TracedBody host log sink recorder config out inner said apart traced
  perform-TracedBody (Call.begin_bootstrap config) inner said apart traced =
      genesis_begin_bootstrap-TracedBody host log sink recorder config inner said traced
  perform-TracedBody (Call.inject_secret a1 a2 a3 a4 a5) inner said apart traced =
      genesis_inject_secret-TracedBody a1 a2 a3 a4 a5 inner said traced
  perform-TracedBody (Call.inject_secrets json) inner said apart traced =
      genesis_inject_secrets-TracedBody json inner said traced
  perform-TracedBody (Call.status out) inner said apart traced =
      genesis_status-TracedBody host log sink recorder out inner said apart traced
  perform-TracedBody Call.begin_rotation inner said apart traced =
      genesis_begin_rotation-TracedBody host log sink recorder inner said traced
  perform-TracedBody Call.abort_rotation inner said apart traced =
      genesis_abort_rotation-TracedBody host log sink recorder inner said traced
  perform-TracedBody (Call.complete_rotation a1 a2 a3 a4 a5 a6) inner said apart traced =
      genesis_complete_rotation-TracedBody a1 a2 a3 a4 a5 a6 inner said traced
