-- ===== src/Ffi/Trail/Injections.antt =====
-- What the injections of a machine that holds a key (state.rs) write to the audit log.
use genesis_operator.Prelude.{
  true, false, String, Option, none, some, List, [], ◌∷◌, ◌≡◌, refl, sym, subst, ap, ◌∙◌,
}
use genesis_operator.KeyMaterial.{KeyMaterial, as_bytes}
use genesis_operator.Outcome.{Res, ok, err, panicked}
use genesis_operator.Audit.{AuditEvent, AuditSink}
use genesis_operator.K8s.Metadata.{SecretMetadata}
use genesis_operator.K8s.Injector.{SecretInjector}
use genesis_operator.State.{StateTag, Genesis, GenesisBootstrapping}
use genesis_operator.State.Bootstrapping.{
  Target, inject_secret_with_metadata, inject_all, inject_secrets_multi,
}
use genesis_operator.State.Injection.{
  inject_secret_calls, inject_secrets_multi_calls, events_of, emit_list, report,
}
use genesis_operator.Ffi.Calls.{Host}
use genesis_operator.Ffi.Trail.{told, told_by, outline, told_by-outline, Recorder, Ends, Leaves}
use genesis_operator.Ffi.Trail.Rules.{Reports, HeldReports}

module _ {E : Type 0} (host : Host E) (log : E → List AuditEvent) (sink : AuditSink E)
    (recorder : Recorder host log sink) where
  abbrev made :
      Option (Genesis E StateTag.bootstrapping) → Option KeyMaterial → GenesisBootstrapping E
  made inner held = record { inner = inner; key_material = held }

  -- the sum of an injection: the run of the injector, and then the events
  report-Leaves :
      (g : Genesis E StateTag.bootstrapping) (events : E → E) (run : Res (Unit {0}) × E)
      → Reports log sink g
      → ((env : E) → told (log (events env)) ≡ some StateTag.active)
      → Ends log (Reports log sink) (some StateTag.active) (report g events run)
  report-Leaves g events (ok u, env) reports active = (reports, active env)
  report-Leaves g events (err e, env) reports active = tt
  report-Leaves g events (panicked m, env) reports active = tt

  pub inject_secret-Leaves :
      (b : GenesisBootstrapping E) (injector : SecretInjector E) (name ns key : String)
      (metadata : Option SecretMetadata) (said : Option StateTag)
      → HeldReports log sink b.inner
      → Leaves log
          (Reports log sink)
          said
          (some StateTag.active)
          (inject_secret_with_metadata b injector name ns key metadata)
  unfolding told told_by outline inject_secret_with_metadata
  inject_secret-Leaves b injector name ns key metadata said reports = record {
    run = λ env h. by_parts b.inner b.key_material env reports;
  }
    where
      event : AuditEvent
      event = AuditEvent.inject_secret name ns true

      by_parts :
          (inner : Option (Genesis E StateTag.bootstrapping)) (held : Option KeyMaterial) (env : E)
          → HeldReports log sink inner
          → Ends log
              (Reports log sink)
              (some StateTag.active)
              (inject_secret_with_metadata (made inner held) injector name ns key metadata env)
      by_parts inner none env reports = tt
      by_parts none (some held) env reports =
          by_result (injector.inject (as_bytes held) name ns key metadata env) refl
        where
          by_result :
              (run : Res (Unit {0}) × E)
              → injector.inject (as_bytes held) name ns key metadata env ≡ run
              → Ends log (Reports log sink) (some StateTag.active) (
                  inject_secret_with_metadata
                    (made none (some held))
                    injector
                    name
                    ns
                    key
                    metadata
                    env)
          by_result (ok u, env') e = rw e tt
          by_result (err m, env') e = rw e tt
          by_result (panicked m, env') e = rw e tt
      by_parts (some g) (some held) env reports =
          subst (Ends log (Reports log sink) (some StateTag.active))
            (sym (inject_secret_calls g held injector name ns key metadata env))
            (report-Leaves g (g.audit.emit_event event)
              (injector.inject (as_bytes held) name ns key metadata env) reports
              λ env'.
                ap (λ a. told (log (a.emit_event event env'))) reports
                ∙ ap told (recorder.records event env'))

  -- one event more
  told_after :
      (event : AuditEvent) (audit : AuditSink E) (env : E)
      → audit ≡ sink
      → told (log (audit.emit_event event env)) ≡ told_by event (told (log env))
  unfolding told
  told_after event audit env reports =
      ap (λ a. told (log (a.emit_event event env))) reports
      ∙ ap told (recorder.records event env)
      ∙ told_by-outline event (told (log env))

  -- the events of a finished injection say that the machine is active
  emit_list-active :
      (audit : AuditSink E) (target : Target) (targets : List Target) (env : E)
      → audit ≡ sink
      → told (log (emit_list audit (events_of (target ∷ targets)) env)) ≡ some StateTag.active
  unfolding emit_list events_of told_by outline
  emit_list-active audit (name, ns, key) [] env reports =
      told_after (AuditEvent.inject_secret name ns true) audit env reports
  emit_list-active audit (name, ns, key) (target ∷ rest) env reports =
      emit_list-active audit target rest
        (audit.emit_event (AuditEvent.inject_secret name ns false) env) reports

  pub inject_secrets-Leaves :
      (b : GenesisBootstrapping E) (injector : SecretInjector E) (targets : List Target)
      (metadata : Option SecretMetadata) (said : Option StateTag)
      → HeldReports log sink b.inner
      → Leaves log
          (Reports log sink)
          said
          (some StateTag.active)
          (inject_secrets_multi b injector targets metadata)
  unfolding inject_secrets_multi
  inject_secrets-Leaves b injector [] metadata said reports = record { run = λ env h. tt }
  inject_secrets-Leaves b injector (target ∷ rest) metadata said reports = record {
    run = λ env h. by_parts b.inner b.key_material env reports;
  }
    where
      all : List Target
      all = target ∷ rest

      by_parts :
          (inner : Option (Genesis E StateTag.bootstrapping)) (held : Option KeyMaterial) (env : E)
          → HeldReports log sink inner
          → Ends log
              (Reports log sink)
              (some StateTag.active)
              (inject_secrets_multi (made inner held) injector all metadata env)
      by_parts inner none env reports = tt
      by_parts none (some held) env reports =
          by_result (inject_all injector (as_bytes held) metadata all env) refl
        where
          by_result :
              (run : Res (Unit {0}) × E)
              → inject_all injector (as_bytes held) metadata all env ≡ run
              → Ends log
                  (Reports log sink)
                  (some StateTag.active)
                  (inject_secrets_multi (made none (some held)) injector all metadata env)
          by_result (ok u, env') e = rw e tt
          by_result (err m, env') e = rw e tt
          by_result (panicked m, env') e = rw e tt
      by_parts (some g) (some held) env reports =
          subst (Ends log (Reports log sink) (some StateTag.active))
            (sym (inject_secrets_multi_calls g held injector target rest metadata env))
            (report-Leaves g (emit_list g.audit (events_of all))
              (inject_all injector (as_bytes held) metadata all env) reports
              λ env'. emit_list-active g.audit target rest env' reports)
