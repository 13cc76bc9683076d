-- ===== src/Ffi/Trail/Operations.antt =====
-- What each operation of state.rs writes to the audit log, where it succeeds.
use genesis_operator.Prelude.{String, Option, some, List, ap, ◌∙◌, str_eq}
use genesis_operator.Errors.{no_envelope, no_public_key}
use genesis_operator.Outcome.{ok_or}
use genesis_operator.Audit.{AuditEvent, AuditSink}
use genesis_operator.Kms.{KmsProvider}
use genesis_operator.K8s.Injector.{SecretInjector}
use genesis_operator.State.{StateTag, Genesis}
use genesis_operator.State.Operations.{
  init, begin_bootstrap, begin_rotation, abort_rotation, complete_rotation, verify,
}
use genesis_operator.Ffi.Calls.{Host}
use genesis_operator.Ffi.Trail.{
  told, told_by, outline, Recorder, Quiet, lift-Quiet, Leaves, then-Leaves, Quiet-Leaves, Steady,
  then-Steady, Quiet-Steady,
}
use genesis_operator.Ffi.Trail.Rules.{Reports, HeldReports, emit-pure-Leaves}
use genesis_operator.Ffi.Trail.Outside.{QuietKms, QuietInjector}

module _ {E : Type 0} (host : Host E) (log : E → List AuditEvent) (sink : AuditSink E)
    (recorder : Recorder host log sink) where
  generate-Quiet : Quiet log host.age.generate_keypair
  generate-Quiet = record { keeps = recorder.generates }

  pub init-Leaves :
      (g : Genesis E StateTag.uninitialized) (kms : KmsProvider E) (said : Option StateTag)
      → Reports log sink g
      → QuietKms log kms
      → Leaves log
          (λ made. Reports log sink made.0)
          said
          (some StateTag.initialized)
          (init host.age g kms)
  unfolding init told_by outline
  init-Leaves g kms said reports quiet =
      then-Leaves log _ _ (Quiet-Leaves log _ generate-Quiet) λ pair _.
        then-Leaves log _ _ (Quiet-Leaves log _ (quiet.encrypts _))
          λ envelope _. emit-pure-Leaves log sink _ _ _ (recorder.records _) reports reports

  pub begin_bootstrap-Leaves :
      (g : Genesis E StateTag.initialized) (kms : KmsProvider E) (said : Option StateTag)
      → Reports log sink g
      → QuietKms log kms
      → Leaves log
          (λ b. HeldReports log sink b.inner)
          said
          (some StateTag.bootstrapping)
          (begin_bootstrap g kms)
  unfolding begin_bootstrap told_by outline
  begin_bootstrap-Leaves g kms said reports quiet =
      then-Leaves log _ _
        (Quiet-Leaves log _ (lift-Quiet log (ok_or g.config.envelope_ciphertext no_envelope)))
        λ envelope _.
          then-Leaves log _ _ (Quiet-Leaves log _ (quiet.decrypts _))
            λ private_bytes _. emit-pure-Leaves log sink _ _ _ (recorder.records _) reports reports

  pub begin_rotation-Leaves :
      (g : Genesis E StateTag.active) (said : Option StateTag)
      → Reports log sink g
      → Leaves log (Reports log sink) said (some StateTag.rotating) (begin_rotation g)
  unfolding begin_rotation told_by outline
  begin_rotation-Leaves g said reports =
      emit-pure-Leaves log sink _ _ _ (recorder.records _) reports reports

  pub abort_rotation-Leaves :
      (g : Genesis E StateTag.rotating) (said : Option StateTag)
      → Reports log sink g
      → Leaves log (Reports log sink) said (some StateTag.active) (abort_rotation g)
  unfolding abort_rotation told_by outline
  abort_rotation-Leaves g said reports =
      emit-pure-Leaves log sink _ _ _ (recorder.records _) reports reports

  pub complete_rotation-Leaves :
      (g : Genesis E StateTag.rotating) (kms : KmsProvider E) (injector : SecretInjector E)
      (name ns key : String) (bootstrap_name bootstrap_namespace : Option String)
      (said : Option StateTag)
      → Reports log sink g
      → QuietKms log kms
      → QuietInjector log injector
      → Leaves log
          (λ made. Reports log sink made.0)
          said
          (some StateTag.active)
          (complete_rotation host.age g kms injector name ns key bootstrap_name bootstrap_namespace)
  unfolding complete_rotation told_by outline
  complete_rotation-Leaves g kms injector name ns key _ _ said reports quiet writes =
      then-Leaves log _ _ (Quiet-Leaves log _ generate-Quiet) λ pair _.
        then-Leaves log _ _ (Quiet-Leaves log _ (quiet.encrypts _)) λ envelope _.
          then-Leaves log _ _ (Quiet-Leaves log _ (writes _ _ _ _ _))
            λ done _. emit-pure-Leaves log sink _ _ _ (recorder.records _) reports reports

  pub verify-Steady :
      (g : Genesis E StateTag.initialized) (kms : KmsProvider E) (said : Option StateTag)
      → Reports log sink g
      → QuietKms log kms
      → Steady log said (verify host.age g kms)
  unfolding verify told told_by outline
  verify-Steady g kms said reports quiet =
      then-Steady log _ _
        (Quiet-Steady log _ (lift-Quiet log (ok_or g.config.envelope_ciphertext no_envelope)))
        λ envelope.
          then-Steady log _ _
            (Quiet-Steady log _ (lift-Quiet log (ok_or g.config.public_key no_public_key)))
            λ expected.
              then-Steady log _ _ (Quiet-Steady log _ (quiet.decrypts envelope)) λ private_bytes.
                then-Steady log _ _
                  (Quiet-Steady log _
                    (lift-Quiet log (host.age.public_key_from_private private_bytes)))
                  λ derived. record {
                    run = λ env h.
                        let event = AuditEvent.verify (str_eq derived expected) in
                        ap (λ a. told (log (a.emit_event event env))) reports
                        ∙ ap told (recorder.records event env)
                        ∙ h;
                  }
