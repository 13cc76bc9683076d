-- ===== src/Ffi/Trail.antt =====
-- The audit trail of the C ABI (ffi.rs with audit.rs): what the events say of the state of the
-- machine. The children: what the code outside is relied on for (`Outside`), the rules for each
-- kind of step (`Rules`), and the calls.
pub mod Outside
pub mod Rules
pub mod Operations
pub mod Injections
pub mod Calls
pub mod Injecting
pub mod Sessions
use genesis_operator.Prelude.{
  String, true, false, Option, none, some, List, [], ◌∷◌, ◌≡◌, refl, sym, ap, ◌∙◌, ◌⊎◌, inl, inr,
  subst,
}
use genesis_operator.Errors.{GenesisError}
use genesis_operator.Outcome.{Res, ok, err, panicked, Eff}
use genesis_operator.Outcome.Effect
use genesis_operator.Audit.{AuditEvent, AuditSink, emit}
use genesis_operator.Http.{Request}
use genesis_operator.Kms.Aws.{AwsKmsProvider}
use genesis_operator.State.{StateTag, Genesis}
use genesis_operator.Ffi.{
  GenesisHandle, GenesisResult, GenesisInner, bootstrapping, state_tag, Parsed, parsed, refused,
}
use genesis_operator.Ffi.{uninitialized, initialized, active, rotating, degraded}
use genesis_operator.Ffi.Flow.{
  Exit, with_handle, without_handle, Flow, next, return, unwinds, Body, pure, or_graft, attempt,
  ◌>>=◌, go_on, outcome, keeping, consumed, wrong_state,
}
use genesis_operator.Ffi.Calls.{Host}

-- what an event says of the state, where the events before it said this
unfoldable pub told_by : AuditEvent → Option StateTag → Option StateTag
told_by (AuditEvent.init _ _) said = some StateTag.initialized
told_by (AuditEvent.begin_bootstrap _) said = some StateTag.bootstrapping
told_by (AuditEvent.inject_secret _ _ true) said = some StateTag.active
told_by AuditEvent.abort_bootstrap said = some StateTag.initialized
told_by AuditEvent.begin_rotation said = some StateTag.rotating
told_by (AuditEvent.complete_rotation _) said = some StateTag.active
told_by AuditEvent.abort_rotation said = some StateTag.active
told_by AuditEvent.recover_from_degraded said = some StateTag.active
told_by _ said = said

-- what an auditor needs of an event: which one it is, and whether the key was zeroed
unfoldable pub outline : AuditEvent → AuditEvent
outline (AuditEvent.init _ _) = AuditEvent.init "" none
outline (AuditEvent.verify _) = AuditEvent.verify true
outline (AuditEvent.seal _) = AuditEvent.seal 0
outline (AuditEvent.unseal _) = AuditEvent.unseal 0
outline (AuditEvent.begin_bootstrap _) = AuditEvent.begin_bootstrap true
outline (AuditEvent.inject_secret _ _ zeroed) = AuditEvent.inject_secret "" "" zeroed
outline (AuditEvent.reconcile_reinjected _ _) = AuditEvent.reconcile_reinjected "" ""
outline (AuditEvent.complete_rotation _) = AuditEvent.complete_rotation ""
outline (AuditEvent.warning _) = AuditEvent.warning ""
outline event = event

pub told_by-outline :
    (event : AuditEvent) (said : Option StateTag)
    → told_by (outline event) said ≡ told_by event said
unfolding told_by outline
told_by-outline (AuditEvent.inject_secret _ _ true) said = refl
told_by-outline (AuditEvent.inject_secret _ _ false) said = refl
told_by-outline _ said = refl

-- what a log says, the newest event first
unfoldable pub told : List AuditEvent → Option StateTag
unfolding told_by
told [] = none
told (event ∷ older) = told_by event (told older)

-- The log tells this state. `load` writes no event, so that a machine that was loaded is not told
-- from a new one.
abbrev pub Tells : StateTag → Option StateTag → Type 0
Tells StateTag.uninitialized said = said ≡ none
Tells StateTag.initialized said = (said ≡ none) ⊎ (said ≡ some StateTag.initialized)
Tells s said = said ≡ some s

-- The sink writes the outline of each event to the log, and nothing else that the code calls
-- changes the log.
pub record Recorder {E : Type 0} (host : Host E) (log : E → List AuditEvent) (sink : AuditSink E)
    : Type 0 where
  pub records :
      (event : AuditEvent) (env : E) → log (sink.emit_event event env) ≡ outline event ∷ log env
  pub generates : (env : E) → log (host.age.generate_keypair env).1 ≡ log env
  pub signs :
      (p : AwsKmsProvider) (request : Request) (env : E)
      → log (host.cloud.sign p request env).1 ≡ log env
  pub asks : (request : Request) (env : E) → log (host.cloud.web.send request env).1 ≡ log env
  pub reads_text : (path : String) (env : E) → log (host.tls.read_text path env).1 ≡ log env
  pub reads_file : (path : String) (env : E) → log (host.tls.read_file path env).1 ≡ log env
  pub sends :
      (agent : host.tls.Agent) (request : Request) (env : E)
      → log (host.tls.send agent request env).1 ≡ log env

module _ {E : Type 0} (log : E → List AuditEvent) where
  -- an action that leaves the log as it is, whether it fails or not
  pub record Quiet {A : Type 0} (m : Eff E A) : Type 0 where
    pub keeps : (env : E) → log (m env).1 ≡ log env

  pub lift-Quiet : {A : Type 0} (r : Res A) → Quiet (Effect.lift r)
  lift-Quiet r = record { keeps = λ env. refl }

  pub then-Quiet :
      {A B : Type 0} (m : Eff E A) (f : A → Eff E B)
      → Quiet m
      → ((a : A) → Quiet (f a))
      → Quiet (Effect.◌>>=◌ m f)
  then-Quiet {A = A} m f first rest = record {
    keeps = λ env. by_result (m env).0 (m env).1 ∙ first.keeps env;
  }
    where
      by_result : (r : Res A) (env' : E) → log (Effect.continue r f env').1 ≡ log env'
      by_result (ok a) env' = (rest a).keeps env'
      by_result (err e) env' = refl
      by_result (panicked message) env' = refl

  -- what is known of a run that succeeded: its value, and what the log says after it
  abbrev pub Ends : {A : Type 0} → (A → Type 0) → Option StateTag → Res A × E → Type 0
  Ends P said (ok a, env) = P a × (told (log env) ≡ said)
  Ends P said (_, env) = Unit {0}

  pub record Leaves {A : Type 0} (P : A → Type 0) (said said' : Option StateTag) (m : Eff E A)
      : Type 0 where
    pub run : (env : E) → told (log env) ≡ said → Ends P said' (m env)

  abbrev pub Any : {A : Type 0} → A → Type 0
  Any a = Unit {0}

  pub then-Leaves :
      {A B : Type 0} {P : A → Type 0} {Q : B → Type 0} {said said1 said2 : Option StateTag}
      (m : Eff E A) (f : A → Eff E B)
      → Leaves P said said1 m
      → ((a : A) → P a → Leaves Q said1 said2 (f a))
      → Leaves Q said said2 (Effect.◌>>=◌ m f)
  then-Leaves {A = A} {P = P} {Q = Q} {said1 = said1} {said2 = said2} m f first rest = record {
    run = λ env h. by_result (m env).0 (m env).1 (first.run env h);
  }
    where
      by_result :
          (r : Res A) (env' : E) → Ends P said1 (r, env') → Ends Q said2 (Effect.continue r f env')
      by_result (ok a) env' (known, here) = (rest a known).run env' here
      by_result (err e) env' ends = tt
      by_result (panicked message) env' ends = tt

  pub Quiet-Leaves :
      {A : Type 0} {said : Option StateTag} (m : Eff E A) → Quiet m → Leaves Any said said m
  Quiet-Leaves {A = A} {said = said} m quiet = record {
    run = λ env h. by_result (m env).0 (m env).1 (ap told (quiet.keeps env) ∙ h);
  }
    where
      by_result : (r : Res A) (env' : E) → told (log env') ≡ said → Ends Any said (r, env')
      by_result (ok a) env' here = (tt, here)
      by_result (err e) env' here = tt
      by_result (panicked message) env' here = tt

  pub pure-Leaves :
      {A : Type 0} {P : A → Type 0} {said : Option StateTag} (a : A)
      → P a
      → Leaves P said said (Effect.pure a)
  pure-Leaves a known = record { run = λ env h. (known, h) }

  pub fail-Leaves :
      {A : Type 0} {P : A → Type 0} {said said' : Option StateTag} (message : String)
      → Leaves P said said' (Effect.panic message)
  fail-Leaves message = record { run = λ env h. tt }

  -- an action after which the log says what it said before, whether it fails or not
  pub record Steady {A : Type 0} (said : Option StateTag) (m : Eff E A) : Type 0 where
    pub run : (env : E) → told (log env) ≡ said → told (log (m env).1) ≡ said

  pub then-Steady :
      {A B : Type 0} {said : Option StateTag} (m : Eff E A) (f : A → Eff E B)
      → Steady said m
      → ((a : A) → Steady said (f a))
      → Steady said (Effect.◌>>=◌ m f)
  then-Steady {A = A} {said = said} m f first rest = record {
    run = λ env h. by_result (m env).0 (m env).1 (first.run env h);
  }
    where
      by_result :
          (r : Res A) (env' : E)
          → told (log env') ≡ said
          → told (log (Effect.continue r f env').1) ≡ said
      by_result (ok a) env' here = (rest a).run env' here
      by_result (err e) env' here = here
      by_result (panicked message) env' here = here

  pub Quiet-Steady : {A : Type 0} {said : Option StateTag} (m : Eff E A) → Quiet m → Steady said m
  Quiet-Steady m quiet = record { run = λ env h. ap told (quiet.keeps env) ∙ h }
