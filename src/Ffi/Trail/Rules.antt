-- ===== src/Ffi/Trail/Rules.antt =====
-- The rules for the steps of an entry point (ffi.rs), of a machine that reports to the sink and
-- whose state the log tells.
use genesis_operator.Prelude.{String, Option, none, some, List, ◌∷◌, ◌≡◌, sym, ap, ◌∙◌, subst}
use genesis_operator.Outcome.{Res, ok, err, panicked, Eff}
use genesis_operator.Outcome.Effect
use genesis_operator.Audit.{AuditEvent, AuditSink, emit}
use genesis_operator.State.{StateTag, Genesis}
use genesis_operator.Ffi.{
  GenesisHandle, GenesisResult, GenesisInner, bootstrapping, state_tag, Parsed, parsed, refused,
}
use genesis_operator.Ffi.{uninitialized, initialized, active, rotating, degraded}
use genesis_operator.Ffi.Flow.{
  Exit, with_handle, without_handle, Flow, next, return, unwinds, Body, pure, or_graft, attempt,
  ◌>>=◌, go_on, outcome, keeping, consumed, wrong_state,
}
use genesis_operator.Ffi.Trail.{
  told, told_by, outline, told_by-outline, Tells, Ends, Leaves, Any, Steady,
}

module _ {E : Type 0} (log : E → List AuditEvent) (sink : AuditSink E) where
  -- the machine reports to this sink
  abbrev pub Reports : {s : StateTag} → Genesis E s → Type 0
  Reports g = g.audit ≡ sink

  abbrev pub HeldReports : Option (Genesis E StateTag.bootstrapping) → Type 0
  HeldReports none = Unit {0}
  HeldReports (some g) = Reports g

  abbrev pub BoxReports : GenesisInner E → Type 0
  BoxReports (uninitialized g) = Reports g
  BoxReports (initialized g) = Reports g
  BoxReports (bootstrapping b) = HeldReports b.inner
  BoxReports (active g) = Reports g
  BoxReports (rotating g) = Reports g
  BoxReports (degraded g) = Reports g

  -- a machine that reports to the sink, and whose state the log tells
  abbrev pub Traced : GenesisInner E → Option StateTag → Type 0
  Traced inner said = BoxReports inner × Tells (state_tag inner) said

  pub Traced-still :
      (inner : GenesisInner E) (said said' : Option StateTag)
      → Traced inner said
      → said' ≡ said
      → Traced inner said'
  Traced-still inner said said' traced h =
      (traced.0, subst (Tells (state_tag inner)) (sym h) traced.1)

  abbrev pub TracedExit : Exit E → E → Type 0
  TracedExit (with_handle inner f) env = Traced inner (told (log env))
  TracedExit (without_handle result) env = Unit {0}

  abbrev pub TracedFlow : {A : Type 0} → (A → Type 0) → Option StateTag → Flow E A × E → Type 0
  TracedFlow P said (next a, env) = P a × (told (log env) ≡ said)
  TracedFlow P said (return exit, env) = TracedExit exit env
  TracedFlow P said (unwinds message, env) = Unit {0}

  abbrev pub TracedEnd : Flow E (Exit E) × E → Type 0
  TracedEnd (next exit, env) = TracedExit exit env
  TracedEnd (return exit, env) = TracedExit exit env
  TracedEnd (unwinds message, env) = Unit {0}

  pub record TracedStep {A : Type 0} (P : A → Type 0) (said said' : Option StateTag) (m : Body E A)
      : Type 0 where
    pub run : (env : E) → told (log env) ≡ said → TracedFlow P said' (m env)

  pub record TracedBody (said : Option StateTag) (m : Body E (Exit E)) : Type 0 where
    pub run : (env : E) → told (log env) ≡ said → TracedEnd (m env)

  pub emit-Leaves :
      {said : Option StateTag} (event : AuditEvent) (audit : AuditSink E)
      → ((env : E) → log (sink.emit_event event env) ≡ outline event ∷ log env)
      → audit ≡ sink
      → Leaves log (Any log) said (told_by event said) (emit audit event)
  unfolding told
  emit-Leaves {said = said} event audit records same = record {
    run = λ env h. (
      tt,
      ap (λ a. told (log (a.emit_event event env))) same
          ∙ ap told (records env)
          ∙ told_by-outline event (told (log env))
          ∙ ap (told_by event) h,
    );
  }

  -- the end of each operation: an event, and then its value
  pub emit-pure-Leaves :
      {A : Type 0} {P : A → Type 0} {said : Option StateTag} (event : AuditEvent)
      (audit : AuditSink E) (a : A)
      → ((env : E) → log (sink.emit_event event env) ≡ outline event ∷ log env)
      → audit ≡ sink
      → P a
      → Leaves log P said
          (told_by event said)
          (Effect.◌>>=◌ (emit audit event) (λ done. Effect.pure a))
  emit-pure-Leaves event audit a records same known = record {
    run = λ env h. (known, ((emit-Leaves event audit records same).run env h).1);
  }

  pub then-TracedBody :
      {A : Type 0} {P : A → Type 0} {said said' : Option StateTag} (m : Body E A)
      (k : A → Body E (Exit E))
      → TracedStep P said said' m
      → ((a : A) → P a → TracedBody said' (k a))
      → TracedBody said (m >>= k)
  unfolding ◌>>=◌
  then-TracedBody {A = A} {P = P} {said' = said'} m k first rest = record {
    run = λ env h. by_flow (m env).0 (m env).1 (first.run env h);
  }
    where
      by_flow :
          (flow : Flow E A) (env' : E)
          → TracedFlow P said' (flow, env')
          → TracedEnd (go_on flow k env')
      by_flow (next a) env' (known, here) = (rest a known).run env' here
      by_flow (return exit) env' ends = ends
      by_flow (unwinds message) env' ends = tt

  pub then-TracedStep :
      {A B : Type 0} {P : A → Type 0} {Q : B → Type 0} {said said1 said2 : Option StateTag}
      (m : Body E A) (k : A → Body E B)
      → TracedStep P said said1 m
      → ((a : A) → P a → TracedStep Q said1 said2 (k a))
      → TracedStep Q said said2 (m >>= k)
  unfolding ◌>>=◌
  then-TracedStep {A = A} {P = P} {Q = Q} {said1 = said1} {said2 = said2} m k first rest = record {
    run = λ env h. by_flow (m env).0 (m env).1 (first.run env h);
  }
    where
      by_flow :
          (flow : Flow E A) (env' : E)
          → TracedFlow P said1 (flow, env')
          → TracedFlow Q said2 (go_on flow k env')
      by_flow (next a) env' (known, here) = (rest a known).run env' here
      by_flow (return exit) env' ends = ends
      by_flow (unwinds message) env' ends = tt

  -- the machine is gone where the attempt fails
  pub consumed-TracedStep :
      {A : Type 0} {P : A → Type 0} {said said' : Option StateTag} (m : Eff E A)
      → Leaves log P said said' m
      → TracedStep P said said' (attempt consumed m)
  unfolding attempt
  consumed-TracedStep {A = A} {P = P} {said' = said'} m leaves = record {
    run = λ env h. by_result (m env).0 (m env).1 (leaves.run env h);
  }
    where
      by_result :
          (r : Res A) (env' : E)
          → Ends log P said' (r, env')
          → TracedFlow P said' (outcome consumed r, env')
      by_result (ok a) env' ends = ends
      by_result (err e) env' ends = tt
      by_result (panicked message) env' ends = tt

  -- the machine is given back where the attempt fails
  pub keeping-TracedStep :
      {A : Type 0} {said : Option StateTag} (inner : GenesisInner E) (m : Eff E A)
      → Traced inner said
      → Steady log said m
      → TracedStep (Any log) said said (attempt (keeping inner) m)
  unfolding attempt
  keeping-TracedStep {A = A} {said = said} inner m traced steady = record {
    run = λ env h. by_result (m env).0 (m env).1 (steady.run env h);
  }
    where
      by_result :
          (r : Res A) (env' : E)
          → told (log env') ≡ said
          → TracedFlow (Any log) said (outcome (keeping inner) r, env')
      by_result (ok a) env' here = (tt, here)
      by_result (err e) env' here = Traced-still inner _ _ traced here
      by_result (panicked message) env' here = tt

  pub or_graft-TracedStep :
      {A : Type 0} {said : Option StateTag} (inner : GenesisInner E) (r : Parsed A)
      → Traced inner said
      → TracedStep (Any log) said said (or_graft inner r)
  unfolding or_graft
  or_graft-TracedStep inner (parsed a) traced = record { run = λ env h. (tt, h) }
  or_graft-TracedStep inner (refused code message) traced = record {
    run = λ env h. Traced-still inner _ _ traced h;
  }

  pub pure-TracedBody :
      {said : Option StateTag} (inner : GenesisInner E) (f : GenesisHandle → GenesisResult)
      → Traced inner said
      → TracedBody said (pure (with_handle inner f))
  unfolding pure
  pure-TracedBody inner f traced = record { run = λ env h. Traced-still inner _ _ traced h }

  pub wrong_state-TracedBody :
      {said : Option StateTag} (message : String) (inner : GenesisInner E)
      → Traced inner said
      → TracedBody said (wrong_state message inner)
  unfolding wrong_state
  wrong_state-TracedBody message inner traced = pure-TracedBody inner _ traced
