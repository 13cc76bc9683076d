-- ===== src/State/Writes.antt =====
-- What the injection into several targets does to each of them: inject_secrets_multi of state.rs.
use genesis_operator.Prelude.{Option, List, [], ◌∷◌, ◌++◌, Bytes, ◌≡◌, refl, ap}
use genesis_operator.KeyMaterial.{KeyMaterial, as_bytes}
use genesis_operator.Outcome.{Res, ok, err, panicked}
use genesis_operator.Outcome.Effect.{continue}
use genesis_operator.K8s.Metadata.{SecretMetadata}
use genesis_operator.K8s.Injector.{SecretInjector}
use genesis_operator.State.{StateTag, Genesis, become}
use genesis_operator.State.Bootstrapping.{Target, inject_all, inject_secrets_multi}
use genesis_operator.State.Injection.{
  holding, events_of, emit_list, report, inject_secrets_multi_calls,
}

module _ {E : Type 0} (injector : SecretInjector E) (key_bytes : Bytes)
    (metadata : Option SecretMetadata) where
  -- one call of the injector, for this target
  abbrev pub call_for : Target → E → Res (Unit {0}) × E
  call_for (name, ns, key) env = injector.inject key_bytes name ns key metadata env

  -- the targets were written one after the other, in the order of the list, each by one call that
  -- succeeded and that began in the state which the call before left
  pub data Written : List Target → E → E → Type 0 where
    nothing : {env : E} → Written [] env env
    next :
        {target : Target} {rest : List Target} {env env1 env2 : E}
        → call_for target env ≡ (ok tt, env1)
        → Written rest env1 env2
        → Written (target ∷ rest) env env2

  -- a first call of the list that did not succeed, with what it came to
  pub record Stopped (targets : List Target) (failed : Res (Unit {0})) (env env' : E) : Type 0 where
    pub before : List Target
    pub target : Target
    pub after : List Target
    pub reached : E
    pub splits : targets ≡ before ++ (target ∷ after)
    pub written : Written before env reached
    pub fails : call_for target reached ≡ (failed, env')

  -- a run of the loop, by what it came to
  abbrev LoopRun : List Target → E → Res (Unit {0}) × E → Type 0
  LoopRun targets env (ok u, env') = Written targets env env'
  LoopRun targets env (err e, env') = Stopped targets (err e) env env'
  LoopRun targets env (panicked m, env') = Stopped targets (panicked m) env env'

  Stopped-later :
      (target : Target) (rest : List Target) (failed : Res (Unit {0})) (env env1 env' : E)
      → call_for target env ≡ (ok tt, env1)
      → Stopped rest failed env1 env'
      → Stopped (target ∷ rest) failed env env'
  Stopped-later target rest failed env env1 env' called s = record {
    before = target ∷ s.before;
    target = s.target;
    after = s.after;
    reached = s.reached;
    splits = ap (target ∷◌) s.splits;
    written = Written.next called s.written;
    fails = s.fails;
  }

  Stopped-here :
      (target : Target) (rest : List Target) (failed : Res (Unit {0})) (env env' : E)
      → call_for target env ≡ (failed, env')
      → Stopped (target ∷ rest) failed env env'
  Stopped-here target rest failed env env' called = record {
    before = [];
    target = target;
    after = rest;
    reached = env;
    splits = refl;
    written = Written.nothing;
    fails = called;
  }

  later :
      (target : Target) (rest : List Target) (env env1 : E) (run : Res (Unit {0}) × E)
      → call_for target env ≡ (ok tt, env1)
      → LoopRun rest env1 run
      → LoopRun (target ∷ rest) env run
  later target rest env env1 (ok u, env') called run = Written.next called run
  later target rest env env1 (err e, env') called run =
      Stopped-later target rest (err e) env env1 env' called run
  later target rest env env1 (panicked m, env') called run =
      Stopped-later target rest (panicked m) env env1 env' called run

  inject_all_runs :
      (targets : List Target) (env : E)
      → LoopRun targets env (inject_all injector key_bytes metadata targets env)
  unfolding inject_all
  inject_all_runs [] env = Written.nothing
  inject_all_runs ((name, ns, key) ∷ rest) env =
      by_first (injector.inject key_bytes name ns key metadata env).0
        (injector.inject key_bytes name ns key metadata env).1 refl (inject_all_runs rest)
    where
      by_first :
          (r : Res (Unit {0})) (env1 : E)
          → injector.inject key_bytes name ns key metadata env ≡ (r, env1)
          → ((env2 : E) → LoopRun rest env2 (inject_all injector key_bytes metadata rest env2))
          → LoopRun
              ((name, ns, key) ∷ rest)
              env
              (continue r (λ _. inject_all injector key_bytes metadata rest) env1)
      by_first (ok u) env1 called runs =
          later (name, ns, key) rest env env1 (inject_all injector key_bytes metadata rest env1)
            called (runs env1)
      by_first (err e) env1 called runs = Stopped-here (name, ns, key) rest (err e) env env1 called
      by_first (panicked m) env1 called runs =
          Stopped-here (name, ns, key) rest (panicked m) env env1 called

module _ {E : Type 0} where
  -- What the whole method comes to.
  abbrev pub MultiRun :
      Genesis E StateTag.bootstrapping
      → SecretInjector E
      → Bytes
      → Option SecretMetadata
      → List Target
      → E
      → Res (Genesis E StateTag.active) × E
      → Type 0
  MultiRun g injector key_bytes metadata targets env (ok machine, env') =
      (written : E) × Written injector key_bytes metadata targets env written
      × (machine ≡ become StateTag.active g)
      × (env' ≡ emit_list g.audit (events_of targets) written)
  MultiRun g injector key_bytes metadata targets env (err e, env') =
      Stopped injector key_bytes metadata targets (err e) env env'
  MultiRun g injector key_bytes metadata targets env (panicked m, env') =
      Stopped injector key_bytes metadata targets (panicked m) env env'

  -- `inject_secrets_multi` on a machine that holds a key, with at least one target. Where it
  -- succeeds, it called the injector once for each target, in the order of the list, with exactly
  -- the bytes of the key, and every call succeeded; then it emitted one event for each target, in
  -- their order, of which only the last says that the key was zeroed, and it returned the active
  -- machine. Where it fails or panics, the targets before some target of the list were written like
  -- this, the call for that target came to the same error or panic, and nothing else was done
  -- outside: no call for a later target and no event.
  pub inject_secrets_multi_writes :
      (g : Genesis E StateTag.bootstrapping) (held : KeyMaterial) (injector : SecretInjector E)
      (target : Target) (targets : List Target) (metadata : Option SecretMetadata) (env : E)
      → MultiRun g injector
          (as_bytes held)
          metadata
          (target ∷ targets)
          env
          (inject_secrets_multi (holding g held) injector (target ∷ targets) metadata env)
  inject_secrets_multi_writes g held injector target targets metadata env =
      rw (inject_secrets_multi_calls g held injector target targets metadata env) (
        reported (inject_all injector (as_bytes held) metadata (target ∷ targets) env)
          (inject_all_runs injector (as_bytes held) metadata (target ∷ targets) env))
    where
      all : List Target
      all = target ∷ targets

      reported :
          (run : Res (Unit {0}) × E)
          → LoopRun injector (as_bytes held) metadata all env run
          → MultiRun g injector
              (as_bytes held)
              metadata
              all
              env
              (report g (emit_list g.audit (events_of all)) run)
      reported (ok u, env') run = (env', run, refl, refl)
      reported (err e, env') run = run
      reported (panicked m, env') run = run
