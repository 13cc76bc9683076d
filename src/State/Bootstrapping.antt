-- ===== src/State/Bootstrapping.antt =====
-- `GenesisBootstrapping` of genesis-core/src/state.rs: the state that holds decrypted key material,
-- with its `Drop`. A method that consumes `self` and ends early drops it, which `or_drop` writes
-- out.
use genesis_operator.Prelude.{
  ℕ, suc, ◌-◌, ◌==◌, String, Option, none, some, List, [], ◌∷◌, Bytes, true, length,
}
use genesis_operator.Errors.{no_envelope, invalid_input}
use genesis_operator.KeyMaterial
use genesis_operator.KeyMaterial.{KeyMaterial}
use genesis_operator.Outcome.{Res, ok, err, panicked, Eff, ok_or}
use genesis_operator.Outcome.Effect.{pure, fail, panic, lift, act, ◌>>=◌, ◌>>◌}
use genesis_operator.Audit.{AuditSink, AuditEvent, emit}
use genesis_operator.K8s.Metadata.{SecretMetadata}
use genesis_operator.K8s.Injector.{SecretInjector}
use genesis_operator.State.{StateTag, Genesis, GenesisConfig, GenesisBootstrapping, become}

-- (name, namespace, key)
abbrev pub Target : Type 0
Target = String × String × String

module _ {E : Type 0} where
  abbrev emit_dropped : Option (Genesis E StateTag.bootstrapping) → E → E
  emit_dropped none env = env
  emit_dropped (some g) env = g.audit.emit_event AuditEvent.bootstrapping_dropped env

  abbrev drop_holding : Option KeyMaterial → Option (Genesis E StateTag.bootstrapping) → E → E
  drop_holding none inner env = env
  drop_holding (some key) inner env = emit_dropped inner env

  -- `Drop::drop`
  unfoldable pub drop : GenesisBootstrapping E → E → E
  drop b env = drop_holding b.key_material b.inner env

  abbrev dropped : {A : Type 0} → GenesisBootstrapping E → Res A → E → Res A × E
  dropped b (ok a) env = (ok a, env)
  dropped b (err e) env = (err e, drop b env)
  dropped b (panicked m) env = (panicked m, drop b env)

  -- A method that owns the machine: if it does not succeed, what is left of the machine is dropped.
  abbrev or_drop : {A : Type 0} → GenesisBootstrapping E → Eff E A → Eff E A
  or_drop b m env = dropped b (m env).0 (m env).1

  abbrev expect :
      String → Option (Genesis E StateTag.bootstrapping) → Eff E (Genesis E StateTag.bootstrapping)
  expect message none = panic message
  expect message (some g) = pure g

  abbrev without_key : GenesisBootstrapping E → GenesisBootstrapping E
  without_key b = record b { key_material = none }

  unfoldable pub inject_secret_with_metadata :
      GenesisBootstrapping E
      → SecretInjector E
      → String
      → String
      → String
      → Option SecretMetadata
      → Eff E (Genesis E StateTag.active)
  inject_secret_with_metadata b injector name ns key metadata = or_drop (without_key b) (do
    key_material ← lift (ok_or b.key_material no_envelope)
    injector.inject (KeyMaterial.as_bytes key_material) name ns key metadata
    inner ← expect "inner consumed before inject_secret" b.inner
    emit inner.audit (AuditEvent.inject_secret name ns true)
    pure (become StateTag.active inner))

  unfoldable pub inject_secret :
      GenesisBootstrapping E
      → SecretInjector E
      → String
      → String
      → String
      → Eff E (Genesis E StateTag.active)
  inject_secret b injector name ns key = inject_secret_with_metadata b injector name ns key none

  -- the first loop of `inject_secrets_multi`
  unfoldable pub inject_all :
      SecretInjector E → Bytes → Option SecretMetadata → List Target → Eff E (Unit {0})
  inject_all injector key_bytes metadata [] = pure tt
  inject_all injector key_bytes metadata ((name, ns, key) ∷ rest) =
      let later = inject_all injector key_bytes metadata rest in
      injector.inject key_bytes name ns key metadata >> later

  -- the second loop: `total` is `targets.len()`, `i` the index
  unfoldable pub emit_all : AuditSink E → ℕ → ℕ → List Target → E → E
  emit_all audit total i [] env = env
  emit_all audit total i ((name, ns, _) ∷ rest) env =
      emit_all audit total (suc i) rest
        (audit.emit_event (AuditEvent.inject_secret name ns (i == total - 1)) env)

  unfoldable pub inject_secrets_multi :
      GenesisBootstrapping E
      → SecretInjector E
      → List Target
      → Option SecretMetadata
      → Eff E (Genesis E StateTag.active)
  inject_secrets_multi b injector [] metadata =
      or_drop b (fail (invalid_input "inject_secrets_multi requires at least one target"))
  inject_secrets_multi b injector (target ∷ targets) metadata =
      let all = target ∷ targets in
      or_drop (without_key b) (do
        key_material ← lift (ok_or b.key_material no_envelope)
        inject_all injector (KeyMaterial.as_bytes key_material) metadata all
        inner ← expect "inner consumed before inject_secrets_multi" b.inner
        act (λ env. (tt, emit_all inner.audit (length all) 0 all env))
        pure (become StateTag.active inner))

  unfoldable pub config_ref : GenesisBootstrapping E → Res GenesisConfig
  config_ref b = elim b.inner [
    | none ↦ panicked "inner consumed before config_ref"
    | some g ↦ ok g.config
  ]

  unfoldable pub emit_audit : GenesisBootstrapping E → AuditEvent → E → E
  emit_audit b event env = elim b.inner [ none ↦ env | some g ↦ g.audit.emit_event event env ]

  unfoldable pub abort : GenesisBootstrapping E → Eff E (Genesis E StateTag.initialized)
  abort b = or_drop (without_key b) (do
    inner ← expect "inner consumed before abort" b.inner
    emit inner.audit AuditEvent.abort_bootstrap
    pure (become StateTag.initialized inner))
