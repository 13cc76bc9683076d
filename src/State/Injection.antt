-- ===== src/State/Injection.antt =====
-- What the injection of decrypted key material does: which bytes reach the cluster, which events
-- the audit sees, and what a failure leaves.
use genesis_operator.Prelude.{
  ℕ, suc, ◌+◌, ◌-◌, ◌==◌, String, true, false, Option, none, some, List, [], ◌∷◌, Bytes, ◌≡◌, refl,
  ap, ◌∙◌, length, arith,
}
use genesis_operator.KeyMaterial
use genesis_operator.KeyMaterial.{KeyMaterial, as_bytes}
use genesis_operator.Outcome.{Res, ok, err, panicked}
use genesis_operator.Outcome.Effect.{◌>>=◌}
use genesis_operator.Audit.{AuditEvent, AuditSink}
use genesis_operator.Kms.{KmsProvider}
use genesis_operator.K8s.Metadata.{SecretMetadata}
use genesis_operator.K8s.Injector.{SecretInjector}
use genesis_operator.State.{StateTag, Genesis, GenesisBootstrapping, become}
use genesis_operator.State.Operations.{begin_bootstrap}
use genesis_operator.State.Bootstrapping.{
  Target, drop, inject_secret_with_metadata, inject_all, emit_all, inject_secrets_multi,
}

-- the events of a finished injection: only the last one says that the key was zeroed
unfoldable pub events_of : List Target → List AuditEvent
events_of [] = []
events_of ((name, ns, _) ∷ []) = AuditEvent.inject_secret name ns true ∷ []
events_of ((name, ns, _) ∷ target ∷ rest) =
    AuditEvent.inject_secret name ns false ∷ events_of (target ∷ rest)

module _ {E : Type 0} where
  -- the machine that `begin_bootstrap` returns
  abbrev pub holding : Genesis E StateTag.bootstrapping → KeyMaterial → GenesisBootstrapping E
  holding g key = record { inner = some g; key_material = some key }

  -- what a run of an injection comes to, from the run of the injector and the events
  abbrev pub report :
      Genesis E StateTag.bootstrapping
      → (E → E)
      → Res (Unit {0}) × E
      → Res (Genesis E StateTag.active) × E
  report g events (ok u, env) = (ok (become StateTag.active g), events env)
  report g events (err e, env) = (err e, env)
  report g events (panicked m, env) = (panicked m, env)

  -- `inject_secret_with_metadata` on a machine that holds a key calls the injector once, with
  -- exactly the bytes of the key and with its own arguments. It succeeds exactly where the injector
  -- does, and then gives the active machine and emits one event, which says that the key was
  -- zeroed; where the injector fails, it returns that error and emits nothing.
  pub inject_secret_calls :
      (g : Genesis E StateTag.bootstrapping) (key_bytes : KeyMaterial) (injector : SecretInjector E)
      (name ns key : String) (metadata : Option SecretMetadata) (env : E)
      → inject_secret_with_metadata (holding g key_bytes) injector name ns key metadata env
        ≡ report g
            (g.audit.emit_event (AuditEvent.inject_secret name ns true))
            (injector.inject (as_bytes key_bytes) name ns key metadata env)
  unfolding inject_secret_with_metadata drop
  inject_secret_calls g key_bytes injector name ns key metadata env = by_result _ refl
    where
      by_result :
          (r : Res (Unit {0}) × E)
          → injector.inject (as_bytes key_bytes) name ns key metadata env ≡ r
          → inject_secret_with_metadata (holding g key_bytes) injector name ns key metadata env
            ≡ report g (g.audit.emit_event (AuditEvent.inject_secret name ns true)) r
      by_result (ok u, env') h = rw h
      by_result (err e, env') h = rw h
      by_result (panicked m, env') h = rw h

  unfoldable pub emit_list : AuditSink E → List AuditEvent → E → E
  emit_list audit [] env = env
  emit_list audit (event ∷ rest) env = emit_list audit rest (audit.emit_event event env)

  emit_all-events_of :
      (audit : AuditSink E) (total i : ℕ) (targets : List Target) (env : E)
      → total ≡ i + length targets
      → emit_all audit total i targets env ≡ emit_list audit (events_of targets) env
  unfolding emit_all events_of emit_list
  emit_all-events_of audit total i [] env h = refl
  emit_all-events_of audit total i ((name, ns, key) ∷ []) env h =
      let last : (i == total - 1) ≡ true = ground arith in rw (last, emit_all)
  emit_all-events_of audit total i ((name, ns, key) ∷ target ∷ rest) env h =
      let more : (i == total - 1) ≡ false = ground arith in
      let fact =
        emit_all-events_of audit total (suc i) (target ∷ rest)
          (audit.emit_event (AuditEvent.inject_secret name ns false) env) (omega arith) in
      ap
        (λ z.
          emit_all audit total (suc i) (target ∷ rest)
            (audit.emit_event (AuditEvent.inject_secret name ns z) env))
        more
      ∙ fact

  -- The run of `inject_secrets_multi` from that of its first loop: the events come after it, where
  -- it succeeded.
  pub inject_secrets_multi_calls :
      (g : Genesis E StateTag.bootstrapping) (key_bytes : KeyMaterial) (injector : SecretInjector E)
      (target : Target) (targets : List Target) (metadata : Option SecretMetadata) (env : E)
      → inject_secrets_multi (holding g key_bytes) injector (target ∷ targets) metadata env
        ≡ report g
            (emit_list g.audit (events_of (target ∷ targets)))
            (inject_all injector (as_bytes key_bytes) metadata (target ∷ targets) env)
  unfolding inject_secrets_multi drop
  inject_secrets_multi_calls g key_bytes injector target targets metadata env = by_result _ refl
    where
      all : List Target
      all = target ∷ targets

      by_result :
          (r : Res (Unit {0}) × E)
          → inject_all injector (as_bytes key_bytes) metadata all env ≡ r
          → inject_secrets_multi (holding g key_bytes) injector all metadata env
            ≡ report g (emit_list g.audit (events_of all)) r
      by_result (ok u, env') h =
          rw (h, emit_all-events_of g.audit (length all) 0 all env' (omega arith))
      by_result (err e, env') h = rw h
      by_result (panicked m, env') h = rw h

  -- `begin_bootstrap` and then `inject_secret_with_metadata`: where the key service decrypts the
  -- stored envelope, the injector is called with exactly the decrypted bytes, after the event that
  -- says that a key is held, and the whole comes to what that call comes to.
  pub inject-begin_bootstrap :
      (g : Genesis E StateTag.initialized) (kms : KmsProvider E) (injector : SecretInjector E)
      (name ns key : String) (metadata : Option SecretMetadata) (envelope private_bytes : Bytes)
      (env env1 : E)
      → g.config.envelope_ciphertext ≡ some envelope
      → kms.decrypt envelope env ≡ (ok private_bytes, env1)
      → (begin_bootstrap g kms >>= λ b. inject_secret_with_metadata b injector name ns key metadata)
          env
        ≡ report
            (become StateTag.bootstrapping g)
            (g.audit.emit_event (AuditEvent.inject_secret name ns true))
            (injector.inject private_bytes name ns key metadata
              (g.audit.emit_event (AuditEvent.begin_bootstrap true) env1))
  unfolding begin_bootstrap
  inject-begin_bootstrap g kms injector name ns key metadata envelope private_bytes env env1
        has_envelope unwrapped =
      let b = become StateTag.bootstrapping g in
      let begun : begin_bootstrap g kms env ≡ (
        ok (holding b (KeyMaterial.new private_bytes)),
        g.audit.emit_event (AuditEvent.begin_bootstrap true) env1,
      ) =
        rw (has_envelope, unwrapped) in
      rw begun (
        inject_secret_calls b (KeyMaterial.new private_bytes) injector name ns key metadata
          (g.audit.emit_event (AuditEvent.begin_bootstrap true) env1))

  -- On a machine whose inner instance is there, with or without a key, the injection into one
  -- target and the injection of one secret are the same: result, effects and order.
  pub inject_secrets_multi-inject_secret :
      (b : GenesisBootstrapping E) (g : Genesis E StateTag.bootstrapping)
      (injector : SecretInjector E) (name ns key : String) (metadata : Option SecretMetadata)
      (env : E)
      → b.inner ≡ some g
      → inject_secrets_multi b injector ((name, ns, key) ∷ []) metadata env
        ≡ inject_secret_with_metadata b injector name ns key metadata env
  unfolding inject_secrets_multi inject_secret_with_metadata inject_all emit_all drop
  inject_secrets_multi-inject_secret b g injector name ns key metadata env has_inner =
      by_key b.key_material refl
    where
      by_result :
          (held : KeyMaterial) (r : Res (Unit {0}) × E)
          → b.key_material ≡ some held
          → injector.inject (as_bytes held) name ns key metadata env ≡ r
          → inject_secrets_multi b injector ((name, ns, key) ∷ []) metadata env
            ≡ inject_secret_with_metadata b injector name ns key metadata env
      by_result held (ok u, env') has_key h = rw (has_key, has_inner, h)
      by_result held (err e, env') has_key h = rw (has_key, has_inner, h)
      by_result held (panicked m, env') has_key h = rw (has_key, has_inner, h)

      by_key :
          (k : Option KeyMaterial)
          → b.key_material ≡ k
          → inject_secrets_multi b injector ((name, ns, key) ∷ []) metadata env
            ≡ inject_secret_with_metadata b injector name ns key metadata env
      by_key none has_key = rw has_key
      by_key (some held) has_key = by_result held _ has_key refl
