-- ===== src/Audit.antt =====
-- genesis-core/src/audit.rs: the events, the trait `AuditSink` and its two implementations.
use genesis_operator.Prelude.{ℕ, String, Bool, true, false, Option, concat, [], ◌∷◌, decimal}
use genesis_operator.Outcome.{Ext, good, bad, Eff}
use genesis_operator.Outcome.Effect.{act}

pub data AuditEvent : Type 0 where
  init : String → Option String → AuditEvent
  verify : Bool → AuditEvent
  seal unseal : ℕ → AuditEvent
  begin_bootstrap : Bool → AuditEvent
  inject_secret : String → String → Bool → AuditEvent
  abort_bootstrap bootstrapping_dropped reconcile_noop : AuditEvent
  reconcile_reinjected : String → String → AuditEvent
  begin_rotation : AuditEvent
  complete_rotation : String → AuditEvent
  abort_rotation recover_from_degraded : AuditEvent
  warning : String → AuditEvent

unfoldable pub key_material_present : AuditEvent → Bool
key_material_present (begin_bootstrap true) = true
key_material_present (seal _) = true
key_material_present (unseal _) = true
key_material_present (inject_secret _ _ _) = true
key_material_present begin_rotation = true
key_material_present (complete_rotation _) = true
key_material_present _ = false

-- A sink acts on what is outside, and returns nothing.
pub record AuditSink (E : Type 0) : Type 0 where
  pub emit_event : AuditEvent → E → E

pub record AuditRecord : Type 0 where
  pub timestamp : String
  pub event : AuditEvent

-- `clock` gives the seconds since the epoch, 0 where the system has none.
abbrev pub new_record : {E : Type 0} → (E → ℕ) → AuditEvent → E → AuditRecord
new_record clock event env = record {
  timestamp = concat (decimal (clock env) ∷ "Z" ∷ []);
  event = event;
}

-- `FfiAuditSink`: the callback of the host receives the text of the record.
unfoldable pub ffi_audit_sink :
    {E : Type 0} → (E → ℕ) → (AuditRecord → Ext String) → (String → E → E) → AuditSink E
ffi_audit_sink clock print_record callback = record {
  emit_event = λ event env. elim (print_record (new_record clock event env)) [
    | good json ↦ callback json env
    | bad e ↦ env
  ];
}

abbrev pub null_audit_sink : {E : Type 0} → AuditSink E
null_audit_sink = record { emit_event = λ event env. env }

-- `self.audit.emit(event)` as a step.
abbrev pub emit : {E : Type 0} → AuditSink E → AuditEvent → Eff E (Unit {0})
emit sink event = act (λ env. (tt, sink.emit_event event env))
