-- ===== src/Ffi/Aborted.antt =====
-- A rotation that is begun, and one that is aborted then: calls of the C ABI (ffi.rs).
use genesis_operator.Prelude.{some, [], ◌∷◌, List, ◌≡◌, refl, ap, ◌∙◌}
use genesis_operator.Audit.{AuditEvent}
use genesis_operator.State.{StateTag, Genesis, become}
use genesis_operator.State.Operations.{begin_rotation, abort_rotation}
use genesis_operator.Ffi.{GenesisHandle, rotating, active}
use genesis_operator.Ffi.Flow
use genesis_operator.Ffi.Flow.{pure, attempt}
use genesis_operator.Ffi.Runtime.{Runtime, enter}
use genesis_operator.Ffi.Calls.{Host, genesis_begin_rotation, genesis_abort_rotation}
use genesis_operator.Ffi.Lifecycle.{Call, perform}
use genesis_operator.Ffi.Boxes.{WellFormed, Owns}
use genesis_operator.Ffi.Protocol.{success_of, run_successes}
use genesis_operator.Ffi.Progress.{two_run, body-Succeeds}

module _ {E : Type 0} (host : Host E) where
  pub begin_done :
      (g : Genesis E StateTag.active) (handle : GenesisHandle) (rt : Runtime E)
      → WellFormed rt
      → Owns rt handle (active g)
      → (after : GenesisHandle × Runtime E) × (success_of
            (enter (perform host Call.begin_rotation) handle rt)
          ≡ some after)
        × WellFormed after.1
        × Owns after.1 after.0 (rotating (become StateTag.rotating g))
        × (after.1.env ≡ g.audit.emit_event AuditEvent.begin_rotation rt.env)
  unfolding perform genesis_begin_rotation Flow.◌>>=◌ attempt pure begin_rotation
  begin_done g handle rt well owns =
      let (h1, rt1, first, well1, owns1, same) =
        body-Succeeds host Call.begin_rotation handle rt (active g)
          (rotating (become StateTag.rotating g)) _
          (g.audit.emit_event AuditEvent.begin_rotation rt.env) well owns refl
          (λ h. (refl, refl)) in
      ((h1, rt1), first, well1, owns1, same)

  abort_done :
      (g : Genesis E StateTag.rotating) (handle : GenesisHandle) (rt : Runtime E)
      → WellFormed rt
      → Owns rt handle (rotating g)
      → (after : GenesisHandle × Runtime E) × (success_of
            (enter (perform host Call.abort_rotation) handle rt)
          ≡ some after)
        × WellFormed after.1
        × Owns after.1 after.0 (active (become StateTag.active g))
        × (after.1.env ≡ g.audit.emit_event AuditEvent.abort_rotation rt.env)
  unfolding perform genesis_abort_rotation Flow.◌>>=◌ attempt pure abort_rotation
  abort_done g handle rt well owns =
      let (h1, rt1, first, well1, owns1, same) =
        body-Succeeds host Call.abort_rotation handle rt (rotating g)
          (active (become StateTag.active g)) _
          (g.audit.emit_event AuditEvent.abort_rotation rt.env) well owns refl
          (λ h. (refl, refl)) in
      ((h1, rt1), first, well1, owns1, same)

  abbrev change_of_mind : List (Call E)
  change_of_mind = Call.begin_rotation ∷ Call.abort_rotation ∷ []

  -- the calls end with a handle that owns this machine, and their whole effect outside is the two
  -- events
  abbrev pub Restored : Genesis E StateTag.active → GenesisHandle → Runtime E → Type 0
  Restored g handle rt =
      (after : GenesisHandle × Runtime E) × (run_successes host change_of_mind (handle, rt)
        ≡ some after)
      × WellFormed after.1
      × Owns after.1 after.0 (active g)
      × (after.1.env
          ≡ g.audit.emit_event AuditEvent.abort_rotation
              (g.audit.emit_event AuditEvent.begin_rotation rt.env))

  -- A rotation that is begun and aborted through the C ABI, from a handle that owns an active
  -- machine: `genesis_begin_rotation` and `genesis_abort_rotation` report success one after the
  -- other, the last handle owns the machine that the first one owned, with the same configuration,
  -- keys and sink, the boxes stay in order, and the whole effect outside is the two events.
  pub abort-Restored :
      (g : Genesis E StateTag.active) (handle : GenesisHandle) (rt : Runtime E)
      → WellFormed rt
      → Owns rt handle (active g)
      → Restored g handle rt
  abort-Restored g handle rt well owns =
      let (s1, first, well1, owns1, env1) = begin_done g handle rt well owns in
      let (s2, second, well2, owns2, env2) =
        abort_done (become StateTag.rotating g) s1.0 s1.1 well1 owns1 in
      (
        s2,
        two_run host Call.begin_rotation Call.abort_rotation (handle, rt) s1 s2 first second,
        well2,
        owns2,
        env2 ∙ ap (g.audit.emit_event AuditEvent.abort_rotation) env1,
      )
