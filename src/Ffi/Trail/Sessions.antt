-- ===== src/Ffi/Trail/Sessions.antt =====
-- The audit trail of a session of the C ABI (ffi.rs): what the log says of the machine that the
-- last handle owns.
use genesis_operator.Prelude.{
  ℕ, suc, ◌==◌, String, true, false, Option, none, some, List, [], ◌∷◌, ◌≡◌, refl, sym, ◌∙◌, subst,
  ◌⊎◌, inl, inr, arith,
}
use genesis_operator.Outcome.{Ext}
use genesis_operator.Audit.{AuditEvent, AuditRecord, AuditSink}
use genesis_operator.State.{StateTag, GenesisConfig}
use genesis_operator.State.Operations
use genesis_operator.Ffi.{
  null_handle, and_then, parse_c_str, parse_json, Parsed, parsed, refused, Ptr, CStr, GenesisHandle,
  GenesisResult, GenesisInner, state_tag,
}
use genesis_operator.Ffi.Flow.{Exit, with_handle, without_handle, Flow, next, return, unwinds}
use genesis_operator.Ffi.Runtime.{
  settle, inner_to_handle, new_machine, audit_of, put, Runtime, genesis_new, after_body, enter,
}
use genesis_operator.Ffi.Calls.{Host}
use genesis_operator.Ffi.Sound.{SoundEnd}
use genesis_operator.Ffi.Moves.{Move}
use genesis_operator.Ffi.Lifecycle.{Call, move_of, perform, perform_sound}
use genesis_operator.Ffi.Boxes.{WellFormed, Owns, put-same, put-other, settled}
use genesis_operator.Ffi.Sole.{handle_of, run_calls}
use genesis_operator.Ffi.Trail.{told, Recorder, Tells}
use genesis_operator.Ffi.Trail.Rules.{Traced, TracedEnd}
use genesis_operator.Ffi.Trail.Calls.{ApartFrom, AllApart}
use genesis_operator.Ffi.Trail.Injecting.{perform-TracedBody}

module _ {E : Type 0} (host : Host E) (log : E → List AuditEvent) (sink : AuditSink E)
    (recorder : Recorder host log sink) where
  -- the handle is null, or owns a box with a machine whose state the log tells
  abbrev Trailed : GenesisHandle × Runtime E → Type 0
  Trailed (handle, rt) =
      WellFormed rt
      × ((handle.ptr ≡ 0)
          ⊎ ((inner : GenesisInner E) × Owns rt handle inner
              × Traced log sink inner (told (log rt.env))))

  boxed_handle :
      (rt : Runtime E) (p : Ptr) (inner : GenesisInner E) (f : GenesisHandle → GenesisResult)
      (env : E)
      → (f (record { ptr = rt.fresh; state = state_tag inner })).handle
        ≡ record { ptr = rt.fresh; state = state_tag inner }
      → Owns
          (record rt {
            env = env;
            heap = put (put rt.heap p none) rt.fresh (some inner);
            fresh = suc rt.fresh;
          })
          (f (record { ptr = rt.fresh; state = state_tag inner })).handle
          inner
  boxed_handle rt p inner f env e =
      subst
        (λ z.
          Owns
            (record rt {
              env = env;
              heap = put (put rt.heap p none) rt.fresh (some inner);
              fresh = suc rt.fresh;
            })
            z inner)
        (sym e) (put-same (put rt.heap p none) rt.fresh (some inner), refl)

  settled-Trailed :
      (s : StateTag) (move : Move) (rt : Runtime E) (p : Ptr) (flow : Flow E (Exit E)) (env : E)
      → SoundEnd s move flow
      → TracedEnd log sink (flow, env)
      → ((after_body rt p (flow, env)).0.handle.ptr ≡ 0)
        ⊎ ((inner : GenesisInner E) × Owns
              (after_body rt p (flow, env)).1
              (after_body rt p (flow, env)).0.handle
              inner
            × Traced log sink inner (told (log (after_body rt p (flow, env)).1.env)))
  unfolding settle inner_to_handle
  settled-Trailed s move rt p (next (with_handle inner f)) env sound traced =
      inr (inner, boxed_handle rt p inner f env (sound.1 _).0, traced)
  settled-Trailed s move rt p (return (with_handle inner f)) env sound traced =
      inr (inner, boxed_handle rt p inner f env (sound.1 _).0, traced)
  settled-Trailed s move rt p (next (without_handle result)) env sound traced = inl sound.0
  settled-Trailed s move rt p (return (without_handle result)) env sound traced = inl sound.0
  settled-Trailed s move rt p (unwinds message) env sound traced = inl refl

  enter-Trailed :
      (call : Call E) (handle : GenesisHandle) (rt : Runtime E)
      → ApartFrom log call
      → Trailed (handle, rt)
      → (after : GenesisHandle × Runtime E) × (handle_of (enter (perform host call) handle rt)
          ≡ some after)
        × Trailed after
  unfolding enter
  enter-Trailed call handle rt apart (well, inl null) =
      let is_null : (handle.ptr == 0) ≡ true = ground arith in
      ((null_handle, rt), rw is_null, (well, inl refl))
  enter-Trailed call handle rt apart (well, inr (inner, owns, traced)) =
      let not_null : (handle.ptr == 0) ≡ false = ground (arith, well, owns) in
      let run = perform host call inner rt.env in
      let sound = perform_sound host call inner rt.env in
      let fact =
        settled (state_tag inner) (move_of call) rt handle.ptr inner run.0 run.1 well owns.0
          sound in
      let trace =
        (perform-TracedBody host log sink recorder call inner _ apart traced).run rt.env refl in
      (
        ((after_body rt handle.ptr run).0.handle, (after_body rt handle.ptr run).1),
        rw (not_null, owns.0),
        (
          fact.0.3,
          settled-Trailed (state_tag inner) (move_of call) rt handle.ptr run.0 run.1 sound trace,
        ),
      )

  run_calls-Trailed :
      (calls : List (Call E)) (handle : GenesisHandle) (rt : Runtime E)
      → AllApart log calls
      → Trailed (handle, rt)
      → (after : GenesisHandle × Runtime E) × (run_calls host calls (handle, rt) ≡ some after)
        × Trailed after
  unfolding run_calls AllApart
  run_calls-Trailed [] handle rt apart trailed = ((handle, rt), refl, trailed)
  run_calls-Trailed (call ∷ rest) handle rt (apart, aparts) trailed =
      let (made, ran, trailed') = enter-Trailed call handle rt apart trailed in
      let (last, ran', trailed'') = run_calls-Trailed rest made.0 made.1 aparts trailed' in
      (last, rw (ran, ran'), trailed'')

-- the machine that the last handle owns, if it owns one, is in the state that the log tells
abbrev pub TellsLast : {E : Type 0} → (E → List AuditEvent) → GenesisHandle × Runtime E → Type 0
TellsLast {E = E} log (handle, rt) =
    (handle.ptr ≡ 0)
    ⊎ ((inner : GenesisInner E) × Owns rt handle inner
        × Tells (state_tag inner) (told (log rt.env)))

module _ {E : Type 0} (host : Host E) (log : E → List AuditEvent) (clock : E → ℕ)
    (print_record : AuditRecord → Ext String) (audit_cb : Option (String → E → E))
    (recorder : Recorder host log (audit_of clock print_record audit_cb)) where
  genesis_new-Trailed :
      (config_json : CStr) (rt : Runtime E)
      → WellFormed rt
      → told (log rt.env) ≡ none
      → Trailed host log (audit_of clock print_record audit_cb) recorder (
        (genesis_new clock print_record host.serde.read_config config_json audit_cb rt).0.handle,
        (genesis_new clock print_record host.serde.read_config config_json audit_cb rt).1,
      )
  unfolding genesis_new settle inner_to_handle
  genesis_new-Trailed config_json rt (fresh, above, null) untold = by_config (
      and_then (parse_c_str config_json)
        (parse_json 500 "invalid config JSON: " host.serde.read_config))
    where
      by_config :
          (config : Parsed GenesisConfig)
          → Trailed host log (audit_of clock print_record audit_cb) recorder (
            (settle (new_machine (audit_of clock print_record audit_cb) config) rt).0.handle,
            (settle (new_machine (audit_of clock print_record audit_cb) config) rt).1,
          )
      by_config (refused code message) = ((fresh, above, null), inl refl)
      by_config (parsed config) =
          let inner =
            GenesisInner.uninitialized
              (Operations.new config (audit_of clock print_record audit_cb)) in
          (
            (
              omega arith,
              (λ q higher.
                  put-other rt.heap rt.fresh q (some inner) (ground arith) ∙ above q (omega arith)),
              put-other rt.heap rt.fresh 0 (some inner) (ground arith) ∙ null,
            ),
            inr (inner, (put-same rt.heap rt.fresh (some inner), refl), (refl, untold)),
          )

  -- The audit log tells the state. The callback of the host writes each event to a log, which told
  -- nothing before; nothing else outside writes to it. After `genesis_new` and any calls that each
  -- use the handle of the result before, whether they succeed or fail, the last handle is null or
  -- owns a machine in the state that the last event of the log which names a state has led to.
  -- `load` writes no event: a machine that was loaded is initialized where the log tells nothing.
  pub run_calls-Tells :
      (config_json : CStr) (calls : List (Call E)) (rt : Runtime E)
      → WellFormed rt
      → told (log rt.env) ≡ none
      → AllApart log calls
      → (after : GenesisHandle × Runtime E) × (run_calls host calls (
        (genesis_new clock print_record host.serde.read_config config_json audit_cb rt).0.handle,
        (genesis_new clock print_record host.serde.read_config config_json audit_cb rt).1,
      )
          ≡ some after)
        × TellsLast log after
  run_calls-Tells config_json calls rt well untold apart =
      let (last, ran, (_, trailed)) =
        run_calls-Trailed host log (audit_of clock print_record audit_cb) recorder calls _ _ apart
          (genesis_new-Trailed config_json rt well untold) in
      (last, ran, forget last trailed)
    where
      forget :
          (last : GenesisHandle × Runtime E)
          → (last.0.ptr ≡ 0)
            ⊎ ((inner : GenesisInner E) × Owns last.1 last.0 inner
                × Traced log (audit_of clock print_record audit_cb) inner (told (log last.1.env)))
          → TellsLast log last
      forget last (inl null) = inl null
      forget last (inr (inner, owns, traced)) = inr (inner, owns, traced.1)
