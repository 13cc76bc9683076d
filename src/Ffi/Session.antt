-- ===== src/Ffi/Session.antt =====
-- A session of the host: `genesis_new`, then calls that each use the handle of the result before,
-- then `genesis_free`.
use genesis_operator.Prelude.{
  ℕ, ◌≤◌, ◌==◌, String, true, false, Option, none, some, List, ◌≡◌, ◌≢◌, refl, ◌∙◌, ◌⊎◌, inl, inr,
  arith, subst, Bool-cases,
}
use genesis_operator.Outcome.{Ext}
use genesis_operator.Audit.{AuditRecord}
use genesis_operator.State.{StateTag, GenesisConfig}
use genesis_operator.State.Operations
use genesis_operator.Ffi.{
  and_so, and_then, parse_c_str, parse_json, Parsed, parsed, refused, Ptr, CStr, GenesisHandle,
  GenesisInner, state_tag,
}
use genesis_operator.Ffi.Runtime.{
  settle, inner_to_handle, new_machine, audit_of, dropped_inner, put, Runtime, genesis_new,
  genesis_free,
}
use genesis_operator.Ffi.Calls.{Host}
use genesis_operator.Ffi.Lifecycle.{Call}
use genesis_operator.Ffi.Boxes.{put-same, put-other, Owns}
use genesis_operator.Ffi.Sole.{Sole, run_calls, run_calls-Sole}

module _ {E : Type 0} (host : Host E) where
  -- `genesis_free` of a handle that owns the only box, or of null
  free_leaves_nothing :
      (handle : GenesisHandle) (rt : Runtime E)
      → Sole (handle, rt)
      → (rt' : Runtime E) × (genesis_free handle rt ≡ some rt') × ((q : Ptr) → rt'.heap q ≡ none)
  unfolding genesis_free
  free_leaves_nothing handle rt (well, inl null, others) =
      let is_null : (handle.ptr == 0) ≡ true = ground arith in
      (rt, rw is_null, λ q. all_empty q (Bool-cases (q == 0)))
    where
      all_empty : (q : Ptr) → ((q == 0) ≡ true) ⊎ ((q == 0) ≡ false) → rt.heap q ≡ none
      all_empty q (inl same) =
          let e : 0 ≡ q = ground arith in subst (λ z. rt.heap z ≡ none) e well.2
      all_empty q (inr other) = others q (λ x. ground arith)
  free_leaves_nothing handle rt (well, inr (inner, owns, live), others) =
      let not_null : (handle.ptr == 0) ≡ false = ground (arith, well, owns) in
      (
        record rt { env = dropped_inner inner rt.env; heap = put rt.heap handle.ptr none },
        rw (not_null, owns.0),
        λ q. emptied q (Bool-cases (q == handle.ptr)),
      )
    where
      emptied :
          (q : Ptr)
          → ((q == handle.ptr) ≡ true) ⊎ ((q == handle.ptr) ≡ false)
          → put rt.heap handle.ptr none q ≡ none
      emptied q (inl same) = rw same
      emptied q (inr other) = rw other (others q (λ x. ground arith))

  -- `genesis_new`, the calls, `genesis_free`
  unfoldable pub session :
      (E → ℕ)
      → (AuditRecord → Ext String)
      → CStr
      → Option (String → E → E)
      → List (Call E)
      → Runtime E
      → Option (Runtime E)
  session clock print_record config_json audit_cb calls rt =
      let made = genesis_new clock print_record host.serde.read_config config_json audit_cb rt in
      and_so (run_calls host calls (made.0.handle, made.1)) (λ last. genesis_free last.0 last.1)

  genesis_new-Sole :
      (clock : E → ℕ) (print_record : AuditRecord → Ext String) (config_json : CStr)
      (audit_cb : Option (String → E → E)) (rt : Runtime E)
      → 1 ≤ rt.fresh
      → ((q : Ptr) → rt.heap q ≡ none)
      → Sole (
        (genesis_new clock print_record host.serde.read_config config_json audit_cb rt).0.handle,
        (genesis_new clock print_record host.serde.read_config config_json audit_cb rt).1,
      )
  unfolding genesis_new settle inner_to_handle
  genesis_new-Sole clock print_record config_json audit_cb rt fresh empty = by_config (
      and_then (parse_c_str config_json)
        (parse_json 500 "invalid config JSON: " host.serde.read_config))
    where
      by_config :
          (config : Parsed GenesisConfig)
          → Sole (
            (settle (new_machine (audit_of clock print_record audit_cb) config) rt).0.handle,
            (settle (new_machine (audit_of clock print_record audit_cb) config) rt).1,
          )
      by_config (refused code message) =
          ((fresh, (λ q _. empty q), empty 0), inl refl, λ q _. empty q)
      by_config (parsed config) =
          let inner =
            GenesisInner.uninitialized
              (Operations.new config (audit_of clock print_record audit_cb)) in
          let elsewhere : (q : Ptr) → q ≢ rt.fresh → put rt.heap rt.fresh (some inner) q ≡ none =
            λ q differ. put-other rt.heap rt.fresh q (some inner) differ ∙ empty q in
          (
            (omega arith, (λ q above. elsewhere q (ground arith)), elsewhere 0 (ground arith)),
            inr (inner, (put-same rt.heap rt.fresh (some inner), refl), λ e. cc e),
            elsewhere,
          )

  -- A session that starts without a box: `genesis_new`, any list of calls that each use the handle
  -- of the result before, and `genesis_free`. It runs through with no undefined behaviour and no
  -- box is left, whatever the arguments and the answers of the outside are.
  pub session_leaks_nothing :
      (clock : E → ℕ) (print_record : AuditRecord → Ext String) (config_json : CStr)
      (audit_cb : Option (String → E → E)) (calls : List (Call E)) (rt : Runtime E)
      → 1 ≤ rt.fresh
      → ((q : Ptr) → rt.heap q ≡ none)
      → (rt' : Runtime E) × (session clock print_record config_json audit_cb calls rt ≡ some rt')
        × ((q : Ptr) → rt'.heap q ≡ none)
  unfolding session
  session_leaks_nothing clock print_record config_json audit_cb calls rt fresh empty =
      let made = genesis_new clock print_record host.serde.read_config config_json audit_cb rt in
      let (last, ran, sole) =
        run_calls-Sole host calls made.0.handle made.1
          (genesis_new-Sole clock print_record config_json audit_cb rt fresh empty) in
      let (rt', freed, nothing) = free_leaves_nothing last.0 last.1 sole in
      (rt', rw (ran, freed), nothing)

  -- After `genesis_new` in a runtime without a box, no list of calls that each use the handle of
  -- the result before reaches the state `Degraded`: where the last handle is not null, it owns a
  -- box with a machine in another state, which is the state that the handle shows.
  pub never_degraded :
      (clock : E → ℕ) (print_record : AuditRecord → Ext String) (config_json : CStr)
      (audit_cb : Option (String → E → E)) (calls : List (Call E)) (rt : Runtime E)
      → 1 ≤ rt.fresh
      → ((q : Ptr) → rt.heap q ≡ none)
      → (after : GenesisHandle × Runtime E) × (run_calls host calls (
        (genesis_new clock print_record host.serde.read_config config_json audit_cb rt).0.handle,
        (genesis_new clock print_record host.serde.read_config config_json audit_cb rt).1,
      )
          ≡ some after)
        × ((after.0.ptr ≡ 0)
            ⊎ ((inner : GenesisInner E) × Owns after.1 after.0 inner
                × (state_tag inner ≢ StateTag.degraded)))
  never_degraded clock print_record config_json audit_cb calls rt fresh empty =
      let (last, ran, sole) =
        run_calls-Sole host calls _ _
          (genesis_new-Sole clock print_record config_json audit_cb rt fresh empty) in
      (last, ran, sole.1)
