-- ===== src/Ffi/Refusal.antt =====
-- The run-time check of the state: each entry point asks for one state.
use genesis_operator.Prelude.{String, ◌≡◌, ◌≢◌, refl}
use genesis_operator.State.{StateTag}
use genesis_operator.Ffi.{
  GenesisInner, uninitialized, initialized, bootstrapping, active, rotating, state_tag,
  error_with_handle,
}
use genesis_operator.Ffi.Flow.{with_handle, next, pure, wrong_state}
use genesis_operator.Ffi.Calls.{
  Host, genesis_init, genesis_load, genesis_verify, genesis_begin_bootstrap, genesis_status,
  genesis_begin_rotation, genesis_abort_rotation,
}
use genesis_operator.Ffi.Injecting.{
  genesis_inject_secret, genesis_inject_secrets, genesis_complete_rotation,
}
use genesis_operator.Ffi.Lifecycle.{Call, move_of, perform}

-- The state that the documentation of each entry point asks for.
unfoldable pub required : {E : Type 0} → Call E → StateTag
required call = (move_of call).from

module _ {E : Type 0} (host : Host E) where
  abbrev pub Refused : Call E → GenesisInner E → E → Type 0
  Refused call inner env =
      (message : String) × (perform host call inner env
        ≡ (next (with_handle inner (error_with_handle 102 message)), env))

  -- A call on a machine in a state other than the one it requires: error code 102, the
  -- same machine goes back behind the handle of the result, and nothing outside is touched.
  pub perform_refuses :
      (call : Call E) (inner : GenesisInner E) (env : E)
      → state_tag inner ≢ required call
      → Refused call inner env
  unfolding required move_of perform genesis_init genesis_load genesis_verify
      genesis_begin_bootstrap genesis_status genesis_begin_rotation genesis_abort_rotation
      genesis_inject_secret genesis_inject_secrets genesis_complete_rotation wrong_state pure
  perform_refuses (Call.init _) (uninitialized g) env h = absurd (h refl)
  perform_refuses (Call.init _) _ env h = (_, refl)
  perform_refuses (Call.load _ _) (uninitialized g) env h = absurd (h refl)
  perform_refuses (Call.load _ _) _ env h = (_, refl)
  perform_refuses (Call.verify _ _) (initialized g) env h = absurd (h refl)
  perform_refuses (Call.verify _ _) _ env h = (_, refl)
  perform_refuses (Call.begin_bootstrap _) (initialized g) env h = absurd (h refl)
  perform_refuses (Call.begin_bootstrap _) _ env h = (_, refl)
  perform_refuses (Call.inject_secret _ _ _ _ _) (bootstrapping b) env h = absurd (h refl)
  perform_refuses (Call.inject_secret _ _ _ _ _) _ env h = (_, refl)
  perform_refuses (Call.inject_secrets _) (bootstrapping b) env h = absurd (h refl)
  perform_refuses (Call.inject_secrets _) _ env h = (_, refl)
  perform_refuses (Call.status _) (active g) env h = absurd (h refl)
  perform_refuses (Call.status _) _ env h = (_, refl)
  perform_refuses Call.begin_rotation (active g) env h = absurd (h refl)
  perform_refuses Call.begin_rotation _ env h = (_, refl)
  perform_refuses Call.abort_rotation (rotating g) env h = absurd (h refl)
  perform_refuses Call.abort_rotation _ env h = (_, refl)
  perform_refuses (Call.complete_rotation _ _ _ _ _ _) (rotating g) env h = absurd (h refl)
  perform_refuses (Call.complete_rotation _ _ _ _ _ _) _ env h = (_, refl)
