-- ===== src/Ffi/Lifecycle.antt =====
-- Each entry point of the C ABI keeps to the lifecycle.
use genesis_operator.Prelude.{Bool, true, false, String, Option, none, some, Bytes, refl}
use genesis_operator.Outcome.{Res, ok, err, panicked}
use genesis_operator.K8s.Cluster.{UreqSecretInjector, in_cluster}
use genesis_operator.State.{StateTag}
use genesis_operator.Ffi.{
  CStr, GenesisInner, bootstrapping, active, rotating, state_tag, error_with_handle, parse_c_str,
}
use genesis_operator.Ffi.Flow.{Exit, Body, or_graft, consumed}
use genesis_operator.Ffi.Calls.{
  Host, Out, genesis_init, genesis_load, genesis_verify, genesis_begin_bootstrap, genesis_status,
  genesis_begin_rotation, genesis_abort_rotation,
}
use genesis_operator.Ffi.Injecting.{
  without_cluster, injector_or, injector_if, injector_for, genesis_inject_secret,
  genesis_inject_secrets, genesis_complete_rotation,
}
use genesis_operator.Ffi.Moves.{
  Move, init_move, verify_move, bootstrap_move, inject_move, status_move, rotation_move,
  active_again_move,
}
use genesis_operator.Ffi.Sound.{
  stays, injects, ends_rotation, SoundBody, SoundStep, SoundReturn, then_sound, attempt_sound,
  consumed_sound, or_graft_sound, end_sound,
}
use genesis_operator.Ffi.Bodies.{
  parse_c_str-Nonzero, or_refuse-Nonzero, wrong_state_sound, provider_for_sound, printed_exit_sound,
  genesis_init_sound, genesis_load_sound, genesis_verify_sound, genesis_begin_bootstrap_sound,
  genesis_status_sound, genesis_begin_rotation_sound, genesis_abort_rotation_sound,
}

-- The entry points that take a handle, with their arguments.
pub data Call (E : Type 0) : Type 0 where
  init : CStr → Call E
  load : CStr → Option Bytes → Call E
  verify : CStr → Out E → Call E
  begin_bootstrap : CStr → Call E
  inject_secret : CStr → CStr → CStr → CStr → CStr → Call E
  inject_secrets : CStr → Call E
  status : Out E → Call E
  begin_rotation abort_rotation : Call E
  complete_rotation : CStr → CStr → CStr → CStr → CStr → CStr → Call E

-- The state that the documentation of each entry point asks for, and the one it leads to.
unfoldable pub move_of : {E : Type 0} → Call E → Move
move_of (init _) = init_move
move_of (load _ _) = init_move
move_of (verify _ _) = verify_move
move_of (begin_bootstrap _) = bootstrap_move
move_of (inject_secret _ _ _ _ _) = inject_move
move_of (inject_secrets _) = inject_move
move_of (status _) = status_move
move_of begin_rotation = rotation_move
move_of abort_rotation = active_again_move
move_of (complete_rotation _ _ _ _ _ _) = active_again_move

module _ {E : Type 0} (host : Host E) where
  text_sound :
      (move : Move) (inner : GenesisInner E) (s : CStr)
      → SoundStep (state_tag inner) move (or_graft inner (parse_c_str s))
  text_sound move inner s =
      or_graft_sound (state_tag inner) move inner (parse_c_str s) stays (parse_c_str-Nonzero s)

  without_cluster_sound :
      (move : Move) (mock : Bool) (inner : GenesisInner E) (message what : String)
      → SoundStep
          (state_tag inner)
          move
          (without_cluster host mock inner message (error_with_handle 400 what))
  without_cluster_sound move true inner message what env = tt
  without_cluster_sound move false inner message what env =
      (stays, λ handle. (refl, refl, λ h. cc h))

  injector_for_sound :
      (move : Move) (inner : GenesisInner E)
      → SoundStep (state_tag inner) move (injector_for host inner)
  unfolding injector_for injector_if
  injector_for_sound move inner env = by_var (host.cloud.vars.var "KUBERNETES_SERVICE_HOST" env) env
    where
      by_cluster :
          (run : Res (UreqSecretInjector host.tls) × E)
          → SoundReturn (state_tag inner) move (injector_or host host.cloud.mock_build inner run).0
      by_cluster (ok injector, env') = tt
      by_cluster (err e, env') = without_cluster_sound move host.cloud.mock_build inner _ _ env'
      by_cluster (panicked m, env') = tt

      by_var : (v : Option String) → SoundStep (state_tag inner) move (injector_if host inner v)
      by_var none env' = without_cluster_sound move host.cloud.mock_build inner _ _ env'
      by_var (some v) env' = by_cluster (in_cluster host.tls env')

  genesis_inject_secret_sound :
      (a1 a2 a3 a4 a5 : CStr) (inner : GenesisInner E)
      → SoundBody (state_tag inner) inject_move (genesis_inject_secret host a1 a2 a3 a4 a5 inner)
  unfolding genesis_inject_secret
  genesis_inject_secret_sound a1 a2 a3 a4 a5 (bootstrapping b) =
      then_sound StateTag.bootstrapping inject_move _ _
        (text_sound inject_move (bootstrapping b) a1)
        λ name.
          then_sound StateTag.bootstrapping inject_move _ _
            (text_sound inject_move (bootstrapping b) a2)
            λ ns.
              then_sound StateTag.bootstrapping inject_move _ _
                (text_sound inject_move (bootstrapping b) a3)
                λ key.
                  then_sound StateTag.bootstrapping inject_move _ _
                    (injector_for_sound inject_move (bootstrapping b))
                    λ injector.
                      then_sound StateTag.bootstrapping inject_move _ _
                        (attempt_sound StateTag.bootstrapping inject_move consumed _
                          (consumed_sound E StateTag.bootstrapping inject_move))
                        λ config.
                          then_sound StateTag.bootstrapping inject_move _ _
                            (attempt_sound StateTag.bootstrapping inject_move consumed _
                              (consumed_sound E StateTag.bootstrapping inject_move))
                            λ machine.
                              end_sound StateTag.bootstrapping inject_move _
                                (injects, λ handle. (refl, refl, λ h. (refl, refl)))
  genesis_inject_secret_sound a1 a2 a3 a4 a5 other = wrong_state_sound host inject_move _ other

  genesis_inject_secrets_sound :
      (json : CStr) (inner : GenesisInner E)
      → SoundBody (state_tag inner) inject_move (genesis_inject_secrets host json inner)
  unfolding genesis_inject_secrets
  genesis_inject_secrets_sound json (bootstrapping b) =
      then_sound StateTag.bootstrapping inject_move _ _
        (text_sound inject_move (bootstrapping b) json)
        λ text.
          then_sound StateTag.bootstrapping inject_move _ _
            (or_graft_sound StateTag.bootstrapping inject_move (bootstrapping b) _ stays
              (or_refuse-Nonzero 400 "invalid targets JSON: " (host.serde.read_targets text) refl))
            λ targets.
              then_sound StateTag.bootstrapping inject_move _ _
                (injector_for_sound inject_move (bootstrapping b))
                λ injector.
                  then_sound StateTag.bootstrapping inject_move _ _
                    (attempt_sound StateTag.bootstrapping inject_move consumed _
                      (consumed_sound E StateTag.bootstrapping inject_move))
                    λ config.
                      then_sound StateTag.bootstrapping inject_move _ _
                        (attempt_sound StateTag.bootstrapping inject_move consumed _
                          (consumed_sound E StateTag.bootstrapping inject_move))
                        λ machine.
                          end_sound StateTag.bootstrapping inject_move _
                            (injects, λ handle. (refl, refl, λ h. (refl, refl)))
  genesis_inject_secrets_sound json other = wrong_state_sound host inject_move _ other

  genesis_complete_rotation_sound :
      (a1 a2 a3 a4 a5 a6 : CStr) (inner : GenesisInner E)
      → SoundBody
          (state_tag inner)
          active_again_move
          (genesis_complete_rotation host a1 a2 a3 a4 a5 a6 inner)
  unfolding genesis_complete_rotation
  genesis_complete_rotation_sound a1 a2 a3 a4 a5 a6 (rotating g) =
      then_sound StateTag.rotating active_again_move _ _
        (provider_for_sound host active_again_move (rotating g) a1)
        λ provider.
          then_sound StateTag.rotating active_again_move _ _
            (text_sound active_again_move (rotating g) a2)
            λ name.
              then_sound StateTag.rotating active_again_move _ _
                (text_sound active_again_move (rotating g) a3)
                λ ns.
                  then_sound StateTag.rotating active_again_move _ _
                    (text_sound active_again_move (rotating g) a4)
                    λ key.
                      then_sound StateTag.rotating active_again_move _ _
                        (injector_for_sound active_again_move (rotating g))
                        λ injector.
                          then_sound StateTag.rotating active_again_move _ _
                            (attempt_sound StateTag.rotating active_again_move consumed _
                              (consumed_sound E StateTag.rotating active_again_move))
                            λ made. end_sound StateTag.rotating active_again_move _ (
                              printed_exit_sound host StateTag.rotating active_again_move
                                (active made.0) _ ends_rotation (refl, refl))
  genesis_complete_rotation_sound a1 a2 a3 a4 a5 a6 other =
      wrong_state_sound host active_again_move _ other

  -- the body of each call
  unfoldable pub perform : Call E → GenesisInner E → Body E (Exit E)
  perform (init config) = genesis_init host config
  perform (load key envelope) = genesis_load host key envelope
  perform (verify config out) = genesis_verify host config out
  perform (begin_bootstrap config) = genesis_begin_bootstrap host config
  perform (inject_secret a1 a2 a3 a4 a5) = genesis_inject_secret host a1 a2 a3 a4 a5
  perform (inject_secrets json) = genesis_inject_secrets host json
  perform (status out) = genesis_status host out
  perform begin_rotation = genesis_begin_rotation host
  perform abort_rotation = genesis_abort_rotation host
  perform (complete_rotation a1 a2 a3 a4 a5 a6) = genesis_complete_rotation host a1 a2 a3 a4 a5 a6

  pub perform_sound :
      (call : Call E) (inner : GenesisInner E)
      → SoundBody (state_tag inner) (move_of call) (perform call inner)
  unfolding perform move_of
  perform_sound (init config) inner = genesis_init_sound host config inner
  perform_sound (load key envelope) inner = genesis_load_sound host key envelope inner
  perform_sound (verify config out) inner = genesis_verify_sound host config out inner
  perform_sound (begin_bootstrap config) inner = genesis_begin_bootstrap_sound host config inner
  perform_sound (inject_secret a1 a2 a3 a4 a5) inner =
      genesis_inject_secret_sound a1 a2 a3 a4 a5 inner
  perform_sound (inject_secrets json) inner = genesis_inject_secrets_sound json inner
  perform_sound (status out) inner = genesis_status_sound host out inner
  perform_sound begin_rotation inner = genesis_begin_rotation_sound host inner
  perform_sound abort_rotation inner = genesis_abort_rotation_sound host inner
  perform_sound (complete_rotation a1 a2 a3 a4 a5 a6) inner =
      genesis_complete_rotation_sound a1 a2 a3 a4 a5 a6 inner
