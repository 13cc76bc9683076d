-- ===== src/Ffi/Bodies.antt =====
-- The bodies of the entry points that do not write to the cluster keep to the lifecycle: the proofs
-- follow their steps.
use genesis_operator.Prelude.{
  ℕ, String, Bool, true, false, Option, none, some, Bytes, is_empty, if◌then◌else◌, ◌≡◌, refl, ◌==◌,
}
use genesis_operator.Outcome.{Ext, good, bad}
use genesis_operator.State.{StateTag}
use genesis_operator.Ffi.{
  CStr, GenesisInner, uninitialized, initialized, active, rotating, state_tag, parse_c_str,
  parse_kms_config, or_refuse, Parsed, parsed, refused, and_then,
}
use genesis_operator.Ffi.Flow.{Exit, Body, keeping, consumed, wrong_state}
use genesis_operator.Ffi.Calls.{
  Host, Out, loaded, write_out, provider_for, printed_exit, genesis_init, genesis_load,
  genesis_verify, genesis_begin_bootstrap, genesis_status, genesis_begin_rotation,
  genesis_abort_rotation,
}
use genesis_operator.Ffi.Moves.{
  init_move, verify_move, bootstrap_move, status_move, rotation_move, active_again_move, Move,
  Moved,
}
use genesis_operator.Ffi.Sound.{
  Leads, stays, initializes, begins_bootstrap, begins_rotation, ends_rotation, Nonzero, SoundExit,
  SoundBody, SoundStep, then_sound, step_sound, attempt_sound, keeping_sound, consumed_sound,
  or_graft_sound, end_sound,
}

pub parse_c_str-Nonzero : (s : CStr) → Nonzero (parse_c_str s)
unfolding parse_c_str
parse_c_str-Nonzero none = refl
parse_c_str-Nonzero (some (good s)) = tt
parse_c_str-Nonzero (some (bad e)) = refl

pub or_refuse-Nonzero :
    {A : Type 0} (code : ℕ) (what : String) (r : Ext A)
    → false ≡ (code == 0)
    → Nonzero (or_refuse code what r)
or_refuse-Nonzero code what (good a) h = tt
or_refuse-Nonzero code what (bad e) h = h

pub and_then-Nonzero :
    {A B : Type 0} (r : Parsed A) (f : A → Parsed B)
    → Nonzero r
    → ((a : A) → Nonzero (f a))
    → Nonzero (and_then r f)
and_then-Nonzero (parsed a) f h k = k a
and_then-Nonzero (refused code message) f h k = h

module _ {E : Type 0} (host : Host E) where
  pub wrong_state_sound :
      (move : Move) (message : String) (other : GenesisInner E)
      → SoundBody (state_tag other) move (wrong_state message other)
  unfolding wrong_state
  wrong_state_sound move message other env = (stays, λ handle. (refl, refl, λ h. cc h))

  pub provider_for_sound :
      (move : Move) (inner : GenesisInner E) (kms_config_json : CStr)
      → SoundStep (state_tag inner) move (provider_for host inner kms_config_json)
  unfolding provider_for parse_kms_config
  provider_for_sound move inner kms_config_json =
      step_sound (state_tag inner) move _ _
        (or_graft_sound (state_tag inner) move inner _ stays (config_nonzero kms_config_json))
        (λ config.
          attempt_sound (state_tag inner) move (keeping inner) _
            (keeping_sound (state_tag inner) move inner stays))
    where
      config_nonzero : (s : CStr) → Nonzero (parse_kms_config host.serde.read_kms_config s)
      config_nonzero s = and_then-Nonzero (parse_c_str s) _ (parse_c_str-Nonzero s) (λ text.
          or_refuse-Nonzero 500 "invalid KMS config JSON: " (host.serde.read_kms_config text) refl)

  pub printed_exit_sound :
      (s : StateTag) (move : Move) (inner : GenesisInner E) (printed : Ext String)
      → Leads s (state_tag inner)
      → Moved move s (state_tag inner)
      → SoundExit s move (printed_exit host inner printed)
  printed_exit_sound s move inner (good json) leads moved =
      (leads, λ handle. (refl, refl, λ h. moved))
  printed_exit_sound s move inner (bad e) leads moved = (leads, λ handle. (refl, refl, λ h. cc h))

  pub genesis_init_sound :
      (config : CStr) (inner : GenesisInner E)
      → SoundBody (state_tag inner) init_move (genesis_init host config inner)
  unfolding genesis_init
  genesis_init_sound config (uninitialized g) =
      then_sound StateTag.uninitialized init_move _ _
        (provider_for_sound init_move (uninitialized g) config)
        λ provider.
          then_sound StateTag.uninitialized init_move _ _
            (attempt_sound StateTag.uninitialized init_move consumed _
              (consumed_sound E StateTag.uninitialized init_move))
            λ made. end_sound StateTag.uninitialized init_move _ (
              printed_exit_sound StateTag.uninitialized init_move (initialized made.0) _ initializes
                (refl, refl))
  genesis_init_sound config other = wrong_state_sound init_move _ other

  pub genesis_load_sound :
      (key : CStr) (envelope : Option Bytes) (inner : GenesisInner E)
      → SoundBody (state_tag inner) init_move (genesis_load host key envelope inner)
  unfolding genesis_load loaded
  genesis_load_sound key envelope (uninitialized g) =
      then_sound StateTag.uninitialized init_move _ _
        (or_graft_sound StateTag.uninitialized init_move (uninitialized g) _ stays
          (parse_c_str-Nonzero key))
        λ pk. loaded_sound pk envelope
    where
      choice_sound :
          (b : Bool) (m1 m2 : Body E (Exit E))
          → SoundBody StateTag.uninitialized init_move m1
          → SoundBody StateTag.uninitialized init_move m2
          → SoundBody StateTag.uninitialized init_move (if b then m1 else m2)
      choice_sound true m1 m2 h1 h2 = h1
      choice_sound false m1 m2 h1 h2 = h2

      loaded_sound :
          (pk : String) (e : Option Bytes)
          → SoundBody StateTag.uninitialized init_move (loaded host g pk e)
      loaded_sound pk none =
          end_sound StateTag.uninitialized init_move _ (stays, λ handle. (refl, refl, λ h. cc h))
      loaded_sound pk (some bytes) =
          choice_sound (is_empty bytes) _ _
            (end_sound StateTag.uninitialized init_move _
              (stays, λ handle. (refl, refl, λ h. cc h)))
            (end_sound StateTag.uninitialized init_move _
              (initializes, λ handle. (refl, refl, λ h. (refl, refl))))
  genesis_load_sound key envelope other = wrong_state_sound init_move _ other

  pub write_out_sound :
      (s : StateTag) (move : Move) (out : Out E) (json : Ext String)
      → SoundStep s move (write_out host out json)
  unfolding write_out
  write_out_sound s move none json env = tt
  write_out_sound s move (some write) json env = tt

  pub genesis_verify_sound :
      (config : CStr) (out : Out E) (inner : GenesisInner E)
      → SoundBody (state_tag inner) verify_move (genesis_verify host config out inner)
  unfolding genesis_verify
  genesis_verify_sound config out (initialized g) =
      then_sound StateTag.initialized verify_move _ _
        (provider_for_sound verify_move (initialized g) config)
        λ provider.
          then_sound StateTag.initialized verify_move _ _
            (attempt_sound StateTag.initialized verify_move (keeping (initialized g)) _
              (keeping_sound StateTag.initialized verify_move (initialized g) stays))
            λ result.
              then_sound StateTag.initialized verify_move _ _
                (write_out_sound StateTag.initialized verify_move out _)
                λ u.
                  end_sound StateTag.initialized verify_move _
                    (stays, λ handle. (refl, refl, λ h. (refl, refl)))
  genesis_verify_sound config out other = wrong_state_sound verify_move _ other

  pub genesis_begin_bootstrap_sound :
      (config : CStr) (inner : GenesisInner E)
      → SoundBody (state_tag inner) bootstrap_move (genesis_begin_bootstrap host config inner)
  unfolding genesis_begin_bootstrap
  genesis_begin_bootstrap_sound config (initialized g) =
      then_sound StateTag.initialized bootstrap_move _ _
        (provider_for_sound bootstrap_move (initialized g) config)
        λ provider.
          then_sound StateTag.initialized bootstrap_move _ _
            (attempt_sound StateTag.initialized bootstrap_move consumed _
              (consumed_sound E StateTag.initialized bootstrap_move))
            λ b.
              end_sound StateTag.initialized bootstrap_move _
                (begins_bootstrap, λ handle. (refl, refl, λ h. (refl, refl)))
  genesis_begin_bootstrap_sound config other = wrong_state_sound bootstrap_move _ other

  pub genesis_status_sound :
      (out : Out E) (inner : GenesisInner E)
      → SoundBody (state_tag inner) status_move (genesis_status host out inner)
  unfolding genesis_status
  genesis_status_sound out (active g) =
      then_sound StateTag.active status_move _ _ (write_out_sound StateTag.active status_move out _)
        λ u.
          end_sound StateTag.active status_move _ (stays, λ handle. (refl, refl, λ h. (refl, refl)))
  genesis_status_sound out other = wrong_state_sound status_move _ other

  pub genesis_begin_rotation_sound :
      (inner : GenesisInner E)
      → SoundBody (state_tag inner) rotation_move (genesis_begin_rotation host inner)
  unfolding genesis_begin_rotation
  genesis_begin_rotation_sound (active g) =
      then_sound StateTag.active rotation_move _ _
        (attempt_sound StateTag.active rotation_move consumed _
          (consumed_sound E StateTag.active rotation_move))
        λ r.
          end_sound StateTag.active rotation_move _
            (begins_rotation, λ handle. (refl, refl, λ h. (refl, refl)))
  genesis_begin_rotation_sound other = wrong_state_sound rotation_move _ other

  pub genesis_abort_rotation_sound :
      (inner : GenesisInner E)
      → SoundBody (state_tag inner) active_again_move (genesis_abort_rotation host inner)
  unfolding genesis_abort_rotation
  genesis_abort_rotation_sound (rotating g) =
      then_sound StateTag.rotating active_again_move _ _
        (attempt_sound StateTag.rotating active_again_move consumed _
          (consumed_sound E StateTag.rotating active_again_move))
        λ a.
          end_sound StateTag.rotating active_again_move _
            (ends_rotation, λ handle. (refl, refl, λ h. (refl, refl)))
  genesis_abort_rotation_sound other = wrong_state_sound active_again_move _ other
