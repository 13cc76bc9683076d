-- ===== src/Ffi/Sound.antt =====
-- What the body of an entry point keeps to: the result that it boxes a machine for carries the
-- handle of that box, the machine is in a state that the lifecycle allows, a result without a box
-- carries a null handle, success goes with the error code 0 and is said only where the machine was
-- in the state that the entry point asks for and is in the one it leads to. One lemma for each kind
-- of step.
use genesis_operator.Prelude.{true, false, ◌≡◌, refl, ◌==◌, arith}
use genesis_operator.Errors.{GenesisError, error_code}
use genesis_operator.Errors.Codes.{error_code_positive}
use genesis_operator.Outcome.{Res, ok, err, panicked, Eff}
use genesis_operator.State.{StateTag}
use genesis_operator.Ffi.{
  GenesisHandle, GenesisResult, GenesisInner, success_result, state_tag, Parsed, parsed, refused,
}
use genesis_operator.Ffi.Moves.{Move, Moved}
use genesis_operator.Ffi.Flow.{
  Exit, with_handle, without_handle, Flow, next, return, unwinds, Body, pure, or_graft, attempt,
  ◌>>=◌, go_on, outcome, keeping, consumed,
}

-- The steps of the lifecycle that the C ABI offers.
pub data Leads : StateTag → StateTag → Type 0 where
  stays : {s : StateTag} → Leads s s
  initializes : Leads StateTag.uninitialized StateTag.initialized
  begins_bootstrap : Leads StateTag.initialized StateTag.bootstrapping
  injects : Leads StateTag.bootstrapping StateTag.active
  begins_rotation : Leads StateTag.active StateTag.rotating
  ends_rotation : Leads StateTag.rotating StateTag.active

abbrev pub Consistent : GenesisResult → Type 0
Consistent result = result.success ≡ (result.error_code == 0)

code_not_zero : (e : GenesisError) → false ≡ (error_code e == 0)
code_not_zero e = let positive = error_code_positive e in ground arith

-- what the result with a box says of it
abbrev pub Reports : Move → StateTag → StateTag → GenesisHandle → GenesisResult → Type 0
Reports move s s' handle result =
    (result.handle ≡ handle) × Consistent result × (result.success ≡ true → Moved move s s')

module _ {E : Type 0} (s : StateTag) (move : Move) where
  abbrev pub SoundExit : Exit E → Type 0
  SoundExit (with_handle inner f) =
      Leads s (state_tag inner)
      × ((handle : GenesisHandle) → Reports move s (state_tag inner) handle (f handle))
  SoundExit (without_handle result) =
      (result.handle.ptr ≡ 0) × Consistent result × (result.success ≡ false)

  abbrev pub SoundReturn : {A : Type 0} → Flow E A → Type 0
  SoundReturn (next a) = Unit {0}
  SoundReturn (return exit) = SoundExit exit
  SoundReturn (unwinds message) = Unit {0}

  abbrev pub SoundEnd : Flow E (Exit E) → Type 0
  SoundEnd (next exit) = SoundExit exit
  SoundEnd (return exit) = SoundExit exit
  SoundEnd (unwinds message) = Unit {0}

  -- a step whose early returns are sound, and a body that is
  abbrev pub SoundStep : {A : Type 0} → Body E A → Type 0
  SoundStep m = (env : E) → SoundReturn (m env).0

  abbrev pub SoundBody : Body E (Exit E) → Type 0
  SoundBody m = (env : E) → SoundEnd (m env).0

  pub then_sound :
      {A : Type 0} (m : Body E A) (k : A → Body E (Exit E))
      → SoundStep m
      → ((a : A) → SoundBody (k a))
      → SoundBody (m >>= k)
  unfolding ◌>>=◌
  then_sound {A = A} m k first rest env = by_flow (m env).0 (first env) (m env).1
    where
      by_flow : (flow : Flow E A) → SoundReturn flow → (env' : E) → SoundEnd (go_on flow k env').0
      by_flow (next a) h env' = rest a env'
      by_flow (return exit) h env' = h
      by_flow (unwinds message) h env' = tt

  pub step_sound :
      {A B : Type 0} (m : Body E A) (k : A → Body E B)
      → SoundStep m
      → ((a : A) → SoundStep (k a))
      → SoundStep (m >>= k)
  unfolding ◌>>=◌
  step_sound {A = A} m k first rest env = by_flow (m env).0 (first env) (m env).1
    where
      by_flow :
          (flow : Flow E A) → SoundReturn flow → (env' : E) → SoundReturn (go_on flow k env').0
      by_flow (next a) h env' = rest a env'
      by_flow (return exit) h env' = h
      by_flow (unwinds message) h env' = tt

  pub attempt_sound :
      {A : Type 0} (exit : GenesisError → Exit E) (m : Eff E A)
      → ((e : GenesisError) → SoundExit (exit e))
      → SoundStep (attempt exit m)
  unfolding attempt
  attempt_sound {A = A} exit m h env = by_result (m env).0
    where
      by_result : (r : Res A) → SoundReturn (outcome exit r)
      by_result (ok a) = tt
      by_result (err e) = h e
      by_result (panicked message) = tt

  pub keeping_sound :
      (inner : GenesisInner E)
      → Leads s (state_tag inner)
      → (e : GenesisError) → SoundExit (keeping inner e)
  keeping_sound inner leads e = (leads, λ handle. (refl, code_not_zero e, λ h. cc h))

  -- an exit that says success
  pub success_sound :
      (inner : GenesisInner E)
      → Leads s (state_tag inner)
      → Moved move s (state_tag inner)
      → SoundExit (with_handle inner success_result)
  success_sound inner leads moved = (leads, λ handle. (refl, refl, λ h. moved))

module _ (E : Type 0) (s : StateTag) (move : Move) where
  pub consumed_sound : (e : GenesisError) → SoundExit s move (consumed {E = E} e)
  consumed_sound e = (refl, code_not_zero e, refl)

-- the message is refused with one of the codes 1, 400, 500
abbrev pub Nonzero : {A : Type 0} → Parsed A → Type 0
Nonzero (parsed a) = Unit {0}
Nonzero (refused code message) = false ≡ (code == 0)

module _ {E : Type 0} (s : StateTag) (move : Move) where
  pub or_graft_sound :
      {A : Type 0} (inner : GenesisInner E) (r : Parsed A)
      → Leads s (state_tag inner)
      → Nonzero r
      → SoundStep s move (or_graft inner r)
  unfolding or_graft
  or_graft_sound inner (parsed a) leads h env = tt
  or_graft_sound inner (refused code message) leads h env = (leads, λ handle. (refl, h, λ e. cc e))

  -- the end of a body
  pub end_sound : (exit : Exit E) → SoundExit s move exit → SoundBody s move (pure exit)
  unfolding pure
  end_sound exit h env = h
