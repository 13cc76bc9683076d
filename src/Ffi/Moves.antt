-- ===== src/Ffi/Moves.antt =====
-- The moves of the lifecycle that the entry points of the C ABI are documented to make.
use genesis_operator.Prelude.{◌≡◌}
use genesis_operator.State.{StateTag}

-- The state that an entry point asks for, and the one that its success leaves the machine in.
pub record Move : Type 0 where
  pub from : StateTag
  pub to : StateTag

-- what success says of the machine, which was in the first state and is in the second
abbrev pub Moved : Move → StateTag → StateTag → Type 0
Moved move s s' = (s ≡ move.from) × (s' ≡ move.to)

-- what each entry point asks for and leads to
abbrev pub init_move : Move
init_move = record { from = StateTag.uninitialized; to = StateTag.initialized }

abbrev pub verify_move : Move
verify_move = record { from = StateTag.initialized; to = StateTag.initialized }

abbrev pub bootstrap_move : Move
bootstrap_move = record { from = StateTag.initialized; to = StateTag.bootstrapping }

abbrev pub inject_move : Move
inject_move = record { from = StateTag.bootstrapping; to = StateTag.active }

abbrev pub status_move : Move
status_move = record { from = StateTag.active; to = StateTag.active }

abbrev pub rotation_move : Move
rotation_move = record { from = StateTag.active; to = StateTag.rotating }

abbrev pub active_again_move : Move
active_again_move = record { from = StateTag.rotating; to = StateTag.active }
