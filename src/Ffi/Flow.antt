-- ===== src/Ffi/Flow.antt =====
-- The control flow of an entry point after `take_inner`: a step goes on with a value, returns
-- early, or panics. A returned result either gets the handle of a new box, `inner_to_handle`, or
-- carries none, where the machine was consumed.
use genesis_operator.Prelude.{String}
use genesis_operator.Errors.{GenesisError, error_code, to_string}
use genesis_operator.Outcome.{Res, ok, err, panicked, Eff}
use genesis_operator.Ffi.{
  GenesisHandle, GenesisResult, GenesisInner, Parsed, parsed, refused, error_with_handle,
  error_result, graft_handle,
}

pub data Exit (E : Type 0) : Type 0 where
  with_handle : GenesisInner E → (GenesisHandle → GenesisResult) → Exit E
  without_handle : GenesisResult → Exit E

pub data Flow (E A : Type 0) : Type 0 where
  next : A → Flow E A
  return : Exit E → Flow E A
  unwinds : String → Flow E A

abbrev pub Body : Type 0 → Type 0 → Type 0
Body E A = E → Flow E A × E

module _ {E : Type 0} where
  module _ {A : Type 0} where
    unfoldable pub pure : A → Body E A
    pure a env = (next a, env)

    -- `match r { Ok(a) => a, Err(r) => { let handle = inner_to_handle(inner); return
    -- graft_handle(r, handle); } }`
    unfoldable pub or_graft : GenesisInner E → Parsed A → Body E A
    or_graft inner (parsed a) env = (next a, env)
    or_graft inner (refused code message) env =
        (return (with_handle inner (graft_handle (error_result code message))), env)

    abbrev pub outcome : (GenesisError → Exit E) → Res A → Flow E A
    outcome exit (ok a) = next a
    outcome exit (err e) = return (exit e)
    outcome exit (panicked message) = unwinds message

    -- `match m { Ok(a) => a, Err(e) => return exit(e) }`
    unfoldable pub attempt : (GenesisError → Exit E) → Eff E A → Body E A
    attempt exit m env = (outcome exit (m env).0, (m env).1)

  abbrev pub go_on : {A B : Type 0} → Flow E A → (A → Body E B) → Body E B
  go_on (next a) k env = k a env
  go_on (return exit) k env = (return exit, env)
  go_on (unwinds message) k env = (unwinds message, env)

  infixl 5 ◌>>=◌
  unfoldable pub ◌>>=◌ : {A B : Type 0} → Body E A → (A → Body E B) → Body E B
  ◌>>=◌ m k env = go_on (m env).0 k (m env).1

  -- the error of a call that left the machine with the caller
  abbrev pub keeping : GenesisInner E → GenesisError → Exit E
  keeping inner e = with_handle inner (error_with_handle (error_code e) (to_string e))

  -- the error of a call that consumed the machine
  abbrev pub consumed : GenesisError → Exit E
  consumed e = without_handle (error_result (error_code e) (to_string e))

  unfoldable pub wrong_state : String → GenesisInner E → Body E (Exit E)
  unfolding pure
  wrong_state message other = pure (with_handle other (error_with_handle 102 message))
