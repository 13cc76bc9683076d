-- ===== src/Outcome.antt =====
-- How the Rust code ends, and how it acts on what is outside of it. `Result<A, GenesisError>` is
-- `Res A`, with one more case for a panic. A method that calls a key service, a cluster, the random
-- generator or an audit sink is an `Eff E A`, where `E` is the state of all that is outside.
pub mod Pure
pub mod Effect
pub mod Steps
use genesis_operator.Prelude.{String, Option, none, some}
use genesis_operator.Errors.{GenesisError}

pub data Res {ℓ} (A : Type ℓ) : Type ℓ where
  ok : A → Res A
  err : GenesisError → Res A
  panicked : String → Res A

-- What a third-party call returns: a value, or an error with its `Display` text.
pub data Ext {ℓ} (A : Type ℓ) : Type ℓ where
  good : A → Ext A
  bad : String → Ext A

abbrev pub Eff {ℓ} : Type ℓ → Type ℓ → Type ℓ
Eff E A = E → Res A × E

module _ {ℓ} {A : Type ℓ} where
  -- `.ok_or(e)?`
  abbrev pub ok_or : Option A → GenesisError → Res A
  ok_or none e = err e
  ok_or (some a) e = ok a

  -- `.map_err(f)?`
  abbrev pub map_err : Ext A → (String → GenesisError) → Res A
  map_err (good a) f = ok a
  map_err (bad text) f = err (f text)

  -- `.ok()`
  abbrev pub to_option : Ext A → Option A
  to_option (good a) = some a
  to_option (bad text) = none

-- The result with another value.
abbrev pub res_map {ℓ κ} : {A : Type ℓ} {B : Type κ} → (A → B) → Res A → Res B
res_map f (ok a) = ok (f a)
res_map f (err e) = err e
res_map f (panicked m) = panicked m
