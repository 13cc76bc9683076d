-- ===== src/Kms/Environment.antt =====
-- The environment of the process, as the providers and the C ABI read it.
use genesis_operator.Prelude.{String, Option, none, some, Bool, true, false}

pub record Environment (E : Type 0) : Type 0 where
  pub var : String → E → Option String
  pub exists : String → E → Bool

abbrev pub is_some {ℓ} : {A : Type ℓ} → Option A → Bool
is_some none = false
is_some (some a) = true
