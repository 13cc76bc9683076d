-- ===== src/Outcome/Effect.antt =====
-- Chains of steps that may fail and that act on the outside. What was done before a failure stays
-- done, so the state comes back beside the error too.
use genesis_operator.Prelude.{String}
use genesis_operator.Errors.{GenesisError}
use genesis_operator.Outcome.{Res, ok, err, panicked, Ext, Eff, map_err}

module _ {ℓ} {E A : Type ℓ} where
  abbrev pub pure : A → Eff E A
  pure a env = (ok a, env)

  abbrev pub fail : GenesisError → Eff E A
  fail e env = (err e, env)

  abbrev pub panic : String → Eff E A
  panic m env = (panicked m, env)

  abbrev pub lift : Res A → Eff E A
  lift r env = (r, env)

  -- A call of the outside whose error is mapped.
  abbrev pub call : (E → Ext A × E) → (String → GenesisError) → Eff E A
  call c f env = (map_err (c env).0 f, (c env).1)

  -- A call of the outside that cannot fail.
  abbrev pub act : (E → A × E) → Eff E A
  act c env = (ok (c env).0, (c env).1)

  -- An action without a result, before the rest.
  abbrev pub after : (E → E) → Eff E A → Eff E A
  after c m env = m (c env)

module _ {ℓ} {E A B : Type ℓ} where
  abbrev pub continue : Res A → (A → Eff E B) → Eff E B
  continue (ok a) f env = f a env
  continue (err e) f env = (err e, env)
  continue (panicked m) f env = (panicked m, env)

  infixl 5 ◌>>=◌
  abbrev pub ◌>>=◌ : Eff E A → (A → Eff E B) → Eff E B
  ◌>>=◌ m f env = continue (m env).0 f (m env).1

infixl 5 ◌>>◌
abbrev pub ◌>>◌ : {E B : Type 0} → Eff E (Unit {0}) → Eff E B → Eff E B
m >> k = m >>= λ _. k
