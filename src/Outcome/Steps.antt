-- ===== src/Outcome/Steps.antt =====
-- A chain that succeeded went through each of its steps: inversion, one lemma for each kind of
-- step.
use genesis_operator.Prelude.{String, ◌≡◌, refl, ap}
use genesis_operator.Errors.{GenesisError}
use genesis_operator.Outcome.{Res, ok, err, panicked, Ext, good, bad, Eff, map_err}
use genesis_operator.Outcome.Pure
use genesis_operator.Outcome.Effect.{continue, call, lift, ◌>>=◌}

module _ {ℓ} {A : Type ℓ} where
  pub map_err-eq-ok :
      (e : Ext A) (f : String → GenesisError) {a : A} → map_err e f ≡ ok a → e ≡ good a
  map_err-eq-ok (good x) f h = cc
  map_err-eq-ok (bad m) f h = cc

module _ {ℓ κ} {E A B : Type ℓ} {P : Type κ} where
  continue_elim :
      (r : Res A) (k : A → Eff E B) (env : E) {b : B} {env' : E}
      → continue r k env ≡ (ok b, env')
      → ((a : A) → r ≡ ok a → k a env ≡ (ok b, env') → P)
      → P
  continue_elim (ok a) k env h use_it = use_it a refl h
  continue_elim (err e) k env h use_it = cc (ap (λ p. p.0) h)
  continue_elim (panicked m) k env h use_it = cc (ap (λ p. p.0) h)

  pub bind_elim :
      (m : Eff E A) (k : A → Eff E B) (env : E) {b : B} {env' : E}
      → (m >>= k) env ≡ (ok b, env')
      → ((a : A) (env1 : E) → m env ≡ (ok a, env1) → k a env1 ≡ (ok b, env') → P)
      → P
  bind_elim m k env h use_it =
      continue_elim (m env).0 k (m env).1 h
        (λ a r rest. use_it a (m env).1 (λ i. (r i, (m env).1)) rest)

  -- a step without effect
  pub lift_elim :
      (r : Res A) (k : A → Eff E B) (env : E) {b : B} {env' : E}
      → (lift r >>= k) env ≡ (ok b, env')
      → ((a : A) → r ≡ ok a → k a env ≡ (ok b, env') → P)
      → P
  lift_elim r k env h use_it = continue_elim r k env h use_it

  -- a third-party function without effect, with its error mapped
  pub checked_elim :
      (e : Ext A) (f : String → GenesisError) (k : A → Eff E B) (env : E) {b : B} {env' : E}
      → (lift (map_err e f) >>= k) env ≡ (ok b, env')
      → ((a : A) → e ≡ good a → k a env ≡ (ok b, env') → P)
      → P
  checked_elim e f k env h use_it =
      continue_elim (map_err e f) k env h (λ a r rest. use_it a (map_err-eq-ok e f r) rest)

  -- one with an effect
  pub call_elim :
      (c : E → Ext A × E) (f : String → GenesisError) (k : A → Eff E B) (env : E) {b : B} {env' : E}
      → (call c f >>= k) env ≡ (ok b, env')
      → ((a : A) (env1 : E) → c env ≡ (good a, env1) → k a env1 ≡ (ok b, env') → P)
      → P
  call_elim c f k env h use_it =
      continue_elim (map_err (c env).0 f) k (c env).1 h
        (λ a r rest. use_it a (c env).1 (λ i. (map_err-eq-ok (c env).0 f r i, (c env).1)) rest)

-- a step of a chain without effects
pub pure_elim {ℓ} :
    {A B : Type 0} {P : Type ℓ} (r : Res A) (k : A → Res B) {b : B}
    → Pure.◌>>=◌ r k ≡ ok b
    → ((a : A) → r ≡ ok a → k a ≡ ok b → P)
    → P
pure_elim (ok a) k h use_it = use_it a refl h
pure_elim (err e) k h use_it = cc h
pure_elim (panicked m) k h use_it = cc h
