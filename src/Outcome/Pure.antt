-- ===== src/Outcome/Pure.antt =====
-- Chains of fallible steps with no effect.
use genesis_operator.Outcome.{Res, ok, err, panicked}

infixl 5 ◌>>=◌ ◌>>◌
abbrev pub ◌>>=◌ {ℓ κ} : {A : Type ℓ} {B : Type κ} → Res A → (A → Res B) → Res B
ok a >>= f = f a
err e >>= f = err e
panicked m >>= f = panicked m

abbrev pub ◌>>◌ {ℓ} : {B : Type ℓ} → Res (Unit {0}) → Res B → Res B
m >> k = m >>= λ _. k
