-- ===== src/Kms/Mock/Laws.antt =====
-- The transform of the mock (kms/mock.rs) applied twice, and the contract of a key service.
use genesis_operator.Prelude.{
  ℕ, String, Option, ◌+◌, ◌%◌, none, some, ◌≡◌, refl, ap, ◌∙◌, sym, [], ◌∷◌, Bytes,
}
use genesis_operator.Outcome.{Res, ok}
use genesis_operator.Kms.{KmsContract}
use genesis_operator.Kms.Mock.{
  xor_pad, pad_at, xor_from, xor_transform, MockKmsProvider, transform, provider,
}
use genesis_operator.Kms.Mock.Xor.{bit_xor_twice}

xor_from-xor_from : (i : ℕ) (xs : Bytes) → xor_from i (xor_from i xs) ≡ xs
unfolding xor_from
xor_from-xor_from i [] = refl
xor_from-xor_from i (x ∷ xs) =
    let byte = bit_xor_twice x (pad_at xor_pad (i % 32)) in
    let rest = xor_from-xor_from (i + 1) xs in λ k. byte k ∷ rest k

-- A second application of the transform gives back the bytes, whatever their number.
pub xor_transform-xor_transform : (xs : Bytes) → xor_transform (xor_transform xs) ≡ xs
unfolding xor_transform
xor_transform-xor_transform xs = xor_from-xor_from 0 xs

pub ok_inj : {a b : Bytes} → ◌≡◌ {A = Res Bytes} (ok a) (ok b) → a ≡ b
ok_inj e = cc e

transform_undone :
    (fail_msg : Option String) (plaintext ciphertext result : Bytes)
    → transform (record { fail_msg = fail_msg }) plaintext ≡ ok ciphertext
    → transform (record { fail_msg = fail_msg }) ciphertext ≡ ok result
    → result ≡ plaintext
unfolding transform
transform_undone (some msg) plaintext ciphertext result h k = absurd (cc h)
transform_undone none plaintext ciphertext result h k =
    sym (ok_inj k) ∙ ap xor_transform (sym (ok_inj h)) ∙ xor_transform-xor_transform plaintext

pub mock-KmsContract : {E : Type 0} (mock : MockKmsProvider) → KmsContract (provider {E = E} mock)
mock-KmsContract mock = record {
  unwraps = λ plaintext ciphertext result env1 env2 env3 env4 h k.
      transform_undone mock.fail_msg plaintext ciphertext result (ap (λ p. p.0) h)
        (ap (λ p. p.0) k);
}
