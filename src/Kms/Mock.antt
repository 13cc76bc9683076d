-- ===== src/Kms/Mock.antt =====
-- genesis-core/src/kms/mock.rs: a provider that combines each byte with a fixed pad by exclusive
-- or.
pub mod Xor
pub mod Laws
use Prim.Native.Nat.{bit_xor}
use genesis_operator.Prelude.{
  ℕ, zero, suc, ◌+◌, ◌%◌, String, Option, none, some, List, [], ◌∷◌, Bytes,
}
use genesis_operator.Errors.{kms_call_failed}
use genesis_operator.Outcome.{Res, ok, err, Eff}
use genesis_operator.Outcome.Effect.{lift}
use genesis_operator.Kms.{KmsProvider}

abbrev pub xor_pad : Bytes
xor_pad =
    0xDE ∷ 0xAD ∷ 0xBE ∷ 0xEF ∷ 0xCA ∷ 0xFE ∷ 0xBA ∷ 0xBE ∷ 0x01 ∷ 0x23 ∷ 0x45 ∷ 0x67 ∷ 0x89 ∷ 0xAB
    ∷ 0xCD ∷ 0xEF ∷ 0xFE ∷ 0xDC ∷ 0xBA ∷ 0x98 ∷ 0x76 ∷ 0x54 ∷ 0x32 ∷ 0x10 ∷ 0x0F ∷ 0x1E ∷ 0x2D
    ∷ 0x3C ∷ 0x4B ∷ 0x5A ∷ 0x69 ∷ 0x78 ∷ []

-- `XOR_PAD[k]`; the index below is always less than 32.
pub pad_at : List ℕ → ℕ → ℕ
pad_at [] k = 0
pad_at (x ∷ xs) zero = x
pad_at (x ∷ xs) (suc k) = pad_at xs k

-- the `map` over `enumerate()`, from index `i` on
pub xor_from : ℕ → Bytes → Bytes
xor_from i [] = []
xor_from i (byte ∷ rest) = bit_xor byte (pad_at xor_pad (i % 32)) ∷ xor_from (i + 1) rest

unfoldable pub xor_transform : Bytes → Bytes
unfolding xor_from pad_at
xor_transform input = xor_from 0 input

pub record MockKmsProvider : Type 0 where
  pub fail_msg : Option String

abbrev pub new : MockKmsProvider
new = record { fail_msg = none }

abbrev pub new_failing : String → MockKmsProvider
new_failing error_msg = record { fail_msg = some error_msg }

-- `encrypt` and `decrypt` have the same body.
unfoldable pub transform : MockKmsProvider → Bytes → Res Bytes
transform mock input = elim mock.fail_msg [
  | some msg ↦ err (kms_call_failed msg)
  | none ↦ ok (xor_transform input)
]

abbrev pub provider : {E : Type 0} → MockKmsProvider → KmsProvider E
provider mock = record {
  encrypt = λ plaintext. lift (transform mock plaintext);
  decrypt = λ ciphertext. lift (transform mock ciphertext);
  provider_name = "mock";
}
