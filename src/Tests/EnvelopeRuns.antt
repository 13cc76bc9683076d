-- ===== src/Tests/EnvelopeRuns.antt =====
-- One run of each property of the envelopes, the key services, the crates and the error codes.
use genesis_operator.Prelude.{
  ◌+◌, ◌≤◌, bytes_eq, bytes_eq_refl, String, false, Option, none, some, [], ◌∷◌, ◌++◌, Bytes,
  length, replicate, ◌≡◌, refl, ap, subst, ◌⊎◌, arith,
}
use genesis_operator.Errors.{k8s_auth_failed, error_code}
use genesis_operator.Errors.Codes.{variant, error_code-injective}
use genesis_operator.KeyMaterial.{new}
use genesis_operator.Json.{get, lookup, Value, object, texts, get_str}
use genesis_operator.Outcome.{Res, ok, good}
use genesis_operator.Crypto.Interface.{PqContract}
use genesis_operator.Crypto.Pq.{MlKemCrate, MlDsaCrate, pq_ops}
use genesis_operator.Crypto.Pq.Laws.{MlKemLaws, MlDsaLaws, pq_ops-contract}
use genesis_operator.Envelope.Wire.{
  EnvelopeVersion, HybridEnvelope, v1_age, v2_hybrid, to_bytes, from_bytes, detect_envelope_version,
}
use genesis_operator.Envelope.Wire.Reading.{payload, from_bytes_takes}
use genesis_operator.Envelope.Wire.RoundTrip.{Fits, from_bytes-to_bytes}
use genesis_operator.Envelope.Hybrid.{seal, seal_keys, seal_secret, seal_signature}
use genesis_operator.Envelope.Hybrid.Open.{open_envelope}
use genesis_operator.Envelope.Hybrid.SealOpen.{open_envelope-seal}
use genesis_operator.Crypto.Hybrid.{combine_shared_secrets}
use genesis_operator.Kms.Environment.{Environment}
use genesis_operator.Kms.Local
use genesis_operator.Kms.Local.{LocalKmsProvider, from_envelope, generate}
use genesis_operator.Kms.Local.Laws.{decrypt-encrypt, from_envelope-generate}
use genesis_operator.Kms.Aws.{AwsKmsProvider}
use genesis_operator.Kms.Aws.Settings.{from_env_vars, from_config, from_config_source}
use genesis_operator.Tests.Worlds.{
  small-AgePair, small-PqContract, small-KemPair, small-SymLaws, small_crypto, small-FillLaw,
  one_file, one-FileLaw,
}

-- What `small_crypto` seals a plaintext in, with the two marks of its ciphertexts.
abbrev pub sealed : Bytes → HybridEnvelope
sealed plaintext = record {
  version = v2_hybrid;
  mlkem_ciphertext = 8 ∷ [];
  age_ciphertext = 7 ∷ replicate 32 4;
  encrypted_secret = replicate 12 4 ++ (1 ∷ plaintext);
  signature = 5 ∷ 8 ∷ [] ++ ((7 ∷ replicate 32 4) ++ (replicate 12 4 ++ (1 ∷ plaintext)));
  signing_public_key = 3 ∷ [];
}

open_envelope-seal_example :
    open_envelope {E = Bytes} small_crypto (sealed (65 ∷ 66 ∷ [])) (new (1 ∷ [])) (new (4 ∷ []))
    ≡ ok (65 ∷ 66 ∷ [])
unfolding seal seal_keys seal_secret seal_signature combine_shared_secrets
open_envelope-seal_example =
    open_envelope-seal small_crypto small-PqContract small-SymLaws small-FillLaw (65 ∷ 66 ∷ [])
      "age1" (2 ∷ []) (new (5 ∷ [])) (new (1 ∷ [])) (new (4 ∷ [])) (sealed (65 ∷ 66 ∷ [])) [] []
      (small-AgePair (1 ∷ [])) (small-KemPair (2 ∷ []) (new (4 ∷ []))) refl

-- the same ciphertexts, marked as of another version
abbrev received : HybridEnvelope
received = record (sealed (65 ∷ 66 ∷ [])) { version = v1_age }

abbrev small_envelope : HybridEnvelope
small_envelope = record {
  version = v2_hybrid;
  mlkem_ciphertext = 8 ∷ [];
  age_ciphertext = 7 ∷ 1 ∷ [];
  encrypted_secret = [];
  signature = 5 ∷ [];
  signing_public_key = 3 ∷ [];
}

small-Fits : Fits small_envelope
small-Fits = record {
  mlkem = omega arith;
  age = omega arith;
  secret = omega arith;
  signature = omega arith;
  key = omega arith;
}

from_bytes-to_bytes_example : from_bytes (to_bytes small_envelope ++ (255 ∷ [])) ≡ ok small_envelope
from_bytes-to_bytes_example = from_bytes-to_bytes small_envelope (255 ∷ []) small-Fits

from_bytes_takes_example :
    (detect_envelope_version (to_bytes small_envelope ++ []) ≡ v2_hybrid)
    × (◌≡◌ {A = EnvelopeVersion} v2_hybrid v2_hybrid)
    × (28 + payload small_envelope ≤ length (to_bytes small_envelope ++ []))
from_bytes_takes_example =
    from_bytes_takes (to_bytes small_envelope ++ []) small_envelope
      (from_bytes-to_bytes small_envelope [] small-Fits)

abbrev master : LocalKmsProvider
master = record { master_key = new (replicate 32 4) }

decrypt-encrypt_example :
    Local.decrypt {E = Bytes} small_crypto master (replicate 12 4 ++ (1 ∷ 65 ∷ [])) []
    ≡ (ok (65 ∷ []), [])
unfolding Local.encrypt
decrypt-encrypt_example =
    decrypt-encrypt small_crypto small-SymLaws small-FillLaw master (65 ∷ [])
      (replicate 12 4 ++ (1 ∷ 65 ∷ [])) [] [] [] refl

pub sealed-Fits :
    (plaintext : Bytes) (e : HybridEnvelope) (env1 env2 : Bytes)
    → length plaintext ≡ 32
    → seal small_crypto plaintext "age1" (2 ∷ []) (new (5 ∷ [])) env1 ≡ (ok e, env2)
    → Fits e
unfolding seal seal_keys seal_secret seal_signature combine_shared_secrets
sealed-Fits plaintext e env1 env2 short h = subst Fits (ok_envelope (ap (λ p. p.0) h)) (record {
  mlkem = omega arith;
  age = omega arith;
  secret = omega arith;
  signature = omega arith;
  key = omega arith;
})
  where
    ok_envelope : {a b : HybridEnvelope} → ◌≡◌ {A = Res HybridEnvelope} (ok a) (ok b) → a ≡ b
    ok_envelope e = cc e

abbrev stored : Bytes
stored = to_bytes (sealed (replicate 32 4))

from_envelope-generate_example :
    (from_envelope small_crypto one_file "path" (new (1 ∷ [])) (new (4 ∷ [])) stored).0 ≡ ok master
unfolding generate seal seal_keys seal_secret seal_signature combine_shared_secrets to_bytes
from_envelope-generate_example =
    from_envelope-generate small_crypto one_file small-PqContract small-SymLaws small-FillLaw
      one-FileLaw "path" "age1" (2 ∷ []) (new (5 ∷ [])) (new (1 ∷ [])) (new (4 ∷ [])) master []
      stored (small-AgePair (1 ∷ [])) (small-KemPair (2 ∷ []) (new (4 ∷ []))) sealed-Fits refl

error_code-injective_example : variant (k8s_auth_failed "a") ≡ variant (k8s_auth_failed "b")
unfolding error_code
error_code-injective_example = error_code-injective (k8s_auth_failed "a") (k8s_auth_failed "b") refl

abbrev settings : Value
settings = object (
    texts (
      ("access_key_id", "id")
      ∷ ("secret_access_key", "secret")
      ∷ ("region", "eu")
      ∷ ("key_arn", "arn")
      ∷ []))

abbrev no_vars : Environment Bytes
no_vars = record { var = λ name env. none; exists = λ path env. false }

abbrev aws : AwsKmsProvider
aws = record {
  key_arn = "arn";
  region = "eu";
  access_key_id = "id";
  secret_access_key = "secret";
  session_token = none;
}

from_config_source_example :
    ((get_str settings "access_key_id" ≡ some "id")
      × (get_str settings "secret_access_key" ≡ some "secret")
      × (get_str settings "session_token" ≡ none))
    ⊎ ((◌≡◌ {A = Option String} none (some "id"))
        × (◌≡◌ {A = Option String} none (some "secret"))
        × (◌≡◌ {A = Option String} none none))
unfolding from_config from_env_vars get lookup
from_config_source_example = from_config_source no_vars settings [] aws refl

-- ML-KEM and ML-DSA with one key each
abbrev small_kem : MlKemCrate Bytes
small_kem = record {
  DecapsulationKey = Unit {0};
  EncapsulationKey = Unit {0};
  seed_size = 1;
  encapsulation_key_size = 1;
  ciphertext_size = 1;
  generate = λ env. ((tt, tt), env);
  key_bytes = λ ek. 2 ∷ [];
  to_seed = λ dk. some (4 ∷ []);
  from_seed = λ seed. tt;
  new_key = λ bytes. some tt;
  encapsulate = λ ek env. ((8 ∷ [], 9 ∷ []), env);
  decapsulate = λ dk ciphertext. 9 ∷ [];
}

small_kem_laws : MlKemLaws small_kem
small_kem_laws = record {
  decodes_key = λ ek. refl;
  reloads = λ dk seed h. refl;
  sized_seed = λ dk seed h. subst (λ z. length z ≡ 1) (some_inj h) refl;
  sized_ciphertext = λ ek env. refl;
  agrees = λ env0 env. refl;
}
  where
    some_inj : {a b : Bytes} → ◌≡◌ {A = Option Bytes} (some a) (some b) → a ≡ b
    some_inj e = cc e

abbrev small_dsa : MlDsaCrate Bytes
small_dsa = record {
  SigningKey = Unit {0};
  VerifyingKey = Unit {0};
  Signature = Bytes;
  seed_size = 1;
  verifying_key_size = 1;
  key_gen = λ env. (good tt, env);
  to_seed = λ sk. 5 ∷ [];
  from_seed = λ seed. tt;
  verifying_key = λ sk. tt;
  encode_key = λ vk. 3 ∷ [];
  decode_key = λ bytes. tt;
  sign = λ sk m. m;
  encode_signature = λ s. s;
  decode_signature = λ bytes. good bytes;
  verify = λ vk m s. bytes_eq s m;
}

small_dsa_laws : MlDsaLaws small_dsa
small_dsa_laws = record {
  sized_key = λ vk. refl;
  decodes_key = λ vk. refl;
  decodes_signature = λ s. refl;
  verifies = λ sk m. bytes_eq_refl m;
}

pq_ops-contract_example : PqContract (pq_ops small_kem small_dsa)
pq_ops-contract_example = pq_ops-contract small_kem small_dsa small_kem_laws small_dsa_laws
