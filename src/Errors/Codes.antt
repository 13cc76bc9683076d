-- ===== src/Errors/Codes.antt =====
-- What the numeric error codes tell a caller of the C ABI.
use genesis_operator.Prelude.{◌≤◌, arith, ℕ, ◌/◌, ◌-◌, ltb, ◌≡◌, refl, sym, ap, ◌∙◌, if◌then◌else◌}
use genesis_operator.Errors.{
  GenesisError, no_envelope, no_public_key, invalid_transition, invalid_input, age_key_gen_failed,
  age_encrypt_failed, age_decrypt_failed, public_key_mismatch, pq_key_gen_failed,
  pq_encapsulate_failed, pq_decapsulate_failed, pq_sign_failed, pq_verify_failed,
  hybrid_combine_failed, envelope_version_mismatch, envelope_signature_invalid,
  envelope_parse_failed, kms_call_failed, kms_response_invalid, kms_not_configured, k8s_auth_failed,
  k8s_inject_failed, k8s_check_failed, json, error_code,
}

-- The sections of the enum, as its comments name them.
pub data Family : Type 0 where
  state crypto kms k8s serialization : Family

-- The section and the place in it of each variant.
unfoldable pub variant : GenesisError → Family × ℕ
variant no_envelope = (state, 0)
variant no_public_key = (state, 1)
variant (invalid_transition _ _) = (state, 2)
variant (invalid_input _) = (state, 3)
variant (age_key_gen_failed _) = (crypto, 0)
variant (age_encrypt_failed _) = (crypto, 1)
variant (age_decrypt_failed _) = (crypto, 2)
variant (public_key_mismatch _ _) = (crypto, 3)
variant (pq_key_gen_failed _) = (crypto, 4)
variant (pq_encapsulate_failed _) = (crypto, 5)
variant (pq_decapsulate_failed _) = (crypto, 6)
variant (pq_sign_failed _) = (crypto, 7)
variant (pq_verify_failed _) = (crypto, 8)
variant (hybrid_combine_failed _) = (crypto, 9)
variant (envelope_version_mismatch _) = (crypto, 10)
variant envelope_signature_invalid = (crypto, 11)
variant (envelope_parse_failed _) = (crypto, 12)
variant (kms_call_failed _) = (kms, 0)
variant kms_response_invalid = (kms, 1)
variant kms_not_configured = (kms, 2)
variant (k8s_auth_failed _) = (k8s, 0)
variant (k8s_inject_failed _) = (k8s, 1)
variant (k8s_check_failed _) = (k8s, 2)
variant (json _) = (serialization, 0)

abbrev pub hundreds : Family → ℕ
hundreds state = 1
hundreds crypto = 2
hundreds kms = 3
hundreds k8s = 4
hundreds serialization = 5

-- The variant that a code stands for. The codes of the crypto section leave gaps after 203 and 215.
unfoldable pub decode : ℕ → Family × ℕ
decode c =
    if ltb c 200
    then (state, c - 100)
    else if ltb c 210
    then (crypto, c - 200)
    else if ltb c 220
    then (crypto, c - 206)
    else if ltb c 300
    then (crypto, c - 210)
    else if ltb c 400
    then (kms, c - 300)
    else if ltb c 500
    then (k8s, c - 400)
    else (serialization, c - 500)

pub decode-error_code : (e : GenesisError) → decode (error_code e) ≡ variant e
unfolding decode error_code variant
decode-error_code no_envelope = refl
decode-error_code _ = refl

-- Two errors with the same code are of the same variant.
pub error_code-injective :
    (a b : GenesisError) → error_code a ≡ error_code b → variant a ≡ variant b
error_code-injective a b h = sym (decode-error_code a) ∙ ap decode h ∙ decode-error_code b

-- Every code stands in the hundred of its section, so none is 0, 1 or 999, the codes that the C ABI
-- keeps for success, a bad pointer and a panic.
pub error_code_hundreds : (e : GenesisError) → error_code e / 100 ≡ hundreds (variant e).0
unfolding error_code variant
error_code_hundreds no_envelope = refl
error_code_hundreds _ = refl

pub error_code_positive : (e : GenesisError) → 1 ≤ error_code e
unfolding error_code
error_code_positive no_envelope = omega arith
error_code_positive _ = omega arith
