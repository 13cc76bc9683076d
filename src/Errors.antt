-- ===== src/Errors.antt =====
-- `GenesisError` of genesis-core/src/lib.rs, with its numeric codes and its `Display` texts.
pub mod Codes
use genesis_operator.Prelude.{ℕ, String, [], ◌∷◌, concat}

pub data GenesisError : Type 0 where
  no_envelope no_public_key : GenesisError
  invalid_transition : String → String → GenesisError
  invalid_input : String → GenesisError
  age_key_gen_failed age_encrypt_failed age_decrypt_failed : String → GenesisError
  public_key_mismatch : String → String → GenesisError
  pq_key_gen_failed pq_encapsulate_failed pq_decapsulate_failed : String → GenesisError
  pq_sign_failed pq_verify_failed hybrid_combine_failed : String → GenesisError
  envelope_version_mismatch : String → GenesisError
  envelope_signature_invalid : GenesisError
  envelope_parse_failed : String → GenesisError
  kms_call_failed : String → GenesisError
  kms_response_invalid kms_not_configured : GenesisError
  k8s_auth_failed k8s_inject_failed k8s_check_failed : String → GenesisError
  json : String → GenesisError

unfoldable pub error_code : GenesisError → ℕ
error_code no_envelope = 100
error_code no_public_key = 101
error_code (invalid_transition _ _) = 102
error_code (invalid_input _) = 103
error_code (age_key_gen_failed _) = 200
error_code (age_encrypt_failed _) = 201
error_code (age_decrypt_failed _) = 202
error_code (public_key_mismatch _ _) = 203
error_code (pq_key_gen_failed _) = 210
error_code (pq_encapsulate_failed _) = 211
error_code (pq_decapsulate_failed _) = 212
error_code (pq_sign_failed _) = 213
error_code (pq_verify_failed _) = 214
error_code (hybrid_combine_failed _) = 215
error_code (envelope_version_mismatch _) = 220
error_code envelope_signature_invalid = 221
error_code (envelope_parse_failed _) = 222
error_code (kms_call_failed _) = 300
error_code kms_response_invalid = 301
error_code kms_not_configured = 302
error_code (k8s_auth_failed _) = 400
error_code (k8s_inject_failed _) = 401
error_code (k8s_check_failed _) = 402
error_code (json _) = 500

-- `to_string`, from the `#[error(…)]` attributes.
unfoldable pub to_string : GenesisError → String
to_string no_envelope = "no envelope present"
to_string no_public_key = "no public key present"
to_string (invalid_transition from to) =
    concat ("invalid state transition from " ∷ from ∷ " to " ∷ to ∷ [])
to_string (invalid_input m) = concat ("invalid input: " ∷ m ∷ [])
to_string (age_key_gen_failed m) = concat ("age key generation failed: " ∷ m ∷ [])
to_string (age_encrypt_failed m) = concat ("age encryption failed: " ∷ m ∷ [])
to_string (age_decrypt_failed m) = concat ("age decryption failed: " ∷ m ∷ [])
to_string (public_key_mismatch expected got) =
    concat ("public key mismatch: expected " ∷ expected ∷ ", got " ∷ got ∷ [])
to_string (pq_key_gen_failed m) = concat ("PQ key generation failed: " ∷ m ∷ [])
to_string (pq_encapsulate_failed m) = concat ("PQ encapsulation failed: " ∷ m ∷ [])
to_string (pq_decapsulate_failed m) = concat ("PQ decapsulation failed: " ∷ m ∷ [])
to_string (pq_sign_failed m) = concat ("PQ signing failed: " ∷ m ∷ [])
to_string (pq_verify_failed m) = concat ("PQ verification failed: " ∷ m ∷ [])
to_string (hybrid_combine_failed m) = concat ("hybrid key combine failed: " ∷ m ∷ [])
to_string (envelope_version_mismatch m) = concat ("envelope version mismatch: " ∷ m ∷ [])
to_string envelope_signature_invalid = "envelope signature invalid"
to_string (envelope_parse_failed m) = concat ("envelope parse failed: " ∷ m ∷ [])
to_string (kms_call_failed m) = concat ("KMS call failed: " ∷ m ∷ [])
to_string kms_response_invalid = "KMS response invalid"
to_string kms_not_configured = "KMS not configured"
to_string (k8s_auth_failed m) = concat ("K8s auth failed: " ∷ m ∷ [])
to_string (k8s_inject_failed m) = concat ("K8s secret injection failed: " ∷ m ∷ [])
to_string (k8s_check_failed m) = concat ("K8s secret check failed: " ∷ m ∷ [])
to_string (json m) = concat ("JSON error: " ∷ m ∷ [])
