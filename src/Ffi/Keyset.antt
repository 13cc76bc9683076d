-- ===== src/Ffi/Keyset.antt =====
-- `GenesisKeySet` of genesis-core/src/lib.rs, and the hybrid entry points of
-- genesis-core/src/ffi.rs: a host holds the key set by its address, and the calls borrow it. An
-- address without a key set is undefined behaviour, `none`. The bytes that a call returns through
-- `out` come beside its result.
pub mod Calls
pub mod RoundTrip
pub mod Session
pub mod Ownership
pub mod NoLeaks
use genesis_operator.Prelude.{
  ℕ, suc, ◌==◌, ◌||◌, not, String, Bool, true, false, Option, none, some, [], ◌∷◌, Bytes, concat,
  if◌then◌else◌,
}
use genesis_operator.Errors.{GenesisError, error_code, to_string, kms_call_failed, json}
use genesis_operator.KeyMaterial.{KeyMaterial, as_bytes}
use genesis_operator.Json.{Value, object, texts}
use genesis_operator.Http.{Base64}
use genesis_operator.Outcome.{Res, ok, err, panicked, Ext, good, bad, Eff, map_err, res_map}
use genesis_operator.Outcome.Effect.{pure, lift, fail, ◌>>=◌}
use genesis_operator.Crypto.Interface.{Utf8}
use genesis_operator.Envelope.Wire.{to_bytes, from_bytes}
use genesis_operator.Envelope.Hybrid.{Crypto, seal}
use genesis_operator.Envelope.Hybrid.Open.{open_envelope}
use genesis_operator.Kms.Local
use genesis_operator.Kms.Local.{FileSystem, LocalKmsProvider, from_envelope}
use genesis_operator.State.{StateTag}
use genesis_operator.Ffi.{Ptr, CStr, GenesisHandle, GenesisResult, null_handle, c_string}

pub record GenesisKeySet : Type 0 where
  pub age_identity : KeyMaterial
  pub age_recipient : String
  pub mlkem_private_key : KeyMaterial
  pub mlkem_public_key : Bytes
  pub signing_key : KeyMaterial
  pub signing_public_key : Bytes

-- The boxes of key sets and of local providers.
pub record KeyRuntime (E : Type 0) : Type 0 where
  pub env : E
  pub keysets : Ptr → Option GenesisKeySet
  pub locals : Ptr → Option LocalKmsProvider
  pub fresh : ℕ

abbrev pub handle_at : Ptr → StateTag → GenesisHandle
handle_at p s = record { ptr = p; state = s }

abbrev pub success_at : GenesisHandle → Option String → GenesisResult
success_at handle text = record {
  success = true;
  error_code = 0;
  error_message = none;
  handle = handle;
  data_json = text;
}

abbrev pub failure_at : GenesisHandle → ℕ → String → GenesisResult
failure_at handle code message = record {
  success = false;
  error_code = code;
  error_message = some (c_string message "");
  handle = handle;
  data_json = none;
}

-- the three arms of `match result` that each entry point ends with
abbrev pub answer :
    {A : Type 0} → GenesisHandle → String → (A → GenesisResult) → Res A → GenesisResult
answer on_error name f (ok a) = f a
answer on_error name f (err e) = failure_at on_error (error_code e) (to_string e)
answer on_error name f (panicked m) =
    failure_at on_error 999 (concat ("Rust panic in " ∷ name ∷ []))

-- what was written through `out`
abbrev pub written : Res Bytes → Option Bytes
written (ok bytes) = some bytes
written _ = none

module _ {E : Type 0} (c : Crypto E) where
  open c use {age, pq}

  unfoldable pub generate_keys : Eff E GenesisKeySet
  generate_keys = do
    (age_recipient, age_identity) ← age.generate_keypair
    (mlkem_public_key, mlkem_private_key) ← pq.mlkem_generate_keypair
    (signing_public_key, signing_key) ← pq.mldsa_generate_keypair
    pure (record {
      age_identity = age_identity;
      age_recipient = age_recipient;
      mlkem_private_key = mlkem_private_key;
      mlkem_public_key = mlkem_public_key;
      signing_key = signing_key;
      signing_public_key = signing_public_key;
    })

module _ {E : Type 0} (c : Crypto E) (b64 : Base64) (print_json : Value → Ext String) where
  unfoldable pub public_keys_json : GenesisKeySet → Res String
  public_keys_json keyset =
      map_err
        (print_json (
          object (
            texts (
              ("age_recipient", keyset.age_recipient)
              ∷ ("mlkem_public_key", b64.encode keyset.mlkem_public_key)
              ∷ ("signing_public_key", b64.encode keyset.signing_public_key)
              ∷ []))))
        json

  abbrev pub with_json : Eff E (GenesisKeySet × String)
  with_json = do
    keyset ← generate_keys c
    text ← lift (public_keys_json keyset)
    pure (keyset, text)

  abbrev pub store_keyset :
      String → Res (GenesisKeySet × String) × E → KeyRuntime E → GenesisResult × KeyRuntime E
  store_keyset name (ok (keyset, text), env) rt = (
    success_at (handle_at rt.fresh StateTag.uninitialized) (some (c_string text "")),
    record rt {
      env = env;
      keysets = λ q. if q == rt.fresh then some keyset else rt.keysets q;
      fresh = suc rt.fresh;
    },
  )
  store_keyset name (err e, env) rt = (
    answer {A = GenesisKeySet} null_handle name (λ k. success_at null_handle none) (err e),
    record rt { env = env },
  )
  store_keyset name (panicked m, env) rt = (
    answer {A = GenesisKeySet} null_handle name (λ k. success_at null_handle none) (panicked m),
    record rt { env = env },
  )

  unfoldable pub genesis_generate_keyset : KeyRuntime E → GenesisResult × KeyRuntime E
  genesis_generate_keyset rt = store_keyset "genesis_generate_keyset" (with_json rt.env) rt

  -- the provider and the settings are ignored
  unfoldable pub genesis_init_hybrid : CStr → CStr → KeyRuntime E → GenesisResult × KeyRuntime E
  genesis_init_hybrid _ _ rt = store_keyset "genesis_init_hybrid" (with_json rt.env) rt
