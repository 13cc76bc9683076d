-- ===== src/Ffi/Keyset/Calls.antt =====
-- The entry points of genesis-core/src/ffi.rs that borrow a key set or make a local provider from
-- one.
use genesis_operator.Prelude.{
  suc, ◌==◌, ◌||◌, String, Bool, true, false, Option, none, some, [], ◌∷◌, Bytes, concat,
  if◌then◌else◌,
}
use genesis_operator.Errors.{kms_call_failed}
use genesis_operator.KeyMaterial.{as_bytes}
use genesis_operator.Json.{Value}
use genesis_operator.Http.{Base64}
use genesis_operator.Outcome.{Res, ok, err, panicked, Ext, good, bad, Eff, map_err}
use genesis_operator.Outcome.Effect.{pure, lift, ◌>>=◌}
use genesis_operator.Crypto.Interface.{Utf8}
use genesis_operator.Envelope.Wire.{to_bytes, from_bytes}
use genesis_operator.Envelope.Hybrid.{Crypto, seal}
use genesis_operator.Envelope.Hybrid.Open.{open_envelope}
use genesis_operator.Kms.Local
use genesis_operator.Kms.Local.{FileSystem, LocalKmsProvider, from_envelope}
use genesis_operator.State.{StateTag}
use genesis_operator.Ffi.{Ptr, CStr, GenesisResult, null_handle, c_string}
use genesis_operator.Ffi.Keyset.{
  GenesisKeySet, KeyRuntime, handle_at, success_at, answer, written, public_keys_json,
}

module _ {E : Type 0} where
  abbrev pub on_keyset :
      {A : Type 0}
      → (GenesisKeySet → Eff E A)
      → KeyRuntime E
      → Option GenesisKeySet
      → Option (Res A × KeyRuntime E)
  on_keyset body rt none = none
  on_keyset body rt (some keyset) =
      some ((body keyset rt.env).0, record rt { env = (body keyset rt.env).1 })

  -- The check for null pointers, and then the body on the borrowed key set.
  unfoldable pub borrow :
      {A : Type 0}
      → Bool
      → Ptr
      → (GenesisKeySet → Eff E A)
      → KeyRuntime E
      → Option (Res A × KeyRuntime E)
  borrow null_argument p body rt =
      if p == 0 || null_argument
      then some (err (kms_call_failed "null pointer"), rt)
      else on_keyset body rt (rt.keysets p)

  abbrev pub finish :
      {A B : Type 0} → (Res A → B) → Option (Res A × KeyRuntime E) → Option (B × KeyRuntime E)
  finish f none = none
  finish f (some (r, rt)) = some (f r, rt)

  unfoldable pub genesis_free_keyset : Ptr → KeyRuntime E → Option (KeyRuntime E)
  genesis_free_keyset p rt = if p == 0 then some rt else elim (rt.keysets p) [
    | none ↦ none
    | some keyset ↦ some (record rt { keysets = λ q. if q == p then none else rt.keysets q })
  ]

abbrev pub is_null : {A : Type 0} → Option A → Bool
is_null none = true
is_null (some a) = false

abbrev pub or_nothing : Option Bytes → Bytes
or_nothing none = []
or_nothing (some bytes) = bytes

-- `CStr::from_ptr(s).to_str().map_err(…)` on a pointer that is not null
abbrev path_text : CStr → Res String
path_text none = err (kms_call_failed "null pointer")
path_text (some (good s)) = ok s
path_text (some (bad e)) = err (kms_call_failed (concat ("invalid UTF-8: " ∷ e ∷ [])))

module _ {E : Type 0} (c : Crypto E) where
  abbrev pub sealing : Bytes → GenesisKeySet → Eff E Bytes
  sealing plaintext keyset = do
    envelope ← seal c plaintext keyset.age_recipient keyset.mlkem_public_key keyset.signing_key
    pure (to_bytes envelope)

  abbrev pub opening : Bytes → GenesisKeySet → Eff E Bytes
  opening env_bytes keyset = do
    envelope ← lift (from_bytes env_bytes)
    lift (open_envelope c envelope keyset.age_identity keyset.mlkem_private_key)

  abbrev pub bytes_result : Ptr → String → Res Bytes → GenesisResult × Option Bytes
  bytes_result p name r = (
    answer (handle_at p StateTag.initialized) name
        (λ bytes. success_at (handle_at p StateTag.initialized) none) r,
    written r,
  )

  -- `null_out`: one of the two out-pointers is null
  unfoldable pub genesis_seal_hybrid :
      Ptr
      → Option Bytes
      → Bool
      → KeyRuntime E
      → Option ((GenesisResult × Option Bytes) × KeyRuntime E)
  genesis_seal_hybrid keyset_ptr plaintext null_out rt =
      finish (bytes_result keyset_ptr "genesis_seal_hybrid")
        (borrow (is_null plaintext || null_out) keyset_ptr (sealing (or_nothing plaintext)) rt)

  unfoldable pub genesis_open_hybrid :
      Ptr
      → Option Bytes
      → Bool
      → KeyRuntime E
      → Option ((GenesisResult × Option Bytes) × KeyRuntime E)
  genesis_open_hybrid keyset_ptr envelope null_out rt =
      finish (bytes_result keyset_ptr "genesis_open_hybrid")
        (borrow (is_null envelope || null_out) keyset_ptr (opening (or_nothing envelope)) rt)

abbrev pub text_result : Ptr → String → Res String → GenesisResult
text_result p name r =
    answer (handle_at p StateTag.uninitialized) name
      (λ text. success_at (handle_at p StateTag.uninitialized) (some (c_string text ""))) r

module _ {E : Type 0} (b64 : Base64) (print_json : Value → Ext String) (utf8 : Utf8) where
  unfoldable pub genesis_get_public_keys :
      (c : Crypto E) → Ptr → KeyRuntime E → Option (GenesisResult × KeyRuntime E)
  genesis_get_public_keys c keyset_ptr rt =
      finish (text_result keyset_ptr "genesis_get_public_keys")
        (borrow false keyset_ptr (λ keyset. lift (public_keys_json c b64 print_json keyset)) rt)

  unfoldable pub genesis_export_age_identity :
      Ptr → KeyRuntime E → Option (GenesisResult × KeyRuntime E)
  genesis_export_age_identity keyset_ptr rt =
      finish (text_result keyset_ptr "genesis_export_age_identity") (
        borrow false keyset_ptr
          (λ keyset. lift (
            map_err (utf8.from_utf8 (as_bytes keyset.age_identity))
              (λ e. kms_call_failed (concat ("invalid UTF-8: " ∷ e ∷ [])))))
          rt)

module _ {E : Type 0} (c : Crypto E) (fs : FileSystem E) where
  abbrev pub store_local :
      String → Res LocalKmsProvider → KeyRuntime E → GenesisResult × KeyRuntime E
  store_local name (ok local) rt = (
    success_at (handle_at rt.fresh StateTag.initialized) none,
    record rt {
      locals = λ q. if q == rt.fresh then some local else rt.locals q;
      fresh = suc rt.fresh;
    },
  )
  store_local name (err e) rt =
      (answer {A = Bytes} null_handle name (λ k. success_at null_handle none) (err e), rt)
  store_local name (panicked m) rt =
      (answer {A = Bytes} null_handle name (λ k. success_at null_handle none) (panicked m), rt)

  abbrev pub stored :
      String → Option (Res LocalKmsProvider × KeyRuntime E) → Option (GenesisResult × KeyRuntime E)
  stored name none = none
  stored name (some (r, rt)) = some (store_local name r rt)

  abbrev pub local_from : CStr → GenesisKeySet → Eff E LocalKmsProvider
  local_from envelope_path keyset = do
    path ← lift (path_text envelope_path)
    from_envelope c fs path keyset.age_identity keyset.mlkem_private_key

  abbrev pub local_new : CStr → GenesisKeySet → Eff E LocalKmsProvider
  local_new envelope_path keyset = do
    path ← lift (path_text envelope_path)
    Local.generate c fs path keyset.age_recipient keyset.mlkem_public_key keyset.signing_key

  unfoldable pub genesis_init_local :
      Ptr → CStr → KeyRuntime E → Option (GenesisResult × KeyRuntime E)
  genesis_init_local keyset_ptr envelope_path rt =
      stored "genesis_init_local"
        (borrow (is_null envelope_path) keyset_ptr (local_from envelope_path) rt)

  unfoldable pub genesis_generate_local :
      Ptr → CStr → CStr → KeyRuntime E → Option (GenesisResult × KeyRuntime E)
  genesis_generate_local keyset_ptr envelope_path _ rt =
      stored "genesis_generate_local"
        (borrow (is_null envelope_path) keyset_ptr (local_new envelope_path) rt)

module _ {E : Type 0} where
  unfoldable pub genesis_free_local_kms : Ptr → KeyRuntime E → Option (KeyRuntime E)
  genesis_free_local_kms p rt = if p == 0 then some rt else elim (rt.locals p) [
    | none ↦ none
    | some local ↦ some (record rt { locals = λ q. if q == p then none else rt.locals q })
  ]
