-- ===== src/Ffi/Keyset/Session.antt =====
-- A session of the host with one key set: `genesis_generate_keyset`, calls that borrow the key set
-- and may make local providers, `genesis_free_local_kms` for each of these, `genesis_free_keyset`.
use genesis_operator.Prelude.{if◌then◌else◌, Bool, Option, none, some, List, [], ◌∷◌, Bytes, String}
use genesis_operator.Json.{Value}
use genesis_operator.Http.{Base64}
use genesis_operator.Outcome.{Ext}
use genesis_operator.Crypto.Interface.{Utf8}
use genesis_operator.Envelope.Hybrid.{Crypto}
use genesis_operator.Kms.Local.{FileSystem}
use genesis_operator.Ffi.{and_so, Ptr, CStr, GenesisResult}
use genesis_operator.Ffi.Keyset.{KeyRuntime, genesis_generate_keyset}
use genesis_operator.Ffi.Keyset.Calls.{
  genesis_seal_hybrid, genesis_open_hybrid, genesis_get_public_keys, genesis_export_age_identity,
  genesis_init_local, genesis_generate_local, genesis_free_local_kms, genesis_free_keyset,
}

-- The entry points that borrow a key set, with their other arguments.
pub data KeyCall : Type 0 where
  seal_hybrid open_hybrid : Option Bytes → Bool → KeyCall
  get_public_keys export_age_identity : KeyCall
  init_local : CStr → KeyCall
  generate_local : CStr → CStr → KeyCall

-- what the crates and the file system are for these calls
pub record KeyHost (E : Type 0) : Type 0 where
  pub crypto : Crypto E
  pub fs : FileSystem E
  pub b64 : Base64
  pub print_json : Value → Ext String
  pub utf8 : Utf8

abbrev pub forget :
    {E : Type 0}
    → Option ((GenesisResult × Option Bytes) × KeyRuntime E)
    → Option (GenesisResult × KeyRuntime E)
forget none = none
forget (some ((result, out), rt)) = some (result, rt)

-- the handle of a new local provider, which the host has to free
abbrev pub new_local : KeyCall → GenesisResult → List Ptr → List Ptr
new_local (init_local _) result ps = if result.success then result.handle.ptr ∷ ps else ps
new_local (generate_local _ _) result ps = if result.success then result.handle.ptr ∷ ps else ps
new_local _ result ps = ps

module _ {E : Type 0} (host : KeyHost E) where
  open host use {crypto, fs, b64, print_json, utf8}

  unfoldable pub borrowing : KeyCall → Ptr → KeyRuntime E → Option (GenesisResult × KeyRuntime E)
  borrowing (seal_hybrid plaintext null_out) p rt =
      forget (genesis_seal_hybrid crypto p plaintext null_out rt)
  borrowing (open_hybrid envelope null_out) p rt =
      forget (genesis_open_hybrid crypto p envelope null_out rt)
  borrowing get_public_keys p rt = genesis_get_public_keys b64 print_json utf8 crypto p rt
  borrowing export_age_identity p rt = genesis_export_age_identity b64 print_json utf8 p rt
  borrowing (init_local path) p rt = genesis_init_local crypto fs p path rt
  borrowing (generate_local path config) p rt = genesis_generate_local crypto fs p path config rt

  -- the calls, with the local providers that they made, the newest first
  unfoldable pub run_borrowing :
      List KeyCall → Ptr → List Ptr × KeyRuntime E → Option (List Ptr × KeyRuntime E)
  run_borrowing [] p start = some start
  run_borrowing (call ∷ rest) p start =
      and_so (borrowing call p start.1)
        λ after. run_borrowing rest p (new_local call after.0 start.0, after.1)

unfoldable pub free_locals : {E : Type 0} → List Ptr → KeyRuntime E → Option (KeyRuntime E)
free_locals [] rt = some rt
free_locals (p ∷ rest) rt = and_so (genesis_free_local_kms p rt) (free_locals rest)

module _ {E : Type 0} (host : KeyHost E) where
  unfoldable pub after_generate :
      List KeyCall → GenesisResult × KeyRuntime E → Option (KeyRuntime E)
  after_generate calls (result, rt) =
      if result.success
      then and_so (run_borrowing host calls result.handle.ptr ([], rt))
          (λ after. and_so (free_locals after.0 after.1) (genesis_free_keyset result.handle.ptr))
      else some rt

  unfoldable pub key_session : List KeyCall → KeyRuntime E → Option (KeyRuntime E)
  key_session calls rt =
      after_generate calls (genesis_generate_keyset host.crypto host.b64 host.print_json rt)
