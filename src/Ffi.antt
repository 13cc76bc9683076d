-- ===== src/Ffi.antt =====
-- genesis-core/src/ffi.rs, the C ABI: the types that cross
-- the boundary and the helpers that make results. A C string is absent (a null pointer), or has a
-- text, or has bytes that are not UTF-8, with the message of the decoder.
pub mod Flow
pub mod Calls
pub mod Injecting
pub mod Runtime
pub mod Moves
pub mod Sound
pub mod Bodies
pub mod Lifecycle
pub mod Boxes
pub mod Ownership
pub mod Sole
pub mod Session
pub mod Protocol
pub mod Keyset
pub mod Refusal
pub mod Secrecy
pub mod Trail
pub mod Progress
pub mod Deployed
pub mod Aborted
pub mod Renewed
use genesis_operator.Prelude.{
  ℕ, String, Bool, true, false, Option, none, some, concat, [], ◌∷◌, has_nul, if◌then◌else◌,
}
use genesis_operator.Errors.{GenesisError, error_code, to_string}
use genesis_operator.Outcome.{Ext, good, bad, to_option}
use genesis_operator.Kms.Config.{KmsConfig}
use genesis_operator.State.{StateTag, Genesis, GenesisBootstrapping}

abbrev pub CStr : Type 0
CStr = Option (Ext String)

-- An address; 0 is the null pointer.
abbrev pub Ptr : Type 0
Ptr = ℕ

pub record GenesisHandle : Type 0 where
  pub ptr : Ptr
  pub state : StateTag

-- `error_message` and `data_json` are absent where the pointer is null.
pub record GenesisResult : Type 0 where
  pub success : Bool
  pub error_code : ℕ
  pub error_message : Option String
  pub handle : GenesisHandle
  pub data_json : Option String

pub data GenesisInner (E : Type 0) : Type 0 where
  uninitialized : Genesis E StateTag.uninitialized → GenesisInner E
  initialized : Genesis E StateTag.initialized → GenesisInner E
  bootstrapping : GenesisBootstrapping E → GenesisInner E
  active : Genesis E StateTag.active → GenesisInner E
  rotating : Genesis E StateTag.rotating → GenesisInner E
  degraded : Genesis E StateTag.degraded → GenesisInner E

abbrev pub state_tag : {E : Type 0} → GenesisInner E → StateTag
state_tag (uninitialized _) = StateTag.uninitialized
state_tag (initialized _) = StateTag.initialized
state_tag (bootstrapping _) = StateTag.bootstrapping
state_tag (active _) = StateTag.active
state_tag (rotating _) = StateTag.rotating
state_tag (degraded _) = StateTag.degraded

-- `CString::new(s).unwrap_or_else(|_| CString::new(fallback).unwrap())`
unfoldable pub c_string : String → String → String
c_string s fallback = if has_nul s then fallback else s

abbrev pub null_handle : GenesisHandle
null_handle = record { ptr = 0; state = StateTag.uninitialized }

abbrev pub error_with_handle : ℕ → String → GenesisHandle → GenesisResult
error_with_handle code message handle = record {
  success = false;
  error_code = code;
  error_message = some (c_string message "(invalid error message)");
  handle = handle;
  data_json = none;
}

abbrev pub error_result : ℕ → String → GenesisResult
error_result code message = error_with_handle code message null_handle

abbrev pub graft_handle : GenesisResult → GenesisHandle → GenesisResult
graft_handle result handle = record result { handle = handle }

abbrev pub success_result : GenesisHandle → GenesisResult
success_result handle = record {
  success = true;
  error_code = 0;
  error_message = none;
  handle = handle;
  data_json = none;
}

abbrev pub success_result_with_data : String → GenesisHandle → GenesisResult
success_result_with_data json handle = record (success_result handle) {
  data_json = some (c_string json "{}");
}

abbrev pub panic_result : GenesisResult
panic_result = error_result 999 "Rust panic caught at FFI boundary"

-- `Result<A, GenesisResult>`
pub data Parsed (A : Type 0) : Type 0 where
  parsed : A → Parsed A
  refused : ℕ → String → Parsed A

unfoldable pub parse_c_str : CStr → Parsed String
parse_c_str none = refused 1 "null string pointer"
parse_c_str (some (good s)) = parsed s
parse_c_str (some (bad e)) = refused 1 (concat ("invalid UTF-8: " ∷ e ∷ []))

unfoldable pub optional_c_str : CStr → Option String
optional_c_str none = none
optional_c_str (some text) = to_option text

-- `.map_err(|e| …)` on the result of `serde_json::from_str`
abbrev pub or_refuse : {A : Type 0} → ℕ → String → Ext A → Parsed A
or_refuse code what (good a) = parsed a
or_refuse code what (bad e) = refused code (concat (what ∷ e ∷ []))

abbrev pub parse_json : {A : Type 0} → ℕ → String → (String → Ext A) → String → Parsed A
parse_json code what parse text = or_refuse code what (parse text)

abbrev pub and_then : {A B : Type 0} → Parsed A → (A → Parsed B) → Parsed B
and_then (parsed a) f = f a
and_then (refused code message) f = refused code message

unfoldable pub parse_kms_config : (String → Ext KmsConfig) → CStr → Parsed KmsConfig
unfolding parse_c_str
parse_kms_config from_str kms_config_json =
    and_then (parse_c_str kms_config_json) (parse_json 500 "invalid KMS config JSON: " from_str)

-- a step of a session; `none` is undefined behaviour
abbrev pub and_so : {A B : Type 0} → Option A → (A → Option B) → Option B
and_so none f = none
and_so (some a) f = f a
