-- ===== src/State.antt =====
-- genesis-core/src/state.rs: the lifecycle of an instance. `Genesis E s` is `Genesis<S>`: the state
-- is an index, so that an operation in a wrong state is ill-typed, as in the source. Operations
-- that consume `self` and fail return no machine. `pub mod` children: operations, then what they
-- promise.
pub mod Operations
pub mod Bootstrapping
pub mod Lifecycle
pub mod Injection
pub mod Writes
pub mod Rotation
pub mod Targets
pub mod Progress
use genesis_operator.Prelude.{String, Bool, Option, some, Bytes, [], ◌∷◌, concat}
use genesis_operator.KeyMaterial.{KeyMaterial}
use genesis_operator.Json.{Value}
use genesis_operator.Audit.{AuditSink}

pub data StateTag : Type 0 where
  uninitialized initialized bootstrapping active rotating degraded : StateTag

pub record GenesisConfig : Type 0 where
  pub provider_type : String
  pub provider_config : Value
  pub public_key : Option String
  pub envelope_ciphertext : Option Bytes

pub record Genesis (E : Type 0) (s : StateTag) : Type 0 where
  pub config : GenesisConfig
  pub audit : AuditSink E

pub record GenesisBootstrapping (E : Type 0) : Type 0 where
  pub inner : Option (Genesis E bootstrapping)
  pub key_material : Option KeyMaterial

pub record PublicArtifacts : Type 0 where
  pub public_key : String
  pub envelope_ciphertext : Bytes
  pub sops_config : String

pub record VerifyResult : Type 0 where
  pub public_key_matches : Bool
  pub public_key : String

pub record GenesisStatus : Type 0 where
  pub state : StateTag
  pub public_key : Option String
  pub has_envelope : Bool

-- The same machine in another state.
abbrev pub become : {E : Type 0} {s : StateTag} (t : StateTag) → Genesis E s → Genesis E t
become t g = record { config = g.config; audit = g.audit }

-- `format!("creation_rules:\n  - age: \"{}\"\n", public_key)`
abbrev pub sops_config_for : String → String
sops_config_for public_key = concat ("creation_rules:\n  - age: \"" ∷ public_key ∷ "\"\n" ∷ [])

abbrev pub keys_of : String → Bytes → GenesisConfig → GenesisConfig
keys_of public_key envelope config = record config {
  public_key = some public_key;
  envelope_ciphertext = some envelope;
}

abbrev pub artifacts_of : String → Bytes → PublicArtifacts
artifacts_of public_key envelope = record {
  public_key = public_key;
  envelope_ciphertext = envelope;
  sops_config = sops_config_for public_key;
}
