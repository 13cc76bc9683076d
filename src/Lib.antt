-- ===== src/Lib.antt =====
-- Verification of genesis-core, the Rust core of the genesis operator: it makes the keys that a
-- cluster is bootstrapped with, wraps the private key with a key service, and writes it to the cluster
-- when it is asked to. A host in Go drives it through a C ABI.
--
-- The parts, with the files of genesis-core/src that they model:
--   Errors         lib.rs: `GenesisError`, `error_code`, the texts of `Display`.
--   KeyMaterial    zeroize_mem.rs: the bytes of a secret, and what `drop` leaves of them.
--   Audit          audit.rs: `AuditEvent`, `AuditSink` and its two implementations.
--   Crypto         crypto/age.rs, crypto/pq.rs, crypto/hybrid.rs. `Crypto.Interface` is what the rest
--                  relies on: `AgeOps`, `PqOps` and their contracts, which `Crypto.Age.Keypairs` and
--                  `Crypto.Pq.Laws` fill from the documented laws of the crates.
--   Envelope       envelope.rs: the wire format (`Wire`), sealing and opening (`Hybrid`).
--   Kms            kms/*.rs: the trait `KmsProvider` with its contract; the providers Mock, Local, Aws,
--                  Gcp, Azure, each of the clouds with what it asks its service and reads of the answers
--                  (`Replies`); `create_provider` (`Config`) and what it makes (`Config.Contract`).
--   K8s            k8s/inject.rs: metadata and body of a secret, the injector over HTTP, what its
--                  success says of the server (`Accepted`, `Stored`), and the cluster in memory (`Mock`).
--                  k8s/auth.rs: the reading of a kubeconfig (`Auth`), its lines (`Auth.Lines`) and what
--                  is found in them (`Auth.Reading`).
--   State          state.rs: `Genesis<S>` as a record indexed by its state, the operations of each state
--                  (`Operations`), the machine that holds a key (`Bootstrapping`, with its `Drop`), and
--                  what they promise (`Lifecycle`, `Injection`, `Writes`, `Targets`, `Rotation`, and
--                  all together `Progress`).
--   Ffi            ffi.rs to `genesis_free`: results and C strings (`Ffi`), the flow of a body (`Flow`),
--                  the entry points (`Calls`, `Injecting`), the boxes behind handles (`Runtime`), and what
--                  holds of all calls (`Moves`, `Sound`, `Bodies`, `Lifecycle`, `Boxes`, `Ownership`, `Refusal`,
--                  `Sole`, `Session`). `Protocol` is the automaton of states that a host sees.
--                  `Secrecy` compares two runs that differ in the bytes of the keys that are held.
--                  `Progress`, `Deployed`, `Aborted` and `Renewed` follow the calls that bootstrap a cluster and
--                  rotate its key.
--                  `Trail` reads the state of a machine off the audit log of its host.
--                  `Ffi.Keyset` is `GenesisKeySet` of lib.rs and the hybrid entry points (feature `pq`),
--                  with the sessions of a host that owns a key set (`Session`, `Ownership`, `NoLeaks`).
--   Prelude, Outcome, Json, Http   shared names, results and effects, JSON values, the HTTP agent.
--   Tests          stand-ins for what is outside, and one run of each result.
--
-- `Result<A, GenesisError>` is `Res A`, with a third case for a panic. Code that acts on the outside is
-- an `Eff E A`, a function of the state E of all that is outside: the random generator, the key
-- service, the cluster, the files, the audit sink. What was done before a failure stays done. The C ABI
-- adds a heap of boxes, an address for each, and undefined behaviour for an address without a box.
--
-- Third-party crates are parameters with named laws: age, ml-kem, ml-dsa, HKDF, ChaCha20-Poly1305,
-- ureq, rustls, serde_json, base64, the AWS signature. A contract of a key service says what it
-- decrypts to where it decrypts; that it ever answers is assumed in `State.Progress` only. No loop needs
-- fuel, but the printing of a decimal number, whose 20 digits are enough below 2 ^ 64
-- (`Prelude.Decimal`). Lengths in the wire format wrap at 2 ^ 32 as `as u32` does. The feature `mock` of
-- the build is the field `mock_build`.
--
-- Not modelled: the poisoning of a lock, the lines on the standard error, the buffers of C strings,
-- the protection of memory pages by the kernel, which change no value that the code reads, and the
-- host in Go, which is glue around the C ABI.
pub mod Prelude
pub mod Errors
pub mod Outcome
pub mod KeyMaterial
pub mod Json
pub mod Http
pub mod Crypto
pub mod Envelope
pub mod Audit
pub mod Kms
pub mod K8s
pub mod State
pub mod Ffi
mod Tests
