-- ===== src/Crypto.antt =====
-- genesis-core/src/crypto: the wrappers around the `age`, `ml-kem`, `ml-dsa`, `hkdf`, `sha3` and
-- `chacha20poly1305` crates, which are parameters, and the interfaces that the wrappers offer.
pub mod Interface
pub mod Age
pub mod Pq
pub mod Hybrid
pub mod Framing
