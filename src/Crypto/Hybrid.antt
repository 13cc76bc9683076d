-- ===== src/Crypto/Hybrid.antt =====
-- genesis-core/src/crypto/hybrid.rs, over HKDF-SHA3-256 as a parameter, and the other symmetric
-- primitives that an envelope uses.
use genesis_operator.Prelude.{
  ℕ, ◌≡◌, [], ◌∷◌, ◌++◌, Bytes, length, concat, codes, ◌==◌, if◌then◌else◌,
}
use genesis_operator.Errors.{hybrid_combine_failed}
use genesis_operator.KeyMaterial.{KeyMaterial, new, as_bytes}
use genesis_operator.Outcome.{Res, ok, panicked, Ext, good, map_err}
use genesis_operator.Outcome.Pure.{◌>>=◌}

-- `hkdf_expand salt ikm info n` is `Hkdf::<Sha3_256>::new(salt, ikm)` expanded to n bytes, where an
-- absent salt is the empty one; `aead_…` is ChaCha20-Poly1305 at a key and a nonce.
pub record SymCrates : Type 0 where
  pub hkdf_expand : Bytes → Bytes → Bytes → ℕ → Ext Bytes
  pub sha3_256 : Bytes → Bytes
  pub aead_encrypt : Bytes → Bytes → Bytes → Ext Bytes
  pub aead_decrypt : Bytes → Bytes → Bytes → Ext Bytes

-- RFC 5869 and RFC 8439.
pub record SymLaws (sym : SymCrates) : Type 0 where
  pub expands :
      (salt ikm info okm : Bytes) (n : ℕ)
      → sym.hkdf_expand salt ikm info n ≡ good okm
      → length okm ≡ n
  pub opens :
      (key nonce plaintext ciphertext : Bytes)
      → sym.aead_encrypt key nonce plaintext ≡ good ciphertext
      → sym.aead_decrypt key nonce ciphertext ≡ good plaintext

-- b"genesis-hybrid-kem-v1"
abbrev pub domain : Bytes
domain = codes "genesis-hybrid-kem-v1"

-- The key of a cipher is a fixed array: another length panics.
abbrev pub new_cipher : KeyMaterial → Res Bytes
new_cipher key =
    if length (as_bytes key) == 32
    then ok (as_bytes key)
    else panicked "source slice length does not match destination"

module _ (sym : SymCrates) where
  unfoldable pub combine_shared_secrets : Bytes → Bytes → Bytes → Res KeyMaterial
  combine_shared_secrets x25519_secret mlkem_secret context = do
    let ikm = x25519_secret ++ mlkem_secret
    let info = domain ++ context
    okm ←
        map_err (sym.hkdf_expand [] ikm info 32)
          (λ e. hybrid_combine_failed (concat ("HKDF expand: " ∷ e ∷ [])))
    ok (new okm)
