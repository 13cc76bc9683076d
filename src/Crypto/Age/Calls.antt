-- ===== src/Crypto/Age/Calls.antt =====
-- The functions of genesis-core/src/crypto/age.rs that draw randomness, and the whole module.
use genesis_operator.Prelude.{String, [], ◌∷◌, Bytes}
use genesis_operator.Errors.{age_encrypt_failed}
use genesis_operator.KeyMaterial.{KeyMaterial}
use genesis_operator.KeyMaterial
use genesis_operator.Outcome.{Eff, map_err}
use genesis_operator.Outcome.Effect.{pure, act, lift, call, ◌>>=◌}
use genesis_operator.Crypto.Interface.{Utf8, AgeOps}
use genesis_operator.Crypto.Age.{
  AgeCrate, prefix_error, public_key_from_private, decrypt_with_private_key,
}

module _ {E : Type 0} (utf8 : Utf8) (crate : AgeCrate E) where
  open crate use {
    generate, to_public, identity_text, recipient_text, parse_recipient, with_recipients,
    wrap_output, write_all, finish,
  }
  open utf8 use {text_bytes}

  unfoldable pub generate_keypair : Eff E (String × KeyMaterial)
  generate_keypair = do
    identity ← act generate
    let public_key = recipient_text (to_public identity)
    let private_key_str = identity_text identity
    pure (public_key, KeyMaterial.new (text_bytes private_key_str))

  unfoldable pub encrypt_with_public_key : String → Bytes → Eff E Bytes
  encrypt_with_public_key public_key plaintext = do
    recipient ← lift (
        map_err (parse_recipient public_key)
          (λ e. age_encrypt_failed (prefix_error "invalid recipient: " e)))
    encryptor ← lift (
        map_err (with_recipients (recipient ∷ []))
          (λ e. age_encrypt_failed (prefix_error "encryptor creation failed: " e)))
    writer ←
        call (wrap_output encryptor)
          (λ e. age_encrypt_failed (prefix_error "wrap_output failed: " e))
    written ← lift (
        map_err (write_all writer plaintext)
          (λ e. age_encrypt_failed (prefix_error "write failed: " e)))
    lift (map_err (finish written) (λ e. age_encrypt_failed (prefix_error "finish failed: " e)))

  abbrev pub age_ops : AgeOps E
  age_ops = record {
    generate_keypair = generate_keypair;
    public_key_from_private = public_key_from_private utf8 crate;
    encrypt_with_public_key = encrypt_with_public_key;
    decrypt_with_private_key = decrypt_with_private_key utf8 crate;
  }
