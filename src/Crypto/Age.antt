-- ===== src/Crypto/Age.antt =====
-- genesis-core/src/crypto/age.rs over the `age` crate, which is a parameter.
pub mod Calls
pub mod Keypairs
use genesis_operator.Prelude.{String, ◌≡◌, [], ◌∷◌, List, Bytes, concat}
use genesis_operator.Errors.{age_key_gen_failed, age_encrypt_failed, age_decrypt_failed}
use genesis_operator.KeyMaterial.{KeyMaterial}
use genesis_operator.KeyMaterial
use genesis_operator.Outcome.{Res, ok, Ext, good, Eff, map_err}
use genesis_operator.Outcome.Pure.{◌>>=◌}
use genesis_operator.Crypto.Interface.{Utf8, AgeOps}

-- The functions of the `age` crate that the program calls, with the texts of their errors.
pub record AgeCrate (E : Type 0) : Type 1 where
  pub Identity : Type 0
  pub Recipient : Type 0
  pub Encryptor : Type 0
  pub Writer : Type 0
  pub Decryptor : Type 0
  pub Reader : Type 0
  pub generate : E → Identity × E
  pub to_public : Identity → Recipient
  pub identity_text : Identity → String
  pub recipient_text : Recipient → String
  pub parse_identity : String → Ext Identity
  pub parse_recipient : String → Ext Recipient
  pub with_recipients : List Recipient → Ext Encryptor
  pub wrap_output : Encryptor → E → Ext Writer × E
  pub write_all : Writer → Bytes → Ext Writer
  pub finish : Writer → Ext Bytes
  pub new_decryptor : Bytes → Ext Decryptor
  pub decrypt : Decryptor → Identity → Ext Reader
  pub read_to_end : Reader → Ext Bytes

abbrev pub prefix_error : String → String → String
prefix_error what e = concat (what ∷ e ∷ [])

-- Pure functions; those that draw randomness are in the child `Calls`.
module _ {E : Type 0} (utf8 : Utf8) (crate : AgeCrate E) where
  open crate use {to_public, recipient_text, parse_identity, new_decryptor, decrypt, read_to_end}
  open utf8 use {from_utf8}

  unfoldable pub public_key_from_private : Bytes → Res String
  public_key_from_private private_bytes = do
    private_str ←
        map_err (from_utf8 private_bytes)
          (λ e. age_key_gen_failed (prefix_error "invalid UTF-8 in private key: " e))
    identity ←
        map_err (parse_identity private_str)
          (λ e. age_key_gen_failed (prefix_error "failed to parse identity: " e))
    ok (recipient_text (to_public identity))

  unfoldable pub decrypt_with_private_key : Bytes → Bytes → Res Bytes
  decrypt_with_private_key private_bytes ciphertext = do
    private_str ←
        map_err (from_utf8 private_bytes)
          (λ e. age_decrypt_failed (prefix_error "invalid UTF-8 in private key: " e))
    identity ←
        map_err (parse_identity private_str)
          (λ e. age_decrypt_failed (prefix_error "failed to parse identity: " e))
    decryptor ←
        map_err (new_decryptor ciphertext)
          (λ e. age_decrypt_failed (prefix_error "decryptor creation failed: " e))
    reader ←
        map_err (decrypt decryptor identity)
          (λ e. age_decrypt_failed (prefix_error "decrypt failed: " e))
    map_err (read_to_end reader) (λ e. age_decrypt_failed (prefix_error "read failed: " e))
