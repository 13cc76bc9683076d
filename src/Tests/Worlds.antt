-- ===== src/Tests/Worlds.antt =====
-- Stand-ins for the crates, the key service and the cluster, with proofs that they keep their
-- contracts.
use genesis_operator.Prelude.{
  String, true, List, [], ◌∷◌, ◌++◌, Bytes, length, replicate, length-replicate, bytes_eq,
  bytes_eq_refl, ◌≡◌, refl, sym, ap, subst, ◌∙◌,
}
use genesis_operator.Errors.{age_decrypt_failed}
use genesis_operator.KeyMaterial.{KeyMaterial, new, as_bytes}
use genesis_operator.Outcome.{Res, ok, err, Ext, good, bad}
use genesis_operator.Outcome.Effect.{pure}
use genesis_operator.Crypto.Interface.{AgeOps, AgePair, AgeContract, PqOps, KemPair, PqContract}
use genesis_operator.Crypto.Hybrid.{SymCrates, SymLaws}
use genesis_operator.Envelope.Hybrid.{Crypto, FillLaw}
use genesis_operator.Audit.{AuditEvent, AuditSink}
use genesis_operator.Kms.{KmsContract, null_kms_provider}
use genesis_operator.Kms.Local.{FileSystem}
use genesis_operator.Kms.Local.Laws.{FileLaw}
use genesis_operator.K8s.Injector.{SecretInjector}

good_inj : {A : Type 0} {a b : A} → ◌≡◌ {A = Ext A} (good a) (good b) → a ≡ b
good_inj e = cc e

ok_inj : {A : Type 0} {a b : A} → ◌≡◌ {A = Res A} (ok a) (ok b) → a ≡ b
ok_inj e = cc e

abbrev pub key_pair : String × KeyMaterial
key_pair = ("age1", new (1 ∷ 2 ∷ []))

abbrev unwrapped : Bytes → Res Bytes
unwrapped [] = err (age_decrypt_failed "empty")
unwrapped (b ∷ rest) = ok rest

abbrev opened : Bytes → Ext Bytes
opened [] = bad "empty"
opened (b ∷ rest) = good rest

module _ {E : Type 0} where
  -- one key pair; a ciphertext is the plaintext behind a mark
  abbrev pub small_age : AgeOps E
  small_age = record {
    generate_keypair = pure key_pair;
    public_key_from_private = λ key. ok "age1";
    encrypt_with_public_key = λ public_key plaintext. pure (7 ∷ plaintext);
    decrypt_with_private_key = λ key ciphertext. unwrapped ciphertext;
  }

  pub small-AgePair : (key : Bytes) → AgePair {E = E} small_age "age1" key
  small-AgePair key = record {
    derives = refl;
    decrypts = λ plaintext ciphertext env env' h.
        subst (λ z. unwrapped z ≡ ok plaintext) (ok_inj (ap (λ p. p.0) h)) refl;
  }

  pub small-AgeContract : AgeContract {E = E} small_age
  small-AgeContract = record {
    generates = λ public_key key env env' h.
        subst (λ z. AgePair {E = E} small_age z (as_bytes key))
          (ap (λ p. p.0) (ok_inj (ap (λ p. p.0) h))) (small-AgePair (as_bytes key));
  }

  abbrev pub small_pq : PqOps E
  small_pq = record {
    mlkem_generate_keypair = pure (2 ∷ [], new (4 ∷ []));
    mlkem_encapsulate = λ public_key. pure (8 ∷ [], 9 ∷ []);
    mlkem_decapsulate = λ key ciphertext. ok (9 ∷ []);
    mldsa_generate_keypair = pure (3 ∷ [], new (5 ∷ []));
    mldsa_sign = λ key message. ok (5 ∷ message);
    mldsa_verify = λ key message signature. ok (bytes_eq signature (5 ∷ message));
    signing_public_key = λ key. ok (3 ∷ []);
  }

  pub small-KemPair :
      (public_key : Bytes) (key : KeyMaterial) → KemPair {E = E} small_pq public_key key
  small-KemPair public_key key = record {
    agrees = λ ciphertext shared env env' h. ap (λ z. ok z.1) (ok_inj (ap (λ p. p.0) h));
  }

  pub small-PqContract : PqContract {E = E} small_pq
  small-PqContract = record {
    generates = λ public_key key env env' h. small-KemPair public_key key;
    verifies = λ key message signature public_key signed published.
        subst (λ z. ok (bytes_eq z (5 ∷ message)) ≡ ok true) (ok_inj signed)
          (ap ok (bytes_eq_refl (5 ∷ message)));
  }

abbrev pub small_sym : SymCrates
small_sym = record {
  hkdf_expand = λ salt ikm info n. good (replicate n 0);
  sha3_256 = λ bytes. bytes;
  aead_encrypt = λ key nonce plaintext. good (1 ∷ plaintext);
  aead_decrypt = λ key nonce ciphertext. opened ciphertext;
}

pub small-SymLaws : SymLaws small_sym
small-SymLaws = record {
  expands = λ salt ikm info okm n h. subst (λ z. length z ≡ n) (good_inj h) (length-replicate n 0);
  opens =
      λ key nonce plaintext ciphertext h. subst (λ z. opened z ≡ good plaintext) (good_inj h) refl;
}

module _ {E : Type 0} where
  abbrev pub small_crypto : Crypto E
  small_crypto = record {
    age = small_age;
    pq = small_pq;
    sym = small_sym;
    fill = λ n env. (good (replicate n 4), env);
  }

  pub small-FillLaw : FillLaw {E = E} small_crypto
  small-FillLaw = record {
    fills = λ n bytes env env' h.
        subst (λ z. length z ≡ n) (good_inj (ap (λ p. p.0) h)) (length-replicate n 4);
  }

  pub null-KmsContract : KmsContract {E = E} null_kms_provider
  null-KmsContract = record {
    unwraps = λ plaintext ciphertext result env1 env2 env3 env4 h k.
        sym (ok_inj (ap (λ p. p.0) h) ∙ ok_inj (ap (λ p. p.0) k));
  }

-- a file system with one file
abbrev pub one_file : FileSystem Bytes
one_file = record { read = λ path env. (good env, env); write = λ path bytes env. (good tt, bytes) }

pub one-FileLaw : FileLaw one_file
one-FileLaw = record { reads_back = λ path bytes env1 env2 h. ap (λ p. good p.1) (sym h) }

-- The outside as a log: what the audit saw, and what the cluster was given.
pub data Entry : Type 0 where
  event : AuditEvent → Entry
  secret : String → Bytes → Entry

abbrev pub Log : Type 0
Log = List Entry

abbrev pub log_audit : AuditSink Log
log_audit = record { emit_event = λ e log. log ++ (event e ∷ []) }

abbrev pub log_injector : SecretInjector Log
log_injector = record {
  inject = λ key_bytes name ns key metadata log. (ok tt, log ++ (secret name key_bytes ∷ []));
  secret_exists = λ name ns. pure true;
}
