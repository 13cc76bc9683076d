-- ===== src/Crypto/Age/Keypairs.antt =====
-- `crypto::age` keeps its contract when the `age` crate keeps its own.
use genesis_operator.Prelude.{String, ◌≡◌, [], ◌∷◌, Bytes, arith, ap}
use genesis_operator.Outcome.{ok, good}
use genesis_operator.Outcome.Steps.{map_err-eq-ok, checked_elim, call_elim}
use genesis_operator.Crypto.Interface.{Utf8, AgePair, AgeContract}
use genesis_operator.Crypto.Age.{AgeCrate, public_key_from_private, decrypt_with_private_key}
use genesis_operator.Crypto.Age.Calls.{generate_keypair, encrypt_with_public_key, age_ops}

module _ {E : Type 0} (crate : AgeCrate E) where
  open crate use {
    Identity, Recipient, Encryptor, Writer, Decryptor, Reader, to_public, identity_text,
    recipient_text, parse_identity, parse_recipient, with_recipients, wrap_output, write_all,
    finish, new_decryptor, decrypt, read_to_end,
  }

  -- What the documentation of the `age` crate says: keys survive their text form, and a file that
  -- was written for one recipient is read back with the identity of that recipient.
  pub record AgeCrateLaws : Type 0 where
    pub parses_identity : (i : Identity) → parse_identity (identity_text i) ≡ good i
    pub parses_recipient : (r : Recipient) → parse_recipient (recipient_text r) ≡ good r
    pub reads_back :
        (i : Identity) (encryptor : Encryptor) (writer written : Writer)
        (plaintext ciphertext : Bytes) (env env' : E)
        → with_recipients (to_public i ∷ []) ≡ good encryptor
        → wrap_output encryptor env ≡ (good writer, env')
        → write_all writer plaintext ≡ good written
        → finish written ≡ good ciphertext
        → (d : Decryptor) × (r : Reader) × (new_decryptor ciphertext ≡ good d)
          × (decrypt d i ≡ good r)
          × (read_to_end r ≡ good plaintext)

module _ {E : Type 0} (utf8 : Utf8) (crate : AgeCrate E) where
  open crate use {
    Identity, Recipient, Encryptor, Writer, with_recipients, wrap_output, write_all, finish,
    parse_recipient,
  }

  -- A successful encryption went through each of its steps.
  encrypt_steps :
      (public_key : String) (plaintext ciphertext : Bytes) (env env' : E)
      → encrypt_with_public_key utf8 crate public_key plaintext env ≡ (ok ciphertext, env')
      → (r : Recipient) × (e : Encryptor) × (w : Writer) × (v : Writer) × (parse_recipient
            public_key
          ≡ good r)
        × (with_recipients (r ∷ []) ≡ good e)
        × (wrap_output e env ≡ (good w, env'))
        × (write_all w plaintext ≡ good v)
        × (finish v ≡ good ciphertext)
  unfolding encrypt_with_public_key
  encrypt_steps public_key plaintext ciphertext env env' h =
      checked_elim (parse_recipient public_key) _ _ env h λ r parsed h1.
        checked_elim (with_recipients (r ∷ [])) _ _ env h1 λ e made h2.
          call_elim (wrap_output e) _ _ env h2 λ w env1 wrapped h3.
            checked_elim (write_all w plaintext) _ _ env1 h3 λ v wrote h4. (
              r,
              e,
              w,
              v,
              parsed,
              made,
              rw (ap (λ p. p.1) h4) at wrapped,
              wrote,
              map_err-eq-ok (finish v) _ (ap (λ p. p.0) h4),
            )

module _ {E : Type 0} (utf8 : Utf8) (crate : AgeCrate E) (laws : AgeCrateLaws crate) where
  identity_pair :
      (i : crate.Identity)
      → AgePair
          (age_ops utf8 crate)
          (crate.recipient_text (crate.to_public i))
          (utf8.text_bytes (crate.identity_text i))
  unfolding generate_keypair encrypt_with_public_key public_key_from_private
      decrypt_with_private_key
  identity_pair i = record {
    derives =
        ground (arith, utf8.from_utf8-text_bytes (crate.identity_text i), laws.parses_identity i);
    decrypts = λ plaintext ciphertext env env' h.
        let (r, e, w, v, parsed, made, wrapped, wrote, done) =
          encrypt_steps utf8 crate _ plaintext ciphertext env env' h in
        let same : r ≡ crate.to_public i =
          ground (arith, laws.parses_recipient (crate.to_public i)) in
        let (d, reader, opened, decrypted, read) =
          laws.reads_back i e w v plaintext ciphertext env env' (rw same at made) wrapped wrote
            done in
        ground (arith, utf8.from_utf8-text_bytes (crate.identity_text i), laws.parses_identity i);
  }

  -- With crates that keep their documented laws, every pair that `generate_keypair` returns is a
  -- pair: the public key is derived from the private bytes, and these decrypt what was encrypted to
  -- that public key.
  pub age_ops-contract : AgeContract (age_ops utf8 crate)
  unfolding generate_keypair
  age_ops-contract = record {
    generates = λ public_key key env env' h. ground (arith, identity_pair (crate.generate env).0);
  }
