-- ===== src/Tests/AgeRuns.antt =====
-- A stand-in for the `age` crate with one identity, whose files are the plaintext behind a mark.
use genesis_operator.Prelude.{[], ◌∷◌, Bytes, ◌≡◌, refl, subst}
use genesis_operator.Outcome.{Ext, good, bad}
use genesis_operator.Crypto.Interface.{AgeContract}
use genesis_operator.Crypto.Age.{AgeCrate}
use genesis_operator.Crypto.Age.Calls.{age_ops}
use genesis_operator.Crypto.Age.Keypairs.{AgeCrateLaws, age_ops-contract}
use genesis_operator.Tests.CodePoints.{code_points}

abbrev unmarked : Bytes → Ext Bytes
unmarked [] = bad "no header"
unmarked (mark ∷ rest) = good rest

abbrev marking : AgeCrate (Unit {0})
marking = record {
  Identity = Unit {0};
  Recipient = Unit {0};
  Encryptor = Unit {0};
  Writer = Bytes;
  Decryptor = Bytes;
  Reader = Bytes;
  generate = λ env. (tt, env);
  to_public = λ i. tt;
  identity_text = λ i. "AGE-SECRET-KEY-1";
  recipient_text = λ r. "age1";
  parse_identity = λ text. good tt;
  parse_recipient = λ text. good tt;
  with_recipients = λ rs. good tt;
  wrap_output = λ e env. (good [], env);
  write_all = λ w plaintext. good (7 ∷ plaintext);
  finish = λ w. good w;
  new_decryptor = unmarked;
  decrypt = λ d i. good d;
  read_to_end = λ r. good r;
}

marking_laws : AgeCrateLaws marking
marking_laws = record {
  parses_identity = λ i. refl;
  parses_recipient = λ r. refl;
  reads_back = λ i e w v plaintext ciphertext env env' made wrapped wrote done. (
    plaintext,
    plaintext,
    subst (λ z. unmarked z ≡ good plaintext) (marked w v plaintext ciphertext wrote done) refl,
    refl,
    refl,
  );
}
  where
    marked :
        (w v : Bytes) (plaintext ciphertext : Bytes)
        → ◌≡◌ {A = Ext Bytes} (good (7 ∷ plaintext)) (good v)
        → ◌≡◌ {A = Ext Bytes} (good v) (good ciphertext)
        → ◌≡◌ {A = Bytes} (7 ∷ plaintext) ciphertext
    marked w v plaintext ciphertext wrote done = cc (wrote, done)

age_ops-contract_example : AgeContract (age_ops code_points marking)
age_ops-contract_example = age_ops-contract code_points marking marking_laws
