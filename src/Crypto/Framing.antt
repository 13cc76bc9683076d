-- ===== src/Crypto/Framing.antt =====
-- A nonce of twelve bytes in front of a ciphertext: both users of ChaCha20-Poly1305 store it so.
use genesis_operator.Prelude.{
  ◌≤◌, ◌≡◌, Bytes, ◌++◌, length, take, drop, take-append, drop-append, length-append, arith,
}
use genesis_operator.Outcome.{good}
use genesis_operator.Crypto.Hybrid.{SymCrates}

pub framed :
    (sym : SymCrates) (nonce ct secret plaintext key : Bytes)
    → length nonce ≡ 12
    → secret ≡ nonce ++ ct
    → sym.aead_decrypt key nonce ct ≡ good plaintext
    → (12 ≤ length secret)
      × (sym.aead_decrypt key (take 12 secret) (drop 12 secret) ≡ good plaintext)
framed sym nonce ct secret plaintext key size whole opened =
    let front : take 12 (nonce ++ ct) ≡ nonce = rw size at (take-append nonce ct) in
    let back : drop 12 (nonce ++ ct) ≡ ct = rw size at (drop-append nonce ct) in
    rw whole (omega (arith, length-append nonce ct), rw (front, back) opened)
