-- ===== src/Tests/WireRuns.antt =====
-- An envelope with a total length that is wrong, and a byte behind it, is read.
use genesis_operator.Prelude.{
  ltb, Bool, true, ◌&&◌, [], ◌∷◌, ◌++◌, Bytes, length, ◌≡◌, refl, replicate, arith,
}
use genesis_operator.Outcome.{ok}
use genesis_operator.Envelope.Wire.{
  HybridEnvelope, v2_hybrid, magic_v2, fill_total, to_bytes, from_bytes, read_fields,
  read_length_prefixed,
}
use genesis_operator.Envelope.Wire.RoundTrip.{Fits}
use genesis_operator.Envelope.Wire.Canonical.{AreBytes, from_bytes_canonical}

below : Bytes → Bool
below [] = true
below (b ∷ rest) = ltb b 256 && below rest

below-AreBytes : (xs : Bytes) → below xs ≡ true → AreBytes xs
unfolding below
below-AreBytes [] h = tt
below-AreBytes (b ∷ rest) h = (ground arith, below-AreBytes rest (ground arith))

abbrev one_byte : HybridEnvelope
one_byte = record {
  version = v2_hybrid;
  mlkem_ciphertext = 7 ∷ [];
  age_ciphertext = [];
  encrypted_secret = [];
  signature = [];
  signing_public_key = [];
}

abbrev received : Bytes
received =
    magic_v2 ++ (9 ∷ 9 ∷ 9 ∷ 9 ∷ []) ++ (1 ∷ 0 ∷ 0 ∷ 0 ∷ 7 ∷ []) ++ replicate 16 0 ++ (255 ∷ [])

received_read : from_bytes received ≡ ok one_byte
unfolding from_bytes read_fields read_length_prefixed
received_read = refl

received-AreBytes : AreBytes received
unfolding below
received-AreBytes = below-AreBytes received refl

from_bytes_canonical_example :
    (total rest : Bytes) × (length total ≡ 4)
    × (received ≡ fill_total (to_bytes one_byte) total ++ rest)
    × Fits one_byte
from_bytes_canonical_example =
    from_bytes_canonical received one_byte received-AreBytes received_read
