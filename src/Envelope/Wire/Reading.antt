-- ===== src/Envelope/Wire/Reading.antt =====
-- What `from_bytes` accepts.
use genesis_operator.Prelude.{
  ℕ, ◌+◌, ◌≤◌, ◌≡◌, arith, Bytes, length, drop, slice, length-take, length-drop,
}
use genesis_operator.Outcome.{ok}
use genesis_operator.Envelope.Wire.{
  HybridEnvelope, v2_hybrid, read_length_prefixed, read_fields, from_bytes, from_le_bytes,
  detect_envelope_version,
}

-- A successful read takes a field that lies in the input, and leaves the cursor behind it.
pub read_length_prefixed_takes :
    (input : Bytes) (cursor : ℕ) (read : Bytes × ℕ)
    → read_length_prefixed input cursor ≡ ok read
    → (read.1 ≡ cursor + 4 + length read.0) × (read.1 ≤ length input)
unfolding read_length_prefixed
read_length_prefixed_takes input cursor read h =
    let len = from_le_bytes (slice input cursor 4) in
    ground (arith, length-take len (drop (cursor + 4) input), length-drop (cursor + 4) input)

pub payload : HybridEnvelope → ℕ
payload e =
    length e.mlkem_ciphertext
    + length e.age_ciphertext
    + length e.encrypted_secret
    + length e.signature
    + length e.signing_public_key

read_fields_takes :
    (input : Bytes) (cursor : ℕ) (e : HybridEnvelope)
    → read_fields input cursor ≡ ok e
    → (e.version ≡ v2_hybrid) × (cursor + 20 + payload e ≤ length input)
unfolding read_fields payload
read_fields_takes input cursor e h = grind (arith, read_length_prefixed_takes)

-- An accepted input is one that `detect_envelope_version` takes for a hybrid envelope, and it holds
-- the header, the five lengths and all five fields: none reaches past its end.
pub from_bytes_takes :
    (input : Bytes) (e : HybridEnvelope)
    → from_bytes input ≡ ok e
    → (detect_envelope_version input ≡ v2_hybrid)
      × (e.version ≡ v2_hybrid)
      × (28 + payload e ≤ length input)
unfolding from_bytes detect_envelope_version
from_bytes_takes input e h = ground (arith, read_fields_takes input 8 e)
