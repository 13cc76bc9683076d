-- ===== src/Envelope/Wire.antt =====
-- The binary form of a hybrid envelope: `to_bytes`, `from_bytes`, `detect_envelope_version`. All
-- functions here are pure. A `usize` sum does not wrap, since a slice has fewer than 2 ^ 63 bytes.
pub mod Reading
pub mod RoundTrip
pub mod Canonical
use genesis_operator.Prelude.{
  ℕ, ◌+◌, ◌-◌, ◌*◌, ◌/◌, ◌%◌, ◌^◌, Bool, ◌&&◌, not, [], ◌∷◌, ◌++◌, Bytes, length, take, drop, slice,
  bytes_eq, leb, ltb, if◌then◌else◌, concat, decimal, replicate,
}
use genesis_operator.Errors.{envelope_parse_failed, envelope_version_mismatch}
use genesis_operator.Outcome.{Res, ok, err}
use genesis_operator.Outcome.Pure.{◌>>=◌}

-- b"GEN2"
abbrev pub magic_v2 : Bytes
magic_v2 = b'G' ∷ b'E' ∷ b'N' ∷ b'2' ∷ []

pub data EnvelopeVersion : Type 0 where
  v1_age v2_hybrid : EnvelopeVersion

pub record HybridEnvelope : Type 0 where
  pub version : EnvelopeVersion
  pub mlkem_ciphertext : Bytes
  pub age_ciphertext : Bytes
  pub encrypted_secret : Bytes
  pub signature : Bytes
  pub signing_public_key : Bytes

-- `as u32`
abbrev pub u32 : ℕ → ℕ
u32 n = n % 2 ^ 32

-- `u32::to_le_bytes` and `u32::from_le_bytes`
abbrev pub to_le_bytes : ℕ → Bytes
to_le_bytes n = (n % 256) ∷ (n / 256 % 256) ∷ (n / 65536 % 256) ∷ (n / 16777216 % 256) ∷ []

abbrev pub from_le_bytes : Bytes → ℕ
from_le_bytes (a ∷ b ∷ c ∷ d ∷ rest) = a + b * 256 + c * 65536 + d * 16777216
from_le_bytes _ = 0

unfoldable pub write_length_prefixed : Bytes → Bytes → Bytes
write_length_prefixed buf field = (buf ++ to_le_bytes (u32 (length field))) ++ field

-- `buf[4..8].copy_from_slice(bytes)`
abbrev pub fill_total : Bytes → Bytes → Bytes
fill_total buf bytes = take 4 buf ++ (bytes ++ drop 8 buf)

unfoldable pub to_bytes : HybridEnvelope → Bytes
to_bytes e =
    let start : Bytes = magic_v2 ++ replicate 4 0 in
    let buf1 = write_length_prefixed start e.mlkem_ciphertext in
    let buf2 = write_length_prefixed buf1 e.age_ciphertext in
    let buf3 = write_length_prefixed buf2 e.encrypted_secret in
    let buf4 = write_length_prefixed buf3 e.signature in
    let buf5 = write_length_prefixed buf4 e.signing_public_key in
    fill_total buf5 (to_le_bytes (u32 (length buf5 - 8)))

-- The cursor goes in, and comes back behind the field.
unfoldable pub read_length_prefixed : Bytes → ℕ → Res (Bytes × ℕ)
read_length_prefixed input cursor =
    let len = from_le_bytes (slice input cursor 4) in
    let start = cursor + 4 in
    if ltb (length input) (cursor + 4)
    then err (envelope_parse_failed "unexpected end of envelope")
    else if ltb (length input) (start + len)
    then err (
        envelope_parse_failed
          (concat ("field length " ∷ decimal len ∷ " exceeds envelope bounds" ∷ [])))
    else ok (slice input start len, start + len)

-- The five reads of `from_bytes`, from the cursor on.
unfoldable pub read_fields : Bytes → ℕ → Res HybridEnvelope
read_fields input cursor = do
  (mlkem_ciphertext, c1) ← read_length_prefixed input cursor
  (age_ciphertext, c2) ← read_length_prefixed input c1
  (encrypted_secret, c3) ← read_length_prefixed input c2
  (signature, c4) ← read_length_prefixed input c3
  (signing_public_key, c5) ← read_length_prefixed input c4
  ok (record {
    version = v2_hybrid;
    mlkem_ciphertext = mlkem_ciphertext;
    age_ciphertext = age_ciphertext;
    encrypted_secret = encrypted_secret;
    signature = signature;
    signing_public_key = signing_public_key;
  })

unfoldable pub from_bytes : Bytes → Res HybridEnvelope
from_bytes input =
    if ltb (length input) 8
    then err (envelope_parse_failed "too short")
    else if not (bytes_eq (slice input 0 4) magic_v2)
    then err (envelope_version_mismatch "expected GEN2 magic")
    else read_fields input 8

unfoldable pub detect_envelope_version : Bytes → EnvelopeVersion
detect_envelope_version input =
    if leb 4 (length input) && bytes_eq (slice input 0 4) magic_v2 then v2_hybrid else v1_age
