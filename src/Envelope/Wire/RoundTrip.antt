-- ===== src/Envelope/Wire/RoundTrip.antt =====
-- `from_bytes` reads back what `to_bytes` wrote.
use genesis_operator.Prelude.{
  ℕ, suc, ◌+◌, ◌-◌, ◌^◌, ◌<◌, ◌≡◌, sym, ap, ◌∙◌, arith, [], ◌++◌, Bytes, length, take, drop, slice,
  length-append, take-append, drop-append, length-drop, drop-add, append_assoc, append-nil,
}
use genesis_operator.Outcome.{ok}
use genesis_operator.Envelope.Wire.{
  HybridEnvelope, v2_hybrid, magic_v2, u32, to_le_bytes, from_le_bytes, write_length_prefixed,
  to_bytes, read_length_prefixed, read_fields, from_bytes, detect_envelope_version,
}

-- One field as it stands in the output, in front of what follows.
unfoldable pub prefixed : Bytes → Bytes → Bytes
prefixed field rest = to_le_bytes (u32 (length field)) ++ (field ++ rest)

le_bytes_inverse : (n : ℕ) → n < 2 ^ 32 → from_le_bytes (to_le_bytes (u32 n)) ≡ n
le_bytes_inverse n h = omega arith

-- A read at a place where a field stands yields it, and goes behind it.
read_length_prefixed_at :
    (input : Bytes) (cursor : ℕ) (field rest : Bytes)
    → length field < 2 ^ 32
    → drop cursor input ≡ prefixed field rest
    → (read_length_prefixed input cursor ≡ ok (field, cursor + 4 + length field))
      × (drop (cursor + 4 + length field) input ≡ rest)
unfolding read_length_prefixed prefixed
read_length_prefixed_at input cursor field rest fits at =
    let body : drop (cursor + 4) input ≡ field ++ rest = drop-add cursor 4 input ∙ ap (drop 4) at in
    let size : from_le_bytes (slice input cursor 4) ≡ length field =
      ap (λ l. from_le_bytes (take 4 l)) at ∙ le_bytes_inverse (length field) fits in
    let room : length input - cursor ≡ 4 + (length field + length rest) =
      sym (length-drop cursor input) ∙ ap length at ∙ omega (arith, length-append field rest) in
    let behind : drop (cursor + 4 + length field) input ≡ rest =
      drop-add (cursor + 4) (length field) input
      ∙ ap (drop (length field)) body
      ∙ drop-append field rest in
    (ground (arith, size, body, room, take-append field rest), behind)

-- The five fields, in front of what follows.
abbrev pub fields : HybridEnvelope → Bytes → Bytes
fields e rest = prefixed e.mlkem_ciphertext (
    prefixed e.age_ciphertext
      (prefixed e.encrypted_secret (prefixed e.signature (prefixed e.signing_public_key rest))))

-- Every field is short enough for its 32-bit length.
pub record Fits (e : HybridEnvelope) : Type 0 where
  pub mlkem : length e.mlkem_ciphertext < 2 ^ 32
  pub age : length e.age_ciphertext < 2 ^ 32
  pub secret : length e.encrypted_secret < 2 ^ 32
  pub signature : length e.signature < 2 ^ 32
  pub key : length e.signing_public_key < 2 ^ 32

read_fields_at :
    (e : HybridEnvelope) (input : Bytes) (cursor : ℕ) (rest : Bytes)
    → Fits e
    → drop cursor input ≡ fields e rest
    → read_fields input cursor ≡ ok (record e { version = v2_hybrid })
unfolding read_fields
read_fields_at e input cursor rest fits at =
    let (r1, d1) = read_length_prefixed_at input cursor e.mlkem_ciphertext _ fits.mlkem at in
    let (r2, d2) = read_length_prefixed_at input _ e.age_ciphertext _ fits.age d1 in
    let (r3, d3) = read_length_prefixed_at input _ e.encrypted_secret _ fits.secret d2 in
    let (r4, d4) = read_length_prefixed_at input _ e.signature _ fits.signature d3 in
    let (r5, d5) = read_length_prefixed_at input _ e.signing_public_key _ fits.key d4 in
    rw (r1, r2, r3, r4, r5)

write_length_prefixed-prefixed :
    (buf field : Bytes) → write_length_prefixed buf field ≡ buf ++ prefixed field []
unfolding write_length_prefixed prefixed
write_length_prefixed-prefixed buf field = simp (append_assoc, append-nil)

prefixed-append : (field xs rest : Bytes) → prefixed field xs ++ rest ≡ prefixed field (xs ++ rest)
unfolding prefixed
prefixed-append field xs rest = simp append_assoc

-- `to_bytes` writes the magic, the length of the fields, and the fields.
pub to_bytes-layout :
    (e : HybridEnvelope)
    → to_bytes e ≡ magic_v2 ++ (to_le_bytes (u32 (length (fields e []))) ++ fields e [])
unfolding to_bytes
to_bytes-layout e =
    simp (write_length_prefixed-prefixed, append_assoc, prefixed-append)
      (ap (λ n. magic_v2 ++ (to_le_bytes (u32 n) ++ fields e [])) (total (length (fields e []))))
  where
    total : (n : ℕ) → suc (suc (suc (suc (suc (suc (suc (suc n))))))) - 8 ≡ n
    total n = omega arith

pub fields-append : (e : HybridEnvelope) (rest : Bytes) → fields e [] ++ rest ≡ fields e rest
fields-append e rest = simp prefixed-append

-- Reading back what was written, whatever bytes follow, gives the envelope at version 2: the fields
-- are the same bytes, and `from_bytes` does not look past them.
pub from_bytes-to_bytes :
    (e : HybridEnvelope) (rest : Bytes)
    → Fits e
    → from_bytes (to_bytes e ++ rest) ≡ ok (record e { version = v2_hybrid })
unfolding from_bytes
from_bytes-to_bytes e rest fits =
    let input : Bytes = magic_v2 ++ (to_le_bytes (u32 (length (fields e []))) ++ fields e []) in
    rw (to_bytes-layout e)
      (ground (arith, read_fields_at e (input ++ rest) 8 rest fits (fields-append e rest)))

-- Bytes that `to_bytes` wrote are taken for a hybrid envelope, whatever follows them.
pub detect_envelope_version-to_bytes :
    (e : HybridEnvelope) (rest : Bytes) → detect_envelope_version (to_bytes e ++ rest) ≡ v2_hybrid
unfolding detect_envelope_version
detect_envelope_version-to_bytes e rest = rw (to_bytes-layout e) (ground arith)
