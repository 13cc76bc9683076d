-- ===== src/Envelope/Wire/Canonical.antt =====
-- The bytes that `from_bytes` of envelope.rs accepts, compared with those that `to_bytes` writes.
use genesis_operator.Prelude.{
  ℕ, zero, suc, ◌-◌, ◌+◌, ◌*◌, ◌/◌, ◌%◌, ◌^◌, ◌≤◌, ◌<◌, ◌≡◌, refl, sym, ap, ◌∙◌, subst, arith, [],
  ◌∷◌, ◌++◌, Bytes, length, take, drop, slice, length-take, length-drop, drop-add, append_assoc,
  bytes_eq, bytes_eq→eq, true,
}
use genesis_operator.Outcome.{Res, ok}
use genesis_operator.Outcome.Steps.{pure_elim}
use genesis_operator.Envelope.Wire.{
  HybridEnvelope, v2_hybrid, magic_v2, u32, fill_total, to_bytes, to_le_bytes, from_le_bytes,
  read_length_prefixed, read_fields, from_bytes,
}
use genesis_operator.Envelope.Wire.RoundTrip.{
  prefixed, fields, fields-append, to_bytes-layout, Fits,
}

-- a list of bytes
abbrev pub AreBytes : Bytes → Type 0
AreBytes [] = Unit {0}
AreBytes (b ∷ rest) = (b < 256) × AreBytes rest

drop-AreBytes : (n : ℕ) (xs : Bytes) → AreBytes xs → AreBytes (drop n xs)
drop-AreBytes zero xs h = h
drop-AreBytes (suc n) [] h = tt
drop-AreBytes (suc n) (x ∷ xs) h = drop-AreBytes n xs h.1

take-drop : (n : ℕ) (xs : Bytes) → take n xs ++ drop n xs ≡ xs
take-drop zero xs = refl
take-drop (suc n) [] = refl
take-drop (suc n) (x ∷ xs) = ap (λ l. x ∷ l) (take-drop n xs)

-- four bytes are those of the number that they stand for, which fits
four_bytes :
    (xs : Bytes)
    → AreBytes xs
    → 4 ≤ length xs
    → (to_le_bytes (u32 (from_le_bytes (take 4 xs))) ≡ take 4 xs)
      × (from_le_bytes (take 4 xs) < 2 ^ 32)
four_bytes [] h long = absurd (omega arith)
four_bytes (a ∷ []) h long = absurd (omega arith)
four_bytes (a ∷ b ∷ []) h long = absurd (omega arith)
four_bytes (a ∷ b ∷ c ∷ []) h long = absurd (omega arith)
four_bytes (a ∷ b ∷ c ∷ d ∷ rest) (ha, (hb, (hc, (hd, hrest)))) long =
    let n : ℕ = a + b * 256 + c * 65536 + d * 16777216 in
    let e0 : u32 n % 256 ≡ a = omega arith in
    let e1 : u32 n / 256 % 256 ≡ b = omega arith in
    let e2 : u32 n / 65536 % 256 ≡ c = omega arith in
    let e3 : u32 n / 16777216 % 256 ≡ d = omega arith in
    ((λ i. e0 i ∷ e1 i ∷ e2 i ∷ e3 i ∷ []), omega arith)

-- what a successful read says of the input
read_facts :
    (input : Bytes) (cursor : ℕ) (read : Bytes × ℕ)
    → read_length_prefixed input cursor ≡ ok read
    → (cursor + 4 + from_le_bytes (slice input cursor 4) ≤ length input)
      × (read.0 ≡ slice input (cursor + 4) (from_le_bytes (slice input cursor 4)))
      × (read.1 ≡ cursor + 4 + from_le_bytes (slice input cursor 4))
unfolding read_length_prefixed
read_facts input cursor read h = ground arith

-- a field that was read stands at the cursor, behind its length
read_prefixed :
    (input : Bytes) (cursor : ℕ) (read : Bytes × ℕ)
    → AreBytes input
    → read_length_prefixed input cursor ≡ ok read
    → (drop cursor input ≡ prefixed read.0 (drop read.1 input)) × (length read.0 < 2 ^ 32)
unfolding prefixed
read_prefixed input cursor read bytes h =
    let len = from_le_bytes (slice input cursor 4) in
    let (room, is_field, behind) = read_facts input cursor read h in
    let tail_room : length (drop (cursor + 4) input) ≡ length input - (cursor + 4) =
      length-drop (cursor + 4) input in
    let here_room : length (drop cursor input) ≡ length input - cursor = length-drop cursor input in
    let (written, small) =
      four_bytes (drop cursor input) (drop-AreBytes cursor input bytes) (omega arith) in
    let size : length read.0 ≡ len =
      ap length is_field ∙ length-take len (drop (cursor + 4) input) (omega arith) in
    let front : to_le_bytes (u32 (length read.0)) ≡ take 4 (drop cursor input) =
      ap (λ n. to_le_bytes (u32 n)) size ∙ written in
    let rest : read.0 ++ drop read.1 input ≡ drop (cursor + 4) input =
      (λ i. is_field i ++ drop (behind i) input)
      ∙ ap (λ l. take len (drop (cursor + 4) input) ++ l) (drop-add (cursor + 4) len input)
      ∙ take-drop len (drop (cursor + 4) input) in
    (
      sym (
          (λ i. front i ++ rest i)
          ∙ ap (λ l. take 4 (drop cursor input) ++ l) (drop-add cursor 4 input)
          ∙ take-drop 4 (drop cursor input)),
      subst (λ n. n < 2 ^ 32) (sym size) small,
    )

-- the input from the cursor on, up to the bytes behind the fields
abbrev Written : Bytes → ℕ → HybridEnvelope → Type 0
Written input cursor e =
    (rest : Bytes) × (drop cursor input ≡ fields e rest) × Fits e × (e.version ≡ v2_hybrid)

ok_inj : {A : Type 0} {a b : A} → ◌≡◌ {A = Res A} (ok a) (ok b) → a ≡ b
ok_inj e = cc e

read_fields-Written :
    (input : Bytes) (cursor : ℕ) (e : HybridEnvelope)
    → AreBytes input
    → read_fields input cursor ≡ ok e
    → Written input cursor e
unfolding read_fields
read_fields-Written input cursor e bytes h =
    pure_elim (read_length_prefixed input cursor) _ h λ f1 r1 h1.
      pure_elim (read_length_prefixed input f1.1) _ h1 λ f2 r2 h2.
        pure_elim (read_length_prefixed input f2.1) _ h2 λ f3 r3 h3.
          pure_elim (read_length_prefixed input f3.1) _ h3 λ f4 r4 h4.
            pure_elim (read_length_prefixed input f4.1) _ h4 λ f5 r5 h5.
              let (at1, fits1) = read_prefixed input cursor f1 bytes r1 in
              let (at2, fits2) = read_prefixed input f1.1 f2 bytes r2 in
              let (at3, fits3) = read_prefixed input f2.1 f3 bytes r3 in
              let (at4, fits4) = read_prefixed input f3.1 f4 bytes r4 in
              let (at5, fits5) = read_prefixed input f4.1 f5 bytes r5 in
              subst (Written input cursor) (ok_inj h5) (
                drop f5.1 input,
                at1
                    ∙ ap (prefixed f1.0) (
                        at2
                        ∙ ap (prefixed f2.0)
                            (at3 ∙ ap (prefixed f3.0) (at4 ∙ ap (prefixed f4.0) at5))),
                record {
                  mlkem = fits1;
                  age = fits2;
                  secret = fits3;
                  signature = fits4;
                  key = fits5;
                },
                refl,
              )

-- the first eight bytes, where there are as many and they begin with the magic
header :
    (input : Bytes)
    → 8 ≤ length input
    → slice input 0 4 ≡ magic_v2
    → (length (slice input 4 4) ≡ 4) × (input ≡ magic_v2 ++ (slice input 4 4 ++ drop 8 input))
header input long magic = (
  length-take 4 (drop 4 input) (let room = length-drop 4 input in omega arith),
  sym (
      ap (λ l. magic_v2 ++ (take 4 (drop 4 input) ++ l)) (drop-add 4 4 input)
      ∙ (λ i. sym magic i ++ take-drop 4 (drop 4 input) i)
      ∙ take-drop 4 input),
)

-- the serialised envelope with other bytes in the place of the total length
fill_total-layout :
    (e : HybridEnvelope) (total rest : Bytes)
    → fill_total (to_bytes e) total ++ rest ≡ magic_v2 ++ (total ++ fields e rest)
fill_total-layout e total rest =
    ap (λ b. fill_total b total ++ rest) (to_bytes-layout e)
    ∙ simp append_assoc (ap (λ l. magic_v2 ++ (total ++ l)) (fields-append e rest))

-- Whatever bytes `from_bytes` accepts are those that `to_bytes` writes for the envelope that it
-- gives: they differ at most in the four bytes of the total length, which it does not read, and in
-- what follows the last field. Each field is short enough for its 32-bit length.
pub from_bytes_canonical :
    (input : Bytes) (e : HybridEnvelope)
    → AreBytes input
    → from_bytes input ≡ ok e
    → (total rest : Bytes) × (length total ≡ 4)
      × (input ≡ fill_total (to_bytes e) total ++ rest)
      × Fits e
unfolding from_bytes
from_bytes_canonical input e bytes h =
    let (long, magic, fields_read) = accepted in
    let (four, whole) = header input long (bytes_eq→eq (slice input 0 4) magic_v2 magic) in
    let (rest, at, fits, _) = read_fields-Written input 8 e bytes fields_read in
    (
      slice input 4 4,
      rest,
      four,
      whole
          ∙ ap (λ l. magic_v2 ++ (slice input 4 4 ++ l)) at
          ∙ sym (fill_total-layout e (slice input 4 4) rest),
      fits,
    )
  where
    accepted :
        (8 ≤ length input)
        × (bytes_eq (slice input 0 4) magic_v2 ≡ true)
        × (read_fields input 8 ≡ ok e)
    accepted = ground arith
