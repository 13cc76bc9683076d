-- ===== src/Prelude/Decimal.antt =====
-- The printing of numbers: 20 digits are enough for a number of 64 bits.
use Prim.Native.Nat.{ℕ, zero, suc, ◌+◌, ◌-◌, ◌*◌, ◌/◌, ◌%◌, ◌^◌, ◌<◌}
use Prim.Native.Char.{code}
use Prim.Native.String
use Prim.Native.String.{String}
use Prim.Native.String.append
use mathlib.Core.Path.{◌≡◌, ap, ◌∙◌}
use mathlib.Core.Logic.{inl, inr}
use native.Mathlib.Omega.{arith}
use native.Mathlib.Nat.{pow-suc}
use genesis_operator.Prelude.Tests.{ltb, Bool-cases}
use genesis_operator.Prelude.Texts.{digit, digits, decimal}

-- what digits say after those that say n
unfoldable pub read_from : ℕ → String → ℕ
read_from n String.[] = n
read_from n (String.◌∷◌ c s) = read_from (n * 10 + (code c - 48)) s

read_from-digit :
    (n d : ℕ) (s : String)
    → d < 10
    → read_from n (String.◌++◌ (digit d) s) ≡ read_from (n * 10 + d) s
unfolding read_from
read_from-digit n zero s h = rw (append.cons _ "" s, append.nil s)
read_from-digit n (suc zero) s h = rw (append.cons _ "" s, append.nil s)
read_from-digit n (suc (suc zero)) s h = rw (append.cons _ "" s, append.nil s)
read_from-digit n (suc (suc (suc zero))) s h = rw (append.cons _ "" s, append.nil s)
read_from-digit n (suc (suc (suc (suc zero)))) s h = rw (append.cons _ "" s, append.nil s)
read_from-digit n (suc (suc (suc (suc (suc zero))))) s h = rw (append.cons _ "" s, append.nil s)
read_from-digit n (suc (suc (suc (suc (suc (suc zero)))))) s h =
    rw (append.cons _ "" s, append.nil s)
read_from-digit n (suc (suc (suc (suc (suc (suc (suc zero))))))) s h =
    rw (append.cons _ "" s, append.nil s)
read_from-digit n (suc (suc (suc (suc (suc (suc (suc (suc zero)))))))) s h =
    rw (append.cons _ "" s, append.nil s)
read_from-digit n (suc (suc (suc (suc (suc (suc (suc (suc (suc zero))))))))) s h =
    rw (append.cons _ "" s, append.nil s)
read_from-digit n (suc (suc (suc (suc (suc (suc (suc (suc (suc (suc d)))))))))) s h =
    absurd (omega arith)

read_from-digits :
    (fuel n : ℕ) (s : String) → n < 10 ^ fuel → read_from 0 (digits fuel n s) ≡ read_from n s
unfolding digits
read_from-digits zero n s h = let e : n ≡ 0 = omega arith in rw e
read_from-digits (suc fuel) n s h = elim (Bool-cases (ltb n 10)) [
  | inl small ↦
      let same : 0 * 10 + n ≡ n = omega arith in
      rw small (read_from-digit 0 n s (ground arith) ∙ ap (λ z. read_from z s) same)
  | inr large ↦
      let whole : n / 10 * 10 + n % 10 ≡ n = omega arith in
      let less : n / 10 < 10 ^ fuel =
        (let bound : n < 10 ^ fuel * 10 = rw (pow-suc 10 fuel) at h in omega arith) in
      rw large (
        read_from-digits fuel (n / 10) (String.◌++◌ (digit (n % 10)) s) less
        ∙ read_from-digit (n / 10) (n % 10) s (omega arith)
        ∙ ap (λ z. read_from z s) whole)
]

-- A number below 10 ^ 20, so any of 64 bits, is printed with all of its digits.
pub read_from-decimal : (n : ℕ) → n < 10 ^ 20 → read_from 0 (decimal n) ≡ n
unfolding decimal read_from
read_from-decimal n h = read_from-digits 20 n "" h
