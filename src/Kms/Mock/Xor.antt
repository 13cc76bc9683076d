-- ===== src/Kms/Mock/Xor.antt =====
-- Exclusive or with the same number twice (the `^` of kms/mock.rs), for numbers of any size.
use Prim.Native.Nat.{bit_xor, bit_xor-bitwise, differ}
use Prim.Native.Nat
use genesis_operator.Prelude.{
  ℕ, zero, suc, ◌+◌, ◌*◌, ◌/◌, ◌%◌, ◌<◌, ◌≤◌, ◌≡◌, refl, sym, ap, ◌∙◌, arith,
}

-- the digits of the exclusive or, with this many steps to go
abbrev steps : ℕ → ℕ → ℕ → ℕ
steps n a b = Nat.digits (λ z. z) differ n a b

-- any number of steps that is not below the first number gives the same
steps_enough : (n m a b : ℕ) → a ≤ n → a ≤ m → steps n a b ≡ steps m a b
steps_enough zero zero zero b h k = refl
steps_enough zero (suc m) zero b h k = refl
steps_enough (suc n) zero zero b h k = refl
steps_enough (suc n) (suc m) zero b h k = refl
steps_enough zero m (suc a) b h k = absurd (omega arith)
steps_enough (suc n) zero (suc a) b h k = absurd (omega arith)
steps_enough (suc n) (suc m) (suc a) b h k =
    ap (λ z. z * 2 + differ (suc a % 2) (b % 2))
      (steps_enough n m (suc a / 2) (b / 2) (omega arith) (omega arith))

bit_xor_step : (a b : ℕ) → bit_xor a b ≡ bit_xor (a / 2) (b / 2) * 2 + differ (a % 2) (b % 2)
bit_xor_step zero b =
    let half : bit_xor 0 (b / 2) ≡ b / 2 = λ i. bit_xor-bitwise 0 (b / 2) i in
    let whole : b ≡ b / 2 * 2 + b % 2 = omega arith in
    (λ i. bit_xor-bitwise 0 b i) ∙ whole ∙ sym (ap (λ z. z * 2 + b % 2) half)
bit_xor_step (suc a) b =
    let half : bit_xor (suc a / 2) (b / 2) ≡ steps a (suc a / 2) (b / 2) =
      (λ i. bit_xor-bitwise (suc a / 2) (b / 2) i)
      ∙ steps_enough (suc a / 2) a (suc a / 2) (b / 2) (omega arith) (omega arith) in
    (λ i. bit_xor-bitwise (suc a) b i) ∙ sym (ap (λ z. z * 2 + differ (suc a % 2) (b % 2)) half)

differ_twice : (x y : ℕ) → x < 2 → y < 2 → differ (differ x y) y ≡ x
differ_twice zero zero hx hy = refl
differ_twice zero (suc zero) hx hy = refl
differ_twice (suc zero) zero hx hy = refl
differ_twice (suc zero) (suc zero) hx hy = refl
differ_twice x (suc (suc y)) hx hy = absurd (omega arith)
differ_twice (suc (suc x)) y hx hy = absurd (omega arith)

differ_small : (x y : ℕ) → x < 2 → y < 2 → differ x y < 2
differ_small zero y hx hy = hy
differ_small (suc x) zero hx hy = hx
differ_small (suc zero) (suc zero) hx hy = omega arith
differ_small x (suc (suc y)) hx hy = absurd (omega arith)
differ_small (suc (suc x)) y hx hy = absurd (omega arith)

undone_within : (k a b : ℕ) → a ≤ k → b ≤ k → bit_xor (bit_xor a b) b ≡ a
undone_within zero zero zero ha hb =
    ap (λ z. bit_xor z 0) (λ i. bit_xor-bitwise 0 0 i) ∙ (λ i. bit_xor-bitwise 0 0 i)
undone_within zero (suc a) b ha hb = absurd (omega arith)
undone_within zero a (suc b) ha hb = absurd (omega arith)
undone_within (suc k) a b ha hb =
    let half = undone_within k (a / 2) (b / 2) (omega arith) (omega arith) in
    let small = differ_small (a % 2) (b % 2) (omega arith) (omega arith) in
    let first = bit_xor_step a b in
    let quotient : bit_xor a b / 2 ≡ bit_xor (a / 2) (b / 2) = omega arith in
    let digit : bit_xor a b % 2 ≡ differ (a % 2) (b % 2) = omega arith in
    let twice = differ_twice (a % 2) (b % 2) (omega arith) (omega arith) in
    bit_xor_step (bit_xor a b) b
    ∙ ap (λ z. bit_xor z (b / 2) * 2 + differ (bit_xor a b % 2) (b % 2)) quotient
    ∙ ap (λ z. z * 2 + differ (bit_xor a b % 2) (b % 2)) half
    ∙ ap (λ z. a / 2 * 2 + differ z (b % 2)) digit
    ∙ ap (λ z. a / 2 * 2 + z) twice
    ∙ omega arith

-- `a ^ b ^ b == a`
pub bit_xor_twice : (a b : ℕ) → bit_xor (bit_xor a b) b ≡ a
bit_xor_twice a b = undone_within (a + b) a b (omega arith) (omega arith)
