-- ===== src/Tests/CodePoints.antt =====
-- A stand-in for the encoding of text: each character is the number of its code point.
use Prim.Native.Nat.{ℕ, Ordering, compare}
use Prim.Native.Char.{char, IsScalar, IsLt}
use genesis_operator.Prelude.{String, [], ◌∷◌, Bytes, codes, Option, none, some, ◌≡◌, refl, ap, ◌∙◌}
use genesis_operator.Outcome.{Ext, good, bad}
use genesis_operator.Crypto.Interface.{Utf8}

abbrev Both : Ordering → Ordering → Type 0
Both Ordering.lt o = IsLt o
Both Ordering.eq _ = ⊥
Both Ordering.gt _ = ⊥

-- `IsScalar` on the three comparisons that it stands on
abbrev Scalar : Ordering → Ordering → Ordering → Type 0
Scalar Ordering.lt _ _ = Unit
Scalar Ordering.eq o p = Both o p
Scalar Ordering.gt o p = Both o p

below : (o : Ordering) → Option (IsLt o)
below Ordering.lt = some tt
below Ordering.eq = none
below Ordering.gt = none

inside : (o p : Ordering) → Option (Both o p)
inside Ordering.lt p = below p
inside Ordering.eq p = none
inside Ordering.gt p = none

unfoldable pub scalar : (o p q : Ordering) → Option (Scalar o p q)
unfolding below inside
scalar Ordering.lt p q = some tt
scalar Ordering.eq p q = inside p q
scalar Ordering.gt p q = inside p q

below-IsLt : (o : Ordering) (h : IsLt o) → below o ≡ some h
unfolding below
below-IsLt Ordering.lt h = refl
below-IsLt Ordering.eq h = absurd h
below-IsLt Ordering.gt h = absurd h

inside-Both : (o p : Ordering) (h : Both o p) → inside o p ≡ some h
unfolding inside
inside-Both Ordering.lt p h = below-IsLt p h
inside-Both Ordering.eq p h = absurd h
inside-Both Ordering.gt p h = absurd h

scalar-Scalar : (o p q : Ordering) (h : Scalar o p q) → scalar o p q ≡ some h
unfolding scalar
scalar-Scalar Ordering.lt p q h = refl
scalar-Scalar Ordering.eq p q h = inside-Both p q h
scalar-Scalar Ordering.gt p q h = inside-Both p q h

abbrev pub and_char : (n : ℕ) → Option (IsScalar n) → Ext String → Ext String
and_char n none r = bad "no scalar value"
and_char n (some h) (bad e) = bad e
and_char n (some h) (good s) = good (String.◌∷◌ (char n h) s)

unfoldable pub from_codes : Bytes → Ext String
from_codes [] = good ""
from_codes (n ∷ rest) =
    and_char n (scalar (compare n 55296) (compare 57343 n) (compare n 1114112)) (from_codes rest)

pub from_codes-codes : (s : String) → from_codes (codes s) ≡ good s
unfolding from_codes
from_codes-codes String.[] = refl
from_codes-codes (String.◌∷◌ (char n h) s) =
    let valid = scalar-Scalar (compare n 55296) (compare 57343 n) (compare n 1114112) h in
    ap (λ z. and_char n z (from_codes (codes s))) valid
    ∙ ap (and_char n (some h)) (from_codes-codes s)

abbrev pub code_points : Utf8
code_points = record {
  from_utf8 = from_codes;
  text_bytes = codes;
  from_utf8-text_bytes = from_codes-codes;
}
