-- ===== src/Tests/Letters.antt =====
-- A stand-in for base64 with its law.
use Prim.Native.Char.{char, code}
use genesis_operator.Prelude.{
  ℕ, zero, suc, ◌==◌, String, [], ◌∷◌, Bytes, ◌≡◌, refl, ap, if◌then◌else◌,
}
use genesis_operator.Http.{Base64, Base64Law}
use genesis_operator.Outcome.{Ext, good, bad}

-- a number as that many letters a, and a letter b
abbrev pub spell : ℕ → String → String
spell zero s = String.◌∷◌ (char 98 tt) s
spell (suc n) s = String.◌∷◌ (char 97 tt) (spell n s)

abbrev pub letters : Bytes → String
letters [] = ""
letters (n ∷ rest) = spell n (letters rest)

abbrev pub one_more : Ext Bytes → Ext Bytes
one_more (bad e) = bad e
one_more (good []) = bad "no number"
one_more (good (n ∷ rest)) = good (suc n ∷ rest)

abbrev pub next_number : Ext Bytes → Ext Bytes
next_number (bad e) = bad e
next_number (good rest) = good (0 ∷ rest)

unfoldable pub numbers : String → Ext Bytes
numbers String.[] = good []
numbers (String.◌∷◌ c s) =
    let rest = numbers s in if code c == 97 then one_more rest else next_number rest

numbers-spell :
    (n : ℕ) (s : String) (rest : Bytes)
    → numbers s ≡ good rest
    → numbers (spell n s) ≡ good (n ∷ rest)
unfolding numbers
numbers-spell zero s rest h = ap next_number h
numbers-spell (suc n) s rest h = ap one_more (numbers-spell n s rest h)

pub numbers-letters : (bytes : Bytes) → numbers (letters bytes) ≡ good bytes
unfolding numbers
numbers-letters [] = refl
numbers-letters (n ∷ rest) = numbers-spell n (letters rest) rest (numbers-letters rest)

abbrev pub in_letters : Base64
in_letters = record { encode = letters; decode = numbers }

pub in_letters-Base64Law : Base64Law in_letters
in_letters-Base64Law = record { decodes = numbers-letters }
