-- ===== src/Prelude/Texts.antt =====
-- Text. `format!` is `concat` of the pieces; `codes` are the code points of a text.
use Prim.Native.Nat.{ℕ, zero, suc, ◌/◌, ◌%◌}
use Prim.Native.Char.{code}
use Prim.Native.String
use Prim.Native.String.{String}
use mathlib.Core.Bool.{Bool, false, ◌||◌}
use mathlib.Core.List.{List, [], ◌∷◌}
use genesis_operator.Prelude.Tests.{ltb, ◌==◌, if◌then◌else◌}

abbrev pub concat : List String → String
concat [] = ""
concat (s ∷ rest) = String.◌++◌ s (concat rest)

abbrev pub codes : String → List ℕ
codes String.[] = []
codes (String.◌∷◌ c s) = code c ∷ codes s

-- An interior NUL, which makes `CString::new` fail.
unfoldable pub has_nul : String → Bool
has_nul String.[] = false
has_nul (String.◌∷◌ c s) = code c == 0 || has_nul s

-- `{n}` of `format!`: the decimal digits. A number below 2 ^ 64 has at most 20 of them.
abbrev pub digit : ℕ → String
digit d =
    if d == 0
    then "0"
    else if d == 1
    then "1"
    else if d == 2
    then "2"
    else if d == 3
    then "3"
    else if d == 4
    then "4"
    else if d == 5
    then "5"
    else if d == 6
    then "6"
    else if d == 7
    then "7"
    else if d == 8
    then "8"
    else "9"

unfoldable pub digits : ℕ → ℕ → String → String
digits zero n done = done
digits (suc fuel) n done =
    let more = digits fuel (n / 10) (String.◌++◌ (digit (n % 10)) done) in
    if ltb n 10 then String.◌++◌ (digit n) done else more

unfoldable pub decimal : ℕ → String
unfolding digits
decimal n = digits 20 n ""
