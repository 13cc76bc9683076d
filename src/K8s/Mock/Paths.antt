-- ===== src/K8s/Mock/Paths.antt =====
-- Paths whose parts hold no slash: one begins like another exactly where the parts are the same.
use Prim.Native.Char.{Char, char, code}
use Prim.Native.String
use Prim.Native.String.append
use text.Mathlib.TextEquality.{Char-path}
use genesis_operator.Prelude.{
  ◌==◌, String, str_eq, eq_iff, Bool, Bool-cases, true, false, ◌&&◌, none, if◌then◌else◌, ◌≡◌, ◌≢◌,
  refl, sym, ap, ◌∙◌, inl, inr, arith,
}
use genesis_operator.Kms.Environment.{is_some}
use genesis_operator.K8s.Auth.{starts_with, strip_prefix}

unfoldable pub no_slash : String → Bool
no_slash String.[] = true
no_slash (String.◌∷◌ c s) = let rest = no_slash s in if code c == b'/' then false else rest

-- a part of a path, before the rest
abbrev pub part : String → String → String
part a rest = String.◌++◌ a (String.◌++◌ "/" rest)

slash_first : (rest : String) → String.◌++◌ "/" rest ≡ String.◌∷◌ (char 47 tt) rest
slash_first rest = append.cons (char 47 tt) "" rest ∙ ap (String.◌∷◌ (char 47 tt)) (append.nil rest)

strip_prefix-same :
    (a x y : String) → strip_prefix (String.◌++◌ a x) (String.◌++◌ a y) ≡ strip_prefix x y
unfolding strip_prefix
strip_prefix-same String.[] x y = rw (append.nil x, append.nil y)
strip_prefix-same (String.◌∷◌ c a) x y =
    let same : (code c == code c) ≡ true = ground arith in
    rw (append.cons c a x, append.cons c a y, same, strip_prefix-same a x y)

head_free :
    (c : Char) (s : String)
    → no_slash (String.◌∷◌ c s) ≡ true
    → ((code c == 47) ≡ false) × (no_slash s ≡ true)
unfolding no_slash
head_free c s h = parts (code c == 47) (no_slash s) h
  where
    parts : (a r : Bool) → (if a then false else r) ≡ true → (a ≡ false) × (r ≡ true)
    parts true r h = cc h
    parts false r h = (refl, h)

strip_prefix-differ :
    (a b x y : String)
    → no_slash a ≡ true
    → no_slash b ≡ true
    → a ≢ b
    → strip_prefix (part a x) (part b y) ≡ none
unfolding strip_prefix
strip_prefix-differ String.[] String.[] x y free_a free_b differ = absurd (differ refl)
strip_prefix-differ String.[] (String.◌∷◌ d b) x y free_a free_b differ =
    let e = (head_free d b free_b).0 in
    let e' : (47 == code d) ≡ false = ground arith in
    rw (append.nil (String.◌++◌ "/" x), slash_first x, append.cons d b (String.◌++◌ "/" y), e')
strip_prefix-differ (String.◌∷◌ c a) String.[] x y free_a free_b differ =
    let e = (head_free c a free_a).0 in
    rw (append.nil (String.◌++◌ "/" y), slash_first y, append.cons c a (String.◌++◌ "/" x), e)
strip_prefix-differ (String.◌∷◌ c a) (String.◌∷◌ d b) x y free_a free_b differ =
    elim (Bool-cases (code c == code d)) [
      | inl e ↦
          (let same = Char-path c d (ground arith) in
            let others =
              strip_prefix-differ a b x y (head_free c a free_a).1 (head_free d b free_b).1
                (λ p. differ (cc (same, p))) in
            rw
              (append.cons c a (String.◌++◌ "/" x), append.cons d b (String.◌++◌ "/" y), e, others))
      | inr e ↦ rw (append.cons c a (String.◌++◌ "/" x), append.cons d b (String.◌++◌ "/" y), e)
    ]

pub starts_with-part :
    (a b x y : String)
    → no_slash a ≡ true
    → no_slash b ≡ true
    → starts_with (part a x) (part b y) ≡ (str_eq a b && starts_with x y)
starts_with-part a b x y free_a free_b = elim (Bool-cases (str_eq a b)) [
  | inl e ↦
      (let same = (eq_iff a b).0 e in
        rw (e, sym same)
          (ap is_some (
            strip_prefix-same a (String.◌++◌ "/" x) (String.◌++◌ "/" y)
            ∙ strip_prefix-same "/" x y)))
  | inr e ↦ rw (e, strip_prefix-differ a b x y free_a free_b (λ p. cc (e, (eq_iff a b).1 p)))
]
