-- ===== src/K8s/Auth/Lines.antt =====
-- Lines and trimmed text of a kubeconfig: what is written line by line is read line by line.
use Prim.Native.Char.{Char, char, code}
use Prim.Native.String
use Prim.Native.String.append
use genesis_operator.Prelude.{
  String, Bool, true, false, ◌&&◌, ◌||◌, not, some, List, [], ◌∷◌, ◌≡◌, refl, sym, ap, subst, ◌∙◌,
  ◌==◌, if◌then◌else◌, arith,
}
use genesis_operator.K8s.Auth.{trim_start, before_end, trim_end, trim_both, strip_prefix, lines}

-- a line that holds no `\n` and no `\r`
unfoldable pub one_line : String → Bool
one_line String.[] = true
one_line (String.◌∷◌ c s) =
    let rest = one_line s in if code c == b'\n' || code c == b'\r' then false else rest

unfoldable pub all_lines : List String → Bool
all_lines [] = true
all_lines (line ∷ rest) = one_line line && all_lines rest

abbrev pub newline : Char
newline = char 10 tt

unfoldable pub unlines : List String → String
unlines [] = ""
unlines (line ∷ rest) = String.◌++◌ line (String.◌∷◌ newline (unlines rest))

lines-line :
    (line rest : String)
    → one_line line ≡ true
    → lines (String.◌++◌ line (String.◌∷◌ newline rest)) ≡ line ∷ lines rest
unfolding lines one_line
lines-line String.[] rest h = rw (append.nil (String.◌∷◌ newline rest)) refl
lines-line (String.◌∷◌ c line) rest h =
    let (no_end, no_return, plain) = parts (code c == b'\n') (code c == b'\r') (one_line line) h in
    rw (append.cons c line (String.◌∷◌ newline rest), no_end, no_return, lines-line line rest plain)
  where
    parts :
        (a b r : Bool)
        → (if a || b then false else r) ≡ true
        → (a ≡ false) × (b ≡ false) × (r ≡ true)
    parts false false r h = (refl, refl, h)
    parts false true r h = cc h
    parts true b r h = cc h

pub lines-unlines : (ls : List String) → all_lines ls ≡ true → lines (unlines ls) ≡ ls
unfolding lines unlines all_lines
lines-unlines [] h = refl
lines-unlines (line ∷ rest) h =
    let (plain, others) = both (one_line line) (all_lines rest) h in
    lines-line line (unlines rest) plain ∙ ap (line ∷◌) (lines-unlines rest others)
  where
    both : (a b : Bool) → (a && b) ≡ true → (a ≡ true) × (b ≡ true)
    both true true h = (refl, refl)
    both true false h = cc h
    both false b h = cc h

-- a text whose first character is not dropped
abbrev pub begins : (Char → Bool) → String → Bool
begins drops String.[] = false
begins drops (String.◌∷◌ c s) = not (drops c)

-- a text of which trimming leaves everything
abbrev pub Trimmed : (Char → Bool) → String → Type 0
Trimmed drops s = (begins drops s ≡ true) × (trim_end drops s ≡ s)

unfoldable pub all_of : (Char → Bool) → String → Bool
all_of drops String.[] = true
all_of drops (String.◌∷◌ c s) = let rest = all_of drops s in if drops c then rest else false

module _ (drops : Char → Bool) where
  trim_start-append :
      (indent s : String)
      → all_of drops indent ≡ true
      → trim_start drops (String.◌++◌ indent s) ≡ trim_start drops s
  unfolding trim_start all_of
  trim_start-append String.[] s h = rw (append.nil s)
  trim_start-append (String.◌∷◌ c indent) s h =
      let (here, rest) = both (drops c) (all_of drops indent) h in
      rw (append.cons c indent s, here, trim_start-append indent s rest)
    where
      both : (a r : Bool) → (if a then r else false) ≡ true → (a ≡ true) × (r ≡ true)
      both true r h = (refl, h)
      both false r h = cc h

  trim_start-begins : (s : String) → begins drops s ≡ true → trim_start drops s ≡ s
  unfolding trim_start
  trim_start-begins String.[] h = refl
  trim_start-begins (String.◌∷◌ c s) h = by_drop (drops c) refl h
    where
      by_drop :
          (b : Bool)
          → drops c ≡ b
          → not b ≡ true
          → (if drops c then trim_start drops s else String.◌∷◌ c s) ≡ String.◌∷◌ c s
      by_drop true e h = cc h
      by_drop false e h = rw e

  pub trim_both-Trimmed : (s : String) → Trimmed drops s → trim_both drops s ≡ s
  unfolding trim_both
  trim_both-Trimmed s (starts, ends) = rw (trim_start-begins s starts, ends)

  pub begins-append : (a b : String) → begins drops a ≡ true → begins drops (String.◌++◌ a b) ≡ true
  begins-append String.[] b h = cc h
  begins-append (String.◌∷◌ c a) b h = rw (append.cons c a b, h)

  -- trimming the end leaves something, and all of it
  abbrev pub Kept : String → Type 0
  Kept s = (begins (λ c. false) s ≡ true) × (trim_end drops s ≡ s)

  pub Trimmed-Kept : (s : String) → Trimmed drops s → Kept s
  Trimmed-Kept String.[] (starts, ends) = cc starts
  Trimmed-Kept (String.◌∷◌ c s) (starts, ends) = (refl, ends)

  pub cons_Kept : (c : Char) (s : String) → Kept s → Kept (String.◌∷◌ c s)
  unfolding trim_end
  cons_Kept c String.[] (some_left, ends) = cc some_left
  cons_Kept c (String.◌∷◌ d s) (some_left, ends) = (refl, ap (before_end drops c) ends)

  pub append_Kept : (a b : String) → Kept b → Kept (String.◌++◌ a b)
  append_Kept String.[] b kept = subst Kept (sym (append.nil b)) kept
  append_Kept (String.◌∷◌ c a) b kept =
      subst Kept (sym (append.cons c a b)) (cons_Kept c (String.◌++◌ a b) (append_Kept a b kept))

  -- an indented text
  pub trim_both-append :
      (indent s : String)
      → all_of drops indent ≡ true
      → begins drops s ≡ true
      → Kept s
      → trim_both drops (String.◌++◌ indent s) ≡ s
  unfolding trim_both
  trim_both-append indent s dropped starts kept =
      rw (trim_start-append indent s dropped, trim_start-begins s starts, kept.1)

pub strip_prefix-append : (prefix s : String) → strip_prefix prefix (String.◌++◌ prefix s) ≡ some s
unfolding strip_prefix
strip_prefix-append String.[] s = rw (append.nil s)
strip_prefix-append (String.◌∷◌ c prefix) s =
    let same : (code c == code c) ≡ true = ground arith in
    rw (append.cons c prefix s, same, strip_prefix-append prefix s)
