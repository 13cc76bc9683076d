-- ===== src/K8s/Auth.antt =====
-- genesis-core/src/k8s/auth.rs: the reading of a kubeconfig, with the methods of `str` that it
-- uses.
pub mod Lines
pub mod Reading
use Prim.Native.Char.{Char, code}
use Prim.Native.String
use genesis_operator.Prelude.{
  ℕ, String, Bool, true, false, ◌&&◌, ◌||◌, Option, none, some, List, [], ◌∷◌, Bytes, concat, ltb,
  leb, ◌==◌, if◌then◌else◌,
}
use genesis_operator.Errors.{k8s_auth_failed}
use genesis_operator.Outcome.{Ext, Eff, ok_or, to_option}
use genesis_operator.Outcome.Effect.{pure, lift, act, call, ◌>>=◌}
use genesis_operator.Kms.Aws.{or_text}
use genesis_operator.Kms.Environment.{is_some}

-- `char::is_whitespace`, which is the property White_Space of Unicode
abbrev between : ℕ → ℕ → ℕ → Bool
between low high n = leb low n && leb n high

unfoldable pub is_whitespace : Char → Bool
is_whitespace c =
    let n = code c in
    between 9 13 n
    || n == 32
    || n == 133
    || n == 160
    || n == 5760
    || between 8192 8202 n
    || between 8232 8233 n
    || n == 8239
    || n == 8287
    || n == 12288

abbrev pub is_quote : Char → Bool
is_quote c = code c == b'"'

module _ (drops : Char → Bool) where
  unfoldable pub trim_start : String → String
  trim_start String.[] = ""
  trim_start (String.◌∷◌ c s) = let rest = trim_start s in if drops c then rest else String.◌∷◌ c s

  -- a character before what is left of the rest
  abbrev pub before_end : Char → String → String
  before_end c String.[] = if drops c then "" else String.◌∷◌ c ""
  before_end c (String.◌∷◌ d s) = String.◌∷◌ c (String.◌∷◌ d s)

  unfoldable pub trim_end : String → String
  trim_end String.[] = ""
  trim_end (String.◌∷◌ c s) = before_end c (trim_end s)

  -- `trim` and `trim_matches`
  unfoldable pub trim_both : String → String
  unfolding trim_start trim_end
  trim_both s = trim_end (trim_start s)

unfoldable pub strip_prefix : String → String → Option String
strip_prefix String.[] s = some s
strip_prefix (String.◌∷◌ c prefix) String.[] = none
strip_prefix (String.◌∷◌ c prefix) (String.◌∷◌ d s) =
    let rest = strip_prefix prefix s in if code c == code d then rest else none

abbrev pub starts_with : String → String → Bool
starts_with prefix s = is_some (strip_prefix prefix s)

abbrev pub begins_line_end : String → Bool
begins_line_end String.[] = false
begins_line_end (String.◌∷◌ c s) = code c == b'\n'

abbrev pub to_first_line : Char → List String → List String
to_first_line c [] = String.◌∷◌ c "" ∷ []
to_first_line c (line ∷ rest) = String.◌∷◌ c line ∷ rest

-- `str::lines`: a line ends with `\n` or with `\r\n`, the last one perhaps with neither
unfoldable pub lines : String → List String
lines String.[] = []
lines (String.◌∷◌ c s) =
    let rest = lines s in
    if code c == b'\n'
    then "" ∷ rest
    else if code c == b'\r' && begins_line_end s
    then rest
    else to_first_line c rest

-- `.find(|l| l.trim().starts_with(name))`
unfoldable pub find_line : String → List String → Option String
find_line name [] = none
find_line name (line ∷ rest) =
    let later = find_line name rest in
    if starts_with name (trim_both is_whitespace line) then some line else later

abbrev pub value_of : Option String → Option String
value_of none = none
value_of (some s) = some (trim_both is_quote (trim_both is_whitespace s))

abbrev pub stripped : String → Option String → Option String
stripped name none = none
stripped name (some line) = value_of (strip_prefix name (trim_both is_whitespace line))

-- the chain of `find`, `strip_prefix` and `trim_matches` that the three fields share
unfoldable pub field : String → String → Option String
field name content = stripped name (find_line name (lines content))

-- The two functions of `std::fs`.
pub record Files (E : Type 0) : Type 0 where
  pub read_to_string : String → E → Ext String × E
  pub read : String → E → Ext Bytes × E

module _ {E : Type 0} (files : Files E) where
  -- `.and_then(|p| std::fs::read(p).ok())`
  abbrev pub read_if : Option String → E → Option Bytes × E
  read_if none env = (none, env)
  read_if (some path) env = (to_option (files.read path env).0, (files.read path env).1)

  unfoldable pub from_kubeconfig : String → Eff E (String × String × Option Bytes)
  from_kubeconfig path = do
    content ←
        call (files.read_to_string path)
          (λ e. k8s_auth_failed (concat ("failed to read kubeconfig: " ∷ e ∷ [])))
    server ←
        lift (ok_or (field "server:" content) (k8s_auth_failed "no server found in kubeconfig"))
    ca_cert ← act (read_if (field "certificate-authority:" content))
    pure (server, or_text (field "token:" content) "", ca_cert)
