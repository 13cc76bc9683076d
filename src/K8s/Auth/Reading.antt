-- ===== src/K8s/Auth/Reading.antt =====
-- What reading a kubeconfig finds: the first entry of each field, with blanks and quotes taken off.
use Prim.Native.String
use genesis_operator.Prelude.{
  String, Bool, Bool-cases, inl, inr, true, false, not, ◌&&◌, Option, Bytes, ap, ◌∙◌, none, some,
  List, [], ◌∷◌, ◌++◌, concat, ◌≡◌, refl, sym,
}
use genesis_operator.Kms.Aws.{or_text}
use genesis_operator.Kms.Environment.{is_some}
use genesis_operator.Errors.{k8s_auth_failed}
use genesis_operator.Outcome.{Ext, ok, err, good, bad, to_option}
use genesis_operator.K8s.Auth.{
  is_whitespace, is_quote, trim_both, strip_prefix, starts_with, lines, find_line, field, stripped,
  value_of, Files, read_if, from_kubeconfig,
}
use genesis_operator.K8s.Auth.Lines.{
  all_lines, unlines, lines-unlines, begins, Trimmed, all_of, Trimmed-Kept, append_Kept,
  begins-append, trim_both-append, strip_prefix-append,
}

-- no line of these is an entry of the field
unfoldable pub absent : String → List String → Bool
absent name [] = true
absent name (line ∷ rest) =
    not (starts_with name (trim_both is_whitespace line)) && absent name rest

abbrev pub entry_line : String → String → String → String
entry_line indent name value = String.◌++◌ indent (String.◌++◌ name (String.◌++◌ " " value))

-- the field has its first entry in these lines, with this value, which has no blanks around it
pub record Entry (name value : String) (ls : List String) : Type 0 where
  pub before : List String
  pub after : List String
  pub indent : String
  pub splits : before ++ (entry_line indent name value ∷ after) ≡ ls
  pub first : absent name before ≡ true
  pub blank : all_of is_whitespace indent ≡ true
  pub trimmed : Trimmed is_whitespace value

module _ (name value : String) (inked : begins is_whitespace name ≡ true)
    (trimmed : Trimmed is_whitespace value) where
  trim_both-entry_line :
      (indent : String)
      → all_of is_whitespace indent ≡ true
      → trim_both is_whitespace (entry_line indent name value)
        ≡ String.◌++◌ name (String.◌++◌ " " value)
  trim_both-entry_line indent blank =
      trim_both-append is_whitespace indent (String.◌++◌ name (String.◌++◌ " " value)) blank
        (begins-append is_whitespace name (String.◌++◌ " " value) inked)
        (append_Kept is_whitespace name (String.◌++◌ " " value)
          (append_Kept is_whitespace " " value (Trimmed-Kept is_whitespace value trimmed)))

  find_line-before :
      (indent : String) (before after : List String)
      → all_of is_whitespace indent ≡ true
      → absent name before ≡ true
      → find_line name (before ++ (entry_line indent name value ∷ after))
        ≡ some (entry_line indent name value)
  unfolding find_line absent
  find_line-before indent [] after blank h =
      rw (trim_both-entry_line indent blank, strip_prefix-append name (String.◌++◌ " " value))
  find_line-before indent (line ∷ before) after blank h =
      let (other, rest) =
        parts (starts_with name (trim_both is_whitespace line)) (absent name before) h in
      rw (other, find_line-before indent before after blank rest)
    where
      parts : (a b : Bool) → (not a && b) ≡ true → (a ≡ false) × (b ≡ true)
      parts false b h = (refl, h)
      parts true b h = cc h

  trim_both-space : trim_both is_whitespace (String.◌++◌ " " value) ≡ value
  unfolding all_of is_whitespace
  trim_both-space =
      trim_both-append is_whitespace " " value refl trimmed.0
        (Trimmed-Kept is_whitespace value trimmed)

field-unlines :
    (name value : String) (ls : List String)
    → begins is_whitespace name ≡ true
    → all_lines ls ≡ true
    → Entry name value ls
    → field name (unlines ls) ≡ some (trim_both is_quote value)
unfolding field
field-unlines name value ls inked plain entry = rw (
  lines-unlines ls plain,
  sym entry.splits,
  find_line-before name value inked entry.trimmed entry.indent entry.before entry.after entry.blank
      entry.first,
  trim_both-entry_line name value inked entry.trimmed entry.indent entry.blank,
  strip_prefix-append name (String.◌++◌ " " value),
  trim_both-space name value inked entry.trimmed,
)

find_line-absent :
    (name : String) (ls : List String) → absent name ls ≡ true → find_line name ls ≡ none
unfolding find_line absent
find_line-absent name [] h = refl
find_line-absent name (line ∷ rest) h =
    let (other, others) =
      parts (starts_with name (trim_both is_whitespace line)) (absent name rest) h in
    rw (other, find_line-absent name rest others)
  where
    parts : (a b : Bool) → (not a && b) ≡ true → (a ≡ false) × (b ≡ true)
    parts false b h = (refl, h)
    parts true b h = cc h

find_line-present :
    (name : String) (ls : List String)
    → absent name ls ≡ false
    → (line : String) × (find_line name ls ≡ some line)
      × (starts_with name (trim_both is_whitespace line) ≡ true)
unfolding find_line absent
find_line-present name [] h = cc h
find_line-present name (line ∷ rest) h =
    elim (Bool-cases (starts_with name (trim_both is_whitespace line))) [
      | inl here ↦ (line, rw here, here)
      | inr other ↦
          let later : absent name rest ≡ false = rw other at h in
          let (l, found, starts) = find_line-present name rest later in
          (l, rw (other, found), starts)
    ]

field-present :
    (name content : String)
    → absent name (lines content) ≡ false
    → (value : String) × (field name content ≡ some value)
unfolding field
field-present name content h =
    let (line, found, starts) = find_line-present name (lines content) h in
    by_prefix line found (strip_prefix name (trim_both is_whitespace line)) refl starts
  where
    by_prefix :
        (line : String)
        → find_line name (lines content) ≡ some line
        → (o : Option String) → strip_prefix name (trim_both is_whitespace line) ≡ o
        → is_some (strip_prefix name (trim_both is_whitespace line)) ≡ true
        → (value : String) × (field name content ≡ some value)
    by_prefix line found none e h = cc (rw e at h)
    by_prefix line found (some s) e h = (_, ap (stripped name) found ∙ ap value_of e)

module _ {E : Type 0} (files : Files E) where
  abbrev pub unquoted : String → String
  unquoted = trim_both is_quote

  -- A file of lines, of which the fields server, token and certificate-authority each have a first
  -- entry: reading it gives the two values without blanks and quotes, and the certificate that the
  -- file of the third value holds, or none where that file cannot be read. Nothing else is read.
  pub from_kubeconfig-unlines :
      (path server token ca_path : String) (ls : List String) (env env1 : E)
      → all_lines ls ≡ true
      → files.read_to_string path env ≡ (good (unlines ls), env1)
      → Entry "server:" server ls
      → Entry "token:" token ls
      → Entry "certificate-authority:" ca_path ls
      → from_kubeconfig files path env ≡ (
        ok (unquoted server, unquoted token, to_option (files.read (unquoted ca_path) env1).0),
        (files.read (unquoted ca_path) env1).1,
      )
  unfolding from_kubeconfig is_whitespace
  from_kubeconfig-unlines path server token ca_path ls env env1 plain read is_server is_token
        is_ca =
      rw (
        read,
        field-unlines "server:" server ls refl plain is_server,
        field-unlines "token:" token ls refl plain is_token,
        field-unlines "certificate-authority:" ca_path ls refl plain is_ca,
      )

  -- The reading fails in two cases and no other: the file cannot be read, or none of its lines is
  -- an entry for the server. Both give the authentication error, and then no certificate is read.
  pub from_kubeconfig_refuses :
      (path : String) (env env1 : E) (read : Ext String)
      → files.read_to_string path env ≡ (read, env1)
      → ((e : String)
          → read ≡ bad e
          → from_kubeconfig files path env
            ≡ (err (k8s_auth_failed (concat ("failed to read kubeconfig: " ∷ e ∷ []))), env1))
        × ((content : String)
            → read ≡ good content
            → absent "server:" (lines content) ≡ true
            → from_kubeconfig files path env
              ≡ (err (k8s_auth_failed "no server found in kubeconfig"), env1))
        × ((content : String)
            → read ≡ good content
            → absent "server:" (lines content) ≡ false
            → (found : String × String × Option Bytes) × ((from_kubeconfig files path env).0
                ≡ ok found))
  unfolding from_kubeconfig field
  from_kubeconfig_refuses path env env1 read h = (
    (λ e same. rw (h, same)),
    (λ content same missing. rw (h, same, find_line-absent "server:" (lines content) missing)),
    λ content same present.
        let (value, found) = field-present "server:" content present in
        let ca = (read_if files (field "certificate-authority:" content) env1).0 in
        ((value, or_text (field "token:" content) "", ca), rw (h, same, found)),
  )
