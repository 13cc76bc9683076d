-- ===== src/Tests/KubeconfigRuns.antt =====
-- A kubeconfig of the tests of genesis-core/src/k8s/auth.rs, with the server in quotes.
use genesis_operator.Prelude.{
  String, some, List, [], ◌∷◌, ◌++◌, ◌≡◌, refl, true, false, Bytes, Option, str_eq, concat,
  if◌then◌else◌,
}
use genesis_operator.Errors.{k8s_auth_failed}
use genesis_operator.Outcome.{ok, err, Ext, good, bad}
use genesis_operator.K8s.Auth.{
  Files, from_kubeconfig, is_whitespace, trim_start, trim_end, trim_both, strip_prefix, lines,
}
use genesis_operator.K8s.Auth.Lines.{one_line, all_lines, unlines, all_of}
use genesis_operator.K8s.Auth.Reading.{
  absent, entry_line, Entry, from_kubeconfig-unlines, from_kubeconfig_refuses,
}

abbrev head : List String
head = "apiVersion: v1" ∷ "clusters:" ∷ "- cluster:" ∷ []

abbrev server_line : String
server_line = entry_line "    " "server:" "\"https://10.0.0.1:6443\""

abbrev ca_line : String
ca_line = entry_line "    " "certificate-authority:" "/ca.crt"

abbrev token_line : String
token_line = entry_line "    " "token:" "tok123"

abbrev kubeconfig : List String
kubeconfig = head ++ (server_line ∷ ca_line ∷ "users:" ∷ token_line ∷ [])

abbrev content : String → Ext String
content path = if str_eq path "/kubeconfig" then good (unlines kubeconfig) else good "kind: Config"

abbrev files : Files (Unit {0})
files = record {
  read_to_string = λ path env. (content path, env);
  read = λ path env. (if str_eq path "/ca.crt" then good (7 ∷ []) else bad "no file", env);
}

has_server : Entry "server:" "\"https://10.0.0.1:6443\"" kubeconfig
unfolding absent trim_both trim_start trim_end is_whitespace strip_prefix all_of
has_server = record {
  before = head;
  after = ca_line ∷ "users:" ∷ token_line ∷ [];
  indent = "    ";
  splits = refl;
  first = refl;
  blank = refl;
  trimmed = (refl, refl);
}

has_token : Entry "token:" "tok123" kubeconfig
unfolding absent trim_both trim_start trim_end is_whitespace strip_prefix all_of
has_token = record {
  before = head ++ (server_line ∷ ca_line ∷ "users:" ∷ []);
  after = [];
  indent = "    ";
  splits = refl;
  first = refl;
  blank = refl;
  trimmed = (refl, refl);
}

has_ca : Entry "certificate-authority:" "/ca.crt" kubeconfig
unfolding absent trim_both trim_start trim_end is_whitespace strip_prefix all_of
has_ca = record {
  before = head ++ (server_line ∷ []);
  after = "users:" ∷ token_line ∷ [];
  indent = "    ";
  splits = refl;
  first = refl;
  blank = refl;
  trimmed = (refl, refl);
}

from_kubeconfig-unlines_example :
    from_kubeconfig files "/kubeconfig" tt
    ≡ (ok ("https://10.0.0.1:6443", "tok123", some (7 ∷ [])), tt)
unfolding all_lines one_line trim_both trim_start trim_end
from_kubeconfig-unlines_example =
    from_kubeconfig-unlines files "/kubeconfig" "\"https://10.0.0.1:6443\"" "tok123" "/ca.crt"
      kubeconfig tt tt refl refl has_server has_token has_ca

from_kubeconfig_refuses_example :
    ((e : String)
      → ◌≡◌ {A = Ext String} (good "kind: Config") (bad e)
      → from_kubeconfig files "/other" tt
        ≡ (err (k8s_auth_failed (concat ("failed to read kubeconfig: " ∷ e ∷ []))), tt))
    × ((text : String)
        → ◌≡◌ {A = Ext String} (good "kind: Config") (good text)
        → absent "server:" (lines text) ≡ true
        → from_kubeconfig files "/other" tt
          ≡ (err (k8s_auth_failed "no server found in kubeconfig"), tt))
    × ((text : String)
        → ◌≡◌ {A = Ext String} (good "kind: Config") (good text)
        → absent "server:" (lines text) ≡ false
        → (found : String × String × Option Bytes) × ((from_kubeconfig files "/other" tt).0
            ≡ ok found))
from_kubeconfig_refuses_example =
    from_kubeconfig_refuses files "/other" tt tt (good "kind: Config") refl
