-- ===== src/Tests/TargetsRuns.antt =====
-- An API server that keeps a text for each URL, and an injection into three targets, of which two
-- are the same secret with two keys.
use Prim.Native.Char.{char, code}
use Prim.Native.String
use Prim.Native.String.append
use genesis_operator.Prelude.{
  ℕ, ◌==◌, String, str_eq, eq_iff, Bool-cases, true, Option, none, some, List, [], ◌∷◌, concat,
  if◌then◌else◌, ◌≡◌, ◌≢◌, refl, sym, ap, ◌∙◌, inl, inr,
}
use genesis_operator.Outcome.{good, bad}
use genesis_operator.Json.{Value, Members, string, object, member}
use genesis_operator.Http.{Method, Request, Reply, response, status_error}
use genesis_operator.K8s.Metadata.{SecretMetadata, secret_body}
use genesis_operator.K8s.Cluster.{
  Tls, UreqSecretInjector, inject, injector_of, secrets_collection_url,
}
use genesis_operator.K8s.Stored.{ApiServer, collection, resource}
use genesis_operator.State.Bootstrapping.{Target, inject_all}
use genesis_operator.State.Targets.{Undisturbed, settled, inject_all_settles}
use genesis_operator.Tests.StoredRuns.{b64}

-- the name of a secret with an x before each character, then a dot and its key
abbrev spelled : String → String → String
spelled String.[] key = String.◌∷◌ (char 46 tt) key
spelled (String.◌∷◌ c s) key = String.◌∷◌ (char 120 tt) (String.◌∷◌ c (spelled s key))

abbrev name_in : String → String
name_in String.[] = ""
name_in (String.◌∷◌ mark String.[]) = ""
name_in (String.◌∷◌ mark (String.◌∷◌ c s)) =
    let rest = name_in s in if code mark == 120 then String.◌∷◌ c rest else ""

abbrev key_of : Members → String
key_of (member _ _ (member _ (object (member key _ _)) _)) = key
key_of _ = ""

abbrev print_json : Value → String
print_json (object (member _ _ (member _ _ (member _ (object (member _ (string name) _)) rest)))) =
    spelled name (key_of rest)
print_json _ = ""

name_in-spelled : (name key : String) → name_in (spelled name key) ≡ name
name_in-spelled String.[] String.[] = refl
name_in-spelled String.[] (String.◌∷◌ c key) = refl
name_in-spelled (String.◌∷◌ c name) key = ap (String.◌∷◌ c) (name_in-spelled name key)

abbrev Files : Type 0
Files = String → Option String

abbrev written : String → String → Files → Files
written url body files asked = if str_eq url asked then some body else files asked

abbrev created_url : String → String → String
created_url url body = concat (url ∷ "/" ∷ name_in body ∷ [])

abbrev created : Option String → String → String → Files → Reply × Files
created none url body files = (response 201 "", written url body files)
created (some old) url body files = (status_error 409 "conflict", files)

abbrev shown : Option String → Files → Reply × Files
shown none files = (status_error 404 "not found", files)
shown (some old) files = (response 200 old, files)

abbrev answer : Method → String → String → Files → Reply × Files
answer Method.post url body files =
    created (files (created_url url body)) (created_url url body) body files
answer Method.put url body files = (response 200 "", written url body files)
answer Method.get url body files = shown (files url) files

abbrev many_secrets : Tls Files
many_secrets = record {
  Agent = Unit {0};
  Certificate = Unit {0};
  RootStore = Unit {0};
  read_text = λ path env. (bad "no file", env);
  read_file = λ path env. (bad "no file", env);
  default_agent = tt;
  agent_with = λ store. tt;
  pem_certificates = λ bytes. [];
  empty_store = tt;
  add_certificate = λ store cert. good tt;
  send = λ agent request env. answer request.method request.url request.body env;
}

abbrev in_test : UreqSecretInjector many_secrets
in_test = record { api_server = "https://api"; token = "t"; agent = tt }

abbrev url_of : String → String → String
url_of ns name = resource many_secrets b64 print_json in_test ns name

abbrev stored : String → String → Files → Option String
stored ns name files = files (url_of ns name)

append_assoc : (a b c : String) → String.◌++◌ (String.◌++◌ a b) c ≡ String.◌++◌ a (String.◌++◌ b c)
append_assoc String.[] b c = rw (append.nil b, append.nil (String.◌++◌ b c))
append_assoc (String.◌∷◌ x a) b c = rw (
  append.cons x a b,
  append.cons x (String.◌++◌ a b) c,
  append.cons x a (String.◌++◌ b c),
  append_assoc a b c,
)

created_url-url_of :
    (name ns key : String)
    → created_url (collection many_secrets b64 print_json in_test ns) (spelled name key)
      ≡ url_of ns name
created_url-url_of name ns key =
    rw
      (
        name_in-spelled name key,
        append_assoc "https://api" (String.◌++◌ "/api/v1/namespaces/" (String.◌++◌ ns "/secrets"))
            (String.◌++◌ "/" (String.◌++◌ name "")),
        append_assoc "/api/v1/namespaces/" (String.◌++◌ ns "/secrets")
            (String.◌++◌ "/" (String.◌++◌ name "")),
        append_assoc ns "/secrets" (String.◌++◌ "/" (String.◌++◌ name "")),
        sym (append_assoc "/secrets" "/" (String.◌++◌ name "")),
      )
      refl

-- what an answered create and an answered update do to the files
posted :
    (method : Method) (url body text : String) (status : ℕ) (files files' : Files)
    → method ≡ Method.post
    → answer method url body files ≡ (response status text, files')
    → files' ≡ written (created_url url body) body files
posted Method.post url body text status files files' m h = by_file (files (created_url url body)) h
  where
    by_file :
        (there : Option String)
        → created there (created_url url body) body files ≡ (response status text, files')
        → files' ≡ written (created_url url body) body files
    by_file none g = sym (ap (λ p. p.1) g)
    by_file (some old) g = cc (ap (λ p. p.0) g)
posted Method.put url body text status files files' m h = cc m
posted Method.get url body text status files files' m h = cc m

updated :
    (method : Method) (url body text : String) (status : ℕ) (files files' : Files)
    → method ≡ Method.put
    → answer method url body files ≡ (response status text, files')
    → files' ≡ written url body files
updated Method.post url body text status files files' m h = cc m
updated Method.put url body text status files files' m h = sym (ap (λ p. p.1) h)
updated Method.get url body text status files files' m h = cc m

refused :
    (method : Method) (url body e : String) (files files' : Files)
    → answer method url body files ≡ (status_error 409 e, files')
    → files' ≡ files
refused Method.post url body e files files' h = by_file (files (created_url url body)) h
  where
    by_file :
        (there : Option String)
        → created there (created_url url body) body files ≡ (status_error 409 e, files')
        → files' ≡ files
    by_file none g = cc (ap (λ p. p.0) g)
    by_file (some old) g = sym (ap (λ p. p.1) g)
refused Method.put url body e files files' h = cc (ap (λ p. p.0) h)
refused Method.get url body e files files' h = by_file (files url) h
  where
    by_file :
        (there : Option String) → shown there files ≡ (status_error 409 e, files') → files' ≡ files
    by_file none g = sym (ap (λ p. p.1) g)
    by_file (some old) g = cc (ap (λ p. p.0) g)

found :
    (method : Method) (url body old e : String) (files files' : Files)
    → method ≡ Method.get
    → files url ≡ some old
    → answer method url body files ≢ (status_error 404 e, files')
found Method.post url body old e files files' m there = cc m
found Method.put url body old e files files' m there = cc m
found Method.get url body old e files files' m there =
    λ h. cc (ap (λ p. p.0) (sym (ap (λ o. shown o files) there) ∙ h))

there_or_not :
    (url asked body : String) (files : Files)
    → (url ≡ asked → written url body files asked ≡ some body)
      × (url ≢ asked → written url body files asked ≡ files asked)
there_or_not url asked body files = (
  λ same. let e : str_eq url asked ≡ true = (eq_iff url asked).1 same in rw e refl,
  λ differ. elim (Bool-cases (str_eq url asked)) [
    | inl e ↦ absurd (differ ((eq_iff url asked).0 e))
    | inr e ↦ rw e refl
  ],
)

created_at :
    (r : Request) (encoded name ns key text : String) (metadata : Option SecretMetadata)
    (status : ℕ) (files files' : Files)
    → r.method ≡ Method.post
    → r.url ≡ collection many_secrets b64 print_json in_test ns
    → r.body ≡ print_json (secret_body encoded name ns key metadata)
    → answer r.method r.url r.body files ≡ (response status text, files')
    → files' ≡ written (url_of ns name) r.body files
unfolding secret_body
created_at r encoded name ns key text metadata status files files' m url body sent =
    posted r.method r.url r.body text status files files' m sent
    ∙ ap (λ u. written u r.body files)
        ((λ i. created_url (url i) (body i)) ∙ created_url-url_of name ns key)

many_secrets-ApiServer : ApiServer many_secrets b64 print_json in_test stored
many_secrets-ApiServer = record {
  creates = λ r encoded name ns key text metadata status env env' m url body sent.
      ap (λ f. stored ns name f)
        (created_at r encoded name ns key text metadata status env env' m url body sent)
      ∙ (there_or_not (url_of ns name) (url_of ns name) r.body env).0 refl;
  replaces = λ r name ns text status env env' m url sent.
      ap (λ f. stored ns name f) (updated r.method r.url r.body text status env env' m sent)
      ∙ (there_or_not r.url (url_of ns name) r.body env).0 url;
  shows = λ r name ns body e env env' m url there.
      found r.method r.url r.body body e env env' m (ap env url ∙ there);
}

many_secrets-Undisturbed : Undisturbed many_secrets b64 print_json in_test stored
many_secrets-Undisturbed = record {
  creates_only =
      λ r encoded name ns key text other_name other_ns metadata status env env' m url body differ
          sent.
        ap (λ f. stored other_ns other_name f)
          (created_at r encoded name ns key text metadata status env env' m url body sent)
        ∙ (there_or_not (url_of ns name) (url_of other_ns other_name) r.body env).1 differ;
  replaces_only = λ r name ns text other_name other_ns status env env' m url differ sent.
      ap (λ f. stored other_ns other_name f)
        (updated r.method r.url r.body text status env env' m sent)
      ∙ (there_or_not r.url (url_of other_ns other_name) r.body env).1 (λ p. differ (sym url ∙ p));
  refuses = λ r e other_name other_ns env env' sent.
      ap (λ f. stored other_ns other_name f) (refused r.method r.url r.body e env env' sent);
  by_url = λ name ns other_name other_ns env same. ap env (sym same);
}

abbrev targets : List Target
targets =
    ("age", "flux", "identity") ∷ ("age", "apps", "identity") ∷ ("age", "flux", "key.txt") ∷ []

abbrev afterwards : Files
afterwards =
    let injector = injector_of many_secrets b64 print_json in_test in
    (inject_all injector (1 ∷ []) none targets (λ url. none)).1

-- the first key of the secret in flux is gone
inject_all_settles_example : stored "flux" "age" afterwards ≡ some (spelled "age" "key.txt")
unfolding inject_all inject settled secret_body secrets_collection_url
inject_all_settles_example =
    inject_all_settles many_secrets b64 print_json in_test stored many_secrets-ApiServer
      many_secrets-Undisturbed (1 ∷ []) targets none "age" "flux" (λ url. none) afterwards refl
