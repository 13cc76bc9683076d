-- ===== src/Tests/StoredRuns.antt =====
-- A cluster with room for one secret, which is there already.
use genesis_operator.Prelude.{ℕ, String, Option, none, some, [], ◌∷◌, ◌≡◌, ◌≢◌, refl, ap}
use genesis_operator.Outcome.{good, bad}
use genesis_operator.Http.{Method, Reply, response, status_error, Base64}
use genesis_operator.K8s.Cluster.{Tls, UreqSecretInjector, inject}
use genesis_operator.K8s.Stored.{ApiServer, Present, inject-Present}

abbrev pub answer : Method → String → Option String → Reply × Option String
answer Method.post body none = (response 201 "", some body)
answer Method.post body (some old) = (status_error 409 "conflict", some old)
answer Method.put body cell = (response 200 "", some body)
answer Method.get body none = (status_error 404 "not found", none)
answer Method.get body (some old) = (response 200 old, some old)

abbrev pub one_secret : Tls (Option String)
one_secret = record {
  Agent = Unit {0};
  Certificate = Unit {0};
  RootStore = Unit {0};
  read_text = λ path env. (bad "no file", env);
  read_file = λ path env. (bad "no file", env);
  default_agent = tt;
  agent_with = λ store. tt;
  pem_certificates = λ bytes. [];
  empty_store = tt;
  add_certificate = λ store cert. good tt;
  send = λ agent request env. answer request.method request.body env;
}

abbrev pub b64 : Base64
b64 = record { encode = λ bytes. "b64"; decode = λ text. bad "symbol" }

abbrev in_test : UreqSecretInjector one_secret
in_test = record { api_server = "https://api"; token = "t"; agent = tt }

pub created :
    (method : Method) (body text : String) (status : ℕ) (env env' : Option String)
    → method ≡ Method.post
    → answer method body env ≡ (response status text, env')
    → env' ≡ some body
created Method.post body text status none env' m h = cc h
created Method.post body text status (some old) env' m h = cc h
created Method.put body text status env env' m h = cc m
created Method.get body text status env env' m h = cc m

pub replaced :
    (method : Method) (body text : String) (status : ℕ) (env env' : Option String)
    → method ≡ Method.put
    → answer method body env ≡ (response status text, env')
    → env' ≡ some body
replaced Method.post body text status env env' m h = cc m
replaced Method.put body text status env env' m h = cc h
replaced Method.get body text status env env' m h = cc m

pub shown :
    (method : Method) (body old e : String) (env env' : Option String)
    → method ≡ Method.get
    → env ≡ some old
    → answer method body env ≢ (status_error 404 e, env')
shown Method.post body old e env env' m h = cc m
shown Method.put body old e env env' m h = cc m
shown Method.get body old e none env' m h = cc h
shown Method.get body old e (some there) env' m h = λ g. cc (ap (λ p. p.0) g)

abbrev pub only : String → String → Option String → Option String
only ns name env = env

one_secret-ApiServer : ApiServer one_secret b64 (λ value. "{}") in_test only
one_secret-ApiServer = record {
  creates = λ r encoded name ns key text metadata status env env' m url body sent.
      created r.method r.body text status env env' m sent;
  replaces = λ r name ns text status env env' m url sent.
      replaced r.method r.body text status env env' m sent;
  shows = λ r name ns body e env env' m url there. shown r.method r.body body e env env' m there;
}

inject-Present_example :
    Present one_secret b64 (λ value. "{}") in_test only "age" "flux" "{}" (some "{}")
unfolding inject
inject-Present_example =
    inject-Present one_secret b64 (λ value. "{}") in_test only one_secret-ApiServer (1 ∷ []) "age"
      "flux" "key" none (some "old") (some "{}") refl
