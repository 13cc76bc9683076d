-- ===== src/Tests/KmsRuns.antt =====
-- A key service in a test: it answers each request with the text that it was sent.
use genesis_operator.Prelude.{
  String, false, Option, none, some, [], ◌∷◌, ◌≡◌, refl, sym, ap, subst, ◌∙◌,
}
use genesis_operator.Json
use genesis_operator.Json.{Value, Members, object, texts, string, get_str, lookup, get}
use genesis_operator.Http.{Request, response, Web}
use genesis_operator.Outcome.{Ext, good}
use genesis_operator.Kms.{KmsContract}
use genesis_operator.Kms.Config.{KmsConfig, Cloud, create_provider}
use genesis_operator.Kms.Config.Contract.{Services, create_provider-KmsContract}
use genesis_operator.Kms.Aws
use genesis_operator.Kms.Aws.{AwsKmsProvider, Signer, or_text}
use genesis_operator.Kms.Aws.Replies.{AwsService}
use genesis_operator.Kms.Gcp
use genesis_operator.Kms.Gcp.{GcpKmsProvider}
use genesis_operator.Kms.Gcp.Replies.{GcpService}
use genesis_operator.Kms.Azure
use genesis_operator.Kms.Azure.{AzureKeyVaultProvider, AzureReplies}
use genesis_operator.Kms.Azure.Replies.{AzureService}
use genesis_operator.Tests.Letters.{
  letters, numbers, numbers-letters, in_letters, in_letters-Base64Law,
}

abbrev last_text : Members → String
last_text Json.Members.end = ""
last_text (Json.Members.member k (Json.Value.string s) Json.Members.end) = s
last_text (Json.Members.member k v rest) = last_text rest

abbrev printed : Value → String
printed (Json.Value.object members) = last_text members
printed _ = ""

abbrev reply_of : String → Value
reply_of text = object (texts (("CiphertextBlob", text) ∷ ("Plaintext", text) ∷ []))

abbrev echo : Web (Unit {0})
echo = record {
  send = λ request env. (response 200 request.body, env);
  parse_json = λ text. good (reply_of text);
  print_json = printed;
  one_text = λ name value. good (or_text (get_str value "Plaintext") "");
}

abbrev any_value : AzureReplies
any_value = record {
  error_response = λ value. good none;
  operation_response = λ value. good (get_str value "Plaintext");
}

abbrev unsigned : Signer (Unit {0})
unsigned = λ provider request env. (good [], env)

-- the value of the answer holds the body of the request
echoed :
    (p : AwsKmsProvider) (r : Request) (env env' : Unit {0}) (v : Value)
    → Aws.Replies.Answered echo unsigned in_letters p r env env' v
    → v ≡ reply_of r.body
echoed p r env env' v (text, sent, parsed) = cc (sent, parsed)

good_inj : {A : Type 0} {a b : A} → ◌≡◌ {A = Ext A} (good a) (good b) → a ≡ b
good_inj e = cc e

blob_of : (body text : String) → get_str (reply_of body) "CiphertextBlob" ≡ some text → body ≡ text
unfolding get lookup
blob_of body text h = cc h

plaintext_of : (body text : String) → get_str (reply_of body) "Plaintext" ≡ some text → body ≡ text
unfolding get lookup
plaintext_of body text h = cc h

echo-AwsService : (p : AwsKmsProvider) → AwsService echo unsigned in_letters p
echo-AwsService p = record {
  remembers =
      λ r1 r2 plaintext blob text answer v1 v2 env1 env2 env3 env4 asks1 answered1 found1 decoded
          asks2 answered2 found2.
        let blob_text : letters plaintext ≡ text =
          sym asks1.1
          ∙ blob_of r1.body text (
              subst (λ z. get_str z "CiphertextBlob" ≡ some text)
                (echoed p r1 env1 env2 v1 answered1) found1) in
        let answer_text : letters blob ≡ answer =
          sym asks2.1
          ∙ plaintext_of r2.body answer (
              subst (λ z. get_str z "Plaintext" ≡ some answer) (echoed p r2 env3 env4 v2 answered2)
                found2) in
        let same : plaintext ≡ blob =
          good_inj (sym (numbers-letters plaintext) ∙ ap numbers blob_text ∙ decoded) in
        sym answer_text ∙ ap letters (sym same);
}

gcp_echoed :
    (p : GcpKmsProvider) (r : Request) (env env' : Unit {0}) (name text : String)
    → Gcp.Replies.Answered echo in_letters p r env env' name text
    → r.body ≡ text
unfolding get lookup
gcp_echoed p r env env' name text (status, body, v, sent, parsed, read) =
    let same : r.body ≡ body = cc sent in
    let value : reply_of body ≡ v = cc parsed in
    same ∙ good_inj (ap (λ z. good (or_text (get_str z "Plaintext") "")) value ∙ read)

echo-GcpService : (p : GcpKmsProvider) → GcpService echo in_letters p
echo-GcpService p = record {
  remembers =
      λ r1 r2 plaintext blob text answer env1 env2 env3 env4 asks1 answered1 decoded asks2
          answered2.
        let same : plaintext ≡ blob = good_inj (
          sym (numbers-letters plaintext)
          ∙ ap numbers (sym asks1.1 ∙ gcp_echoed p r1 env1 env2 "ciphertext" text answered1)
          ∙ decoded) in
        sym (gcp_echoed p r2 env3 env4 "plaintext" answer answered2)
        ∙ asks2.1
        ∙ ap letters (sym same);
}

azure_echoed :
    (p : AzureKeyVaultProvider) (r : Request) (env env' : Unit {0}) (text : String)
    → Azure.Replies.Answered echo any_value in_letters p r env env' text
    → r.body ≡ text
unfolding get lookup
azure_echoed p r env env' text (status, body, v, sent, parsed, read) =
    let same : r.body ≡ body = cc sent in
    let value : reply_of body ≡ v = cc parsed in
    same ∙ some_inj (good_inj (ap (λ z. good (get_str z "Plaintext")) value ∙ read))
  where
    some_inj : {a b : String} → ◌≡◌ {A = Option String} (some a) (some b) → a ≡ b
    some_inj e = cc e

echo-AzureService : (p : AzureKeyVaultProvider) → AzureService echo any_value in_letters p
echo-AzureService p = record {
  remembers =
      λ r1 r2 plaintext blob text answer env1 env2 env3 env4 asks1 answered1 decoded asks2
          answered2.
        let same : plaintext ≡ blob = good_inj (
          sym (numbers-letters plaintext)
          ∙ ap numbers (sym asks1.1 ∙ azure_echoed p r1 env1 env2 text answered1)
          ∙ decoded) in
        ap numbers (sym (azure_echoed p r2 env3 env4 answer answered2) ∙ asks2.1)
        ∙ numbers-letters blob
        ∙ ap good (sym same);
}

abbrev echo_cloud : Cloud (Unit {0})
echo_cloud = record {
  vars = record { var = λ name env. none; exists = λ path env. false };
  web = echo;
  sign = unsigned;
  b64 = in_letters;
  b64_url = in_letters;
  replies = any_value;
  mock_build = false;
}

echo-Services : Services echo_cloud
echo-Services = record {
  aws = echo-AwsService;
  gcp = echo-GcpService;
  azure = echo-AzureService;
  base64 = in_letters-Base64Law;
}

abbrev gcp_config : KmsConfig
gcp_config = record {
  provider_type = "gcp";
  settings = object (texts (("key_resource_name", "k") ∷ ("access_token", "t") ∷ []));
}

create_provider-KmsContract_example :
    KmsContract
      (Gcp.provider echo in_letters (record { key_resource_name = "k"; access_token = "t" }))
unfolding create_provider Gcp.from_config get lookup
create_provider-KmsContract_example =
    create_provider-KmsContract echo_cloud gcp_config tt
      (Gcp.provider echo in_letters (record { key_resource_name = "k"; access_token = "t" }))
      echo-Services refl
