-- ===== src/K8s/Metadata.antt =====
-- `SecretMetadata` of genesis-core/src/k8s/inject.rs. A `HashMap` is a list of keys and values in
-- the order of the insertions, whose keys differ.
use genesis_operator.Prelude.{
  ℕ, zero, suc, String, Option, none, some, List, [], ◌∷◌, ◌++◌, is_empty, if◌then◌else◌,
}
use genesis_operator.Json.{Value, Members, string, object, texts, end, member}

pub record SecretMetadata : Type 0 where
  pub provider_type : Option String
  pub public_key : Option String
  pub bootstrap_name : Option String
  pub bootstrap_namespace : Option String

-- `chars().take(n).collect()`
abbrev pub take_chars : ℕ → String → String
take_chars zero s = ""
take_chars (suc n) String.[] = ""
take_chars (suc n) (String.◌∷◌ c s) = String.◌∷◌ c (take_chars n s)

-- `if let Some(ref v) = o { map.insert(key, v.clone()); }`
abbrev pub entry : String → Option String → List (String × String)
entry key none = []
entry key (some v) = (key, v) ∷ []

unfoldable pub labels : SecretMetadata → List (String × String)
labels m =
    ("app.kubernetes.io/managed-by", "genesis-operator")
    ∷ ("app.kubernetes.io/part-of", "genesis")
    ∷ (entry "genesis.io/provider" m.provider_type
        ++ (entry "genesis.io/bootstrap-name" m.bootstrap_name
            ++ entry "genesis.io/bootstrap-namespace" m.bootstrap_namespace))

abbrev fingerprint : Option String → Option String
fingerprint none = none
fingerprint (some pk) = some (take_chars 12 pk)

unfoldable pub annotations : SecretMetadata → List (String × String)
annotations m = entry "genesis.io/public-key-fingerprint" (fingerprint m.public_key)

-- An object member, left out where the map is empty.
abbrev pub unless_empty : String → List (String × String) → Members → Members
unless_empty key entries rest =
    if is_empty entries then rest else member key (object (texts entries)) rest

abbrev meta_members : Option SecretMetadata → Members
meta_members none = end
meta_members (some m) =
    unless_empty "labels" (labels m) (unless_empty "annotations" (annotations m) end)

-- `secret_body`, with the key bytes encoded.
unfoldable pub secret_body : String → String → String → String → Option SecretMetadata → Value
unfolding labels annotations
secret_body encoded secret_name secret_namespace secret_key metadata = object (
    member "apiVersion" (string "v1") (
      member "kind" (string "Secret") (
        member "metadata"
          (object (
            member "name" (string secret_name)
              (member "namespace" (string secret_namespace) (meta_members metadata))))
          (member "type" (string "Opaque")
            (member "data" (object (member secret_key (string encoded) end)) end)))))
