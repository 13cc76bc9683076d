-- ===== src/K8s/Mock/Laws.antt =====
-- What the mock injector remembers.
use Prim.Native.String
use Prim.Native.String.append
use genesis_operator.Prelude.{
  String, str_eq, eq_iff, Bool, Bool-cases, true, false, ◌||◌, ◌&&◌, Option, List, [], ◌∷◌, Bytes,
  concat, ◌≡◌, refl, ap, ◌∙◌, inl, inr,
}
use genesis_operator.Outcome.{ok, Eff}
use genesis_operator.Outcome.Effect.{pure, ◌>>◌}
use genesis_operator.K8s.Metadata.{SecretMetadata}
use genesis_operator.K8s.Auth.{starts_with, strip_prefix}
use genesis_operator.K8s.Mock.Paths.{no_slash, part, starts_with-part}
use genesis_operator.K8s.Mock.{
  MockSecretInjector, new, insert, any_key, compound_key, inject, secret_exists,
}

equal_texts : (s t : String) → str_eq s t ≡ true → s ≡ t
equal_texts s t h = (eq_iff s t).0 h

module _ {A : Type 0} where
  -- the keys of the map, with the new one
  any_key-insert :
      (test : String → Bool) (key : String) (value : A) (m : List (String × A))
      → any_key test (insert key value m) ≡ (test key || any_key test m)
  unfolding any_key insert
  any_key-insert test key value [] = refl
  any_key-insert test key value ((k, v) ∷ rest) = elim (Bool-cases (str_eq k key)) [
    | inl e ↦ rw (e, equal_texts k key e) (absorbed (test key) (any_key test rest))
    | inr e ↦
        rw (e, any_key-insert test key value rest) (swapped (test k) (test key) (any_key test rest))
  ]
    where
      absorbed : (a b : Bool) → (a || b) ≡ (a || (a || b))
      absorbed true b = refl
      absorbed false b = refl

      swapped : (a b c : Bool) → (a || (b || c)) ≡ (b || (a || c))
      swapped true true c = refl
      swapped true false c = refl
      swapped false b c = refl

-- the arguments of a call of `inject`
pub record Injection : Type 0 where
  pub key_bytes : Bytes
  pub name : String
  pub namespace : String
  pub key : String
  pub metadata : Option SecretMetadata

unfoldable pub injects : List Injection → Eff MockSecretInjector (Unit {0})
injects [] = pure tt
injects (i ∷ rest) = inject i.key_bytes i.name i.namespace i.key i.metadata >> injects rest

-- one of these is for the secret
unfoldable pub any_into : String → String → List Injection → Bool
any_into name namespace [] = false
any_into name namespace (i ∷ rest) =
    (str_eq namespace i.namespace && str_eq name i.name) || any_into name namespace rest

unfoldable pub names_free : List Injection → Bool
names_free [] = true
names_free (i ∷ rest) = (no_slash i.namespace && no_slash i.name) && names_free rest

abbrev exists_prefix : String → String → String
exists_prefix name namespace = concat (namespace ∷ "/" ∷ name ∷ "/" ∷ [])

starts_with-compound_key :
    (name namespace name' namespace' key : String)
    → no_slash name ≡ true
    → no_slash namespace ≡ true
    → no_slash name' ≡ true
    → no_slash namespace' ≡ true
    → starts_with (exists_prefix name namespace) (compound_key namespace' name' key)
      ≡ (str_eq namespace namespace' && str_eq name name')
unfolding strip_prefix
starts_with-compound_key name namespace name' namespace' key n ns n' ns' =
    starts_with-part namespace namespace' (part name "") (part name' (String.◌++◌ key "")) ns ns'
    ∙ ap (str_eq namespace namespace' &&◌)
        (starts_with-part name name' "" (String.◌++◌ key "") n n' ∙ and_true (str_eq name name'))
  where
    and_true : (b : Bool) → (b && true) ≡ b
    and_true true = refl
    and_true false = refl

module _ (name namespace : String) (name_free : no_slash name ≡ true)
    (namespace_free : no_slash namespace ≡ true) where
  abbrev test : String → Bool
  test = starts_with (exists_prefix name namespace)

  any_key-injects :
      (is : List Injection) (injector : MockSecretInjector)
      → names_free is ≡ true
      → any_key test (injects is injector).1.secrets
        ≡ (any_into name namespace is || any_key test injector.secrets)
  unfolding injects any_into names_free inject
  any_key-injects [] injector free = refl
  any_key-injects (i ∷ rest) injector free =
      let (i_ns, i_name, rest_free) =
        parts (no_slash i.namespace) (no_slash i.name) (names_free rest) free in
      let after = (inject i.key_bytes i.name i.namespace i.key i.metadata injector).1 in
      any_key-injects rest after rest_free
      ∙ ap (any_into name namespace rest ||◌) (
          any_key-insert test (compound_key i.namespace i.name i.key) i.key_bytes injector.secrets
          ∙ ap (λ z. z || any_key test injector.secrets)
              (starts_with-compound_key name namespace i.name i.namespace i.key name_free
                namespace_free i_name i_ns))
      ∙ swapped (any_into name namespace rest) (str_eq namespace i.namespace && str_eq name i.name)
          (any_key test injector.secrets)
    where
      parts : (a b c : Bool) → ((a && b) && c) ≡ true → (a ≡ true) × (b ≡ true) × (c ≡ true)
      parts true true c h = (refl, refl, h)
      parts true false c h = cc h
      parts false b c h = cc h

      swapped : (a b c : Bool) → (a || (b || c)) ≡ ((b || a) || c)
      swapped true true c = refl
      swapped true false c = refl
      swapped false true c = refl
      swapped false false c = refl

  -- After any injections into a new mock, secret_exists says exactly whether one of them was for
  -- this name in this namespace, where no name and no namespace holds a slash.
  pub secret_exists-injects :
      (is : List Injection)
      → names_free is ≡ true
      → (secret_exists name namespace (injects is new).1).0 ≡ ok (any_into name namespace is)
  unfolding secret_exists any_key
  secret_exists-injects is free =
      ap ok (any_key-injects is new free ∙ or_false (any_into name namespace is))
    where
      or_false : (b : Bool) → (b || false) ≡ b
      or_false true = refl
      or_false false = refl
