-- ===== src/Json.antt =====
-- JSON values as the program builds and reads them: the variants of `serde_json::Value`. Texts are
-- parsed and printed by the `serde_json` crate, which is a parameter where it is used.
use genesis_operator.Prelude.{
  ℕ, String, Bool, Option, none, some, str_eq, if◌then◌else◌, List, [], ◌∷◌,
}

mutual
  pub data Value : Type 0 where
    null : Value
    bool : Bool → Value
    number : ℕ → Value
    string : String → Value
    array : Items → Value
    object : Members → Value

  pub data Items : Type 0 where
    nil : Items
    item : Value → Items → Items

  pub data Members : Type 0 where
    end : Members
    member : String → Value → Members → Members

unfoldable pub lookup : String → Members → Option Value
lookup key end = none
lookup key (member k v rest) = if str_eq k key then some v else lookup key rest

-- `settings.get(key)`: only an object has members.
unfoldable pub get : Value → String → Option Value
unfolding lookup
get (object members) key = lookup key members
get _ key = none

abbrev pub as_str : Option Value → Option String
as_str (some (string s)) = some s
as_str _ = none

-- `settings.get(key).and_then(|v| v.as_str())`
abbrev pub get_str : Value → String → Option String
get_str v key = as_str (get v key)

-- An object all of whose members are texts.
abbrev pub texts : List (String × String) → Members
texts [] = end
texts ((k, v) ∷ rest) = member k (string v) (texts rest)
