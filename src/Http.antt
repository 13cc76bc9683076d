-- ===== src/Http.antt =====
-- What the program uses of the `ureq`, `serde_json` and `base64` crates, which are parameters.
use genesis_operator.Prelude.{ℕ, String, ◌≡◌, List, Bytes}
use genesis_operator.Outcome.{Ext, good}
use genesis_operator.Json.{Value}

pub data Method : Type 0 where
  get post put : Method

pub record Request : Type 0 where
  pub method : Method
  pub url : String
  pub headers : List (String × String)
  pub body : String

-- `ureq` reports a status of 400 or more as an error, with its `Display` text.
pub data Reply : Type 0 where
  response : ℕ → String → Reply
  status_error : ℕ → String → Reply
  transport_error : String → Reply

pub record Web (E : Type 0) : Type 0 where
  pub send : Request → E → Reply × E
  pub parse_json : String → Ext Value
  pub print_json : Value → String
  -- what the derived `Deserialize` of a struct with this one text member makes of a value
  pub one_text : String → Value → Ext String

pub record Base64 : Type 0 where
  pub encode : Bytes → String
  pub decode : String → Ext Bytes

-- RFC 4648
pub record Base64Law (b64 : Base64) : Type 0 where
  pub decodes : (bytes : Bytes) → b64.decode (b64.encode bytes) ≡ good bytes
