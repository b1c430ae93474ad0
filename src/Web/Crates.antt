-- ===== src/Web/Crates.antt =====
-- What kaguya-web takes from third-party crates and from the system: reqwest and its Url, tonic's
-- generated clients, sha2, base64, rand, the clock. Each is a parameter; a call that reads the
-- outside passes the outside world on.
use kaguya.Base.{ℕ, String, Option, List, Result, Prog, HashMap}
use kaguya.Auth.Service.{UserToken}

-- `Discovery` and `TokenResponse` of web/src/oidc.rs
pub record Discovery : Type 0 where
  pub authorization_endpoint : String
  pub token_endpoint : String

pub record TokenResponse : Type 0 where
  pub id_token : String

-- the message `Repository` of the repository service, as far as it is read
pub record Repository : Type 0 where
  pub id : List ℕ
  pub name : String
  pub description : String
  pub default_branch_name : String

-- the metadata of a tonic `Request`: the text entries, and the binary ones
pub record Metadata (Value : Type 0) : Type 0 where
  pub texts : HashMap Value
  pub bytes : HashMap (List ℕ)

pub record Crates : Type 1 where
  pub World : Type 0
  -- `SystemTime::now` in whole seconds, and one such reading for each entry that a `retain` visits
  pub unix_seconds : World → ℕ × World
  pub entry_seconds : World → (String → ℕ) × World
  -- rand, at the two types that it is called at; base64 and sha2
  pub random_u128 : World → ℕ × World
  pub random_bytes : World → List ℕ × World
  pub encode_url_safe : List ℕ → String
  pub sha256 : String → List ℕ
  -- reqwest
  pub Reply : Type 0
  pub get : String → Prog String World Reply
  pub post_form : String → List (String × String) → Prog String World Reply
  pub error_for_status : Reply → Result String Reply
  pub json_discovery : Reply → Prog String World Discovery
  pub json_token : Reply → Prog String World TokenResponse
  pub Url : Type 0
  pub parse_url : String → Result String Url
  pub append_pair : String → String → Url → Url
  pub url_text : Url → String
  -- tonic: connecting, a header value, the calls of the two services; `message` is the next message
  -- of a stream, and its repository
  pub Channel : Type 0
  pub MetadataValue : Type 0
  pub Stream : Type 0
  pub connect : String → Prog String World Channel
  pub metadata_value : String → Option MetadataValue
  pub exchange_external_token : Channel → String → String → Prog String World (Option UserToken)
  pub exchange_multiresource :
      Channel → MetadataValue → List String → Prog String World (Option UserToken)
  pub repository_list : Channel → Metadata MetadataValue → Prog String World Stream
  pub message : Stream → Prog String World (Option (Option Repository × Stream))
