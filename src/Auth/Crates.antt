-- ===== src/Auth/Crates.antt =====
-- What kaguya-auth takes from third-party crates and from the system: jsonwebtoken, reqwest, rand,
-- the clocks. Each is a parameter; a call that reads the outside passes the outside world on. The
-- records that serde derives for JSON answers are those of the source.
use kaguya.Base.{ℕ, String, Bool, Option, List, Result, Prog}
use kaguya.Auth.Store.{Store}
use kaguya.Auth.Claims.{IdentityClaims, MintedClaims}

-- `Discovery` of oidc_device.rs, and `DiscoveryDoc` of jwks.rs
pub record Discovery : Type 0 where
  pub device_authorization_endpoint : String
  pub token_endpoint : String

pub record DiscoveryDoc : Type 0 where
  pub jwks_uri : String

pub record DeviceCodeResponse : Type 0 where
  pub device_code : String
  pub verification_uri_complete : Option String
  pub verification_uri : Option String
  pub expires_in : ℕ

pub record TokenResponse : Type 0 where
  pub id_token : Option String
  pub access_token : Option String
  pub error : Option String

-- jsonwebtoken's; the service names one algorithm only
pub data Algorithm : Type 0 where
  rs256 : Algorithm

pub record Validation : Type 0 where
  pub algorithm : Algorithm
  pub issuers : List String
  pub audiences : List String
  pub validate_exp : Bool

pub record Header : Type 0 where
  pub alg : Algorithm
  pub kid : Option String

-- the JSON value that `build_jwk` of keys.rs makes
pub record OwnJwk : Type 0 where
  pub kty : String
  pub key_use : String
  pub alg : String
  pub kid : String
  pub n : String
  pub e : String

pub record Crates : Type 1 where
  -- everything outside the process
  pub World : Type 0
  -- std: `Instant::now`, `SystemTime::now` in whole seconds since the epoch (0 before it),
  -- `str::to_lowercase`
  pub instant : World → ℕ × World
  pub unix_seconds : World → ℕ × World
  pub to_lowercase : String → String
  -- rand: `random::<u128>()`
  pub random_u128 : World → ℕ × World
  -- jsonwebtoken: keys, `decode_header` (the header's kid), `decode::<IdentityClaims>` (which
  -- reads the clock), `encode`. Errors are their texts.
  pub JwkSet : Type 0
  pub Jwk : Type 0
  pub DecodingKey : Type 0
  pub EncodingKey : Type 0
  pub find : JwkSet → String → Option Jwk
  pub from_jwk : Jwk → Result String DecodingKey
  -- serde_json: `from_value::<Jwk>`
  pub jwk_from_value : OwnJwk → Result String Jwk
  pub decode_header : String → Result String (Option String)
  pub decode : String → DecodingKey → Validation → Prog String World IdentityClaims
  pub encode : Header → MintedClaims → EncodingKey → Result String String
  -- reqwest: a GET, a POST of a form, the status, the body as text and as JSON
  pub Reply : Type 0
  pub Json : Type 0
  pub get : String → Prog String World Reply
  pub post_form : String → List (String × String) → Prog String World Reply
  pub error_for_status : Reply → Result String Reply
  pub text : Reply → Prog String World String
  pub json_discovery : Reply → Prog String World Discovery
  pub json_discovery_doc : Reply → Prog String World DiscoveryDoc
  pub json_device_code : Reply → Prog String World DeviceCodeResponse
  pub json_value : Reply → Prog String World Json
  -- serde_json: `from_str::<TokenResponse>` and `from_value::<JwkSet>`
  pub parse_token : String → Result String TokenResponse
  pub parse_jwks : Json → Result String JwkSet
  -- rsa, sha2 and base64: `RsaPrivateKey::new` with so many bits, its PKCS#8 PEM and back, the
  -- modulus and the exponent of the public key as base64url, the SHA-256 of a text as base64url;
  -- jsonwebtoken's `EncodingKey::from_rsa_pem`; serde_json's text of a key set
  pub PrivateKey : Type 0
  pub generate : ℕ → Prog String World PrivateKey
  pub to_pkcs8_pem : PrivateKey → Result String String
  pub from_pkcs8 : String → Result String PrivateKey
  pub modulus : PrivateKey → String
  pub exponent : PrivateKey → String
  pub sha256 : String → String
  pub from_rsa_pem : String → Result String EncodingKey
  pub jwks_text : List OwnJwk → String
  -- rusqlite: `Connection::open` and `execute_batch(SCHEMA)`
  pub open_store : String → Prog String World Store
