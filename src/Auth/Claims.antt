-- ===== src/Auth/Claims.antt =====
-- The claims of tokens: `IdentityClaims` of auth/src/verify.rs, `ResourceGrant` and `MintedClaims`
-- of auth/src/keys.rs. Times are seconds since the epoch, below 2 ^ 64.
pub mod Accounts
use kaguya.Base.{
  ℕ, String, Bool, true, false, not, ◌&&◌, Option, none, some, List, is_empty, if◌then◌else◌,
}

pub record IdentityClaims : Type 0 where
  pub sub : String
  pub exp : ℕ
  pub preferred_username : Option String
  pub name : Option String
  pub email : Option String
  pub email_verified : Option Bool

pub record ResourceGrant : Type 0 where
  pub resource_id : String
  pub permission : List String

pub record MintedClaims : Type 0 where
  pub iss : String
  pub sub : String
  pub aud : List String
  pub iat : ℕ
  pub exp : ℕ
  pub name : String
  pub preferred_username : String
  pub is_service_account : Bool
  pub resources : List ResourceGrant

-- What the derived `Deserialize` of `IdentityClaims` reads in the JSON that the derived
-- `Serialize` of `MintedClaims` writes: the fields of the same names, `None` for those that are
-- not there.
unfoldable pub read_back : MintedClaims → IdentityClaims
read_back m = record {
  sub = m.sub;
  exp = m.exp;
  preferred_username = some m.preferred_username;
  name = some m.name;
  email = none;
  email_verified = none;
}

-- the guard of the first arm of `canonical_subject`
abbrev verified_email : Option String → Option Bool → Option String
verified_email (some email) (some true) = if is_empty email then none else some email
verified_email _ _ = none

-- `to_lowercase` follows Unicode's tables and is a parameter.
unfoldable pub canonical_subject : (String → String) → IdentityClaims → String
canonical_subject to_lowercase claims = elim (verified_email claims.email claims.email_verified) [
  | some email ↦ to_lowercase email
  | none ↦ claims.sub
]

abbrev or_else : Option String → Option String → Option String
or_else (some a) other = some a
or_else none other = other

abbrev unwrap_or : Option String → String → String
unwrap_or (some a) other = a
unwrap_or none other = other

-- `display_names` of auth/src/main.rs: the name and the preferred username
unfoldable pub display_names : IdentityClaims → String × String
display_names claims =
    let name : String =
      unwrap_or (or_else (or_else claims.name claims.preferred_username) claims.email) claims.sub in
    let preferred_username : String =
      unwrap_or (or_else claims.preferred_username claims.email) name in
    (name, preferred_username)
