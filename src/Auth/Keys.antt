-- ===== src/Auth/Keys.antt =====
-- auth/src/keys.rs: minting of Lore tokens. The key pair itself is the crates', its files are in
-- Files.
pub mod Files
pub mod Origin
pub mod Boot
pub mod Torn
use kaguya.Base.{ℕ, String, false, some, List, [], ◌∷◌, Prog, lift, ◌>>=◌, ok}
use kaguya.Auth.Claims.{ResourceGrant, MintedClaims}
use kaguya.Auth.Crates.{Crates, Header, OwnJwk, rs256}

module _ (c : Crates) where
  open c use {World, EncodingKey, unix_seconds, encode}

  pub record Signer : Type 0 where
    pub encoding_key : EncodingKey
    pub kid : String
    pub own_jwk : OwnJwk

  -- `now_secs`
  unfoldable pub now_secs : Prog String World ℕ
  now_secs w = let (n, w') = unix_seconds w in (ok n, w')

  unfoldable pub header_of : Signer → Header
  header_of s = record { alg = rs256; kid = some s.kid }

  unfoldable pub mint :
      Signer
      → String
      → String
      → String
      → String
      → String
      → ℕ
      → List ResourceGrant
      → Prog String World String
  unfolding now_secs header_of
  mint signer issuer audience subject name preferred_username exp resources = do
    now ← now_secs
    let claims : MintedClaims = record {
      iss = issuer;
      sub = subject;
      aud = audience ∷ [];
      iat = now;
      exp = exp;
      name = name;
      preferred_username = preferred_username;
      is_service_account = false;
      resources = resources;
    }
    lift (encode (header_of signer) claims signer.encoding_key)
