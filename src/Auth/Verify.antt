-- ===== src/Auth/Verify.antt =====
-- auth/src/verify.rs: verification of identity bearers. The cache of the IdP's key set is the state
-- of `OidcVerifier`.
pub mod Trust
pub mod Caching
pub mod Steady
use Prim.Native.String.{◌++◌ as join}
use kaguya.Base.{
  String, true, Option, none, some, List, [], ◌∷◌, Result, ok, err, Prog, pure, raise, gets, lift,
  ◌>>=◌, ◌>>◌, continue, map_result, map_err,
}
use kaguya.Auth.Claims.{IdentityClaims}
use kaguya.Auth.Crates.{Crates, OwnJwk, Validation, rs256}
use kaguya.Auth.Jwks

pub data VerifyError : Type 0 where
  malformed : String → VerifyError
  unknown_kid : String → VerifyError
  jwks : String → VerifyError
  invalid : String → VerifyError

-- its `Display`
unfoldable pub message : VerifyError → String
message (malformed m) = join "malformed token: " m
message (unknown_kid kid) = join "no IdP key for kid " kid
message (jwks m) = join "IdP JWKS unavailable: " m
message (invalid m) = join "token rejected: " m

abbrev pub ok_or : {E A : Type 0} → E → Option A → Result E A
ok_or e none = err e
ok_or e (some a) = ok a

-- `Validation::new(RS256)`, the issuer, the audiences, and the expiry check switched on
abbrev pub validation_for : String → List String → Validation
validation_for issuer audiences = record {
  algorithm = rs256;
  issuers = issuer ∷ [];
  audiences = audiences;
  validate_exp = true;
}

module _ (c : Crates) where
  open c use {
    World, JwkSet, Jwk, DecodingKey, find, from_jwk, jwk_from_value, decode_header, decode,
    parse_jwks,
  }

  pub record OidcVerifier : Type 0 where
    pub issuer : String
    pub audiences : List String

  pub record SelfVerifier : Type 0 where
    pub key : DecodingKey
    pub issuer : String
    pub audience : String

  -- `SelfVerifier::new`
  unfoldable pub self_verifier_for : OwnJwk → String → String → Result VerifyError SelfVerifier
  self_verifier_for own_jwk issuer audience = elim (jwk_from_value own_jwk) [
    | err e ↦ err (jwks (join "own jwk: " e))
    | ok jwk ↦ elim (from_jwk jwk) [
      | err e ↦ err (jwks (join "own jwk key: " e))
      | ok key ↦ ok (record { key = key; issuer = issuer; audience = audience })
    ]
  ]

  pub record Identity : Type 0 where
    pub self_verifier : SelfVerifier
    pub oidc : OidcVerifier

  -- the cached key set, and the world
  pub record Verifying : Type 0 where
    pub cached : Option JwkSet
    pub world : World

  -- the kid of the token's header, which both functions below read first
  unfoldable pub header_kid : String → Result VerifyError String
  header_kid token = elim (decode_header token) [
    | ok kid ↦ ok_or (malformed "no kid in header") kid
    | err e ↦ err (malformed e)
  ]

  unfoldable pub verify_with_jwks :
      String → JwkSet → String → List String → Prog VerifyError World IdentityClaims
  verify_with_jwks token keys issuer audiences = do
    kid ← lift (header_kid token)
    jwk ← lift (ok_or (unknown_kid kid) (find keys kid))
    key ← lift (map_result (λ e. jwks (join "bad jwk " (join kid (join ": " e)))) (from_jwk jwk))
    map_err invalid (decode token key (validation_for issuer audiences))

  -- `OidcVerifier::fetch_jwks`
  unfoldable pub fetch_jwks : OidcVerifier → Prog VerifyError World JwkSet
  fetch_jwks v = do
    value ← map_err jwks (Jwks.fetch_jwks c v.issuer)
    lift (map_result (λ e. jwks (join "jwks parse: " e)) (parse_jwks value))

  -- a call that touches the world only
  abbrev pub outside : {E A : Type 0} → Prog E World A → Prog E Verifying A
  outside m s = let (r, w) = m s.world in (r, record s { world = w })

  -- the rest of `verify`: the key set is stored whatever the verification under it gives
  unfoldable pub refetch : OidcVerifier → String → Prog VerifyError Verifying IdentityClaims
  refetch v token = do
    fetched ← outside (fetch_jwks v)
    λ s.
        let (result, w) = verify_with_jwks token fetched v.issuer v.audiences s.world in
        (result, record { cached = some fetched; world = w })

  -- `OidcVerifier::verify`
  unfoldable pub verify : OidcVerifier → String → Prog VerifyError Verifying IdentityClaims
  verify v token = do
    kid ← lift (header_kid token)
    cached ← gets (λ s. s.cached)
    elim cached [
      | none ↦ refetch v token
      | some keys ↦ elim (find keys kid) [
        | none ↦ refetch v token
        | some _ ↦ outside (verify_with_jwks token keys v.issuer v.audiences)
      ]
    ]

  -- `SelfVerifier::claims`
  unfoldable pub self_claims : SelfVerifier → String → World → Option IdentityClaims × World
  self_claims v token w =
      let (r, w') = decode token v.key (validation_for v.issuer (v.audience ∷ [])) w in
      (elim r [ ok claims ↦ some claims | err _ ↦ none ], w')

  -- `Identity::claims`
  unfoldable pub claims : Identity → String → Prog VerifyError Verifying IdentityClaims
  claims i bearer s =
      let (own, w) = self_claims i.self_verifier bearer s.world in
      elim own [
        | some found ↦ (ok found, record s { world = w })
        | none ↦ verify i.oidc bearer (record s { world = w })
      ]

  -- `Identity::subject`
  unfoldable pub subject : Identity → String → Prog VerifyError Verifying String
  subject i bearer = do found ← claims i bearer; pure found.sub
