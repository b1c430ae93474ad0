-- ===== src/Auth/Verify/Trust.antt =====
-- Which claims auth/src/verify.rs lets through, and under which key.
use kaguya.Base.{
  String, some, List, [], ◌∷◌, ok, ◌≡◌, ◌⊎◌, inl, inr, arith, Result-cases, Option-cases,
}
use kaguya.Auth.Claims.{IdentityClaims}
use kaguya.Auth.Crates.{Crates}
use kaguya.Auth.Verify.Caching.{Misses, verify-refetch}
use kaguya.Auth.Verify.{
  validation_for, OidcVerifier, Identity, Verifying, header_kid, verify_with_jwks, fetch_jwks,
  refetch, verify, self_claims, claims,
}

module _ (c : Crates) where
  open c use {World, JwkSet, Jwk, DecodingKey, find, from_jwk, decode}

  -- The token decodes to these claims under the key that the set holds for the token's own kid,
  -- with RS256, the expiry check, this issuer and these audiences.
  pub record IsSigned (keys : JwkSet) (issuer : String) (audiences : List String) (token : String)
      (found : IdentityClaims) : Type 0 where
    pub kid : String
    pub jwk : Jwk
    pub key : DecodingKey
    pub at : World
    pub header : header_kid c token ≡ ok kid
    pub listed : find keys kid ≡ some jwk
    pub usable : from_jwk jwk ≡ ok key
    pub decoded : (decode token key (validation_for issuer audiences) at).0 ≡ ok found

  pub verify_with_jwks-IsSigned :
      (token : String) (keys : JwkSet) (issuer : String) (audiences : List String) (w : World)
      (found : IdentityClaims)
      → (verify_with_jwks c token keys issuer audiences w).0 ≡ ok found
      → IsSigned keys issuer audiences token found
  unfolding verify_with_jwks
  verify_with_jwks-IsSigned token keys issuer audiences w found e =
      elim (Result-cases (header_kid c token)) [
        | inr (_, bad) ↦ ground arith
        | inl (kid, header) ↦ elim (Option-cases (find keys kid)) [
          | inl missing ↦ ground arith
          | inr (jwk, listed) ↦ elim (Result-cases (from_jwk jwk)) [
            | inr (_, bad) ↦ ground arith
            | inl (key, usable) ↦ record {
              kid = kid;
              jwk = jwk;
              key = key;
              at = w;
              header = header;
              listed = listed;
              usable = usable;
              decoded = ground arith;
            }
          ]
        ]
      ]

  refetch-IsSigned :
      (v : OidcVerifier c) (token : String) (s : Verifying c) (found : IdentityClaims)
      → (refetch c v token s).0 ≡ ok found
      → (keys : JwkSet) × ((refetch c v token s).1.cached ≡ some keys)
        × IsSigned keys v.issuer v.audiences token found
  unfolding refetch
  refetch-IsSigned v token s found e = elim (Result-cases (fetch_jwks c v s.world).0) [
    | inr (_, bad) ↦ ground arith
    | inl (keys, fetched) ↦ (
      keys,
      ground arith,
      verify_with_jwks-IsSigned token keys v.issuer v.audiences (fetch_jwks c v s.world).1 found
          (ground arith),
    )
  ]

  -- Whatever bearer `OidcVerifier::verify` accepts is signed, for the configured issuer and one of
  -- the configured audiences, by a key that stands under the token's kid in the key set that is
  -- cached afterwards.
  pub verify-IsSigned :
      (v : OidcVerifier c) (token : String) (s : Verifying c) (found : IdentityClaims)
      → (verify c v token s).0 ≡ ok found
      → (keys : JwkSet) × ((verify c v token s).1.cached ≡ some keys)
        × IsSigned keys v.issuer v.audiences token found
  unfolding verify
  verify-IsSigned v token s found e = elim (Result-cases (header_kid c token)) [
    | inr (_, bad) ↦ ground arith
    | inl (kid, header) ↦ elim (Option-cases s.cached) [
      | inl never ↦ missed kid header (inl never)
      | inr (keys, cached) ↦ elim (Option-cases (find keys kid)) [
        | inl rotated ↦ missed kid header (inr (keys, cached, rotated))
        | inr (jwk, listed) ↦ (
          keys,
          ground arith,
          verify_with_jwks-IsSigned token keys v.issuer v.audiences s.world found (ground arith),
        )
      ]
    ]
  ]
    where
      missed :
          (kid : String)
          → header_kid c token ≡ ok kid
          → Misses c kid s.cached
          → (keys : JwkSet) × ((verify c v token s).1.cached ≡ some keys)
            × IsSigned keys v.issuer v.audiences token found
      missed kid header miss =
          let same = verify-refetch c v token kid s header miss in
          rw same (refetch-IsSigned v token s found (rw same at e))

  -- What `Identity::claims` accepts is a token that decodes under the service's own key, issuer and
  -- audience (with RS256 and the expiry check), or one that the OIDC verifier accepts.
  claims_cases :
      (i : Identity c) (bearer : String) (s : Verifying c) (found : IdentityClaims)
      → (claims c i bearer s).0 ≡ ok found
      → ((decode bearer i.self_verifier.key
            (validation_for i.self_verifier.issuer (i.self_verifier.audience ∷ []))
            s.world).0
          ≡ ok found)
        ⊎ ((keys : JwkSet) × ((claims c i bearer s).1.cached ≡ some keys)
            × IsSigned keys i.oidc.issuer i.oidc.audiences bearer found)
  unfolding claims self_claims
  claims_cases i bearer s found e =
      let own =
        decode bearer i.self_verifier.key
          (validation_for i.self_verifier.issuer (i.self_verifier.audience ∷ [])) s.world in
      elim (Result-cases own.0) [
        | inl (mine, accepted) ↦ inl (ground arith)
        | inr (_, refused) ↦ inr (
            rw refused (
              verify-IsSigned i.oidc bearer (record { cached = s.cached; world = own.1 }) found
                (rw refused at e)))
      ]
