-- ===== src/Auth/Service/Exchange.antt =====
-- What a token that the service of auth/src/main.rs issues carries, and for whom the exchanges
-- issue one.
use kaguya.Base.{
  some, ◌∙◌, ℕ, String, true, false, Option, List, [], ◌∷◌, ok, err, ◌≡◌, ◌⊎◌, inl, inr, arith,
  refl, is_empty, as_i64, Bool-cases, Result-cases,
}
use kaguya.Auth.Claims.{
  IdentityClaims, ResourceGrant, MintedClaims, canonical_subject, display_names,
}
use kaguya.Auth.Crates.{Crates}
use kaguya.Auth.Keys.{header_of, mint}
use kaguya.Auth.Verify.{Verifying, VerifyError, verify, claims}
use kaguya.Auth.Verify.Trust.{IsSigned, verify-IsSigned}
use kaguya.Auth.Server.{Status, status, unauthenticated, bearer, Server}
use kaguya.Auth.Service.{
  Auth, UserToken, issue, scoped, exchange_user_token_for_multiresource_token,
  exchange_external_token_for_user_token,
}

module _ (c : Crates) where
  open c use {World, JwkSet, encode, to_lowercase}

  -- the claims of a token minted for verified claims
  abbrev pub minted_claims :
      Auth c → String → IdentityClaims → List ResourceGrant → ℕ → MintedClaims
  minted_claims a subject found resources iat = record {
    iss = a.auth_issuer;
    sub = subject;
    aud = a.audience ∷ [];
    iat = iat;
    exp = found.exp;
    name = (display_names found).0;
    preferred_username = (display_names found).1;
    is_service_account = false;
    resources = resources;
  }

  -- The message carries a token that the service signed, with its key's kid in the header, over
  -- these claims: its issuer and audience, this subject, the expiry and the display names of the
  -- verified claims, and these resources; beside it the subject, the name and the same expiry.
  pub record IsIssued (a : Auth c) (subject : String) (found : IdentityClaims)
      (resources : List ResourceGrant) (t : UserToken) : Type 0 where
    pub iat : ℕ
    pub signed :
        encode
          (header_of c a.signer)
          (minted_claims a subject found resources iat)
          a.signer.encoding_key
        ≡ ok t.user_token
    pub user_id : t.user_id ≡ subject
    pub user_name : t.user_name ≡ (display_names found).0
    pub expires_at : t.expires_at ≡ as_i64 found.exp

  pub issue-IsIssued :
      (a : Auth c) (subject : String) (found : IdentityClaims) (resources : List ResourceGrant)
      (s : Server c) (t : UserToken)
      → (issue c a subject found resources s).0 ≡ ok t
      → IsIssued a subject found resources t
  unfolding issue mint
  issue-IsIssued a subject found resources s t e =
      let minted =
        encode (header_of c a.signer)
          (minted_claims a subject found resources (c.unix_seconds s.world).0)
          a.signer.encoding_key in
      elim (Result-cases minted) [
        | inr (_, refused) ↦ ground arith
        | inl (signed, same) ↦ record {
          iat = (c.unix_seconds s.world).0;
          signed = ground arith;
          user_id = ground arith;
          user_name = ground arith;
          expires_at = ground arith;
        }
      ]

  -- the verifier's part of the state
  abbrev pub verifying : Server c → Verifying c
  verifying s = record { cached = s.cached; world = s.world }

  -- `exchange_user_token_for_multiresource_token` answers a token only to a bearer that the
  -- identity check accepts, and the token is issued to the subject of that bearer, with exactly the
  -- requested resources that this subject has a role on (see `scoped_iff`), and with the bearer's
  -- expiry.
  pub exchange-IsIssued :
      (a : Auth c) (authorization : Option String) (requested : List String) (s : Server c)
      (t : UserToken)
      → (exchange_user_token_for_multiresource_token c a authorization requested s).0 ≡ ok t
      → (found : IdentityClaims) × ((claims c a.identity (bearer authorization) (verifying s)).0
          ≡ ok found)
        × IsIssued a found.sub found (scoped found.sub s.store.tables requested) t
  unfolding exchange_user_token_for_multiresource_token
  exchange-IsIssued a authorization requested s t e =
      elim (Bool-cases (is_empty (bearer authorization))) [
        | inl empty ↦ ground arith
        | inr given ↦
            elim (Result-cases (claims c a.identity (bearer authorization) (verifying s)).0) [
              | inr (_, refused) ↦ ground arith
              | inl (found, accepted) ↦ (
                found,
                accepted,
                issue-IsIssued a found.sub found _ _ t (rw (given, accepted) at e),
              )
            ]
      ]

  pub issue-cached :
      (a : Auth c) (subject : String) (found : IdentityClaims) (resources : List ResourceGrant)
      (s : Server c)
      → (issue c a subject found resources s).1.cached ≡ s.cached
  unfolding issue
  issue-cached a subject found resources s = ground arith

  -- `exchange_external_token_for_user_token` answers a token only for one that the OIDC verifier
  -- accepts: it is signed, for the configured issuer and audiences, by a key of the set that is
  -- cached afterwards. The answer is issued to the canonical subject of that token's claims, with
  -- its expiry and no resources.
  pub exchange_external-IsIssued :
      (a : Auth c) (external : String) (s : Server c) (t : UserToken)
      → (exchange_external_token_for_user_token c a external s).0 ≡ ok t
      → (found : IdentityClaims) × (keys : JwkSet) × ((exchange_external_token_for_user_token c a
            external s).1.cached
          ≡ some keys)
        × IsSigned c keys a.oidc.issuer a.oidc.audiences external found
        × IsIssued a (canonical_subject to_lowercase found) found [] t
  unfolding exchange_external_token_for_user_token
  exchange_external-IsIssued a external s t e = elim (Bool-cases (is_empty external)) [
    | inl empty ↦ ground arith
    | inr given ↦ elim (Result-cases (verify c a.oidc external (verifying s)).0) [
      | inr (_, refused) ↦ ground arith
      | inl (found, accepted) ↦
          let (keys, cached, signed) =
            verify-IsSigned c a.oidc external (verifying s) found accepted in
          let after = (verify c a.oidc external (verifying s)).1 in
          let s' : Server c = record s { cached = after.cached; world = after.world } in
          (
            found,
            keys,
            rw (given, accepted)
                (issue-cached a (canonical_subject to_lowercase found) found [] s' ∙ cached),
            signed,
            issue-IsIssued a (canonical_subject to_lowercase found) found [] _ t
                (rw (given, accepted) at e),
          )
    ]
  ]

  -- A bearer that the identity check refuses, or none, gets `unauthenticated`, and the store and
  -- the sessions are as they were.
  pub exchange-refused :
      (a : Auth c) (authorization : Option String) (requested : List String) (s : Server c)
      {e : VerifyError}
      → (is_empty (bearer authorization) ≡ true)
        ⊎ ((claims c a.identity (bearer authorization) (verifying s)).0 ≡ err e)
      → (r : Status) × ((exchange_user_token_for_multiresource_token c a authorization requested
            s).0
          ≡ err r)
        × (r.code ≡ unauthenticated)
        × ((exchange_user_token_for_multiresource_token c a authorization requested s).1.store
            ≡ s.store)
        × ((exchange_user_token_for_multiresource_token c a authorization requested s).1.sessions
            ≡ s.sessions)
  unfolding exchange_user_token_for_multiresource_token
  exchange-refused a authorization requested s (inl empty) = (
    status unauthenticated "missing bearer token",
    ground arith,
    refl,
    ground arith,
    ground arith,
  )
  exchange-refused a authorization requested s (inr refused) =
      elim (Bool-cases (is_empty (bearer authorization))) [
        | inl empty ↦ (
          status unauthenticated "missing bearer token",
          ground arith,
          refl,
          ground arith,
          ground arith,
        )
        | inr given ↦ (
          status unauthenticated "invalid identity token",
          ground arith,
          refl,
          ground arith,
          ground arith,
        )
      ]
