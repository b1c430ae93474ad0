-- ===== src/Auth/Verify/Steady.antt =====
-- That the key cache of auth/src/verify.rs cannot be seen in the verdicts, while the provider's
-- keys stay the same.
use kaguya.Base.{
  String, Option, none, some, List, [], ◌∷◌, Result, ok, err, ◌≡◌, ◌⊎◌, inl, inr, arith, refl,
  Result-cases, Option-cases,
}
use kaguya.Auth.Claims.{IdentityClaims}
use kaguya.Auth.Crates.{Crates}
use kaguya.Auth.Verify.{
  VerifyError, OidcVerifier, Verifying, header_kid, verify_with_jwks, fetch_jwks, verify,
}
use kaguya.Auth.Verify.Caching.{Misses, verify-cached, verify-malformed, verify-missed}

module _ (c : Crates) where
  open c use {World, JwkSet, find}

  -- The verdict of `verify_with_jwks` on the token under these keys, at some moment.
  abbrev pub IsJudged :
      OidcVerifier c → JwkSet → String → Result VerifyError IdentityClaims → Type 0
  IsJudged v keys token verdict =
      (w : World) × (verdict ≡ (verify_with_jwks c token keys v.issuer v.audiences w).0)

  -- Nothing is cached yet, or these keys are.
  abbrev pub IsSteady : JwkSet → Option JwkSet → Type 0
  IsSteady keys cached = (cached ≡ none) ⊎ (cached ≡ some keys)

  -- the verdicts on bearers that come one after the other
  unfoldable pub verdicts :
      OidcVerifier c → List String → Verifying c → List (Result VerifyError IdentityClaims)
  verdicts v [] s = []
  verdicts v (token ∷ tokens) s = (verify c v token s).0 ∷ verdicts v tokens (verify c v token s).1

  -- each bearer with its verdict
  abbrev pub AreJudged :
      OidcVerifier c → JwkSet → List String → List (Result VerifyError IdentityClaims) → Type 0
  AreJudged v keys [] [] = Unit
  AreJudged v keys (t ∷ ts) (r ∷ rs) = IsJudged v keys t r × AreJudged v keys ts rs
  AreJudged v keys _ _ = ⊥

  judged_malformed :
      (v : OidcVerifier c) (keys : JwkSet) (token : String) (w : World) {e : VerifyError}
      → header_kid c token ≡ err e
      → (verify_with_jwks c token keys v.issuer v.audiences w).0 ≡ err e
  unfolding verify_with_jwks
  judged_malformed v keys token w bad = ground arith

  module _ (v : OidcVerifier c) (keys : JwkSet)
      (served : (w : World) → (fetch_jwks c v w).0 ≡ ok keys) where
    abbrev Good : String → Verifying c → Type 0
    Good token s =
        IsJudged v keys token (verify c v token s).0 × IsSteady keys (verify c v token s).1.cached

    Good-missed :
        (token kid : String) (s : Verifying c)
        → header_kid c token ≡ ok kid
        → Misses c kid s.cached
        → Good token s
    Good-missed token kid s header miss =
        rw ((verify-missed c v token kid s header miss).1 keys (served s.world))
          (((fetch_jwks c v s.world).1, refl), inr refl)

    Good-cached :
        (token kid : String) (s : Verifying c)
        → header_kid c token ≡ ok kid
        → s.cached ≡ some keys
        → Good token s
    Good-cached token kid s header cached = elim (Option-cases (find keys kid)) [
      | inl rotated ↦ Good-missed token kid s header (inr (keys, cached, rotated))
      | inr (jwk, listed) ↦
          let (verdict, after) = verify-cached c v token kid s header cached listed in
          ((s.world, verdict), rw after (inr refl))
    ]

    verify-IsJudged : (token : String) (s : Verifying c) → IsSteady keys s.cached → Good token s
    verify-IsJudged token s steady = elim (Result-cases (header_kid c token)) [
      | inr (e, bad) ↦
          rw (verify-malformed c v token s bad)
            ((s.world, rw (judged_malformed v keys token s.world bad) refl), steady)
      | inl (kid, header) ↦ elim steady [
        | inl never ↦ Good-missed token kid s header (inl never)
        | inr cached ↦ Good-cached token kid s header cached
      ]
    ]

  -- While the provider serves one key set, and no other was cached before, every bearer of a
  -- sequence is judged as `verify_with_jwks` judges it under that set: the cache, and which bearer
  -- has filled it, make no difference.
  pub verdicts-AreJudged :
      (v : OidcVerifier c) (keys : JwkSet)
      → ((w : World) → (fetch_jwks c v w).0 ≡ ok keys)
      → (tokens : List String) (s : Verifying c) → IsSteady keys s.cached
      → AreJudged v keys tokens (verdicts v tokens s)
  unfolding verdicts
  verdicts-AreJudged v keys served [] s steady = tt
  verdicts-AreJudged v keys served (token ∷ tokens) s steady =
      let (judged, after) = verify-IsJudged v keys served token s steady in
      (judged, verdicts-AreJudged v keys served tokens (verify c v token s).1 after)
