-- ===== src/Auth/Verify/Caching.antt =====
-- When `OidcVerifier::verify` of auth/src/verify.rs goes to the network, and what it keeps.
use kaguya.Base.{String, Option, none, some, ok, err, ◌≡◌, ◌⊎◌, arith}
use kaguya.Auth.Crates.{Crates}
use kaguya.Auth.Verify.{
  VerifyError, OidcVerifier, Verifying, header_kid, verify_with_jwks, fetch_jwks, refetch, verify,
}

module _ (c : Crates) where
  open c use {World, JwkSet, Jwk, find}

  -- no cached set, or one without the kid
  abbrev pub Misses : String → Option JwkSet → Type 0
  Misses kid cached =
      (cached ≡ none) ⊎ ((keys : JwkSet) × (cached ≡ some keys) × (find keys kid ≡ none))

  pub verify-refetch :
      (v : OidcVerifier c) (token kid : String) (s : Verifying c)
      → header_kid c token ≡ ok kid
      → Misses kid s.cached
      → verify c v token s ≡ refetch c v token s
  unfolding verify
  verify-refetch v token kid s header miss = ground arith

  -- A token whose kid is in the cached set is verified under that set: its verdict is that of
  -- `verify_with_jwks`, nothing is fetched, and the cache stays.
  pub verify-cached :
      (v : OidcVerifier c) (token kid : String) (s : Verifying c) {keys : JwkSet} {jwk : Jwk}
      → header_kid c token ≡ ok kid
      → s.cached ≡ some keys
      → find keys kid ≡ some jwk
      → (verify c v token s).0 ≡ (verify_with_jwks c token keys v.issuer v.audiences s.world).0
        × ((verify c v token s).1 ≡ record {
          cached = some keys;
          world = (verify_with_jwks c token keys v.issuer v.audiences s.world).1;
        })
  unfolding verify
  verify-cached v token kid s header cached listed = ground arith

  -- A token without a readable kid is refused as malformed, and nothing is fetched, decoded or
  -- cached.
  pub verify-malformed :
      (v : OidcVerifier c) (token : String) (s : Verifying c) {e : VerifyError}
      → header_kid c token ≡ err e
      → verify c v token s ≡ (err e, s)
  unfolding verify
  verify-malformed v token s bad = ground arith

  -- Otherwise the key set is fetched once. If that fails the call fails with the same error and the
  -- cache stays; if it succeeds the verdict is that of `verify_with_jwks` under the new set, which
  -- is cached whatever the verdict is.
  pub verify-missed :
      (v : OidcVerifier c) (token kid : String) (s : Verifying c)
      → header_kid c token ≡ ok kid
      → Misses kid s.cached
      → ((e : VerifyError)
          → (fetch_jwks c v s.world).0 ≡ err e
          → verify c v token s
            ≡ (err e, record { cached = s.cached; world = (fetch_jwks c v s.world).1 }))
        × ((keys : JwkSet)
            → (fetch_jwks c v s.world).0 ≡ ok keys
            → verify c v token s ≡ (
                let (verdict, w) =
                  verify_with_jwks c token keys v.issuer v.audiences (fetch_jwks c v s.world).1 in
                (verdict, record { cached = some keys; world = w })))
  unfolding refetch
  verify-missed v token kid s header miss =
      rw (verify-refetch v token kid s header miss)
        (λ e failed. ground arith, λ keys fetched. ground arith)
