-- ===== src/Auth/Service/OwnTokens.antt =====
-- The tokens that the service of auth/src/main.rs issues come back to it: as the bearer of the
-- exchange, and forwarded by loreserver to the ReBAC calls.
use Prim.Native.String.{◌++◌ as join}
use kaguya.Base.{
  ℕ, ◌<◌, String, true, false, some, List, [], ◌∷◌, ok, ◌≡◌, arith, refl, contains, any, is_empty,
  eq_iff, inl, inr,
}
use kaguya.Auth.Claims.{IdentityClaims, ResourceGrant, MintedClaims, read_back, display_names}
use kaguya.Auth.Crates.{Crates, Header, Validation}
use kaguya.Auth.Keys.{header_of}
use kaguya.Auth.Verify.{Verifying, validation_for, claims, self_claims}
use kaguya.Auth.Server.{Server, bearer-join}
use kaguya.Auth.Service.{Auth, UserToken, scoped, exchange_user_token_for_multiresource_token}
use kaguya.Auth.Service.Exchange.{IsIssued, minted_claims, verifying}
use kaguya.Auth.Service.Answers.{issue_answers}

module _ (c : Crates) where
  open c use {World, EncodingKey, DecodingKey, decode, encode, unix_seconds}

  -- What jsonwebtoken documents of `encode` and `decode`, for the keys of one pair: a token that
  -- was encoded under the one decodes under the other to the claims that were put in, if the
  -- algorithm is the one asked for, its issuer and one of its audiences are among those asked for,
  -- and it has not expired. No token is the empty text.
  pub record JwtLaws (pair : EncodingKey → DecodingKey → Type 0) : Type 0 where
    pub decode-encode :
        (h : Header) (m : MintedClaims) (ek : EncodingKey) (dk : DecodingKey) (token : String)
        (v : Validation) (w : World)
        → pair ek dk
        → encode h m ek ≡ ok token
        → h.alg ≡ v.algorithm
        → contains v.issuers m.iss ≡ true
        → any (contains v.audiences) m.aud ≡ true
        → (unix_seconds w).0 < m.exp
        → (decode token dk v w).0 ≡ ok (read_back m)
    pub encode-ne-empty :
        (h : Header) (m : MintedClaims) (ek : EncodingKey) (token : String)
        → encode h m ek ≡ ok token
        → is_empty token ≡ false

  -- How `main` wires the service: its own verifier has the signer's public key, and the issuer and
  -- audience that it mints with.
  pub record IsWired (pair : EncodingKey → DecodingKey → Type 0) (a : Auth c) : Type 0 where
    pub keys : pair a.signer.encoding_key a.identity.self_verifier.key
    pub issuer : a.identity.self_verifier.issuer ≡ a.auth_issuer
    pub audience : a.identity.self_verifier.audience ≡ a.audience

  module _ {pair : EncodingKey → DecodingKey → Type 0} (laws : JwtLaws pair) where
    pub decode-issued :
        (a : Auth c) (subject : String) (found : IdentityClaims) (resources : List ResourceGrant)
        (t : UserToken) (w : World)
        → IsWired pair a
        → (issued : IsIssued c a subject found resources t) → (unix_seconds w).0 < found.exp
        → (self_claims c a.identity.self_verifier t.user_token w).0
          ≡ some (read_back (minted_claims c a subject found resources issued.iat))
    unfolding self_claims contains any header_of
    decode-issued a subject found resources t w wired issued fresh =
        let own = a.identity.self_verifier in
        let v = validation_for own.issuer (own.audience ∷ []) in
        let m = minted_claims c a subject found resources issued.iat in
        let from_us : contains v.issuers m.iss ≡ true =
          ground (arith, eq_iff own.issuer a.auth_issuer) in
        let for_us : any (contains v.audiences) m.aud ≡ true =
          ground (arith, eq_iff own.audience a.audience) in
        rw (
          laws.decode-encode (header_of c a.signer) m a.signer.encoding_key own.key t.user_token v w
            wired.keys issued.signed refl from_us for_us fresh)

    -- Until it expires, a token that the service issued is accepted as its own: the identity check
    -- gives back its subject, its expiry and its names and no e-mail address, and neither asks the
    -- OIDC provider nor changes the cached keys.
    pub claims-issued :
        (a : Auth c) (subject : String) (found : IdentityClaims) (resources : List ResourceGrant)
        (t : UserToken) (s : Verifying c)
        → IsWired pair a
        → (issued : IsIssued c a subject found resources t) → (unix_seconds s.world).0 < found.exp
        → ((claims c a.identity t.user_token s).0
            ≡ ok (read_back (minted_claims c a subject found resources issued.iat)))
          × ((claims c a.identity t.user_token s).1.cached ≡ s.cached)
    unfolding claims
    claims-issued a subject found resources t s wired issued fresh =
        let own = decode-issued a subject found resources t s.world wired issued fresh in
        (ground arith, ground arith)

    names-read_back :
        (m : MintedClaims) → display_names (read_back m) ≡ (m.name, m.preferred_username)
    unfolding display_names read_back
    names-read_back m = refl

    again :
        (a : Auth c) (subject : String) (found : IdentityClaims) (resources : List ResourceGrant)
        (t t' : UserToken) (requested : List String) (s : Server c)
        → (issued : IsIssued c a subject found resources t) → (found' : IdentityClaims)
        → read_back (minted_claims c a subject found resources issued.iat) ≡ found'
        → IsIssued c a found'.sub found' (scoped found'.sub s.store.tables requested) t'
        → (t'.user_id ≡ t.user_id)
          × (t'.user_name ≡ t.user_name)
          × (t'.expires_at ≡ t.expires_at)
          × IsIssued c a subject
              (read_back (minted_claims c a subject found resources issued.iat))
              (scoped subject s.store.tables requested)
              t'
    unfolding read_back
    again a subject found resources t t' requested s issued found' same issued' =
        let back = rw (← same) at issued' in
        let names = names-read_back (minted_claims c a subject found resources issued.iat) in
        (
          cc (back.user_id, issued.user_id),
          cc (back.user_name, names, issued.user_name),
          cc (back.expires_at, issued.expires_at),
          back,
        )

    -- Exchanging a token that the service issued (by a login, an external exchange or an earlier
    -- exchange), before it expires, succeeds, if the key signs the claims that are due: it gives a
    -- token for the same account with the same expiry, whose resources are the requested ones that
    -- this account has a role on.
    pub exchange-issued :
        (a : Auth c) (subject : String) (found : IdentityClaims) (resources : List ResourceGrant)
        (t : UserToken) (requested : List String) (s : Server c)
        → IsWired pair a
        → (issued : IsIssued c a subject found resources t) → (unix_seconds s.world).0 < found.exp
        → ((iat : ℕ)
            → (signed : String) × (encode
                  (header_of c a.signer)
                  (minted_claims c a subject
                    (read_back (minted_claims c a subject found resources issued.iat))
                    (scoped subject s.store.tables requested)
                    iat)
                  a.signer.encoding_key
                ≡ ok signed))
        → (t' : UserToken) × ((exchange_user_token_for_multiresource_token c a
              (some (join "Bearer " t.user_token))
              requested
              s).0
            ≡ ok t')
          × (t'.user_id ≡ t.user_id)
          × (t'.user_name ≡ t.user_name)
          × (t'.expires_at ≡ t.expires_at)
          × IsIssued c a subject
              (read_back (minted_claims c a subject found resources issued.iat))
              (scoped subject s.store.tables requested)
              t'
    unfolding exchange_user_token_for_multiresource_token
    exchange-issued a subject found resources t requested s wired issued fresh signs =
        let m = minted_claims c a subject found resources issued.iat in
        let due = scoped subject s.store.tables requested in
        let judged = claims c a.identity t.user_token (verifying c s) in
        let own =
          (claims-issued a subject found resources t (verifying c s) wired issued fresh).0 in
        let given =
          laws.encode-ne-empty (header_of c a.signer) m a.signer.encoding_key t.user_token
            issued.signed in
        let s' : Server c = record s { cached = judged.1.cached; world = judged.1.world } in
        elim (issue_answers c a subject (read_back m) due s') [
          | inl (iat, why, bad, _) ↦ let (_, good) = signs iat in absurd (ground arith)
          | inr (t', same, good) ↦
              let (id_kept, name_kept, expiry_kept, still) =
                again a subject found resources t t' requested s issued (read_back m) refl
                  (unfold read_back in good) in
              (
                t',
                rw (bearer-join t.user_token, given, own) (unfold read_back in same),
                id_kept,
                name_kept,
                expiry_kept,
                still,
              )
        ]
