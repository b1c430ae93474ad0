-- ===== src/Auth/Main/Serving.antt =====
-- What holds when `main` of auth/src/main.rs gets as far as serving.
use kaguya.Base.{
  String, Option, none, some, [], ◌∷◌, Result, ok, ◌≡◌, arith, refl, inl, inr, Result-cases,
}
use kaguya.Auth.Sessions.{new}
use kaguya.Auth.Crates.{Crates, OwnJwk}
use kaguya.Auth.Verify.{VerifyError, SelfVerifier, self_verifier_for}
use kaguya.Auth.Keys.{Signer}
use kaguya.Auth.Keys.Files.{Machine, jwks_path, build_jwk}
use kaguya.Auth.Keys.Origin.{Origin, from_pkcs8_pem-Origin, from_pkcs8_pem-kid}
use kaguya.Auth.Keys.Boot.{boot-IsKept}
use kaguya.Auth.Server.{Server}
use kaguya.Auth.Service.{Auth}
use kaguya.Auth.Service.OwnTokens.{IsWired}
use kaguya.Auth.Main.{wire, shared, keys_dir, serving, start_service}
use kaguya.Auth.Main.Wiring.{IsConfigured, wire-IsConfigured, start_service-Parts}

module _ (c : Crates) where
  open c use {
    World, PrivateKey, EncodingKey, DecodingKey, Jwk, from_pkcs8, from_rsa_pem, modulus, exponent,
    jwk_from_value, from_jwk, jwks_text,
  }

  -- What the crates document of keys: the decoding key of the public JWK of an RSA key belongs to the
  -- encoding key of the same PEM text.
  pub record KeyLaws (pair : EncodingKey → DecodingKey → Type 0) : Type 0 where
    pub pairs :
        (pem kid : String) (private : PrivateKey) (ek : EncodingKey) (jwk : Jwk) (dk : DecodingKey)
        → from_pkcs8 pem ≡ ok private
        → from_rsa_pem pem ≡ ok ek
        → jwk_from_value (build_jwk kid (modulus private) (exponent private)) ≡ ok jwk
        → from_jwk jwk ≡ ok dk
        → pair ek dk

  record Reads (own_jwk : OwnJwk) (issuer audience : String) (own : SelfVerifier c) : Type 0 where
    pub jwk : Jwk
    pub parsed : jwk_from_value own_jwk ≡ ok jwk
    pub usable : from_jwk jwk ≡ ok own.key
    pub issuer_kept : own.issuer ≡ issuer
    pub audience_kept : own.audience ≡ audience

  self_verifier_for-Reads :
      (own_jwk : OwnJwk) (issuer audience : String) (own : SelfVerifier c)
      → self_verifier_for c own_jwk issuer audience ≡ ok own
      → Reads own_jwk issuer audience own
  unfolding self_verifier_for
  self_verifier_for-Reads own_jwk issuer audience own e =
      elim (Result-cases (jwk_from_value own_jwk)) [
        | inr (_, bad) ↦ absurd (ground arith)
        | inl (jwk, parsed) ↦ elim (Result-cases (from_jwk jwk)) [
          | inr (_, bad) ↦ absurd (ground arith)
          | inl (key, usable) ↦
              let made : SelfVerifier c = record {
                key = key;
                issuer = issuer;
                audience = audience;
              } in
              let same : ◌≡◌ {A = Result VerifyError (SelfVerifier c)} (ok made) (ok own) =
                rw (self_verifier_for, parsed, usable) at e in
              let is_made : made ≡ own = cc in
              rw (← is_made) (record {
                jwk = jwk;
                parsed = parsed;
                usable = usable;
                issuer_kept = refl;
                audience_kept = refl;
              })
        ]
      ]

  module _ {pair : EncodingKey → DecodingKey → Type 0} (laws : KeyLaws pair) where
    Origin-pair :
        (pem issuer audience : String) (signer : Signer c) (own : SelfVerifier c)
        → Origin c pem signer
        → Reads signer.own_jwk issuer audience own
        → pair signer.encoding_key own.key
    Origin-pair pem issuer audience signer own o r =
        laws.pairs pem signer.kid o.private signer.encoding_key r.jwk own.key o.parsed o.encoding
          (rw o.own_jwk at r.parsed) r.usable

    -- When `main` gets as far as serving, no login is in flight and no key set is cached; the service
    -- verifies its own tokens with the public key of its signer, for the issuer and the audience that
    -- it mints with; it accepts OIDC tokens as configured; and `jwks.json` holds that one key, under
    -- the kid that the signer puts in its tokens.
    pub start_service-IsConfigured :
        (env : String → Option String) (s : Machine c) (a : Auth c) (sv : Server c)
        → (start_service c env s).0 ≡ ok (serving a sv)
        → IsWired c pair a
          × IsConfigured c env a
          × ((start_service c env s).1.disk.files (jwks_path (keys_dir env))
              ≡ some (jwks_text (a.signer.own_jwk ∷ [])))
          × (a.signer.own_jwk.kid ≡ a.signer.kid)
          × (sv.sessions ≡ new)
          × (sv.cached ≡ none)
    unfolding wire shared
    start_service-IsConfigured env s a sv e =
        let parts = start_service-Parts c env s a sv e in
        let (kept, published) = boot-IsKept c (keys_dir env) parts.signer s parts.booted in
        let origin = from_pkcs8_pem-Origin c kept.pem parts.signer kept.usable in
        let reads =
          self_verifier_for-Reads parts.signer.own_jwk parts.auth_issuer parts.audience parts.own
            parts.verifier in
        let keys =
          Origin-pair kept.pem parts.auth_issuer parts.audience parts.signer parts.own origin
            reads in
        rw (← parts.wired, ← parts.sharing)
          (
            record { keys = keys; issuer = reads.issuer_kept; audience = reads.audience_kept },
            wire-IsConfigured c env parts.signer parts.own parts.oidc_issuer parts.audience
                parts.auth_issuer parts.oidc_issuer_set parts.audience_set parts.auth_issuer_set,
            rw parts.left published,
            from_pkcs8_pem-kid c kept.pem parts.signer kept.usable,
            refl,
            refl,
          )
