-- ===== src/Auth/Keys/Origin.antt =====
-- What a signer of auth/src/keys.rs is made of.
use kaguya.Base.{String, Result, ok, ◌≡◌, inl, inr, arith, refl, ap, Result-cases}
use kaguya.Auth.Crates.{Crates, OwnJwk}
use kaguya.Auth.Keys.{Signer}
use kaguya.Auth.Keys.Files.{build_jwk, thumbprint, from_pkcs8_pem}

module _ (c : Crates) where
  open c use {PrivateKey, from_pkcs8, from_rsa_pem, modulus, exponent}

  -- what a signer is made of
  pub record Origin (pem : String) (signer : Signer c) : Type 0 where
    pub private : PrivateKey
    pub parsed : from_pkcs8 pem ≡ ok private
    pub encoding : from_rsa_pem pem ≡ ok signer.encoding_key
    pub kid : signer.kid ≡ thumbprint c (modulus private) (exponent private)
    pub own_jwk : signer.own_jwk ≡ build_jwk signer.kid (modulus private) (exponent private)

  pub from_pkcs8_pem-Origin :
      (pem : String) (signer : Signer c) → from_pkcs8_pem c pem ≡ ok signer → Origin pem signer
  unfolding from_pkcs8_pem
  from_pkcs8_pem-Origin pem signer e = elim (Result-cases (from_pkcs8 pem)) [
    | inr (_, bad) ↦ absurd (ground arith)
    | inl (private, parsed) ↦ elim (Result-cases (from_rsa_pem pem)) [
      | inr (_, bad) ↦ absurd (ground arith)
      | inl (key, usable) ↦
          let kid = thumbprint c (modulus private) (exponent private) in
          let made : Signer c = record {
            encoding_key = key;
            kid = kid;
            own_jwk = build_jwk kid (modulus private) (exponent private);
          } in
          let same : ◌≡◌ {A = Result String (Signer c)} (ok made) (ok signer) =
            rw (from_pkcs8_pem, parsed, usable) at e in
          let is_made : made ≡ signer = cc in
          rw (← is_made) (record {
            private = private;
            parsed = parsed;
            encoding = usable;
            kid = refl;
            own_jwk = refl;
          })
    ]
  ]

  pub from_pkcs8_pem-kid :
      (pem : String) (signer : Signer c)
      → from_pkcs8_pem c pem ≡ ok signer
      → signer.own_jwk.kid ≡ signer.kid
  unfolding build_jwk
  from_pkcs8_pem-kid pem signer e =
      ap (λ (j : OwnJwk). j.kid) (from_pkcs8_pem-Origin pem signer e).own_jwk
