-- ===== src/Auth/Main/Wiring.antt =====
-- What `main` of auth/src/main.rs establishes for the services.
use kaguya.Base.{
  String, ◌≡◌, true, false, Option, some, ok, arith, refl, contains, is_empty, eq_refl,
  Option-cases, Result-cases, inl, inr,
}
use kaguya.Auth.Crates.{Crates}
use kaguya.Auth.Store.{Store}
use kaguya.Auth.Server.{Server}
use kaguya.Auth.Verify.{SelfVerifier, self_verifier_for}
use kaguya.Auth.Keys.Files.{Machine, boot}
use kaguya.Auth.Keys.{Signer}
use kaguya.Auth.Service.{Auth}
use kaguya.Auth.Main.{
  wire, shared, opened, keys_dir, db_path, oidc_audiences, env_required, serving, start_service,
}

module _ (c : Crates) where
  open c use {EncodingKey, DecodingKey}

  -- What a service started from the environment accepts.
  pub record IsConfigured (env : String → Option String) (a : Auth c) : Type 0 where
    -- logins and identity tokens are verified alike
    pub same_oidc : a.identity.oidc ≡ a.oidc
    -- tokens for the device client and for the web client, if one is set, are accepted
    pub device_audience : contains a.oidc.audiences a.audience ≡ true
    pub web_audience :
        (web : String)
        → env "KAGUYA_WEB_AUDIENCE" ≡ some web
        → is_empty web ≡ false
        → contains a.oidc.audiences web ≡ true
    -- the empty text is no audience, unless it is the device client's
    pub no_empty_audience : is_empty a.audience ≡ false → contains a.oidc.audiences "" ≡ false
    -- the device flow runs for the client whose tokens are accepted
    pub device_client : a.oidc_device.client_id ≡ a.audience
    pub device_issuer : a.oidc_device.issuer ≡ a.oidc.issuer
    pub issuers :
        (env "KAGUYA_OIDC_ISSUER" ≡ some a.oidc.issuer)
        × (env "KAGUYA_AUTH_ISSUER" ≡ some a.auth_issuer)
        × (env "KAGUYA_JWT_AUDIENCE" ≡ some a.audience)

  pub wire-IsConfigured :
      (env : String → Option String) (signer : Signer c) (own : SelfVerifier c)
      (oidc_issuer audience auth_issuer : String)
      → env "KAGUYA_OIDC_ISSUER" ≡ some oidc_issuer
      → env "KAGUYA_JWT_AUDIENCE" ≡ some audience
      → env "KAGUYA_AUTH_ISSUER" ≡ some auth_issuer
      → IsConfigured env (wire c env signer own oidc_issuer audience auth_issuer)
  unfolding wire oidc_audiences contains
  wire-IsConfigured env signer own oidc_issuer audience auth_issuer p q r = record {
    same_oidc = refl;
    device_audience = ground (arith, eq_refl audience);
    web_audience = λ web set full. ground (arith, eq_refl web);
    no_empty_audience = λ full. ground arith;
    device_client = refl;
    device_issuer = refl;
    issuers = (p, r, q);
  }

  -- what `start_service` has made on its way to a service
  pub record Parts (env : String → Option String) (s : Machine c) (a : Auth c) (sv : Server c)
      : Type 0 where
    pub oidc_issuer : String
    pub audience : String
    pub auth_issuer : String
    pub signer : Signer c
    pub store : Store
    pub own : SelfVerifier c
    pub oidc_issuer_set : env "KAGUYA_OIDC_ISSUER" ≡ some oidc_issuer
    pub audience_set : env "KAGUYA_JWT_AUDIENCE" ≡ some audience
    pub auth_issuer_set : env "KAGUYA_AUTH_ISSUER" ≡ some auth_issuer
    pub booted : (boot c (keys_dir env) s).0 ≡ ok signer
    pub opened_store : (opened c (db_path env) (boot c (keys_dir env) s).1).0 ≡ ok store
    pub verifier : self_verifier_for c signer.own_jwk auth_issuer audience ≡ ok own
    pub wired : wire c env signer own oidc_issuer audience auth_issuer ≡ a
    pub left : (start_service c env s).1 ≡ (opened c (db_path env) (boot c (keys_dir env) s).1).1
    pub sharing : shared c store (opened c (db_path env) (boot c (keys_dir env) s).1).1.world ≡ sv

  pub start_service-Parts :
      (env : String → Option String) (s : Machine c) (a : Auth c) (sv : Server c)
      → (start_service c env s).0 ≡ ok (serving a sv)
      → Parts env s a sv
  unfolding start_service env_required
  start_service-Parts env s a sv e = elim (Option-cases (env "KAGUYA_OIDC_ISSUER")) [
    | inl missing ↦ absurd (ground arith)
    | inr (oidc_issuer, p) ↦ elim (Option-cases (env "KAGUYA_JWT_AUDIENCE")) [
      | inl missing ↦ absurd (ground arith)
      | inr (audience, q) ↦ elim (Option-cases (env "KAGUYA_AUTH_ISSUER")) [
        | inl missing ↦ absurd (ground arith)
        | inr (auth_issuer, r) ↦ elim (Result-cases (boot c (keys_dir env) s).0) [
          | inr (_, failed) ↦ absurd (ground arith)
          | inl (signer, booted) ↦
              elim (Result-cases (opened c (db_path env) (boot c (keys_dir env) s).1).0) [
                | inr (_, failed) ↦ absurd (ground arith)
                | inl (store, is_open) ↦
                    elim (Result-cases (self_verifier_for c signer.own_jwk auth_issuer audience)) [
                      | inr (_, failed) ↦ absurd (ground arith)
                      | inl (own, made) ↦ record {
                        oidc_issuer = oidc_issuer;
                        audience = audience;
                        auth_issuer = auth_issuer;
                        signer = signer;
                        store = store;
                        own = own;
                        oidc_issuer_set = p;
                        audience_set = q;
                        auth_issuer_set = r;
                        booted = booted;
                        opened_store = is_open;
                        verifier = made;
                        wired = ground arith;
                        left = ground arith;
                        sharing = ground arith;
                      }
                    ]
              ]
        ]
      ]
    ]
  ]
