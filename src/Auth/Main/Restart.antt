-- ===== src/Auth/Main/Restart.antt =====
-- What a restart of kaguya-auth keeps and what it forgets (`main` of auth/src/main.rs).
use kaguya.Base.{◌<◌, String, Option, some, List, ok, ◌≡◌, arith, refl, ◌∙◌, ap}
use kaguya.Auth.Claims.{IdentityClaims, ResourceGrant, read_back}
use kaguya.Auth.Sessions.{new}
use kaguya.Auth.Store.{Store}
use kaguya.Auth.Crates.{Crates}
use kaguya.Auth.Verify.{SelfVerifier, Verifying, claims, self_claims, self_verifier_for}
use kaguya.Auth.Keys.{Signer}
use kaguya.Auth.Keys.Files.{Machine, key_path, boot}
use kaguya.Auth.Keys.Boot.{IsKept, quiet, load_or_generate-again, boot-IsKept}
use kaguya.Auth.Server.{Server}
use kaguya.Auth.Service.{Auth, UserToken}
use kaguya.Auth.Service.Exchange.{IsIssued, minted_claims}
use kaguya.Auth.Service.OwnTokens.{JwtLaws, decode-issued}
use kaguya.Auth.Main.{wire, shared, keys_dir, db_path, serving, start_service}
use kaguya.Auth.Main.Wiring.{start_service-Parts}
use kaguya.Auth.Main.Serving.{KeyLaws, start_service-IsConfigured}

module _ (c : Crates) where
  open c use {World, EncodingKey, DecodingKey, unix_seconds, open_store}

  boot-found :
      (dir : String) (signer : Signer c) (s : Machine c) (w : World)
      → IsKept c dir signer s
      → ((boot c dir (quiet c s w)).0 ≡ ok signer) × ((boot c dir (quiet c s w)).1.world ≡ w)
  unfolding boot kaguya.Auth.Keys.Files.publish kaguya.Auth.Keys.Files.write
  boot-found dir signer s w kept =
      let loaded = load_or_generate-again c dir signer s w kept in (rw loaded refl, rw loaded refl)

  -- a start that finds its key and its database, and the variables it needs
  start_service-found :
      (env : String → Option String) (signer : Signer c) (s : Machine c) (w : World) (store : Store)
      (own : SelfVerifier c) (oidc_issuer audience auth_issuer : String)
      → IsKept c (keys_dir env) signer s
      → env "KAGUYA_OIDC_ISSUER" ≡ some oidc_issuer
      → env "KAGUYA_JWT_AUDIENCE" ≡ some audience
      → env "KAGUYA_AUTH_ISSUER" ≡ some auth_issuer
      → (open_store (db_path env) w).0 ≡ ok store
      → self_verifier_for c signer.own_jwk auth_issuer audience ≡ ok own
      → (start_service c env (quiet c s w)).0
        ≡ ok (
            serving
              (wire c env signer own oidc_issuer audience auth_issuer)
              (shared c store (open_store (db_path env) w).1))
  unfolding start_service kaguya.Auth.Main.env_required
  start_service-found env signer s w store own oidc_issuer audience auth_issuer kept p q r is_open
        made =
      let (booted, same_world) = boot-found (keys_dir env) signer s w kept in ground arith

  -- the checks of identity come down to the service's own one where that accepts
  claims-own :
      (a a' : Auth c) (token : String) (found : IdentityClaims) (now : Verifying c)
      → a'.identity.self_verifier ≡ a.identity.self_verifier
      → (self_claims c a.identity.self_verifier token now.world).0 ≡ some found
      → (claims c a'.identity token now).0 ≡ ok found
  unfolding claims self_claims
  claims-own a a' token found now same accepted = ground arith

  module _ {pair : EncodingKey → DecodingKey → Type 0} (key_laws : KeyLaws c pair)
      (jwt_laws : JwtLaws c pair) where
    -- A restart keeps the service's tokens good. Suppose that `main` has got as far as serving, and is
    -- started again, with the key file as the first start left it, at the same KAGUYA_KEYS_DIR, with
    -- the same KAGUYA_JWT_AUDIENCE and KAGUYA_AUTH_ISSUER and a KAGUYA_OIDC_ISSUER, that no call of
    -- std::fs fails, and that the database opens. Then it serves again, with the same signer; the
    -- tables are those of the database, and no login is in flight; and a token that the first service
    -- issued is accepted by the second until it expires, with the claims that it was issued with.
    pub restart_accepts :
        (env env' : String → Option String) (s kept : Machine c) (w : World) (a : Auth c)
        (sv : Server c) (store : Store) (oidc_issuer subject : String) (found : IdentityClaims)
        (resources : List ResourceGrant) (t : UserToken) (now : Verifying c)
        → (start_service c env s).0 ≡ ok (serving a sv)
        → kept.disk.files (key_path (keys_dir env))
          ≡ (start_service c env s).1.disk.files (key_path (keys_dir env))
        → keys_dir env' ≡ keys_dir env
        → env' "KAGUYA_JWT_AUDIENCE" ≡ env "KAGUYA_JWT_AUDIENCE"
        → env' "KAGUYA_AUTH_ISSUER" ≡ env "KAGUYA_AUTH_ISSUER"
        → env' "KAGUYA_OIDC_ISSUER" ≡ some oidc_issuer
        → (open_store (db_path env') w).0 ≡ ok store
        → (issued : IsIssued c a subject found resources t) → (unix_seconds now.world).0 < found.exp
        → (a' : Auth c) × (sv' : Server c) × ((start_service c env' (quiet c kept w)).0
            ≡ ok (serving a' sv'))
          × (a'.signer ≡ a.signer)
          × (sv'.store ≡ store)
          × (sv'.sessions ≡ new)
          × ((claims c a'.identity t.user_token now).0
              ≡ ok (read_back (minted_claims c a subject found resources issued.iat)))
    unfolding wire shared
    restart_accepts env env' s kept w a sv store oidc_issuer subject found resources t now e
          same_key same_dir same_audience same_issuer oidc_set is_open issued fresh =
        let p = start_service-Parts c env s a sv e in
        let (wired, _, _, _, _, _) = start_service-IsConfigured c key_laws env s a sv e in
        let (k, _) = boot-IsKept c (keys_dir env) p.signer s p.booted in
        let there : kept.disk.files (key_path (keys_dir env)) ≡ some k.pem =
          same_key ∙ rw p.left k.there in
        let signer_kept : IsKept c (keys_dir env') p.signer kept = record {
          pem = k.pem;
          there = rw same_dir there;
          usable = k.usable;
        } in
        let a' = wire c env' p.signer p.own oidc_issuer p.audience p.auth_issuer in
        let sv' = shared c store (open_store (db_path env') w).1 in
        let accepted =
          decode-issued c jwt_laws a subject found resources t now.world wired issued fresh in
        (
          a',
          sv',
          start_service-found env' p.signer kept w store p.own oidc_issuer p.audience p.auth_issuer
              signer_kept oidc_set (same_audience ∙ p.audience_set)
              (same_issuer ∙ p.auth_issuer_set) is_open p.verifier,
          ap (λ (x : Auth c). x.signer) p.wired,
          refl,
          refl,
          claims-own a a' t.user_token
              (read_back (minted_claims c a subject found resources issued.iat)) now
              (ap (λ (x : Auth c). x.identity.self_verifier) p.wired) accepted,
        )
