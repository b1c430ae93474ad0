-- ===== src/Web/AuthClient.antt =====
-- web/src/authsvc.rs: the client of kaguya-auth.
pub mod Scoped
use Prim.Native.String.{◌++◌ as join}
use kaguya.Base.{
  String, Option, none, some, [], ◌∷◌, Prog, pure, lift, ◌>>=◌, map_err, Result, ℤ, is_empty,
  if◌then◌else◌,
}
use kaguya.Auth.Service.{UserToken}
use kaguya.Auth.Verify.{ok_or}
use kaguya.Web.Crates.{Crates}

pub record Issued : Type 0 where
  pub token : String
  pub user_id : String
  pub user_name : String
  pub expires_at : ℤ

-- `.filter(|t| !t.user_token.is_empty())`
abbrev pub with_token : Option UserToken → Option UserToken
with_token none = none
with_token (some t) = if is_empty t.user_token then none else some t

module _ (c : Crates) where
  open c use {
    World, Channel, MetadataValue, connect, metadata_value, exchange_external_token,
    exchange_multiresource,
  }

  unfoldable pub connect_auth : String → Prog String World Channel
  connect_auth endpoint = map_err (λ e. join "auth connect: " e) (connect endpoint)

  unfoldable pub exchange_external : String → String → Prog String World Issued
  unfolding connect_auth
  exchange_external endpoint id_token = do
    client ← connect_auth endpoint
    resp ←
        map_err (λ e. join "exchange_external: " e)
          (exchange_external_token client id_token "external")
    t ← lift (ok_or "auth service returned no user token" (with_token resp))
    pure (record {
      token = t.user_token;
      user_id = t.user_id;
      user_name = t.user_name;
      expires_at = t.expires_at;
    })

  unfoldable pub bearer : String → Result String MetadataValue
  bearer token = ok_or "invalid bearer token" (metadata_value (join "Bearer " token))

  unfoldable pub exchange_resource : String → String → String → Prog String World String
  unfolding connect_auth bearer
  exchange_resource endpoint authn_token resource_id = do
    client ← connect_auth endpoint
    header ← lift (bearer authn_token)
    resp ←
        map_err (λ e. join "exchange_resource: " e)
          (exchange_multiresource client header (resource_id ∷ []))
    t ← lift (ok_or "auth service returned no scoped token" (with_token resp))
    pure t.user_token
