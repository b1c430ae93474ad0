-- ===== src/Auth/Jwks.antt =====
-- `fetch_jwks` of auth/src/jwks.rs. The file's `publish` is in Keys.
use Prim.Native.String.{◌++◌ as join}
use kaguya.Base.{
  String, Prog, lift, ◌>>=◌, map_err, trim_end_slashes, ◌≡◌, trim_end_slashes-append_slash,
}
use kaguya.Auth.Crates.{Crates}

unfoldable pub discovery_url : String → String
discovery_url issuer = join (trim_end_slashes issuer) "/.well-known/openid-configuration"

-- An issuer written with one more slash at its end is looked up at the same address.
pub discovery_url-append_slash :
    (issuer : String) → discovery_url (join issuer "/") ≡ discovery_url issuer
unfolding discovery_url
discovery_url-append_slash issuer = rw trim_end_slashes-append_slash

module _ (c : Crates) where
  open c use {World, Json, get, error_for_status, json_discovery_doc, json_value}

  unfoldable pub fetch_jwks : String → Prog String World Json
  fetch_jwks issuer = do
    let url = discovery_url issuer
    reply ←
        map_err (λ e. join "discovery " (join url (join ": " e)))
          (do sent ← get url; lift (error_for_status sent))
    discovery ← map_err (λ e. join "discovery parse: " e) (json_discovery_doc reply)
    reply' ←
        map_err (λ e. join "jwks " (join discovery.jwks_uri (join ": " e)))
          (do sent ← get discovery.jwks_uri; lift (error_for_status sent))
    map_err (λ e. join "jwks parse: " e) (json_value reply')
