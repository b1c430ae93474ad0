-- ===== src/Web/Oidc.antt =====
-- web/src/oidc.rs: the authorization-code flow with PKCE.
use Prim.Native.String.{◌++◌ as join}
use kaguya.Base.{String, [], ◌∷◌, Prog, pure, lift, ◌>>=◌, map_result, map_err, hex_text}
use kaguya.Auth.Jwks.{discovery_url}
use kaguya.Web.Crates.{Crates, Discovery}

pub record Oidc : Type 0 where
  pub issuer : String
  pub client_id : String
  pub redirect_uri : String

module _ (c : Crates) where
  open c use {
    World, get, post_form, error_for_status, json_discovery, json_token, Url, parse_url,
    append_pair, url_text, random_u128, random_bytes, encode_url_safe, sha256,
  }

  -- the address is built as in auth/src/jwks.rs
  unfoldable pub discovery : Oidc → Prog String World Discovery
  discovery o = do
    let url = discovery_url o.issuer
    reply ←
        map_err (λ e. join "discovery " (join url (join ": " e)))
          (do sent ← get url; lift (error_for_status sent))
    map_err (λ e. join "discovery parse: " e) (json_discovery reply)

  -- the pairs in the order in which they are appended
  unfoldable pub authorize_url : Oidc → String → String → Prog String World String
  authorize_url o state code_challenge = do
    disco ← discovery o
    url ← lift (map_result (λ e. join "authorize url: " e) (parse_url disco.authorization_endpoint))
    pure (
        url_text (
          append_pair "code_challenge_method" "S256" (
            append_pair "code_challenge" code_challenge (
              append_pair "state" state (
                append_pair "scope" "openid profile email" (
                  append_pair "redirect_uri" o.redirect_uri (
                    append_pair "client_id" o.client_id
                      (append_pair "response_type" "code" url))))))))

  unfoldable pub exchange_code : Oidc → String → String → Prog String World String
  exchange_code o code code_verifier = do
    disco ← discovery o
    reply ←
        map_err (λ e. join "token exchange: " e)
          (do
            sent ← post_form disco.token_endpoint (
                ("grant_type", "authorization_code")
                ∷ ("code", code)
                ∷ ("redirect_uri", o.redirect_uri)
                ∷ ("client_id", o.client_id)
                ∷ ("code_verifier", code_verifier)
                ∷ [])
            lift (error_for_status sent))
    resp ← map_err (λ e. join "token parse: " e) (json_token reply)
    pure resp.id_token

  -- 32 random bytes
  unfoldable pub code_verifier : World → String × World
  code_verifier w = let (bytes, v) = random_bytes w in (encode_url_safe bytes, v)

  unfoldable pub code_challenge : String → String
  code_challenge verifier = encode_url_safe (sha256 verifier)

  unfoldable pub random_state : World → String × World
  random_state w = let (n, v) = random_u128 w in (hex_text 32 n, v)
