-- ===== src/Auth/Device.antt =====
-- auth/src/oidc_device.rs: the device-flow client.
pub mod Answers
use Prim.Native.String.{◌++◌ as join}
use kaguya.Base.{
  ℕ, String, not, ◌==◌, ◌||◌, Option, none, some, List, [], ◌∷◌, Result, Prog, pure, lift, ◌>>=◌,
  map_result, map_err, is_empty, if◌then◌else◌,
}
use kaguya.Auth.Crates.{Crates, Discovery, DeviceCodeResponse, TokenResponse}
use kaguya.Auth.Jwks.{discovery_url}
use kaguya.Auth.Verify.{ok_or}

abbrev scope : String
scope = "openid profile email"

pub record DeviceStart : Type 0 where
  pub device_code : String
  pub login_url : String
  pub token_endpoint : String
  pub expires_in : ℕ

pub data Poll : Type 0 where
  pending : Poll
  token : String → Poll
  denied : String → Poll

-- `o.filter(|t| !t.is_empty())`
abbrev pub non_empty : Option String → Option String
non_empty none = none
non_empty (some t) = if is_empty t then none else some t

abbrev or : Option String → Option String → Option String
or (some a) other = some a
or none other = other

classify_error : Option String → Poll
classify_error none = pending
classify_error (some e) =
    if e == "authorization_pending" || e == "slow_down" then pending else denied e

unfoldable pub classify : Option String → Option String → Option String → Poll
unfolding classify_error
classify id_token access_token error = elim (non_empty id_token) [
  | some t ↦ token t
  | none ↦ elim (non_empty access_token) [ some t ↦ token t | none ↦ classify_error error ]
]

module _ (c : Crates) where
  open c use {
    World, get, post_form, error_for_status, text, json_discovery, json_device_code, parse_token,
  }

  pub record OidcDeviceLogin : Type 0 where
    pub issuer : String
    pub client_id : String

  unfoldable pub discovery : OidcDeviceLogin → Prog String World Discovery
  discovery d = do
    let url = discovery_url d.issuer
    reply ←
        map_err (λ e. join "discovery " (join url (join ": " e)))
          (do sent ← get url; lift (error_for_status sent))
    map_err (λ e. join "discovery parse: " e) (json_discovery reply)

  unfoldable pub start : OidcDeviceLogin → Prog String World DeviceStart
  unfolding discovery
  start d = do
    disco ← discovery d
    reply ←
        map_err (λ e. join "device authorization: " e)
          (do
            sent ←
                post_form disco.device_authorization_endpoint
                  (("client_id", d.client_id) ∷ ("scope", scope) ∷ [])
            lift (error_for_status sent))
    resp ← map_err (λ e. join "device authorization parse: " e) (json_device_code reply)
    login_url ← lift (
        ok_or "device authorization returned no verification URI"
          (or resp.verification_uri_complete resp.verification_uri))
    pure (record {
      device_code = resp.device_code;
      login_url = login_url;
      token_endpoint = disco.token_endpoint;
      expires_in = resp.expires_in;
    })

  unfoldable pub poll : OidcDeviceLogin → String → String → Prog String World Poll
  poll d token_endpoint device_code = do
    resp ←
        map_err (λ e. join "token poll: " e)
          (post_form token_endpoint (
            ("grant_type", "urn:ietf:params:oauth:grant-type:device_code")
            ∷ ("device_code", device_code)
            ∷ ("client_id", d.client_id)
            ∷ []))
    body ← map_err (λ e. join "token read: " e) (text resp)
    parsed ← lift (map_result (λ e. join "token parse: " e) (parse_token body))
    pure (classify parsed.id_token parsed.access_token parsed.error)
