-- ===== src/Auth/Service.antt =====
-- `impl UrcAuthApi for Auth` of auth/src/main.rs.
pub mod Scope
pub mod Reads
pub mod Exchange
pub mod Answers
pub mod Polled
pub mod Alone
pub mod Queries
pub mod Begin
pub mod Login
pub mod Completion
pub mod DeviceLogin
pub mod OwnTokens
use Prim.Native.String.{◌++◌ as join}
use kaguya.Base.{
  ℕ, String, Bool, true, false, Option, none, some, List, [], ◌∷◌, map, Result, ok, err, Prog, pure,
  raise, gets, ◌>>=◌, ◌>>◌, map_err, if◌then◌else◌, ltb, is_empty, ℤ, as_i64, hex_text,
}
use kaguya.Auth.Store.{Role, owner, member, Tables, permissions, role_for, accessible}
use kaguya.Auth.Sessions
use kaguya.Auth.Sessions.{from_secs}
use kaguya.Auth.Claims.{IdentityClaims, ResourceGrant, canonical_subject, display_names}
use kaguya.Auth.Crates.{Crates}
use kaguya.Auth.Verify.{Identity, OidcVerifier, verify, claims}
use kaguya.Auth.Keys.{Signer, mint}
use kaguya.Auth.Device.{OidcDeviceLogin, DeviceStart, Poll, pending, token, denied, start, poll}
use kaguya.Auth.Server.{
  Status, status, unauthenticated, permission_denied, not_found, internal, unimplemented, bearer,
  ResourcePermission, grant, Server, in_world, in_verifier, read_clock, caller,
}

pub record UserToken : Type 0 where
  pub user_token : String
  pub expires_at : ℤ
  pub user_id : String
  pub user_name : String

pub record CheckUserPermissionResponse : Type 0 where
  pub allowed : List ResourcePermission
  pub denied : List ResourcePermission

pub record StartAuthSessionResponse : Type 0 where
  pub session_code : String
  pub login_url : String

-- the closure of the exchange, on one state of the tables (`scoped_reads` of Service/Reads has it in
-- full): a requested id with no role on it is dropped
unfoldable pub scoped : String → Tables → List String → List ResourceGrant
scoped sub t [] = []
scoped sub t (id ∷ ids) =
    let rest = scoped sub t ids in
    elim (role_for sub id t) [
      | some role ↦ record { resource_id = id; permission = permissions role } ∷ rest
      | none ↦ rest
    ]

unfoldable pub clamp : ℕ → ℕ → ℕ → ℕ
clamp lo hi n = if ltb n lo then lo else if ltb hi n then hi else n

module _ (c : Crates) where
  open c use {World, to_lowercase, random_u128}

  -- the fields of `Auth` that do not change; `store`, `sessions` and the cache are in `Server`
  pub record Auth : Type 0 where
    pub signer : Signer c
    pub oidc : OidcVerifier c
    pub identity : Identity c
    pub oidc_device : OidcDeviceLogin c
    pub auth_issuer : String
    pub audience : String

  -- `random_id`
  abbrev random_id : Prog Status (Server c) String
  random_id s = let (n, w) = random_u128 s.world in (ok (hex_text 32 n), record s { world = w })

  -- `self.sessions.insert`, with its two readings of the clock
  unfoldable pub begin_session : String → DeviceStart → String → ℕ → Prog Status (Server c) Unit
  begin_session session_code begun client_state ttl = do
    swept ← read_clock c
    now ← read_clock c
    λ s. (
      ok tt,
      record s {
        sessions =
            Sessions.insert swept now session_code begun.device_code begun.token_endpoint
              client_state ttl s.sessions;
      },
    )

  unfoldable pub start_auth_session :
      Auth → String → Prog Status (Server c) StartAuthSessionResponse
  start_auth_session a client_state = do
    begun ←
        map_err (λ _. status internal "could not start login") (in_world c (start c a.oidc_device))
    session_code ← random_id
    begin_session session_code begun client_state (from_secs (clamp 60 600 begun.expires_in))
    pure (record { session_code = session_code; login_url = begun.login_url })

  -- `self.sessions.resolve`. Both readings of the clock are made here; the code makes the second
  -- only for a session whose client_state matches.
  unfoldable pub resolve_session :
      String → String → Prog Status (Server c) (Option (String × String))
  resolve_session session_code client_state = do
    swept ← read_clock c
    now ← read_clock c
    λ s.
        let (found, m) = Sessions.resolve swept now session_code client_state s.sessions in
        (ok found, record s { sessions = m })

  -- `self.sessions.remove`
  unfoldable pub remove_session : String → Prog Status (Server c) Unit
  remove_session session_code s =
      (ok tt, record s { sessions = Sessions.remove session_code s.sessions })

  -- mint for verified claims, and the message about the token
  unfoldable pub issue :
      Auth → String → IdentityClaims → List ResourceGrant → Prog Status (Server c) UserToken
  issue a subject claims resources = do
    let (name, preferred_username) = display_names claims
    minted ←
        map_err (λ _. status internal "token issuance failed")
          (in_world c (
            mint c a.signer a.auth_issuer a.audience subject name preferred_username claims.exp
              resources))
    pure (record {
      user_token = minted;
      expires_at = as_i64 claims.exp;
      user_id = subject;
      user_name = name;
    })

  -- the arms of `get_auth_session`
  unfoldable pub finish_login : Auth → String → Poll → Prog Status (Server c) (Option UserToken)
  finish_login a session_code pending = pure none
  finish_login a session_code (token id_token) = do
    claims ←
        map_err (λ _. status internal "login token invalid")
          (in_verifier c (verify c a.oidc id_token))
    remove_session session_code
    user_token ← issue a (canonical_subject to_lowercase claims) claims []
    pure (some user_token)
  finish_login a session_code (denied e) = do
    remove_session session_code
    raise (status permission_denied (join "login not completed: " e))

  unfoldable pub poll_login :
      Auth → String → Option (String × String) → Prog Status (Server c) (Option UserToken)
  poll_login a session_code none = raise (status not_found "unknown or expired login session")
  poll_login a session_code (some (device_code, token_endpoint)) = do
    polled ←
        map_err (λ _. status internal "login poll failed")
          (in_world c (poll c a.oidc_device token_endpoint device_code))
    finish_login a session_code polled

  unfoldable pub get_auth_session :
      Auth → String → String → Prog Status (Server c) (Option UserToken)
  get_auth_session a session_code client_state = do
    found ← resolve_session session_code client_state
    poll_login a session_code found

  unfoldable pub exchange_external_token_for_user_token :
      Auth → String → Prog Status (Server c) UserToken
  exchange_external_token_for_user_token a external =
      if is_empty external then raise (status unauthenticated "missing external token") else do
        claims ←
            map_err (λ _. status unauthenticated "invalid external token")
              (in_verifier c (verify c a.oidc external))
        issue a (canonical_subject to_lowercase claims) claims []

  -- The exchange as it is when no call comes between its SELECTs, and SQLite carries them out:
  -- `exchange_reads` of Service/Reads has it in full, and Service/Alone says that this is that.
  unfoldable pub exchange_user_token_for_multiresource_token :
      Auth → Option String → List String → Prog Status (Server c) UserToken
  exchange_user_token_for_multiresource_token a authorization requested =
      let presented : String = bearer authorization in
      if is_empty presented then raise (status unauthenticated "missing bearer token") else do
        found ←
            map_err (λ _. status unauthenticated "invalid identity token")
              (in_verifier c (claims c a.identity presented))
        resources ← gets (λ s. scoped found.sub s.store.tables requested)
        issue a found.sub found resources
