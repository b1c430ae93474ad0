-- ===== src/Auth/Requests/Places.antt =====
-- Where a request stands in auth/src/main.rs, and what the requests share.
use kaguya.Base.{String, Option, List, Result, ok, err}
use kaguya.Auth.Store.{Store}
use kaguya.Auth.Sessions.{Sessions}
use kaguya.Auth.Claims.{IdentityClaims, ResourceGrant}
use kaguya.Auth.Crates.{Crates}
use kaguya.Auth.Device.{DeviceStart}
use kaguya.Auth.Verify.{VerifyError, OidcVerifier}
use kaguya.Auth.Service.{Auth, UserToken}

-- the calls of `RebacApi`
pub data Change : Type 0 where
  create : (resource_id resource_name : String) → Change
  delete : (resource_id : String) → Change

-- what a token is verified for: the login under a code, one of the two exchanges, or a change of the
-- resources
pub data Purpose : Type 0 where
  for_login : (code : String) → Purpose
  for_external : Purpose
  for_exchange : (requested : List String) → Purpose
  for_change : Change → Purpose

-- what a call answers, without the status and the message of a failure
pub data Reply : Type 0 where
  started : (session_code login_url : String) → Reply
  no_token : Reply
  issued : UserToken → Reply
  changed : Reply
  failed : Reply

abbrev pub change_reply : {E : Type 0} → Result E Unit → Reply
change_reply (ok _) = changed
change_reply (err e) = failed

module _ (c : Crates) where
  open c use {JwkSet}

  -- what the calls share
  pub record Shared : Type 0 where
    pub store : Store
    pub sessions : Sessions
    pub cached : Option JwkSet

  -- where a request stands, with what it holds
  pub data Pc : Type 0 where
    -- not begun yet
    idle : Pc
    -- `start_auth_session`, before `start` and before `insert`
    asking : (client_state : String) → Pc
    beginning : (client_state : String) → DeviceStart → Pc
    -- `get_auth_session`, before `poll`
    polling : (code device_code token_endpoint : String) → Pc
    -- `OidcVerifier::verify`: before the cache is read, before `fetch_jwks`, before the fetched set
    -- is written, with the result under it
    verifying : Purpose → (token : String) → Pc
    fetching : Purpose → (token : String) → Pc
    storing : Purpose → (token : String) → JwkSet → Result VerifyError IdentityClaims → Pc
    -- after it, and before `mint`
    verified : Purpose → (token : String) → IdentityClaims → Pc
    -- in the exchange, before each `role_for`: the ids left, and what has been granted
    scoping : IdentityClaims → (left : List String) → (granted : List ResourceGrant) → Pc
    issuing : (subject : String) → IdentityClaims → List ResourceGrant → Pc
    -- in `delete_resource`, between the check of the caller's role and the deletion
    deleting : IdentityClaims → (resource_id : String) → Pc
    answered : Reply → Pc
    -- the client has gone, and what awaits for it is dropped
    gone : Pc

  abbrev pub verifier_of : Auth c → Purpose → OidcVerifier c
  verifier_of a (for_exchange requested) = a.identity.oidc
  verifier_of a (for_change change) = a.identity.oidc
  verifier_of a _ = a.oidc
