-- ===== src/Auth/Requests.antt =====
-- kaguya-auth with requests in flight: the calls of auth/src/main.rs that begin, poll and end a
-- login, the exchanges and the changes of resources, as threads over the sessions of sessions.rs,
-- the key cache of `OidcVerifier` in verify.rs and the store. A lock is held for one step; between
-- the steps, where a call awaits the provider, others run. What the outside answers, the clocks and
-- the random texts are any that the crates can give. The calls that only read the store,
-- `check_user_permission` and `lookup_user_permissions`, change nothing of this and are left out:
-- Auth/Service/Reads has them. A SELECT is one that SQLite carries out in full.
mod Places
pub mod Grounds
pub mod Issuing
pub mod Finished
pub use Places.*
use kaguya.Base.{
  System, ℕ, String, false, true, Option, none, some, List, [], ◌∷◌, ◌++◌, Result, ok, err, ◌≡◌,
  update, is_empty,
}
use kaguya.Auth.Store.{Store, Role, permissions, role_for}
use kaguya.Auth.Store
use kaguya.Auth.Store.Runs.{Operation, perform}
use kaguya.Auth.Rebac.{is_owner}
use kaguya.Auth.Sessions
use kaguya.Auth.Sessions.{Sessions, from_secs, resolve}
use kaguya.Auth.Claims.{IdentityClaims, ResourceGrant, canonical_subject}
use kaguya.Auth.Crates.{Crates}
use kaguya.Auth.Device.{DeviceStart, pending, token, denied, start, poll}
use kaguya.Auth.Verify.{
  VerifyError, OidcVerifier, header_kid, verify_with_jwks, fetch_jwks, self_claims,
}
use kaguya.Auth.Verify.Caching.{Misses}
use kaguya.Auth.Server.{bearer, Server}
use kaguya.Auth.Service.{Auth, UserToken, clamp, issue}

module _ (c : Crates) where
  open c use {World, JwkSet, Jwk, to_lowercase}

  -- A step of one request. There is no end of requests, and none begins again.
  pub data Move (a : Auth c) (s : Shared c) : Pc c → Shared c → Pc c → Type 0 where
    start_login : (client_state : String) → Move a s idle s (asking client_state)
    device_started :
        {client_state : String} {begun : DeviceStart} (w : World)
        → (start c a.oidc_device w).0 ≡ ok begun
        → Move a s (asking client_state) s (beginning client_state begun)
    not_started : {client_state : String} → Move a s (asking client_state) s (answered failed)
    insert_session :
        {client_state : String} {begun : DeviceStart} (swept now : ℕ) (code : String)
        → Move a s
            (beginning client_state begun)
            (record s {
              sessions =
                  Sessions.insert swept now code begun.device_code begun.token_endpoint client_state
                    (from_secs (clamp 60 600 begun.expires_in))
                    s.sessions;
            })
            (answered (started code begun.login_url))
    resolve_session :
        (swept now : ℕ) (code client_state : String) {device endpoint : String}
        → (resolve swept now code client_state s.sessions).0 ≡ some (device, endpoint)
        → Move a s idle
            (record s { sessions = (resolve swept now code client_state s.sessions).1 })
            (polling code device endpoint)
    resolve_nothing :
        (swept now : ℕ) (code client_state : String)
        → (resolve swept now code client_state s.sessions).0 ≡ none
        → Move a s idle
            (record s { sessions = (resolve swept now code client_state s.sessions).1 })
            (answered failed)
    polled_pending :
        {code device endpoint : String} (w : World)
        → (poll c a.oidc_device endpoint device w).0 ≡ ok pending
        → Move a s (polling code device endpoint) s (answered no_token)
    polled_token :
        {code device endpoint id_token : String} (w : World)
        → (poll c a.oidc_device endpoint device w).0 ≡ ok (token id_token)
        → Move a s (polling code device endpoint) s (verifying (for_login code) id_token)
    polled_denied :
        {code device endpoint why : String} (w : World)
        → (poll c a.oidc_device endpoint device w).0 ≡ ok (denied why)
        → Move a s
            (polling code device endpoint)
            (record s { sessions = Sessions.remove code s.sessions })
            (answered failed)
    poll_failed :
        {code device endpoint : String}
        → Move a s (polling code device endpoint) s (answered failed)
    present_external :
        (external : String)
        → is_empty external ≡ false
        → Move a s idle s (verifying for_external external)
    present_nothing : Move a s idle s (answered failed)
    -- `Identity::claims`: a token of the service's own, or else one of the provider's
    present_own :
        (header : Option String) (requested : List String) {found : IdentityClaims} (w : World)
        → is_empty (bearer header) ≡ false
        → (self_claims c a.identity.self_verifier (bearer header) w).0 ≡ some found
        → Move a s idle s (verified (for_exchange requested) (bearer header) found)
    present_other :
        (header : Option String) (requested : List String) (w : World)
        → is_empty (bearer header) ≡ false
        → (self_claims c a.identity.self_verifier (bearer header) w).0 ≡ none
        → Move a s idle s (verifying (for_exchange requested) (bearer header))
    bad_header :
        {p : Purpose} {presented : String} {e : VerifyError}
        → header_kid c presented ≡ err e
        → Move a s (verifying p presented) s (answered failed)
    hit :
        {p : Purpose} {presented : String} {found : IdentityClaims} (kid : String) (keys : JwkSet)
        (jwk : Jwk) (w : World)
        → header_kid c presented ≡ ok kid
        → s.cached ≡ some keys
        → c.find keys kid ≡ some jwk
        → (verify_with_jwks c presented keys
            (verifier_of c a p).issuer
            (verifier_of c a p).audiences
            w).0
          ≡ ok found
        → Move a s (verifying p presented) s (verified p presented found)
    hit_refused :
        {p : Purpose} {presented : String} {e : VerifyError} (kid : String) (keys : JwkSet)
        (jwk : Jwk) (w : World)
        → header_kid c presented ≡ ok kid
        → s.cached ≡ some keys
        → c.find keys kid ≡ some jwk
        → (verify_with_jwks c presented keys
            (verifier_of c a p).issuer
            (verifier_of c a p).audiences
            w).0
          ≡ err e
        → Move a s (verifying p presented) s (answered failed)
    miss :
        {p : Purpose} {presented : String} (kid : String)
        → header_kid c presented ≡ ok kid
        → Misses c kid s.cached
        → Move a s (verifying p presented) s (fetching p presented)
    fetched :
        {p : Purpose} {presented : String} {keys : JwkSet} (w : World)
        → (fetch_jwks c (verifier_of c a p) w).0 ≡ ok keys
        → Move a s (fetching p presented) s (
            storing p presented keys
              (verify_with_jwks c presented keys
                (verifier_of c a p).issuer
                (verifier_of c a p).audiences
                (fetch_jwks c (verifier_of c a p) w).1).0)
    not_fetched :
        {p : Purpose} {presented : String} → Move a s (fetching p presented) s (answered failed)
    store_accepted :
        {p : Purpose} {presented : String} {keys : JwkSet} {found : IdentityClaims}
        → Move a s
            (storing p presented keys (ok found))
            (record s { cached = some keys })
            (verified p presented found)
    store_refused :
        {p : Purpose} {presented : String} {keys : JwkSet} {e : VerifyError}
        → Move a s
            (storing p presented keys (err e))
            (record s { cached = some keys })
            (answered failed)
    end_login :
        {code presented : String} {found : IdentityClaims}
        → Move a s
            (verified (for_login code) presented found)
            (record s { sessions = Sessions.remove code s.sessions })
            (issuing (canonical_subject to_lowercase found) found [])
    accept_external :
        {presented : String} {found : IdentityClaims}
        → Move a s
            (verified for_external presented found)
            s
            (issuing (canonical_subject to_lowercase found) found [])
    accept_bearer :
        {requested : List String} {presented : String} {found : IdentityClaims}
        → Move a s
            (verified (for_exchange requested) presented found)
            s
            (scoping found requested [])
    read_role :
        {found : IdentityClaims} {id : String} {left : List String} {granted : List ResourceGrant}
        {role : Role}
        → role_for found.sub id s.store.tables ≡ some role
        → Move a s (scoping found (id ∷ left) granted) s (
            scoping found left
              (granted ++ record { resource_id = id; permission = permissions role } ∷ []))
    read_no_role :
        {found : IdentityClaims} {id : String} {left : List String} {granted : List ResourceGrant}
        → role_for found.sub id s.store.tables ≡ none
        → Move a s (scoping found (id ∷ left) granted) s (scoping found left granted)
    roles_read :
        {found : IdentityClaims} {granted : List ResourceGrant}
        → Move a s (scoping found [] granted) s (issuing found.sub found granted)
    mint_token :
        {subject : String} {found : IdentityClaims} {resources : List ResourceGrant} {t : UserToken}
        (at : Server c)
        → (issue c a subject found resources at).0 ≡ ok t
        → Move a s (issuing subject found resources) s (answered (issued t))
    not_minted :
        {subject : String} {found : IdentityClaims} {resources : List ResourceGrant}
        → Move a s (issuing subject found resources) s (answered failed)
    -- the calls of `RebacApi`
    change_own :
        (change : Change) (header : Option String) {found : IdentityClaims} (w : World)
        → (self_claims c a.identity.self_verifier (bearer header) w).0 ≡ some found
        → Move a s idle s (verified (for_change change) (bearer header) found)
    change_other :
        (change : Change) (header : Option String) (w : World)
        → (self_claims c a.identity.self_verifier (bearer header) w).0 ≡ none
        → Move a s idle s (verifying (for_change change) (bearer header))
    create_resource :
        {id name presented : String} {found : IdentityClaims} (now : ℕ)
        → Move a s
            (verified (for_change (create id name)) presented found)
            (record s { store = (Store.record_owner now found.sub id name s.store).1 })
            (answered (change_reply (Store.record_owner now found.sub id name s.store).0))
    may_delete :
        {id presented : String} {found : IdentityClaims}
        → is_owner (role_for found.sub id s.store.tables) ≡ true
        → Move a s (verified (for_change (delete id)) presented found) s (deleting found id)
    may_not_delete :
        {id presented : String} {found : IdentityClaims}
        → is_owner (role_for found.sub id s.store.tables) ≡ false
        → Move a s (verified (for_change (delete id)) presented found) s (answered failed)
    delete_resource :
        {id : String} {found : IdentityClaims}
        → Move a s
            (deleting found id)
            (record s { store = (Store.delete_resource id s.store).1 })
            (answered (change_reply (Store.delete_resource id s.store).0))
    -- an admin command in another process, on the same database
    administer : (o : Operation) → Move a s idle (record s { store = perform o s.store }) idle
    -- the client goes
    leave : {p : Pc c} → Move a s p s gone

  -- The service starts with no login and no key set.
  abbrev pub init : Store → System (Shared c) (Pc c)
  init store = record {
    shared = record { store = store; sessions = Sessions.new; cached = none };
    pc = λ _. idle;
  }
