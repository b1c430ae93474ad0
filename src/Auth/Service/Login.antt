-- ===== src/Auth/Service/Login.antt =====
-- How a device login ends: `get_auth_session` of auth/src/main.rs.
use Prim.Native.String.{◌++◌ as join}
use kaguya.Base.{
  ℕ, String, Option, none, some, [], ok, err, ◌≡◌, inl, inr, arith, refl, Result-cases,
}
use kaguya.Auth.Sessions
use kaguya.Auth.Sessions.{from_secs, resolve}
use kaguya.Auth.Sessions.Resolve.{resolve-remove_self}
use kaguya.Auth.Claims.{IdentityClaims, canonical_subject}
use kaguya.Auth.Crates.{Crates}
use kaguya.Auth.Device.{Poll, pending, token, denied, poll}
use kaguya.Auth.Verify.{verify}
use kaguya.Auth.Verify.Trust.{IsSigned, verify-IsSigned}
use kaguya.Auth.Server.{status, not_found, permission_denied, Server}
use kaguya.Auth.Service.{
  Auth, UserToken, resolve_session, remove_session, issue, finish_login, poll_login,
  get_auth_session,
}
use kaguya.Auth.Service.Exchange.{IsIssued, issue-IsIssued, issue-cached, verifying}

module _ (c : Crates) where
  open c use {World, JwkSet, to_lowercase, instant}

  -- what `issue` does leaves the sessions alone
  issue-sessions :
      (a : Auth c) (subject : String) (found : IdentityClaims) (s : Server c)
      → (issue c a subject found [] s).1.sessions ≡ s.sessions
  unfolding issue
  issue-sessions a subject found s = ground arith

  finish_login-IsIssued :
      (a : Auth c) (code : String) (polled : Poll) (s : Server c) (t : UserToken)
      → (finish_login c a code polled s).0 ≡ ok (some t)
      → (id_token : String) × (found : IdentityClaims) × (keys : JwkSet) × (polled ≡ token id_token)
        × ((finish_login c a code polled s).1.cached ≡ some keys)
        × IsSigned c keys a.oidc.issuer a.oidc.audiences id_token found
        × IsIssued c a (canonical_subject to_lowercase found) found [] t
        × ((swept now : ℕ) (other : String)
            → (resolve swept now code other (finish_login c a code polled s).1.sessions).0 ≡ none)
  unfolding finish_login remove_session
  finish_login-IsIssued a code pending s t e = cc
  finish_login-IsIssued a code (denied why) s t e = cc
  finish_login-IsIssued a code (token id_token) s t e =
      let checked = verify c a.oidc id_token (verifying c s) in
      elim (Result-cases checked.0) [
        | inr (_, refused) ↦ absurd (ground arith)
        | inl (found, accepted) ↦
            let (keys, cached, signed) =
              verify-IsSigned c a.oidc id_token (verifying c s) found accepted in
            let s' : Server c = record s {
              sessions = Sessions.remove code s.sessions;
              cached = checked.1.cached;
              world = checked.1.world;
            } in
            let subject = canonical_subject to_lowercase found in
            elim (Result-cases (issue c a subject found [] s').0) [
              | inr (_, failed) ↦ absurd (ground arith)
              | inl (minted, done) ↦ (
                id_token,
                found,
                keys,
                refl,
                ground (arith, issue-cached c a subject found [] s'),
                signed,
                issue-IsIssued c a subject found [] s' t (ground arith),
                λ swept now other. ground (
                  arith,
                  issue-sessions a subject found s',
                  resolve-remove_self swept now code other s.sessions,
                ),
              )
            ]
      ]

  poll_login-IsIssued :
      (a : Auth c) (code : String) (found : Option (String × String)) (s : Server c) (t : UserToken)
      → (poll_login c a code found s).0 ≡ ok (some t)
      → (device : String) × (endpoint : String) × (id_token : String) × (claims : IdentityClaims)
        × (keys : JwkSet) × (found ≡ some (device, endpoint))
        × ((poll c a.oidc_device endpoint device s.world).0 ≡ ok (token id_token))
        × ((poll_login c a code found s).1.cached ≡ some keys)
        × IsSigned c keys a.oidc.issuer a.oidc.audiences id_token claims
        × IsIssued c a (canonical_subject to_lowercase claims) claims [] t
        × ((swept now : ℕ) (other : String)
            → (resolve swept now code other (poll_login c a code found s).1.sessions).0 ≡ none)
  unfolding poll_login
  poll_login-IsIssued a code none s t e = cc
  poll_login-IsIssued a code (some (device, endpoint)) s t e =
      let polled = poll c a.oidc_device endpoint device s.world in
      elim (Result-cases polled.0) [
        | inr (_, failed) ↦ absurd (ground arith)
        | inl (answer, done) ↦
            let s' : Server c = record s { world = polled.1 } in
            let same : poll_login c a code (some (device, endpoint)) s
                ≡ finish_login c a code answer s' =
              ground arith in
            let (id_token, claims, keys, given, cached, signed, issued, gone) =
              finish_login-IsIssued a code answer s' t (rw same at e) in
            (
              device,
              endpoint,
              id_token,
              claims,
              keys,
              refl,
              cc (done, given),
              rw same cached,
              signed,
              issued,
              rw same gone,
            )
      ]

  -- `get_auth_session` answers a token only for a live session whose client_state the caller shows,
  -- once the provider has answered with a token that is signed, for the configured issuer and
  -- audiences, by a key of the set that is cached afterwards. The answer is issued to the canonical
  -- subject of that token's claims, with its expiry and no resources; and the session is gone: its
  -- code resolves no more, whenever and for whomever.
  pub get_auth_session-IsIssued :
      (a : Auth c) (code state : String) (s : Server c) (t : UserToken)
      → (get_auth_session c a code state s).0 ≡ ok (some t)
      → (device : String) × (endpoint : String) × (id_token : String) × (claims : IdentityClaims)
        × (keys : JwkSet) × ((resolve_session c code state s).0 ≡ ok (some (device, endpoint)))
        × ((poll c a.oidc_device endpoint device (resolve_session c code state s).1.world).0
            ≡ ok (token id_token))
        × ((get_auth_session c a code state s).1.cached ≡ some keys)
        × IsSigned c keys a.oidc.issuer a.oidc.audiences id_token claims
        × IsIssued c a (canonical_subject to_lowercase claims) claims [] t
        × ((swept now : ℕ) (other : String)
            → (resolve swept now code other (get_auth_session c a code state s).1.sessions).0
              ≡ none)
  unfolding get_auth_session
  get_auth_session-IsIssued a code state s t e =
      elim (Result-cases (resolve_session c code state s).0) [
        | inr (_, failed) ↦ absurd (ground arith)
        | inl (found, resolved) ↦
            let s₁ = (resolve_session c code state s).1 in
            let same : get_auth_session c a code state s ≡ poll_login c a code found s₁ =
              ground arith in
            let (
              device, endpoint, id_token, claims, keys, live, answer, cached, signed, issued, gone,
            ) =
              poll_login-IsIssued a code found s₁ t (rw same at e) in
            (
              device,
              endpoint,
              id_token,
              claims,
              keys,
              cc (resolved, live),
              answer,
              rw same cached,
              signed,
              issued,
              rw same gone,
            )
      ]

  -- Where `get_auth_session` answers no token: a code that does not resolve is `not_found`; while
  -- the provider says pending, the answer is no token and the session stays; when it denies, the
  -- call is `permission_denied` with the provider's reason and the code resolves no more.
  get_auth_session_unfinished :
      (a : Auth c) (code state : String) (s : Server c)
      → ((resolve_session c code state s).0 ≡ ok none
          → (get_auth_session c a code state s).0
            ≡ err (status not_found "unknown or expired login session"))
        × ((device endpoint : String)
            → (resolve_session c code state s).0 ≡ ok (some (device, endpoint))
            → (poll c a.oidc_device endpoint device (resolve_session c code state s).1.world).0
              ≡ ok pending
            → ((get_auth_session c a code state s).0 ≡ ok none)
              × ((get_auth_session c a code state s).1.sessions
                  ≡ (resolve_session c code state s).1.sessions))
        × ((device endpoint why : String)
            → (resolve_session c code state s).0 ≡ ok (some (device, endpoint))
            → (poll c a.oidc_device endpoint device (resolve_session c code state s).1.world).0
              ≡ ok (denied why)
            → ((get_auth_session c a code state s).0
                ≡ err (status permission_denied (join "login not completed: " why)))
              × ((swept now : ℕ) (other : String)
                  → (resolve swept now code other (get_auth_session c a code state s).1.sessions).0
                    ≡ none))
  unfolding get_auth_session poll_login finish_login remove_session
  get_auth_session_unfinished a code state s = (
    λ unknown. ground arith,
    λ device endpoint live waiting. (ground arith, ground arith),
    λ device endpoint why live refused. (
      ground arith,
      λ swept now other. ground (
        arith,
        resolve-remove_self swept now code other (resolve_session c code state s).1.sessions,
      ),
    ),
  )
