-- ===== src/Auth/Service/Polled.antt =====
-- The answers of `get_auth_session` of auth/src/main.rs, one for each way through it, and what each
-- leaves of the login sessions.
use Prim.Native.String.{◌++◌ as join}
use kaguya.Base.{
  ℕ, String, Option, none, some, [], Result, ok, err, ◌≡◌, inl, inr, arith, Result-cases,
}
use kaguya.Auth.Claims.{IdentityClaims, canonical_subject}
use kaguya.Auth.Crates.{Crates}
use kaguya.Auth.Sessions.{Sessions, remove}
use kaguya.Auth.Device.{Poll, pending, token, denied, poll}
use kaguya.Auth.Keys.{header_of}
use kaguya.Auth.Verify.{VerifyError, Verifying, verify}
use kaguya.Auth.Server.{Status, status, not_found, internal, permission_denied, Server}
use kaguya.Auth.Service.{
  Auth, UserToken, resolve_session, poll_login, finish_login, issue, get_auth_session,
}
use kaguya.Auth.Service.Exchange.{minted_claims, IsIssued}
use kaguya.Auth.Service.Answers.{issue_answers, issue-keeps}

module _ (c : Crates) (a : Auth c) (code state : String) (s : Server c) where
  open c use {World, encode, to_lowercase}

  -- the state once the session has been looked up, and the provider's answer
  abbrev resolved : Server c
  resolved = (resolve_session c code state s).1

  abbrev polled : String → String → Result String Poll × World
  polled device endpoint = poll c a.oidc_device endpoint device resolved.world

  -- the check of the token that it answers
  abbrev checked : String → String → String → Result VerifyError IdentityClaims × Verifying c
  checked device endpoint id_token =
      verify c a.oidc id_token
        (record { cached = resolved.cached; world = (polled device endpoint).1 })

  -- the code resolves to this device code and endpoint, and the provider answers this to them
  pub record IsAt (device endpoint : String) (answer : Result String Poll) : Type 0 where
    pub live : (resolve_session c code state s).0 ≡ ok (some (device, endpoint))
    pub answered : (polled device endpoint).0 ≡ answer

  -- What a poll answers, when, and the login sessions that it leaves.
  pub data IsPolled : Result Status (Option UserToken) → Sessions → Type 0 where
    unknown :
        (resolve_session c code state s).0 ≡ ok none
        → IsPolled (err (status not_found "unknown or expired login session")) resolved.sessions
    unreachable :
        (device endpoint why : String)
        → IsAt device endpoint (err why)
        → IsPolled (err (status internal "login poll failed")) resolved.sessions
    waiting :
        (device endpoint : String)
        → IsAt device endpoint (ok pending)
        → IsPolled (ok none) resolved.sessions
    refused :
        (device endpoint why : String)
        → IsAt device endpoint (ok (denied why))
        → IsPolled
            (err (status permission_denied (join "login not completed: " why)))
            (remove code resolved.sessions)
    rejected :
        (device endpoint id_token : String) (e : VerifyError)
        → IsAt device endpoint (ok (token id_token))
        → (checked device endpoint id_token).0 ≡ err e
        → IsPolled (err (status internal "login token invalid")) resolved.sessions
    unsigned :
        (device endpoint id_token : String) (found : IdentityClaims) (iat : ℕ) (why : String)
        → IsAt device endpoint (ok (token id_token))
        → (checked device endpoint id_token).0 ≡ ok found
        → encode
            (header_of c a.signer)
            (minted_claims c a (canonical_subject to_lowercase found) found [] iat)
            a.signer.encoding_key
          ≡ err why
        → IsPolled (err (status internal "token issuance failed")) (remove code resolved.sessions)
    issued :
        (device endpoint id_token : String) (found : IdentityClaims) (t : UserToken)
        → IsAt device endpoint (ok (token id_token))
        → (checked device endpoint id_token).0 ≡ ok found
        → IsIssued c a (canonical_subject to_lowercase found) found [] t
        → IsPolled (ok (some t)) (remove code resolved.sessions)

  -- such an answer, with the store as it was
  abbrev Keeps : Result Status (Option UserToken) × Server c → Type 0
  Keeps (r, after) = IsPolled r after.sessions × (after.store ≡ s.store)

  resolved-store : resolved.store ≡ s.store
  unfolding resolve_session
  resolved-store = ground arith

  finish_login-Keeps :
      (device endpoint : String) (answer : Poll)
      → IsAt device endpoint (ok answer)
      → Keeps
          (finish_login c a code answer (record resolved { world = (polled device endpoint).1 }))
  unfolding finish_login kaguya.Auth.Service.remove_session
  finish_login-Keeps device endpoint pending at = (waiting device endpoint at, resolved-store)
  finish_login-Keeps device endpoint (denied why) at =
      (refused device endpoint why at, resolved-store)
  finish_login-Keeps device endpoint (token id_token) at =
      let judged = checked device endpoint id_token in
      elim (Result-cases judged.0) [
        | inr (e, bad) ↦
            (rw bad (rejected device endpoint id_token e at bad), rw bad resolved-store)
        | inl (found, accepted) ↦
            let subject = canonical_subject to_lowercase found in
            let s' : Server c = record resolved {
              sessions = remove code resolved.sessions;
              cached = judged.1.cached;
              world = judged.1.world;
            } in
            let (same_store, same_sessions) = issue-keeps c a subject found [] s' in
            elim (issue_answers c a subject found [] s') [
              | inl (iat, why, bad, same) ↦ (
                rw (accepted, same, same_sessions)
                    (unsigned device endpoint id_token found iat why at accepted bad),
                rw (accepted, same, same_store) resolved-store,
              )
              | inr (t, same, good) ↦ (
                rw (accepted, same, same_sessions)
                    (issued device endpoint id_token found t at accepted good),
                rw (accepted, same, same_store) resolved-store,
              )
            ]
      ]

  poll_login-Keeps :
      (device endpoint : String)
      → (resolve_session c code state s).0 ≡ ok (some (device, endpoint))
      → Keeps (poll_login c a code (some (device, endpoint)) resolved)
  unfolding poll_login
  poll_login-Keeps device endpoint live = elim (Result-cases (polled device endpoint).0) [
    | inr (why, failed) ↦ (
      rw failed (unreachable device endpoint why (record { live = live; answered = failed })),
      rw failed resolved-store,
    )
    | inl (answer, done) ↦
        rw done
          (finish_login-Keeps device endpoint answer (record { live = live; answered = done }))
  ]

  -- `get_auth_session` has an answer in every case, and leaves the store as it was. A code that does
  -- not resolve for the caller's client_state is `not_found`. If the provider cannot be asked, or its
  -- token is not accepted, the answer is `internal`, and while it says pending, no token: each time
  -- the session stays. If it denies the login, the answer is `permission_denied` with its reason; if
  -- its token is accepted, the answer is a token, issued to the canonical subject of its claims, with
  -- their expiry and no resources, or `internal` if the key does not sign: each time the session is
  -- removed.
  pub get_auth_session_answers :
      IsPolled (get_auth_session c a code state s).0 (get_auth_session c a code state s).1.sessions
      × ((get_auth_session c a code state s).1.store ≡ s.store)
  unfolding get_auth_session poll_login
  get_auth_session_answers = elim (Result-cases (resolve_session c code state s).0) [
    | inr (_, failed) ↦ absurd (unfold resolve_session in ground arith)
    | inl (none, live) ↦ (rw live (unknown live), rw live resolved-store)
    | inl (some (device, endpoint), live) ↦ rw live (poll_login-Keeps device endpoint live)
  ]
