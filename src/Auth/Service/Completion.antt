-- ===== src/Auth/Service/Completion.antt =====
-- A device login comes to its end: `get_auth_session` of auth/src/main.rs, called again and again.
use kaguya.Base.{
  ℕ, zero, suc, ◌<◌, String, none, some, [], ok, ◌≡◌, refl, inl, inr, arith, Result-cases, eq_refl,
}
use kaguya.Auth.Claims.{IdentityClaims, canonical_subject}
use kaguya.Auth.Crates.{Crates}
use kaguya.Auth.Sessions
use kaguya.Auth.Sessions.{Session, Sessions, resolve}
use kaguya.Auth.Device.{Poll, pending, token, poll}
use kaguya.Auth.Keys.{mint, header_of}
use kaguya.Auth.Verify.{verify}
use kaguya.Auth.Server.{Server}
use kaguya.Auth.Service.{
  Auth, UserToken, resolve_session, poll_login, finish_login, issue, get_auth_session,
}
use kaguya.Auth.Service.Exchange.{verifying, IsIssued, minted_claims, issue-IsIssued}

module _ (c : Crates) (a : Auth c) (code state : String) where
  open c use {World, instant, encode, to_lowercase}

  -- the state after so many calls
  abbrev pub after : ℕ → Server c → Server c
  after zero s = s
  after (suc k) s = after k (get_auth_session c a code state s).1

  pub after-suc :
      (k : ℕ) (s : Server c) → after (suc k) s ≡ (get_auth_session c a code state (after k s)).1
  after-suc zero s = refl
  after-suc (suc k) s = after-suc k (get_auth_session c a code state s).1

  -- the two readings of the clock that a call begins with, and the world in which it then polls
  abbrev pub first_reading : Server c → ℕ
  first_reading s = (instant s.world).0

  abbrev pub second_reading : Server c → ℕ
  second_reading s = (instant (instant s.world).1).0

  abbrev pub polling_world : Server c → World
  polling_world s = (instant (instant s.world).1).1

  -- A call in the session's lifetime, and what the provider then answers to its device code.
  pub record Asks (session : Session) (s : Server c) (answer : Poll) : Type 0 where
    pub swept_in_time : first_reading s < session.expires_at
    pub in_time : second_reading s < session.expires_at
    pub answered :
        (poll c a.oidc_device session.token_endpoint session.device_code (polling_world s)).0
        ≡ ok answer

  resolved :
      (session : Session) (s : Server c)
      → s.sessions code ≡ some session
      → session.client_state ≡ state
      → first_reading s < session.expires_at
      → second_reading s < session.expires_at
      → ((resolve_session c code state s).0
          ≡ ok (some (session.device_code, session.token_endpoint)))
        × ((resolve_session c code state s).1.sessions code ≡ some session)
  unfolding resolve_session resolve Sessions.sweep
  resolved session s stored same one two = (ground (arith, eq_refl state), ground arith)

  get_auth_session-pending :
      (session : Session) (s : Server c)
      → s.sessions code ≡ some session
      → session.client_state ≡ state
      → Asks session s pending
      → ((get_auth_session c a code state s).0 ≡ ok none)
        × ((get_auth_session c a code state s).1.sessions code ≡ some session)
  unfolding get_auth_session poll_login finish_login resolve_session resolve Sessions.sweep
  get_auth_session-pending session s stored same asks = (
    ground (arith, eq_refl state, asks.swept_in_time, asks.in_time, asks.answered),
    ground (arith, eq_refl state, asks.swept_in_time, asks.in_time, asks.answered),
  )

  -- the provider answers a token that the OIDC verifier accepts, with these claims
  pub record Grants (session : Session) (s : Server c) (id_token : String) (found : IdentityClaims)
      : Type 0 where
    pub asks : Asks session s (token id_token)
    pub accepted :
        (verify c a.oidc id_token (record {
          cached = s.cached;
          world =
              (poll c a.oidc_device session.token_endpoint session.device_code (polling_world s)).1;
        })).0
        ≡ ok found

  -- the key signs a token for these claims, whenever it is issued
  abbrev pub Signs : IdentityClaims → Type 0
  Signs found =
      (iat : ℕ)
      → (text : String) × (encode (header_of c a.signer)
            (minted_claims c a (canonical_subject to_lowercase found) found [] iat)
            a.signer.encoding_key
          ≡ ok text)

  issue_total :
      (found : IdentityClaims) (s : Server c)
      → Signs found
      → (t : UserToken) × ((issue c a (canonical_subject to_lowercase found) found [] s).0 ≡ ok t)
  unfolding issue mint
  issue_total found s signs =
      let subject = canonical_subject to_lowercase found in
      let (text, signed) = signs (c.unix_seconds s.world).0 in
      elim (Result-cases (issue c a subject found [] s).0) [
        | inl (t, done) ↦ (t, done)
        | inr (e, failed) ↦ absurd (ground arith)
      ]

  finish_login_token :
      (id_token : String) (found : IdentityClaims) (s : Server c)
      → (verify c a.oidc id_token (verifying c s)).0 ≡ ok found
      → Signs found
      → (t : UserToken) × ((finish_login c a code (token id_token) s).0 ≡ ok (some t))
        × IsIssued c a (canonical_subject to_lowercase found) found [] t
  unfolding finish_login kaguya.Auth.Service.remove_session
  finish_login_token id_token found s accepted signs =
      let checked = (verify c a.oidc id_token (verifying c s)).1 in
      let s' : Server c = record s {
        sessions = Sessions.remove code s.sessions;
        cached = checked.cached;
        world = checked.world;
      } in
      let subject = canonical_subject to_lowercase found in
      let (t, done) = issue_total found s' signs in
      (t, ground arith, issue-IsIssued c a subject found [] s' t done)

  get_auth_session_token :
      (session : Session) (s : Server c) (id_token : String) (found : IdentityClaims)
      → s.sessions code ≡ some session
      → session.client_state ≡ state
      → Grants session s id_token found
      → Signs found
      → (t : UserToken) × ((get_auth_session c a code state s).0 ≡ ok (some t))
        × IsIssued c a (canonical_subject to_lowercase found) found [] t
  unfolding get_auth_session poll_login resolve_session resolve Sessions.sweep
  get_auth_session_token session s id_token found stored same grants signs =
      let polled =
        poll c a.oidc_device session.token_endpoint session.device_code (polling_world s) in
      let s' : Server c = record (resolve_session c code state s).1 { world = polled.1 } in
      let (t, done, issued) = finish_login_token id_token found s' grants.accepted signs in
      (
        t,
        ground (
          arith,
          eq_refl state,
          grants.asks.swept_in_time,
          grants.asks.in_time,
          grants.asks.answered,
        ),
        issued,
      )

  after_stored :
      (n : ℕ) (session : Session) (s : Server c)
      → s.sessions code ≡ some session
      → session.client_state ≡ state
      → ((k : ℕ) → k < n → Asks session (after k s) pending)
      → ((after n s).sessions code ≡ some session)
        × ((k : ℕ) → k < n → (get_auth_session c a code state (after k s)).0 ≡ ok none)
  after_stored zero session s stored same asks = (stored, λ k lt. absurd (omega arith))
  after_stored (suc n) session s stored same asks =
      let (answer, kept) = get_auth_session-pending session s stored same (asks 0 (omega arith)) in
      let (last, answers) =
        after_stored n session _ kept same (λ k lt. asks (suc k) (omega arith)) in
      (last, first answer answers)
    where
      first :
          (get_auth_session c a code state s).0 ≡ ok none
          → ((k : ℕ)
              → k < n
              → (get_auth_session c a code state (after k (get_auth_session c a code state s).1)).0
                ≡ ok none)
          → (k : ℕ) → k < suc n
          → (get_auth_session c a code state (after k s)).0 ≡ ok none
      first answer answers zero lt = answer
      first answer answers (suc k) lt = answers k (omega arith)

  -- A device login that the provider grants is completed. Under a session that is stored for this
  -- code and client_state, and while the calls stay within its lifetime: if the provider answers
  -- pending to the first `n` calls and to the next a token that verifies, then the first `n` answer
  -- no token yet and keep the session, and the next answers a token, issued to the canonical
  -- subject of the verified claims. The hypotheses are about the provider, the clock and the key
  -- only: that the session lives through the calls before is shown.
  pub get_auth_session_completes :
      (n : ℕ) (session : Session) (s : Server c) (id_token : String) (found : IdentityClaims)
      → s.sessions code ≡ some session
      → session.client_state ≡ state
      → ((k : ℕ) → k < n → Asks session (after k s) pending)
      → Grants session (after n s) id_token found
      → Signs found
      → ((k : ℕ) → k < n → (get_auth_session c a code state (after k s)).0 ≡ ok none)
        × (t : UserToken) × ((get_auth_session c a code state (after n s)).0 ≡ ok (some t))
        × IsIssued c a (canonical_subject to_lowercase found) found [] t
  get_auth_session_completes n session s id_token found stored same asks grants signs =
      let (kept, answers) = after_stored n session s stored same asks in
      let (t, done, issued) =
        get_auth_session_token session (after n s) id_token found kept same grants signs in
      (answers, t, done, issued)
