-- ===== src/Auth/Service/DeviceLogin.antt =====
-- A device login of auth/src/main.rs from its beginning to its token: `start_auth_session`, and
-- `get_auth_session` called again and again.
use kaguya.Base.{ℕ, suc, ◌+◌, ◌<◌, String, none, some, [], ok, ◌≡◌, refl, arith, eq_refl, hex_text}
use kaguya.Auth.Claims.{IdentityClaims, canonical_subject}
use kaguya.Auth.Crates.{Crates}
use kaguya.Auth.Sessions
use kaguya.Auth.Sessions.{Session, Sessions, from_secs, resolve}
use kaguya.Auth.Device.{DeviceStart, pending, start}
use kaguya.Auth.Server.{Server}
use kaguya.Auth.Service.{
  Auth, UserToken, clamp, start_auth_session, begin_session, get_auth_session,
}
use kaguya.Auth.Service.Exchange.{IsIssued}
use kaguya.Auth.Service.Completion.{
  after, after-suc, Asks, Grants, Signs, get_auth_session_completes,
}
use kaguya.Auth.Service.Login.{get_auth_session-IsIssued}

module _ (c : Crates) (a : Auth c) where
  open c use {World, instant, random_u128, to_lowercase}

  -- the code of a login that begins in this state
  abbrev pub code_at : Server c → String
  code_at s = hex_text 32 (random_u128 (start c a.oidc_device s.world).1).0

  -- the session that is stored for it
  abbrev pub session_at : String → DeviceStart → Server c → Session
  session_at client_state begun s =
      let drawn = (random_u128 (start c a.oidc_device s.world).1).1 in
      record {
        device_code = begun.device_code;
        token_endpoint = begun.token_endpoint;
        client_state = client_state;
        expires_at = (instant (instant drawn).1).0 + from_secs (clamp 60 600 begun.expires_in);
      }

  abbrev pub begun_state : String → Server c → Server c
  begun_state client_state s = (start_auth_session c a client_state s).1

  start_auth_session_stored :
      (client_state : String) (s : Server c) (begun : DeviceStart)
      → (start c a.oidc_device s.world).0 ≡ ok begun
      → ((start_auth_session c a client_state s).0
          ≡ ok (record { session_code = code_at s; login_url = begun.login_url }))
        × ((begun_state client_state s).sessions (code_at s)
            ≡ some (session_at client_state begun s))
  unfolding start_auth_session begin_session Sessions.insert
  start_auth_session_stored client_state s begun provided =
      (ground arith, ground (arith, eq_refl (code_at s)))

  -- A device login completes, from its start on. Suppose that the provider begins a device flow when
  -- `start_auth_session` asks for one, that the caller polls with the code it was given and its
  -- client_state while the session's lifetime lasts (one to ten minutes, as the provider says within
  -- these bounds), that the provider answers pending to the first `n` polls and to the next a token
  -- that verifies, and that the key signs. Then the start answers a code, with the provider's
  -- address; the first `n` polls answer no token yet; the next answers one, issued to the canonical
  -- subject of the verified claims; and after it the code resolves for nobody, at whatever time.
  pub device_login_completes :
      (client_state id_token : String) (n : ℕ) (s : Server c) (begun : DeviceStart)
      (found : IdentityClaims)
      → (start c a.oidc_device s.world).0 ≡ ok begun
      → ((k : ℕ)
          → k < n
          → Asks c a
              (code_at s)
              client_state
              (session_at client_state begun s)
              (after c a (code_at s) client_state k (begun_state client_state s))
              pending)
      → Grants c a
          (code_at s)
          client_state
          (session_at client_state begun s)
          (after c a (code_at s) client_state n (begun_state client_state s))
          id_token
          found
      → Signs c a (code_at s) client_state found
      → ((start_auth_session c a client_state s).0
          ≡ ok (record { session_code = code_at s; login_url = begun.login_url }))
        × ((k : ℕ)
            → k < n
            → (get_auth_session c a
                (code_at s)
                client_state
                (after c a (code_at s) client_state k (begun_state client_state s))).0
              ≡ ok none)
        × (t : UserToken) × ((get_auth_session c a
              (code_at s)
              client_state
              (after c a (code_at s) client_state n (begun_state client_state s))).0
            ≡ ok (some t))
        × IsIssued c a (canonical_subject to_lowercase found) found [] t
        × ((swept now : ℕ) (whoever : String)
            → (resolve swept now
                (code_at s)
                whoever
                (after c a
                  (code_at s)
                  client_state
                  (suc n)
                  (begun_state client_state s)).sessions).0
              ≡ none)
  device_login_completes client_state id_token n s begun found provided asks grants signs =
      let (answer, stored) = start_auth_session_stored client_state s begun provided in
      let (waiting, t, done, issued) =
        get_auth_session_completes c a (code_at s) client_state n (session_at client_state begun s)
          (begun_state client_state s) id_token found stored refl asks grants signs in
      let last = after c a (code_at s) client_state n (begun_state client_state s) in
      let over = (get_auth_session-IsIssued c a (code_at s) client_state last t done).10 in
      (
        answer,
        waiting,
        t,
        done,
        issued,
        λ swept now whoever.
            rw (after-suc c a (code_at s) client_state n (begun_state client_state s))
              (over swept now whoever),
      )
