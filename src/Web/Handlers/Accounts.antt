-- ===== src/Web/Handlers/Accounts.antt =====
-- A login from end to end: the callback of web/src/main.rs with the exchange of auth/src/main.rs
-- behind its client.
use kaguya.Base.{
  refl, ℕ, String, ◌≡◌, ◌⊎◌, inl, inr, none, some, [], ok, arith, Option-cases, Result-cases,
  Bool-cases, is_empty, ℤ, is_before, if◌then◌else◌,
}
use kaguya.Auth.Claims.{IdentityClaims, canonical_subject}
use kaguya.Auth.Crates as Auth
use kaguya.Auth.Server.{Server}
use kaguya.Auth.Service.{Auth as Service, UserToken, exchange_external_token_for_user_token}
use kaguya.Auth.Service.Exchange.{IsIssued, exchange_external-IsIssued}
use kaguya.Auth.Verify.Trust.{IsSigned}
use kaguya.Web.Crates.{Crates}
use kaguya.Web.Store
use kaguya.Web.Cookies.{session_cookie}
use kaguya.Web.AuthClient.{Issued, connect_auth, exchange_external}
use kaguya.Web.Handlers.{
  Response, redirect, failed, session_expiry, Callback, App, Site, open_session, callback,
}
use kaguya.Web.Handlers.LoginFlow.{callback_cases}
use kaguya.Web.Handlers.Sessions.{open_session_lem}

module _ (ac : Auth.Crates) (c : Crates) where
  open c use {World, Channel, connect, exchange_external_token, unix_seconds}

  -- The other end of the client's channel is kaguya-auth: a token that comes back is the answer
  -- that its exchange gives for the same external token, in some state of that service.
  pub record IsServed (a : Service ac) : Type 0 where
    pub answered :
        (channel : Channel) (external hint : String) (w : World) (t : UserToken)
        → (exchange_external_token channel external hint w).0 ≡ ok (some t)
        → (s : Server ac) × ((exchange_external_token_for_user_token ac a external s).0 ≡ ok t)

  abbrev pub of_token : UserToken → Issued
  of_token t = record {
    token = t.user_token;
    user_id = t.user_id;
    user_name = t.user_name;
    expires_at = t.expires_at;
  }

  pub exchange_external_cases :
      (endpoint id_token : String) (w : World) (issued : Issued)
      → (exchange_external c endpoint id_token w).0 ≡ ok issued
      → (channel : Channel) × (at : World) × (t : UserToken) × ((exchange_external_token channel
            id_token "external" at).0
          ≡ ok (some t))
        × (of_token t ≡ issued)
  unfolding exchange_external connect_auth
  exchange_external_cases endpoint id_token w issued e =
      elim (Result-cases (connect endpoint w).0) [
        | inr (_, refused) ↦ absurd (ground arith)
        | inl (channel, connected) ↦
            let at = (connect endpoint w).1 in
            elim (Result-cases (exchange_external_token channel id_token "external" at).0) [
              | inr (_, bad) ↦ absurd (ground arith)
              | inl (answer, answered) ↦ elim (Option-cases answer) [
                | inl nothing ↦ absurd (ground arith)
                | inr (t, is_some) ↦ elim (Bool-cases (is_empty t.user_token)) [
                  | inl empty ↦ absurd (ground arith)
                  | inr full ↦ (channel, at, t, ground arith, ground arith)
                ]
              ]
            ]
      ]

  -- The session that a callback has opened: it is found, under the cookie that the callback sets,
  -- with the token, the name and the subject of a user token, until the expiry that
  -- `session_expiry` makes of the token's by two readings of the clock.
  pub record IsSession (t : UserToken) (r : Response × Site c) : Type 0 where
    pub sid : String
    pub expiry : ℤ
    pub age : ℕ
    pub first : ℕ
    pub second : ℕ
    pub ends : expiry ≡ session_expiry t.expires_at first second
    pub cookie : r.0 ≡ redirect "/" (some (session_cookie sid age))
    pub found :
        (now : ℕ)
        → Store.get now sid r.1.store
          ≡ (if is_before now expiry then some (t.user_token, t.user_name, t.user_id) else none)

  open_session-IsSession :
      (t : UserToken) (s : Site c) → IsSession t (open_session c (of_token t) s)
  open_session-IsSession t s =
      let (sid, _, _, cookie, found) = open_session_lem c (of_token t) s in
      record {
        sid = sid;
        expiry = _;
        age = _;
        first = (unix_seconds s.world).0;
        second = (unix_seconds (unix_seconds s.world).1).0;
        ends = refl;
        cookie = cookie;
        found = found;
      }

  -- With kaguya-auth behind the client, a callback either fails, and leaves the sessions as they
  -- were, or opens a session for a person that the OIDC provider has identified: its token is one
  -- that the service issued, without resources, to the canonical subject of the claims of an id
  -- token, which is signed, for the configured issuer and audiences, by a key of the set that the
  -- service has cached.
  callback-IsSigned :
      (a : Service ac) (app : App c) (q : Callback) (s : Site c)
      → IsServed a
      → (((callback c app q s).0 ≡ failed)
          × ((callback c app q s).1.store.sessions ≡ s.store.sessions))
        ⊎ ((t : UserToken) × (id_token : String) × (found : IdentityClaims) × (keys : ac.JwkSet)
            × (server : Server ac) × ((exchange_external_token_for_user_token ac a id_token
                  server).1.cached
                ≡ some keys)
            × IsSigned ac keys a.oidc.issuer a.oidc.audiences id_token found
            × IsIssued ac a (canonical_subject ac.to_lowercase found) found [] t
            × IsSession t (callback c app q s))
  callback-IsSigned a app q s served = elim (callback_cases c app q s) [
    | inl refused ↦ inl refused
    | inr o ↦
        let (channel, at, t, answer, same) =
          exchange_external_cases app.auth o.id_token _ o.issued o.accepted in
        let (server, exchanged) = served.answered channel o.id_token "external" at t answer in
        let (found, keys, cached, signed, issued) =
          exchange_external-IsIssued ac a o.id_token server t exchanged in
        inr (
          t,
          o.id_token,
          found,
          keys,
          server,
          cached,
          signed,
          issued,
          rw o.opened (rw (← same) (open_session-IsSession t o.before)),
        )
  ]
