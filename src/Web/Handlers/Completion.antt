-- ===== src/Web/Handlers/Completion.antt =====
-- A login of web/src/main.rs from its beginning to a session: `login`, `callback` and `me`, with
-- the cookie that a browser sends back.
use kaguya.Base.{
  ℕ, ◌+◌, ◌<◌, String, Bool, Option, Result, ◌≡◌, refl, none, some, List, ◌∷◌, ℤ, ok, is_before,
  arith, ap, eq_refl, ◌∙◌, if◌then◌else◌, strip_prefix,
}
use kaguya.Web.Crates.{Crates}
use kaguya.Web.Store
use kaguya.Web.Store.{pending_ttl}
use kaguya.Web.Cookies.{session_id, session_cookie, split}
use kaguya.Web.Cookies.RoundTrip.{AllDigits-IsPlain, session_id-session_cookie}
use kaguya.Web.Oidc.{exchange_code, code_verifier, random_state}
use kaguya.Web.AuthClient.{Issued, exchange_external}
use kaguya.Web.Handlers.{
  App, Site, Callback, redirect, failure, me_json, session_expiry, open_session, login, callback,
  me,
}
use kaguya.Web.Handlers.Sessions.{open_session_lem}

module _ (c : Crates) where
  open c use {World, unix_seconds, entry_seconds}

  -- the state, the verifier and the time of a login that begins at this site
  abbrev state_of : Site c → String
  state_of s = (random_state c s.world).0

  abbrev verifier_of : Site c → String
  verifier_of s = (code_verifier c (random_state c s.world).1).0

  abbrev begun_at : Site c → ℕ
  begun_at s = (unix_seconds (entry_seconds (code_verifier c (random_state c s.world).1).1).1).0

  -- the provider's answer to the code of a login, and what kaguya-auth answers to it
  abbrev exchanged_at : App c → String → String → Site c → Result String String × World
  exchanged_at app code verifier there =
      exchange_code c app.oidc code verifier (unix_seconds there.world).1

  abbrev issued_at : App c → String → String → String → Site c → Result String Issued × World
  issued_at app code verifier id_token there =
      exchange_external c app.auth id_token (exchanged_at app code verifier there).1

  -- when a session opened then ends
  abbrev expiry_at : Issued → World → ℤ
  expiry_at issued w =
      let one = unix_seconds w in session_expiry issued.expires_at one.0 (unix_seconds one.1).0

  login-in_flight :
      (app : App c) (s there : Site c)
      → there.store.pending (state_of s) ≡ (login c app s).1.store.pending (state_of s)
      → (unix_seconds there.world).0 < begun_at s + pending_ttl
      → (Store.take_pending (unix_seconds there.world).0 (state_of s) there.store).0
        ≡ some (verifier_of s)
  unfolding login Store.take_pending Store.start_login
  login-in_flight app s there kept early = ground (arith, eq_refl (state_of s))

  callback-opens :
      (app : App c) (code state verifier id_token : String) (issued : Issued) (there : Site c)
      → (Store.take_pending (unix_seconds there.world).0 state there.store).0 ≡ some verifier
      → (exchanged_at app code verifier there).0 ≡ ok id_token
      → (issued_at app code verifier id_token there).0 ≡ ok issued
      → callback c app (record { code = some code; state = some state; error = none }) there
        ≡ open_session c issued (record {
          store = (Store.take_pending (unix_seconds there.world).0 state there.store).1;
          world = (issued_at app code verifier id_token there).1;
        })
  unfolding callback
  callback-opens app code state verifier id_token issued there in_flight exchanged accepted =
      ground arith

  me-found :
      (header : Option String) (id : String) (issued : Issued) (valid : Bool) (s : Site c)
      → session_id header ≡ some id
      → Store.get (unix_seconds s.world).0 id s.store
        ≡ (if valid then some (issued.token, issued.user_name, issued.user_id) else none)
      → (me c header s).0
        ≡ (if valid then me_json issued.user_name issued.user_id else failure 401 "not logged in")
  unfolding me
  me-found header id issued valid s named found = ground arith

  -- A login completes. Suppose that `login` has begun one, that a callback comes with its state
  -- within ten minutes, while it is still in flight, whatever else has happened to the store, and
  -- that the provider gives an id token for the code and this login's verifier, and kaguya-auth a
  -- user token for that. Then the callback redirects home with a cookie; and the part of it that
  -- browsers send back makes `me` answer with the name and the subject of the user token, until the
  -- session's expiry, and with 401 after it.
  pub login_completes :
      (app : App c) (s there : Site c) (code id_token : String) (issued : Issued)
      → there.store.pending (state_of s) ≡ (login c app s).1.store.pending (state_of s)
      → (unix_seconds there.world).0 < begun_at s + pending_ttl
      → (exchanged_at app code (verifier_of s) there).0 ≡ ok id_token
      → (issued_at app code (verifier_of s) id_token there).0 ≡ ok issued
      → let q : Callback = record { code = some code; state = some (state_of s); error = none } in
        let answer = callback c app q there in
        (cookie : String) × (pair : String) × (attributes : List String) × (answer.0
          ≡ redirect "/" (some cookie))
        × (split cookie ≡ pair ∷ attributes)
        × ((w : World)
            → (me c (some pair) (record { store = answer.1.store; world = w })).0 ≡ (
                if is_before
                  (unix_seconds w).0
                  (expiry_at issued (issued_at app code (verifier_of s) id_token there).1)
                then me_json issued.user_name issued.user_id
                else failure 401 "not logged in"))
  unfolding strip_prefix
  login_completes app s there code id_token issued kept early exchanged accepted =
      let in_flight = login-in_flight app s there kept early in
      let opens =
        callback-opens app code (state_of s) (verifier_of s) id_token issued there in_flight
          exchanged accepted in
      let (sid, n, digits, redirects, answers) = open_session_lem c issued _ in
      let (pair, attributes, parts, named, _) =
        session_id-session_cookie sid "" _ (AllDigits-IsPlain sid digits) tt refl in
      (
        session_cookie sid _,
        pair,
        attributes,
        ap (λ r. r.0) opens ∙ redirects,
        parts,
        λ w. me-found (some pair) sid issued _ _ named (rw opens (answers (unix_seconds w).0)),
      )
