-- ===== src/Web/Requests.antt =====
-- kaguya-web with requests in flight: the handlers of web/src/main.rs as threads over one `Store`. A
-- method of the store holds its mutex, so it is one step; between the steps, where a handler awaits the
-- provider, kaguya-auth or loreserver, others run. What the outside answers, the clocks and the random
-- texts are any that the crates can give.
pub mod Genuine
pub mod Ended
use kaguya.Base.{System, ℕ, ◌<◌, String, Option, none, some, List, ok, err, ◌≡◌, ◌≢◌, ℤ, update}
use kaguya.Web.Crates.{Crates}
use kaguya.Web.Store
use kaguya.Web.Store.{Store, Session}
use kaguya.Web.Cookies.{session_id, session_cookie, clear_cookie}
use kaguya.Web.Oidc.{Oidc, authorize_url, exchange_code, code_challenge}
use kaguya.Web.AuthClient.{Issued, exchange_external}
use kaguya.Web.Lore.{list_repos}
use kaguya.Web.Handlers.{
  App, Response, redirect, failure, text, me_json, repos_json, failed, max_age, session_expiry,
}

-- where a request stands, with what it holds
pub data Pc : Type 0 where
  idle : Pc
  -- `login`, before `authorize_url`
  redirecting : (state verifier : String) → Pc
  -- `callback`, before `exchange_code`
  exchanging : (code state verifier : String) → Pc
  -- `callback`, before `exchange_external`
  presenting : (id_token : String) → Pc
  -- `callback`, before `create`
  opening : Issued → Pc
  -- `repos`, before `list_repos`
  listing : (token : String) → Pc
  answered : Response → Pc

-- what `callback` stores for an issued token
abbrev pub session_of : Issued → ℤ → Session
session_of i expires_at = record {
  token = i.token;
  user_name = i.user_name;
  sub = i.user_id;
  expires_at = expires_at;
}

-- Nothing is stored, and no request is in flight: those beyond the ones in flight are `idle`.
abbrev pub init : System Store Pc
init = record { shared = Store.default; pc = λ _. idle }

module _ (c : Crates) where
  open c use {World}

  -- A step of one request. A request that is over makes room for another.
  pub data Move (app : App c) (s : Store) : Pc → Store → Pc → Type 0 where
    start :
        (visited : String → ℕ) (now : ℕ) (state verifier : String)
        → Move app s idle
            (Store.start_login visited now state verifier s)
            (redirecting state verifier)
    redirected :
        {state verifier location : String} (w : World)
        → (authorize_url c app.oidc state (code_challenge c verifier) w).0 ≡ ok location
        → Move app s (redirecting state verifier) s (answered (redirect location none))
    unavailable :
        {state verifier : String}
        → Move app s (redirecting state verifier) s (answered (failure 502 "login unavailable"))
    check_health : Move app s idle s (answered (text "ok"))
    refuse : Move app s idle s (answered failed)
    take :
        (now : ℕ) (code state : String) {verifier : String}
        → (Store.take_pending now state s).0 ≡ some verifier
        → Move app s idle (Store.take_pending now state s).1 (exchanging code state verifier)
    take_nothing :
        (now : ℕ) (state : String)
        → (Store.take_pending now state s).0 ≡ none
        → Move app s idle (Store.take_pending now state s).1 (answered failed)
    exchanged :
        {code state verifier id_token : String} (w : World)
        → (exchange_code c app.oidc code verifier w).0 ≡ ok id_token
        → Move app s (exchanging code state verifier) s (presenting id_token)
    exchange_failed :
        {code state verifier : String}
        → Move app s (exchanging code state verifier) s (answered failed)
    accepted :
        {id_token : String} {issued : Issued} (w : World)
        → (exchange_external c app.auth id_token w).0 ≡ ok issued
        → Move app s (presenting id_token) s (opening issued)
    not_accepted : {id_token : String} → Move app s (presenting id_token) s (answered failed)
    open_session :
        {issued : Issued} (visited : String → ℕ) (sid : String) (one two three : ℕ)
        → Move app s
            (opening issued)
            (Store.create visited sid
              (session_of issued (session_expiry issued.expires_at one two))
              s)
            (answered (
              redirect "/" (
                some
                  (session_cookie sid (max_age (session_expiry issued.expires_at one two) three)))))
    logout :
        (id : String)
        → Move app s idle (Store.remove id s) (answered (redirect "/" (some clear_cookie)))
    logout_nobody : Move app s idle s (answered (redirect "/" (some clear_cookie)))
    show_me :
        (now : ℕ) (id : String) {token user_name sub : String}
        → Store.get now id s ≡ some (token, user_name, sub)
        → Move app s idle s (answered (me_json user_name sub))
    ask_repos :
        (now : ℕ) (id : String) {token user_name sub : String}
        → Store.get now id s ≡ some (token, user_name, sub)
        → Move app s idle s (listing token)
    not_logged_in : Move app s idle s (answered (failure 401 "not logged in"))
    listed :
        {token : String} (fuel : ℕ) (w : World) {list : _}
        → (list_repos c fuel app.lore token w).0 ≡ ok (some list)
        → Move app s (listing token) s (answered (repos_json list))
    not_listed :
        {token : String}
        → Move app s (listing token) s (answered (failure 502 "could not list repositories"))
    -- the request is over: it has been answered, or its client has gone
    leave : {p : Pc} → Move app s p s idle
