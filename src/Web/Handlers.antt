-- ===== src/Web/Handlers.antt =====
-- The handlers of web/src/main.rs.
pub mod LoginFlow
pub mod Sessions
pub mod Accounts
pub mod Begin
pub mod Completion
pub mod Listed
use Prim.Native.String.{◌++◌ as join}
use kaguya.Base.{
  ℕ, ◌+◌, ◌-◌, String, Bool, Option, none, some, List, Result, ok, err, Prog, ℤ, pos, negsuc,
  is_before, if◌then◌else◌,
}
use kaguya.Web.Crates.{Crates}
use kaguya.Web.Store
use kaguya.Web.Store.{Store, Session}
use kaguya.Web.Cookies.{session_id, session_cookie, clear_cookie}
use kaguya.Web.Oidc.{
  Oidc, authorize_url, exchange_code, code_challenge, code_verifier, random_state,
}
use kaguya.Web.AuthClient.{Issued, exchange_external}
use kaguya.Web.Lore.{RepoSummary, list_repos}

-- a redirect with a cookie to set or none; a plain text under a status, or as it is; the two JSON answers
pub data Response : Type 0 where
  redirect : String → Option String → Response
  failure : ℕ → String → Response
  text : String → Response
  me_json : String → String → Response
  repos_json : List RepoSummary → Response

pub record Callback : Type 0 where
  pub code : Option String
  pub state : Option String
  pub error : Option String

-- `(exp - now()).max(0)`
abbrev pub max_age : ℤ → ℕ → ℕ
max_age (pos n) now = n - now
max_age (negsuc n) now = 0

-- The expiry of a new session, by its two readings of the clock; the code makes the second only
-- where the token's expiry is not ahead.
unfoldable pub session_expiry : ℤ → ℕ → ℕ → ℤ
session_expiry expires_at now later =
    if is_before now expires_at then expires_at else pos (later + 3600)

abbrev pub failed : Response
failed = redirect "/?login=failed" none

module _ (c : Crates) where
  open c use {World, unix_seconds, entry_seconds}

  -- the fields of `App` that do not change
  pub record App : Type 0 where
    pub oidc : Oidc
    pub auth : String
    pub lore : String

  pub record Site : Type 0 where
    pub store : Store
    pub world : World

  unfoldable pub session : Site → Option String → Option (String × String × String) × Site
  session s header = elim (session_id header) [
    | none ↦ (none, s)
    | some id ↦
        let (now, w) = unix_seconds s.world in (Store.get now id s.store, record s { world = w })
  ]

  unfoldable pub login : App → Site → Response × Site
  login app s =
      let (state, w₁) = random_state c s.world in
      let (verifier, w₂) = code_verifier c w₁ in
      let (visited, w₃) = entry_seconds w₂ in
      let (now, w₄) = unix_seconds w₃ in
      let store = Store.start_login visited now state verifier s.store in
      let (url, w₅) = authorize_url c app.oidc state (code_challenge c verifier) w₄ in
      (
        elim url [ ok location ↦ redirect location none | err _ ↦ failure 502 "login unavailable" ],
        record { store = store; world = w₅ },
      )

  -- from the issued token on
  unfoldable pub open_session : Issued → Site → Response × Site
  open_session issued s =
      let (n₁, w₁) = unix_seconds s.world in
      let (n₂, w₂) = unix_seconds w₁ in
      let exp = session_expiry issued.expires_at n₁ n₂ in
      let (sid, w₃) = random_state c w₂ in
      let (visited, w₄) = entry_seconds w₃ in
      let (n₃, w₅) = unix_seconds w₄ in
      (
        redirect "/" (some (session_cookie sid (max_age exp n₃))),
        record {
          store =
              Store.create visited sid
                (record {
                  token = issued.token;
                  user_name = issued.user_name;
                  sub = issued.user_id;
                  expires_at = exp;
                })
                s.store;
          world = w₅;
        },
      )

  abbrev pub with_identity : App → Result String String → Site → Response × Site
  with_identity app (err _) s = (failed, s)
  with_identity app (ok id_token) s =
      let (issued, w) = exchange_external c app.auth id_token s.world in
      elim issued [
        | err _ ↦ (failed, record s { world = w })
        | ok i ↦ open_session i (record s { world = w })
      ]

  abbrev pub with_verifier : App → String → Option String → Site → Response × Site
  with_verifier app code none s = (failed, s)
  with_verifier app code (some verifier) s =
      let (id_token, w) = exchange_code c app.oidc code verifier s.world in
      with_identity app id_token (record s { world = w })

  abbrev pub with_code : App → Option String → Option String → Site → Response × Site
  with_code app (some code) (some state) s =
      let (now, w) = unix_seconds s.world in
      let (verifier, store) = Store.take_pending now state s.store in
      with_verifier app code verifier (record { store = store; world = w })
  with_code app _ _ s = (failed, s)

  abbrev pub with_error : App → Callback → Option String → Site → Response × Site
  with_error app q (some _) s = (failed, s)
  with_error app q none s = with_code app q.code q.state s

  unfoldable pub callback : App → Callback → Site → Response × Site
  callback app q s = with_error app q q.error s

  unfoldable pub logout : Option String → Site → Response × Site
  logout header s = (
    redirect "/" (some clear_cookie),
    elim (session_id header) [ none ↦ s | some id ↦ record s { store = Store.remove id s.store } ],
  )

  unfoldable pub me : Option String → Site → Response × Site
  unfolding session
  me header s =
      let (found, s') = session s header in
      (
        elim found [
          | none ↦ failure 401 "not logged in"
          | some (token, user_name, sub) ↦ me_json user_name sub
        ],
        s',
      )

  -- `none` where the stream of repositories has not ended within the fuel
  abbrev pub answer_repos : Result String (Option (List RepoSummary)) → Option Response
  answer_repos (err _) = some (failure 502 "could not list repositories")
  answer_repos (ok none) = none
  answer_repos (ok (some list)) = some (repos_json list)

  unfoldable pub repos : ℕ → App → Option String → Site → Option Response × Site
  unfolding session
  repos fuel app header s =
      let (found, s') = session s header in
      elim found [
        | none ↦ (some (failure 401 "not logged in"), s')
        | some (token, user_name, sub) ↦
            let (list, w) = list_repos c fuel app.lore token s'.world in
            (answer_repos list, record s' { world = w })
      ]
