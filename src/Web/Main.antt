-- ===== src/Web/Main.antt =====
-- `main` of web/src/main.rs: its configuration from the environment, and its routes. Which route a
-- request takes is axum's, and the static files are ServeDir's.
use Prim.Native.String.{◌++◌ as join}
use kaguya.Base.{ℕ, String, Option, none, some, List, [], ◌∷◌, Result, ok, err, unwrap_or}
use kaguya.Web.Crates.{Crates}
use kaguya.Web.Store.{default}
use kaguya.Web.Handlers.{Response, Callback, App, Site}
use kaguya.Web.Handlers

unfoldable pub env_or : (String → Option String) → String → String → String
env_or env key other = unwrap_or (env key) other

unfoldable pub env_req : (String → Option String) → String → Result String String
env_req env key = elim (env key) [
  | none ↦ err (join "missing required env var " key)
  | some v ↦ ok v
]

pub data Handler : Type 0 where
  healthz : Handler
  login : Handler
  callback : Handler
  logout : Handler
  me : Handler
  repos : Handler

abbrev pub routes : List (String × Handler)
routes =
    ("/healthz", healthz)
    ∷ ("/auth/login", login)
    ∷ ("/auth/callback", callback)
    ∷ ("/auth/logout", logout)
    ∷ ("/api/me", me)
    ∷ ("/api/repos", repos)
    ∷ []

-- what the handlers read of a request: its query and its cookies
pub record Request : Type 0 where
  pub path : String
  pub query : Callback
  pub cookie : Option String

module _ (c : Crates) where
  -- what `main` serves, and where
  pub record Config : Type 0 where
    pub app : App c
    pub static_dir : String
    pub listen : String

  unfoldable pub configure : (String → Option String) → Result String Config
  configure env = elim (env_req env "KAGUYA_WEB_OIDC_ISSUER") [
    | err e ↦ err e
    | ok issuer ↦ elim (env_req env "KAGUYA_WEB_CLIENT_ID") [
      | err e ↦ err e
      | ok client_id ↦ elim (env_req env "KAGUYA_WEB_REDIRECT_URI") [
        | err e ↦ err e
        | ok redirect_uri ↦ ok (record {
          app = record {
            oidc = record { issuer = issuer; client_id = client_id; redirect_uri = redirect_uri };
            auth = env_or env "KAGUYA_WEB_AUTH_GRPC" "http://auth:8080";
            lore = env_or env "KAGUYA_WEB_LORE_GRPC" "http://lore:41337";
          };
          static_dir = env_or env "KAGUYA_WEB_STATIC_DIR" "static";
          listen = env_or env "KAGUYA_WEB_LISTEN" "0.0.0.0:8090";
        })
      ]
    ]
  ]

  -- The store before the first request.
  abbrev pub first_site : c.World → Site c
  first_site world = record { store = default; world = world }

  -- a handler's answer; `none` where the stream of repositories has not ended within the fuel
  unfoldable pub handle : ℕ → App c → Handler → Request → Site c → Option Response × Site c
  handle fuel app healthz q s = (some (Handlers.text "ok"), s)
  handle fuel app login q s = let (r, s') = Handlers.login c app s in (some r, s')
  handle fuel app callback q s = let (r, s') = Handlers.callback c app q.query s in (some r, s')
  handle fuel app logout q s = let (r, s') = Handlers.logout c q.cookie s in (some r, s')
  handle fuel app me q s = let (r, s') = Handlers.me c q.cookie s in (some r, s')
  handle fuel app repos q s = Handlers.repos c fuel app q.cookie s
