-- ===== src/Web/Tests/Calls.antt =====
-- Runs of the handlers of web/src/main.rs, of its cookies and its store, and of web/src/lore.rs.
use kaguya.Base.{
  ◌+◌, ltb, ℕ, String, Option, none, some, List, [], ◌∷◌, ◌≡◌, ◌⊎◌, refl, ok, true, false, pos,
  negsuc, is_before, if◌then◌else◌, arith, eq_iff,
}
use Prim.Native.String.{◌++◌ as join}
use kaguya.Web.Oidc.{authorize_url}
use kaguya.Web.Handlers.Completion.{login_completes}
use kaguya.Web.Handlers.{login}
use kaguya.Web.Cookies.{session_cookie, session_id, split}
use kaguya.Web.Cookies.RoundTrip.{session_id-session_cookie}
use kaguya.Web.Hex.{Outcome, hex, from_hex}
use kaguya.Web.Hex.RoundTrip.{from_hex-hex}
use kaguya.Web.Crates.{Repository}
use kaguya.Web.Handlers.Listed.{Serves, shown, repos_answers}
use kaguya.Web.AuthClient.{Issued}
use kaguya.Web.Handlers.{Callback, Site, redirect, failed, failure, me_json, callback, me, repos}
use kaguya.Web.Handlers.LoginFlow.{IsOpened, callback_cases}
use kaguya.Web.Tests.Toy.{toy, app, site, repository, drawn_id}

abbrev returned : Callback
returned = record { code = some "code"; state = some drawn_id; error = none }

abbrev issued : Issued
issued = record { token = "own"; user_id = "ada"; user_name = "Ada"; expires_at = pos 90 }

-- ten seconds after the login, with its store
abbrev there : Site toy
there = record { store = (login toy app site).1.store; world = 30 }

login_completes_example :
    (cookie : String) × (pair : String) × (attributes : List String) × ((callback toy app returned
        there).0
      ≡ redirect "/" (some cookie))
    × (split cookie ≡ pair ∷ attributes)
    × ((w : ℕ)
        → (me toy
            (some pair)
            (record { store = (callback toy app returned there).1.store; world = w })).0
          ≡ (if is_before w (pos 90) then me_json "Ada" "ada" else failure 401 "not logged in"))
unfolding kaguya.Web.Oidc.random_state kaguya.Base.hex_text kaguya.Web.Oidc.exchange_code
    kaguya.Web.Oidc.discovery kaguya.Web.AuthClient.exchange_external
    kaguya.Web.Handlers.session_expiry
login_completes_example =
    login_completes toy app site there "code" "id" issued refl (omega arith) refl refl

callback_cases_example :
    (((callback toy app returned site).0 ≡ failed)
      × ((callback toy app returned site).1.store.sessions ≡ site.store.sessions))
    ⊎ IsOpened toy app returned site (callback toy app returned site)
callback_cases_example = callback_cases toy app returned site

session_id-session_cookie_example :
    (pair : String) × (later : List String) × (split (session_cookie "5e55" 70) ≡ pair ∷ later)
    × (session_id (some pair) ≡ some "5e55")
    × (session_id (some (join "t=1" (join ";" (join " " pair)))) ≡ some "5e55")
unfolding kaguya.Base.strip_prefix native.Mathlib.Decide.ℕ_discrete
session_id-session_cookie_example =
    session_id-session_cookie "5e55" "t=1" 70
      (refl, refl, (refl, refl, (refl, refl, (refl, refl, tt))))
      (refl, refl, (refl, refl, (refl, refl, tt))) refl

from_hex-hex_example : from_hex (hex (0 ∷ 171 ∷ 255 ∷ [])) ≡ Outcome.ok (0 ∷ 171 ∷ 255 ∷ [])
from_hex-hex_example =
    from_hex-hex (0 ∷ 171 ∷ 255 ∷ []) (omega arith, (omega arith, (omega arith, tt)))

abbrev messages : List (Option Repository)
messages = some repository ∷ none ∷ []

serves : Serves toy app "own" 20 messages none
serves = record {
  channel = tt;
  value = "Bearer own";
  stream = messages;
  reached = refl;
  bearer = refl;
  listed = refl;
  gives = (none ∷ [], refl, ([], refl, refl));
}

-- ada is logged in
abbrev logged_in : Site toy
logged_in = record site {
  store = record site.store {
    sessions =
        λ id. some (record { token = "own"; user_name = "Ada"; sub = "ada"; expires_at = pos 90 });
  };
}

repos_answers_example :
    (repos toy 3 app (some "kw_session=5e55") logged_in).0 ≡ some (shown toy messages none)
unfolding kaguya.Web.Handlers.session kaguya.Web.Cookies.session_id kaguya.Base.strip_prefix
    native.Mathlib.Decide.ℕ_discrete kaguya.Web.Store.get
repos_answers_example =
    repos_answers toy 3 app (some "kw_session=5e55") logged_in "own" "Ada" "ada" messages none refl
      serves (omega arith)
