-- ===== src/Web/Tests/Served.antt =====
-- A login from end to end, with the concrete crates of both services.
use kaguya.Base.{
  List, ℕ, String, ◌≡◌, ◌⊎◌, refl, ok, some, none, [], Option, inl, inr, Bool-cases, ◌==◌, arith,
  eq_iff, if◌then◌else◌, Result,
}
use kaguya.Auth.Claims.{IdentityClaims, canonical_subject}
use kaguya.Auth.Service.{
  UserToken, exchange_external_token_for_user_token, exchange_user_token_for_multiresource_token,
}
use kaguya.Auth.Server.{Server}
use kaguya.Auth.Tests.Tables.{tables}
use kaguya.Auth.Tests.Toy as Provider
use kaguya.Web.Handlers.{Callback}
use kaguya.Web.Handlers.Accounts.{IsServed}
use kaguya.Web.AuthClient.{exchange_resource}
use kaguya.Web.AuthClient.Scoped
use kaguya.Web.Tests.Toy.{toy, issued, drawn_id}

exchange_runs :
    (exchange_external_token_for_user_token Provider.toy Provider.auth "id"
      (Provider.started tables)).0
    ≡ ok issued
unfolding exchange_external_token_for_user_token kaguya.Auth.Verify.verify
    kaguya.Auth.Verify.header_kid kaguya.Auth.Verify.refetch kaguya.Auth.Verify.fetch_jwks
    kaguya.Auth.Jwks.fetch_jwks kaguya.Auth.Verify.verify_with_jwks Provider.decode_toy
    kaguya.Base.contains kaguya.Auth.Service.issue kaguya.Auth.Keys.mint Provider.encode_toy
    canonical_subject kaguya.Auth.Claims.display_names
exchange_runs = refl

answered :
    (external : String) (t : UserToken)
    → ◌≡◌ {A = Result String (Option UserToken)}
        (ok (if external == "id" then some issued else none))
        (ok (some t))
    → (s : Server Provider.toy) × ((exchange_external_token_for_user_token Provider.toy
          Provider.auth external s).0
        ≡ ok t)
answered external t e = elim (Bool-cases (external == "id")) [
  | inr other ↦ absurd (ground arith)
  | inl same ↦
      let is_id : "id" ≡ external = ground (arith, eq_iff external "id") in
      let is_issued : issued ≡ t = ground arith in
      (Provider.started tables, rw (← is_id, ← is_issued) exchange_runs)
]

pub provider-IsServed : IsServed Provider.toy toy Provider.auth
provider-IsServed = record { answered = λ channel external hint w t e. answered external t e }

abbrev returned : Callback
returned = record { code = some "code"; state = some drawn_id; error = none }

scoped_runs :
    (ids : List String)
    → (exchange_user_token_for_multiresource_token Provider.toy Provider.auth
        (some "Bearer own")
        ids
        (Provider.started tables)).0
      ≡ ok issued
unfolding exchange_user_token_for_multiresource_token kaguya.Auth.Server.bearer
    kaguya.Base.strip_prefix native.Mathlib.Decide.ℕ_discrete kaguya.Auth.Verify.claims
    kaguya.Auth.Verify.self_claims Provider.decode_toy kaguya.Base.contains
    kaguya.Auth.Service.issue kaguya.Auth.Keys.mint Provider.encode_toy
    kaguya.Auth.Claims.display_names
scoped_runs ids = refl

scoped_answered :
    (header : String) (ids : List String) (t : UserToken)
    → ◌≡◌ {A = Result String (Option UserToken)}
        (ok (if header == "Bearer own" then some issued else none))
        (ok (some t))
    → (s : Server Provider.toy) × ((exchange_user_token_for_multiresource_token Provider.toy
          Provider.auth
          (some header)
          ids
          s).0
        ≡ ok t)
scoped_answered header ids t e = elim (Bool-cases (header == "Bearer own")) [
  | inr other ↦ absurd (ground arith)
  | inl same ↦
      let is_own : "Bearer own" ≡ header = ground (arith, eq_iff header "Bearer own") in
      let is_issued : issued ≡ t = ground arith in
      (Provider.started tables, rw (← is_own, ← is_issued) (scoped_runs ids))
]

provider-serves : Scoped.IsServed Provider.toy toy Provider.auth
provider-serves = record {
  answered = λ channel text header ids w t made e.
      let is : text ≡ header = cc in scoped_answered text ids t (rw (← is) at e);
}

resource_runs : (exchange_resource toy "http://auth" "own" "r1" 20).0 ≡ ok "own"
unfolding exchange_resource kaguya.Web.AuthClient.connect_auth kaguya.Web.AuthClient.bearer
resource_runs = refl

exchange_resource-IsScoped_example : Scoped.IsScoped Provider.toy toy Provider.auth "own" "r1" "own"
exchange_resource-IsScoped_example =
    Scoped.exchange_resource-IsScoped Provider.toy toy Provider.auth "http://auth" "own" "r1" 20
      "own" provider-serves resource_runs
