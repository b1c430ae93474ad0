-- ===== src/Auth/Tests/Guards.antt =====
-- Runs of the identity checks (auth/src/verify.rs), of the calls of `RebacApi` and of the start of
-- the service (auth/src/main.rs), with the concrete crates of Toy; and of the login table.
use kaguya.Base.{
  ℕ, ◌<◌, String, Option, none, some, List, [], ◌∷◌, ◌≡◌, ◌≢◌, ◌↔◌, ◌⊎◌, refl, ok, err, inl, inr,
  ◌==◌, if◌then◌else◌, contains, arith, any,
}
use kaguya.Auth.Sessions.{Sessions, new}
use kaguya.Auth.Sessions.Trace.{Call, begin, poll, finish, answers, promised, answers-promised}
use kaguya.Auth.Verify.{
  Verifying, VerifyError, invalid, validation_for, verify, verify_with_jwks, fetch_jwks, claims,
}
use kaguya.Auth.Verify.Trust.{IsSigned, verify-IsSigned}
use kaguya.Auth.Verify.Steady.{AreJudged, verdicts, verdicts-AreJudged}
use kaguya.Auth.Server.{Server, caller, status, unauthenticated, permission_denied}
use kaguya.Auth.Rebac.{create_resource, delete_resource}
use kaguya.Auth.Rebac.Guards.{
  delete_resource-guard, delete_resource_answers, create_resource_answers,
}
use kaguya.Auth.Store.{owner, role_for}
use kaguya.Auth.Tests.Tables.{tables}
use kaguya.Auth.Tests.Toy.{toy, auth, started, login_claims, SamePair}

abbrev fresh : Verifying toy
fresh = record { cached = none; world = 20 }

verify_runs : (verify toy auth.oidc "id" fresh).0 ≡ ok login_claims
unfolding verify kaguya.Auth.Verify.header_kid kaguya.Auth.Verify.refetch fetch_jwks
    kaguya.Auth.Jwks.fetch_jwks verify_with_jwks kaguya.Auth.Tests.Toy.decode_toy contains
verify_runs = refl

verify-IsSigned_example :
    (keys : String) × ((verify toy auth.oidc "id" fresh).1.cached ≡ some keys)
    × IsSigned toy keys "idp" ("kaguya" ∷ []) "id" login_claims
verify-IsSigned_example = verify-IsSigned toy auth.oidc "id" fresh login_claims verify_runs

-- the provider serves the key set k1 all the time
serves : (w : ℕ) → (fetch_jwks toy auth.oidc w).0 ≡ ok "k1"
unfolding fetch_jwks kaguya.Auth.Jwks.fetch_jwks
serves w = refl

claims_runs : (claims toy auth.identity "id" fresh).0 ≡ ok login_claims
unfolding claims kaguya.Auth.Verify.self_claims kaguya.Auth.Tests.Toy.decode_toy contains verify
    kaguya.Auth.Verify.header_kid kaguya.Auth.Verify.refetch fetch_jwks kaguya.Auth.Jwks.fetch_jwks
    verify_with_jwks
claims_runs = refl

verdicts-AreJudged_example :
    AreJudged toy auth.oidc "k1"
      ("id" ∷ "junk" ∷ "id" ∷ [])
      (verdicts toy auth.oidc ("id" ∷ "junk" ∷ "id" ∷ []) fresh)
verdicts-AreJudged_example =
    verdicts-AreJudged toy auth.oidc "k1" serves ("id" ∷ "junk" ∷ "id" ∷ []) fresh (inl refl)

delete_resource-guard_example :
    ((delete_resource toy auth.identity (some "Bearer id") "r2" (started tables)).1.store
      ≡ (started tables).store)
    ⊎ ((sub : String) × ((caller toy auth.identity (some "Bearer id") (started tables)).0 ≡ ok sub)
        × (role_for sub "r2" tables ≡ some owner))
delete_resource-guard_example =
    delete_resource-guard toy auth.identity (some "Bearer id") "r2" (started tables)

ada_calls : (caller toy auth.identity (some "Bearer own") (started tables)).0 ≡ ok "ada"
unfolding caller kaguya.Auth.Verify.subject claims kaguya.Auth.Verify.self_claims
    kaguya.Auth.Tests.Toy.decode_toy kaguya.Auth.Server.bearer kaguya.Base.strip_prefix
    native.Mathlib.Decide.ℕ_discrete contains
ada_calls = refl

ada_owns : role_for "ada" "r1" tables ≡ some owner
unfolding role_for kaguya.Auth.Store.best_of kaguya.Base.retain kaguya.Auth.Store.is_held contains
    kaguya.Auth.Store.groups_of kaguya.Auth.Store.stronger kaguya.Auth.Store.parse
ada_owns = refl

delete_resource_answers_example :
    ((delete_resource toy auth.identity (some "Bearer own") "r1" (started tables)).0 ≡ ok tt)
    × ((anyone other : String)
        → role_for anyone other
            (delete_resource toy auth.identity
              (some "Bearer own")
              "r1"
              (started tables)).1.store.tables
          ≡ (if other == "r1" then none else role_for anyone other tables))
delete_resource_answers_example =
    (delete_resource_answers toy auth.identity (some "Bearer own") "r1" (started tables)).2 "ada"
      ada_calls ada_owns refl

create_resource_answers_example :
    role_for "ada" "r2"
      (create_resource toy auth.identity
        (some "Bearer own")
        "r2"
        "two"
        (started tables)).1.store.tables
    ≡ some owner
unfolding any
create_resource_answers_example =
    (create_resource_answers toy auth.identity (some "Bearer own") "r2" "two" "ada" (started tables)
        ada_calls refl).1
      refl refl

abbrev waiting : Sessions
waiting code =
    if code == "5e55"
    then some (record {
      device_code = "dev";
      token_endpoint = "idp/token";
      client_state = "me";
      expires_at = 1_000;
    })
    else none

abbrev calls : List Call
calls =
    begin 5 6 "5e55" "dev" "idp/token" "me" 10
    ∷ begin 20 21 "7a11" "dev2" "idp/token" "you" 10
    ∷ poll 22 22 "5e55" "me"
    ∷ poll 23 24 "7a11" "you"
    ∷ finish "7a11"
    ∷ []

answers-promised_example : answers calls new ≡ promised calls new
answers-promised_example = answers-promised 0 calls new (omega arith)
