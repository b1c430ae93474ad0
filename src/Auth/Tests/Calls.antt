-- ===== src/Auth/Tests/Calls.antt =====
-- Runs of the calls of `UrcAuthApi` (auth/src/main.rs) with the concrete crates of Toy.
use kaguya.Base.{
  ℕ, ◌≤◌, ◌+◌, String, Option, none, some, List, [], ◌∷◌, ◌≡◌, refl, ok, err, pos, inl, is_empty,
  ◌==◌, if◌then◌else◌, ◌⊎◌, ltb, ◌&&◌, contains, arith, hex_text,
}
use kaguya.Auth.Sessions.{Sessions, from_secs, resolve}
use kaguya.Auth.Device.{DeviceStart, pending, denied, poll, start}
use kaguya.Auth.Keys.{Signer}
use kaguya.Auth.Verify.{malformed, Verifying, claims, verify}
use kaguya.Auth.Claims.{IdentityClaims, canonical_subject, read_back}
use kaguya.Auth.Server.{Status, status, unauthenticated, ResourcePermission, bearer, Server, caller}
use kaguya.Auth.Service.{
  Auth, UserToken, CheckUserPermissionResponse, scoped, start_auth_session, get_auth_session,
  resolve_session, exchange_external_token_for_user_token,
  exchange_user_token_for_multiresource_token,
}
use kaguya.Auth.Service.Exchange.{IsIssued, minted_claims}
use kaguya.Auth.Service.Queries.{IsSeen, wholes, queries_answer}
use kaguya.Auth.Service.Reads.{check_user_permission, lookup_user_permissions}
use kaguya.Auth.Store.Reads.{Reading, whole, fails}
use kaguya.Auth.Service.Begin.{start_auth_session-resolve, start_auth_session_apart}
use kaguya.Auth.Service.Polled.{IsPolled, get_auth_session_answers}
use kaguya.Auth.Service.OwnTokens.{exchange-issued}
use kaguya.Auth.Tests.Tables.{tables, tables-IsValid}
use kaguya.Auth.Tests.Toy.{
  toy, auth, started, login_claims, own_claims, toy_laws, auth-IsWired, SamePair, drawn_id,
}

abbrev pub issued : UserToken
issued = record { user_token = "own"; expires_at = pos 90; user_id = "ada"; user_name = "Ada" }

abbrev ids : List String
ids = "r1" ∷ "r2" ∷ []

-- a login that was begun with the client_state `me`
abbrev waiting : Server toy
waiting = record (started tables) {
  sessions = λ code.
      if code == "5e55"
      then some (record {
        device_code = "dev";
        token_endpoint = "idp/token";
        client_state = "me";
        expires_at = 1_000;
      })
      else none;
}

exchange_runs :
    (exchange_user_token_for_multiresource_token toy auth (some "Bearer own") [] (started tables)).0
    ≡ ok issued
unfolding exchange_user_token_for_multiresource_token bearer kaguya.Base.strip_prefix
    native.Mathlib.Decide.ℕ_discrete claims kaguya.Auth.Verify.self_claims
    kaguya.Auth.Tests.Toy.decode_toy contains kaguya.Auth.Service.issue kaguya.Auth.Keys.mint
    kaguya.Auth.Tests.Toy.encode_toy kaguya.Auth.Claims.display_names
exchange_runs = refl

-- the first role is read, and the SELECT for the second fails
abbrev reads : List (String × Reading)
reads = ("r1", whole tables) ∷ ("r2", record { tables = tables; answer = fails }) ∷ []

external_runs :
    (exchange_external_token_for_user_token toy auth "id" (started tables)).0 ≡ ok issued
unfolding exchange_external_token_for_user_token verify kaguya.Auth.Verify.header_kid
    kaguya.Auth.Verify.refetch kaguya.Auth.Verify.fetch_jwks kaguya.Auth.Jwks.fetch_jwks
    kaguya.Auth.Verify.verify_with_jwks kaguya.Auth.Tests.Toy.decode_toy contains
    kaguya.Auth.Service.issue kaguya.Auth.Keys.mint kaguya.Auth.Tests.Toy.encode_toy
    canonical_subject kaguya.Auth.Claims.display_names
external_runs = refl

login_runs : (get_auth_session toy auth "5e55" "me" waiting).0 ≡ ok (some issued)
unfolding get_auth_session resolve_session kaguya.Auth.Service.poll_login resolve poll
    kaguya.Auth.Service.finish_login kaguya.Auth.Device.classify verify
    kaguya.Auth.Verify.header_kid kaguya.Auth.Verify.refetch kaguya.Auth.Verify.fetch_jwks
    kaguya.Auth.Jwks.fetch_jwks kaguya.Auth.Verify.verify_with_jwks kaguya.Auth.Tests.Toy.decode_toy
    contains kaguya.Auth.Service.remove_session kaguya.Auth.Service.issue canonical_subject
    kaguya.Auth.Claims.display_names kaguya.Auth.Keys.mint kaguya.Auth.Tests.Toy.encode_toy
    kaguya.Auth.Sessions.remove kaguya.Auth.Sessions.sweep
login_runs = refl

queries_answer_example :
    ((r : Status) × ((caller toy auth.identity (some "Bearer own") (started tables)).0 ≡ err r)
      × ((check_user_permission toy auth (some "Bearer own") (wholes tables ids) (started tables)).0
          ≡ err (status unauthenticated "invalid token"))
      × ((lookup_user_permissions toy auth
            (some "Bearer own")
            (whole tables)
            (λ _. whole tables)
            (started tables)).0
          ≡ err (status unauthenticated "invalid token")))
    ⊎ ((sub : String) × (r : CheckUserPermissionResponse) × (listed : List ResourcePermission)
        × ((caller toy auth.identity (some "Bearer own") (started tables)).0 ≡ ok sub)
        × ((check_user_permission toy auth
              (some "Bearer own")
              (wholes tables ids)
              (started tables)).0
            ≡ ok r)
        × ((lookup_user_permissions toy auth
              (some "Bearer own")
              (whole tables)
              (λ _. whole tables)
              (started tables)).0
            ≡ ok listed)
        × IsSeen sub tables ids r listed)
queries_answer_example =
    queries_answer toy auth (some "Bearer own") ids (started tables) tables-IsValid

get_auth_session_answers_example :
    IsPolled toy auth "5e55" "me" waiting
      (get_auth_session toy auth "5e55" "me" waiting).0
      (get_auth_session toy auth "5e55" "me" waiting).1.sessions
    × ((get_auth_session toy auth "5e55" "me" waiting).1.store ≡ waiting.store)
get_auth_session_answers_example = get_auth_session_answers toy auth "5e55" "me" waiting

start_runs :
    (start_auth_session toy auth "me" (started tables)).0
    ≡ ok (record { session_code = drawn_id; login_url = "idp/verify?code" })
unfolding start_auth_session start kaguya.Auth.Service.begin_session kaguya.Base.hex_text
start_runs = refl

start_auth_session-resolve_example :
    (begun : DeviceStart) × (created : ℕ) × (ttl : ℕ) × ((start toy auth.oidc_device 20).0
      ≡ ok begun)
    × ("idp/verify?code" ≡ begun.login_url)
    × (from_secs 60 ≤ ttl)
    × (ttl ≤ from_secs 600)
    × (created ≡ (start toy auth.oidc_device 20).1)
    × ((swept now : ℕ) (state : String)
        → (resolve swept now drawn_id state
            (start_auth_session toy auth "me" (started tables)).1.sessions).0
          ≡ (if "me" == state && (ltb swept (created + ttl) && ltb now (created + ttl))
              then some (begun.device_code, begun.token_endpoint)
              else none))
start_auth_session-resolve_example =
    start_auth_session-resolve toy auth "me" (started tables)
      (record { session_code = drawn_id; login_url = "idp/verify?code" }) start_runs

start_auth_session_apart_example :
    (resolve 30 40
      (hex_text 32 7)
      "you"
      (start_auth_session toy auth "me" (started tables)).1.sessions).0
    ≡ (resolve 30 40 (hex_text 32 7) "you" (started tables).sessions).0
unfolding start
start_auth_session_apart_example =
    start_auth_session_apart toy auth "me" "you" (started tables) 7 30 40 (omega arith)
      (omega arith) (omega arith) (omega arith)

exchange-issued_example :
    (t' : UserToken) × ((exchange_user_token_for_multiresource_token toy auth
        (some "Bearer own")
        ids
        (started tables)).0
      ≡ ok t')
    × (t'.user_id ≡ "ada")
    × (t'.user_name ≡ "Ada")
    × (t'.expires_at ≡ pos 90)
    × IsIssued toy auth "ada"
        (read_back (minted_claims toy auth "ada" own_claims [] 20))
        (scoped "ada" tables ids)
        t'
unfolding kaguya.Auth.Tests.Toy.encode_toy kaguya.Auth.Claims.display_names read_back
exchange-issued_example =
    exchange-issued toy toy_laws auth "ada" own_claims [] issued ids (started tables) auth-IsWired
      (record { iat = 20; signed = refl; user_id = refl; user_name = refl; expires_at = refl })
      (omega arith) (λ iat. ("own", refl))
