-- ===== src/Auth/Tests/Slow.antt =====
-- A device login that the provider of Toy keeps pending for three polls.
use kaguya.Base.{ℕ, String, zero, suc, ◌+◌, ◌<◌, none, some, [], ok, ◌≡◌, refl, arith}
use kaguya.Auth.Claims.{canonical_subject}
use kaguya.Auth.Sessions.{Session, from_secs, resolve}
use kaguya.Auth.Device.{pending}
use kaguya.Auth.Server.{Server}
use kaguya.Auth.Service.{UserToken, start_auth_session, get_auth_session}
use kaguya.Auth.Service.Exchange.{IsIssued}
use kaguya.Auth.Service.Completion.{after, Asks, Grants}
use kaguya.Auth.Service.DeviceLogin.{device_login_completes}
use kaguya.Auth.Tests.Tables.{tables}
use kaguya.Auth.Tests.Toy.{toy, auth, started, login_claims, drawn_id}

abbrev begun : Server toy
begun = (start_auth_session toy auth "me" (record (started tables) { world = 10 })).1

abbrev session : Session
session = record {
  device_code = "dev";
  token_endpoint = "idp/token";
  client_state = "me";
  expires_at = 11 + from_secs 300;
}

asks :
    (k : ℕ)
    → k < 3
    → Asks toy auth drawn_id "me" session (after toy auth drawn_id "me" k begun) pending
unfolding start_auth_session kaguya.Auth.Device.start kaguya.Auth.Service.begin_session
    kaguya.Auth.Device.poll kaguya.Auth.Device.classify get_auth_session
    kaguya.Auth.Service.resolve_session kaguya.Auth.Service.poll_login kaguya.Auth.Sessions.resolve
    kaguya.Auth.Sessions.insert kaguya.Auth.Service.clamp kaguya.Auth.Service.finish_login
    kaguya.Base.hex_text
asks zero lt = record { swept_in_time = omega arith; in_time = omega arith; answered = refl }
asks (suc zero) lt = record { swept_in_time = omega arith; in_time = omega arith; answered = refl }
asks (suc (suc zero)) lt = record {
  swept_in_time = omega arith;
  in_time = omega arith;
  answered = refl;
}
asks (suc (suc (suc k))) lt = absurd (omega arith)

grants :
    Grants toy auth drawn_id "me" session (after toy auth drawn_id "me" 3 begun) "id" login_claims
unfolding start_auth_session kaguya.Auth.Device.start kaguya.Auth.Service.begin_session
    get_auth_session kaguya.Auth.Service.resolve_session kaguya.Auth.Sessions.resolve
    kaguya.Auth.Sessions.sweep kaguya.Auth.Service.poll_login kaguya.Auth.Device.poll
    kaguya.Auth.Device.classify kaguya.Auth.Service.finish_login kaguya.Auth.Sessions.insert
    kaguya.Auth.Service.clamp kaguya.Auth.Verify.verify kaguya.Auth.Verify.header_kid
    kaguya.Auth.Verify.refetch kaguya.Auth.Verify.fetch_jwks kaguya.Auth.Jwks.fetch_jwks
    kaguya.Auth.Verify.verify_with_jwks kaguya.Auth.Tests.Toy.decode_toy kaguya.Base.contains
    kaguya.Base.hex_text
grants = record {
  asks = record { swept_in_time = omega arith; in_time = omega arith; answered = refl };
  accepted = refl;
}

device_login_completes_example :
    ((start_auth_session toy auth "me" (record (started tables) { world = 10 })).0
      ≡ ok (record { session_code = drawn_id; login_url = "idp/verify?code" }))
    × ((k : ℕ)
        → k < 3
        → (get_auth_session toy auth drawn_id "me" (after toy auth drawn_id "me" k begun)).0
          ≡ ok none)
    × (t : UserToken) × ((get_auth_session toy auth drawn_id "me"
          (after toy auth drawn_id "me" 3 begun)).0
        ≡ ok (some t))
    × IsIssued toy auth (canonical_subject toy.to_lowercase login_claims) login_claims [] t
    × ((swept now : ℕ) (whoever : String)
        → (resolve swept now drawn_id whoever (after toy auth drawn_id "me" 4 begun).sessions).0
          ≡ none)
unfolding canonical_subject kaguya.Auth.Tests.Toy.encode_toy kaguya.Auth.Claims.display_names
    kaguya.Auth.Device.start kaguya.Auth.Service.clamp kaguya.Base.hex_text
device_login_completes_example =
    device_login_completes toy auth "me" "id" 3 (record (started tables) { world = 10 })
      (record {
        device_code = "dev";
        login_url = "idp/verify?code";
        token_endpoint = "idp/token";
        expires_in = 300;
      })
      login_claims refl asks grants (λ iat. ("own", refl))
