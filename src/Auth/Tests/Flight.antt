-- ===== src/Auth/Tests/Flight.antt =====
-- Two polls of one login in flight at kaguya-auth, with the provider of Toy answering both.
use kaguya.Base.{
  ◌⊎◌, System, Reach, Visited, Run, begun, later, stay, go, pos, ℕ, String, List, [], ◌≡◌, refl,
  none, some, inl, inr, update, arith, eq_iff,
}
use native.Mathlib.Decide.{ℕ_discrete}
use kaguya.Auth.Claims.{IdentityClaims, ResourceGrant}
use kaguya.Auth.Sessions.{resolve}
use kaguya.Auth.Service.{UserToken}
use kaguya.Auth.Service.Exchange.{IsIssued}
use kaguya.Auth.Requests.{
  Shared, Pc, Move, init, start_login, device_started, insert_session, resolve_session,
  polled_token, miss, fetched, store_accepted, hit, end_login, mint_token, issued, issuing,
  answered, asking, change_own, may_delete, delete, for_change,
}
use kaguya.Auth.Requests.Grounds.{Grounds, IsOwn, IsVerified, WasOwner}
use kaguya.Auth.Requests.Issuing.{Reach-issued, Reach-deleting}
use kaguya.Auth.Requests.Finished.{Renews, resolve_finished}
use kaguya.Auth.Tests.Tables.{tables}
use kaguya.Auth.Tests.Toy.{toy, auth, started, own_claims, login_claims}
use kaguya.Auth.Store.{Store}

abbrev store : Store
store = (started tables).store

record Reached : Type 0 where
  last : System (Shared toy) (Pc toy)
  reach : Reach (Move toy auth) (init toy store) last

-- both have resolved the session, and both get the provider's token
abbrev polled : Reached
unfolding kaguya.Auth.Device.start ℕ_discrete resolve kaguya.Auth.Sessions.insert
    kaguya.Auth.Service.clamp kaguya.Auth.Device.poll kaguya.Auth.Device.classify
    kaguya.Auth.Sessions.sweep
polled = record {
  last = _;
  reach =
      later 2
        (later 1
          (later 2
            (later 1
              (later 0 (later 0 (later 0 begun (start_login "me")) (device_started 10 refl))
                (insert_session 10 10 "5e55"))
              (resolve_session 20 20 "5e55" "me" refl))
            (resolve_session 20 20 "5e55" "me" refl))
          (polled_token 20 refl))
        (polled_token 20 refl);
}

-- the token of the first of them has been verified
abbrev checked : Reached
unfolding kaguya.Auth.Device.start ℕ_discrete resolve kaguya.Auth.Sessions.insert
    kaguya.Auth.Service.clamp kaguya.Auth.Device.poll kaguya.Auth.Device.classify
    kaguya.Auth.Sessions.sweep polled kaguya.Auth.Verify.header_kid kaguya.Auth.Verify.fetch_jwks
    kaguya.Auth.Jwks.fetch_jwks kaguya.Auth.Verify.verify_with_jwks kaguya.Auth.Tests.Toy.decode_toy
    kaguya.Base.contains kaguya.Auth.Service.issue kaguya.Auth.Claims.canonical_subject
    kaguya.Auth.Claims.display_names kaguya.Auth.Keys.mint kaguya.Auth.Tests.Toy.encode_toy
    kaguya.Auth.Sessions.remove
checked = record {
  last = _;
  reach =
      later 1 (later 1 (later 1 polled.reach (miss "k1" refl (inl refl))) (fetched 20 refl))
        store_accepted;
}

-- it has ended the login, with a token
abbrev ended : Reached
unfolding kaguya.Auth.Device.start ℕ_discrete resolve kaguya.Auth.Sessions.insert
    kaguya.Auth.Service.clamp kaguya.Auth.Device.poll kaguya.Auth.Device.classify
    kaguya.Auth.Sessions.sweep polled kaguya.Auth.Verify.header_kid kaguya.Auth.Verify.fetch_jwks
    kaguya.Auth.Jwks.fetch_jwks kaguya.Auth.Verify.verify_with_jwks kaguya.Auth.Tests.Toy.decode_toy
    kaguya.Base.contains kaguya.Auth.Service.issue kaguya.Auth.Claims.canonical_subject
    kaguya.Auth.Claims.display_names kaguya.Auth.Keys.mint kaguya.Auth.Tests.Toy.encode_toy
    kaguya.Auth.Sessions.remove checked
ended = record {
  last = _;
  reach = later 1 (later 1 checked.reach end_login) (mint_token (started tables) refl);
}

-- the second ends it again: one login has answered two tokens
abbrev twice : Reached
unfolding kaguya.Auth.Device.start ℕ_discrete resolve kaguya.Auth.Sessions.insert
    kaguya.Auth.Service.clamp kaguya.Auth.Device.poll kaguya.Auth.Device.classify
    kaguya.Auth.Sessions.sweep polled kaguya.Auth.Verify.header_kid kaguya.Auth.Verify.fetch_jwks
    kaguya.Auth.Jwks.fetch_jwks kaguya.Auth.Verify.verify_with_jwks kaguya.Auth.Tests.Toy.decode_toy
    kaguya.Base.contains kaguya.Auth.Service.issue kaguya.Auth.Claims.canonical_subject
    kaguya.Auth.Claims.display_names kaguya.Auth.Keys.mint kaguya.Auth.Tests.Toy.encode_toy
    kaguya.Auth.Sessions.remove checked ended
twice = record {
  last = _;
  reach =
      later 2 (later 2 (later 2 ended.reach (hit "k1" "k1" tt 20 refl refl refl refl)) end_login)
        (mint_token (started tables) refl);
}

abbrev ada : UserToken
ada = record { user_token = "own"; expires_at = pos 90; user_id = "ada"; user_name = "Ada" }

answered_twice :
    (twice.last.pc 1 ≡ answered (issued ada)) × (twice.last.pc 2 ≡ answered (issued ada))
unfolding kaguya.Auth.Device.start ℕ_discrete resolve kaguya.Auth.Sessions.insert
    kaguya.Auth.Service.clamp kaguya.Auth.Device.poll kaguya.Auth.Device.classify
    kaguya.Auth.Sessions.sweep polled kaguya.Auth.Verify.header_kid kaguya.Auth.Verify.fetch_jwks
    kaguya.Auth.Jwks.fetch_jwks kaguya.Auth.Verify.verify_with_jwks kaguya.Auth.Tests.Toy.decode_toy
    kaguya.Base.contains kaguya.Auth.Service.issue kaguya.Auth.Claims.canonical_subject
    kaguya.Auth.Claims.display_names kaguya.Auth.Keys.mint kaguya.Auth.Tests.Toy.encode_toy
    kaguya.Auth.Sessions.remove checked ended twice
answered_twice = (refl, refl)

Reach-issued_example :
    (subject : String) × (found : IdentityClaims) × (resources : List ResourceGrant) × Grounds toy
      auth
      (Visited (Move toy auth) twice.last twice.reach)
      2
      subject
      found
      resources
    × IsIssued toy auth subject found resources ada
Reach-issued_example = Reach-issued toy auth 2 twice.reach answered_twice.1

-- the step that ends the login of the first, after which another is asked for
abbrev over : System (Shared toy) (Pc toy)
over = record {
  shared = record checked.last.shared {
    sessions = kaguya.Auth.Sessions.remove "5e55" checked.last.shared.sessions;
  };
  pc = update checked.last.pc 1 (issuing "ada" login_claims []);
}

asked_again :
    Run
      (Move toy auth)
      (Renews toy auth "5e55")
      over
      (record { shared = over.shared; pc = update over.pc 3 (asking "you") })
unfolding kaguya.Auth.Device.start ℕ_discrete resolve kaguya.Auth.Sessions.insert
    kaguya.Auth.Service.clamp kaguya.Auth.Device.poll kaguya.Auth.Device.classify
    kaguya.Auth.Sessions.sweep polled kaguya.Auth.Verify.header_kid kaguya.Auth.Verify.fetch_jwks
    kaguya.Auth.Jwks.fetch_jwks kaguya.Auth.Verify.verify_with_jwks kaguya.Auth.Tests.Toy.decode_toy
    kaguya.Base.contains kaguya.Auth.Service.issue kaguya.Auth.Claims.canonical_subject
    kaguya.Auth.Claims.display_names kaguya.Auth.Keys.mint kaguya.Auth.Tests.Toy.encode_toy
    kaguya.Auth.Sessions.remove checked
asked_again = go 3 stay (start_login "you") (λ never. never)

resolve_finished_example : (resolve 30 40 "5e55" "me" over.shared.sessions).0 ≡ none
unfolding kaguya.Auth.Device.start ℕ_discrete resolve kaguya.Auth.Sessions.insert
    kaguya.Auth.Service.clamp kaguya.Auth.Device.poll kaguya.Auth.Device.classify
    kaguya.Auth.Sessions.sweep polled kaguya.Auth.Verify.header_kid kaguya.Auth.Verify.fetch_jwks
    kaguya.Auth.Jwks.fetch_jwks kaguya.Auth.Verify.verify_with_jwks kaguya.Auth.Tests.Toy.decode_toy
    kaguya.Base.contains kaguya.Auth.Service.issue kaguya.Auth.Claims.canonical_subject
    kaguya.Auth.Claims.display_names kaguya.Auth.Keys.mint kaguya.Auth.Tests.Toy.encode_toy
    kaguya.Auth.Sessions.remove checked
resolve_finished_example =
    resolve_finished toy auth "5e55" 30 40 "me" checked.last _ 1 over.shared
      (issuing "ada" login_claims [])
      (end_login {code = "5e55"} {presented = "id"} {found = login_claims}) refl asked_again

-- `ada`, who owns r1, deletes it
abbrev deleted : Reached
unfolding kaguya.Auth.Server.bearer kaguya.Base.strip_prefix ℕ_discrete
    kaguya.Auth.Verify.self_claims kaguya.Auth.Tests.Toy.decode_toy kaguya.Base.contains
    kaguya.Auth.Store.role_for kaguya.Auth.Store.is_held kaguya.Auth.Store.best_of
    kaguya.Auth.Store.stronger kaguya.Auth.Store.parse kaguya.Auth.Store.groups_of
    kaguya.Base.retain
deleted = record {
  last = _;
  reach =
      later 0 (later 0 begun (change_own (delete "r1") (some "Bearer own") 20 refl))
        (may_delete {found = own_claims} refl);
}

Reach-deleting_example :
    (presented : String) × (IsOwn toy auth presented own_claims
      ⊎ IsVerified toy auth (for_change (delete "r1")) presented own_claims)
    × WasOwner toy auth
        (Visited (Move toy auth) deleted.last deleted.reach)
        0
        presented
        own_claims
        "r1"
unfolding deleted ℕ_discrete
Reach-deleting_example = Reach-deleting toy auth 0 deleted.reach refl
