-- ===== src/Web/Tests/Flight.antt =====
-- Two requests in flight at kaguya-web: one starts a login, the other returns from it.
use kaguya.Base.{
  System, Reach, Run, begun, later, stay, go, update, eq_iff, ◌≡◌, refl, none, some, arith,
}
use native.Mathlib.Decide.{ℕ_discrete}
use kaguya.Web.Store
use kaguya.Web.Requests.{
  init, Pc, Move, start, take, exchanged, accepted, open_session, redirecting,
}
use kaguya.Web.Requests.Ended.{
  login, opened, Renews, after_take, after_logout, take_pending_redeemed, get_logged_out,
}
use kaguya.Web.Requests.Genuine.{IsVouched, get-IsVouched}
use kaguya.Auth.Tests.Toy as Provider
use kaguya.Web.Tests.Toy.{toy, app, drawn_id}
use kaguya.Web.Tests.Served.{provider-IsServed}

record Reached : Type 0 where
  last : System Store.Store Pc
  reach : Reach (Move toy app) init last

abbrev logged_in : Reached
unfolding Store.take_pending Store.start_login kaguya.Web.Oidc.exchange_code
    kaguya.Web.Oidc.discovery kaguya.Web.AuthClient.exchange_external ℕ_discrete
logged_in = record {
  last = _;
  reach =
      later 1
        (later 1
          (later 1
            (later 1 (later 0 begun (start (λ state. 0) 20 drawn_id "verifier"))
              (take 30 "code" drawn_id refl))
            (exchanged 30 refl))
          (accepted 30 refl))
        (open_session (λ id. 0) "cafe" 30 30 30);
}

found : Store.get 50 "cafe" logged_in.last.shared ≡ some ("own", "Ada", "ada")
unfolding logged_in Store.get Store.create Store.take_pending Store.start_login
    kaguya.Web.Handlers.session_expiry
found = refl

get-IsVouched_example : IsVouched Provider.toy toy app Provider.auth "own" "Ada" "ada"
get-IsVouched_example =
    get-IsVouched Provider.toy toy app Provider.auth 50 "cafe" provider-IsServed logged_in.reach
      found

-- the state drawn is taken by one callback, and another login is started
again :
    Run
      (Move toy app)
      (Renews toy app (login drawn_id))
      (after_take toy app 30 drawn_id logged_in.last)
      (record {
        shared =
            Store.start_login
              (λ state. 0)
              40
              "beef"
              "other"
              (Store.take_pending 30 drawn_id logged_in.last.shared).1;
        pc = update logged_in.last.pc 2 (redirecting "beef" "other");
      })
unfolding logged_in ℕ_discrete
again = go 2 stay (start (λ state. 0) 40 "beef" "other") (ground (arith, eq_iff "beef" drawn_id))

take_pending_redeemed_example :
    (Store.take_pending 50 drawn_id (
      Store.start_login
        (λ state. 0)
        40
        "beef"
        "other"
        (Store.take_pending 30 drawn_id logged_in.last.shared).1)).0
    ≡ none
take_pending_redeemed_example = take_pending_redeemed toy app drawn_id 30 50 logged_in.last _ again

-- the session `cafe` is closed, and a login is started
closed :
    Run
      (Move toy app)
      (Renews toy app (opened "cafe"))
      (after_logout toy app "cafe" logged_in.last)
      (record {
        shared =
            Store.start_login
              (λ state. 0)
              40
              "beef"
              "other"
              (Store.remove "cafe" logged_in.last.shared);
        pc = update logged_in.last.pc 2 (redirecting "beef" "other");
      })
unfolding logged_in ℕ_discrete
closed = go 2 stay (start (λ state. 0) 40 "beef" "other") (λ never. never)

get_logged_out_example :
    Store.get 50 "cafe"
      (Store.start_login (λ state. 0) 40 "beef" "other" (Store.remove "cafe" logged_in.last.shared))
    ≡ none
get_logged_out_example = get_logged_out toy app "cafe" 50 logged_in.last _ closed
