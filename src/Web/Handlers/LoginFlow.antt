-- ===== src/Web/Handlers/LoginFlow.antt =====
-- What a callback of web/src/main.rs opens a session for.
use kaguya.Base.{
  ℕ, String, ◌≡◌, ◌⊎◌, inl, inr, Option, none, some, ok, arith, refl, Option-cases, Result-cases,
  ap, ◌∙◌, HashMap,
}
use kaguya.Web.Crates.{Crates}
use kaguya.Web.Store
use kaguya.Web.Store.Logins.{take_pending_once}
use kaguya.Web.Oidc.{exchange_code}
use kaguya.Web.AuthClient.{Issued, exchange_external}
use kaguya.Web.Handlers.{Response, failed, Callback, App, Site, open_session, callback}

module _ (c : Crates) where
  open c use {World, unix_seconds}

  -- The way of a callback that opens a session: the provider sent no error, but a code and a state;
  -- the state is that of a login in flight; the provider gave an id token for the code and that
  -- login's own verifier; and kaguya-auth gave a user token for the id token.
  pub record IsOpened (app : App c) (q : Callback) (s : Site c) (r : Response × Site c)
      : Type 0 where
    pub code : String
    pub state : String
    pub verifier : String
    pub id_token : String
    pub issued : Issued
    pub before : Site c
    pub no_error : q.error ≡ none
    pub has_code : q.code ≡ some code
    pub has_state : q.state ≡ some state
    pub in_flight : (Store.take_pending (unix_seconds s.world).0 state s.store).0 ≡ some verifier
    pub exchanged :
        (exchange_code c app.oidc code verifier (unix_seconds s.world).1).0 ≡ ok id_token
    pub accepted :
        (exchange_external c app.auth id_token
          (exchange_code c app.oidc code verifier (unix_seconds s.world).1).1).0
        ≡ ok issued
    pub kept : before.store ≡ (Store.take_pending (unix_seconds s.world).0 state s.store).1
    pub opened : r ≡ open_session c issued before

  take_pending-sessions :
      (now : ℕ) (state : String) (s : Site c)
      → (Store.take_pending now state s.store).1.sessions ≡ s.store.sessions
  unfolding Store.take_pending
  take_pending-sessions now state s = refl

  -- A callback opens a session in no other way: otherwise it answers with the failed login, sets no
  -- cookie, and the sessions are as they were.
  pub callback_cases :
      (app : App c) (q : Callback) (s : Site c)
      → (((callback c app q s).0 ≡ failed)
          × ((callback c app q s).1.store.sessions ≡ s.store.sessions))
        ⊎ IsOpened app q s (callback c app q s)
  unfolding callback
  callback_cases app q s = elim (Option-cases q.error) [
    | inr (_, refused) ↦ inl (ground arith, ground arith)
    | inl no_error ↦ elim (Option-cases q.code) [
      | inl no_code ↦ inl (ground arith, ground arith)
      | inr (code, has_code) ↦ elim (Option-cases q.state) [
        | inl no_state ↦ inl (ground arith, ground arith)
        | inr (state, has_state) ↦
            let taken = Store.take_pending (unix_seconds s.world).0 state s.store in
            let same_sessions : taken.1.sessions ≡ s.store.sessions =
              take_pending-sessions _ state s in
            elim (Option-cases taken.0) [
              | inl unknown ↦ inl (ground arith, ground arith)
              | inr (verifier, in_flight) ↦
                  let fetched = exchange_code c app.oidc code verifier (unix_seconds s.world).1 in
                  elim (Result-cases fetched.0) [
                    | inr (_, refused) ↦ inl (ground arith, ground arith)
                    | inl (id_token, exchanged) ↦
                        let given = exchange_external c app.auth id_token fetched.1 in
                        elim (Result-cases given.0) [
                          | inr (_, refused) ↦ inl (ground arith, ground arith)
                          | inl (issued, accepted) ↦ inr (record {
                            code = code;
                            state = state;
                            verifier = verifier;
                            id_token = id_token;
                            issued = issued;
                            before = record { store = taken.1; world = given.1 };
                            no_error = no_error;
                            has_code = has_code;
                            has_state = has_state;
                            in_flight = in_flight;
                            exchanged = exchanged;
                            accepted = accepted;
                            kept = refl;
                            opened = ground arith;
                          })
                        ]
                  ]
            ]
      ]
    ]
  ]

  open_session-pending :
      (issued : Issued) (s : Site c) → (open_session c issued s).1.store.pending ≡ s.store.pending
  unfolding open_session Store.create
  open_session-pending issued s = refl

  callback-pending :
      (app : App c) (q : Callback) (code state : String) (s : Site c)
      → q.error ≡ none
      → q.code ≡ some code
      → q.state ≡ some state
      → (callback c app q s).1.store.pending
        ≡ (Store.take_pending (unix_seconds s.world).0 state s.store).1.pending
  unfolding callback open_session Store.create
  callback-pending app q code state s no_error has_code has_state = ground arith

  -- A callback with a state uses it up, whatever comes of it: a second callback with that state
  -- finds no verifier, at whatever time.
  callback_once :
      (app : App c) (q : Callback) (code state : String) (s : Site c) (later : ℕ)
      → q.error ≡ none
      → q.code ≡ some code
      → q.state ≡ some state
      → (Store.take_pending later state (callback c app q s).1.store).0 ≡ none
  unfolding Store.take_pending
  callback_once app q code state s later no_error has_code has_state =
      let used = callback-pending app q code state s no_error has_code has_state in
      ap verifier_at used ∙ (take_pending_once (unix_seconds s.world).0 later state state s.store).0
    where
      verifier_at : HashMap Store.Pending → Option String
      verifier_at m =
          (Store.take_pending later state (record { sessions = s.store.sessions; pending = m })).0
