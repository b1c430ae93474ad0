-- ===== src/Web/Requests/Ended.antt =====
-- What is over stays over, whatever other requests do meanwhile: a login state that a callback of
-- web/src/main.rs has taken, and a session that has been removed.
use kaguya.Base.{System, Run, Run-all, ℕ, String, none, ◌≡◌, eq_iff, eq_refl, arith}
use kaguya.Web.Crates.{Crates}
use kaguya.Web.Store
use kaguya.Web.Store.{Store, Session}
use kaguya.Web.Handlers.{App}
use kaguya.Web.Requests.{Pc, start, take, take_nothing, open_session, logout, Move, System}

-- a login that a callback has taken, by its state; a session that a logout has removed
pub data Ended : Type 0 where
  login : (state : String) → Ended
  opened : (id : String) → Ended

abbrev Gone : Ended → Store → Type 0
Gone (login state) s = s.pending state ≡ none
Gone (opened id) s = s.sessions id ≡ none

module _ (c : Crates) (app : App c) where
  -- whether a step makes a new one in its place: starts a login under that state, or opens a session
  -- under that identifier
  abbrev pub Renews :
      Ended → (s : Store) (p : Pc) (s' : Store) (p' : Pc) → Move c app s p s' p' → Type 0
  Renews (login state) _ _ _ _ (start _ _ other _) = other ≡ state
  Renews (opened id) _ _ _ _ (open_session _ other _ _ _) = other ≡ id
  Renews _ _ _ _ _ _ = ⊥

  abbrev pub after_take : ℕ → String → System Store Pc → System Store Pc
  after_take now state y = record y { shared = (Store.take_pending now state y.shared).1 }

  abbrev pub after_logout : String → System Store Pc → System Store Pc
  after_logout id y = record y { shared = Store.remove id y.shared }

  Move-Gone :
      (e : Ended) (s : Store) (p : Pc) (s' : Store) (p' : Pc) (move : Move c app s p s' p')
      → ¬ Renews e s p s' p' move
      → Gone e s
      → Gone e s'
  unfolding Store.start_login Store.take_pending Store.create Store.remove
  Move-Gone (login state) _ _ _ _ (start _ _ other _) ne before = ground (arith, eq_iff other state)
  Move-Gone (login state) _ _ _ _ (take _ _ other _) ne before = ground arith
  Move-Gone (login state) _ _ _ _ (take_nothing _ other _) ne before = ground arith
  Move-Gone (login state) _ _ _ _ (open_session _ _ _ _ _) ne before = before
  Move-Gone (login state) _ _ _ _ (logout _) ne before = before
  Move-Gone (opened id) _ _ _ _ (start _ _ _ _) ne before = before
  Move-Gone (opened id) _ _ _ _ (take _ _ _ _) ne before = before
  Move-Gone (opened id) _ _ _ _ (take_nothing _ _ _) ne before = before
  Move-Gone (opened id) _ _ _ _ (open_session _ other _ _ _) ne before =
      ground (arith, eq_iff other id)
  Move-Gone (opened id) _ _ _ _ (logout other) ne before = ground arith
  Move-Gone _ _ _ _ _ _ ne before = before

  -- A login state serves one callback: once one has taken it, then however the requests interleave,
  -- and at whatever time, a callback with that state finds no verifier, unless a login has been
  -- started under the same state again.
  pub take_pending_redeemed :
      (state : String) (now later : ℕ) (y z : System Store Pc)
      → Run (Move c app) (Renews (login state)) (after_take now state y) z
      → (Store.take_pending later state z.shared).0 ≡ none
  unfolding Store.take_pending
  take_pending_redeemed state now later y z run = ground (
    arith,
    Run-all (Move c app) (Gone (login state)) (Move-Gone (login state)) run
        (ground (arith, eq_refl state)),
  )

  -- A session that a logout has removed is not answered again: however the requests interleave, and
  -- at whatever time, its identifier finds nothing, unless a session has been opened under the same
  -- identifier again.
  pub get_logged_out :
      (id : String) (now : ℕ) (y z : System Store Pc)
      → Run (Move c app) (Renews (opened id)) (after_logout id y) z
      → Store.get now id z.shared ≡ none
  unfolding Store.get Store.remove
  get_logged_out id now y z run = ground (
    arith,
    Run-all (Move c app) (Gone (opened id)) (Move-Gone (opened id)) run
        (ground (arith, eq_refl id)),
  )
