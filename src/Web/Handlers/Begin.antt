-- ===== src/Web/Handlers/Begin.antt =====
-- How a login begins: `login` of web/src/main.rs.
use kaguya.Base.{
  ℕ, ◌+◌, String, ◌≡◌, none, some, ok, arith, ltb, if◌then◌else◌, Result-cases, inl, inr,
}
use kaguya.Web.Crates.{Crates}
use kaguya.Web.Store.{take_pending, pending_ttl}
use kaguya.Web.Store.Logins.{take_pending-start_login}
use kaguya.Web.Oidc.{authorize_url, code_challenge, code_verifier, random_state}
use kaguya.Web.Handlers.{App, Site, redirect, login}

module _ (c : Crates) where
  open c use {unix_seconds, entry_seconds}

  -- A login binds three things: the address that it redirects to is the provider's, with a fresh
  -- state and the S256 challenge of a fresh verifier; and a callback with that state gets that
  -- verifier, for ten minutes and not after that.
  pub login-take_pending :
      (app : App c) (s : Site c)
      → let state = random_state c s.world in
        let verifier = code_verifier c state.1 in
        let now = unix_seconds (entry_seconds verifier.1).1 in
        ((location : String)
          → (login c app s).0 ≡ redirect location none
          → (authorize_url c app.oidc state.0 (code_challenge c verifier.0) now.1).0 ≡ ok location)
        × ((later : ℕ)
            → (take_pending later state.0 (login c app s).1.store).0
              ≡ (if ltb later (now.0 + pending_ttl) then some verifier.0 else none))
  unfolding login
  login-take_pending app s =
      let state = random_state c s.world in
      let verifier = code_verifier c state.1 in
      let visited = entry_seconds verifier.1 in
      let now = unix_seconds visited.1 in
      (
        λ location e.
            elim (Result-cases
              (authorize_url c app.oidc state.0 (code_challenge c verifier.0) now.1).0) [
                | inr (_, bad) ↦ absurd (ground arith)
                | inl (url, built) ↦ ground arith
              ],
        λ later. take_pending-start_login visited.0 now.0 later state.0 verifier.0 s.store,
      )
