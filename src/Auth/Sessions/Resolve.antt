-- ===== src/Auth/Sessions/Resolve.antt =====
-- What `resolve` of auth/src/sessions.rs answers, and what inserting and removing do to it.
use kaguya.Base.{
  ℕ, ◌+◌, ◌≤◌, ◌<◌, String, ◌≡◌, ◌≢◌, ◌↔◌, ◌&&◌, ◌==◌, eq_iff, eq_refl, none, some, arith, ltb,
  if◌then◌else◌, Option-cases, inl, inr,
}
use kaguya.Auth.Sessions.{Session, Sessions, insert, resolve, remove}

-- `resolve` hands out a device code and a token endpoint exactly when they are those of a session
-- stored under the code, with the caller's `client_state`, that expires after both readings of
-- the clock (the sweep's and its own).
resolve-eq-some_iff :
    (swept now : ℕ) (code state device endpoint : String) (m : Sessions)
    → ((resolve swept now code state m).0 ≡ some (device, endpoint)) ↔ (
        (s : Session) × (m code ≡ some s)
        × (s.client_state ≡ state)
        × (swept < s.expires_at)
        × (now < s.expires_at)
        × (s.device_code ≡ device)
        × (s.token_endpoint ≡ endpoint))
unfolding resolve
resolve-eq-some_iff swept now code state device endpoint m = elim (Option-cases (m code)) [
  | inl missing ↦ ground arith
  | inr (s, found) ↦ (
    λ e. (
      s,
      found,
      ground (arith, eq_iff s.client_state state),
      ground arith,
      ground arith,
      ground arith,
      ground arith,
    ),
    λ (s', found', same, later, last, p, q). ground (arith, eq_iff s.client_state state),
  )
]

-- A login resolves, for whoever presents the client_state that began it, until its lifetime has
-- passed on one of the two readings; then, and for any other client_state, it does not.
pub resolve-insert_self :
    (swept created swept' now ttl : ℕ) (code device endpoint owner state : String) (m : Sessions)
    → (resolve swept' now code state (insert swept created code device endpoint owner ttl m)).0 ≡ (
        if owner == state && (ltb swept' (created + ttl) && ltb now (created + ttl))
        then some (device, endpoint)
        else none)
unfolding resolve insert
resolve-insert_self swept created swept' now ttl code device endpoint owner state m =
    ground (arith, eq_refl code)

-- Beginning a login changes no other login's answer, now or later: what its sweep drops has
-- expired.
pub resolve-insert_ne :
    (swept created swept' now ttl : ℕ) (code other device endpoint owner state : String)
    (m : Sessions)
    → code ≢ other
    → swept ≤ swept'
    → (resolve swept' now other state (insert swept created code device endpoint owner ttl m)).0
      ≡ (resolve swept' now other state m).0
unfolding resolve insert
resolve-insert_ne swept created swept' now ttl code other device endpoint owner state m ne le =
    ground (arith, eq_iff code other)

-- After `remove` the code does not resolve, at whatever time and for whatever client_state.
pub resolve-remove_self :
    (swept now : ℕ) (code state : String) (m : Sessions)
    → (resolve swept now code state (remove code m)).0 ≡ none
unfolding resolve remove
resolve-remove_self swept now code state m = ground (arith, eq_refl code)
