-- ===== src/Web/Store/Logins.antt =====
-- The login state of web/src/main.rs: a state opens the callback once, with its own verifier.
use kaguya.Base.{
  ℕ, ◌+◌, ◌≤◌, String, ◌≡◌, ◌≢◌, eq_iff, eq_refl, none, some, ltb, arith, if◌then◌else◌,
}
use kaguya.Web.Store.{Store, start_login, take_pending, pending_ttl}

-- The callback for a login that was started gets that login's PKCE verifier for ten minutes, and
-- nothing after that.
pub take_pending-start_login :
    (visited : String → ℕ) (now later : ℕ) (state verifier : String) (s : Store)
    → (take_pending later state (start_login visited now state verifier s)).0
      ≡ (if ltb later (now + pending_ttl) then some verifier else none)
unfolding take_pending start_login
take_pending-start_login visited now later state verifier s = ground (arith, eq_refl state)

-- A state serves once: whatever the first callback got, a second one with the same state gets
-- nothing; and the logins under other states are as they were.
pub take_pending_once :
    (now later : ℕ) (state other : String) (s : Store)
    → ((take_pending later state (take_pending now state s).1).0 ≡ none)
      × (state ≢ other → (take_pending now state s).1.pending other ≡ s.pending other)
unfolding take_pending
take_pending_once now later state other s =
    (ground (arith, eq_refl state), λ ne. ground (arith, eq_iff state other))

-- Starting one login takes nothing from another: if the clock does not go back, its callback gets
-- what it would have got.
pub take_pending-start_login_ne :
    (visited : String → ℕ) (now later : ℕ) (state other verifier : String) (s : Store)
    → state ≢ other
    → visited other ≤ later
    → (take_pending later other (start_login visited now state verifier s)).0
      ≡ (take_pending later other s).0
unfolding take_pending start_login
take_pending-start_login_ne visited now later state other verifier s ne le =
    ground (arith, eq_iff state other)
