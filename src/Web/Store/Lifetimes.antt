-- ===== src/Web/Store/Lifetimes.antt =====
-- How long a session of web/src/main.rs is answered.
use kaguya.Base.{
  ℕ, ◌≤◌, String, ◌≡◌, ◌≢◌, eq_iff, eq_refl, none, some, is_before, arith, if◌then◌else◌,
}
use kaguya.Web.Store.{Store, Session, create, get, remove}

-- A created session is answered, with its token, name and subject, while the clock is before its
-- expiry; after that, and once it is removed, it is not.
pub get-create_self :
    (visited : String → ℕ) (now : ℕ) (id : String) (session : Session) (s : Store)
    → (get now id (create visited id session s) ≡ (
        if is_before now session.expires_at
        then some (session.token, session.user_name, session.sub)
        else none))
      × (get now id (remove id (create visited id session s)) ≡ none)
unfolding get create remove
get-create_self visited now id session s = (ground (arith, eq_refl id), ground (arith, eq_refl id))

-- Creating or removing one session changes nothing of another, if the clock does not go back.
pub get-create_ne :
    (visited : String → ℕ) (now : ℕ) (id other : String) (session : Session) (s : Store)
    → id ≢ other
    → visited other ≤ now
    → (get now other (create visited id session s) ≡ get now other s)
      × (get now other (remove id s) ≡ get now other s)
unfolding get create remove
get-create_ne visited now id other session s ne le =
    (ground (arith, eq_iff id other), ground (arith, eq_iff id other))
