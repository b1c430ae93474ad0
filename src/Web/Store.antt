-- ===== src/Web/Store.antt =====
-- `Store` of web/src/main.rs: the logins in flight and the sessions. `now()` is seconds since the
-- epoch; each reading that an operation makes is an argument, and `retain` makes one for each entry
-- that it visits, so it is given one for each key.
pub mod Logins
pub mod Lifetimes
use kaguya.Base.{
  ℕ, ◌+◌, String, Option, none, some, ℤ, pos, is_before, if◌then◌else◌, HashMap, empty, insert,
  remove as delete, retain_entries, keep_if,
}

pub record Session : Type 0 where
  pub token : String
  pub user_name : String
  pub sub : String
  pub expires_at : ℤ

pub record Pending : Type 0 where
  pub verifier : String
  pub expires_at : ℤ

pub record Store : Type 0 where
  pub sessions : HashMap Session
  pub pending : HashMap Pending

abbrev pub default : Store
default = record { sessions = empty; pending = empty }

abbrev pub pending_ttl : ℕ
pending_ttl = 600

unfoldable pub start_login : (String → ℕ) → ℕ → String → String → Store → Store
start_login visited now state verifier s = record s {
  pending =
      insert state (record { verifier = verifier; expires_at = pos (now + pending_ttl) })
        (retain_entries (λ k p. is_before (visited k) p.expires_at) s.pending);
}

abbrev verifier_of : Option Pending → Option String
verifier_of none = none
verifier_of (some p) = some p.verifier

unfoldable pub take_pending : ℕ → String → Store → Option String × Store
take_pending now state s = (
  verifier_of (keep_if (λ p. is_before now p.expires_at) (s.pending state)),
  record s { pending = delete state s.pending },
)

unfoldable pub create : (String → ℕ) → String → Session → Store → Store
create visited id session s = record s {
  sessions =
      insert id session (retain_entries (λ k x. is_before (visited k) x.expires_at) s.sessions);
}

abbrev shown : Option Session → Option (String × String × String)
shown none = none
shown (some s) = some (s.token, s.user_name, s.sub)

unfoldable pub get : ℕ → String → Store → Option (String × String × String)
get now id s = shown (keep_if (λ x. is_before now x.expires_at) (s.sessions id))

unfoldable pub remove : String → Store → Store
remove id s = record s { sessions = delete id s.sessions }
