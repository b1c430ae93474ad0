-- ===== src/Auth/Sessions.antt =====
-- auth/src/sessions.rs: the in-memory login sessions of the device flow. An `Instant` is a number
-- of nanoseconds; each reading of the clock that an operation makes is an argument of its own.
pub mod Resolve
pub mod Trace
use kaguya.Base.{
  ℕ, ◌+◌, ◌*◌, String, ◌&&◌, ◌==◌, Option, none, some, ltb, if◌then◌else◌, HashMap, empty,
  insert as put, remove as delete, retain_entries,
}

pub record Session : Type 0 where
  pub device_code : String
  pub token_endpoint : String
  pub client_state : String
  pub expires_at : ℕ

abbrev pub Sessions : Type 0
Sessions = HashMap Session

abbrev pub new : Sessions
new = empty

-- `Duration::from_secs`
abbrev pub from_secs : ℕ → ℕ
from_secs s = s * 1_000_000_000

unfoldable pub sweep : ℕ → Sessions → Sessions
sweep now m = retain_entries (λ _ s. ltb now s.expires_at) m

-- `swept` is the reading that the sweep makes, `now` the one that dates the new session.
unfoldable pub insert : ℕ → ℕ → String → String → String → String → ℕ → Sessions → Sessions
unfolding sweep
insert swept now session_code device_code token_endpoint client_state ttl m =
    put session_code
      (record {
        device_code = device_code;
        token_endpoint = token_endpoint;
        client_state = client_state;
        expires_at = now + ttl;
      })
      (sweep swept m)

-- the closure that `resolve` runs on the session it finds
abbrev pub checked : ℕ → String → Option Session → Option (String × String)
checked now client_state none = none
checked now client_state (some s) =
    if s.client_state == client_state && ltb now s.expires_at
    then some (s.device_code, s.token_endpoint)
    else none

unfoldable pub resolve : ℕ → ℕ → String → String → Sessions → Option (String × String) × Sessions
unfolding sweep
resolve swept now session_code client_state m =
    let m' = sweep swept m in (checked now client_state (m' session_code), m')

unfoldable pub remove : String → Sessions → Sessions
remove session_code m = delete session_code m
