-- ===== src/Auth/Server.antt =====
-- What the handlers of auth/src/main.rs share: the state behind the two services, the status of a
-- failed call, and the caller's bearer.
use kaguya.Base.{
  ℕ, String, Option, none, some, List, ok, Prog, map_err, strip_prefix, ◌≡◌, strip_prefix-append,
}
use Prim.Native.String.{◌++◌ as join}
use kaguya.Auth.Sessions.{Sessions}
use kaguya.Auth.Store.{Store, Role, permissions}
use kaguya.Auth.Crates.{Crates}
use kaguya.Auth.Verify.{Verifying, Identity, subject}

-- the codes that the handlers answer, and `panicked` for a call that panics, which answers none
pub data Code : Type 0 where
  unauthenticated permission_denied not_found internal unimplemented panicked : Code

pub record Status : Type 0 where
  pub code : Code
  pub message : String

abbrev pub status : Code → String → Status
status code message = record { code = code; message = message }

abbrev unwrap_or_empty : Option String → String
unwrap_or_empty none = ""
unwrap_or_empty (some s) = s

abbrev and_then : Option String → (String → Option String) → Option String
and_then none f = none
and_then (some a) f = f a

-- `bearer`, of the request's `authorization` metadata (`none` where it is missing or no text)
unfoldable pub bearer : Option String → String
bearer authorization = unwrap_or_empty (and_then authorization (strip_prefix "Bearer "))

-- The header that the web frontend's `bearer` and `set_bearer` write is read back as the token.
pub bearer-join : (token : String) → bearer (some (join "Bearer " token)) ≡ token
unfolding bearer
bearer-join token = rw (strip_prefix-append "Bearer " token)

-- the messages of `ResourcePermission`, and `grant`
pub record ResourcePermission : Type 0 where
  pub resource_id : String
  pub permission : List String

unfoldable pub grant : String → Role → ResourcePermission
grant resource_id role = record { resource_id = resource_id; permission = permissions role }

module _ (c : Crates) where
  open c use {World, JwkSet, instant}

  -- The state that the handlers share: the ReBAC store, the login sessions, the IdP's cached keys,
  -- and the outside world.
  pub record Server : Type 0 where
    pub store : Store
    pub sessions : Sessions
    pub cached : Option JwkSet
    pub world : World

  abbrev pub in_world : {E A : Type 0} → Prog E World A → Prog E Server A
  in_world m s = let (r, w) = m s.world in (r, record s { world = w })

  abbrev pub in_store : {E A : Type 0} → Prog E Store A → Prog E Server A
  in_store m s = let (r, t) = m s.store in (r, record s { store = t })

  abbrev pub in_verifier : {E A : Type 0} → Prog E (Verifying c) A → Prog E Server A
  in_verifier m s =
      let (r, v) = m (record { cached = s.cached; world = s.world }) in
      (r, record s { cached = v.cached; world = v.world })

  -- `Instant::now`
  abbrev pub read_clock : Prog Status Server ℕ
  read_clock s = let (t, w) = instant s.world in (ok t, record s { world = w })

  -- the caller's subject, or the status that every handler of ReBAC data answers without one
  unfoldable pub caller : Identity c → Option String → Prog Status Server String
  caller i authorization =
      map_err (λ _. status unauthenticated "invalid token")
        (in_verifier (subject c i (bearer authorization)))
