-- ===== src/Auth/Rebac.antt =====
-- `impl RebacApi for Rebac` of auth/src/main.rs.
pub mod Guards
use kaguya.Base.{
  ℕ, String, Bool, true, false, Option, none, some, Result, ok, err, Prog, pure, raise, gets, ◌>>=◌,
  ◌>>◌, map_err, if◌then◌else◌,
}
use kaguya.Auth.Store
use kaguya.Auth.Store.{Role, owner, member, role_for}
use kaguya.Auth.Crates.{Crates}
use kaguya.Auth.Verify.{Identity}
use kaguya.Auth.Keys.{now_secs}
use kaguya.Auth.Server.{
  Status, status, permission_denied, internal, Server, in_world, in_store, caller,
}

-- `== Some(Role::Owner)`
abbrev pub is_owner : Option Role → Bool
is_owner (some owner) = true
is_owner _ = false

module _ (c : Crates) where
  unfoldable pub create_resource :
      Identity c → Option String → String → String → Prog Status (Server c) Unit
  create_resource i authorization resource_id resource_name = do
    sub ← caller c i authorization
    now ← map_err (λ _. status internal "store error") (in_world c (now_secs c))
    map_err (λ _. status internal "store error")
        (in_store c (Store.record_owner now sub resource_id resource_name))

  unfoldable pub delete_resource : Identity c → Option String → String → Prog Status (Server c) Unit
  delete_resource i authorization resource_id = do
    sub ← caller c i authorization
    role ← gets (λ s. role_for sub resource_id s.store.tables)
    if is_owner role
        then map_err (λ _. status internal "store error")
            (in_store c (Store.delete_resource resource_id))
        else raise (status permission_denied "not an owner of this resource")
