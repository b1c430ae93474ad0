-- ===== src/Auth/Service/Reads.antt =====
-- The calls of auth/src/main.rs that query the store, with what each of their SELECTs finds: each is
-- made under a lock of its own, so that other calls may change the tables in between, and SQLite may
-- fail it (Auth/Store/Reads).
use kaguya.Base.{
  String, Option, none, some, List, [], ◌∷◌, Result, ok, err, Prog, raise, lift, ◌>>=◌, map_err,
  is_empty, if◌then◌else◌,
}
use kaguya.Auth.Store.{Role, member, permissions}
use kaguya.Auth.Store.Reads.{Reading, read_role, read_accessible}
use kaguya.Auth.Claims.{ResourceGrant}
use kaguya.Auth.Crates.{Crates}
use kaguya.Auth.Verify.{claims}
use kaguya.Auth.Server.{
  Status, status, unauthenticated, panicked, bearer, ResourcePermission, grant, Server, in_verifier,
  caller,
}
use kaguya.Auth.Service.{Auth, UserToken, CheckUserPermissionResponse, issue}

-- one round of the loop of `check_user_permission`, before what the later ones answer
abbrev answer_id :
    String
    → Option (Option Role)
    → Option CheckUserPermissionResponse
    → Option CheckUserPermissionResponse
answer_id id none rest = none
answer_id id (some _) none = none
answer_id id (some (some role)) (some rest) =
    some (record rest { allowed = grant id role ∷ rest.allowed })
answer_id id (some none) (some rest) =
    some (record rest { denied = record { resource_id = id; permission = [] } ∷ rest.denied })

-- the loop, over the ids and what is found for each; `none` is a panic
unfoldable pub check_reads : String → List (String × Reading) → Option CheckUserPermissionResponse
check_reads sub [] = some (record { allowed = []; denied = [] })
check_reads sub ((id, r) ∷ reads) = answer_id id (read_role sub id r) (check_reads sub reads)

abbrev pub unwrap_or_member : Option Role → Role
unwrap_or_member none = member
unwrap_or_member (some role) = role

abbrev list_id :
    String
    → Option (Option Role)
    → Option (List ResourcePermission)
    → Option (List ResourcePermission)
list_id id none rest = none
list_id id (some _) none = none
list_id id (some role) (some rest) = some (grant id (unwrap_or_member role) ∷ rest)

-- the ids listed, and what is found for each when its role is read; no id is listed twice
unfoldable pub list_reads :
    String → (String → Reading) → List String → Option (List ResourcePermission)
list_reads sub later [] = some []
list_reads sub later (id ∷ ids) =
    list_id id (read_role sub id (later id)) (list_reads sub later ids)

abbrev list_all :
    String → (String → Reading) → Option (List String) → Option (List ResourcePermission)
list_all sub later none = none
list_all sub later (some ids) = list_reads sub later ids

-- the listing of `lookup_user_permissions`: the SELECT of `accessible`, and one for each id
unfoldable pub lookup_reads :
    String → Reading → (String → Reading) → Option (List ResourcePermission)
lookup_reads sub first later = list_all sub later (read_accessible sub first)

abbrev pub scope_id :
    String → Option (Option Role) → Option (List ResourceGrant) → Option (List ResourceGrant)
scope_id id none rest = none
scope_id id (some _) none = none
scope_id id (some (some role)) (some rest) =
    some (record { resource_id = id; permission = permissions role } ∷ rest)
scope_id id (some none) (some rest) = some rest

-- the closure of the exchange, over the requested ids and what is found for each
unfoldable pub scoped_reads : String → List (String × Reading) → Option (List ResourceGrant)
scoped_reads sub [] = some []
scoped_reads sub ((id, r) ∷ reads) = scope_id id (read_role sub id r) (scoped_reads sub reads)

abbrev pub or_panic : {A : Type 0} → Option A → Result Status A
or_panic none = err (status panicked "")
or_panic (some x) = ok x

module _ (c : Crates) where
  unfoldable pub check_user_permission :
      Auth c
      → Option String
      → List (String × Reading)
      → Prog Status (Server c) CheckUserPermissionResponse
  check_user_permission a authorization reads = do
    sub ← caller c a.identity authorization
    lift (or_panic (check_reads sub reads))

  unfoldable pub lookup_user_permissions :
      Auth c
      → Option String
      → Reading
      → (String → Reading)
      → Prog Status (Server c) (List ResourcePermission)
  lookup_user_permissions a authorization first later = do
    sub ← caller c a.identity authorization
    lift (or_panic (lookup_reads sub first later))

  -- `exchange_user_token_for_multiresource_token`
  unfoldable pub exchange_reads :
      Auth c → Option String → List (String × Reading) → Prog Status (Server c) UserToken
  exchange_reads a authorization reads =
      let presented : String = bearer authorization in
      if is_empty presented then raise (status unauthenticated "missing bearer token") else do
        found ←
            map_err (λ _. status unauthenticated "invalid identity token")
              (in_verifier c (claims c a.identity presented))
        resources ← lift (or_panic (scoped_reads found.sub reads))
        issue c a found.sub found resources
