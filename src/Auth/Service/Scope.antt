-- ===== src/Auth/Service/Scope.antt =====
-- What a caller is shown and granted: `check_user_permission`, `lookup_user_permissions` and the
-- scope of the exchange in auth/src/main.rs, over the tables of the store.
use kaguya.Base.{
  String, ◌≡◌, ◌≢◌, ◌↔◌, ◌⊎◌, inl, inr, true, false, eq_iff, none, some, List, [], ◌∷◌, ◌++◌, map,
  arith, refl, contains, All, Any, Option-cases, ap,
}
use mathlib.Core.List.{Perm, perm_middle}
use mathlib.Core.List.Perm
use kaguya.Auth.Store.{Role, Tables, permissions, role_for, accessible, distinct}
use kaguya.Auth.Store.Statements.{IsValid}
use kaguya.Auth.Store.Validity.{accessible-role_for_iff}
use kaguya.Auth.Claims.{ResourceGrant}
use kaguya.Auth.Server.{ResourcePermission, grant}
use kaguya.Auth.Service.{CheckUserPermissionResponse, scoped}
use kaguya.Auth.Service.Reads.{unwrap_or_member}

-- The answers of `check_user_permission` and `lookup_user_permissions` where the tables stay as they
-- are throughout the call, and no SELECT fails.
unfoldable pub check_ids : String → Tables → List String → CheckUserPermissionResponse
check_ids sub t [] = record { allowed = []; denied = [] }
check_ids sub t (id ∷ ids) =
    let rest = check_ids sub t ids in
    elim (role_for sub id t) [
      | some role ↦ record rest { allowed = grant id role ∷ rest.allowed }
      | none ↦ record rest { denied = record { resource_id = id; permission = [] } ∷ rest.denied }
    ]

unfoldable pub lookup_permissions : String → Tables → List ResourcePermission
lookup_permissions sub t =
    map (λ id. grant id (unwrap_or_member (role_for sub id t))) (accessible sub t)

abbrev pub as_permission : ResourceGrant → ResourcePermission
as_permission g = record { resource_id = g.resource_id; permission = g.permission }

-- The entry is for this resource, with these permissions.
abbrev pub IsFor : String → List String → ResourceGrant → Type 0
IsFor id perms g = (g.resource_id ≡ id) × (g.permission ≡ perms)

-- The resource has been asked for, and the subject has a role on it with these permissions.
abbrev pub IsDue : String → Tables → List String → String → List String → Type 0
IsDue sub t ids id perms =
    (contains ids id ≡ true)
    × ((role : Role) × (role_for sub id t ≡ some role) × (permissions role ≡ perms))

module _ (sub : String) (t : Tables) (x : String) (ids : List String) (id : String)
    (perms : List String) where
  contains_there : contains ids id ≡ true → contains (x ∷ ids) id ≡ true
  unfolding contains
  contains_there h = ground arith

  contains_here : x ≡ id → contains (x ∷ ids) id ≡ true
  unfolding contains
  contains_here h = ground (arith, eq_iff x id)

  contains_cases : contains (x ∷ ids) id ≡ true → (x ≡ id) ⊎ (contains ids id ≡ true)
  unfolding contains
  contains_cases h = ground (arith, eq_iff x id)

  pub scoped_missing : role_for sub x t ≡ none → scoped sub t (x ∷ ids) ≡ scoped sub t ids
  unfolding scoped
  scoped_missing missing = ground arith

  pub scoped_found :
      {role : Role}
      → role_for sub x t ≡ some role
      → scoped sub t (x ∷ ids)
        ≡ record { resource_id = x; permission = permissions role } ∷ scoped sub t ids
  unfolding scoped
  scoped_found found = ground arith

  module _ (ih : Any (IsFor id perms) (scoped sub t ids) ↔ IsDue sub t ids id perms) where
    skip_iff :
        role_for sub x t ≡ none
        → Any (IsFor id perms) (scoped sub t ids) ↔ IsDue sub t (x ∷ ids) id perms
    skip_iff missing = (
      λ h. (contains_there (ih.0 h).0, (ih.0 h).1),
      λ d. elim (contains_cases d.0) [
        | inl same ↦ absurd (ground (arith, d.1))
        | inr later ↦ ih.1 (later, d.1)
      ],
    )

    take_to :
        {role : Role}
        → role_for sub x t ≡ some role
        → (x ≡ id) × (permissions role ≡ perms) ⊎ Any (IsFor id perms) (scoped sub t ids)
        → IsDue sub t (x ∷ ids) id perms
    take_to {role} found (inl (same, p)) = (contains_here same, (role, ground arith, p))
    take_to found (inr later) = (contains_there (ih.0 later).0, (ih.0 later).1)

    take_from :
        {role : Role}
        → role_for sub x t ≡ some role
        → IsDue sub t (x ∷ ids) id perms
        → (x ≡ id) × (permissions role ≡ perms) ⊎ Any (IsFor id perms) (scoped sub t ids)
    take_from {role} found (asked, (r, f, p)) = elim (contains_cases asked) [
      | inl same ↦ inl (same, ground arith)
      | inr later ↦ inr (ih.1 (later, (r, f, p)))
    ]

-- The exchange puts an entry into the token exactly for the requested resources that the subject
-- has a role on, with the permissions of that role: no more, no less.
pub scoped_iff :
    (sub : String) (t : Tables) (ids : List String) (id : String) (perms : List String)
    → Any (IsFor id perms) (scoped sub t ids) ↔ IsDue sub t ids id perms
unfolding scoped contains
scoped_iff sub t [] id perms = (λ h. absurd h, λ h. cc (h.0))
scoped_iff sub t (x ∷ ids) id perms =
    let ih = scoped_iff sub t ids id perms in
    elim (Option-cases (role_for sub x t)) [
      | inl missing ↦
          rw (scoped_missing sub t x ids id perms missing)
            (skip_iff sub t x ids id perms ih missing)
      | inr (role, found) ↦
          rw (scoped_found sub t x ids id perms found)
            (take_to sub t x ids id perms ih found, take_from sub t x ids id perms ih found)
    ]

-- The exchange and the permission check agree: what the token would carry for a list of resources
-- is what `check_user_permission` allows on it, in the same order.
scoped-check_ids :
    (sub : String) (t : Tables) (ids : List String)
    → map as_permission (scoped sub t ids) ≡ (check_ids sub t ids).allowed
unfolding scoped check_ids grant
scoped-check_ids sub t [] = refl
scoped-check_ids sub t (x ∷ ids) = ground (arith, scoped-check_ids sub t ids)

-- the ids of an answer, the allowed first
abbrev pub answered : CheckUserPermissionResponse → List String
answered r = map (λ p. p.resource_id) r.allowed ++ map (λ p. p.resource_id) r.denied

abbrev pub IsDenied : String → Tables → ResourcePermission → Type 0
IsDenied sub t p = (role_for sub p.resource_id t ≡ none) × (p.permission ≡ [])

pub check_ids_missing :
    (sub : String) (t : Tables) (x : String) (ids : List String)
    → role_for sub x t ≡ none
    → check_ids sub t (x ∷ ids) ≡ record (check_ids sub t ids) {
      denied = record { resource_id = x; permission = [] } ∷ (check_ids sub t ids).denied;
    }
unfolding check_ids
check_ids_missing sub t x ids missing = ground arith

pub check_ids_found :
    (sub : String) (t : Tables) (x : String) (ids : List String) {role : Role}
    → role_for sub x t ≡ some role
    → check_ids sub t (x ∷ ids)
      ≡ record (check_ids sub t ids) { allowed = grant x role ∷ (check_ids sub t ids).allowed }
unfolding check_ids
check_ids_found sub t x ids found = ground arith

-- Every resource that is asked for is answered once, among the allowed or among the denied; those
-- denied are ones without a role, and carry no permission.
pub check_ids-perm :
    (sub : String) (t : Tables) (ids : List String)
    → Perm (answered (check_ids sub t ids)) ids × All (IsDenied sub t) (check_ids sub t ids).denied
unfolding check_ids grant
check_ids-perm sub t [] = (Perm.refl [], tt)
check_ids-perm sub t (x ∷ ids) =
    let (perm, refused) = check_ids-perm sub t ids in
    elim (Option-cases (role_for sub x t)) [
      | inl missing ↦ rw (check_ids_missing sub t x ids missing) (
        Perm.trans (perm_middle (map (λ p. p.resource_id) (check_ids sub t ids).allowed) _)
            (Perm.cons x perm),
        ((missing, refl), refused),
      )
      | inr (role, found) ↦ rw (check_ids_found sub t x ids found) (Perm.cons x perm, refused)
    ]

-- the listing has no resource twice
abbrev pub IsDistinct : List String → Type 0
IsDistinct [] = Unit
IsDistinct (x ∷ xs) = (contains xs x ≡ false) × IsDistinct xs

distinct-IsDistinct : (xs : List String) → IsDistinct (distinct xs)
unfolding distinct
distinct-IsDistinct [] = tt
distinct-IsDistinct (x ∷ xs) = ground (arith, distinct-IsDistinct xs)

lookup_ids :
    (sub : String) (t : Tables) (xs : List String)
    → map (λ p. p.resource_id) (map (λ id. grant id (unwrap_or_member (role_for sub id t))) xs) ≡ xs
unfolding grant
lookup_ids sub t [] = refl
lookup_ids sub t (x ∷ xs) = ap (◌∷◌ x) (lookup_ids sub t xs)

lookup_entries :
    (sub : String) (t : Tables) (xs : List String)
    → ((id : String) → contains xs id ≡ true → role_for sub id t ≢ none)
    → All
        (λ p.
          (role : Role) × (role_for sub p.resource_id t ≡ some role)
          × (p.permission ≡ permissions role))
        (map (λ id. grant id (unwrap_or_member (role_for sub id t))) xs)
unfolding grant contains
lookup_entries sub t [] h = tt
lookup_entries sub t (x ∷ xs) h = elim (Option-cases (role_for sub x t)) [
  | inl missing ↦ absurd (h x (ground (arith, eq_iff x x)) missing)
  | inr (role, found) ↦
      ((role, found, ground arith), lookup_entries sub t xs (λ id k. h id (ground arith)))
]

-- In valid tables the listing of `lookup_user_permissions` has each resource that the caller has a
-- role on, once, and no other, with the permissions of that role: its fallback to Member is never
-- taken.
pub lookup_permissions_lem :
    (sub : String) (t : Tables)
    → IsValid t
    → IsDistinct (map (λ p. p.resource_id) (lookup_permissions sub t))
      × ((id : String)
          → (contains (map (λ p. p.resource_id) (lookup_permissions sub t)) id ≡ true)
            ↔ (role_for sub id t ≢ none))
      × All
          (λ p.
            (role : Role) × (role_for sub p.resource_id t ≡ some role)
            × (p.permission ≡ permissions role))
          (lookup_permissions sub t)
unfolding lookup_permissions
lookup_permissions_lem sub t v = (
  rw (lookup_ids sub t (accessible sub t)) (unfold accessible in distinct-IsDistinct _),
  λ id. rw (lookup_ids sub t (accessible sub t)) (accessible-role_for_iff sub id t v),
  lookup_entries sub t (accessible sub t) (λ id k. (accessible-role_for_iff sub id t v).0 k),
)
