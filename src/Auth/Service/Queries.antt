-- ===== src/Auth/Service/Queries.antt =====
-- The two queries of loreserver to kaguya-auth, `check_user_permission` and
-- `lookup_user_permissions` of auth/src/main.rs, as calls: what they answer, and that they agree.
use mathlib.Core.List.{Perm}
use kaguya.Base.{
  String, ◌≡◌, ◌≢◌, ◌↔◌, ◌⊎◌, inl, inr, true, false, Option, none, some, List, [], ◌∷◌, map, ok,
  err, arith, refl, contains, All, Any, Option-cases, Result-cases, Bool-cases, eq_iff,
}
use kaguya.Auth.Store.{Role, Tables, permissions, role_for, accessible}
use kaguya.Auth.Store.Reads.{Reading, whole, read_role, read_role-whole, read_accessible-whole}
use kaguya.Auth.Store.Statements.{IsValid}
use kaguya.Auth.Store.Validity.{accessible-role_for_iff}
use kaguya.Auth.Crates.{Crates}
use kaguya.Auth.Server.{Status, status, unauthenticated, ResourcePermission, grant, Server, caller}
use kaguya.Auth.Service.{Auth, CheckUserPermissionResponse}
use kaguya.Auth.Service.Reads.{
  check_reads, list_reads, lookup_reads, unwrap_or_member, check_user_permission,
  lookup_user_permissions,
}
use kaguya.Auth.Service.Scope.{
  check_ids, lookup_permissions, answered, IsDenied, IsDistinct, check_ids-perm,
  lookup_permissions_lem, check_ids_missing, check_ids_found,
}

abbrev pub ids_of : List ResourcePermission → List String
ids_of = map (λ p. p.resource_id)

-- The answers to the two queries of a subject, on the same tables.
pub record IsSeen (sub : String) (t : Tables) (ids : List String) (r : CheckUserPermissionResponse)
    (listed : List ResourcePermission) : Type 0 where
  -- every id that is asked for is answered once, among the allowed or among the denied
  pub each_once : Perm (answered r) ids
  -- what is allowed is in the listing, with the same permissions
  pub allowed : All (λ p. Any (λ q. q ≡ p) listed) r.allowed
  -- what is denied is not, and carries no permission
  pub denied :
      All (λ p. (contains (ids_of listed) p.resource_id ≡ false) × (p.permission ≡ [])) r.denied
  -- the listing has each resource that the subject has a role on, once, and no other
  pub distinct : IsDistinct (ids_of listed)
  pub held : (id : String) → (contains (ids_of listed) id ≡ true) ↔ (role_for sub id t ≢ none)
  -- with the permissions of that role
  pub entries :
      All
        (λ p.
          (role : Role) × (role_for sub p.resource_id t ≡ some role)
          × (p.permission ≡ permissions role))
        listed

listed_there :
    (sub : String) (t : Tables) (x : String) (xs : List String)
    → contains xs x ≡ true
    → Any
        (λ q. q ≡ grant x (unwrap_or_member (role_for sub x t)))
        (map (λ id. grant id (unwrap_or_member (role_for sub id t))) xs)
unfolding contains
listed_there sub t x [] h = cc
listed_there sub t x (y ∷ ys) h = elim (contains_split h) [
  | inl same ↦ inl (rw same refl)
  | inr later ↦ inr (listed_there sub t x ys later)
]
  where
    contains_split : contains (y ∷ ys) x ≡ true → (y ≡ x) ⊎ (contains ys x ≡ true)
    contains_split k = ground (arith, eq_iff y x)

check_ids-allowed :
    (sub : String) (t : Tables) (ids : List String)
    → IsValid t
    → All (λ p. Any (λ q. q ≡ p) (lookup_permissions sub t)) (check_ids sub t ids).allowed
unfolding check_ids lookup_permissions
check_ids-allowed sub t [] v = tt
check_ids-allowed sub t (x ∷ ids) v = elim (Option-cases (role_for sub x t)) [
  | inl missing ↦ rw (check_ids_missing sub t x ids missing) (check_ids-allowed sub t ids v)
  | inr (role, found) ↦
      let there : contains (accessible sub t) x ≡ true =
        (accessible-role_for_iff sub x t v).1 (λ e. cc) in
      rw (check_ids_found sub t x ids found)
        (rw found at (listed_there sub t x (accessible sub t) there), check_ids-allowed sub t ids v)
]

denied_unlisted :
    (sub : String) (t : Tables) (ps : List ResourcePermission)
    → IsValid t
    → All (IsDenied sub t) ps
    → All
        (λ p.
          (contains (ids_of (lookup_permissions sub t)) p.resource_id ≡ false)
          × (p.permission ≡ []))
        ps
denied_unlisted sub t [] v _ = tt
denied_unlisted sub t (p ∷ ps) v ((missing, empty), more) =
    let (_, held, _) = lookup_permissions_lem sub t v in
    (
      elim (Bool-cases (contains (ids_of (lookup_permissions sub t)) p.resource_id)) [
        | inl there ↦ absurd ((held p.resource_id).0 there missing)
        | inr absent ↦ (absent, empty)
      ],
      denied_unlisted sub t ps v more,
    )

answers-IsSeen :
    (sub : String) (t : Tables) (ids : List String)
    → IsValid t
    → IsSeen sub t ids (check_ids sub t ids) (lookup_permissions sub t)
answers-IsSeen sub t ids v =
    let (perm, refused) = check_ids-perm sub t ids in
    let (once, held, entries) = lookup_permissions_lem sub t v in
    record {
      each_once = perm;
      allowed = check_ids-allowed sub t ids v;
      denied = denied_unlisted sub t (check_ids sub t ids).denied v refused;
      distinct = once;
      held = held;
      entries = entries;
    }

-- the same tables found for each of the ids, with nothing failing
abbrev pub wholes : Tables → List String → List (String × Reading)
wholes t [] = []
wholes t (id ∷ ids) = (id, whole t) ∷ wholes t ids

check_reads-wholes :
    (sub : String) (t : Tables) (ids : List String)
    → check_reads sub (wholes t ids) ≡ some (check_ids sub t ids)
unfolding check_reads check_ids
check_reads-wholes sub t [] = refl
check_reads-wholes sub t (x ∷ ids) = elim (Option-cases (role_for sub x t)) [
  | inl missing ↦
      rw
        (
          read_role-whole sub x t,
          check_reads-wholes sub t ids,
          missing,
          check_ids_missing sub t x ids missing,
        )
        refl
  | inr (role, found) ↦
      rw
        (
          read_role-whole sub x t,
          check_reads-wholes sub t ids,
          found,
          check_ids_found sub t x ids found,
        )
        refl
]

list_reads-whole :
    (sub : String) (t : Tables) (xs : List String)
    → list_reads sub (λ _. whole t) xs
      ≡ some (map (λ id. grant id (unwrap_or_member (role_for sub id t))) xs)
unfolding list_reads
list_reads-whole sub t [] = refl
list_reads-whole sub t (x ∷ xs) = rw (read_role-whole sub x t, list_reads-whole sub t xs) refl

lookup_reads-whole :
    (sub : String) (t : Tables)
    → lookup_reads sub (whole t) (λ _. whole t) ≡ some (lookup_permissions sub t)
unfolding lookup_reads lookup_permissions
lookup_reads-whole sub t =
    rw (read_accessible-whole sub t) (list_reads-whole sub t (accessible sub t))

-- The entry has the permissions of the role that was found when it was read, or those of a member if
-- there was none any more.
abbrev pub IsListed : String → (String → Reading) → ResourcePermission → Type 0
IsListed sub later p =
    (role : Option Role) × (read_role sub p.resource_id (later p.resource_id) ≡ some role)
    × (p.permission ≡ permissions (unwrap_or_member role))

module _ (c : Crates) where
  -- The two queries answer the same caller alike, on valid tables (see `Reach-IsValid`), if no other
  -- call changes these between the SELECTs of the two, and SQLite fails none of them. Without an
  -- accepted token both are `unauthenticated`. Otherwise both answer, for the token's subject: of the
  -- ids that `check_user_permission` is asked for each is answered once, those allowed are in the
  -- listing of `lookup_user_permissions` with the same permissions, and those denied are not and
  -- carry none; and the listing has each resource that the subject has a role on, once, and no other,
  -- with the permissions of that role: its fallback to Member is then not taken.
  pub queries_answer :
      (a : Auth c) (authorization : Option String) (ids : List String) (s : Server c)
      → IsValid s.store.tables
      → ((r : Status) × ((caller c a.identity authorization s).0 ≡ err r)
          × ((check_user_permission c a authorization (wholes s.store.tables ids) s).0
              ≡ err (status unauthenticated "invalid token"))
          × ((lookup_user_permissions c a authorization
                (whole s.store.tables)
                (λ _. whole s.store.tables)
                s).0
              ≡ err (status unauthenticated "invalid token")))
        ⊎ ((sub : String) × (r : CheckUserPermissionResponse) × (listed : List ResourcePermission)
            × ((caller c a.identity authorization s).0 ≡ ok sub)
            × ((check_user_permission c a authorization (wholes s.store.tables ids) s).0 ≡ ok r)
            × ((lookup_user_permissions c a authorization
                  (whole s.store.tables)
                  (λ _. whole s.store.tables)
                  s).0
                ≡ ok listed)
            × IsSeen sub s.store.tables ids r listed)
  unfolding check_user_permission lookup_user_permissions caller
  queries_answer a authorization ids s v =
      elim (Result-cases (caller c a.identity authorization s).0) [
        | inr (r, refused) ↦ inl (r, refused, ground arith, ground arith)
        | inl (sub, known) ↦ inr (
          sub,
          check_ids sub s.store.tables ids,
          lookup_permissions sub s.store.tables,
          known,
          rw (known, check_reads-wholes sub s.store.tables ids) refl,
          rw (known, lookup_reads-whole sub s.store.tables) refl,
          answers-IsSeen sub s.store.tables ids v,
        )
      ]
