-- ===== src/Auth/Store/Statements.antt =====
-- What keeps the tables of auth/src/store.rs valid, and each SQL statement of the file against it.
use kaguya.Base.{
  String, ◌≡◌, ◌≢◌, Bool, false, not, ◌==◌, none, some, List, [], ◌∷◌, arith, refl, retain, any,
  All, All-retain,
}
use kaguya.Auth.Store.{
  Role, owner, member, Resource, Grant, Membership, Tables, as_str, parse, at_key, is_membership,
  insert_resource, insert_grant, replace_grant, delete_grants, delete_resources, insert_membership,
  delete_memberships,
}

-- No two rows have one key.
abbrev pub HasKeys {ℓ} : {A : Type ℓ} → (A → A → Bool) → List A → Type 0
HasKeys same [] = Unit
HasKeys same (x ∷ xs) = (any (same x) xs ≡ false) × HasKeys same xs

abbrev pub same_resource : Resource → Resource → Bool
same_resource x y = y.urc_id == x.urc_id

abbrev pub same_grant : Grant → Grant → Bool
same_grant x y = at_key x.subject x.urc_id y

abbrev pub same_membership : Membership → Membership → Bool
same_membership x y = is_membership x.grp x.subject y

abbrev pub HasRole : Grant → Type 0
HasRole g = parse g.role ≢ none

pub record IsValid (t : Tables) : Type 0 where
  pub resource_keys : HasKeys same_resource t.resources
  pub grant_keys : HasKeys same_grant t.grants
  pub membership_keys : HasKeys same_membership t.group_members
  pub roles : All HasRole t.grants

pub any-retain {ℓ} :
    {A : Type ℓ} (p q : A → Bool) (xs : List A) → any p xs ≡ false → any p (retain q xs) ≡ false
unfolding any retain
any-retain p q [] h = refl
any-retain p q (x ∷ xs) h = ground (arith, any-retain p q xs)

pub HasKeys-retain {ℓ} :
    {A : Type ℓ} (same : A → A → Bool) (q : A → Bool) (xs : List A)
    → HasKeys same xs
    → HasKeys same (retain q xs)
unfolding retain
HasKeys-retain same q [] h = tt
HasKeys-retain same q (x ∷ xs) h =
    ground (arith, HasKeys-retain same q xs, any-retain (same x) q xs)

pub any-retain-not {ℓ} :
    {A : Type ℓ} (p : A → Bool) (xs : List A) → any p (retain (λ x. not (p x)) xs) ≡ false
unfolding any retain
any-retain-not p [] = refl
any-retain-not p (x ∷ xs) = ground (arith, any-retain-not p xs)

pub parse-as_str : (r : Role) → parse (as_str r) ≡ some r
unfolding parse as_str
parse-as_str owner = refl
parse-as_str member = refl

pub insert_resource-IsValid :
    (r : Resource) (t : Tables) → IsValid t → IsValid (insert_resource r t).0
unfolding insert_resource
insert_resource-IsValid r t v = ground arith

pub insert_grant-IsValid :
    (g : Grant) (t : Tables) → HasRole g → IsValid t → IsValid (insert_grant g t).0
unfolding insert_grant
insert_grant-IsValid g t h v = ground arith

pub replace_grant-IsValid :
    (g : Grant) (t : Tables) → HasRole g → IsValid t → IsValid (replace_grant g t).0
unfolding replace_grant
replace_grant-IsValid g t h v =
    let q = λ (x : Grant). not (at_key g.subject g.urc_id x) in
    record {
      resource_keys = v.resource_keys;
      grant_keys = (
        any-retain-not (same_grant g) t.grants,
        HasKeys-retain same_grant q t.grants v.grant_keys,
      );
      membership_keys = v.membership_keys;
      roles = (h, All-retain HasRole q t.grants v.roles);
    }

pub delete_grants-IsValid :
    (p : Grant → Bool) (t : Tables) → IsValid t → IsValid (delete_grants p t).0
unfolding delete_grants
delete_grants-IsValid p t v = record {
  resource_keys = v.resource_keys;
  grant_keys = HasKeys-retain same_grant _ t.grants v.grant_keys;
  membership_keys = v.membership_keys;
  roles = All-retain HasRole _ t.grants v.roles;
}

pub delete_resources-IsValid :
    (u : String) (t : Tables) → IsValid t → IsValid (delete_resources u t).0
unfolding delete_resources
delete_resources-IsValid u t v = record {
  resource_keys = HasKeys-retain same_resource _ t.resources v.resource_keys;
  grant_keys = v.grant_keys;
  membership_keys = v.membership_keys;
  roles = v.roles;
}

pub insert_membership-IsValid :
    (m : Membership) (t : Tables) → IsValid t → IsValid (insert_membership m t).0
unfolding insert_membership
insert_membership-IsValid m t v = ground arith

pub delete_memberships-IsValid :
    (grp subject : String) (t : Tables) → IsValid t → IsValid (delete_memberships grp subject t).0
unfolding delete_memberships
delete_memberships-IsValid grp subject t v = record {
  resource_keys = v.resource_keys;
  grant_keys = v.grant_keys;
  membership_keys = HasKeys-retain same_membership _ t.group_members v.membership_keys;
  roles = v.roles;
}
