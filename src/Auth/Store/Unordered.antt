-- ===== src/Auth/Store/Unordered.antt =====
-- The statements of auth/src/store.rs on tables with the same rows.
use kaguya.Base.{
  String, ◌≡◌, Bool, arith, ◌==◌, SameRows, any-SameRows, SameRows-retain, SameRows-cons,
}
use kaguya.Auth.Store
use kaguya.Auth.Store.{
  Role, owner, member, Resource, Grant, Membership, Tables, Store, role_for, execute,
  insert_resource, insert_grant, replace_grant, delete_grants, delete_resources, insert_membership,
  delete_memberships,
}

-- the same rows, in whatever order and however often
pub record SameTables (t u : Tables) : Type 0 where
  pub resources : SameRows t.resources u.resources
  pub grants : SameRows t.grants u.grants
  pub group_members : SameRows t.group_members u.group_members

-- and the same answers of SQLite to come
pub record SameStore (s t : Store) : Type 0 where
  pub tables : SameTables s.tables t.tables
  pub outcomes : s.outcomes ≡ t.outcomes

pub insert_resource-SameTables :
    (r : Resource) (t u : Tables)
    → SameTables t u
    → SameTables (insert_resource r t).0 (insert_resource r u).0
      × ((insert_resource r t).1 ≡ (insert_resource r u).1)
unfolding insert_resource
insert_resource-SameTables r t u same = ground (
  arith,
  any-SameRows (λ x. x.urc_id == r.urc_id) t.resources u.resources same.resources,
  SameRows-cons r t.resources u.resources same.resources,
)

pub insert_grant-SameTables :
    (g : Grant) (t u : Tables)
    → SameTables t u
    → SameTables (insert_grant g t).0 (insert_grant g u).0
unfolding insert_grant
insert_grant-SameTables g t u same = ground (
  arith,
  any-SameRows (Store.at_key g.subject g.urc_id) t.grants u.grants same.grants,
  SameRows-cons g t.grants u.grants same.grants,
)

pub replace_grant-SameTables :
    (g : Grant) (t u : Tables)
    → SameTables t u
    → SameTables (replace_grant g t).0 (replace_grant g u).0
unfolding replace_grant
replace_grant-SameTables g t u same = record {
  resources = same.resources;
  grants = SameRows-cons g _ _ (SameRows-retain _ t.grants u.grants same.grants);
  group_members = same.group_members;
}

pub delete_grants-SameTables :
    (p : Grant → Bool) (t u : Tables)
    → SameTables t u
    → SameTables (delete_grants p t).0 (delete_grants p u).0
unfolding delete_grants
delete_grants-SameTables p t u same = record {
  resources = same.resources;
  grants = SameRows-retain _ t.grants u.grants same.grants;
  group_members = same.group_members;
}

pub delete_resources-SameTables :
    (urc_id : String) (t u : Tables)
    → SameTables t u
    → SameTables (delete_resources urc_id t).0 (delete_resources urc_id u).0
unfolding delete_resources
delete_resources-SameTables urc_id t u same = record {
  resources = SameRows-retain _ t.resources u.resources same.resources;
  grants = same.grants;
  group_members = same.group_members;
}

pub insert_membership-SameTables :
    (m : Membership) (t u : Tables)
    → SameTables t u
    → SameTables (insert_membership m t).0 (insert_membership m u).0
unfolding insert_membership
insert_membership-SameTables m t u same = ground (
  arith,
  any-SameRows (Store.is_membership m.grp m.subject) t.group_members u.group_members
      same.group_members,
  SameRows-cons m t.group_members u.group_members same.group_members,
)

pub delete_memberships-SameTables :
    (grp subject : String) (t u : Tables)
    → SameTables t u
    → SameTables (delete_memberships grp subject t).0 (delete_memberships grp subject u).0
unfolding delete_memberships
delete_memberships-SameTables grp subject t u same = record {
  resources = same.resources;
  grants = same.grants;
  group_members = SameRows-retain _ t.group_members u.group_members same.group_members;
}
