-- ===== src/Auth/Tests/Tables.antt =====
-- Runs on small tables of the store of auth/src/store.rs.
use mathlib.Core.Quot
use mathlib.Core.List.{Perm}
use kaguya.Auth.Store.Listed.{shown, IsAscending, list_grants-perm}
use kaguya.Base.{
  true, arith, ◌≡◌, ◌==◌, ◌↔◌, none, some, List, [], ◌∷◌, refl, err, any, contains, retain, Any,
  map,
}
use kaguya.Auth.Store
use kaguya.Auth.Store.{
  Role, owner, member, Tables, at_key, role_for, is_selected, is_held, groups_of, best_of, stronger,
  parse, as_str, permissions, record_owner, delete_resource, list_grants,
}
use kaguya.Auth.Store.Access.{Gives, role_for-eq-owner_iff}
use kaguya.Auth.Store.Contents.{contents, run-contents}
use kaguya.Auth.Store.Reads.{gives, AtMost, read_role-AtMost}
use kaguya.Auth.Store.Runs.{Operation, run}
use kaguya.Auth.Store.Statements.{IsValid}
use kaguya.Auth.Store.Acl.{acl_of, allow_all, run-acl}
use kaguya.Auth.Store.Owners.{Attempt, attempts, calm, record_owner-orphan, delete_resource-orphan}
use kaguya.Auth.Service.{scoped}
use kaguya.Auth.Service.Scope.{IsFor, IsDue, scoped_iff}

-- ada owns the repository r1, of which the group dev, which bob is in, is a member
abbrev pub tables : Tables
tables = record {
  resources = record { urc_id = "r1"; name = "one"; created_at = 5 } ∷ [];
  grants =
      record { subject = "ada"; urc_id = "r1"; role = "owner" }
      ∷ record { subject = "group:dev"; urc_id = "r1"; role = "member" }
      ∷ [];
  group_members = record { grp = "dev"; subject = "bob" } ∷ [];
}

abbrev pub operations : List Operation
operations =
    Operation.add_group_member "dev" "cleo"
    ∷ Operation.revoke "ada" "r1"
    ∷ Operation.record_owner 7 "bob" "r2" "two"
    ∷ []

ada_owns : role_for "ada" "r1" tables ≡ some owner
unfolding role_for is_held best_of stronger parse groups_of contains retain
ada_owns = refl

bob_writes : role_for "bob" "r1" tables ≡ some member
unfolding role_for is_held best_of stronger parse groups_of contains retain
bob_writes = refl

role_for-eq-owner_iff_example :
    (role_for "ada" "r1" tables ≡ some owner)
    ↔ Any (Gives "ada" "r1" tables.group_members owner) tables.grants
role_for-eq-owner_iff_example = role_for-eq-owner_iff "ada" "r1" tables

pub tables-IsValid : IsValid tables
unfolding any parse
tables-IsValid = record {
  resource_keys = (refl, tt);
  grant_keys = (refl, (refl, tt));
  membership_keys = (refl, tt);
  roles = (λ h. cc, (λ h. cc, tt));
}

run-acl_example :
    acl_of (run operations (record { tables = tables; outcomes = [] })).tables
    ≡ allow_all operations (acl_of tables)
run-acl_example = run-acl operations tables

-- bob is a member of r3, which has no row
abbrev granted_early : Tables
granted_early = record tables {
  grants = record { subject = "bob"; urc_id = "r3"; role = "member" } ∷ [];
}

-- the state in which the first statement is done and the second is not
abbrev failing : Store.Store
failing = record { tables = tables; outcomes = none ∷ some "disk full" ∷ [] }

abbrev again : List Attempt
again =
    record { now = 10; subject = "cleo"; name = "again"; outcomes = some "busy" ∷ [] }
    ∷ record { now = 11; subject = "bob"; name = "three"; outcomes = [] }
    ∷ []

record_owner-orphan_example :
    ((record_owner 9 "bob" "r3" "three" failing).0 ≡ err "disk full")
    × (attempts "r3" again (record_owner 9 "bob" "r3" "three" failing).1.tables ≡ record tables {
      resources = record { urc_id = "r3"; name = "three"; created_at = 9 } ∷ tables.resources;
    })
unfolding any
record_owner-orphan_example =
    record_owner-orphan 9 "bob" "r3" "three" "disk full" [] tables again refl

delete_resource-orphan_example :
    ((delete_resource "r1" failing).0 ≡ err "disk full")
    × (role_for "ada" "r1"
          (record_owner 10 "bob" "r1" "again"
            (calm (delete_resource "r1" failing).1.tables)).1.tables
        ≡ none)
unfolding any
delete_resource-orphan_example =
    delete_resource-orphan 10 "ada" "bob" "r1" "again" "disk full" [] tables refl

list_grants-perm_example :
    Perm (list_grants "r1" tables) (map shown (retain (λ g. g.urc_id == "r1") tables.grants))
    × IsAscending (λ r. r.0) (list_grants "r1" tables)
list_grants-perm_example = list_grants-perm "r1" tables tables-IsValid

-- the row of ada's own grant cannot be read
read_role-AtMost_example : AtMost none (role_for "ada" "r1" tables)
unfolding kaguya.Auth.Store.Reads.read_role kaguya.Auth.Store.Reads.flatten is_held groups_of
    contains retain best_of stronger parse
read_role-AtMost_example =
    read_role-AtMost "ada" "r1" (record { tables = tables; answer = gives (true ∷ []) }) refl

scoped_iff_example :
    Any (IsFor "r1" ("read" ∷ "write" ∷ [])) (scoped "bob" tables ("r1" ∷ "r2" ∷ []))
    ↔ IsDue "bob" tables ("r1" ∷ "r2" ∷ []) "r1" ("read" ∷ "write" ∷ [])
scoped_iff_example = scoped_iff "bob" tables ("r1" ∷ "r2" ∷ []) "r1" ("read" ∷ "write" ∷ [])

-- the same grants in another order, one of them twice
abbrev shuffled : Tables
shuffled = record tables {
  grants =
      record { subject = "group:dev"; urc_id = "r1"; role = "member" }
      ∷ record { subject = "ada"; urc_id = "r1"; role = "owner" }
      ∷ record { subject = "group:dev"; urc_id = "r1"; role = "member" }
      ∷ [];
}

same_contents : contents (calm tables) ≡ contents (calm shuffled)
same_contents = Quot.sound (record {
  tables = record {
    resources = record { forth = λ x at. at; back = λ x at. at };
    grants = record { forth = λ x at. ground arith; back = λ x at. ground arith };
    group_members = record { forth = λ x at. at; back = λ x at. at };
  };
  outcomes = refl;
})

run-contents_example :
    (contents (run operations (calm tables)) ≡ contents (run operations (calm shuffled)))
    × (role_for "bob" "r1" tables ≡ role_for "bob" "r1" shuffled)
    × (role_for "bob" "r1" (run operations (calm tables)).tables
        ≡ role_for "bob" "r1" (run operations (calm shuffled)).tables)
run-contents_example =
    run-contents operations (calm tables) (calm shuffled) "bob" "r1" same_contents
