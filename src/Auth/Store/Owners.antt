-- ===== src/Auth/Store/Owners.antt =====
-- Ownership in auth/src/store.rs: who owns a resource after `record_owner` and `delete_resource`,
-- and what a statement that SQLite fails leaves behind.
use kaguya.Base.{
  ℕ, String, ◌≡◌, true, false, not, ◌==◌, eq_iff, eq_refl, Option, none, some, List, [], ◌∷◌, arith,
  refl, if◌then◌else◌, retain, any, ok, err, inl,
}
use kaguya.Auth.Store.{
  Role, owner, Grant, Membership, Tables, Store, parse, at_key, stronger, is_selected, best_of,
  role_for, insert_resource, insert_grant, delete_grants, delete_resources, record_owner,
  delete_resource,
}
use kaguya.Auth.Store.Access.{role_for-eq-owner_iff}

-- the resource has a row
abbrev pub IsKnown : String → Tables → Type 0
IsKnown urc_id t = any (λ r. r.urc_id == urc_id) t.resources ≡ true

abbrev pub IsUnknown : String → Tables → Type 0
IsUnknown urc_id t = any (λ r. r.urc_id == urc_id) t.resources ≡ false

-- what SQLite carries out in full
abbrev pub calm : Tables → Store
calm t = record { tables = t; outcomes = [] }

record_owner-new :
    (now : ℕ) (subject urc_id name : String) (t : Tables)
    → IsUnknown urc_id t
    → any (at_key subject urc_id) t.grants ≡ false
    → (record_owner now subject urc_id name (calm t)).1.tables ≡ record t {
      resources = record { urc_id = urc_id; name = name; created_at = now } ∷ t.resources;
      grants = record { subject = subject; urc_id = urc_id; role = "owner" } ∷ t.grants;
    }
unfolding record_owner insert_resource insert_grant
record_owner-new now subject urc_id name t new none_yet = ground arith

parse-owner : parse "owner" ≡ some owner
unfolding parse
parse-owner = refl

-- Creating a resource that has no row makes the creator its owner, if no grant on it is made out
-- to the creator yet.
pub record_owner-creator :
    (now : ℕ) (subject urc_id name : String) (t : Tables)
    → IsUnknown urc_id t
    → any (at_key subject urc_id) t.grants ≡ false
    → role_for subject urc_id (record_owner now subject urc_id name (calm t)).1.tables ≡ some owner
record_owner-creator now subject urc_id name t new none_yet =
    rw (record_owner-new now subject urc_id name t new none_yet)
      ((role_for-eq-owner_iff subject urc_id _).1 (inl (refl, inl refl, parse-owner)))

-- Creating a resource that has a row, by whoever, changes no table: ownership cannot be taken.
pub record_owner-known :
    (now : ℕ) (subject urc_id name : String) (t : Tables)
    → IsKnown urc_id t
    → record_owner now subject urc_id name (calm t) ≡ (ok tt, calm t)
unfolding record_owner insert_resource
record_owner-known now subject urc_id name t old = rw old

selected-retain :
    (subject urc_id other : String) (ms : List Membership) (gs : List Grant) (best : Option Role)
    → best_of best
        (retain (is_selected subject other ms) (retain (λ g. not (g.urc_id == urc_id)) gs))
      ≡ (if other == urc_id then best else best_of best (retain (is_selected subject other ms) gs))
unfolding retain best_of
selected-retain subject urc_id other ms [] best = ground arith
selected-retain subject urc_id other ms (g ∷ gs) best = ground (
  arith,
  eq_iff g.urc_id urc_id,
  eq_iff g.urc_id other,
  eq_iff other urc_id,
  selected-retain subject urc_id other ms gs best,
  selected-retain subject urc_id other ms gs (stronger best (parse g.role)),
)

-- After a deletion nobody has a role on the resource, and every role on another one is as it was.
pub role_for-delete_resource :
    (subject urc_id other : String) (t : Tables)
    → role_for subject other (delete_resource urc_id (calm t)).1.tables
      ≡ (if other == urc_id then none else role_for subject other t)
unfolding role_for delete_resource delete_grants delete_resources
role_for-delete_resource subject urc_id other t =
    selected-retain subject urc_id other t.group_members t.grants none

-- a later call of `record_owner` on one resource: when, by whom, under which name, and what SQLite
-- answers to its statements
pub record Attempt : Type 0 where
  pub now : ℕ
  pub subject : String
  pub name : String
  pub outcomes : List (Option String)

-- the tables after such calls
unfoldable pub attempts : String → List Attempt → Tables → Tables
attempts urc_id [] t = t
attempts urc_id (x ∷ xs) t =
    attempts urc_id xs
      (record_owner x.now x.subject urc_id x.name
        (record { tables = t; outcomes = x.outcomes })).1.tables

record_owner-kept :
    (urc_id : String) (x : Attempt) (t : Tables)
    → IsKnown urc_id t
    → (record_owner x.now x.subject urc_id x.name
        (record { tables = t; outcomes = x.outcomes })).1.tables
      ≡ t
unfolding record_owner insert_resource
record_owner-kept urc_id x t old =
    elim x.outcomes
      as (λ outcomes.
        (record_owner x.now x.subject urc_id x.name
          (record { tables = t; outcomes = outcomes })).1.tables
        ≡ t) [ [] ↦ rw old refl | none ∷ _ ↦ rw old refl | some e ∷ _ ↦ refl ]

attempts-kept :
    (urc_id : String) (xs : List Attempt) (t : Tables) → IsKnown urc_id t → attempts urc_id xs t ≡ t
unfolding attempts
attempts-kept urc_id [] t old = refl
attempts-kept urc_id (x ∷ xs) t old =
    rw (record_owner-kept urc_id x t old) (attempts-kept urc_id xs t old)

-- The two statements of `record_owner` are no transaction. If the first is done and SQLite fails
-- the second, the call fails, and the resource has its row, with the grants and the group members of
-- before, so that its owner may have none; and no later calls of `record_owner` on it, by whomever,
-- whatever SQLite answers them, change any table.
pub record_owner-orphan :
    (now : ℕ) (subject urc_id name e : String) (rest : List (Option String)) (t : Tables)
    (xs : List Attempt)
    → IsUnknown urc_id t
    → ((record_owner now subject urc_id name
          (record { tables = t; outcomes = none ∷ some e ∷ rest })).0
        ≡ err e)
      × (attempts urc_id xs
            (record_owner now subject urc_id name
              (record { tables = t; outcomes = none ∷ some e ∷ rest })).1.tables
          ≡ record t {
            resources = record { urc_id = urc_id; name = name; created_at = now } ∷ t.resources;
          })
unfolding record_owner insert_resource insert_grant any
record_owner-orphan now subject urc_id name e rest t xs new =
    let t' : Tables = record t {
      resources = record { urc_id = urc_id; name = name; created_at = now } ∷ t.resources;
    } in
    let old : IsKnown urc_id t' = ground (arith, eq_refl urc_id) in
    (rw new refl, rw new (attempts-kept urc_id xs t' old))

-- Nor are those of `delete_resource`. If SQLite fails the second, the call fails, nobody has a role
-- on the resource, and since its row is still there, creating it again gives nobody one.
pub delete_resource-orphan :
    (now : ℕ) (subject again urc_id name e : String) (rest : List (Option String)) (t : Tables)
    → IsKnown urc_id t
    → ((delete_resource urc_id (record { tables = t; outcomes = none ∷ some e ∷ rest })).0 ≡ err e)
      × (role_for subject urc_id
            (record_owner now again urc_id name (
              calm
                (delete_resource urc_id
                  (record { tables = t; outcomes = none ∷ some e ∷ rest })).1.tables)).1.tables
          ≡ none)
unfolding record_owner insert_resource delete_resource delete_grants role_for
delete_resource-orphan now subject again urc_id name e rest t old = (
  refl,
  rw old (
      rw (selected-retain subject urc_id urc_id t.group_members t.grants none)
        (rw (eq_refl urc_id))),
)
