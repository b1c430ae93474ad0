-- ===== src/Auth/Store/Validity.antt =====
-- The tables of auth/src/store.rs keep their primary keys and hold no role but the two.
use kaguya.Base.{
  ℕ, String, ◌≡◌, ◌≢◌, ◌↔◌, true, ◌==◌, Option, none, some, List, [], ◌∷◌, contains, All, Any,
  Any-map, Result, ok, err, Prog, pure, ◌>>◌, continue, ltb, Bool-cases, inl, inr,
}
use kaguya.Auth.Store.{
  Role, Resource, Grant, Membership, Tables, Store, as_str, parse, at_key, role_for, accessible,
  insert_resource, insert_grant, replace_grant, delete_grants, delete_resources, insert_membership,
  delete_memberships, execute, run_statement, record_owner, delete_resource, grant, revoke,
  add_group_member, remove_group_member,
}
use kaguya.Auth.Store.Access.{IsHeld, role_for-ne-none_iff, accessible_iff}
use kaguya.Auth.Store.Runs.{Operation, perform, run}
use kaguya.Auth.Store.Statements.{
  HasRole, IsValid, parse-as_str, insert_resource-IsValid, insert_grant-IsValid,
  replace_grant-IsValid, delete_grants-IsValid, delete_resources-IsValid, insert_membership-IsValid,
  delete_memberships-IsValid,
}

-- a statement that keeps the tables valid does so whether or not SQLite carries it out
run_statement-IsValid :
    (f : Tables → Tables × ℕ) (t : Tables) (outcomes : List (Option String))
    → IsValid (f t).0
    → IsValid t
    → IsValid (run_statement f t outcomes).1.tables
run_statement-IsValid f t [] k v = k
run_statement-IsValid f t (none ∷ later) k v = k
run_statement-IsValid f t (some e ∷ later) k v = v

pub execute-IsValid :
    (f : Tables → Tables × ℕ) (s : Store)
    → ((t : Tables) → IsValid t → IsValid (f t).0)
    → IsValid s.tables
    → IsValid (execute f s).1.tables
execute-IsValid f s keep v = run_statement-IsValid f s.tables s.outcomes (keep s.tables v) v

-- the rest of a method keeps the tables valid, whatever the statement before it answered
continue-IsValid :
    {A B : Type 0} (r : Result String A) (f : A → Prog String Store B) (s : Store)
    → ((a : A) → IsValid (f a s).1.tables)
    → IsValid s.tables
    → IsValid (continue r f s).1.tables
continue-IsValid (ok a) f s k v = k a
continue-IsValid (err e) f s k v = v

pub owner_row-HasRole :
    (subject urc_id : String)
    → HasRole (record { subject = subject; urc_id = urc_id; role = "owner" })
unfolding parse
owner_row-HasRole subject urc_id h = cc

granted_row-HasRole :
    (subject urc_id : String) (role : Role)
    → HasRole (record { subject = subject; urc_id = urc_id; role = as_str role })
granted_row-HasRole subject urc_id role h = cc (parse-as_str role, h)

record_owner-IsValid :
    (now : ℕ) (subject urc_id name : String) (s : Store)
    → IsValid s.tables
    → IsValid (record_owner now subject urc_id name s).1.tables
unfolding record_owner
record_owner-IsValid now subject urc_id name s v =
    let r : Resource = record { urc_id = urc_id; name = name; created_at = now } in
    let first = execute-IsValid (insert_resource r) s (insert_resource-IsValid r) v in
    continue-IsValid (execute (insert_resource r) s).0 _ (execute (insert_resource r) s).1
      (λ created. elim (Bool-cases (ltb 0 created)) [
        | inl made ↦ rw made (
            let g : Grant = record { subject = subject; urc_id = urc_id; role = "owner" } in
            let s' = (execute (insert_resource r) s).1 in
            let second =
              execute-IsValid (insert_grant g) s'
                (λ t. insert_grant-IsValid g t (owner_row-HasRole subject urc_id)) first in
            continue-IsValid (execute (insert_grant g) s').0 _ _ (λ _. second) second)
        | inr old ↦ rw old first
      ])
      first

delete_resource-IsValid :
    (urc_id : String) (s : Store) → IsValid s.tables → IsValid (delete_resource urc_id s).1.tables
unfolding delete_resource
delete_resource-IsValid urc_id s v =
    let p = λ (g : Grant). g.urc_id == urc_id in
    let first = execute-IsValid (delete_grants p) s (delete_grants-IsValid p) v in
    let s' = (execute (delete_grants p) s).1 in
    let second =
      execute-IsValid (delete_resources urc_id) s' (delete_resources-IsValid urc_id) first in
    continue-IsValid (execute (delete_grants p) s).0 _ s'
      (λ _. continue-IsValid (execute (delete_resources urc_id) s').0 _ _ (λ _. second) second)
      first

-- a method of one statement
single-IsValid :
    (f : Tables → Tables × ℕ) (s : Store)
    → ((t : Tables) → IsValid t → IsValid (f t).0)
    → IsValid s.tables
    → IsValid ((do execute f; pure tt) s).1.tables
single-IsValid f s keep v =
    let done = execute-IsValid f s keep v in continue-IsValid (execute f s).0 _ _ (λ _. done) done

pub perform-IsValid : (o : Operation) (s : Store) → IsValid s.tables → IsValid (perform o s).tables
unfolding perform grant revoke add_group_member remove_group_member
perform-IsValid (Operation.record_owner now subject urc_id name) s v =
    record_owner-IsValid now subject urc_id name s v
perform-IsValid (Operation.delete_resource urc_id) s v = delete_resource-IsValid urc_id s v
perform-IsValid (Operation.grant subject urc_id role) s v =
    let g : Grant = record { subject = subject; urc_id = urc_id; role = as_str role } in
    single-IsValid (replace_grant g) s
      (λ t. replace_grant-IsValid g t (granted_row-HasRole subject urc_id role)) v
perform-IsValid (Operation.revoke subject urc_id) s v =
    execute-IsValid (delete_grants (at_key subject urc_id)) s
      (delete_grants-IsValid (at_key subject urc_id)) v
perform-IsValid (Operation.add_group_member grp subject) s v =
    let m : Membership = record { grp = grp; subject = subject } in
    single-IsValid (insert_membership m) s (insert_membership-IsValid m) v
perform-IsValid (Operation.remove_group_member grp subject) s v =
    execute-IsValid (delete_memberships grp subject) s (delete_memberships-IsValid grp subject) v

-- Every sequence of operations keeps the primary keys unique and every stored role one that
-- `parse` knows, whatever statements SQLite fails on the way.
pub run-IsValid : (os : List Operation) (s : Store) → IsValid s.tables → IsValid (run os s).tables
unfolding run
run-IsValid [] s v = v
run-IsValid (o ∷ os) s v = run-IsValid os (perform o s) (perform-IsValid o s v)

-- In valid tables `accessible` lists a resource exactly when `role_for` gives a role on it: the
-- listing and the check never disagree.
pub accessible-role_for_iff :
    (subject urc_id : String) (t : Tables)
    → IsValid t
    → (contains (accessible subject t) urc_id ≡ true) ↔ (role_for subject urc_id t ≢ none)
accessible-role_for_iff subject urc_id t v =
    let (listed, held) = accessible_iff subject urc_id t in
    let (given, grants) = role_for-ne-none_iff subject urc_id t in
    (
      λ h. grants (with_role t.grants v.roles (listed h)),
      λ h. held (Any-map t.grants (λ g k. (k.0, k.1)) (given h)),
    )
  where
    with_role :
        (gs : List Grant)
        → All HasRole gs
        → Any (λ g. (g.urc_id ≡ urc_id) × IsHeld subject t.group_members g) gs
        → Any (λ g. (g.urc_id ≡ urc_id) × IsHeld subject t.group_members g × HasRole g) gs
    with_role [] _ k = absurd k
    with_role (g ∷ gs) (r, rs) (inl k) = inl (k.0, k.1, r)
    with_role (g ∷ gs) (r, rs) (inr k) = inr (with_role gs rs k)
