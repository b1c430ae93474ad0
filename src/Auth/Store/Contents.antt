-- ===== src/Auth/Store/Contents.antt =====
-- The store of auth/src/store.rs without the order of its rows. SQLite promises none to a SELECT
-- without ORDER BY, so what the methods do and answer must not rest on one.
use kaguya.Base.{
  ℕ, String, Option, none, some, List, [], ◌∷◌, ◌≡◌, refl, ap, arith, Any-map, Bool-cases, ltb, inl,
  inr, Prog, pure, ◌>>=◌, Any, SameRows-Any,
}
use mathlib.Core.Quot
use mathlib.Core.Quot.{Quot, Quot-set}
use kaguya.Auth.Store
use kaguya.Auth.Store.{
  Role, owner, member, Resource, Grant, Membership, Tables, Store, role_for, execute,
  insert_resource, insert_grant, replace_grant, delete_grants, delete_resources, insert_membership,
  delete_memberships,
}
use kaguya.Auth.Store.Runs.{Operation, perform, run}
use kaguya.Auth.Store.Access.{Gives, role_for-eq-owner_iff, role_for-eq-member_iff}
use kaguya.Auth.Store.Unordered.{
  SameTables, SameStore, insert_resource-SameTables, insert_grant-SameTables,
  replace_grant-SameTables, delete_grants-SameTables, delete_resources-SameTables,
  insert_membership-SameTables, delete_memberships-SameTables,
}

-- Two programs leave the same contents wherever they find the same.
abbrev Agree : {A B : Type 0} → Prog String Store A → Prog String Store B → Type 0
Agree m n = (s t : Store) → SameStore s t → SameStore (m s).1 (n t).1

abbrev Respects : (Tables → Tables × ℕ) → Type 0
Respects f = (t u : Tables) → SameTables t u → SameTables (f t).0 (f u).0

bind-Agree :
    (f : Tables → Tables × ℕ) {A : Type 0} (k : ℕ → Prog String Store A)
    → Respects f
    → ((t u : Tables) → SameTables t u → Agree (k (f t).1) (k (f u).1))
    → Agree (execute f >>= k) (execute f >>= k)
bind-Agree f k respects next s t same =
    rw (← same.outcomes) (go s.tables t.tables s.outcomes same.tables)
  where
    go :
        (a b : Tables) (o : List (Option String))
        → SameTables a b
        → SameStore
            ((execute f >>= k) (record { tables = a; outcomes = o })).1
            ((execute f >>= k) (record { tables = b; outcomes = o })).1
    go a b [] h = next a b h _ _ (record { tables = respects a b h; outcomes = refl })
    go a b (none ∷ later) h = next a b h _ _ (record { tables = respects a b h; outcomes = refl })
    go a b (some e ∷ later) h = record { tables = h; outcomes = refl }

statement-Agree :
    (f : Tables → Tables × ℕ)
    → Respects f
    → Agree (execute f >>= λ n. pure tt) (execute f >>= λ n. pure tt)
statement-Agree f respects = bind-Agree f (λ n. pure tt) respects (λ t u h a b same. same)

execute-Agree : (f : Tables → Tables × ℕ) → Respects f → Agree (execute f) (execute f)
execute-Agree f respects s t same =
    rw (← same.outcomes) (go s.tables t.tables s.outcomes same.tables)
  where
    go :
        (a b : Tables) (o : List (Option String))
        → SameTables a b
        → SameStore
            (execute f (record { tables = a; outcomes = o })).1
            (execute f (record { tables = b; outcomes = o })).1
    go a b [] h = record { tables = respects a b h; outcomes = refl }
    go a b (none ∷ later) h = record { tables = respects a b h; outcomes = refl }
    go a b (some e ∷ later) h = record { tables = h; outcomes = refl }

perform-SameStore :
    (o : Operation) (s t : Store) → SameStore s t → SameStore (perform o s) (perform o t)
unfolding perform Store.record_owner Store.delete_resource Store.grant Store.revoke
    Store.add_group_member Store.remove_group_member
perform-SameStore (Operation.record_owner now subject urc_id name) =
    let r : Resource = record { urc_id = urc_id; name = name; created_at = now } in
    bind-Agree (insert_resource r) _ (λ t u h. (insert_resource-SameTables r t u h).0)
      (λ t u h.
        rw ((insert_resource-SameTables r t u h).1)
          (elim (Bool-cases (ltb 0 (insert_resource r u).1)) [
            | inl new ↦ rw new (statement-Agree (insert_grant _) (insert_grant-SameTables _))
            | inr old ↦ rw old (λ a b same. same)
          ]))
perform-SameStore (Operation.delete_resource urc_id) =
    bind-Agree (delete_grants _) _ (delete_grants-SameTables _)
      (λ t u h. statement-Agree (delete_resources urc_id) (delete_resources-SameTables urc_id))
perform-SameStore (Operation.grant subject urc_id role) =
    statement-Agree (replace_grant _) (replace_grant-SameTables _)
perform-SameStore (Operation.revoke subject urc_id) =
    execute-Agree (delete_grants _) (delete_grants-SameTables _)
perform-SameStore (Operation.add_group_member grp subject) =
    statement-Agree (insert_membership _) (insert_membership-SameTables _)
perform-SameStore (Operation.remove_group_member grp subject) =
    execute-Agree (delete_memberships grp subject) (delete_memberships-SameTables grp subject)

run-SameStore :
    (os : List Operation) (s t : Store) → SameStore s t → SameStore (run os s) (run os t)
unfolding run
run-SameStore [] s t same = same
run-SameStore (o ∷ os) s t same = run-SameStore os _ _ (perform-SameStore o s t same)

Gives-same :
    (subject urc_id : String) (role : Role) (t u : Tables)
    → SameTables t u
    → Any (Gives subject urc_id t.group_members role) t.grants
    → Any (Gives subject urc_id u.group_members role) u.grants
Gives-same subject urc_id role t u same given =
    (SameRows-Any (Gives subject urc_id u.group_members role) t.grants u.grants same.grants).0
      (Any-map t.grants gives given)
  where
    gives :
        (g : Grant)
        → Gives subject urc_id t.group_members role g
        → Gives subject urc_id u.group_members role g
    gives g (here, inl own, named) = (here, inl own, named)
    gives g (here, inr grouped, named) = (
      here,
      inr ((SameRows-Any _ t.group_members u.group_members same.group_members).0 grouped),
      named,
    )

SameTables-sym : (t u : Tables) → SameTables t u → SameTables u t
SameTables-sym t u same = record {
  resources = record { forth = same.resources.back; back = same.resources.forth };
  grants = record { forth = same.grants.back; back = same.grants.forth };
  group_members = record { forth = same.group_members.back; back = same.group_members.forth };
}

-- the two characterisations of an answer decide it
role_for-SameTables :
    (subject urc_id : String) (t u : Tables)
    → SameTables t u
    → role_for subject urc_id t ≡ role_for subject urc_id u
role_for-SameTables subject urc_id t u same = grind (
  arith,
  role_for-eq-owner_iff subject urc_id t,
  role_for-eq-owner_iff subject urc_id u,
  role_for-eq-member_iff subject urc_id t,
  role_for-eq-member_iff subject urc_id u,
  Gives-same subject urc_id owner t u same,
  Gives-same subject urc_id member t u same,
  Gives-same subject urc_id owner u t (SameTables-sym t u same),
  Gives-same subject urc_id member u t (SameTables-sym t u same),
)

-- What a database contains: its rows without their order, and SQLite's answers to come.
abbrev pub Contents : Type 0
Contents = Quot SameStore

abbrev pub contents : Store → Contents
contents s = Quot.mk s

Role_set : IsSet (Option Role)
Role_set = hlevel

-- the answer of `role_for`, and a run of calls, on contents
role_of : String → String → Contents → Option Role
role_of subject urc_id =
    Quot.lift Role_set (λ s. role_for subject urc_id s.tables)
      (λ s t same. role_for-SameTables subject urc_id s.tables t.tables same.tables)

run_on : List Operation → Contents → Contents
run_on os =
    Quot.lift Quot-set (λ s. contents (run os s))
      (λ s t same. Quot.sound (run-SameStore os s t same))

-- Nothing rests on the order of the rows: two databases of the same contents have the same contents
-- after any sequence of calls, failed statements included, and `role_for` answers alike in both,
-- before and after.
pub run-contents :
    (os : List Operation) (s t : Store) (subject urc_id : String)
    → contents s ≡ contents t
    → (contents (run os s) ≡ contents (run os t))
      × (role_for subject urc_id s.tables ≡ role_for subject urc_id t.tables)
      × (role_for subject urc_id (run os s).tables ≡ role_for subject urc_id (run os t).tables)
unfolding role_of run_on
run-contents os s t subject urc_id same = (
  ap (run_on os) same,
  ap (role_of subject urc_id) same,
  ap (λ q. role_of subject urc_id (run_on os q)) same,
)
