-- ===== src/Auth/Store/Acl.antt =====
-- The store of auth/src/store.rs against what it promises: an access-control list, that is, which
-- resources are known, which role is recorded for a subject on a resource, and who is in a group.
use kaguya.Base.{
  ℕ, String, ◌≡◌, Bool, not, ◌&&◌, ◌||◌, ◌==◌, eq_iff, Option, none, some, List, [], ◌∷◌, ap, ◌∙◌,
  arith, refl, if◌then◌else◌, any,
}
use mathlib.Core.Path.{fun_ext}
use kaguya.Auth.Store
use kaguya.Auth.Store.{
  Role, owner, member, Resource, Grant, Membership, Tables, Store, as_str, at_key, is_membership,
  insert_resource, insert_grant, replace_grant, delete_grants, delete_resources, insert_membership,
  delete_memberships,
}
use kaguya.Auth.Store.Runs.{Operation, perform, run}
use kaguya.Auth.Store.Recorded.{
  recorded, recorded-delete_key, recorded-delete_urc, known-delete, in_group-delete, recorded-any,
  recorded-any-false,
}

pub record Acl : Type 0 where
  pub known : String → Bool
  pub role_at : String → String → Option String
  pub in_group : String → String → Bool

-- What each method promises to do to the list.
unfoldable pub allow : Operation → Acl → Acl
allow (Operation.record_owner now subject urc_id name) a = if a.known urc_id then a else record a {
  known = λ u. urc_id == u || a.known u;
  role_at = λ s u.
      if s == subject && u == urc_id
      then elim (a.role_at s u) [ none ↦ some "owner" | some r ↦ some r ]
      else a.role_at s u;
}
allow (Operation.delete_resource urc_id) a = record a {
  known = λ u. not (u == urc_id) && a.known u;
  role_at = λ s u. if u == urc_id then none else a.role_at s u;
}
allow (Operation.grant subject urc_id role) a = record a {
  role_at = λ s u. if s == subject && u == urc_id then some (as_str role) else a.role_at s u;
}
allow (Operation.revoke subject urc_id) a = record a {
  role_at = λ s u. if s == subject && u == urc_id then none else a.role_at s u;
}
allow (Operation.add_group_member grp subject) a = record a {
  in_group = λ g s. (g == grp && s == subject) || a.in_group g s;
}
allow (Operation.remove_group_member grp subject) a = record a {
  in_group = λ g s. not (g == grp && s == subject) && a.in_group g s;
}

unfoldable pub allow_all : List Operation → Acl → Acl
unfolding allow
allow_all [] a = a
allow_all (o ∷ os) a = allow_all os (allow o a)

-- The list that the tables stand for.
unfoldable pub acl_of : Tables → Acl
unfolding recorded
acl_of t = record {
  known = λ u. any (λ r. r.urc_id == u) t.resources;
  role_at = recorded t.grants;
  in_group = λ g s. any (is_membership g s) t.group_members;
}

Acl-eq :
    (a b : Acl)
    → ((u : String) → a.known u ≡ b.known u)
    → ((s u : String) → a.role_at s u ≡ b.role_at s u)
    → ((g s : String) → a.in_group g s ≡ b.in_group g s)
    → a ≡ b
Acl-eq a b p q r = λ i. record {
  known = fun_ext p i;
  role_at = fun_ext (λ s. fun_ext (q s)) i;
  in_group = fun_ext (λ g. fun_ext (r g)) i;
}

-- the tables after a method, none of whose statements fails
abbrev after : Operation → Tables → Tables
after o t = (perform o (record { tables = t; outcomes = [] })).tables

module _ (t : Tables) where
  record_owner-acl :
      (now : ℕ) (subject urc_id name : String)
      → acl_of (after (Operation.record_owner now subject urc_id name) t)
        ≡ allow (Operation.record_owner now subject urc_id name) (acl_of t)
  unfolding perform Store.record_owner insert_resource insert_grant acl_of allow any
  record_owner-acl now subject urc_id name =
      Acl-eq _ _ (λ u. ground arith)
        (λ s u. ground (
          arith,
          recorded-any t.grants s u,
          recorded-any-false t.grants s u,
          eq_iff s subject,
          eq_iff u urc_id,
          eq_iff subject s,
          eq_iff urc_id u,
        ))
        (λ g s. ground arith)

  delete_resource-acl :
      (urc_id : String)
      → acl_of (after (Operation.delete_resource urc_id) t)
        ≡ allow (Operation.delete_resource urc_id) (acl_of t)
  unfolding perform Store.delete_resource delete_grants delete_resources acl_of allow
  delete_resource-acl urc_id =
      Acl-eq _ _ (λ u. known-delete urc_id u t.resources)
        (λ s u. recorded-delete_urc urc_id s u t.grants) (λ g s. refl)

  grant-acl :
      (subject urc_id : String) (role : Role)
      → acl_of (after (Operation.grant subject urc_id role) t)
        ≡ allow (Operation.grant subject urc_id role) (acl_of t)
  unfolding perform Store.grant replace_grant acl_of allow
  grant-acl subject urc_id role =
      Acl-eq _ _ (λ u. refl)
        (λ s u. ground (
          arith,
          recorded-delete_key subject urc_id s u t.grants,
          eq_iff s subject,
          eq_iff subject s,
          eq_iff u urc_id,
          eq_iff urc_id u,
        ))
        (λ g s. refl)

  revoke-acl :
      (subject urc_id : String)
      → acl_of (after (Operation.revoke subject urc_id) t)
        ≡ allow (Operation.revoke subject urc_id) (acl_of t)
  unfolding perform Store.revoke delete_grants acl_of allow
  revoke-acl subject urc_id =
      Acl-eq _ _ (λ u. refl) (λ s u. recorded-delete_key subject urc_id s u t.grants) (λ g s. refl)

  add_group_member-acl :
      (grp subject : String)
      → acl_of (after (Operation.add_group_member grp subject) t)
        ≡ allow (Operation.add_group_member grp subject) (acl_of t)
  unfolding perform Store.add_group_member insert_membership acl_of allow any
  add_group_member-acl grp subject =
      Acl-eq _ _ (λ u. ground arith) (λ s u. ground arith)
        (λ g s. ground (arith, eq_iff g grp, eq_iff s subject, eq_iff grp g, eq_iff subject s))

  remove_group_member-acl :
      (grp subject : String)
      → acl_of (after (Operation.remove_group_member grp subject) t)
        ≡ allow (Operation.remove_group_member grp subject) (acl_of t)
  unfolding perform Store.remove_group_member delete_memberships acl_of allow
  remove_group_member-acl grp subject =
      Acl-eq _ _ (λ u. refl) (λ s u. refl) (λ g s. in_group-delete grp subject g s t.group_members)

-- the outcomes run out only once
perform-no_outcomes :
    (o : Operation) (t : Tables) → (perform o (record { tables = t; outcomes = [] })).outcomes ≡ []
unfolding perform Store.record_owner Store.delete_resource Store.grant Store.revoke
    Store.add_group_member Store.remove_group_member
perform-no_outcomes (Operation.record_owner now subject urc_id name) t = ground arith
perform-no_outcomes _ t = refl

perform-acl : (o : Operation) (t : Tables) → acl_of (after o t) ≡ allow o (acl_of t)
perform-acl (Operation.record_owner now subject urc_id name) t =
    record_owner-acl t now subject urc_id name
perform-acl (Operation.delete_resource urc_id) t = delete_resource-acl t urc_id
perform-acl (Operation.grant subject urc_id role) t = grant-acl t subject urc_id role
perform-acl (Operation.revoke subject urc_id) t = revoke-acl t subject urc_id
perform-acl (Operation.add_group_member grp subject) t = add_group_member-acl t grp subject
perform-acl (Operation.remove_group_member grp subject) t = remove_group_member-acl t grp subject

-- Refinement: over any sequence of operations, none of whose statements fails, the tables stand
-- for the access-control list that the operations promise.
pub run-acl :
    (os : List Operation) (t : Tables)
    → acl_of (run os (record { tables = t; outcomes = [] })).tables ≡ allow_all os (acl_of t)
unfolding run allow_all
run-acl [] t = refl
run-acl (o ∷ os) t =
    let s : Store = record { tables = t; outcomes = [] } in
    let s' : Store = record { tables = after o t; outcomes = [] } in
    let settled : perform o s ≡ s' =
      λ i. record { tables = (perform o s).tables; outcomes = perform-no_outcomes o t i } in
    ap (λ x. acl_of (run os x).tables) settled
    ∙ (run-acl os (after o t) ∙ ap (allow_all os) (perform-acl o t))
