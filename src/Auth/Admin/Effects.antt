-- ===== src/Auth/Admin/Effects.antt =====
-- What the admin commands of auth/src/main.rs do to access.
use Prim.Native.String.{◌++◌ as join}
use kaguya.Base.{
  String, ◌≡◌, inl, inr, true, eq_iff, some, List, [], ◌∷◌, err, arith, refl, Option-cases, Prog,
  Any, any, Bool-cases,
}
use kaguya.Auth.Store
use kaguya.Auth.Store.{
  Role, owner, member, Store, Grant, Membership, Tables, parse, as_str, role_for, is_membership,
  replace_grant, insert_membership,
}
use kaguya.Auth.Store.Access.{role_for-eq-owner_iff}
use kaguya.Auth.Store.Owners.{calm}
use kaguya.Auth.Admin.{
  run_admin, admin_grant, admin_revoke, admin_group_add, admin_group_del, admin_ls, Line,
}

-- `p` is refused only without a change
abbrev RefusedUnchanged : Prog String Store (List Line) → Type 0
RefusedUnchanged p = (t : Tables) (e : String) → (p (calm t)).0 ≡ err e → (p (calm t)).1 ≡ calm t

grant-unchanged : (rest : List String) → RefusedUnchanged (admin_grant rest)
unfolding admin_grant Store.grant
grant-unchanged (subject ∷ urc ∷ role ∷ []) t e h = elim (Option-cases (parse role)) [
  | inl unknown ↦ rw unknown
  | inr (r, known) ↦ absurd (ground arith)
]
grant-unchanged _ t e h = refl

revoke-unchanged : (rest : List String) → RefusedUnchanged (admin_revoke rest)
unfolding admin_revoke Store.revoke
revoke-unchanged (subject ∷ urc ∷ []) t e h = cc
revoke-unchanged _ t e h = refl

group_add-unchanged : (rest : List String) → RefusedUnchanged (admin_group_add rest)
unfolding admin_group_add Store.add_group_member
group_add-unchanged (group ∷ subject ∷ []) t e h = cc
group_add-unchanged _ t e h = refl

group_del-unchanged : (rest : List String) → RefusedUnchanged (admin_group_del rest)
unfolding admin_group_del Store.remove_group_member
group_del-unchanged (group ∷ subject ∷ []) t e h = cc
group_del-unchanged _ t e h = refl

ls-unchanged : (rest : List String) → RefusedUnchanged (admin_ls rest)
unfolding admin_ls
ls-unchanged (urc ∷ []) t e h = cc
ls-unchanged _ t e h = refl

-- A refused command (an unknown one, a wrong number of arguments, an unknown role) changes nothing,
-- when SQLite fails no statement.
pub run_admin_refused :
    (command : String) (rest : List String) (t : Tables) (e : String)
    → (run_admin command rest (calm t)).0 ≡ err e
    → (run_admin command rest (calm t)).1 ≡ calm t
unfolding run_admin
run_admin_refused command rest t e h = ground (
  arith,
  grant-unchanged rest t e,
  revoke-unchanged rest t e,
  group_add-unchanged rest t e,
  group_del-unchanged rest t e,
  ls-unchanged rest t e,
)

abbrev InGroup : String → String → List Membership → Type 0
InGroup group subject ms =
    Any (λ m. (m.subject ≡ subject) × (join "group:" m.grp ≡ join "group:" group)) ms

membership-InGroup :
    (group subject : String) (ms : List Membership)
    → any (is_membership group subject) ms ≡ true
    → InGroup group subject ms
unfolding any
membership-InGroup group subject [] h = cc
membership-InGroup group subject (m ∷ ms) h =
    ground
      (arith, eq_iff m.grp group, eq_iff m.subject subject, membership-InGroup group subject ms)

insert_membership-InGroup :
    (group subject : String) (t : Tables)
    → InGroup group subject
        (insert_membership (record { grp = group; subject = subject }) t).0.group_members
unfolding insert_membership
insert_membership-InGroup group subject t =
    elim (Bool-cases (any (is_membership group subject) t.group_members)) [
      | inl old ↦ rw old (membership-InGroup group subject t.group_members old)
      | inr new ↦ rw new (inl (refl, refl))
    ]

grants-insert_membership :
    (m : Membership) (t : Tables) → (insert_membership m t).0.grants ≡ t.grants
unfolding insert_membership
grants-insert_membership m t = ground arith

-- Ownership through a group: when a group has been granted owner on a resource and a subject is
-- then added to it, both by the admin commands, the subject is an owner of the resource.
pub run_admin-group_owner :
    (group subject urc : String) (t : Tables)
    → role_for subject urc
        (run_admin "group-add"
          (group ∷ subject ∷ [])
          (run_admin "grant" (join "group:" group ∷ urc ∷ "owner" ∷ []) (calm t)).1).1.tables
      ≡ some owner
unfolding run_admin Store.grant Store.add_group_member parse as_str replace_grant
run_admin-group_owner group subject urc t =
    let g : Grant = record { subject = join "group:" group; urc_id = urc; role = "owner" } in
    let m : Membership = record { grp = group; subject = subject } in
    let t₁ = (replace_grant g t).0 in
    let t₂ = (insert_membership m t₁).0 in
    (role_for-eq-owner_iff subject urc t₂).1 (
      rw (grants-insert_membership m t₁)
        (inl (refl, inr (insert_membership-InGroup group subject t₁), refl)))
