-- ===== src/Auth/Store/Access.antt =====
-- What the queries of auth/src/store.rs answer: `role_for` and `accessible` against the rows.
use Prim.Native.String.{◌++◌ as join}
use kaguya.Base.{
  String, ◌≡◌, ◌≢◌, ◌↔◌, ◌⊎◌, true, eq_iff, Option, none, some, List, [], ◌∷◌, map, arith, refl,
  if◌then◌else◌, retain, contains, Any,
}
use kaguya.Auth.Store.{
  Role, owner, member, Grant, Membership, Tables, parse, groups_of, is_held, is_selected, stronger,
  best_of, role_for, distinct, accessible,
}

-- A subject holds the grants made out to it, and those of the groups that it is a member of.
abbrev pub IsHeld : String → List Membership → Grant → Type 0
IsHeld subject ms g =
    (g.subject ≡ subject) ⊎ Any (λ m. (m.subject ≡ subject) × (join "group:" m.grp ≡ g.subject)) ms

-- The row gives the subject this role on the resource.
abbrev pub Gives : String → String → List Membership → Role → Grant → Type 0
Gives subject urc_id ms role g =
    (g.urc_id ≡ urc_id) × IsHeld subject ms g × (parse g.role ≡ some role)

groups_of_iff :
    (subject name : String) (ms : List Membership)
    → (contains (groups_of subject ms) name ≡ true)
      ↔ Any (λ m. (m.subject ≡ subject) × (join "group:" m.grp ≡ name)) ms
unfolding groups_of contains
groups_of_iff subject name [] = (λ h. cc, λ h. absurd h)
groups_of_iff subject name (m ∷ ms) = ground (
  arith,
  eq_iff m.subject subject,
  eq_iff (join "group:" m.grp) name,
  groups_of_iff subject name ms,
)

pub is_held_iff :
    (subject : String) (ms : List Membership) (g : Grant)
    → (is_held subject ms g ≡ true) ↔ IsHeld subject ms g
unfolding is_held
is_held_iff subject ms g =
    ground (arith, eq_iff g.subject subject, groups_of_iff subject g.subject ms)

best_of-stronger :
    (best : Option Role) (rows : List Grant) → best_of best rows ≡ stronger best (best_of none rows)
unfolding best_of stronger
best_of-stronger none [] = refl
best_of-stronger (some b) [] = refl
best_of-stronger best (g ∷ rows) = ground (
  arith,
  best_of-stronger (stronger best (parse g.role)) rows,
  best_of-stronger (stronger none (parse g.role)) rows,
)

-- the role that the grants of a table give, row by row
role_in : String → String → List Membership → List Grant → Option Role
role_in subject urc_id ms gs = best_of none (retain (is_selected subject urc_id ms) gs)

role_in_nil : (subject urc_id : String) (ms : List Membership) → role_in subject urc_id ms [] ≡ none
unfolding role_in retain best_of
role_in_nil subject urc_id ms = refl

role_in_cons :
    (subject urc_id : String) (ms : List Membership) (g : Grant) (gs : List Grant)
    → role_in subject urc_id ms (g ∷ gs) ≡ (
        if is_selected subject urc_id ms g
        then stronger (parse g.role) (role_in subject urc_id ms gs)
        else role_in subject urc_id ms gs)
unfolding role_in retain best_of stronger
role_in_cons subject urc_id ms g gs =
    ground (arith, best_of-stronger (parse g.role) (retain (is_selected subject urc_id ms) gs))

module _ (subject urc_id : String) (ms : List Membership) where
  role_in-eq-owner_iff :
      (gs : List Grant)
      → (role_in subject urc_id ms gs ≡ some owner) ↔ Any (Gives subject urc_id ms owner) gs
  unfolding stronger
  role_in-eq-owner_iff [] = rw role_in_nil (λ h. cc, λ h. absurd h)
  role_in-eq-owner_iff (g ∷ gs) =
      rw role_in_cons
        (ground (arith, is_held_iff subject ms g, eq_iff g.urc_id urc_id, role_in-eq-owner_iff gs))

  role_in-eq-member_iff :
      (gs : List Grant)
      → (role_in subject urc_id ms gs ≡ some member)
        ↔ (Any (Gives subject urc_id ms member) gs × ¬ Any (Gives subject urc_id ms owner) gs)
  unfolding stronger
  role_in-eq-member_iff [] = rw role_in_nil (λ h. cc, λ h. absurd h.0)
  role_in-eq-member_iff (g ∷ gs) = rw role_in_cons (
      ground (
        arith,
        is_held_iff subject ms g,
        eq_iff g.urc_id urc_id,
        role_in-eq-owner_iff gs,
        role_in-eq-member_iff gs,
      ))

  role_in-ne-none_iff :
      (gs : List Grant)
      → (role_in subject urc_id ms gs ≢ none)
        ↔ Any (λ g. (g.urc_id ≡ urc_id) × IsHeld subject ms g × (parse g.role ≢ none)) gs
  unfolding stronger
  role_in-ne-none_iff [] = rw role_in_nil (λ h. absurd (h refl), λ h. absurd h)
  role_in-ne-none_iff (g ∷ gs) =
      rw role_in_cons
        (ground (arith, is_held_iff subject ms g, eq_iff g.urc_id urc_id, role_in-ne-none_iff gs))

-- `role_for` answers Owner exactly when a row on that resource, made out to the subject or to a
-- group that it is a member of, says owner.
pub role_for-eq-owner_iff :
    (subject urc_id : String) (t : Tables)
    → (role_for subject urc_id t ≡ some owner)
      ↔ Any (Gives subject urc_id t.group_members owner) t.grants
unfolding role_for role_in
role_for-eq-owner_iff subject urc_id t =
    role_in-eq-owner_iff subject urc_id t.group_members t.grants

-- `role_for` answers Member exactly when such a row says member (or one of its aliases) and none
-- says owner: the strongest role wins.
pub role_for-eq-member_iff :
    (subject urc_id : String) (t : Tables)
    → (role_for subject urc_id t ≡ some member) ↔ (
        Any (Gives subject urc_id t.group_members member) t.grants
        × ¬ Any (Gives subject urc_id t.group_members owner) t.grants)
unfolding role_for role_in
role_for-eq-member_iff subject urc_id t =
    role_in-eq-member_iff subject urc_id t.group_members t.grants

-- There is access at all exactly when such a row names a role.
pub role_for-ne-none_iff :
    (subject urc_id : String) (t : Tables)
    → (role_for subject urc_id t ≢ none)
      ↔ Any
          (λ g. (g.urc_id ≡ urc_id) × IsHeld subject t.group_members g × (parse g.role ≢ none))
          t.grants
unfolding role_for role_in
role_for-ne-none_iff subject urc_id t = role_in-ne-none_iff subject urc_id t.group_members t.grants

contains-distinct : (xs : List String) (s : String) → contains (distinct xs) s ≡ contains xs s
unfolding distinct contains
contains-distinct [] s = refl
contains-distinct (x ∷ xs) s =
    ground (arith, contains-distinct xs s, contains-distinct xs x, eq_iff x s)

contains-accessible_from :
    (subject urc_id : String) (ms : List Membership) (gs : List Grant)
    → (contains (map (λ g. g.urc_id) (retain (is_held subject ms) gs)) urc_id ≡ true)
      ↔ Any (λ g. (g.urc_id ≡ urc_id) × IsHeld subject ms g) gs
unfolding retain contains
contains-accessible_from subject urc_id ms [] = (λ h. cc, λ h. absurd h)
contains-accessible_from subject urc_id ms (g ∷ gs) = ground (
  arith,
  is_held_iff subject ms g,
  eq_iff g.urc_id urc_id,
  contains-accessible_from subject urc_id ms gs,
)

-- `accessible` lists exactly the resources on which the subject holds a row.
pub accessible_iff :
    (subject urc_id : String) (t : Tables)
    → (contains (accessible subject t) urc_id ≡ true)
      ↔ Any (λ g. (g.urc_id ≡ urc_id) × IsHeld subject t.group_members g) t.grants
unfolding accessible
accessible_iff subject urc_id t =
    rw contains-distinct (contains-accessible_from subject urc_id t.group_members t.grants)
