-- ===== src/Auth/Tests/Store.antt =====
-- The tests of auth/src/store.rs, on the model: each is a program that fails at the first assertion
-- that does not hold, run on a new database.
use Prim.Native.String.{compare}
use text.Mathlib.Text.{is_le}
use kaguya.Base.{
  ℕ, String, Bool, true, false, not, ◌&&◌, ◌==◌, Option, none, some, List, [], ◌∷◌, ◌≡◌, refl, ok,
  Prog, pure, raise, gets, ◌>>=◌, ◌>>◌, if◌then◌else◌, contains, ltb,
}
use kaguya.Auth.Store.{
  Role, owner, member, Store, no_rows, permissions, role_for, accessible, record_owner,
  delete_resource, grant, revoke, add_group_member, remove_group_member,
}

-- `Store::open_in_memory`
abbrev open_in_memory : Store
open_in_memory = record { tables = no_rows; outcomes = [] }

abbrev repo : String
repo = "urc-0194b726b34e72b0b45550b88a967076"

abbrev other : String
other = "urc-0192ae48ccf17060bc1ba9d04f6acb2f"

abbrev Test : Type 0
Test = Prog String Store Unit

abbrev assert : Bool → Test
assert true = pure tt
assert false = raise "assertion failed"

abbrev same_role : Option Role → Option Role → Bool
same_role none none = true
same_role (some owner) (some owner) = true
same_role (some member) (some member) = true
same_role _ _ = false

-- `assert_eq!` on an answer of `role_for`
abbrev assert_role : String → String → Option Role → Test
assert_role subject urc_id expected = do
  role ← gets (λ s. role_for subject urc_id s.tables)
  assert (same_role role expected)

abbrev Passes : Test → Type 0
Passes test = (test open_in_memory).0 ≡ ok tt

-- the clock of the rows, which no test reads
abbrev now : ℕ
now = 0

abbrev creator_becomes_owner_and_re_create_keeps_first_owner : Test
creator_becomes_owner_and_re_create_keeps_first_owner = do
  record_owner now "alice" repo "test"
  assert_role "alice" repo (some owner)
  record_owner now "mallory" repo "test"
  assert_role "alice" repo (some owner)
  assert_role "mallory" repo none

abbrev no_grant_means_no_access : Test
no_grant_means_no_access = do
  record_owner now "alice" repo ""
  assert_role "bob" repo none
  assert_role "alice" other none

abbrev direct_member_grant_gives_access_but_not_ownership : Test
direct_member_grant_gives_access_but_not_ownership = do
  grant "bob" repo member
  assert_role "bob" repo (some member)
  assert (not (contains (permissions member) "owner"))

abbrev group_membership_confers_the_group_grant : Test
group_membership_confers_the_group_grant = do
  grant "group:eng" repo member
  add_group_member "eng" "carol"
  assert_role "carol" repo (some member)
  remove_group_member "eng" "carol"
  assert_role "carol" repo none

abbrev strongest_role_wins_across_paths : Test
strongest_role_wins_across_paths = do
  grant "dave" repo member
  grant "group:admins" repo owner
  add_group_member "admins" "dave"
  assert_role "dave" repo (some owner)

abbrev insert_text : String → List String → List String
insert_text s [] = s ∷ []
insert_text s (x ∷ xs) = if is_le (compare s x) then s ∷ x ∷ xs else x ∷ insert_text s xs

-- `sort`
abbrev sort : List String → List String
sort [] = []
sort (x ∷ xs) = insert_text x (sort xs)

abbrev same_texts : List String → List String → Bool
same_texts [] [] = true
same_texts (x ∷ xs) (y ∷ ys) = x == y && same_texts xs ys
same_texts _ _ = false

abbrev accessible_lists_direct_and_group_resources : Test
accessible_lists_direct_and_group_resources = do
  record_owner now "erin" repo ""
  grant "group:eng" other member
  add_group_member "eng" "erin"
  got ← gets (λ s. accessible "erin" s.tables)
  assert (same_texts (sort got) (sort (repo ∷ other ∷ [])))

abbrev revoke_and_delete_remove_access : Test
revoke_and_delete_remove_access = do
  record_owner now "alice" repo ""
  grant "bob" repo member
  revoked ← revoke "bob" repo
  assert (ltb revoked 2 && ltb 0 revoked)
  assert_role "bob" repo none
  delete_resource repo
  assert_role "alice" repo none
  left ← gets (λ s. accessible "alice" s.tables)
  assert (same_texts left [])

abbrev owner_permissions_carry_privileged_actions : Test
owner_permissions_carry_privileged_actions = do
  let carried = permissions owner
  assert (contains carried "owner")
  assert (contains carried "admin")
  assert (contains carried "obliterate")
  assert (contains carried "migrate")

-- Every test of the file passes.
store_tests :
    Passes creator_becomes_owner_and_re_create_keeps_first_owner
    × Passes no_grant_means_no_access
    × Passes direct_member_grant_gives_access_but_not_ownership
    × Passes group_membership_confers_the_group_grant
    × Passes strongest_role_wins_across_paths
    × Passes accessible_lists_direct_and_group_resources
    × Passes revoke_and_delete_remove_access
    × Passes owner_permissions_carry_privileged_actions
unfolding role_for record_owner grant revoke delete_resource add_group_member remove_group_member
    accessible permissions kaguya.Auth.Store.distinct kaguya.Auth.Store.as_str
    kaguya.Auth.Store.insert_resource kaguya.Auth.Store.insert_grant kaguya.Auth.Store.replace_grant
    kaguya.Auth.Store.delete_grants kaguya.Auth.Store.delete_resources
    kaguya.Auth.Store.insert_membership kaguya.Auth.Store.delete_memberships
    kaguya.Auth.Store.best_of kaguya.Auth.Store.is_held kaguya.Auth.Store.stronger
    kaguya.Auth.Store.parse kaguya.Auth.Store.groups_of kaguya.Base.any kaguya.Base.retain contains
store_tests = (refl, refl, refl, refl, refl, refl, refl, refl)
