-- ===== src/Auth/Admin.antt =====
-- `run_admin` of auth/src/main.rs, on the store that it has opened. What it prints is a list of
-- values, one for each line.
pub mod Effects
use kaguya.Base.{
  ℕ, String, ◌==◌, Option, none, some, List, [], ◌∷◌, map, Prog, pure, raise, gets, ◌>>=◌, ◌>>◌,
  if◌then◌else◌,
}
use kaguya.Auth.Store
use kaguya.Auth.Store.{Role, Store, parse, list_grants}

pub data Line : Type 0 where
  granted : Role → String → String → Line
  removed_grants : ℕ → String → String → Line
  added : String → String → Line
  removed_memberships : ℕ → String → String → Line
  listed : String → String → Line

abbrev pub usage_error : String
usage_error = "invalid admin command"

abbrev pub role_error : String
role_error = "role must be 'owner' or 'member'"

grant_role : String → String → Option Role → Prog String Store (List Line)
grant_role subject urc none = raise role_error
grant_role subject urc (some role) = do
  Store.grant subject urc role
  pure (granted role urc subject ∷ [])

-- the arms of the match, by the number of arguments
admin_grant : List String → Prog String Store (List Line)
unfolding grant_role
admin_grant (subject ∷ urc ∷ role ∷ []) = grant_role subject urc (parse role)
admin_grant _ = raise usage_error

admin_revoke : List String → Prog String Store (List Line)
admin_revoke (subject ∷ urc ∷ []) = do
  n ← Store.revoke subject urc
  pure (removed_grants n subject urc ∷ [])
admin_revoke _ = raise usage_error

admin_group_add : List String → Prog String Store (List Line)
admin_group_add (group ∷ subject ∷ []) = do
  Store.add_group_member group subject
  pure (added subject group ∷ [])
admin_group_add _ = raise usage_error

admin_group_del : List String → Prog String Store (List Line)
admin_group_del (group ∷ subject ∷ []) = do
  n ← Store.remove_group_member group subject
  pure (removed_memberships n subject group ∷ [])
admin_group_del _ = raise usage_error

admin_ls : List String → Prog String Store (List Line)
admin_ls (urc ∷ []) =
    gets (λ s. map (λ (subject, role). listed role subject) (list_grants urc s.tables))
admin_ls _ = raise usage_error

unfoldable pub run_admin : String → List String → Prog String Store (List Line)
unfolding admin_grant admin_revoke admin_group_add admin_group_del admin_ls
run_admin command rest =
    if command == "grant"
    then admin_grant rest
    else if command == "revoke"
    then admin_revoke rest
    else if command == "group-add"
    then admin_group_add rest
    else if command == "group-del"
    then admin_group_del rest
    else if command == "ls"
    then admin_ls rest
    else raise usage_error
