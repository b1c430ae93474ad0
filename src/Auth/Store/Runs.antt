-- ===== src/Auth/Store/Runs.antt =====
-- Sequences of the changing methods of auth/src/store.rs, whatever SQLite answers.
use kaguya.Base.{ℕ, String, List, [], ◌∷◌}
use kaguya.Auth.Store
use kaguya.Auth.Store.{Role, Store, Tables}

pub data Operation : Type 0 where
  record_owner : ℕ → String → String → String → Operation
  delete_resource : String → Operation
  grant : String → String → Role → Operation
  revoke : String → String → Operation
  add_group_member : String → String → Operation
  remove_group_member : String → String → Operation

-- The state that the method leaves, also when it fails.
unfoldable pub perform : Operation → Store → Store
perform (record_owner now subject urc_id name) s = (Store.record_owner now subject urc_id name s).1
perform (delete_resource urc_id) s = (Store.delete_resource urc_id s).1
perform (grant subject urc_id role) s = (Store.grant subject urc_id role s).1
perform (revoke subject urc_id) s = (Store.revoke subject urc_id s).1
perform (add_group_member grp subject) s = (Store.add_group_member grp subject s).1
perform (remove_group_member grp subject) s = (Store.remove_group_member grp subject s).1

unfoldable pub run : List Operation → Store → Store
unfolding perform
run [] s = s
run (o ∷ os) s = run os (perform o s)
