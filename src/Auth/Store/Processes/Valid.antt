-- ===== src/Auth/Store/Processes/Valid.antt =====
-- The tables under the two processes of Auth/Store/Processes, at every moment.
use kaguya.Base.{String, Option, List, [], ◌∷◌, none, ◌==◌}
use kaguya.Auth.Store.{Tables, insert_resource, insert_grant, delete_grants, delete_resources}
use kaguya.Auth.Store.Statements.{
  IsValid, insert_resource-IsValid, insert_grant-IsValid, delete_grants-IsValid,
  delete_resources-IsValid,
}
use kaguya.Auth.Store.Validity.{execute-IsValid, owner_row-HasRole, perform-IsValid}
use kaguya.Auth.Store.Processes.{
  Call, change, role_for, accessible, list_grants, leave, Entry, facing, Place, row, ownership,
  Step, command, query, row_inserted, row_ignored, row_failed, owner_granted, grants_deleted,
  grants_failed, row_deleted, Reach, begun, later,
}

leave-IsValid :
    (c : Call) (outcomes : List (Option String)) (t : Tables)
    → IsValid t
    → IsValid (leave c (facing outcomes t))
unfolding leave
leave-IsValid (change o) outcomes t v = perform-IsValid o (facing outcomes t) v
leave-IsValid (role_for _ _) outcomes t v = v
leave-IsValid (accessible _) outcomes t v = v
leave-IsValid (list_grants _) outcomes t v = v

Step-IsValid :
    {t t' : Tables} {p p' : Place} {calls calls' : List Entry}
    → Step t calls p t' p' calls'
    → IsValid t
    → IsValid t'
Step-IsValid {t} (command c outcomes admin) v = leave-IsValid c outcomes t v
Step-IsValid (query c asks) v = v
Step-IsValid {t} (row_inserted now subject urc_id name n told some_row) v =
    execute-IsValid (insert_resource (row now urc_id name)) (facing (none ∷ []) t)
      (insert_resource-IsValid (row now urc_id name)) v
Step-IsValid {t} (row_ignored now subject urc_id name n told no_row) v =
    execute-IsValid (insert_resource (row now urc_id name)) (facing (none ∷ []) t)
      (insert_resource-IsValid (row now urc_id name)) v
Step-IsValid (row_failed now subject urc_id name e) v = v
Step-IsValid {t} (owner_granted {subject} {urc_id} answer) v =
    execute-IsValid (insert_grant (ownership subject urc_id)) (facing (answer ∷ []) t)
      (λ t'. insert_grant-IsValid (ownership subject urc_id) t' (owner_row-HasRole subject urc_id))
      v
Step-IsValid {t} (grants_deleted urc_id) v =
    execute-IsValid (delete_grants (λ g. g.urc_id == urc_id)) (facing (none ∷ []) t)
      (delete_grants-IsValid (λ g. g.urc_id == urc_id)) v
Step-IsValid (grants_failed urc_id e) v = v
Step-IsValid {t} (row_deleted {urc_id} answer) v =
    execute-IsValid (delete_resources urc_id) (facing (answer ∷ []) t)
      (delete_resources-IsValid urc_id) v

-- Whatever the service and the commands beside it do, statement by statement, and whatever
-- statements SQLite fails on the way: at every moment, also between the two statements of a call,
-- the primary keys are unique and every stored role is one that `parse` knows, if that was so when
-- they began.
pub Reach-IsValid :
    {first t : Tables} {p : Place} {calls : List Entry}
    → Reach first t p calls
    → IsValid first
    → IsValid t
Reach-IsValid begun v = v
Reach-IsValid (later r step) v = Step-IsValid step (Reach-IsValid r v)
