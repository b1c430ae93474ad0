-- ===== src/Auth/Store/Processes.antt =====
-- The database of auth/src/store.rs under two processes of auth/src/main.rs: the service, and
-- `kaguya-auth <command>`, started beside it on the same file. SQLite carries out one statement at
-- a time. The service's mutex keeps its own calls apart, and not those of the commands, which may
-- come between the two statements of `record_owner` or of `delete_resource`.
pub mod Moved
pub mod Serial
pub mod Valid
use kaguya.Base.{
  ℕ, String, Bool, true, false, Option, none, some, List, [], ◌∷◌, Result, ok, err, ◌≡◌, ◌==◌, ltb,
}
use kaguya.Auth.Store
use kaguya.Auth.Store.{Role, Tables, Store, execute, insert_resource, insert_grant}
use kaguya.Auth.Store.{delete_grants, delete_resources}
use kaguya.Auth.Store.Runs.{Operation, perform}

-- a call of one of the two, a change or a query
pub data Call : Type 0 where
  change : Operation → Call
  role_for : String → String → Call
  accessible : String → Call
  list_grants : String → Call

-- what it answers
pub data Reply : Type 0 where
  done : Reply
  counted : ℕ → Reply
  failed : String → Reply
  held : Option Role → Reply
  ids : List String → Reply
  listed : List (String × String) → Reply

abbrev pub of_unit : {A : Type 0} → Result String A → Reply
of_unit (ok a) = done
of_unit (err e) = failed e

abbrev pub of_count : Result String ℕ → Reply
of_count (ok n) = counted n
of_count (err e) = failed e

unfoldable pub reply : Operation → Store → Reply
reply (Operation.record_owner now subject urc_id name) s =
    of_unit (Store.record_owner now subject urc_id name s).0
reply (Operation.delete_resource urc_id) s = of_unit (Store.delete_resource urc_id s).0
reply (Operation.grant subject urc_id role) s = of_unit (Store.grant subject urc_id role s).0
reply (Operation.revoke subject urc_id) s = of_count (Store.revoke subject urc_id s).0
reply (Operation.add_group_member grp subject) s = of_unit (Store.add_group_member grp subject s).0
reply (Operation.remove_group_member grp subject) s =
    of_count (Store.remove_group_member grp subject s).0

unfoldable pub respond : Call → Store → Reply
unfolding reply
respond (change o) s = reply o s
respond (role_for subject urc_id) s = held (Store.role_for subject urc_id s.tables)
respond (accessible subject) s = ids (Store.accessible subject s.tables)
respond (list_grants urc_id) s = listed (Store.list_grants urc_id s.tables)

unfoldable pub leave : Call → Store → Tables
unfolding perform
leave (change o) s = (perform o s).tables
leave _ s = s.tables

-- the calls of `run_admin`; the others are the service's
abbrev pub is_admin : Call → Bool
is_admin (change (Operation.record_owner _ _ _ _)) = false
is_admin (change (Operation.delete_resource _)) = false
is_admin (change _) = true
is_admin (list_grants _) = true
is_admin _ = false

abbrev pub is_query : Call → Bool
is_query (change _) = false
is_query _ = true

-- a call that is over: what SQLite answered to its statements, and what it answered itself
pub record Entry : Type 0 where
  pub call : Call
  pub outcomes : List (Option String)
  pub answer : Reply

abbrev pub facing : List (Option String) → Tables → Store
facing outcomes t = record { tables = t; outcomes = outcomes }

-- the call carried out in one piece on these tables
abbrev pub whole : Call → List (Option String) → Tables → Entry
whole c outcomes t = record {
  call = c;
  outcomes = outcomes;
  answer = respond c (facing outcomes t);
}

-- where the service stands: between calls, or between the two statements of one
pub data Place : Type 0 where
  idle : Place
  granting : ℕ → String → String → String → Place
  deleting : String → Place

abbrev pub row : ℕ → String → String → Store.Resource
row now urc_id name = record { urc_id = urc_id; name = name; created_at = now }

abbrev pub ownership : String → String → Store.Grant
ownership subject urc_id = record { subject = subject; urc_id = urc_id; role = "owner" }

abbrev pub over : Operation → List (Option String) → Reply → Entry
over o outcomes answer = record { call = change o; outcomes = outcomes; answer = answer }

-- One statement, with SQLite's answer to it. The calls that are over stand with the last first.
pub data Step (t : Tables) (calls : List Entry) : Place → Tables → Place → List Entry → Type 0 where
  command :
      {p : Place} (c : Call) (outcomes : List (Option String))
      → is_admin c ≡ true
      → Step t calls p (leave c (facing outcomes t)) p (whole c outcomes t ∷ calls)
  query : (c : Call) → is_query c ≡ true → Step t calls idle t idle (whole c [] t ∷ calls)
  row_inserted :
      (now : ℕ) (subject urc_id name : String) (n : ℕ)
      → (execute (insert_resource (row now urc_id name)) (facing (none ∷ []) t)).0 ≡ ok n
      → ltb 0 n ≡ true
      → Step t calls idle
          (execute (insert_resource (row now urc_id name)) (facing (none ∷ []) t)).1.tables
          (granting now subject urc_id name)
          calls
  row_ignored :
      (now : ℕ) (subject urc_id name : String) (n : ℕ)
      → (execute (insert_resource (row now urc_id name)) (facing (none ∷ []) t)).0 ≡ ok n
      → ltb 0 n ≡ false
      → Step t calls idle
          (execute (insert_resource (row now urc_id name)) (facing (none ∷ []) t)).1.tables
          idle
          (over (Operation.record_owner now subject urc_id name) (none ∷ []) done ∷ calls)
  row_failed :
      (now : ℕ) (subject urc_id name e : String)
      → Step t calls idle
          (execute (insert_resource (row now urc_id name)) (facing (some e ∷ []) t)).1.tables
          idle
          (over (Operation.record_owner now subject urc_id name) (some e ∷ []) (failed e) ∷ calls)
  owner_granted :
      {now : ℕ} {subject urc_id name : String} (answer : Option String)
      → Step t calls
          (granting now subject urc_id name)
          (execute (insert_grant (ownership subject urc_id)) (facing (answer ∷ []) t)).1.tables
          idle
          (over (Operation.record_owner now subject urc_id name) (none ∷ answer ∷ []) (
              of_unit
                (execute (insert_grant (ownership subject urc_id)) (facing (answer ∷ []) t)).0)
            ∷ calls)
  grants_deleted :
      (urc_id : String)
      → Step t calls idle
          (execute (delete_grants (λ g. g.urc_id == urc_id)) (facing (none ∷ []) t)).1.tables
          (deleting urc_id)
          calls
  grants_failed :
      (urc_id e : String)
      → Step t calls idle
          (execute (delete_grants (λ g. g.urc_id == urc_id)) (facing (some e ∷ []) t)).1.tables
          idle
          (over (Operation.delete_resource urc_id) (some e ∷ []) (failed e) ∷ calls)
  row_deleted :
      {urc_id : String} (answer : Option String)
      → Step t calls
          (deleting urc_id)
          (execute (delete_resources urc_id) (facing (answer ∷ []) t)).1.tables
          idle
          (over
              (Operation.delete_resource urc_id)
              (none ∷ answer ∷ [])
              (of_unit (execute (delete_resources urc_id) (facing (answer ∷ []) t)).0)
            ∷ calls)

-- what the two processes can do, from these tables on
pub data Reach (first : Tables) : Tables → Place → List Entry → Type 0 where
  begun : Reach first first idle []
  later :
      {t t' : Tables} {p p' : Place} {calls calls' : List Entry}
      → Reach first t p calls
      → Step t calls p t' p' calls'
      → Reach first t' p' calls'
