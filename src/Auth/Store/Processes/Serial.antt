-- ===== src/Auth/Store/Processes/Serial.antt =====
-- The two processes of Auth/Store/Processes, as one process that makes whole calls.
use mathlib.Core.Path.{subst}
use kaguya.Base.{
  ℕ, String, true, false, not, Option, none, some, List, [], ◌∷◌, ◌++◌, ok, ◌≡◌, refl, sym, arith,
  ltb, ◌==◌, retain, any,
}
use kaguya.Auth.Store
use kaguya.Auth.Store.{
  Tables, Store, Resource, execute, insert_resource, insert_grant, delete_grants, delete_resources,
}
use kaguya.Auth.Store.Runs.{Operation, perform}
use kaguya.Auth.Store.Processes.{
  Call, change, role_for, accessible, list_grants, Reply, of_unit, reply, respond, leave, is_admin,
  is_query, Entry, facing, whole, over, Place, idle, granting, deleting, row, ownership, Step,
  command, query, row_inserted, row_ignored, row_failed, owner_granted, grants_deleted,
  grants_failed, row_deleted, Reach, begun, later,
}
use kaguya.Auth.Store.Processes.Moved.{
  Serial, start, call, SameCalls, with_resources, command_elsewhere, SameCalls-cons, Commands,
  none_yet, and_then, Commands-resources, Commands-Serial, Commands-SameCalls,
}

-- how the calls that are over, and the one that is not, are explained by whole calls
abbrev Explained : Tables → Place → Tables → List Entry → Type 0
Explained first idle t calls = (order : List Entry) × SameCalls order calls × Serial first order t
Explained first (granting now subject urc_id name) t calls =
    (order : List Entry) × (t₀ : Tables) × SameCalls order calls
    × Serial first order t₀
    × (any (λ x. x.urc_id == urc_id) t₀.resources ≡ false)
    × (t ≡ with_resources (row now urc_id name ∷ t₀.resources) t₀)
Explained first (deleting urc_id) t calls =
    (before : List Entry) × (during : List Entry) × (t₀ : Tables) × SameCalls (during ++ before)
      calls
    × Serial first before t₀
    × Commands (delete_grants (λ g. g.urc_id == urc_id) t₀).0 during t

Serial-call :
    {first t t' : Tables} {order : List Entry} {r : Reply} (c : Call)
    (outcomes : List (Option String))
    → Serial first order t
    → respond c (facing outcomes t) ≡ r
    → leave c (facing outcomes t) ≡ t'
    → Serial first (record { call = c; outcomes = outcomes; answer = r } ∷ order) t'
Serial-call c outcomes s answers leaves = rw (← leaves, ← answers) (call c outcomes s)

command-Explained :
    (first : Tables) (p : Place) (t : Tables) (calls : List Entry) (c : Call)
    (outcomes : List (Option String))
    → is_admin c ≡ true
    → Explained first p t calls
    → Explained first p (leave c (facing outcomes t)) (whole c outcomes t ∷ calls)
command-Explained first idle t calls c outcomes admin (order, same, s) =
    (_, SameCalls-cons _ same, call c outcomes s)
command-Explained first (granting now subject urc_id name) t calls c outcomes admin
      (order, t₀, same, s, new, is) =
    let rs = row now urc_id name ∷ t₀.resources in
    let (answers, leaves, kept) = command_elsewhere c outcomes rs t₀ admin in
    (
      whole c outcomes t ∷ order,
      leave c (facing outcomes t₀),
      SameCalls-cons _ same,
      Serial-call c outcomes s (rw is (sym answers)) refl,
      rw kept new,
      rw (is, kept) leaves,
    )
command-Explained first (deleting urc_id) t calls c outcomes admin
      (before, during, t₀, same, s, ran) =
    (before, _, t₀, SameCalls-cons _ same, s, and_then c outcomes admin ran)

query-leave : (c : Call) (t : Tables) → is_query c ≡ true → leave c (facing [] t) ≡ t
unfolding leave
query-leave (change _) t h = cc
query-leave (role_for _ _) t h = refl
query-leave (accessible _) t h = refl
query-leave (list_grants _) t h = refl

-- the second statement of `record_owner` on these tables ends a run of whole calls
abbrev Granted :
    Tables → List Entry → ℕ → String → String → String → Option String → Tables → Type 0
Granted first order now subject urc_id name answer t =
    let after = execute (insert_grant (ownership subject urc_id)) (facing (answer ∷ []) t) in
    Serial first
      (over (Operation.record_owner now subject urc_id name) (none ∷ answer ∷ []) (of_unit after.0)
        ∷ order)
      after.1.tables

second-Explained :
    {first t : Tables} {order : List Entry} (now : ℕ) (subject urc_id name : String)
    (answer : Option String)
    → Serial first order t
    → any (λ x. x.urc_id == urc_id) t.resources ≡ false
    → Granted first order now subject urc_id name answer
        (with_resources (row now urc_id name ∷ t.resources) t)
unfolding respond leave reply perform Store.record_owner insert_resource insert_grant
second-Explained now subject urc_id name none s new =
    Serial-call (change (Operation.record_owner now subject urc_id name)) (none ∷ none ∷ []) s
      (rw new refl) (rw (new, leave) refl)
second-Explained now subject urc_id name (some e) s new =
    Serial-call (change (Operation.record_owner now subject urc_id name)) (none ∷ some e ∷ []) s
      (rw new refl) (rw (new, leave) refl)

Serial-unchanged :
    {first t : Tables} {order : List Entry} {rs : List Resource}
    → t.resources ≡ rs
    → Serial first order (with_resources rs t)
    → Serial first order t
Serial-unchanged kept s = rw (← kept) at s

row_deleted-Explained :
    {first t₀ t : Tables} {before during calls : List Entry} (urc_id : String)
    (answer : Option String)
    → SameCalls (during ++ before) calls
    → Serial first before t₀
    → Commands (delete_grants (λ g. g.urc_id == urc_id) t₀).0 during t
    → let after = execute (delete_resources urc_id) (facing (answer ∷ []) t) in
      Explained first idle after.1.tables
        (over (Operation.delete_resource urc_id) (none ∷ answer ∷ []) (of_unit after.0) ∷ calls)
unfolding respond leave reply perform Store.delete_resource delete_resources delete_grants
row_deleted-Explained {t₀} {before} {during} urc_id none same s ran =
    let kept = Commands-resources ran in
    let rs = retain (λ r. not (r.urc_id == urc_id)) t₀.resources in
    (
      _,
      Commands-SameCalls before _ refl ran same,
      rw kept (
          Commands-Serial rs ran (
            Serial-call (change (Operation.delete_resource urc_id)) (none ∷ none ∷ []) s refl
              refl)),
    )
row_deleted-Explained {t₀} {before} {during} urc_id (some e) same s ran = (
  _,
  Commands-SameCalls before _ refl ran same,
  Serial-unchanged (Commands-resources ran) (
      Commands-Serial t₀.resources ran
        (Serial-call (change (Operation.delete_resource urc_id)) (none ∷ some e ∷ []) s refl refl)),
)

row_inserted-new :
    (now : ℕ) (urc_id name : String) (n : ℕ) (t : Tables)
    → (execute (insert_resource (row now urc_id name)) (facing (none ∷ []) t)).0 ≡ ok n
    → ltb 0 n ≡ true
    → (any (λ x. x.urc_id == urc_id) t.resources ≡ false)
      × ((execute (insert_resource (row now urc_id name)) (facing (none ∷ []) t)).1.tables
          ≡ with_resources (row now urc_id name ∷ t.resources) t)
unfolding insert_resource
row_inserted-new now urc_id name n t told some_row = ground arith

row_ignored-known :
    (now : ℕ) (urc_id name : String) (n : ℕ) (t : Tables)
    → (execute (insert_resource (row now urc_id name)) (facing (none ∷ []) t)).0 ≡ ok n
    → ltb 0 n ≡ false
    → any (λ x. x.urc_id == urc_id) t.resources ≡ true
unfolding insert_resource
row_ignored-known now urc_id name n t told no_row = ground arith

Step-Explained :
    (first : Tables) {t t' : Tables} {p p' : Place} {calls calls' : List Entry}
    → Step t calls p t' p' calls'
    → Explained first p t calls
    → Explained first p' t' calls'
unfolding respond leave reply perform Store.record_owner Store.delete_resource insert_resource
Step-Explained first (command {p} c outcomes admin) why =
    command-Explained first p _ _ c outcomes admin why
Step-Explained first {t} (query c asks) (order, same, s) =
    (_, SameCalls-cons _ same, Serial-call c [] s refl (query-leave c t asks))
Step-Explained first {t} (row_inserted now subject urc_id name n told some_row) (order, same, s) =
    let (new, is) = row_inserted-new now urc_id name n t told some_row in
    (order, t, same, s, new, is)
Step-Explained first {t} (row_ignored now subject urc_id name n told no_row) (order, same, s) =
    let old = row_ignored-known now urc_id name n t told no_row in
    (
      _,
      SameCalls-cons _ same,
      Serial-call (change (Operation.record_owner now subject urc_id name)) (none ∷ []) s
          (rw old refl) (rw (old, leave) refl),
    )
Step-Explained first (row_failed now subject urc_id name e) (order, same, s) = (
  _,
  SameCalls-cons _ same,
  Serial-call (change (Operation.record_owner now subject urc_id name)) (some e ∷ []) s refl refl,
)
Step-Explained first (owner_granted {now} {subject} {urc_id} {name} answer)
      (order, t₀, same, s, new, is) =
    (
      _,
      SameCalls-cons _ same,
      subst (Granted first order now subject urc_id name answer) (sym is)
          (second-Explained now subject urc_id name answer s new),
    )
Step-Explained first {t} (grants_deleted urc_id) (order, same, s) =
    (order, [], t, same, s, none_yet)
Step-Explained first (grants_failed urc_id e) (order, same, s) = (
  _,
  SameCalls-cons _ same,
  Serial-call (change (Operation.delete_resource urc_id)) (some e ∷ []) s refl refl,
)
Step-Explained first (row_deleted {urc_id} answer) (before, during, t₀, same, s, ran) =
    row_deleted-Explained urc_id answer same s ran

Reach-Explained :
    {first t : Tables} {p : Place} {calls : List Entry}
    → Reach first t p calls
    → Explained first p t calls
Reach-Explained begun = ([], record { commands = refl; service = refl }, start)
Reach-Explained (later r step) = Step-Explained _ step (Reach-Explained r)

-- Although the commands of the other process may come between the two statements of
-- `record_owner` or `delete_resource`, which are no transaction, nobody can tell: whenever the
-- service is between calls, the tables, and the answers of all calls that are over, are those of
-- whole calls made one after another from the same tables, with the same answers of SQLite, failures
-- included, the service's calls in their own order and the commands in theirs.
pub Reach-Serial :
    {first t : Tables} {calls : List Entry}
    → Reach first t idle calls
    → (order : List Entry) × SameCalls order calls × Serial first order t
Reach-Serial r = Reach-Explained r
