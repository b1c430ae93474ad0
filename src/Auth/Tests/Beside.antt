-- ===== src/Auth/Tests/Beside.antt =====
-- The service and a command beside it: a grant comes between the two statements of each call.
use kaguya.Base.{none, some, List, [], refl}
use kaguya.Auth.Store.{Tables, no_rows, member}
use kaguya.Auth.Store.Runs.{Operation}
use kaguya.Auth.Store.Processes.{
  Entry, Reach, begun, later, change, role_for, idle, command, query, row_inserted, owner_granted,
  grants_deleted, row_deleted,
}
use kaguya.Auth.Store.Processes.Moved.{Serial, SameCalls}
use kaguya.Auth.Store.Processes.Serial.{Reach-Serial}
use kaguya.Auth.Store.Processes.Valid.{Reach-IsValid}
use kaguya.Auth.Store.Statements.{IsValid}

record Beside : Type 0 where
  tables : Tables
  calls : List Entry
  reach : Reach no_rows tables idle calls

-- ada creates `r` and deletes it; both times bob is granted it in between
abbrev beside : Beside
unfolding kaguya.Auth.Store.insert_resource kaguya.Base.any
beside = record {
  tables = _;
  calls = _;
  reach =
      later
        (later
          (later
            (later
              (later
                (later (later begun (row_inserted 7 "ada" "r" "one" 1 refl refl))
                  (command (change (Operation.grant "bob" "r" member)) [] refl))
                (owner_granted none))
              (query (role_for "ada" "r") refl))
            (grants_deleted "r"))
          (command (change (Operation.grant "bob" "r" member)) [] refl))
        (row_deleted (some "disk full"));
}

Reach-Serial_example :
    (order : List Entry) × SameCalls order beside.calls × Serial no_rows order beside.tables
Reach-Serial_example = Reach-Serial beside.reach

no_rows-IsValid : IsValid no_rows
no_rows-IsValid = record { resource_keys = tt; grant_keys = tt; membership_keys = tt; roles = tt }

Reach-IsValid_example : IsValid beside.tables
Reach-IsValid_example = Reach-IsValid beside.reach no_rows-IsValid
