-- ===== src/Auth/Store/Processes/Moved.antt =====
-- Whole calls on the database of auth/src/store.rs, one after another, and where the commands of
-- the other process may be moved among them.
use kaguya.Base.{
  String, true, false, not, Option, none, some, List, [], ◌∷◌, ◌++◌, ◌≡◌, refl, ap, sym, ◌∙◌, arith,
  retain,
}
use kaguya.Auth.Store
use kaguya.Auth.Store.{
  Tables, Store, Resource, replace_grant, insert_membership, delete_grants, delete_memberships,
}
use kaguya.Auth.Store.Runs.{Operation, perform}
use kaguya.Auth.Store.Processes.{
  Call, change, role_for, accessible, list_grants, reply, respond, leave, is_admin, Entry, facing,
  whole,
}

-- whole calls, one after another, with the tables that they leave; the last stands first
pub data Serial (first : Tables) : List Entry → Tables → Type 0 where
  start : Serial first [] first
  call :
      {calls : List Entry} {t : Tables} (c : Call) (outcomes : List (Option String))
      → Serial first calls t
      → Serial first (whole c outcomes t ∷ calls) (leave c (facing outcomes t))

abbrev pub of_commands : List Entry → List Entry
of_commands = retain (λ e. is_admin e.call)

abbrev pub of_service : List Entry → List Entry
of_service = retain (λ e. not (is_admin e.call))

-- the same calls with the same answers, those of each process in the same order
pub record SameCalls (some_order other : List Entry) : Type 0 where
  pub commands : of_commands some_order ≡ of_commands other
  pub service : of_service some_order ≡ of_service other

-- the tables, but for their resources
abbrev pub with_resources : List Resource → Tables → Tables
with_resources rs t = record t { resources = rs }

-- A command reads no resource and changes none.
pub command_elsewhere :
    (c : Call) (outcomes : List (Option String)) (rs : List Resource) (t : Tables)
    → is_admin c ≡ true
    → (respond c (facing outcomes (with_resources rs t)) ≡ respond c (facing outcomes t))
      × (leave c (facing outcomes (with_resources rs t))
          ≡ with_resources rs (leave c (facing outcomes t)))
      × ((leave c (facing outcomes t)).resources ≡ t.resources)
unfolding respond leave reply perform Store.grant Store.revoke Store.add_group_member
    Store.remove_group_member replace_grant insert_membership delete_grants delete_memberships
    Store.list_grants
command_elsewhere (change (Operation.record_owner _ _ _ _)) _ rs t h = cc
command_elsewhere (change (Operation.delete_resource _)) _ rs t h = cc
command_elsewhere (change _) [] rs t h = ground arith
command_elsewhere (change _) (none ∷ _) rs t h = ground arith
command_elsewhere (change _) (some e ∷ _) rs t h = ground arith
command_elsewhere (role_for _ _) _ rs t h = cc
command_elsewhere (accessible _) _ rs t h = cc
command_elsewhere (list_grants _) _ rs t h = (refl, refl, refl)

pub SameCalls-cons :
    (e : Entry) {xs ys : List Entry} → SameCalls xs ys → SameCalls (e ∷ xs) (e ∷ ys)
unfolding retain
SameCalls-cons e same = record { commands = ground arith; service = ground arith }
  where
    open same use {commands, service}

-- commands alone, one after another
pub data Commands (first : Tables) : List Entry → Tables → Type 0 where
  none_yet : Commands first [] first
  and_then :
      {calls : List Entry} {t : Tables} (c : Call) (outcomes : List (Option String))
      → is_admin c ≡ true
      → Commands first calls t
      → Commands first (whole c outcomes t ∷ calls) (leave c (facing outcomes t))

pub Commands-resources :
    {first t : Tables} {calls : List Entry} → Commands first calls t → t.resources ≡ first.resources
Commands-resources none_yet = refl
Commands-resources {first} (and_then {t} c outcomes admin before) =
    (command_elsewhere c outcomes [] t admin).2 ∙ Commands-resources before

-- What commands do is done as well whatever rows the resources have, and after whatever calls.
pub Commands-Serial :
    {first t₁ t : Tables} {calls before : List Entry} (rs : List Resource)
    → Commands t₁ calls t
    → Serial first before (with_resources rs t₁)
    → Serial first (calls ++ before) (with_resources rs t)
Commands-Serial rs none_yet s = s
Commands-Serial rs (and_then {t} c outcomes admin more) s =
    let (answers, leaves, _) = command_elsewhere c outcomes rs t admin in
    rw (← answers, ← leaves) (call c outcomes (Commands-Serial rs more s))

of_service-Commands :
    {t₁ t : Tables} {during : List Entry} (before : List Entry)
    → Commands t₁ during t
    → of_service (during ++ before) ≡ of_service before
unfolding retain
of_service-Commands before none_yet = refl
of_service-Commands before (and_then c outcomes admin more) =
    rw admin (of_service-Commands before more)

of_commands-skip :
    (during before : List Entry) (e : Entry)
    → is_admin e.call ≡ false
    → of_commands (during ++ e ∷ before) ≡ of_commands (during ++ before)
unfolding retain
of_commands-skip [] before e service = rw service
of_commands-skip (x ∷ during) before e service =
    ground (arith, of_commands-skip during before e service)

-- A call of the service may stand before the commands that came during it.
pub Commands-SameCalls :
    {t₁ t : Tables} {during calls : List Entry} (before : List Entry) (e : Entry)
    → is_admin e.call ≡ false
    → Commands t₁ during t
    → SameCalls (during ++ before) calls
    → SameCalls (during ++ e ∷ before) (e ∷ calls)
unfolding retain
Commands-SameCalls {during} before e service ran same = record {
  commands = rw service (of_commands-skip during before e service ∙ same.commands);
  service =
      rw (of_service-Commands (e ∷ before) ran, service)
        (ap (◌∷◌ e) (sym (of_service-Commands before ran) ∙ same.service));
}
