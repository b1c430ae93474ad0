-- ===== src/Auth/Store/Reads.antt =====
-- The queries of auth/src/store.rs where SQLite may fail them. Each is made under a lock of its own:
-- `Reading` is what it then finds. If SQLite refuses the SELECT, or an earlier panic has poisoned the
-- lock, the method panics, and its answer here is `none`; a row that cannot be read is left out.
use kaguya.Base.{String, Bool, true, false, Option, none, some, List, [], ◌∷◌, ◌≡◌, refl, retain}
use kaguya.Auth.Store.{
  Role, owner, member, Grant, Tables, parse, is_selected, stronger, best_of, role_for, accessible,
  list_grants,
}

-- what SQLite answers to a SELECT: a failure, or its rows, with those marked that cannot be read
-- (the rows behind the end of the list can)
pub data Select : Type 0 where
  fails : Select
  gives : (lost : List Bool) → Select

pub record Reading : Type 0 where
  pub tables : Tables
  pub answer : Select

-- a reading at which nothing fails
abbrev pub whole : Tables → Reading
whole t = record { tables = t; answer = gives [] }

-- `rows.flatten()`
unfoldable pub flatten : {A : Type 0} → List Bool → List A → List A
flatten lost [] = []
flatten [] (x ∷ xs) = x ∷ xs
flatten (true ∷ lost) (x ∷ xs) = flatten lost xs
flatten (false ∷ lost) (x ∷ xs) = x ∷ flatten lost xs

abbrev queried : {A : Type 0} → Select → (List Bool → A) → Option A
queried fails rows = none
queried (gives lost) rows = some (rows lost)

unfoldable pub read_role : String → String → Reading → Option (Option Role)
read_role subject urc_id r = queried r.answer (λ lost.
    best_of none
      (flatten lost (retain (is_selected subject urc_id r.tables.group_members) r.tables.grants)))

unfoldable pub read_accessible : String → Reading → Option (List String)
read_accessible subject r = queried r.answer (λ lost. flatten lost (accessible subject r.tables))

unfoldable pub read_grants : String → Reading → Option (List (String × String))
read_grants urc_id r = queried r.answer (λ lost. flatten lost (list_grants urc_id r.tables))

flatten-all : {A : Type 0} (xs : List A) → flatten [] xs ≡ xs
unfolding flatten
flatten-all [] = refl
flatten-all (x ∷ xs) = refl

-- Where nothing fails the readings are the queries.
pub read_role-whole :
    (subject urc_id : String) (t : Tables)
    → read_role subject urc_id (whole t) ≡ some (role_for subject urc_id t)
unfolding read_role role_for
read_role-whole subject urc_id t =
    rw (flatten-all (retain (is_selected subject urc_id t.group_members) t.grants)) refl

pub read_accessible-whole :
    (subject : String) (t : Tables)
    → read_accessible subject (whole t) ≡ some (accessible subject t)
unfolding read_accessible
read_accessible-whole subject t = rw (flatten-all (accessible subject t)) refl

-- the first role is at most the second
abbrev pub AtMost : Option Role → Option Role → Type 0
AtMost none _ = Unit
AtMost (some member) (some _) = Unit
AtMost (some owner) (some owner) = Unit
AtMost _ _ = ⊥

stronger-AtMost :
    (b b' x : Option Role)
    → AtMost b b'
    → AtMost (stronger b x) (stronger b' x) × AtMost b (stronger b' x)
unfolding stronger
stronger-AtMost b b' none h = (h, h)
stronger-AtMost none none (some owner) h = (tt, tt)
stronger-AtMost none none (some member) h = (tt, tt)
stronger-AtMost none (some owner) (some owner) h = (tt, tt)
stronger-AtMost none (some owner) (some member) h = (tt, tt)
stronger-AtMost none (some member) (some owner) h = (tt, tt)
stronger-AtMost none (some member) (some member) h = (tt, tt)
stronger-AtMost (some owner) (some owner) (some r) h = (tt, tt)
stronger-AtMost (some member) (some owner) (some owner) h = (tt, tt)
stronger-AtMost (some member) (some owner) (some member) h = (tt, tt)
stronger-AtMost (some member) (some member) (some owner) h = (tt, tt)
stronger-AtMost (some member) (some member) (some member) h = (tt, tt)
stronger-AtMost (some owner) (some member) (some r) h = absurd h
stronger-AtMost (some owner) none (some r) h = absurd h
stronger-AtMost (some member) none (some r) h = absurd h

best_of-AtMost :
    (lost : List Bool) (rows : List Grant) (b b' : Option Role)
    → AtMost b b'
    → AtMost (best_of b (flatten lost rows)) (best_of b' rows)
unfolding flatten best_of
best_of-AtMost lost [] b b' h = h
best_of-AtMost [] (g ∷ rows) b b' h = rw (flatten-all rows) at (
    best_of-AtMost [] rows (stronger b (parse g.role)) (stronger b' (parse g.role))
      (stronger-AtMost b b' (parse g.role) h).0)
best_of-AtMost (true ∷ lost) (g ∷ rows) b b' h =
    best_of-AtMost lost rows b (stronger b' (parse g.role))
      (stronger-AtMost b b' (parse g.role) h).1
best_of-AtMost (false ∷ lost) (g ∷ rows) b b' h =
    best_of-AtMost lost rows (stronger b (parse g.role)) (stronger b' (parse g.role))
      (stronger-AtMost b b' (parse g.role) h).0

queried-AtMost :
    (s : Select) (rows : List Bool → Option Role) (found bound : Option Role)
    → queried s rows ≡ some found
    → ((lost : List Bool) → AtMost (rows lost) bound)
    → AtMost found bound
queried-AtMost fails rows found bound e h = cc
queried-AtMost (gives lost) rows found bound e h =
    let same : ◌≡◌ {A = Option (Option Role)} (some (rows lost)) (some found) = e in
    let is : rows lost ≡ found = cc in rw is at (h lost)

-- Failures of SQLite give nobody a role: a reading at which rows are lost finds at most the role that
-- `role_for` gives on these tables.
pub read_role-AtMost :
    (subject urc_id : String) (r : Reading) {found : Option Role}
    → read_role subject urc_id r ≡ some found
    → AtMost found (role_for subject urc_id r.tables)
unfolding read_role role_for
read_role-AtMost subject urc_id r {found} e =
    queried-AtMost r.answer _ found (role_for subject urc_id r.tables) e (λ lost.
      best_of-AtMost lost
        (retain (is_selected subject urc_id r.tables.group_members) r.tables.grants) none none tt)
