-- ===== src/Auth/Store.antt =====
-- auth/src/store.rs: who may access which repository. The tables are those of SCHEMA, as lists of
-- rows, and each SQL statement of the file is a function on them. SQLite itself is not modelled:
-- `outcomes` says what it will answer to the statements to come (`none`: done; `some e`: failed
-- with `e`, the tables as they were, since SQLite undoes a failed statement). When the list is used
-- up every statement is done. The order of the rows in a table means nothing to SQL: a new row is
-- put at the head, and the theorems hold for tables in any order.
pub mod Access
pub mod Runs
pub mod Reads
pub mod Statements
pub mod Recorded
pub mod Validity
pub mod Acl
pub mod Unordered
pub mod Contents
pub mod Owners
pub mod Listed
pub mod Processes
use Prim.Native.String.{◌++◌ as join, compare}
use text.Mathlib.Text.{is_le}
use kaguya.Base.{
  ℕ, String, Bool, not, ◌&&◌, ◌||◌, ◌==◌, Option, none, some, List, [], ◌∷◌, map, if◌then◌else◌,
  ltb, length, retain, any, contains, Result, ok, err, Prog, pure, ◌>>=◌, ◌>>◌,
}

pub data Role : Type 0 where
  member owner : Role

unfoldable pub as_str : Role → String
as_str owner = "owner"
as_str member = "member"

unfoldable pub parse : String → Option Role
parse s =
    if s == "owner"
    then some owner
    else if s == "member" || (s == "writer" || s == "reader")
    then some member
    else none

unfoldable pub permissions : Role → List String
permissions owner = "owner" ∷ "admin" ∷ "obliterate" ∷ "migrate" ∷ "read" ∷ "write" ∷ []
permissions member = "read" ∷ "write" ∷ []

-- the derived `Ord`: `Member` is declared first
abbrev pub max_role : Role → Role → Role
max_role owner r = owner
max_role member r = r

-- the three tables of SCHEMA
pub record Resource : Type 0 where
  pub urc_id : String
  pub name : String
  pub created_at : ℕ

pub record Grant : Type 0 where
  pub subject : String
  pub urc_id : String
  pub role : String

pub record Membership : Type 0 where
  pub grp : String
  pub subject : String

pub record Tables : Type 0 where
  pub resources : List Resource
  pub grants : List Grant
  pub group_members : List Membership

pub record Store : Type 0 where
  pub tables : Tables
  pub open tables use *
  pub outcomes : List (Option String)

-- `Connection::execute`: the rows that the statement changed, or SQLite's error
abbrev run_statement :
    (Tables → Tables × ℕ) → Tables → List (Option String) → Result String ℕ × Store
run_statement f t [] = let (t', n) = f t in (ok n, record { tables = t'; outcomes = [] })
run_statement f t (none ∷ later) =
    let (t', n) = f t in (ok n, record { tables = t'; outcomes = later })
run_statement f t (some e ∷ later) = (err e, record { tables = t; outcomes = later })

abbrev pub execute : (Tables → Tables × ℕ) → Prog String Store ℕ
execute f s = run_statement f s.tables s.outcomes

-- INSERT OR IGNORE INTO resources(urc_id, name, created_at); the key is urc_id
unfoldable pub insert_resource : Resource → Tables → Tables × ℕ
insert_resource r t =
    if any (λ x. x.urc_id == r.urc_id) t.resources
    then (t, 0)
    else (record t { resources = r ∷ t.resources }, 1)

-- a row of `grants` has this key
abbrev pub at_key : String → String → Grant → Bool
at_key subject urc_id g = g.subject == subject && g.urc_id == urc_id

-- INSERT OR IGNORE INTO grants(subject, urc_id, role); the key is (subject, urc_id)
unfoldable pub insert_grant : Grant → Tables → Tables × ℕ
insert_grant g t =
    if any (at_key g.subject g.urc_id) t.grants
    then (t, 0)
    else (record t { grants = g ∷ t.grants }, 1)

-- INSERT OR REPLACE INTO grants(subject, urc_id, role)
unfoldable pub replace_grant : Grant → Tables → Tables × ℕ
replace_grant g t =
    (record t { grants = g ∷ retain (λ x. not (at_key g.subject g.urc_id x)) t.grants }, 1)

-- DELETE FROM grants WHERE …
unfoldable pub delete_grants : (Grant → Bool) → Tables → Tables × ℕ
delete_grants p t =
    (record t { grants = retain (λ g. not (p g)) t.grants }, length (retain p t.grants))

-- DELETE FROM resources WHERE urc_id = ?
unfoldable pub delete_resources : String → Tables → Tables × ℕ
delete_resources urc_id t = (
  record t { resources = retain (λ r. not (r.urc_id == urc_id)) t.resources },
  length (retain (λ r. r.urc_id == urc_id) t.resources),
)

abbrev pub is_membership : String → String → Membership → Bool
is_membership grp subject m = m.grp == grp && m.subject == subject

-- INSERT OR IGNORE INTO group_members(grp, subject)
unfoldable pub insert_membership : Membership → Tables → Tables × ℕ
insert_membership m t =
    if any (is_membership m.grp m.subject) t.group_members
    then (t, 0)
    else (record t { group_members = m ∷ t.group_members }, 1)

-- DELETE FROM group_members WHERE grp = ? AND subject = ?
unfoldable pub delete_memberships : String → String → Tables → Tables × ℕ
delete_memberships grp subject t = (
  record t { group_members = retain (λ m. not (is_membership grp subject m)) t.group_members },
  length (retain (is_membership grp subject) t.group_members),
)

-- `CREATE TABLE IF NOT EXISTS` on a new database
abbrev pub no_rows : Tables
no_rows = record { resources = []; grants = []; group_members = [] }

unfoldable pub record_owner : ℕ → String → String → String → Prog String Store Unit
record_owner now subject urc_id name = do
  created ← execute (insert_resource (record { urc_id = urc_id; name = name; created_at = now }))
  if ltb 0 created
      then (do
        execute (insert_grant (record { subject = subject; urc_id = urc_id; role = "owner" }))
        pure tt)
      else pure tt

unfoldable pub delete_resource : String → Prog String Store Unit
delete_resource urc_id = do
  execute (delete_grants (λ g. g.urc_id == urc_id))
  execute (delete_resources urc_id)
  pure tt

unfoldable pub grant : String → String → Role → Prog String Store Unit
grant subject urc_id role = do
  execute (replace_grant (record { subject = subject; urc_id = urc_id; role = as_str role }))
  pure tt

unfoldable pub revoke : String → String → Prog String Store ℕ
revoke subject urc_id = execute (delete_grants (at_key subject urc_id))

unfoldable pub add_group_member : String → String → Prog String Store Unit
add_group_member grp subject = do
  execute (insert_membership (record { grp = grp; subject = subject }))
  pure tt

unfoldable pub remove_group_member : String → String → Prog String Store ℕ
remove_group_member grp subject = execute (delete_memberships grp subject)

-- SELECT 'group:' || grp FROM group_members WHERE subject = ?2
unfoldable pub groups_of : String → List Membership → List String
groups_of subject [] = []
groups_of subject (m ∷ ms) =
    if m.subject == subject
    then join "group:" m.grp ∷ groups_of subject ms
    else groups_of subject ms

-- subject = ?2 OR subject IN (…)
unfoldable pub is_held : String → List Membership → Grant → Bool
is_held subject ms g = g.subject == subject || contains (groups_of subject ms) g.subject

-- the rows that `role_for` reads
abbrev pub is_selected : String → String → List Membership → Grant → Bool
is_selected subject urc_id ms g = g.urc_id == urc_id && is_held subject ms g

-- one round of the loop of `role_for`
unfoldable pub stronger : Option Role → Option Role → Option Role
stronger best none = best
stronger none (some role) = some role
stronger (some b) (some role) = some (max_role b role)

-- The queries, as they answer where SQLite carries out their SELECT in full: `read_role`,
-- `read_accessible` and `read_grants` of Store/Reads have what they do where it does not.

-- the loop of `role_for`, over the texts of the rows
unfoldable pub best_of : Option Role → List Grant → Option Role
best_of best [] = best
best_of best (g ∷ rows) = best_of (stronger best (parse g.role)) rows

unfoldable pub role_for : String → String → Tables → Option Role
role_for subject urc_id t =
    best_of none (retain (is_selected subject urc_id t.group_members) t.grants)

-- SELECT DISTINCT: a row is given once
unfoldable pub distinct : List String → List String
distinct [] = []
distinct (x ∷ xs) = let rest = distinct xs in if contains rest x then rest else x ∷ rest

unfoldable pub accessible : String → Tables → List String
accessible subject t =
    distinct (map (λ g. g.urc_id) (retain (is_held subject t.group_members) t.grants))

-- ORDER BY subject, in the byte order of SQLite's BINARY collation
unfoldable pub insert_by_subject : Grant → List Grant → List Grant
insert_by_subject g [] = g ∷ []
insert_by_subject g (x ∷ xs) =
    if is_le (compare g.subject x.subject) then g ∷ x ∷ xs else x ∷ insert_by_subject g xs

unfoldable pub order_by_subject : List Grant → List Grant
unfolding insert_by_subject
order_by_subject [] = []
order_by_subject (g ∷ gs) = insert_by_subject g (order_by_subject gs)

unfoldable pub list_grants : String → Tables → List (String × String)
unfolding order_by_subject
list_grants urc_id t =
    map (λ g. (g.subject, g.role)) (order_by_subject (retain (λ g. g.urc_id == urc_id) t.grants))
