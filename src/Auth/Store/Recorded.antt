-- ===== src/Auth/Store/Recorded.antt =====
-- How the statements of auth/src/store.rs change the role that is recorded under a key.
use kaguya.Base.{
  String, ◌≡◌, ◌≢◌, true, false, not, ◌&&◌, ◌==◌, eq_iff, Option, none, some, List, [], ◌∷◌, arith,
  refl, if◌then◌else◌, retain, any,
}
use kaguya.Auth.Store.{Resource, Grant, Membership, at_key, is_membership}

-- the role text of the row with this key
unfoldable pub recorded : List Grant → String → String → Option String
recorded [] s u = none
recorded (g ∷ gs) s u = if at_key s u g then some g.role else recorded gs s u

pub recorded-delete_key :
    (subject urc_id s u : String) (gs : List Grant)
    → recorded (retain (λ g. not (at_key subject urc_id g)) gs) s u
      ≡ (if s == subject && u == urc_id then none else recorded gs s u)
unfolding recorded retain
recorded-delete_key subject urc_id s u [] = ground (arith, eq_iff s subject)
recorded-delete_key subject urc_id s u (g ∷ gs) = ground (
  arith,
  recorded-delete_key subject urc_id s u gs,
  eq_iff s subject,
  eq_iff u urc_id,
  eq_iff g.subject s,
  eq_iff g.subject subject,
  eq_iff g.urc_id u,
  eq_iff g.urc_id urc_id,
)

pub recorded-delete_urc :
    (urc_id s u : String) (gs : List Grant)
    → recorded (retain (λ g. not (g.urc_id == urc_id)) gs) s u
      ≡ (if u == urc_id then none else recorded gs s u)
unfolding recorded retain
recorded-delete_urc urc_id s u [] = ground (arith, eq_iff u urc_id)
recorded-delete_urc urc_id s u (g ∷ gs) = ground (
  arith,
  recorded-delete_urc urc_id s u gs,
  eq_iff u urc_id,
  eq_iff g.subject s,
  eq_iff g.urc_id u,
  eq_iff g.urc_id urc_id,
)

pub known-delete :
    (urc_id u : String) (rs : List Resource)
    → any (λ r. r.urc_id == u) (retain (λ r. not (r.urc_id == urc_id)) rs)
      ≡ (not (u == urc_id) && any (λ r. r.urc_id == u) rs)
unfolding any retain
known-delete urc_id u [] = ground (arith, eq_iff u urc_id)
known-delete urc_id u (r ∷ rs) =
    ground
      (arith, known-delete urc_id u rs, eq_iff u urc_id, eq_iff r.urc_id u, eq_iff r.urc_id urc_id)

pub in_group-delete :
    (grp subject g s : String) (ms : List Membership)
    → any (is_membership g s) (retain (λ m. not (is_membership grp subject m)) ms)
      ≡ (not (g == grp && s == subject) && any (is_membership g s) ms)
unfolding any retain
in_group-delete grp subject g s [] = ground (arith, eq_iff g grp, eq_iff s subject)
in_group-delete grp subject g s (m ∷ ms) = ground (
  arith,
  in_group-delete grp subject g s ms,
  eq_iff g grp,
  eq_iff s subject,
  eq_iff m.grp g,
  eq_iff m.grp grp,
  eq_iff m.subject s,
  eq_iff m.subject subject,
)

pub recorded-any :
    (gs : List Grant) (s u : String) → any (at_key s u) gs ≡ true → recorded gs s u ≢ none
unfolding recorded any
recorded-any [] s u h = cc
recorded-any (g ∷ gs) s u h = ground (arith, recorded-any gs s u)

pub recorded-any-false :
    (gs : List Grant) (s u : String) → any (at_key s u) gs ≡ false → recorded gs s u ≡ none
unfolding recorded any
recorded-any-false [] s u h = refl
recorded-any-false (g ∷ gs) s u h = ground (arith, recorded-any-false gs s u)
