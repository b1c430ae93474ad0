-- ===== src/Auth/Store/Listed.antt =====
-- The listing of the admin command `ls`: `list_grants` of auth/src/store.rs.
use Prim.Native.Char.{code}
use Prim.Native.Nat.{Ordering, compare as compare_ℕ}
use Prim.Native.String.{compare, then as lexicographic}
use Prim.Native.String.compare.{nil-nil, nil-cons, cons-nil, cons-cons}
use mathlib.Core.List.{Perm}
use mathlib.Core.List.Perm
use text.Mathlib.Text.{is_le}
use text.Mathlib.TextEquality.{path_by_compare}
use kaguya.Base.{
  ℕ, String, Bool, true, false, ◌==◌, eq_iff, List, [], ◌∷◌, map, ◌≡◌, arith, refl, retain, any,
  if◌then◌else◌, Bool-cases, inl, inr,
}
use kaguya.Auth.Store.{Grant, Tables, insert_by_subject, order_by_subject, list_grants}
use kaguya.Auth.Store.Statements.{HasKeys, same_grant, IsValid}

abbrev flip : Ordering → Ordering
flip Ordering.lt = Ordering.gt
flip Ordering.eq = Ordering.eq
flip Ordering.gt = Ordering.lt

flip-lexicographic : (a b : Ordering) → flip (lexicographic a b) ≡ lexicographic (flip a) (flip b)
flip-lexicographic Ordering.lt b = refl
flip-lexicographic Ordering.eq b = refl
flip-lexicographic Ordering.gt b = refl

flip-compare_ℕ : (m n : ℕ) → compare_ℕ n m ≡ flip (compare_ℕ m n)
flip-compare_ℕ m n = ground arith

flip-compare : (s t : String) → compare t s ≡ flip (compare s t)
flip-compare String.[] String.[] = rw nil-nil
flip-compare String.[] (String.◌∷◌ d t) = rw (nil-cons, cons-nil)
flip-compare (String.◌∷◌ c s) String.[] = rw (nil-cons, cons-nil)
flip-compare (String.◌∷◌ c s) (String.◌∷◌ d t) =
    let letters = compare_ℕ (code c) (code d) in
    rw (
      cons-cons c d s t,
      cons-cons d c t s,
      flip-compare_ℕ (code c) (code d),
      flip-compare s t,
      flip-lexicographic letters (compare s t),
    )

-- each key before the next, in the order of the texts' bytes
module _ {A : Type 0} (key : A → String) where
  abbrev pub IsBeforeFirst : A → List A → Type 0
  IsBeforeFirst x [] = Unit
  IsBeforeFirst x (y ∷ ys) = compare (key x) (key y) ≡ Ordering.lt

  abbrev pub IsAscending : List A → Type 0
  IsAscending [] = Unit
  IsAscending (x ∷ xs) = IsBeforeFirst x xs × IsAscending xs

abbrev by_subject : Grant → Grant → Bool
by_subject x y = y.subject == x.subject

compare-new :
    (s t : String) → (t == s) ≡ false → is_le (compare s t) ≡ true → compare s t ≡ Ordering.lt
compare-new s t ne le = ground (arith, path_by_compare s t, eq_iff t s)

compare-old : (s t : String) → is_le (compare s t) ≡ false → compare t s ≡ Ordering.lt
compare-old s t gt = ground (arith, flip-compare s t)

insert-IsBeforeFirst :
    (y g : Grant) (xs : List Grant)
    → IsBeforeFirst (λ g. g.subject) y xs
    → compare y.subject g.subject ≡ Ordering.lt
    → IsBeforeFirst (λ g. g.subject) y (insert_by_subject g xs)
unfolding insert_by_subject
insert-IsBeforeFirst y g [] first lt = lt
insert-IsBeforeFirst y g (x ∷ xs) first lt = ground arith

insert-IsAscending :
    (g : Grant) (xs : List Grant)
    → any (by_subject g) xs ≡ false
    → IsAscending (λ g. g.subject) xs
    → IsAscending (λ g. g.subject) (insert_by_subject g xs)
unfolding insert_by_subject any
insert-IsAscending g [] new up = (tt, tt)
insert-IsAscending g (x ∷ xs) new up = elim (Bool-cases (x.subject == g.subject)) [
  | inl same ↦ absurd (ground arith)
  | inr ne ↦ elim (Bool-cases (is_le (compare g.subject x.subject))) [
    | inl le ↦ rw le (compare-new g.subject x.subject ne le, up)
    | inr gt ↦ rw gt (
      insert-IsBeforeFirst x g xs up.0 (compare-old g.subject x.subject gt),
      insert-IsAscending g xs (ground arith) up.1,
    )
  ]
]

any-insert :
    (p : Grant → Bool) (g : Grant) (xs : List Grant)
    → any p (insert_by_subject g xs) ≡ any p (g ∷ xs)
unfolding insert_by_subject any
any-insert p g [] = refl
any-insert p g (x ∷ xs) = ground (arith, any-insert p g xs)

any-order : (p : Grant → Bool) (gs : List Grant) → any p (order_by_subject gs) ≡ any p gs
unfolding order_by_subject any
any-order p [] = refl
any-order p (g ∷ gs) = ground (arith, any-insert p g (order_by_subject gs), any-order p gs)

order-IsAscending :
    (gs : List Grant) → HasKeys by_subject gs → IsAscending (λ g. g.subject) (order_by_subject gs)
unfolding order_by_subject
order-IsAscending [] keys = tt
order-IsAscending (g ∷ gs) (new, keys) =
    insert-IsAscending g (order_by_subject gs) (rw (any-order (by_subject g) gs) new)
      (order-IsAscending gs keys)

insert-perm : (g : Grant) (xs : List Grant) → Perm (insert_by_subject g xs) (g ∷ xs)
unfolding insert_by_subject
insert-perm g [] = Perm.refl _
insert-perm g (x ∷ xs) =
    elim (is_le (compare g.subject x.subject))
      as (λ b. Perm (if b then g ∷ x ∷ xs else x ∷ insert_by_subject g xs) (g ∷ x ∷ xs)) [
        | true ↦ Perm.refl _
        | false ↦ Perm.trans (Perm.cons x (insert-perm g xs)) (Perm.swap g x xs)
      ]

order-perm : (gs : List Grant) → Perm (order_by_subject gs) gs
unfolding order_by_subject
order-perm [] = Perm.refl _
order-perm (g ∷ gs) = Perm.trans (insert-perm g (order_by_subject gs)) (Perm.cons g (order-perm gs))

any-by_subject :
    (urc_id : String) (g : Grant) (gs : List Grant)
    → (g.urc_id == urc_id) ≡ true
    → any (same_grant g) gs ≡ false
    → any (by_subject g) (retain (λ x. x.urc_id == urc_id) gs) ≡ false
unfolding any retain
any-by_subject urc_id g [] here new = refl
any-by_subject urc_id g (x ∷ gs) here new = ground (
  arith,
  any-by_subject urc_id g gs,
  eq_iff g.urc_id urc_id,
  eq_iff x.urc_id urc_id,
  eq_iff x.urc_id g.urc_id,
)

HasKeys-by_subject :
    (urc_id : String) (gs : List Grant)
    → HasKeys same_grant gs
    → HasKeys by_subject (retain (λ x. x.urc_id == urc_id) gs)
unfolding retain
HasKeys-by_subject urc_id [] keys = tt
HasKeys-by_subject urc_id (g ∷ gs) (new, keys) =
    let rest = HasKeys-by_subject urc_id gs keys in
    elim (Bool-cases (g.urc_id == urc_id)) [
      | inl here ↦ rw here (any-by_subject urc_id g gs here new, rest)
      | inr there ↦ rw there rest
    ]

abbrev pub shown : Grant → String × String
shown g = (g.subject, g.role)

IsAscending-map :
    (gs : List Grant) → IsAscending (λ g. g.subject) gs → IsAscending (λ r. r.0) (map shown gs)
IsAscending-map [] up = tt
IsAscending-map (g ∷ []) up = (tt, tt)
IsAscending-map (g ∷ h ∷ gs) (first, up) = (first, IsAscending-map (h ∷ gs) up)

-- For valid tables (see `Reach-IsValid`), the listing of a resource has the subject and the role of
-- each of its grants, each grant once, and nothing else; and the subjects ascend strictly in the
-- order of their bytes, so that none stands twice.
pub list_grants-perm :
    (urc_id : String) (t : Tables)
    → IsValid t
    → Perm (list_grants urc_id t) (map shown (retain (λ g. g.urc_id == urc_id) t.grants))
      × IsAscending (λ r. r.0) (list_grants urc_id t)
unfolding list_grants
list_grants-perm urc_id t valid = (
  Perm.map shown (order-perm (retain (λ g. g.urc_id == urc_id) t.grants)),
  IsAscending-map _ (
      order-IsAscending (retain (λ g. g.urc_id == urc_id) t.grants)
        (HasKeys-by_subject urc_id t.grants valid.grant_keys)),
)
