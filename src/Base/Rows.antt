-- ===== src/Base/Rows.antt =====
-- Two lists of rows with the same rows, in whatever order and however often.
use mathlib.Core.Path.{◌≡◌, refl}
use mathlib.Core.Logic.{◌↔◌, inl, inr}
use mathlib.Core.Bool.{Bool, true}
use mathlib.Core.List.{List, [], ◌∷◌}
use native.Mathlib.Omega.{arith}
unfoldable use kaguya.Base.Lists.{retain, any, Any}

module _ {A : Type 0} where
  abbrev pub IsIn : A → List A → Type 0
  IsIn x xs = Any (λ y. y ≡ x) xs

  pub record SameRows (xs ys : List A) : Type 0 where
    pub forth : (x : A) → IsIn x xs → IsIn x ys
    pub back : (x : A) → IsIn x ys → IsIn x xs

  Any-IsIn : (P : A → Type 0) (xs : List A) → Any P xs → (x : A) × IsIn x xs × P x
  Any-IsIn P [] h = absurd h
  Any-IsIn P (x ∷ xs) (inl p) = (x, inl refl, p)
  Any-IsIn P (x ∷ xs) (inr ps) = let (y, at, p) = Any-IsIn P xs ps in (y, inr at, p)

  IsIn-Any : (P : A → Type 0) (xs : List A) {x : A} → IsIn x xs → P x → Any P xs
  IsIn-Any P [] h p = absurd h
  IsIn-Any P (y ∷ ys) (inl same) p = inl (rw same p)
  IsIn-Any P (y ∷ ys) (inr at) p = inr (IsIn-Any P ys at p)

  -- what some row satisfies, some row of the other list does
  pub SameRows-Any : (P : A → Type 0) (xs ys : List A) → SameRows xs ys → Any P xs ↔ Any P ys
  SameRows-Any P xs ys same = (
    λ h. let (x, at, p) = Any-IsIn P xs h in IsIn-Any P ys (same.forth x at) p,
    λ h. let (x, at, p) = Any-IsIn P ys h in IsIn-Any P xs (same.back x at) p,
  )

  any_iff : (p : A → Bool) (xs : List A) → (any p xs ≡ true) ↔ Any (λ x. p x ≡ true) xs
  unfolding any
  any_iff p [] = (λ h. cc, λ h. absurd h)
  any_iff p (x ∷ xs) = ground (arith, any_iff p xs)

  pub any-SameRows : (p : A → Bool) (xs ys : List A) → SameRows xs ys → any p xs ≡ any p ys
  any-SameRows p xs ys same =
      ground (arith, any_iff p xs, any_iff p ys, SameRows-Any (λ x. p x ≡ true) xs ys same)

  IsIn-retain :
      (p : A → Bool) (xs : List A) (x : A) → IsIn x (retain p xs) ↔ (IsIn x xs × (p x ≡ true))
  unfolding retain
  IsIn-retain p [] x = (λ h. absurd h, λ (h, _). absurd h)
  IsIn-retain p (y ∷ ys) x = ground (arith, IsIn-retain p ys x)

  pub SameRows-retain :
      (p : A → Bool) (xs ys : List A) → SameRows xs ys → SameRows (retain p xs) (retain p ys)
  SameRows-retain p xs ys same = record {
    forth = λ x at.
        let (here, passes) = (IsIn-retain p xs x).0 at in
        (IsIn-retain p ys x).1 (same.forth x here, passes);
    back = λ x at.
        let (here, passes) = (IsIn-retain p ys x).0 at in
        (IsIn-retain p xs x).1 (same.back x here, passes);
  }

  pub SameRows-cons : (x : A) (xs ys : List A) → SameRows xs ys → SameRows (x ∷ xs) (x ∷ ys)
  SameRows-cons x xs ys same = record {
    forth = λ y at. elim at [ inl here ↦ inl here | inr there ↦ inr (same.forth y there) ];
    back = λ y at. elim at [ inl here ↦ inl here | inr there ↦ inr (same.back y there) ];
  }
