-- ===== src/Base/Programs.antt =====
-- Methods that read and write a state and may fail. What was written before a failure stays
-- written, so the state comes back beside the error too.
use mathlib.Core.Path.{◌≡◌, refl}
use mathlib.Core.Logic.{◌⊎◌, inl, inr}

pub data Result {ℓ} (E A : Type ℓ) : Type ℓ where
  ok : A → Result E A
  err : E → Result E A

pub Result-cases :
    {E A : Type 0} (r : Result E A) → ((a : A) × (r ≡ ok a)) ⊎ ((e : E) × (r ≡ err e))
Result-cases (ok a) = inl (a, refl)
Result-cases (err e) = inr (e, refl)

abbrev pub Prog : Type 0 → Type 0 → Type 0 → Type 0
Prog E S A = S → Result E A × S

module _ {E S : Type 0} where
  abbrev pub pure : {A : Type 0} → A → Prog E S A
  pure a s = (ok a, s)

  abbrev pub raise : {A : Type 0} → E → Prog E S A
  raise e s = (err e, s)

  abbrev pub gets : {A : Type 0} → (S → A) → Prog E S A
  gets f s = (ok (f s), s)

  abbrev pub lift : {A : Type 0} → Result E A → Prog E S A
  lift r s = (r, s)

  abbrev pub continue : {A B : Type 0} → Result E A → (A → Prog E S B) → Prog E S B
  continue (ok a) f s = f a s
  continue (err e) f s = (err e, s)

  infixl 5 ◌>>=◌ ◌>>◌
  abbrev pub ◌>>=◌ : {A B : Type 0} → Prog E S A → (A → Prog E S B) → Prog E S B
  ◌>>=◌ m f s = continue (m s).0 f (m s).1

  abbrev pub ◌>>◌ : {A B : Type 0} → Prog E S A → Prog E S B → Prog E S B
  m >> k = m >>= λ _. k

abbrev pub map_result : {E F A : Type 0} → (E → F) → Result E A → Result F A
map_result f (ok a) = ok a
map_result f (err e) = err (f e)

-- `map_err` on a fallible call
abbrev pub map_err : {E F S A : Type 0} → (E → F) → Prog E S A → Prog F S A
map_err f m s = (map_result f (m s).0, (m s).1)
