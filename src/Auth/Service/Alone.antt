-- ===== src/Auth/Service/Alone.antt =====
-- A call of auth/src/main.rs that no other call interrupts, and whose SELECTs SQLite does not fail,
-- finds the same tables at each of them.
use kaguya.Base.{
  String, Option, some, List, [], ◌∷◌, ◌≡◌, refl, inl, inr, is_empty, Option-cases, Bool-cases,
  Result-cases,
}
use kaguya.Auth.Store.{Tables, role_for}
use kaguya.Auth.Store.Reads.{read_role-whole}
use kaguya.Auth.Crates.{Crates}
use kaguya.Auth.Verify.{claims}
use kaguya.Auth.Server.{bearer, Server}
use kaguya.Auth.Service.{Auth, scoped, exchange_user_token_for_multiresource_token}
use kaguya.Auth.Service.Exchange.{verifying}
use kaguya.Auth.Service.Queries.{wholes}
use kaguya.Auth.Service.Reads.{scoped_reads, exchange_reads}
use kaguya.Auth.Service.Scope.{scoped_missing, scoped_found}

scoped_reads-wholes :
    (sub : String) (t : Tables) (ids : List String)
    → scoped_reads sub (wholes t ids) ≡ some (scoped sub t ids)
unfolding scoped_reads scoped
scoped_reads-wholes sub t [] = refl
scoped_reads-wholes sub t (x ∷ ids) = elim (Option-cases (role_for sub x t)) [
  | inl missing ↦
      rw
        (
          read_role-whole sub x t,
          scoped_reads-wholes sub t ids,
          missing,
          scoped_missing sub t x ids "" [] missing,
        )
        refl
  | inr (role, found) ↦
      rw
        (
          read_role-whole sub x t,
          scoped_reads-wholes sub t ids,
          found,
          scoped_found sub t x ids "" [] found,
        )
        refl
]

module _ (c : Crates) where
  -- Such an exchange is `exchange_user_token_for_multiresource_token` of Auth/Service.
  exchange-alone :
      (a : Auth c) (authorization : Option String) (requested : List String) (s : Server c)
      → exchange_reads c a authorization (wholes s.store.tables requested) s
        ≡ exchange_user_token_for_multiresource_token c a authorization requested s
  unfolding exchange_reads exchange_user_token_for_multiresource_token
  exchange-alone a authorization requested s = elim (Bool-cases (is_empty (bearer authorization))) [
    | inl empty ↦ rw empty refl
    | inr given ↦
        elim (Result-cases (claims c a.identity (bearer authorization) (verifying c s)).0) [
          | inr (_, refused) ↦ rw (given, refused) refl
          | inl (found, accepted) ↦
              rw (given, accepted, scoped_reads-wholes found.sub s.store.tables requested) refl
        ]
  ]
