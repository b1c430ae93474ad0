-- ===== src/Auth/Rebac/Guards.antt =====
-- Who may create and delete resources through `RebacApi` of auth/src/main.rs, and what comes of it.
use kaguya.Base.{
  ℕ, String, ◌≡◌, ◌≢◌, ◌⊎◌, inl, inr, true, false, ◌==◌, Option, none, some, [], ok, err,
  Result-cases, Bool-cases, ◌∙◌, arith, refl, any, if◌then◌else◌, map_result,
}
use kaguya.Auth.Store
use kaguya.Auth.Store.{Role, owner, member, Store, Tables, role_for, at_key, record_owner}
use kaguya.Auth.Store.Owners.{
  IsUnknown, IsKnown, calm, role_for-delete_resource, record_owner-creator, record_owner-known,
}
use kaguya.Auth.Crates.{Crates}
use kaguya.Auth.Keys.{now_secs}
use kaguya.Auth.Verify.{Identity}
use kaguya.Auth.Server.{
  Status, status, unauthenticated, permission_denied, internal, Server, caller,
}
use kaguya.Auth.Rebac.{is_owner, create_resource, delete_resource}

module _ (c : Crates) where
  open c use {World, unix_seconds}

  caller-store :
      (i : Identity c) (authorization : Option String) (s : Server c)
      → (caller c i authorization s).1.store ≡ s.store
  unfolding caller
  caller-store i authorization s = refl

  calm_lem : (t : Store) → t.outcomes ≡ [] → t ≡ calm t.tables
  calm_lem t settled = λ i. record { tables = t.tables; outcomes = settled i }

  delete-calm :
      (urc_id : String) (t : Tables)
      → map_result
          (λ (_ : String). status internal "store error")
          (Store.delete_resource urc_id (calm t)).0
        ≡ ok tt
  unfolding Store.delete_resource
  delete-calm urc_id t = refl

  is_owner-true : (r : Option Role) → is_owner r ≡ true → r ≡ some owner
  is_owner-true none h = cc
  is_owner-true (some owner) h = refl
  is_owner-true (some member) h = cc

  -- `delete_resource` leaves the store as it was, unless the caller's token is accepted and its
  -- subject is an owner of the resource.
  pub delete_resource-guard :
      (i : Identity c) (authorization : Option String) (urc_id : String) (s : Server c)
      → ((delete_resource c i authorization urc_id s).1.store ≡ s.store)
        ⊎ ((sub : String) × ((caller c i authorization s).0 ≡ ok sub)
            × (role_for sub urc_id s.store.tables ≡ some owner))
  unfolding delete_resource
  delete_resource-guard i authorization urc_id s =
      elim (Result-cases (caller c i authorization s).0) [
        | inr (_, refused) ↦ inl (ground (arith, caller-store i authorization s))
        | inl (sub, known) ↦ elim (Bool-cases (is_owner (role_for sub urc_id s.store.tables))) [
          | inl yes' ↦ inr (sub, known, is_owner-true _ yes')
          | inr no' ↦ inl (ground (arith, caller-store i authorization s))
        ]
      ]

  -- The answers of `delete_resource`: `unauthenticated` without an accepted token,
  -- `permission_denied` to a subject that is no owner; for an owner, when SQLite fails no
  -- statement, the deletion is done: nobody has a role on the resource any more, and every role on
  -- another one is as it was.
  pub delete_resource_answers :
      (i : Identity c) (authorization : Option String) (urc_id : String) (s : Server c)
      → ((r : Status)
          → (caller c i authorization s).0 ≡ err r
          → (delete_resource c i authorization urc_id s).0
            ≡ err (status unauthenticated "invalid token"))
        × ((sub : String)
            → (caller c i authorization s).0 ≡ ok sub
            → role_for sub urc_id s.store.tables ≢ some owner
            → (delete_resource c i authorization urc_id s).0
              ≡ err (status permission_denied "not an owner of this resource"))
        × ((sub : String)
            → (caller c i authorization s).0 ≡ ok sub
            → role_for sub urc_id s.store.tables ≡ some owner
            → s.store.outcomes ≡ []
            → ((delete_resource c i authorization urc_id s).0 ≡ ok tt)
              × ((anyone other : String)
                  → role_for anyone other
                      (delete_resource c i authorization urc_id s).1.store.tables
                    ≡ (if other == urc_id then none else role_for anyone other s.store.tables)))
  unfolding delete_resource
  delete_resource_answers i authorization urc_id s = (
    λ r refused. unfold caller in ground arith,
    λ sub known lacks. denied_part sub known lacks,
    λ sub known owns settled. owned_part sub known owns settled,
  )
    where
      s₁ : Server c
      s₁ = (caller c i authorization s).1

      denied_part :
          (sub : String)
          → (caller c i authorization s).0 ≡ ok sub
          → role_for sub urc_id s.store.tables ≢ some owner
          → (delete_resource c i authorization urc_id s).0
            ≡ err (status permission_denied "not an owner of this resource")
      denied_part sub known lacks =
          elim (Bool-cases (is_owner (role_for sub urc_id s₁.store.tables))) [
            | inl yes' ↦
                absurd (lacks (rw (caller-store i authorization s) at (is_owner-true _ yes')))
            | inr no' ↦ ground arith
          ]

      owned_part :
          (sub : String)
          → (caller c i authorization s).0 ≡ ok sub
          → role_for sub urc_id s.store.tables ≡ some owner
          → s.store.outcomes ≡ []
          → ((delete_resource c i authorization urc_id s).0 ≡ ok tt)
            × ((anyone other : String)
                → role_for anyone other (delete_resource c i authorization urc_id s).1.store.tables
                  ≡ (if other == urc_id then none else role_for anyone other s.store.tables))
      owned_part sub known owns settled =
          let quiet : s₁.store ≡ calm s.store.tables =
            caller-store i authorization s ∙ calm_lem s.store settled in
          let may : is_owner (role_for sub urc_id s₁.store.tables) ≡ true = rw (quiet, owns) refl in
          rw (known, may, quiet)
            (
              delete-calm urc_id s.store.tables,
              λ anyone other. role_for-delete_resource anyone urc_id other s.store.tables,
            )

  create_resource-calm :
      (i : Identity c) (authorization : Option String) (urc_id name sub : String) (s : Server c)
      → (caller c i authorization s).0 ≡ ok sub
      → s.store.outcomes ≡ []
      → (now : ℕ) × ((create_resource c i authorization urc_id name s).0
          ≡ map_result
              (λ _. status internal "store error")
              (record_owner now sub urc_id name (calm s.store.tables)).0)
        × ((create_resource c i authorization urc_id name s).1.store
            ≡ (record_owner now sub urc_id name (calm s.store.tables)).1)
  unfolding create_resource now_secs
  create_resource-calm i authorization urc_id name sub s known settled =
      let s₁ = (caller c i authorization s).1 in
      let quiet : s₁.store ≡ calm s.store.tables =
        caller-store i authorization s ∙ calm_lem s.store settled in
      ((unix_seconds s₁.world).0, rw (known, quiet), rw (known, quiet))

  record_owner-ok :
      (now : ℕ) (sub urc_id name : String) (t : Tables)
      → (record_owner now sub urc_id name (calm t)).0 ≡ ok tt
  unfolding record_owner
  record_owner-ok now sub urc_id name t = ground arith

  -- When SQLite fails no statement, an accepted caller's `create_resource` succeeds. On a resource
  -- that has no row, and on which no grant is made out to the caller, the caller is an owner
  -- afterwards; on one that has a row, the store is as it was.
  pub create_resource_answers :
      (i : Identity c) (authorization : Option String) (urc_id name sub : String) (s : Server c)
      → (caller c i authorization s).0 ≡ ok sub
      → s.store.outcomes ≡ []
      → ((create_resource c i authorization urc_id name s).0 ≡ ok tt)
        × (IsUnknown urc_id s.store.tables
            → any (at_key sub urc_id) s.store.tables.grants ≡ false
            → role_for sub urc_id (create_resource c i authorization urc_id name s).1.store.tables
              ≡ some owner)
        × (IsKnown urc_id s.store.tables
            → (create_resource c i authorization urc_id name s).1.store ≡ calm s.store.tables)
  create_resource_answers i authorization urc_id name sub s known settled =
      let (now, answer, left) =
        create_resource-calm i authorization urc_id name sub s known settled in
      (
        rw (answer, record_owner-ok now sub urc_id name s.store.tables),
        λ new none_yet.
            rw left (record_owner-creator now sub urc_id name s.store.tables new none_yet),
        λ old. rw (left, record_owner-known now sub urc_id name s.store.tables old),
      )
