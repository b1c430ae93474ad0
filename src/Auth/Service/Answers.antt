-- ===== src/Auth/Service/Answers.antt =====
-- The answers of `exchange_user_token_for_multiresource_token` of auth/src/main.rs, one for each way
-- through it, a panic included.
use kaguya.Base.{
  ℕ, String, true, false, Option, none, some, List, ◌↔◌, Any, Result, ok, err, ◌≡◌, ◌⊎◌, inl, inr,
  arith, is_empty, as_i64, Result-cases,
}
use kaguya.Auth.Claims.{IdentityClaims, ResourceGrant, display_names}
use kaguya.Auth.Store.{Role, permissions}
use kaguya.Auth.Store.Reads.{Reading, read_role}
use kaguya.Auth.Service.Scope.{IsFor}
use kaguya.Auth.Crates.{Crates}
use kaguya.Auth.Keys.{header_of, mint}
use kaguya.Auth.Verify.{VerifyError, claims}
use kaguya.Auth.Server.{Status, status, unauthenticated, internal, panicked, bearer, Server}
use kaguya.Auth.Service.{Auth, UserToken, issue}
use kaguya.Auth.Service.Exchange.{minted_claims, verifying, IsIssued, issue-IsIssued}

-- the role with these permissions was found on the resource when it was read
abbrev pub IsFound : String → String → List String → String × Reading → Type 0
IsFound sub id perms (x, r) =
    (x ≡ id) × ((role : Role) × (read_role sub x r ≡ some (some role)) × (permissions role ≡ perms))

-- The entries are for exactly the resources that a role was found on, with its permissions.
abbrev pub IsScoped : String → List (String × Reading) → List ResourceGrant → Type 0
IsScoped sub reads resources =
    (id : String) (perms : List String)
    → Any (IsFor id perms) resources ↔ Any (IsFound sub id perms) reads

module _ (c : Crates) where
  open c use {encode}

  pub issue_answers :
      (a : Auth c) (subject : String) (found : IdentityClaims) (resources : List ResourceGrant)
      (s : Server c)
      → ((iat : ℕ) × (refused : String) × (encode
              (header_of c a.signer)
              (minted_claims c a subject found resources iat)
              a.signer.encoding_key
            ≡ err refused)
          × ((issue c a subject found resources s).0
              ≡ err (status internal "token issuance failed")))
        ⊎ ((t : UserToken) × ((issue c a subject found resources s).0 ≡ ok t)
            × IsIssued c a subject found resources t)
  unfolding issue mint
  issue_answers a subject found resources s =
      let iat = (c.unix_seconds s.world).0 in
      let minted =
        encode (header_of c a.signer) (minted_claims c a subject found resources iat)
          a.signer.encoding_key in
      elim (Result-cases minted) [
        | inr (refused, same) ↦ inl (iat, refused, same, ground arith)
        | inl (signed, same) ↦
            let t : UserToken = record {
              user_token = signed;
              expires_at = as_i64 found.exp;
              user_id = subject;
              user_name = (display_names found).0;
            } in
            let answered : (issue c a subject found resources s).0 ≡ ok t = ground arith in
            inr (t, answered, issue-IsIssued c a subject found resources s t answered)
      ]

  pub issue-keeps :
      (a : Auth c) (subject : String) (found : IdentityClaims) (resources : List ResourceGrant)
      (s : Server c)
      → ((issue c a subject found resources s).1.store ≡ s.store)
        × ((issue c a subject found resources s).1.sessions ≡ s.sessions)
  unfolding issue
  issue-keeps a subject found resources s = (ground arith, ground arith)

  -- What the exchange answers, and when, with what its SELECTs find.
  pub data IsAnswer (a : Auth c) (authorization : Option String) (reads : List (String × Reading))
      (s : Server c) : Result Status UserToken → Type 0 where
    missing :
        is_empty (bearer authorization) ≡ true
        → IsAnswer a authorization reads s (err (status unauthenticated "missing bearer token"))
    rejected :
        (e : VerifyError)
        → is_empty (bearer authorization) ≡ false
        → (claims c a.identity (bearer authorization) (verifying c s)).0 ≡ err e
        → IsAnswer a authorization reads s (err (status unauthenticated "invalid identity token"))
    panics :
        (found : IdentityClaims)
        → (claims c a.identity (bearer authorization) (verifying c s)).0 ≡ ok found
        → Any (λ (id, r). read_role found.sub id r ≡ none) reads
        → IsAnswer a authorization reads s (err (status panicked ""))
    unsigned :
        (found : IdentityClaims) (resources : List ResourceGrant) (iat : ℕ) (refused : String)
        → (claims c a.identity (bearer authorization) (verifying c s)).0 ≡ ok found
        → IsScoped found.sub reads resources
        → encode
            (header_of c a.signer)
            (minted_claims c a found.sub found resources iat)
            a.signer.encoding_key
          ≡ err refused
        → IsAnswer a authorization reads s (err (status internal "token issuance failed"))
    issued :
        (found : IdentityClaims) (resources : List ResourceGrant) (t : UserToken)
        → (claims c a.identity (bearer authorization) (verifying c s)).0 ≡ ok found
        → IsScoped found.sub reads resources
        → IsIssued c a found.sub found resources t
        → IsAnswer a authorization reads s (ok t)
