-- ===== src/Auth/Requests/Issuing.antt =====
-- For whom auth/src/main.rs issues a token, however the requests interleave.
use kaguya.Base.{
  Result, err, System, Reach, Reach-each, Visited, ℕ, String, Option, some, List, ok, ◌≡◌, ◌⊎◌,
  arith, inl, inr, All, All-concat, refl,
}
use kaguya.Auth.Store.{Store}
use kaguya.Auth.Claims.{IdentityClaims, ResourceGrant}
use kaguya.Auth.Crates.{Crates}
use kaguya.Auth.Verify.{fetch_jwks}
use kaguya.Auth.Verify.Trust.{IsSigned, verify_with_jwks-IsSigned}
use kaguya.Auth.Service.{Auth, UserToken}
use kaguya.Auth.Service.Exchange.{IsIssued, issue-IsIssued}
use kaguya.Auth.Requests.{
  Purpose, for_login, for_external, for_exchange, started, no_token, changed, failed, issued,
  Shared, Pc, idle, gone, asking, beginning, polling, verifying, fetching, storing, verified,
  scoping, issuing, answered, verifier_of, resolve_session, polled_token, present_own, hit, miss,
  fetched, store_accepted, store_refused, end_login, accept_external, accept_bearer, read_role,
  read_no_role, roles_read, mint_token, delete, for_change, change_reply, deleting, change_own,
  may_delete, create_resource, delete_resource, Move, init,
}
use kaguya.Auth.Requests.Grounds.{
  IsServed, IsVerified, IsOwn, WasResolved, FromProvider, WasAllowed, WasOwner, Grounds, identified,
  bore, WasResolved-more, FromProvider-more, WasAllowed-more, WasOwner-more, Grounds-more,
}

module _ (c : Crates) (a : Auth c) where
  open c use {World, JwkSet}

  abbrev State : Type 0
  State = System (Shared c) (Pc c)

  abbrev Cached : Shared c → Type 0
  Cached s = (keys : JwkSet) → s.cached ≡ some keys → IsServed c a keys

  module _ (M : State → Type 0) (i : ℕ) where
    abbrev Accepted : Purpose → String → IdentityClaims → Type 0
    Accepted (for_exchange requested) presented found =
        IsOwn c a presented found ⊎ IsVerified c a (for_exchange requested) presented found
    Accepted (for_change change) presented found =
        IsOwn c a presented found ⊎ IsVerified c a (for_change change) presented found
    Accepted p presented found = FromProvider c a M i p presented × IsVerified c a p presented found

    -- what is known of a request, from where it stands
    abbrev Sound : Pc c → Type 0
    Sound (polling code device endpoint) = WasResolved c a M i code device endpoint
    Sound (verifying p presented) = FromProvider c a M i p presented
    Sound (fetching p presented) = FromProvider c a M i p presented
    Sound (storing p presented keys result) =
        FromProvider c a M i p presented
        × IsServed c a keys
        × ((found : IdentityClaims)
            → result ≡ ok found
            → IsSigned c keys (verifier_of c a p).issuer (verifier_of c a p).audiences presented
                found)
    Sound (verified p presented found) = Accepted p presented found
    Sound (scoping found left granted) =
        (presented : String) × (IsOwn c a presented found
          ⊎ ((requested : List String) × IsVerified c a (for_exchange requested) presented found))
        × All (WasAllowed c a M i found) granted
    Sound (issuing subject found resources) = Grounds c a M i subject found resources
    Sound (deleting found id) =
        (presented : String) × (IsOwn c a presented found
          ⊎ IsVerified c a (for_change (delete id)) presented found)
        × WasOwner c a M i presented found id
    Sound (answered (issued t)) =
        (subject : String) × (found : IdentityClaims) × (resources : List ResourceGrant) × Grounds c
          a M i subject found resources
        × IsIssued c a subject found resources t
    Sound _ = Unit

    accepted :
        (p : Purpose) (presented : String) (found : IdentityClaims)
        → FromProvider c a M i p presented
        → IsVerified c a p presented found
        → Accepted p presented found
    accepted (for_login code) presented found from ver = (from, ver)
    accepted for_external presented found from ver = (from, ver)
    accepted (for_exchange requested) presented found from ver = inr ver
    accepted (for_change change) presented found from ver = inr ver

    changed-Sound : {E : Type 0} (r : Result E Unit) → Sound (answered (change_reply r))
    changed-Sound (ok _) = tt
    changed-Sound (err e) = tt

    Move-Cached :
        {s s' : Shared c} {p p' : Pc c} → Move c a s p s' p' → Cached s → Sound p → Cached s'
    Move-Cached (store_accepted {keys}) all own other e =
        let same : ◌≡◌ {A = Option JwkSet} (some keys) (some other) = e in
        let is : keys ≡ other = cc in rw (← is) own.1
    Move-Cached (store_refused {keys}) all own other e =
        let same : ◌≡◌ {A = Option JwkSet} (some keys) (some other) = e in
        let is : keys ≡ other = cc in rw (← is) own.1
    Move-Cached _ all own other e = all other e

    Move-Sound :
        {y : State} {s' : Shared c} {p p' : Pc c}
        → M y
        → y.pc i ≡ p
        → Move c a y.shared p s' p'
        → Cached y.shared
        → Sound p
        → Sound p'
    Move-Sound {y} m here (resolve_session swept now code client_state resolved) all own = record {
      moment = y;
      passed = m;
      began = here;
      swept = swept;
      now = now;
      client_state = client_state;
      resolved = resolved;
    }
    Move-Sound m here (polled_token {device} {endpoint} w given) all own =
        (device, endpoint, own, w, given)
    Move-Sound m here (present_own header requested w full mine) all own = inl (w, mine)
    Move-Sound m here (hit {p} {presented} {found} kid keys jwk w header cached listed signed) all
          own =
        accepted p presented found own (record {
          keys = keys;
          served = all keys cached;
          signed = verify_with_jwks-IsSigned c presented keys _ _ w found signed;
        })
    Move-Sound m here (miss kid header missed) all own = own
    Move-Sound m here (fetched {p} {presented} {keys} w served) all own = (
      own,
      record { purpose = p; world = w; served = served },
      λ found good.
          verify_with_jwks-IsSigned c presented keys _ _ (fetch_jwks c (verifier_of c a p) w).1
            found good,
    )
    Move-Sound m here (store_accepted {p} {presented} {keys} {found}) all own =
        accepted p presented found own.0
          (record { keys = keys; served = own.1; signed = own.2 found refl })
    Move-Sound m here (end_login {code} {presented}) all own =
        identified (for_login code) presented own.0 own.1
    Move-Sound m here (accept_external {presented}) all own =
        identified for_external presented own.0 own.1
    Move-Sound m here (accept_bearer {requested} {presented}) all own =
        (presented, elim own [ inl mine ↦ inl mine | inr ver ↦ inr (requested, ver) ], tt)
    Move-Sound {y} m here (read_role {found} {left} {granted} {role} held) all own = (
      own.0,
      own.1,
      All-concat (WasAllowed c a M i found) _ own.2 (record {
        moment = y;
        passed = m;
        left = left;
        granted = granted;
        reading = here;
        role = role;
        held = held;
        carried = refl;
      }),
    )
    Move-Sound m here (read_no_role none_held) all own = own
    Move-Sound m here roles_read all own = bore own.0 own.1 own.2
    Move-Sound m here (mint_token {subject} {found} {resources} {t} at minted) all own =
        (subject, found, resources, own, issue-IsIssued c a subject found resources at t minted)
    Move-Sound m here (change_own change header w mine) all own = inl (w, mine)
    Move-Sound {y} m here (may_delete {presented} owned) all own =
        (presented, own, record { moment = y; passed = m; asking = here; owned = owned })
    Move-Sound m here (create_resource now) all own = changed-Sound _
    Move-Sound m here delete_resource all own = changed-Sound _
    Move-Sound m here _ all own = tt

  module _ (M M' : State → Type 0) (i : ℕ) where
    Accepted-more :
        (p : Purpose) (presented : String) (found : IdentityClaims)
        → ((z : State) → M z → M' z)
        → Accepted M i p presented found
        → Accepted M' i p presented found
    Accepted-more (for_login code) presented found more (from, ver) =
        (FromProvider-more c a M M' i more (for_login code) presented from, ver)
    Accepted-more for_external presented found more (from, ver) = (tt, ver)
    Accepted-more (for_exchange requested) presented found more h = h
    Accepted-more (for_change change) presented found more h = h

    Sound-more : (p : Pc c) → ((z : State) → M z → M' z) → Sound M i p → Sound M' i p
    Sound-more (polling code device endpoint) more h = WasResolved-more c a M M' i more h
    Sound-more (verifying p presented) more h = FromProvider-more c a M M' i more p presented h
    Sound-more (fetching p presented) more h = FromProvider-more c a M M' i more p presented h
    Sound-more (storing p presented keys result) more (from, served, signed) =
        (FromProvider-more c a M M' i more p presented from, served, signed)
    Sound-more (verified p presented found) more h = Accepted-more p presented found more h
    Sound-more (scoping found left granted) more (presented, bearer, all) =
        (presented, bearer, WasAllowed-more c a M M' i more found granted all)
    Sound-more (issuing subject found resources) more h = Grounds-more c a M M' i more h
    Sound-more (deleting found id) more (presented, bearer, owner) =
        (presented, bearer, WasOwner-more c a M M' i more owner)
    Sound-more (answered (issued t)) more (subject, found, resources, why, good) =
        (subject, found, resources, Grounds-more c a M M' i more why, good)
    Sound-more (answered (started _ _)) more h = tt
    Sound-more (answered no_token) more h = tt
    Sound-more (answered changed) more h = tt
    Sound-more (answered failed) more h = tt
    Sound-more idle more h = tt
    Sound-more gone more h = tt
    Sound-more (asking _) more h = tt
    Sound-more (beginning _ _) more h = tt

  -- what the cache holds, and every request
  Reach-Sound :
      {store : Store} {y : State} (r : Reach (Move c a) (init c store) y)
      → Cached y.shared × ((i : ℕ) → Sound (Visited (Move c a) y r) i (y.pc i))
  Reach-Sound =
      Reach-each (Move c a) Cached Sound (λ keys e. absurd (ground arith)) (λ M i. tt)
        (λ M M' i p more own. Sound-more M M' i p more own)
        (λ y M i p s' p' m here move all own.
          (Move-Cached M i move all own, Move-Sound M i m here move all own))

  -- However the requests interleave, a token is answered on grounds only. Either a person has been
  -- identified: the token that was presented is signed for the configured issuer and audiences by a
  -- key of a set that the provider served (for a device login, it is what the provider answered to
  -- the device code that the login's code resolved to when this request began), and the answer is
  -- issued to the canonical subject of its claims, without resources. Or a bearer was presented that
  -- the service's own key or the provider's verifies, and the answer is issued to its subject, with
  -- resources on each of which that subject had a role, and its permissions, at the moment of this
  -- very run at which this request came to read it.
  pub Reach-issued :
      {store : Store} {y : State} (i : ℕ) {t : UserToken}
      → (r : Reach (Move c a) (init c store) y) → y.pc i ≡ answered (issued t)
      → (subject : String) × (found : IdentityClaims) × (resources : List ResourceGrant) × Grounds c
          a
          (Visited (Move c a) y r)
          i
          subject
          found
          resources
        × IsIssued c a subject found resources t
  Reach-issued i r at = let own = (Reach-Sound r).1 i in rw at at own

  -- A deletion is underway only for a resource that the caller owned at the moment of this very run
  -- at which this request, its bearer verified, came to ask for the role: the caller is the subject
  -- of the bearer, which the service's own key or the provider's verifies. (Other requests may have
  -- changed the owner since: the deletion is a step of its own.)
  pub Reach-deleting :
      {store : Store} {y : State} (i : ℕ) {found : IdentityClaims} {id : String}
      → (r : Reach (Move c a) (init c store) y) → y.pc i ≡ deleting found id
      → (presented : String) × (IsOwn c a presented found
          ⊎ IsVerified c a (for_change (delete id)) presented found)
        × WasOwner c a (Visited (Move c a) y r) i presented found id
  Reach-deleting i r at = let own = (Reach-Sound r).1 i in rw at at own
