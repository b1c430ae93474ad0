-- ===== src/Auth/Requests/Grounds.antt =====
-- Why auth/src/main.rs answers a token or deletes a resource: what is known of a request from the
-- states that the run has gone through, `M`.
use kaguya.Base.{System, ℕ, String, some, List, [], ◌∷◌, ok, ◌≡◌, ◌⊎◌, true, All}
use kaguya.Auth.Store.{Role, permissions, role_for}
use kaguya.Auth.Rebac.{is_owner}
use kaguya.Auth.Sessions.{resolve}
use kaguya.Auth.Claims.{IdentityClaims, ResourceGrant, canonical_subject}
use kaguya.Auth.Crates.{Crates}
use kaguya.Auth.Device.{token, poll}
use kaguya.Auth.Verify.{fetch_jwks, self_claims}
use kaguya.Auth.Verify.Trust.{IsSigned}
use kaguya.Auth.Service.{Auth}
use kaguya.Auth.Requests.{
  Purpose, for_login, for_external, for_exchange, for_change, delete, Shared, Pc, idle, verified,
  scoping, verifier_of,
}

module _ (c : Crates) (a : Auth c) where
  open c use {World, JwkSet, to_lowercase}

  -- a key set that the provider served
  pub record IsServed (keys : JwkSet) : Type 0 where
    pub purpose : Purpose
    pub world : World
    pub served : (fetch_jwks c (verifier_of c a purpose) world).0 ≡ ok keys

  -- a token that verifies under such a set
  pub record IsVerified (p : Purpose) (presented : String) (found : IdentityClaims) : Type 0 where
    pub keys : JwkSet
    pub served : IsServed keys
    pub signed :
        IsSigned c keys (verifier_of c a p).issuer (verifier_of c a p).audiences presented found

  -- a bearer of the service's own
  abbrev pub IsOwn : String → IdentityClaims → Type 0
  IsOwn presented found =
      (w : World) × ((self_claims c a.identity.self_verifier presented w).0 ≡ some found)

  module _ (M : System (Shared c) (Pc c) → Type 0) (i : ℕ) where
    -- when this request began, the code resolved to these for a client_state
    pub record WasResolved (code device endpoint : String) : Type 0 where
      pub moment : System (Shared c) (Pc c)
      pub passed : M moment
      pub began : moment.pc i ≡ idle
      pub swept : ℕ
      pub now : ℕ
      pub client_state : String
      pub resolved :
          (resolve swept now code client_state moment.shared.sessions).0 ≡ some (device, endpoint)

    -- where the token comes from: for a login, it is the provider's answer to the device code that
    -- the login's code resolved to
    abbrev pub FromProvider : Purpose → String → Type 0
    FromProvider (for_login code) presented =
        (device : String) × (endpoint : String) × WasResolved code device endpoint
        × (w : World) × ((poll c a.oidc_device endpoint device w).0 ≡ ok (token presented))
    FromProvider _ presented = Unit

    -- a role that the caller had on the resource when this request, in its exchange, came to read it
    pub record WasAllowed (found : IdentityClaims) (g : ResourceGrant) : Type 0 where
      pub moment : System (Shared c) (Pc c)
      pub passed : M moment
      pub left : List String
      pub granted : List ResourceGrant
      pub reading : moment.pc i ≡ scoping found (g.resource_id ∷ left) granted
      pub role : Role
      pub held : role_for found.sub g.resource_id moment.shared.store.tables ≡ some role
      pub carried : g.permission ≡ permissions role

    -- the caller owned the resource when this request, its token verified, came to ask for it
    pub record WasOwner (presented : String) (found : IdentityClaims) (id : String) : Type 0 where
      pub moment : System (Shared c) (Pc c)
      pub passed : M moment
      pub asking : moment.pc i ≡ verified (for_change (delete id)) presented found
      pub owned : is_owner (role_for found.sub id moment.shared.store.tables) ≡ true

    -- why a token may be issued: a person has been identified, or a bearer has been
    pub data Grounds : String → IdentityClaims → List ResourceGrant → Type 0 where
      identified :
          {found : IdentityClaims} (p : Purpose) (presented : String)
          → FromProvider p presented
          → IsVerified p presented found
          → Grounds (canonical_subject to_lowercase found) found []
      bore :
          {found : IdentityClaims} {resources : List ResourceGrant} (presented : String)
          → IsOwn presented found
            ⊎ ((requested : List String) × IsVerified (for_exchange requested) presented found)
          → All (WasAllowed found) resources
          → Grounds found.sub found resources

  -- What is known from some states is known from more.
  module _ (M M' : System (Shared c) (Pc c) → Type 0) (i : ℕ)
      (more : (z : System (Shared c) (Pc c)) → M z → M' z) where
    pub WasResolved-more :
        {code device endpoint : String}
        → WasResolved M i code device endpoint
        → WasResolved M' i code device endpoint
    WasResolved-more h = record {
      moment = h.moment;
      passed = more h.moment h.passed;
      began = h.began;
      swept = h.swept;
      now = h.now;
      client_state = h.client_state;
      resolved = h.resolved;
    }

    pub FromProvider-more :
        (p : Purpose) (presented : String)
        → FromProvider M i p presented
        → FromProvider M' i p presented
    FromProvider-more (for_login code) presented (device, endpoint, h, w, given) =
        (device, endpoint, WasResolved-more h, w, given)
    FromProvider-more for_external presented h = tt
    FromProvider-more (for_exchange requested) presented h = tt
    FromProvider-more (for_change change) presented h = tt

    pub WasAllowed-more :
        (found : IdentityClaims) (gs : List ResourceGrant)
        → All (WasAllowed M i found) gs
        → All (WasAllowed M' i found) gs
    WasAllowed-more found [] h = tt
    WasAllowed-more found (g ∷ gs) (h, hs) = (
      record {
        moment = h.moment;
        passed = more h.moment h.passed;
        left = h.left;
        granted = h.granted;
        reading = h.reading;
        role = h.role;
        held = h.held;
        carried = h.carried;
      },
      WasAllowed-more found gs hs,
    )

    pub WasOwner-more :
        {presented : String} {found : IdentityClaims} {id : String}
        → WasOwner M i presented found id
        → WasOwner M' i presented found id
    WasOwner-more h = record {
      moment = h.moment;
      passed = more h.moment h.passed;
      asking = h.asking;
      owned = h.owned;
    }

    pub Grounds-more :
        {subject : String} {found : IdentityClaims} {resources : List ResourceGrant}
        → Grounds M i subject found resources
        → Grounds M' i subject found resources
    Grounds-more (identified p presented from ver) =
        identified p presented (FromProvider-more p presented from) ver
    Grounds-more (bore {found} {resources} presented bearer all) =
        bore presented bearer (WasAllowed-more found resources all)
