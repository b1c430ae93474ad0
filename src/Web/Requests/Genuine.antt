-- ===== src/Web/Requests/Genuine.antt =====
-- What the sessions of web/src/main.rs hold, however the requests interleave.
use kaguya.Base.{
  System, Reach, Reach-all, ℕ, String, Bool, Option, none, some, [], ok, ◌≡◌, arith, inl, inr, ◌==◌,
  keep_if, Option-cases, Bool-cases, is_before, refl, ap, ◌∙◌,
}
use kaguya.Auth.Claims.{IdentityClaims, canonical_subject}
use kaguya.Auth.Crates as Auth
use kaguya.Auth.Server.{Server}
use kaguya.Auth.Service.{Auth as Service, UserToken, exchange_external_token_for_user_token}
use kaguya.Auth.Service.Exchange.{IsIssued, exchange_external-IsIssued}
use kaguya.Auth.Verify.Trust.{IsSigned}
use kaguya.Web.Crates.{Crates}
use kaguya.Web.Store
use kaguya.Web.Store.{Store, Session}
use kaguya.Web.Oidc.{exchange_code}
use kaguya.Web.AuthClient.{Issued, exchange_external}
use kaguya.Web.Handlers.{App, me_json}
use kaguya.Web.Handlers.Accounts.{IsServed, exchange_external_cases}
use kaguya.Web.Requests.{
  Pc, presenting, opening, listing, answered, start, take, take_nothing, exchanged, accepted,
  open_session, logout, show_me, ask_repos, Move, init,
}

module _ (c : Crates) (app : App c) where
  open c use {World}

  -- an id token that the provider gave for a code and a verifier
  pub record IsIdentified (id_token : String) : Type 0 where
    pub code : String
    pub verifier : String
    pub world : World
    pub given : (exchange_code c app.oidc code verifier world).0 ≡ ok id_token

  -- an answer of kaguya-auth to such a token
  pub record IsGranted (issued : Issued) : Type 0 where
    pub id_token : String
    pub identified : IsIdentified id_token
    pub world : World
    pub given : (exchange_external c app.auth id_token world).0 ≡ ok issued

  -- what a session holds is of one such answer
  pub record IsHeld (token user_name sub : String) : Type 0 where
    pub issued : Issued
    pub granted : IsGranted issued
    pub token_of : issued.token ≡ token
    pub name_of : issued.user_name ≡ user_name
    pub sub_of : issued.user_id ≡ sub

  abbrev Holds : Session → Type 0
  Holds x = IsHeld x.token x.user_name x.sub

  pub record ListsFor (token : String) : Type 0 where
    pub user_name : String
    pub sub : String
    pub held : IsHeld token user_name sub

  abbrev Sound : Pc → Type 0
  Sound (presenting id_token) = IsIdentified id_token
  Sound (opening issued) = IsGranted issued
  Sound (listing token) = ListsFor token
  Sound (answered (me_json user_name sub)) = (token : String) × IsHeld token user_name sub
  Sound _ = Unit

  abbrev Keeps : Store → Type 0
  Keeps s = (id : String) (x : Session) → s.sessions id ≡ some x → Holds x

  keep_if-some :
      {V : Type 0} (p : V → Bool) (o : Option V) (x : V) → keep_if p o ≡ some x → o ≡ some x
  keep_if-some p none x e = absurd (ground arith)
  keep_if-some p (some v) x e = ground arith

  create-Keeps :
      (visited : String → ℕ) (id : String) (session : Session) (s : Store)
      → Holds session
      → Keeps s
      → Keeps (Store.create visited id session s)
  unfolding Store.create
  create-Keeps visited id session s own all at x e = elim (Bool-cases (id == at)) [
    | inl same ↦
        let is : ◌≡◌ {A = Option Session} (some session) (some x) = rw same at e in
        let is_it : session ≡ x = cc in rw (← is_it) own
    | inr other ↦ all at x (keep_if-some _ (s.sessions at) x (rw other at e))
  ]

  remove-Keeps : (id : String) (s : Store) → Keeps s → Keeps (Store.remove id s)
  unfolding Store.remove
  remove-Keeps id s all at x e = elim (Bool-cases (id == at)) [
    | inl same ↦ absurd (ground arith)
    | inr other ↦ all at x (rw other at e)
  ]

  get-Holds :
      (now : ℕ) (id : String) (s : Store) (token user_name sub : String)
      → Keeps s
      → Store.get now id s ≡ some (token, user_name, sub)
      → IsHeld token user_name sub
  unfolding Store.get
  get-Holds now id s token user_name sub all e =
      elim (Option-cases (keep_if (λ x. is_before now x.expires_at) (s.sessions id))) [
        | inl gone ↦ absurd (ground arith)
        | inr (x, found) ↦
            let held = all id x (keep_if-some _ (s.sessions id) x found) in
            record {
              issued = held.issued;
              granted = held.granted;
              token_of = ground (arith, held.token_of);
              name_of = ground (arith, held.name_of);
              sub_of = ground (arith, held.sub_of);
            }
      ]

  start_login-Keeps :
      (visited : String → ℕ) (now : ℕ) (state verifier : String) (s : Store)
      → Keeps s
      → Keeps (Store.start_login visited now state verifier s)
  unfolding Store.start_login
  start_login-Keeps visited now state verifier s all = all

  take_pending-Keeps :
      (now : ℕ) (state : String) (s : Store) → Keeps s → Keeps (Store.take_pending now state s).1
  unfolding Store.take_pending
  take_pending-Keeps now state s all = all

  Move-Keeps : {s s' : Store} {p p' : Pc} → Move c app s p s' p' → Keeps s → Sound p → Keeps s'
  Move-Keeps {s} (start visited now state verifier) all own =
      start_login-Keeps visited now state verifier s all
  Move-Keeps {s} (take now code state found) all own = take_pending-Keeps now state s all
  Move-Keeps {s} (take_nothing now state none_left) all own = take_pending-Keeps now state s all
  Move-Keeps {s} (open_session {issued} visited sid one two three) all own =
      create-Keeps visited sid _ s
        (record { issued = issued; granted = own; token_of = refl; name_of = refl; sub_of = refl })
        all
  Move-Keeps {s} (logout id) all own = remove-Keeps id s all
  Move-Keeps _ all own = all

  Move-Sound : {s s' : Store} {p p' : Pc} → Move c app s p s' p' → Keeps s → Sound p → Sound p'
  Move-Sound (exchanged {code} {verifier} w given) all own = record {
    code = code;
    verifier = verifier;
    world = w;
    given = given;
  }
  Move-Sound (accepted {id_token} w given) all own = record {
    id_token = id_token;
    identified = own;
    world = w;
    given = given;
  }
  Move-Sound {s} (show_me now id {token} found) all own =
      (token, get-Holds now id s token _ _ all found)
  Move-Sound {s} (ask_repos now id {token} {user_name} {sub} found) all own = record {
    user_name = user_name;
    sub = sub;
    held = get-Holds now id s token _ _ all found;
  }
  Move-Sound _ all own = tt

  -- what every session holds, and every request
  pub Reach-Keeps :
      {y : System Store Pc}
      → Reach (Move c app) init y
      → Keeps y.shared × ((i : ℕ) → Sound (y.pc i))
  Reach-Keeps =
      Reach-all (Move c app) Keeps Sound (λ id x e. absurd (ground arith)) (λ i. tt)
        (λ y p s' p' r move all own. (Move-Keeps move all own, Move-Sound move all own))

module _ (ac : Auth.Crates) (c : Crates) (app : App c) where
  -- A session's texts are those of a token `t` for a person that the provider identified: the
  -- provider gave an id token for a code and a verifier; the service verified it against the key set
  -- that it has cached; and it issued `t`, without resources, to the canonical subject of its claims.
  pub record IsVouched (a : Service ac) (token user_name sub : String) : Type 0 where
    pub id_token : String
    pub identified : IsIdentified c app id_token
    pub found : IdentityClaims
    pub keys : ac.JwkSet
    pub server : Server ac
    pub cached : (exchange_external_token_for_user_token ac a id_token server).1.cached ≡ some keys
    pub signed : IsSigned ac keys a.oidc.issuer a.oidc.audiences id_token found
    pub t : UserToken
    pub issued : IsIssued ac a (canonical_subject ac.to_lowercase found) found [] t
    pub token_of : t.user_token ≡ token
    pub name_of : t.user_name ≡ user_name
    pub sub_of : t.user_id ≡ sub

  IsHeld-IsVouched :
      (a : Service ac) (token user_name sub : String)
      → IsServed ac c a
      → IsHeld c app token user_name sub
      → IsVouched a token user_name sub
  IsHeld-IsVouched a token user_name sub served held =
      let granted = held.granted in
      let (channel, at, t, answer, same) =
        exchange_external_cases ac c app.auth granted.id_token granted.world held.issued
          granted.given in
      let (server, asked) = served.answered channel granted.id_token "external" at t answer in
      let (found, keys, cached, signed, issued) =
        exchange_external-IsIssued ac a granted.id_token server t asked in
      record {
        id_token = granted.id_token;
        identified = granted.identified;
        found = found;
        keys = keys;
        server = server;
        cached = cached;
        signed = signed;
        t = t;
        issued = issued;
        token_of = ap (λ i. i.token) same ∙ held.token_of;
        name_of = ap (λ i. i.user_name) same ∙ held.name_of;
        sub_of = ap (λ i. i.user_id) same ∙ held.sub_of;
      }

  -- Whatever requests are in flight and however they interleave, with kaguya-auth behind the client:
  -- what a session answers, at any time and under any cookie, is the token, the name and the subject
  -- of a person that the OIDC provider has identified to this service, as `IsVouched` says.
  pub get-IsVouched :
      (a : Service ac) {y : System Store Pc} (now : ℕ) (id : String) {token user_name sub : String}
      → IsServed ac c a
      → Reach (Move c app) init y
      → Store.get now id y.shared ≡ some (token, user_name, sub)
      → IsVouched a token user_name sub
  get-IsVouched a {y} now id {token} {user_name} {sub} served r e =
      IsHeld-IsVouched a token user_name sub served
        (get-Holds c app now id y.shared token user_name sub (Reach-Keeps c app r).0 e)
