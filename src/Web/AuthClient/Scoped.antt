-- ===== src/Web/AuthClient/Scoped.antt =====
-- What `exchange_resource` of web/src/authsvc.rs gets, with the exchange of auth/src/main.rs behind it.
use Prim.Native.String.{◌++◌ as join}
use kaguya.Base.{
  String, none, some, List, [], ◌∷◌, ok, ◌≡◌, ◌⊎◌, arith, inl, inr, Option-cases, Result-cases,
  Bool-cases, is_empty,
}
use kaguya.Auth.Store.{Role, permissions, role_for}
use kaguya.Auth.Claims.{IdentityClaims}
use kaguya.Auth.Crates as Auth
use kaguya.Auth.Verify.{claims}
use kaguya.Auth.Server.{Server, bearer-join}
use kaguya.Auth.Service.{
  Auth as Service, UserToken, scoped, exchange_user_token_for_multiresource_token,
}
use kaguya.Auth.Service.Exchange.{IsIssued, verifying, exchange-IsIssued}
use kaguya.Web.Crates.{Crates}
use kaguya.Web.AuthClient.{connect_auth, bearer, exchange_resource}

module _ (ac : Auth.Crates) (c : Crates) where
  open c use {World, Channel, MetadataValue, connect, metadata_value, exchange_multiresource}

  -- The other end of the client's channel is kaguya-auth, which reads the header as the text that it
  -- was made of: a token that comes back is the answer that its exchange gives for that header and
  -- the same resources, in some state of that service.
  pub record IsServed (a : Service ac) : Type 0 where
    pub answered :
        (channel : Channel) (text : String) (header : MetadataValue) (ids : List String) (w : World)
        (t : UserToken)
        → metadata_value text ≡ some header
        → (exchange_multiresource channel header ids w).0 ≡ ok (some t)
        → (s : Server ac) × ((exchange_user_token_for_multiresource_token ac a (some text) ids s).0
            ≡ ok t)

  exchange_resource_cases :
      (endpoint authn_token resource_id : String) (w : World) (token : String)
      → (exchange_resource c endpoint authn_token resource_id w).0 ≡ ok token
      → (channel : Channel) × (header : MetadataValue) × (at : World) × (t : UserToken)
        × (metadata_value (join "Bearer " authn_token) ≡ some header)
        × ((exchange_multiresource channel header (resource_id ∷ []) at).0 ≡ ok (some t))
        × (t.user_token ≡ token)
  unfolding exchange_resource connect_auth bearer
  exchange_resource_cases endpoint authn_token resource_id w token e =
      elim (Result-cases (connect endpoint w).0) [
        | inr (_, refused) ↦ absurd (ground arith)
        | inl (channel, connected) ↦
            elim (Option-cases (metadata_value (join "Bearer " authn_token))) [
              | inl bad ↦ absurd (ground arith)
              | inr (header, made) ↦
                  let at = (connect endpoint w).1 in
                  elim (Result-cases
                    (exchange_multiresource channel header (resource_id ∷ []) at).0) [
                      | inr (_, bad) ↦ absurd (ground arith)
                      | inl (answer, answered) ↦ elim (Option-cases answer) [
                        | inl nothing ↦ absurd (ground arith)
                        | inr (t, is_some) ↦ elim (Bool-cases (is_empty t.user_token)) [
                          | inl empty ↦ absurd (ground arith)
                          | inr full ↦ (channel, header, at, t, made, ground arith, ground arith)
                        ]
                      ]
                    ]
            ]
      ]

  -- The token was issued to the subject of the bearer's claims, for one resource with the
  -- permissions of the role that the subject has on it, or without resources where it has none.
  pub record IsScoped (a : Service ac) (authn_token resource_id token : String) : Type 0 where
    pub server : Server ac
    pub found : IdentityClaims
    pub accepted : (claims ac a.identity authn_token (verifying ac server)).0 ≡ ok found
    pub t : UserToken
    pub token_of : t.user_token ≡ token
    pub issued :
        ((role : Role) × (role_for found.sub resource_id server.store.tables ≡ some role)
          × IsIssued ac a found.sub found
              (record { resource_id = resource_id; permission = permissions role } ∷ [])
              t)
        ⊎ ((role_for found.sub resource_id server.store.tables ≡ none)
            × IsIssued ac a found.sub found [] t)

  -- With kaguya-auth behind the client, a token that `exchange_resource` gets is scoped to the one
  -- resource at most: the service accepted the presented token, and what it issued is for the
  -- subject of its claims, on that resource, with the permissions of the subject's role.
  pub exchange_resource-IsScoped :
      (a : Service ac) (endpoint authn_token resource_id : String) (w : World) (token : String)
      → IsServed a
      → (exchange_resource c endpoint authn_token resource_id w).0 ≡ ok token
      → IsScoped a authn_token resource_id token
  unfolding scoped
  exchange_resource-IsScoped a endpoint authn_token resource_id w token served e =
      let (channel, header, at, t, made, answer, same) =
        exchange_resource_cases endpoint authn_token resource_id w token e in
      let (server, given) =
        served.answered channel (join "Bearer " authn_token) header (resource_id ∷ []) at t made
          answer in
      let (found, accepted, issued) =
        exchange-IsIssued ac a (some (join "Bearer " authn_token)) (resource_id ∷ []) server t
          given in
      record {
        server = server;
        found = found;
        accepted = rw (bearer-join authn_token) at accepted;
        t = t;
        token_of = same;
        issued = elim (Option-cases (role_for found.sub resource_id server.store.tables)) [
          | inl missing ↦ inr (missing, rw (scoped, missing) at issued)
          | inr (role, held) ↦ inl (role, held, rw (scoped, held) at issued)
        ];
      }
