-- ===== src/Auth/Service/Begin.antt =====
-- How a device login begins: `start_auth_session` of auth/src/main.rs.
use kaguya.Base.{
  refl, ℕ, ◌+◌, ◌≤◌, String, ◌&&◌, ◌==◌, ltb, none, some, ok, ◌≡◌, inl, inr, arith, Result-cases,
  if◌then◌else◌, hex_text, hex_text-inj, ◌<◌, ◌^◌, ◌≢◌, sym,
}
use kaguya.Auth.Sessions.{from_secs, resolve}
use kaguya.Auth.Sessions.Resolve.{resolve-insert_self, resolve-insert_ne}
use kaguya.Auth.Crates.{Crates}
use kaguya.Auth.Device.{DeviceStart, start}
use kaguya.Auth.Server.{Server}
use kaguya.Auth.Service.{Auth, StartAuthSessionResponse, clamp, start_auth_session, begin_session}

clamp_bounds : (lo hi n : ℕ) → lo ≤ hi → (lo ≤ clamp lo hi n) × (clamp lo hi n ≤ hi)
unfolding clamp
clamp_bounds lo hi n h = ground arith

module _ (c : Crates) where
  open c use {World, JwkSet, to_lowercase, instant, random_u128}

  -- When a login has been started, its code resolves to the provider's device code and token
  -- endpoint, for the client_state that started it and for no other, until its lifetime has passed;
  -- the lifetime is between one and ten minutes, whatever the provider says, and runs from the
  -- reading of the clock that follows the sweep.
  pub start_auth_session-resolve :
      (a : Auth c) (client_state : String) (s : Server c) (r : StartAuthSessionResponse)
      → (start_auth_session c a client_state s).0 ≡ ok r
      → (begun : DeviceStart) × (created : ℕ) × (ttl : ℕ) × ((start c a.oidc_device s.world).0
          ≡ ok begun)
        × (r.login_url ≡ begun.login_url)
        × (from_secs 60 ≤ ttl)
        × (ttl ≤ from_secs 600)
        × (created ≡ (instant (instant (random_u128 (start c a.oidc_device s.world).1).1).1).0)
        × ((swept now : ℕ) (state : String)
            → (resolve swept now r.session_code state
                (start_auth_session c a client_state s).1.sessions).0
              ≡ (if client_state == state && (ltb swept (created + ttl) && ltb now (created + ttl))
                  then some (begun.device_code, begun.token_endpoint)
                  else none))
  unfolding start_auth_session begin_session
  start_auth_session-resolve a client_state s r e =
      let began = start c a.oidc_device s.world in
      elim (Result-cases began.0) [
        | inr (_, failed) ↦ absurd (ground arith)
        | inl (begun, done) ↦
            let drawn = random_u128 began.1 in
            let swept = instant drawn.1 in
            let created = instant swept.1 in
            let ttl = from_secs (clamp 60 600 begun.expires_in) in
            let bounds = clamp_bounds 60 600 begun.expires_in (omega arith) in
            (
              begun,
              created.0,
              ttl,
              done,
              ground arith,
              omega arith,
              omega arith,
              refl,
              λ swept' now state. ground (
                arith,
                resolve-insert_self swept.0 created.0 swept' now ttl (hex_text 32 drawn.0)
                    begun.device_code begun.token_endpoint client_state state s.sessions,
              ),
            )
      ]

  started-apart :
      (a : Auth c) (client_state : String) (s : Server c) (other : String) (swept now : ℕ)
      (state : String)
      → let drawn = random_u128 (start c a.oidc_device s.world).1 in
        hex_text 32 drawn.0 ≢ other
        → (instant drawn.1).0 ≤ swept
        → (resolve swept now other state (start_auth_session c a client_state s).1.sessions).0
          ≡ (resolve swept now other state s.sessions).0
  unfolding start_auth_session begin_session
  started-apart a client_state s other swept now state ne le =
      let began = start c a.oidc_device s.world in
      elim (Result-cases began.0) [
        | inr (_, failed) ↦ ground arith
        | inl (begun, done) ↦
            let drawn = random_u128 began.1 in
            let swept' = instant drawn.1 in
            let created = instant swept'.1 in
            let ttl = from_secs (clamp 60 600 begun.expires_in) in
            ground (
              arith,
              resolve-insert_ne swept'.0 created.0 swept now ttl (hex_text 32 drawn.0) other
                  begun.device_code begun.token_endpoint client_state state s.sessions ne le,
            )
      ]

  -- Logins do not disturb one another: a login that is begun, or that fails to begin, changes
  -- nothing of what the code of any other draw resolves to, for whatever client_state, at a time
  -- after its own sweep. The codes of two draws of 128 bits differ when the draws do.
  pub start_auth_session_apart :
      (a : Auth c) (client_state state : String) (s : Server c) (draw swept now : ℕ)
      → let drawn = random_u128 (start c a.oidc_device s.world).1 in
        draw < 2 ^ 128
        → drawn.0 < 2 ^ 128
        → draw ≢ drawn.0
        → (instant drawn.1).0 ≤ swept
        → (resolve swept now
            (hex_text 32 draw)
            state
            (start_auth_session c a client_state s).1.sessions).0
          ≡ (resolve swept now (hex_text 32 draw) state s.sessions).0
  start_auth_session_apart a client_state state s draw swept now within within' ne le =
      started-apart a client_state s (hex_text 32 draw) swept now state
        (λ same. ne (sym (hex_text-inj 32 _ draw within' within same))) le
