-- ===== src/Web/Handlers/Sessions.antt =====
-- The sessions that web/src/main.rs opens and closes.
use kaguya.Base.{
  ℕ, ◌+◌, ◌≤◌, String, ◌≡◌, true, false, Option, none, some, ℤ, pos, is_before, arith, refl,
  if◌then◌else◌, eq_refl, Option-cases, inl, inr, AllDigits, hex_text-AllDigits,
}
use kaguya.Web.Crates.{Crates}
use kaguya.Web.Store
use kaguya.Web.Store.Lifetimes.{get-create_self}
use kaguya.Web.Cookies.{session_id, session_cookie}
use kaguya.Web.AuthClient.{Issued}
use kaguya.Web.Oidc.{random_state}
use kaguya.Web.Handlers.{redirect, failure, Site, max_age, session_expiry, open_session, logout, me}

-- A session is never opened expired, if the clock does not go back between the two readings; it
-- ends when the token does, if that is ahead, and an hour later if it is not: then the session
-- outlives the token that it holds.
session_expiry_lem :
    (expires_at : ℤ) (now later : ℕ)
    → now ≤ later
    → (is_before now (session_expiry expires_at now later) ≡ true)
      × (is_before now expires_at ≡ true → session_expiry expires_at now later ≡ expires_at)
      × (is_before now expires_at ≡ false
          → session_expiry expires_at now later ≡ pos (later + 3600))
unfolding session_expiry
session_expiry_lem expires_at now later le = ground arith

module _ (c : Crates) where
  open c use {World, unix_seconds, entry_seconds, random_u128}

  -- What a callback that succeeds hands out: a redirect home with the cookie of a fresh identifier
  -- of hexadecimal digits, under which the session answers with the issued token, name and subject, until the expiry that
  -- `session_expiry` gives for the token's and the next two readings of the clock.
  pub open_session_lem :
      (issued : Issued) (s : Site c)
      → let one = unix_seconds s.world in
        let expiry = session_expiry issued.expires_at one.0 (unix_seconds one.1).0 in
        (sid : String) × (n : ℕ) × AllDigits sid
        × ((open_session c issued s).0
            ≡ redirect "/" (some (session_cookie sid (max_age expiry n))))
        × ((now : ℕ)
            → Store.get now sid (open_session c issued s).1.store ≡ (
                if is_before now expiry
                then some (issued.token, issued.user_name, issued.user_id)
                else none))
  unfolding open_session random_state
  open_session_lem issued s =
      let one = unix_seconds s.world in
      let two = unix_seconds one.1 in
      let drawn = random_state c two.1 in
      let visited = entry_seconds drawn.1 in
      let three = unix_seconds visited.1 in
      (
        drawn.0,
        three.0,
        hex_text-AllDigits 32 (random_u128 two.1).0,
        refl,
        λ now.
            (get-create_self visited.0 now drawn.0
              (record {
                token = issued.token;
                user_name = issued.user_name;
                sub = issued.user_id;
                expires_at = session_expiry issued.expires_at one.0 two.0;
              })
              s.store).0,
      )

  -- After a logout the same cookie is not logged in any more: `me` answers 401.
  me-logout :
      (header : Option String) (s : Site c)
      → (me c header (logout c header s).1).0 ≡ failure 401 "not logged in"
  unfolding me logout Store.remove Store.get
  me-logout header s = elim (Option-cases (session_id header)) [
    | inl missing ↦ ground arith
    | inr (id, found) ↦ ground (arith, eq_refl id)
  ]
