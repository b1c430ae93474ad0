-- ===== src/Auth/Requests/Finished.antt =====
-- A login that auth/src/main.rs has finished stays finished, whatever other requests do meanwhile.
use kaguya.Base.{System, Run, Run-all, ℕ, String, none, ◌≡◌, eq_iff, update, arith}
use kaguya.Auth.Crates.{Crates}
use kaguya.Auth.Sessions
use kaguya.Auth.Sessions.{Session, Sessions, resolve}
use kaguya.Auth.Service.{Auth}
use kaguya.Auth.Requests.{
  Shared, Pc, insert_session, resolve_session, resolve_nothing, polled_denied, end_login, Move,
  System,
}

module _ (c : Crates) (a : Auth c) (code : String) where
  -- whether a step begins a login under the same code
  abbrev pub Renews :
      (s : Shared c) (p : Pc c) (s' : Shared c) (p' : Pc c) → Move c a s p s' p' → Type 0
  Renews _ _ _ _ (insert_session _ _ other) = other ≡ code
  Renews _ _ _ _ _ = ⊥

  -- whether a step finishes the login under the code: its token has been verified, or the provider
  -- has denied it
  abbrev pub Finishes :
      (s : Shared c) (p : Pc c) (s' : Shared c) (p' : Pc c) → Move c a s p s' p' → Type 0
  Finishes _ _ _ _ (end_login {code = other}) = other ≡ code
  Finishes _ _ _ _ (polled_denied {code = other} _ _) = other ≡ code
  Finishes _ _ _ _ _ = ⊥

  Move_finished :
      (s : Shared c) (p : Pc c) (s' : Shared c) (p' : Pc c) (move : Move c a s p s' p')
      → Finishes s p s' p' move
      → s'.sessions code ≡ none
  unfolding Sessions.remove
  Move_finished _ _ _ _ (end_login {code = other}) same = ground (arith, eq_iff other code)
  Move_finished _ _ _ _ (polled_denied {code = other} _ _) same = ground (arith, eq_iff other code)
  Move_finished _ _ _ _ _ never = absurd never

  Move_removed :
      (s : Shared c) (p : Pc c) (s' : Shared c) (p' : Pc c) (move : Move c a s p s' p')
      → ¬ Renews s p s' p' move
      → s.sessions code ≡ none
      → s'.sessions code ≡ none
  unfolding Sessions.insert resolve Sessions.sweep Sessions.remove
  Move_removed _ _ _ _ (insert_session swept now other) ne gone = ground (arith, eq_iff other code)
  Move_removed _ _ _ _ (resolve_session _ _ _ _ _) ne gone = ground arith
  Move_removed _ _ _ _ (resolve_nothing _ _ _ _ _) ne gone = ground arith
  Move_removed _ _ _ _ (polled_denied {code = other} _ _) ne gone = ground arith
  Move_removed _ _ _ _ (end_login {code = other}) ne gone = ground arith
  Move_removed _ _ _ _ _ ne gone = gone

  -- A login that has been finished is over. Once a request has taken the step that ends it (its token
  -- has been verified, or the provider has denied it), then however the requests interleave, its code
  -- resolves for nobody, at whatever time, unless a login has been begun under the same code again.
  pub resolve_finished :
      (swept now : ℕ) (client_state : String) (y z : System (Shared c) (Pc c)) (i : ℕ)
      (s : Shared c) (p : Pc c)
      → (move : Move c a y.shared (y.pc i) s p) → Finishes y.shared (y.pc i) s p move
      → Run (Move c a) Renews (record { shared = s; pc = update y.pc i p }) z
      → (resolve swept now code client_state z.shared.sessions).0 ≡ none
  unfolding resolve Sessions.sweep
  resolve_finished swept now client_state y z i s p move finishes run =
      let gone = Move_finished y.shared (y.pc i) s p move finishes in
      let still = Run-all (Move c a) (λ t. t.sessions code ≡ none) Move_removed run gone in
      ground arith
