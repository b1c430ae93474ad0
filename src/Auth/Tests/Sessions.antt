-- ===== src/Auth/Tests/Sessions.antt =====
-- The tests of auth/src/sessions.rs, on the model, at every clock that does not go back and passes
-- less than five minutes in a test: `swept` and `created` are the readings of the insertion,
-- `looked` and `now` those of the look-up.
use Prim.Native.String.{◌++◌ as join}
use kaguya.Base.{
  ℕ, ◌+◌, ◌≤◌, ◌<◌, String, Bool, true, false, ◌&&◌, ◌==◌, Option, none, some, ◌≡◌, arith,
}
use kaguya.Auth.Sessions
use kaguya.Auth.Sessions.{Sessions, new, from_secs, resolve, remove}

-- the helper of the tests
abbrev insert : ℕ → ℕ → String → String → ℕ → Sessions → Sessions
insert swept created code state ttl s =
    Sessions.insert swept created code (join "dc-" code) "https://idp/token" state ttl s

-- `assert_eq!` on an answer of `resolve`
abbrev same_answer : Option (String × String) → Option (String × String) → Bool
same_answer none none = true
same_answer (some (a, b)) (some (x, y)) = a == x && b == y
same_answer _ _ = false

module _ (swept created looked now : ℕ) where
  abbrev resolves_a_live_session_with_matching_state : Bool
  resolves_a_live_session_with_matching_state =
      let s = insert swept created "sess1" "state-a" (from_secs 300) new in
      same_answer (resolve looked now "sess1" "state-a" s).0
        (some ("dc-sess1", "https://idp/token"))

  abbrev wrong_client_state_does_not_resolve : Bool
  wrong_client_state_does_not_resolve =
      let s = insert swept created "sess1" "state-a" (from_secs 300) new in
      same_answer (resolve looked now "sess1" "state-b" s).0 none

  abbrev unknown_session_does_not_resolve : Bool
  unknown_session_does_not_resolve = same_answer (resolve looked now "nope" "state-a" new).0 none

  abbrev expired_session_does_not_resolve : Bool
  expired_session_does_not_resolve =
      let s = insert swept created "sess1" "state-a" 0 new in
      same_answer (resolve looked now "sess1" "state-a" s).0 none

  abbrev removed_session_is_gone : Bool
  removed_session_is_gone =
      let s = insert swept created "sess1" "state-a" (from_secs 300) new in
      same_answer (resolve looked now "sess1" "state-a" (remove "sess1" s)).0 none

  sessions_tests :
      created ≤ looked
      → looked ≤ now
      → now < created + from_secs 300
      → (resolves_a_live_session_with_matching_state ≡ true)
        × (wrong_client_state_does_not_resolve ≡ true)
        × (unknown_session_does_not_resolve ≡ true)
        × (expired_session_does_not_resolve ≡ true)
        × (removed_session_is_gone ≡ true)
  unfolding resolve remove Sessions.insert
  sessions_tests p q r = (ground arith, ground arith, ground arith, ground arith, ground arith)
