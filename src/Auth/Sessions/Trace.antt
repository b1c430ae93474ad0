-- ===== src/Auth/Sessions/Trace.antt =====
-- auth/src/sessions.rs over a whole run, against a table that never sweeps.
use kaguya.Base.{
  ℕ, ◌+◌, ◌≤◌, String, ◌≡◌, Option, List, [], ◌∷◌, arith, ltb, insert as put, keep_if, refl,
}
use kaguya.Auth.Sessions.{Sessions, checked, insert, resolve, remove}

-- The calls of a run, each with the readings of the clock that it makes.
pub data Call : Type 0 where
  begin : ℕ → ℕ → String → String → String → String → ℕ → Call
  poll : ℕ → ℕ → String → String → Call
  finish : String → Call

-- The clock does not go back (`Instant` is monotonic).
abbrev pub IsOrdered : ℕ → List Call → Type 0
IsOrdered t [] = Unit
IsOrdered t (begin swept now _ _ _ _ _ ∷ calls) = (t ≤ swept) × (swept ≤ now) × IsOrdered now calls
IsOrdered t (poll swept now _ _ ∷ calls) = (t ≤ swept) × (swept ≤ now) × IsOrdered now calls
IsOrdered t (finish _ ∷ calls) = IsOrdered t calls

-- What the polls of a run are answered.
unfoldable pub answers : List Call → Sessions → List (Option (String × String))
answers [] m = []
answers (begin swept now code device endpoint state ttl ∷ calls) m =
    answers calls (insert swept now code device endpoint state ttl m)
answers (poll swept now code state ∷ calls) m =
    let (found, m') = resolve swept now code state m in found ∷ answers calls m'
answers (finish code ∷ calls) m = answers calls (remove code m)

-- The contract: a table that keeps every session until it is removed or replaced, and looks at
-- the deadline only when it is asked.
unfoldable pub promised : List Call → Sessions → List (Option (String × String))
unfolding remove
promised [] m = []
promised (begin swept now code device endpoint state ttl ∷ calls) m = promised calls (
    put code
      (record {
        device_code = device;
        token_endpoint = endpoint;
        client_state = state;
        expires_at = now + ttl;
      })
      m)
promised (poll swept now code state ∷ calls) m = checked now state (m code) ∷ promised calls m
promised (finish code ∷ calls) m = promised calls (remove code m)

-- the two tables hold the same live sessions at `t`, and from then on
abbrev SameLive : ℕ → Sessions → Sessions → Type 0
SameLive t m r =
    (k : String) (now : ℕ)
    → t ≤ now
    → keep_if (λ s. ltb now s.expires_at) (m k) ≡ keep_if (λ s. ltb now s.expires_at) (r k)

insert-SameLive :
    (t swept now ttl : ℕ) (code device endpoint state : String) (m r : Sessions)
    → t ≤ swept
    → swept ≤ now
    → SameLive t m r
    → SameLive now (insert swept now code device endpoint state ttl m) (
        put code
          (record {
            device_code = device;
            token_endpoint = endpoint;
            client_state = state;
            expires_at = now + ttl;
          })
          r)
unfolding insert
insert-SameLive t swept now ttl code device endpoint state m r le₁ le₂ h k later le =
    ground (arith, h k later)

resolve-SameLive :
    (t swept now : ℕ) (code state : String) (m r : Sessions)
    → t ≤ swept
    → swept ≤ now
    → SameLive t m r
    → SameLive now (resolve swept now code state m).1 r
unfolding resolve
resolve-SameLive t swept now code state m r le₁ le₂ h k later le = ground (arith, h k later)

resolve-answer :
    (t swept now : ℕ) (code state : String) (m r : Sessions)
    → t ≤ swept
    → swept ≤ now
    → SameLive t m r
    → (resolve swept now code state m).0 ≡ checked now state (r code)
unfolding resolve
resolve-answer t swept now code state m r le₁ le₂ h = ground (arith, h code now)

remove-SameLive :
    (t : ℕ) (code : String) (m r : Sessions)
    → SameLive t m r
    → SameLive t (remove code m) (remove code r)
unfolding remove
remove-SameLive t code m r h k now le = ground (arith, h k now)

answers-promised_from :
    (t : ℕ) (calls : List Call) (m r : Sessions)
    → IsOrdered t calls
    → SameLive t m r
    → answers calls m ≡ promised calls r
unfolding answers promised
answers-promised_from t [] m r o h = refl
answers-promised_from t (begin swept now code device endpoint state ttl ∷ calls) m r o h =
    answers-promised_from now calls _ _ o.2
      (insert-SameLive t swept now ttl code device endpoint state m r o.0 o.1 h)
answers-promised_from t (poll swept now code state ∷ calls) m r o h = cc (
  resolve-answer t swept now code state m r o.0 o.1 h,
  answers-promised_from now calls (resolve swept now code state m).1 r o.2
      (resolve-SameLive t swept now code state m r o.0 o.1 h),
)
answers-promised_from t (finish code ∷ calls) m r o h =
    answers-promised_from t calls _ _ o (remove-SameLive t code m r h)

-- Sweeping is unobservable: over every run on a clock that does not go back, the polls are
-- answered as by a table that never drops an expired session.
pub answers-promised :
    (t : ℕ) (calls : List Call) (m : Sessions)
    → IsOrdered t calls
    → answers calls m ≡ promised calls m
answers-promised t calls m o = answers-promised_from t calls m m o (λ k now le. refl)
