-- ===== src/Base/Threads.antt =====
-- Requests in flight at a service, as threads over what they share: one moves at a time.
use Prim.Native.Nat.{ℕ}
use mathlib.Core.Path.{◌≡◌, refl}
use kaguya.Base.Families.{update, update-all, update-each}

-- what is shared, and where each request stands
pub record System (S P : Type 0) : Type 0 where
  pub shared : S
  pub pc : ℕ → P

module _ {S P : Type 0} (Move : S → P → S → P → Type 0) where
  -- a state that requests which move one at a time can reach
  pub data Reach (first : System S P) : System S P → Type 0 where
    begun : Reach first first
    later :
        {y : System S P} (i : ℕ) {s : S} {p : P}
        → Reach first y
        → Move y.shared (y.pc i) s p
        → Reach first (record { shared = s; pc = update y.pc i p })

  -- An invariant of what is shared and of each request: every move keeps the one, and gives the
  -- other of the request that it is of.
  pub Reach-all :
      {first : System S P} (I : S → Type 0) (J : P → Type 0)
      → I first.shared
      → ((i : ℕ) → J (first.pc i))
      → ((y : System S P) (p : P) (s' : S) (p' : P)
          → Reach first y
          → Move y.shared p s' p'
          → I y.shared
          → J p
          → I s' × J p')
      → {y : System S P} → Reach first y
      → I y.shared × ((i : ℕ) → J (y.pc i))
  Reach-all I J holds each keeps begun = (holds, each)
  Reach-all I J holds each keeps (later {y} i {s} {p} r move) =
      let (shared, requests) = Reach-all I J holds each keeps r in
      let (kept, own) = keeps y (y.pc i) s p r move shared (requests i) in
      (kept, update-all J y.pc i p own requests)

  -- a state that this run has gone through
  pub data Visited {first : System S P}
      : (y : System S P) → Reach first y → System S P → Type 0 where
    now : {y : System S P} (r : Reach first y) → Visited y r y
    before :
        {y z : System S P} {i : ℕ} {s : S} {p : P} {r : Reach first y}
        (move : Move y.shared (y.pc i) s p)
        → Visited y r z
        → Visited (record { shared = s; pc = update y.pc i p }) (later i r move) z

  -- An invariant that looks back: what is known of a request, `J`, may speak of the states that the
  -- run has gone through, and is kept when there are more of them.
  pub Reach-each :
      {first : System S P} (I : S → Type 0) (J : (System S P → Type 0) → ℕ → P → Type 0)
      → I first.shared
      → ((M : System S P → Type 0) (i : ℕ) → J M i (first.pc i))
      → ((M M' : System S P → Type 0) (i : ℕ) (p : P)
          → ((z : System S P) → M z → M' z)
          → J M i p
          → J M' i p)
      → ((y : System S P) (M : System S P → Type 0) (i : ℕ) (p : P) (s' : S) (p' : P)
          → M y
          → y.pc i ≡ p
          → Move y.shared p s' p'
          → I y.shared
          → J M i p
          → I s' × J M i p')
      → {y : System S P} (r : Reach first y) → I y.shared × ((i : ℕ) → J (Visited y r) i (y.pc i))
  Reach-each {first} I J holds each more keeps begun = (holds, each (Visited first begun))
  Reach-each I J holds each more keeps (later {y} i {s} {p} r move) =
      let (shared, requests) = Reach-each I J holds each more keeps r in
      let (kept, own) =
        keeps y (Visited y r) i (y.pc i) s p (now r) refl move shared (requests i) in
      let M = Visited (record { shared = s; pc = update y.pc i p }) (later i r move) in
      (
        kept,
        update-each (J M) y.pc i p (more (Visited y r) M i p (λ z v. before move v) own)
            (λ j. more (Visited y r) M j (y.pc j) (λ z v. before move v) (requests j)),
      )

  -- a run of moves none of which is such
  pub data Run (Such : (s : S) (p : P) (s' : S) (p' : P) → Move s p s' p' → Type 0) (y : System S P)
      : System S P → Type 0 where
    stay : Run Such y y
    go :
        {z : System S P} (i : ℕ) {s : S} {p : P}
        → Run Such y z
        → (move : Move z.shared (z.pc i) s p) → ¬ Such z.shared (z.pc i) s p move
        → Run Such y (record { shared = s; pc = update z.pc i p })

  pub Run-all :
      (I : S → Type 0) {Such : (s : S) (p : P) (s' : S) (p' : P) → Move s p s' p' → Type 0}
      → ((s : S) (p : P) (s' : S) (p' : P) (move : Move s p s' p')
          → ¬ Such s p s' p' move
          → I s
          → I s')
      → {y z : System S P} → Run Such y z
      → I y.shared
      → I z.shared
  Run-all I keeps stay holds = holds
  Run-all I keeps (go i run move other) holds = keeps _ _ _ _ move other (Run-all I keeps run holds)
