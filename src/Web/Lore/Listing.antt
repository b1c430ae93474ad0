-- ===== src/Web/Lore/Listing.antt =====
-- What the loop of `list_repos` in web/src/lore.rs reads off a stream that ends.
use kaguya.Base.{
  String, Result, err, ℕ, zero, suc, ◌<◌, ◌≡◌, Option, none, some, List, [], ◌∷◌, ◌++◌, ok, arith,
  length,
}
use Prim.Native.String.{◌++◌ as join}
use mathlib.Core.List.{append_assoc, append-nil}
use kaguya.Web.Crates.{Crates, Repository}
use kaguya.Web.Lore.{RepoSummary, summary, read_stream}

-- the repositories of the messages that carry one
abbrev pub summaries : List (Option Repository) → List RepoSummary
summaries [] = []
summaries (none ∷ ms) = summaries ms
summaries (some r ∷ ms) = summary r ∷ summaries ms

module _ (c : Crates) where
  open c use {World, Stream, message}

  -- From this world on the stream gives these messages, and then it ends, or fails with an error.
  abbrev pub Gives : Stream → World → List (Option Repository) → Option String → Type 0
  Gives stream w [] none = (message stream w).0 ≡ ok none
  Gives stream w [] (some e) = (message stream w).0 ≡ err e
  Gives stream w (m ∷ ms) ending =
      (rest : Stream) × ((message stream w).0 ≡ ok (some (m, rest)))
      × Gives rest (message stream w).1 ms ending

  -- what is read of it, behind what has been read
  abbrev pub listing : List RepoSummary → Option String → Result String (Option (List RepoSummary))
  listing repos none = ok (some repos)
  listing repos (some e) = err (join "repository_list stream: " e)

  read_stream-Gives :
      (fuel : ℕ) (stream : Stream) (w : World) (ms : List (Option Repository))
      (ending : Option String) (acc : List RepoSummary)
      → length ms < fuel
      → Gives stream w ms ending
      → (read_stream c fuel stream acc w).0 ≡ listing (acc ++ summaries ms) ending
  unfolding read_stream
  read_stream-Gives zero stream w ms ending acc lt g = absurd (omega arith)
  read_stream-Gives (suc fuel) stream w [] none acc lt g = rw (g, append-nil)
  read_stream-Gives (suc fuel) stream w [] (some e) acc lt g = rw g
  read_stream-Gives (suc fuel) stream w (none ∷ ms) ending acc lt (rest, got, g) =
      rw got (read_stream-Gives fuel rest (message stream w).1 ms ending acc (omega arith) g)
  read_stream-Gives (suc fuel) stream w (some r ∷ ms) ending acc lt (rest, got, g) = rw got (
      rw append_assoc at (
        read_stream-Gives fuel rest (message stream w).1 ms ending (acc ++ summary r ∷ [])
          (omega arith) g))

  -- If the stream gives some messages and then ends, a fuel above their number is enough, and the
  -- list has the repositories of those that carry one, in order, their ids in hexadecimal; if it
  -- fails, there is no list.
  pub read_stream_lem :
      (fuel : ℕ) (stream : Stream) (w : World) (ms : List (Option Repository))
      (ending : Option String)
      → length ms < fuel
      → Gives stream w ms ending
      → (read_stream c fuel stream [] w).0 ≡ listing (summaries ms) ending
  read_stream_lem fuel stream w ms ending lt g = read_stream-Gives fuel stream w ms ending [] lt g
