-- ===== src/Web/Handlers/Listed.antt =====
-- The listing of repositories by web/src/main.rs, from the session to the answer.
use Prim.Native.String.{◌++◌ as join}
use kaguya.Base.{ℕ, ◌<◌, String, Option, none, some, List, ok, ◌≡◌, arith, length, insert, empty}
use kaguya.Web.Crates.{Crates, Repository}
use kaguya.Web.Lore.{repository, set_bearer, list_repos}
use kaguya.Web.Lore.Listing.{Gives, listing, summaries, read_stream_lem}
use kaguya.Web.Handlers.{App, Site, Response, failure, repos_json, session, repos}

module _ (c : Crates) where
  open c use {World, Channel, MetadataValue, Stream, connect, metadata_value, repository_list}

  -- What loreserver answers to a listing that begins in this world: it is reached, and its stream
  -- gives these messages and then ends, or fails.
  pub record Serves (app : App c) (token : String) (w : World) (ms : List (Option Repository))
      (ending : Option String) : Type 0 where
    pub channel : Channel
    pub value : MetadataValue
    pub stream : Stream
    pub reached : (connect app.lore w).0 ≡ ok channel
    pub bearer : metadata_value (join "Bearer " token) ≡ some value
    pub listed :
        (repository_list channel
          (record { texts = insert "authorization" value empty; bytes = empty })
          (connect app.lore w).1).0
        ≡ ok stream
    pub gives :
        Gives c stream
          (repository_list channel
            (record { texts = insert "authorization" value empty; bytes = empty })
            (connect app.lore w).1).1
          ms
          ending

  abbrev pub shown : List (Option Repository) → Option String → Response
  shown ms none = repos_json (summaries ms)
  shown ms (some e) = failure 502 "could not list repositories"

  set_bearer-bearer :
      (token : String) (value : MetadataValue)
      → metadata_value (join "Bearer " token) ≡ some value
      → set_bearer c token (record { texts = empty; bytes = empty })
        ≡ ok (record { texts = insert "authorization" value empty; bytes = empty })
  unfolding set_bearer
  set_bearer-bearer token value bearer = ground arith

  list_repos-Serves :
      (fuel : ℕ) (app : App c) (token : String) (w : World) (ms : List (Option Repository))
      (ending : Option String)
      → length ms < fuel
      → Serves app token w ms ending
      → (list_repos c fuel app.lore token w).0 ≡ listing c (summaries ms) ending
  unfolding list_repos repository
  list_repos-Serves fuel app token w ms ending lt serves =
      rw (reached, set_bearer-bearer token value bearer, listed)
        (read_stream_lem c fuel stream _ ms ending lt gives)
    where
      open serves use {channel, value, stream, reached, bearer, listed, gives}

  -- The listing of repositories ends, and answers right: for a session that is logged in, if
  -- loreserver takes its token and its stream gives some messages and then ends, with a fuel above
  -- their number, the answer has the repositories of those that carry one, in order, their ids in
  -- hexadecimal; and if the stream fails after them, the answer is 502.
  pub repos_answers :
      (fuel : ℕ) (app : App c) (header : Option String) (s : Site c) (token user_name sub : String)
      (ms : List (Option Repository)) (ending : Option String)
      → (session c s header).0 ≡ some (token, user_name, sub)
      → Serves app token (session c s header).1.world ms ending
      → length ms < fuel
      → (repos c fuel app header s).0 ≡ some (shown ms ending)
  unfolding repos
  repos_answers fuel app header s token user_name sub ms none live serves lt =
      ground
        (arith, list_repos-Serves fuel app token (session c s header).1.world ms none lt serves)
  repos_answers fuel app header s token user_name sub ms (some e) live serves lt =
      ground
        (arith, list_repos-Serves fuel app token (session c s header).1.world ms (some e) lt serves)
