-- ===== src/Web/Lore.antt =====
-- The client of loreserver in web/src/lore.rs. A request is its metadata.
pub mod Listing
use Prim.Native.String.{◌++◌ as join}
use kaguya.Base.{
  ℕ, zero, suc, String, Option, none, some, List, [], ◌∷◌, ◌++◌, Prog, pure, raise, lift, ◌>>=◌,
  map_err, Result, ok, err, insert, empty,
}
use kaguya.Web.Crates.{Crates, Repository, Metadata}
use kaguya.Web.Hex.{hex}

pub record RepoSummary : Type 0 where
  -- the text's bytes
  pub id : List ℕ
  pub name : String
  pub description : String
  pub default_branch : String

abbrev summary : Repository → RepoSummary
summary r = record {
  id = hex r.id;
  name = r.name;
  description = r.description;
  default_branch = r.default_branch_name;
}

abbrev push : List RepoSummary → Option Repository → List RepoSummary
push repos none = repos
push repos (some r) = repos ++ summary r ∷ []

module _ (c : Crates) where
  open c use {
    World, MetadataValue, Stream, Channel, connect, metadata_value, repository_list, message,
  }

  -- `LoreClient::repository`: the token is not used for connecting
  unfoldable pub repository : String → String → Prog String World Channel
  repository endpoint token = map_err (λ e. join "lore connect: " e) (connect endpoint)

  unfoldable pub set_bearer :
      String → Metadata MetadataValue → Result String (Metadata MetadataValue)
  set_bearer token req = elim (metadata_value (join "Bearer " token)) [
    | none ↦ err "invalid bearer token"
    | some value ↦ ok (record req { texts = insert "authorization" value req.texts })
  ]

  unfoldable pub set_repo_scope :
      String → List ℕ → Metadata MetadataValue → Result String (Metadata MetadataValue)
  set_repo_scope token repo_id req = elim (set_bearer token req) [
    | err e ↦ err e
    | ok with_bearer ↦ ok (record with_bearer {
      bytes =
          insert "urc-repository-id-bin" repo_id
            (insert "lore-partition-bin" repo_id with_bearer.bytes);
    })
  ]

  -- The loop over the stream. The server may never end it: the fuel is the number of messages that
  -- are read at most, and running out of it is `none`.
  unfoldable pub read_stream :
      ℕ → Stream → List RepoSummary → Prog String World (Option (List RepoSummary))
  read_stream zero stream repos = pure none
  read_stream (suc fuel) stream repos = do
    next ← map_err (λ e. join "repository_list stream: " e) (message stream)
    elim next [
      | none ↦ pure (some repos)
      | some (repository, rest) ↦ read_stream fuel rest (push repos repository)
    ]

  unfoldable pub list_repos : ℕ → String → String → Prog String World (Option (List RepoSummary))
  unfolding repository set_bearer
  list_repos fuel endpoint token = do
    client ← repository endpoint token
    req ← lift (set_bearer token (record { texts = empty; bytes = empty }))
    stream ← map_err (λ e. join "repository_list: " e) (repository_list client req)
    read_stream fuel stream []
