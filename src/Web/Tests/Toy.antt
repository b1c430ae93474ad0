-- ===== src/Web/Tests/Toy.antt =====
-- Concrete crates for kaguya-web: a world that is a clock, an identity provider that knows one
-- login, an auth service that exchanges its token, and a repository service with one repository.
use kaguya.Auth.Service.{UserToken}
use kaguya.Base.{◌==◌, if◌then◌else◌, ℕ, String, none, some, List, [], ◌∷◌, ok, pos, Option}
use kaguya.Web.Crates.{Crates, Repository}
use kaguya.Web.Handlers.{App, Site}
use kaguya.Web.Store.{default}
use Prim.Native.String.{◌++◌ as join}

abbrev pub repository : Repository
repository = record { id = 171 ∷ []; name = "one"; description = ""; default_branch_name = "main" }

-- the messages that are still to come
abbrev pub next_message :
    List (Option Repository) → Option (Option Repository × List (Option Repository))
next_message [] = none
next_message (m ∷ ms) = some (m, ms)

-- the text of 24149 = 0x5e55
abbrev pub drawn_id : String
drawn_id = "00000000000000000000000000005e55"

abbrev pub issued : UserToken
issued = record { user_token = "own"; expires_at = pos 90; user_id = "ada"; user_name = "Ada" }

abbrev pub toy : Crates
toy = record {
  World = ℕ;
  unix_seconds = λ w. (w, w);
  entry_seconds = λ w. (λ _. w, w);
  random_u128 = λ w. (24149, w);
  random_bytes = λ w. ([], w);
  encode_url_safe = λ bytes. "verifier";
  sha256 = λ s. [];
  Reply = Unit;
  get = λ url w. (ok tt, w);
  post_form = λ url pairs w. (ok tt, w);
  error_for_status = λ r. ok r;
  json_discovery =
      λ r w. (ok (record { authorization_endpoint = "idp/auth"; token_endpoint = "idp/token" }), w);
  json_token = λ r w. (ok (record { id_token = "id" }), w);
  Url = String;
  parse_url = λ s. ok s;
  append_pair = λ k v url. join url (join k v);
  url_text = λ url. url;
  Channel = Unit;
  MetadataValue = String;
  Stream = List (Option Repository);
  connect = λ endpoint w. (ok tt, w);
  metadata_value = λ s. some s;
  exchange_external_token =
      λ channel external hint w. (ok (if external == "id" then some issued else none), w);
  exchange_multiresource =
      λ channel header ids w. (ok (if header == "Bearer own" then some issued else none), w);
  repository_list = λ channel header w. (ok (some repository ∷ none ∷ []), w);
  message = λ stream w. (ok (next_message stream), w);
}

abbrev pub app : App toy
app = record {
  oidc = record { issuer = "idp"; client_id = "web"; redirect_uri = "https://web/callback" };
  auth = "http://auth";
  lore = "http://lore";
}

-- ada's login is in flight until 620
abbrev pub site : Site toy
site = record {
  store = record default {
    pending = λ state. some (record { verifier = "verifier"; expires_at = pos 620 });
  };
  world = 20;
}
