-- ===== src/Auth/Main.antt =====
-- `main` of auth/src/main.rs: an admin command, or the start of the service from the environment, the
-- key files and the database. The listener is left out: `serving` is what it is started with.
pub mod Wiring
pub mod Serving
pub mod Restart
use Prim.Native.String.{◌++◌ as join}
use kaguya.Base.{
  String, Option, none, some, List, [], ◌∷◌, Result, ok, err, Prog, pure, lift, ◌>>=◌, is_empty,
  if◌then◌else◌, map_result, unwrap_or,
}
use kaguya.Auth.Sessions.{new}
use kaguya.Auth.Store.{Store}
use kaguya.Auth.Crates.{Crates}
use kaguya.Auth.Keys.{Signer}
use kaguya.Auth.Keys.Files.{Machine, boot}
use kaguya.Auth.Verify.{SelfVerifier, self_verifier_for, message}
use kaguya.Auth.Server.{Server}
use kaguya.Auth.Service.{Auth}
use kaguya.Auth.Admin.{Line, run_admin}

-- `env` is the process environment
unfoldable pub env_required : (String → Option String) → String → Result String String
env_required env key = elim (env key) [
  | none ↦ err (join "missing required env var " key)
  | some v ↦ ok v
]

unfoldable pub keys_dir : (String → Option String) → String
keys_dir env = unwrap_or (env "KAGUYA_KEYS_DIR") "/keys"

unfoldable pub db_path : (String → Option String) → String
db_path env = unwrap_or (env "KAGUYA_DB_PATH") "/data/rebac.db"

-- the audiences that the OIDC verifier accepts
unfoldable pub oidc_audiences : (String → Option String) → String → List String
oidc_audiences env audience = elim (env "KAGUYA_WEB_AUDIENCE") [
  | none ↦ audience ∷ []
  | some web_aud ↦ if is_empty web_aud then audience ∷ [] else audience ∷ web_aud ∷ []
]

module _ (c : Crates) where
  open c use {World, open_store}

  -- how `main` ends: with an admin command run, or with a service to serve
  pub data Started : Type 0 where
    ran : Result String (List Line) → Store → Started
    serving : Auth c → Server c → Started

  -- the services' fields that do not change
  unfoldable pub wire :
      (String → Option String) → Signer c → SelfVerifier c → String → String → String → Auth c
  wire env signer self_verifier oidc_issuer audience auth_issuer = record {
    signer = signer;
    oidc = record { issuer = oidc_issuer; audiences = oidc_audiences env audience };
    identity = record {
      self_verifier = self_verifier;
      oidc = record { issuer = oidc_issuer; audiences = oidc_audiences env audience };
    };
    oidc_device = record { issuer = oidc_issuer; client_id = audience };
    auth_issuer = auth_issuer;
    audience = audience;
  }

  -- the state that they share: `Sessions::new`, and no key set from `OidcVerifier::new`
  unfoldable pub shared : Store → World → Server c
  shared store world = record { store = store; sessions = new; cached = none; world = world }

  -- `Store::open`
  abbrev pub opened : String → Prog String (Machine c) Store
  opened path s = let (r, w) = open_store path s.world in (r, record s { world = w })

  unfoldable pub start_service : (String → Option String) → Prog String (Machine c) Started
  start_service env = do
    oidc_issuer ← lift (env_required env "KAGUYA_OIDC_ISSUER")
    audience ← lift (env_required env "KAGUYA_JWT_AUDIENCE")
    auth_issuer ← lift (env_required env "KAGUYA_AUTH_ISSUER")
    signer ← boot c (keys_dir env)
    store ← opened (db_path env)
    own ← lift (map_result message (self_verifier_for c signer.own_jwk auth_issuer audience))
    λ s. (
      ok (serving (wire env signer own oidc_issuer audience auth_issuer) (shared store s.world)),
      s,
    )

  unfoldable pub admin :
      (String → Option String) → String → List String → Prog String (Machine c) Started
  admin env command rest = do
    store ← opened (db_path env)
    let (printed, after) = run_admin command rest store
    pure (ran printed after)

  -- `args` without the program's name
  unfoldable pub main : (String → Option String) → List String → Prog String (Machine c) Started
  main env [] = start_service env
  main env (command ∷ rest) = admin env command rest
