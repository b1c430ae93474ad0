-- ===== src/Auth/Tests/Start.antt =====
-- A start of kaguya-auth on an empty disk, and a second one.
use kaguya.Auth.Keys.Torn.{boot_interrupted}
use kaguya.Base.{
  err, ◌∷◌, Option, ◌==◌, if◌then◌else◌, String, ◌≡◌, refl, ok, some, none, [], arith,
}
use kaguya.Auth.Keys.{Signer}
use kaguya.Auth.Keys.Files.{Machine, jwks_path, boot}
use kaguya.Auth.Keys.Boot.{quiet}
use kaguya.Auth.Tests.Toy.{toy, auth, started, SamePair, own_claims, toy_laws}
use kaguya.Auth.Sessions.{new}
use kaguya.Auth.Store.{no_rows}
use kaguya.Auth.Service.OwnTokens.{IsWired}
use kaguya.Auth.Tests.Calls.{issued}
use kaguya.Auth.Main.{serving, keys_dir, start_service}
use kaguya.Auth.Main.Wiring.{IsConfigured}
use kaguya.Auth.Main.Serving.{KeyLaws, start_service-IsConfigured}
use kaguya.Auth.Main.Restart.{restart_accepts}
use kaguya.Auth.Claims.{read_back}
use kaguya.Auth.Verify.{claims}
use kaguya.Auth.Server.{Server}
use kaguya.Auth.Service.{Auth}
use kaguya.Auth.Service.Exchange.{minted_claims}

abbrev empty_disk : Machine toy
empty_disk = record { disk = record { files = λ _. none; faults = [] }; world = 20 }

abbrev environment : String → Option String
environment key =
    if key == "KAGUYA_OIDC_ISSUER"
    then some "idp"
    else if key == "KAGUYA_JWT_AUDIENCE"
    then some "kaguya"
    else if key == "KAGUYA_AUTH_ISSUER"
    then some "auth"
    else none

toy_keys : KeyLaws toy SamePair
toy_keys = record { pairs = λ pem kid private ek jwk dk parsed encoding value usable. tt }

start_runs : (start_service toy environment empty_disk).0 ≡ ok (serving auth (started no_rows))
unfolding start_service kaguya.Auth.Main.env_required boot kaguya.Auth.Keys.Files.load_or_generate
    kaguya.Auth.Keys.Files.create_dir_all kaguya.Auth.Keys.Files.exists
    kaguya.Auth.Keys.Files.join_path kaguya.Auth.Keys.Files.generate_pem
    kaguya.Auth.Keys.Files.write kaguya.Auth.Keys.Files.from_pkcs8_pem
    kaguya.Auth.Keys.Files.publish kaguya.Auth.Verify.self_verifier_for kaguya.Auth.Main.wire
    kaguya.Auth.Main.shared kaguya.Auth.Main.oidc_audiences
start_runs = refl

start_service-IsConfigured_example :
    IsWired toy SamePair auth
    × IsConfigured toy environment auth
    × ((start_service toy environment empty_disk).1.disk.files (jwks_path (keys_dir environment))
        ≡ some "keys")
    × (auth.signer.own_jwk.kid ≡ auth.signer.kid)
    × ((started no_rows).sessions ≡ new)
    × ((started no_rows).cached ≡ none)
start_service-IsConfigured_example =
    start_service-IsConfigured toy toy_keys environment empty_disk auth (started no_rows) start_runs

-- a first start on a disk that is full after two letters of the key
abbrev full_disk : Machine toy
full_disk = record {
  disk = record {
    files = λ _. none;
    faults =
        none ∷ none ∷ some (record { error = "No space left on device"; left = some "pe" }) ∷ [];
  };
  world = 20;
}

boot_interrupted_example :
    ((boot toy "/keys" full_disk).0 ≡ err "No space left on device")
    × (e : String) × ((boot toy "/keys" (quiet toy (boot toy "/keys" full_disk).1 99)).0 ≡ err e)
    × ((boot toy "/keys" (quiet toy (boot toy "/keys" full_disk).1 99)).1.disk.files
        ≡ (boot toy "/keys" full_disk).1.disk.files)
boot_interrupted_example =
    boot_interrupted toy "/keys" "pem" "pe" "not a key"
      (record { error = "No space left on device"; left = some "pe" }) [] full_disk tt
      (quiet toy (boot toy "/keys" full_disk).1 99) refl refl refl refl refl refl refl refl

-- what the second start is given: another provider
abbrev other_environment : String → Option String
other_environment key = if key == "KAGUYA_OIDC_ISSUER" then some "idp2" else environment key

restart_accepts_example :
    (a' : Auth toy) × (sv' : Server toy) × ((start_service toy other_environment
        (quiet toy (start_service toy environment empty_disk).1 30)).0
      ≡ ok (serving a' sv'))
    × (a'.signer ≡ auth.signer)
    × (sv'.store ≡ (started no_rows).store)
    × (sv'.sessions ≡ new)
    × ((claims toy a'.identity "own" (record { cached = none; world = 40 })).0
        ≡ ok (read_back (minted_claims toy auth "ada" own_claims [] 20)))
unfolding kaguya.Auth.Tests.Toy.encode_toy kaguya.Auth.Claims.display_names keys_dir
restart_accepts_example =
    restart_accepts toy toy_keys toy_laws environment other_environment empty_disk
      (start_service toy environment empty_disk).1 30 auth (started no_rows) (started no_rows).store
      "idp2" "ada" own_claims [] issued (record { cached = none; world = 40 }) start_runs refl refl
      refl refl refl refl
      (record { iat = 20; signed = refl; user_id = refl; user_name = refl; expires_at = refl })
      (omega arith)
