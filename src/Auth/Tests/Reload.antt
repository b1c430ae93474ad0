-- ===== src/Auth/Tests/Reload.antt =====
-- The test `kid_is_stable_across_reload` of auth/src/keys.rs, on the model, in a directory that has
-- no key yet.
use kaguya.Base.{String, Bool, ◌&&◌, ◌==◌, none, [], true, ok, ◌≡◌, refl, Prog, pure, ◌>>=◌}
use kaguya.Auth.Crates.{OwnJwk}
use kaguya.Auth.Keys.{Signer}
use kaguya.Auth.Keys.Files.{Machine, load_or_generate}
use kaguya.Auth.Tests.Toy.{toy}

abbrev same_jwk : OwnJwk → OwnJwk → Bool
same_jwk a b =
    a.kty == b.kty
    && (a.key_use == b.key_use
        && (a.alg == b.alg && (a.kid == b.kid && (a.n == b.n && a.e == b.e))))

abbrev kid_is_stable_across_reload : String → Prog String (Machine toy) Bool
kid_is_stable_across_reload dir = do
  first ← load_or_generate toy dir
  second ← load_or_generate toy dir
  pure (first.kid == second.kid && same_jwk first.own_jwk second.own_jwk)

reload_test :
    (kid_is_stable_across_reload "/tmp/kaguya-reload"
      (record { disk = record { files = λ _. none; faults = [] }; world = 20 })).0
    ≡ ok true
unfolding load_or_generate kaguya.Auth.Keys.Files.create_dir_all kaguya.Auth.Keys.Files.exists
    kaguya.Auth.Keys.Files.join_path kaguya.Base.trim_end_slashes native.Mathlib.Decide.ℕ_discrete
    kaguya.Auth.Keys.Files.generate_pem kaguya.Auth.Keys.Files.write
    kaguya.Auth.Keys.Files.read_to_string kaguya.Auth.Keys.Files.from_pkcs8_pem
reload_test = refl
