-- ===== src/Auth/Tests/Published.antt =====
-- The test of `publish` in auth/src/jwks.rs, on the model, with a stand-in for serde_json: a key set
-- is written as the ids of its keys, each behind a space, and read back from that.
use Prim.Native.String.{◌++◌ as join}
use native.Mathlib.Decide.{ℕ_discrete}
use Prim.Native.Char.{code}
use mathlib.Core.Logic.{ite}
use kaguya.Base.{
  String, Bool, true, false, ◌&&◌, none, List, [], ◌∷◌, ok, ◌≡◌, refl, Prog, pure, ◌>>=◌, ◌>>◌,
  contains,
}
use kaguya.Auth.Crates.{Crates, OwnJwk}
use kaguya.Auth.Keys.Files.{Machine, create_dir_all, read_to_string, jwks_path, on_disk, publish}
use kaguya.Auth.Tests.Toy.{toy}

-- the ids of a key set, and the text that is written of them
abbrev written : List OwnJwk → String
written [] = ""
written (key ∷ keys) = join " " (join key.kid (written keys))

-- the id that the text begins with, and those behind spaces
abbrev parsed : String → String × List String
parsed String.[] = ("", [])
parsed (String.◌∷◌ c s) =
    let (word, words) = parsed s in
    ite (ℕ_discrete (code c) b' ') ("", word ∷ words) (String.◌∷◌ c word, words)

abbrev publishing : Crates
publishing = record toy { jwks_text = written }

abbrev is_one : List String → Bool
is_one (_ ∷ []) = true
is_one _ = false

abbrev publishes_our_key_as_a_parseable_jwks : Prog String (Machine publishing) Bool
publishes_our_key_as_a_parseable_jwks = do
  let dir : String = "/tmp/kaguya-jwks"
  on_disk publishing (create_dir_all dir)
  let own : OwnJwk = record {
    kty = "RSA";
    key_use = "sig";
    alg = "RS256";
    kid = "ours";
    n = "AQAB";
    e = "AQAB";
  }
  publish publishing dir own
  text ← on_disk publishing (read_to_string (jwks_path dir))
  let set : List String = (parsed text).1
  pure (is_one set && contains set "ours")

publish_test :
    (publishes_our_key_as_a_parseable_jwks
      (record { disk = record { files = λ _. none; faults = [] }; world = 20 })).0
    ≡ ok true
unfolding create_dir_all kaguya.Auth.Keys.Files.join_path kaguya.Base.trim_end_slashes
    read_to_string publish contains kaguya.Auth.Keys.Files.write ℕ_discrete
publish_test = refl
