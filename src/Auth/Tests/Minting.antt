-- ===== src/Auth/Tests/Minting.antt =====
-- The tests of `Signer::mint` in auth/src/keys.rs, on the model, with a stand-in for rsa and
-- jsonwebtoken: a key is its modulus, a token the text of its claims and of the key, and `decode`
-- accepts exactly the tokens of the claims that the test mints, under their key, for an issuer and an
-- audience that are asked for, until a minute after their expiry.
use Prim.Native.String.{◌++◌ as join}
use kaguya.Base.{
  ℕ, ◌+◌, ◌-◌, String, Bool, true, false, not, ◌&&◌, ◌==◌, none, List, [], ◌∷◌, map, any, Result,
  ok, err, ◌≡◌, refl, Prog, pure, lift, gets, ◌>>=◌, ltb, contains, hex_text, if◌then◌else◌,
}
use kaguya.Auth.Claims.{ResourceGrant, MintedClaims}
use kaguya.Auth.Crates.{Crates, Validation, rs256}
use kaguya.Auth.Keys.{Signer, mint}
use kaguya.Auth.Keys.Files.{Machine, load_or_generate}
use kaguya.Auth.Tests.Toy.{toy}

abbrev iss : String
iss = "https://auth.lore.example.com"

abbrev aud : String
aud = "lore.example.com"

abbrev texts : List String → String
texts [] = ""
texts (s ∷ ss) = join s (join "." (texts ss))

abbrev token_text : MintedClaims → String → String
token_text m key = join (texts (m.iss ∷ m.sub ∷ m.name ∷ m.preferred_username ∷ key ∷ [])) (
    join (texts m.aud) (
      join (texts (hex_text 16 m.iat ∷ hex_text 16 m.exp ∷ []))
        (texts (map (λ g. join g.resource_id (texts g.permission)) m.resources))))

-- the crates of the tests
abbrev minting : Crates
minting = record toy {
  Jwk = String;
  DecodingKey = String;
  EncodingKey = String;
  find = λ _ _. none;
  from_jwk = λ key. ok key;
  jwk_from_value = λ own. ok own.n;
  decode = λ _ _ _ w. (err "InvalidToken", w);
  encode = λ _ m key. ok (token_text m key);
  from_rsa_pem = λ _. ok "modulus";
}

-- `decode::<MintedClaims>`, where these claims are the ones that have been signed
abbrev decode_minted : MintedClaims → String → String → Validation → ℕ → Result String MintedClaims
decode_minted m token key v now =
    if token == token_text m key
      && (contains v.issuers m.iss && (any (contains v.audiences) m.aud && ltb now (m.exp + 60)))
    then ok m
    else err "InvalidToken"

abbrev signer : String → Prog String (Machine minting) (Signer minting)
signer dir = load_or_generate minting dir

abbrev grants : List String → List ResourceGrant
grants = map (λ id. record { resource_id = id; permission = "read" ∷ "write" ∷ [] })

abbrev decoding_key : Signer minting → Result String String
decoding_key s = elim (minting.jwk_from_value s.own_jwk) [
  | err e ↦ err e
  | ok jwk ↦ minting.from_jwk jwk
]

abbrev validation : Validation
validation = record {
  algorithm = rs256;
  issuers = iss ∷ [];
  audiences = aud ∷ [];
  validate_exp = true;
}

-- the `mint` of a test, with the expiry as a function of the time, and what `decode` gives for it
abbrev minted :
    String
    → String
    → String
    → String
    → (ℕ → ℕ)
    → List String
    → Prog String (Machine minting) (Result String MintedClaims)
minted audience subject name preferred_username exp ids = do
  s ← signer "/tmp/kaguya-keys"
  now ← gets (λ (machine : Machine minting). machine.world)
  token ← λ machine.
      let (r, w) =
        mint minting s iss audience subject name preferred_username (exp now) (grants ids)
          machine.world in
      (r, record machine { world = w })
  key ← lift (decoding_key s)
  let signed : MintedClaims = record {
    iss = iss;
    sub = subject;
    aud = audience ∷ [];
    iat = now;
    exp = exp now;
    name = name;
    preferred_username = preferred_username;
    is_service_account = false;
    resources = grants ids;
  }
  pure (decode_minted signed token key validation now)

abbrev is_same : List String → List String → Bool
is_same [] [] = true
is_same (x ∷ xs) (y ∷ ys) = let rest = is_same xs ys in x == y && rest
is_same _ _ = false

abbrev is_err : Result String MintedClaims → Bool
is_err (ok _) = false
is_err (err _) = true

abbrev all_grants : (ResourceGrant → Bool) → List ResourceGrant → Bool
all_grants p gs = not (any (λ g. not (p g)) gs)

-- the assertions of the first test
abbrev carries : ℕ → Result String MintedClaims → Bool
carries exp (err _) = false
carries exp (ok m) =
    m.iss == iss
    && (is_same m.aud (aud ∷ [])
        && (m.sub == "user-1"
            && (ltb m.exp (exp + 1)
                && (ltb exp (m.exp + 1)
                    && (m.name == "User One"
                        && (m.preferred_username == "user1"
                            && (is_same (map (λ g. g.resource_id) m.resources)
                                  ("urc-abc" ∷ "urc-def" ∷ [])
                                && all_grants (λ g. is_same g.permission ("read" ∷ "write" ∷ []))
                                    m.resources)))))))

abbrev minted_token_verifies_against_published_jwk : Prog String (Machine minting) Bool
minted_token_verifies_against_published_jwk = do
  now ← gets (λ (machine : Machine minting). machine.world)
  found ← minted aud "user-1" "User One" "user1" (λ n. n + 3600) ("urc-abc" ∷ "urc-def" ∷ [])
  pure (carries (now + 3600) found)

abbrev allows : String → Result String MintedClaims → Bool
allows repo (ok m) = any (λ g. g.resource_id == repo) m.resources
allows repo (err _) = false

abbrev minted_token_authorizes_the_requested_repository : Prog String (Machine minting) Bool
minted_token_authorizes_the_requested_repository = do
  let repo : String = "urc-0194b726b34e72b0b45550b88a967076"
  found ← minted aud "u" "U" "u" (λ n. n + 60) (repo ∷ [])
  pure (allows repo found)

abbrev wrong_audience_is_rejected : Prog String (Machine minting) Bool
wrong_audience_is_rejected = do
  found ← minted "someone-else" "u" "U" "u" (λ n. n + 60) ("urc-x" ∷ [])
  pure (is_err found)

abbrev expired_token_is_rejected : Prog String (Machine minting) Bool
expired_token_is_rejected = do
  found ← minted aud "u" "U" "u" (λ n. n - 3600) ("urc-x" ∷ [])
  pure (is_err found)

abbrev fresh : Machine minting
fresh = record { disk = record { files = λ _. none; faults = [] }; world = 9000 }

mint_tests :
    ((minted_token_verifies_against_published_jwk fresh).0 ≡ ok true)
    × ((minted_token_authorizes_the_requested_repository fresh).0 ≡ ok true)
    × ((wrong_audience_is_rejected fresh).0 ≡ ok true)
    × ((expired_token_is_rejected fresh).0 ≡ ok true)
unfolding load_or_generate mint any contains hex_text kaguya.Auth.Keys.Files.create_dir_all
    kaguya.Auth.Keys.Files.exists kaguya.Auth.Keys.Files.join_path
    kaguya.Auth.Keys.Files.generate_pem kaguya.Auth.Keys.Files.write
    kaguya.Auth.Keys.Files.from_pkcs8_pem
mint_tests = (refl, refl, refl, refl)
