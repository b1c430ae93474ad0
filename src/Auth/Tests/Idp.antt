-- ===== src/Auth/Tests/Idp.antt =====
-- The tests of `verify_with_jwks` in auth/src/verify.rs, on the model, with a stand-in for
-- jsonwebtoken in place of its RSA keys: a signature is the name of the key, a token is its claims as
-- a text, and `decode` accepts exactly the tokens that have been signed, under their key, for an
-- issuer and an audience that are asked for, until a minute after their expiry.
use Prim.Native.String.{◌++◌ as join, slice, find as position, len}
use kaguya.Base.{
  ℕ, ◌+◌, ◌-◌, String, Bool, true, false, ◌&&◌, ◌==◌, Option, none, some, List, [], ◌∷◌, Result, ok,
  err, ◌≡◌, refl, ltb, contains, hex_text, if◌then◌else◌,
}
use kaguya.Auth.Claims.{IdentityClaims}
use kaguya.Auth.Crates.{Crates, Validation}
use kaguya.Auth.Verify.{VerifyError, malformed, unknown_kid, jwks, invalid, verify_with_jwks}
use kaguya.Auth.Tests.Toy.{toy}

abbrev iss : String
iss = "https://idp.example.com"

abbrev aud : String
aud = "lore.example.com"

abbrev kid : String
kid = "test-key"

-- the claims of a test, and a token: claims, a key's id and the key that signed them
record Claims : Type 0 where
  issuer : String
  audience : String
  sub : String
  exp : ℕ

record Signed : Type 0 where
  claims : Claims
  key_id : String
  key : String

abbrev text : Signed → String
text s = join s.key_id (
    join "." (
      join s.claims.issuer (
        join "." (
          join s.claims.audience (
            join "." (
              join s.claims.sub
                (join "." (join (hex_text 16 s.claims.exp) (join "." (join s.key "A"))))))))))

abbrev find_key : List (String × String) → String → Option String
find_key [] k = none
find_key ((k', key) ∷ keys) k = let rest = find_key keys k in if k' == k then some key else rest

abbrev read : Signed → IdentityClaims
read s = record {
  sub = s.claims.sub;
  exp = s.claims.exp;
  preferred_username = none;
  name = none;
  email = none;
  email_verified = none;
}

abbrev passes : Signed → String → String → Validation → ℕ → Bool
passes s token key v now =
    text s == token
    && (s.key == key
        && (contains v.issuers s.claims.issuer
            && (contains v.audiences s.claims.audience && ltb now (s.claims.exp + 60))))

abbrev decode_signed : List Signed → String → String → Validation → ℕ → Result String IdentityClaims
decode_signed [] token key v now = err "InvalidToken"
decode_signed (s ∷ signed) token key v now =
    let rest = decode_signed signed token key v now in
    if passes s token key v now then ok (read s) else rest

-- crates of a world in which these tokens have been signed
abbrev idp_crates : List Signed → Crates
idp_crates signed = record toy {
  JwkSet = List (String × String);
  Jwk = String;
  DecodingKey = String;
  find = find_key;
  from_jwk = λ key. ok key;
  jwk_from_value = λ own. ok own.n;
  decode_header = λ token. ok (some (slice token 0 (position token ".")));
  decode = λ token key v w. (decode_signed signed token key v w, w);
  parse_jwks = λ _. ok [];
}

record FakeIdp : Type 0 where
  encoding : String
  key_set : List (String × String)

abbrev fake_idp : String → FakeIdp
fake_idp key = record { encoding = key; key_set = (kid, key) ∷ [] }

abbrev sign : FakeIdp → Claims → Signed
sign idp claims = record { claims = claims; key_id = kid; key = idp.encoding }

abbrev valid_claims : ℕ → Claims
valid_claims now = record { issuer = iss; audience = aud; sub = "abc-123"; exp = now + 3600 }

-- the call of the tests, in a world in which these tokens have been signed
abbrev judged : List Signed → String → FakeIdp → ℕ → Result VerifyError IdentityClaims
judged signed token idp now =
    (verify_with_jwks (idp_crates signed) token idp.key_set iss (aud ∷ []) now).0

abbrev is_invalid : Result VerifyError IdentityClaims → Bool
is_invalid (err (invalid _)) = true
is_invalid _ = false

abbrev is_unknown_kid : Result VerifyError IdentityClaims → Bool
is_unknown_kid (err (unknown_kid _)) = true
is_unknown_kid _ = false

abbrev is_of : String → Result VerifyError IdentityClaims → Bool
is_of sub (ok claims) = claims.sub == sub
is_of sub (err _) = false

-- a token that is the one signed in its test
abbrev judged_own : FakeIdp → Signed → ℕ → Result VerifyError IdentityClaims
judged_own idp s now = judged (s ∷ []) (text s) idp now

abbrev valid_oidc_token_is_accepted : ℕ → Bool
valid_oidc_token_is_accepted now =
    let idp = fake_idp "one" in is_of "abc-123" (judged_own idp (sign idp (valid_claims now)) now)

-- the last character of the signature is another one
abbrev tampered : String → String
tampered token =
    let cut = len token - 1 in
    join (slice token 0 cut) (if slice token cut (len token) == "A" then "B" else "A")

abbrev tampered_signature_is_rejected : ℕ → Bool
tampered_signature_is_rejected now =
    let idp = fake_idp "one" in
    let token = sign idp (valid_claims now) in
    is_invalid (judged (token ∷ []) (tampered (text token)) idp now)

abbrev wrong_audience_is_rejected : ℕ → Bool
wrong_audience_is_rejected now =
    let idp = fake_idp "one" in
    let token = sign idp (record { issuer = iss; audience = "other"; sub = "s"; exp = now + 60 }) in
    is_invalid (judged_own idp token now)

abbrev wrong_issuer_is_rejected : ℕ → Bool
wrong_issuer_is_rejected now =
    let idp = fake_idp "one" in
    let token =
      sign idp (record {
        issuer = "https://evil.example.com";
        audience = aud;
        sub = "s";
        exp = now + 60;
      }) in
    is_invalid (judged_own idp token now)

abbrev expired_token_is_rejected : ℕ → Bool
expired_token_is_rejected now =
    let idp = fake_idp "one" in
    let token = sign idp (record { issuer = iss; audience = aud; sub = "s"; exp = now - 3600 }) in
    is_invalid (judged_own idp token now)

abbrev unknown_kid_is_reported : ℕ → Bool
unknown_kid_is_reported now =
    let idp = fake_idp "one" in
    let token = sign (fake_idp "two") (valid_claims now) in
    let unlisted : Signed = record {
      claims = valid_claims now;
      key_id = "nonexistent";
      key = idp.encoding;
    } in
    is_invalid (judged_own idp token now) && is_unknown_kid (judged_own idp unlisted now)

verify_tests :
    (valid_oidc_token_is_accepted 9000 ≡ true)
    × (tampered_signature_is_rejected 9000 ≡ true)
    × (wrong_audience_is_rejected 9000 ≡ true)
    × (wrong_issuer_is_rejected 9000 ≡ true)
    × (expired_token_is_rejected 9000 ≡ true)
    × (unknown_kid_is_reported 9000 ≡ true)
unfolding verify_with_jwks contains hex_text kaguya.Auth.Verify.header_kid
verify_tests = (refl, refl, refl, refl, refl, refl)
