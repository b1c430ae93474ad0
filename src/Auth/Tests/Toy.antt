-- ===== src/Auth/Tests/Toy.antt =====
-- Concrete crates for kaguya-auth: a world that is a clock, which ticks with each form posted, one key of each kind, an identity
-- provider that knows one login, pending until 15, and issues the token `id`, and one token of the service's own,
-- `own`.
use kaguya.Base.{
  ℕ, ◌+◌, ◌<◌, String, Bool, true, false, ◌&&◌, ◌==◌, none, some, [], ◌∷◌, ok, err, ltb, contains,
  Bool-cases, inl, inr, if◌then◌else◌, ◌≡◌, arith, eq_iff, refl, Result, is_empty,
}
use kaguya.Auth.Claims.{IdentityClaims, MintedClaims, read_back}
use kaguya.Auth.Crates.{Crates, Validation}
use kaguya.Auth.Service.{Auth}
use kaguya.Auth.Server.{Server}
use kaguya.Auth.Store.{Tables, no_rows}
use kaguya.Auth.Sessions.{new}
use kaguya.Auth.Service.OwnTokens.{JwtLaws, IsWired}

-- what the provider says of the login
abbrev pub login_claims : IdentityClaims
login_claims = record {
  sub = "github:7";
  exp = 90;
  preferred_username = none;
  name = some "Ada";
  email = some "ada";
  email_verified = some true;
}

-- the claims of the token `own`, as far as the service reads them
abbrev pub own_claims : IdentityClaims
own_claims = record {
  sub = "ada";
  exp = 90;
  preferred_username = some "ada";
  name = some "Ada";
  email = none;
  email_verified = none;
}

abbrev pub is_own : MintedClaims → Bool
is_own m =
    m.iss == "auth"
    && (m.sub == "ada"
        && (m.name == "Ada" && (m.preferred_username == "ada" && (ltb 89 m.exp && ltb m.exp 91))))

unfoldable pub decode_toy : String → Validation → ℕ → Result String IdentityClaims
decode_toy token v now =
    if token == "own" && (contains v.issuers "auth" && ltb now 90)
    then ok own_claims
    else if token == "id" && (contains v.issuers "idp" && ltb now 90)
    then ok login_claims
    else err "InvalidToken"

unfoldable pub encode_toy : MintedClaims → Result String String
encode_toy m = if is_own m then ok "own" else err "unknown claims"

-- the text of 24149 = 0x5e55
abbrev pub drawn_id : String
drawn_id = "00000000000000000000000000005e55"

abbrev pub toy : Crates
toy = record {
  World = ℕ;
  instant = λ w. (w, w);
  unix_seconds = λ w. (w, w);
  to_lowercase = λ s. s;
  random_u128 = λ w. (24149, w);
  JwkSet = String;
  Jwk = Unit;
  DecodingKey = Unit;
  EncodingKey = Unit;
  find = λ keys kid. if keys == kid then some tt else none;
  from_jwk = λ _. ok tt;
  jwk_from_value = λ _. ok tt;
  decode_header = λ token. if token == "junk" then err "InvalidToken" else ok (some "k1");
  decode = λ token _ v w. (decode_toy token v w, w);
  encode = λ _ m _. encode_toy m;
  Reply = Unit;
  Json = Unit;
  get = λ url w. (ok tt, w);
  post_form = λ url pairs w. (ok tt, w + 1);
  error_for_status = λ r. ok r;
  text = λ r w. (ok (if ltb w 15 then "wait" else "id"), w);
  json_discovery = λ r w. (
    ok (record { device_authorization_endpoint = "idp/device"; token_endpoint = "idp/token" }),
    w,
  );
  json_discovery_doc = λ r w. (ok (record { jwks_uri = "idp/keys" }), w);
  json_device_code = λ r w. (
    ok (record {
      device_code = "dev";
      verification_uri_complete = some "idp/verify?code";
      verification_uri = none;
      expires_in = 300;
    }),
    w,
  );
  json_value = λ r w. (ok tt, w);
  parse_token = λ body. ok (
      if body == "wait"
      then record { id_token = none; access_token = none; error = some "authorization_pending" }
      else record { id_token = some body; access_token = none; error = none });
  parse_jwks = λ _. ok "k1";
  PrivateKey = Unit;
  generate = λ bits w. (ok tt, w);
  to_pkcs8_pem = λ _. ok "pem";
  from_pkcs8 = λ pem. if pem == "pem" then ok tt else err "not a key";
  modulus = λ _. "modulus";
  exponent = λ _. "AQAB";
  sha256 = λ _. "own-key";
  from_rsa_pem = λ _. ok tt;
  jwks_text = λ keys. "keys";
  open_store = λ path w. (ok (record { tables = no_rows; outcomes = [] }), w);
}

abbrev pub SamePair : Unit {0} → Unit {0} → Type 0
SamePair _ _ = Unit {0}

encoded_own :
    (m : MintedClaims) (token : String)
    → encode_toy m ≡ ok token
    → (is_own m ≡ true) × ("own" ≡ token)
unfolding encode_toy
encoded_own m token e = elim (Bool-cases (is_own m)) [
  | inl own ↦
      let e' : ◌≡◌ {A = Result String String} (ok "own") (ok token) = rw own at e in (own, cc)
  | inr other ↦ absurd (ground arith)
]

decode_encode_toy :
    (m : MintedClaims) (token : String) (v : Validation) (now : ℕ)
    → encode_toy m ≡ ok token
    → contains v.issuers m.iss ≡ true
    → now < m.exp
    → decode_toy token v now ≡ ok (read_back m)
unfolding decode_toy read_back
decode_encode_toy m token v now e i lt =
    let (own, same) = encoded_own m token e in
    rw (← same) (
      ground (
        arith,
        eq_iff m.iss "auth",
        eq_iff m.sub "ada",
        eq_iff m.name "Ada",
        eq_iff m.preferred_username "ada",
      ))

ne_empty_toy :
    (m : MintedClaims) (token : String) → encode_toy m ≡ ok token → is_empty token ≡ false
ne_empty_toy m token e = let (_, same) = encoded_own m token e in rw (← same) refl

pub toy_laws : JwtLaws toy SamePair
toy_laws = record {
  decode-encode =
      λ h m ek dk token v w pair e alg iss aud lt. decode_encode_toy m token v w e iss lt;
  encode-ne-empty = λ h m ek token e. ne_empty_toy m token e;
}

abbrev pub auth : Auth toy
auth = record {
  signer = record {
    encoding_key = tt;
    kid = "own-key";
    own_jwk = record {
      kty = "RSA";
      key_use = "sig";
      alg = "RS256";
      kid = "own-key";
      n = "modulus";
      e = "AQAB";
    };
  };
  oidc = record { issuer = "idp"; audiences = "kaguya" ∷ [] };
  identity = record {
    self_verifier = record { key = tt; issuer = "auth"; audience = "kaguya" };
    oidc = record { issuer = "idp"; audiences = "kaguya" ∷ [] };
  };
  oidc_device = record { issuer = "idp"; client_id = "kaguya" };
  auth_issuer = "auth";
  audience = "kaguya";
}

pub auth-IsWired : IsWired toy SamePair auth
auth-IsWired = record { keys = tt; issuer = refl; audience = refl }

-- a service that has just been started on the tables
abbrev pub started : Tables → Server toy
started t = record {
  store = record { tables = t; outcomes = [] };
  sessions = new;
  cached = none;
  world = 20;
}
