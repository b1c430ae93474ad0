-- ===== src/Auth/Tests/Claims.antt =====
-- The tests of `canonical_subject` in auth/src/verify.rs, on the model, for every `to_lowercase`
-- that makes the one address of the tests lower case.
use kaguya.Base.{String, Bool, true, false, ◌&&◌, ◌==◌, Option, none, some, ◌≡◌, arith, refl}
use kaguya.Auth.Claims.{IdentityClaims, canonical_subject}

abbrev claims : Option String → Option Bool → IdentityClaims
claims email verified = record {
  sub = "Cixxxxxxx";
  exp = 0;
  preferred_username = none;
  name = none;
  email = email;
  email_verified = verified;
}

module _ (to_lowercase : String → String) where
  abbrev verified_email_is_the_canonical_subject_lowercased : Bool
  verified_email_is_the_canonical_subject_lowercased =
      canonical_subject to_lowercase (claims (some "User@Example.com") (some true))
      == "user@example.com"

  abbrev unverified_or_missing_email_falls_back_to_the_connector_subject : Bool
  unverified_or_missing_email_falls_back_to_the_connector_subject =
      canonical_subject to_lowercase (claims (some "u@example.com") (some false)) == "Cixxxxxxx"
      && (canonical_subject to_lowercase (claims (some "u@example.com") none) == "Cixxxxxxx"
          && canonical_subject to_lowercase (claims none (some true)) == "Cixxxxxxx")

  canonical_subject_tests :
      to_lowercase "User@Example.com" ≡ "user@example.com"
      → (verified_email_is_the_canonical_subject_lowercased ≡ true)
        × (unverified_or_missing_email_falls_back_to_the_connector_subject ≡ true)
  unfolding canonical_subject
  canonical_subject_tests lower = (rw lower refl, ground arith)
