-- ===== src/Auth/Claims/Accounts.antt =====
-- Which account a login of auth/src/verify.rs belongs to.
use kaguya.Base.{String, ◌≡◌, ◌≢◌, true, false, Option, some, arith, is_empty}
use kaguya.Auth.Claims.{IdentityClaims, canonical_subject}

-- A login's e-mail address counts only if the provider says that it is verified, and it is not
-- empty: without that the account is the connector's subject, whatever the address is.
pub canonical_subject_unverified :
    (to_lowercase : String → String) (claims : IdentityClaims) (email : Option String)
    → claims.email_verified ≢ some true
    → (canonical_subject to_lowercase claims ≡ claims.sub)
      × (canonical_subject to_lowercase (record claims { email = email }) ≡ claims.sub)
unfolding canonical_subject
canonical_subject_unverified to_lowercase claims email h = (ground arith, ground arith)

-- Two logins with verified addresses that differ at most in case are one account, whatever
-- connectors they came by.
pub canonical_subject_same :
    (to_lowercase : String → String) (one two : IdentityClaims) (e f : String)
    → one.email ≡ some e
    → two.email ≡ some f
    → one.email_verified ≡ some true
    → two.email_verified ≡ some true
    → is_empty e ≡ false
    → is_empty f ≡ false
    → to_lowercase e ≡ to_lowercase f
    → canonical_subject to_lowercase one ≡ canonical_subject to_lowercase two
unfolding canonical_subject
canonical_subject_same to_lowercase one two e f p q v w ne nf same = ground arith

-- The two kinds of account are not kept apart: a login without a verified address, whose connector
-- gives it the subject that is somebody's verified address in lower case, is that account.
pub canonical_subject_collides :
    (to_lowercase : String → String) (one two : IdentityClaims) (e : String)
    → one.email ≡ some e
    → one.email_verified ≡ some true
    → is_empty e ≡ false
    → two.email_verified ≢ some true
    → two.sub ≡ to_lowercase e
    → canonical_subject to_lowercase two ≡ canonical_subject to_lowercase one
unfolding canonical_subject
canonical_subject_collides to_lowercase one two e p v ne unverified same = ground arith
