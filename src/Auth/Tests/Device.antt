-- ===== src/Auth/Tests/Device.antt =====
-- The tests of auth/src/oidc_device.rs, on the model.
use kaguya.Base.{String, Bool, true, false, ◌&&◌, ◌==◌, none, some, ◌≡◌, refl}
use kaguya.Auth.Device.{Poll, pending, token, denied, classify}

-- `matches!` against each variant
abbrev is_token : String → Poll → Bool
is_token expected (token t) = t == expected
is_token expected _ = false

abbrev is_pending : Poll → Bool
is_pending pending = true
is_pending _ = false

abbrev is_denied : Poll → Bool
is_denied (denied _) = true
is_denied _ = false

abbrev is_denied_with : String → Poll → Bool
is_denied_with expected (denied e) = e == expected
is_denied_with expected _ = false

abbrev id_token_is_preferred_and_is_success : Bool
id_token_is_preferred_and_is_success = is_token "idt" (classify (some "idt") (some "acc") none)

abbrev access_token_is_used_when_no_id_token : Bool
access_token_is_used_when_no_id_token = is_token "acc" (classify none (some "acc") none)

abbrev authorization_pending_keeps_polling : Bool
authorization_pending_keeps_polling =
    is_pending (classify none none (some "authorization_pending"))
    && is_pending (classify none none (some "slow_down"))

abbrev other_errors_are_terminal : Bool
other_errors_are_terminal =
    is_denied_with "expired_token" (classify none none (some "expired_token"))
    && is_denied (classify none none (some "access_denied"))

abbrev empty_tokens_are_not_success : Bool
empty_tokens_are_not_success = is_pending (classify (some "") (some "") none)

device_tests :
    (id_token_is_preferred_and_is_success ≡ true)
    × (access_token_is_used_when_no_id_token ≡ true)
    × (authorization_pending_keeps_polling ≡ true)
    × (other_errors_are_terminal ≡ true)
    × (empty_tokens_are_not_success ≡ true)
unfolding classify
device_tests = (refl, refl, refl, refl, refl)
