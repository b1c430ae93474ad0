-- ===== src/Auth/Device/Answers.antt =====
-- What an answer of the token endpoint is taken for, in auth/src/oidc_device.rs.
use kaguya.Base.{String, ◌≡◌, ◌≢◌, ◌⊎◌, false, Option, none, some, arith, is_empty, eq_iff}
use kaguya.Auth.Device.{pending, token, denied, non_empty, classify}

-- neither token is there, or both are empty
abbrev pub NoToken : Option String → Option String → Type 0
NoToken id_token access_token = (non_empty id_token ≡ none) × (non_empty access_token ≡ none)

-- Whatever the endpoint answers: a token that is taken is not empty, and is the id token or, only
-- if there is none, the access token; a login is denied only with no token and for the reason
-- given, which is neither that the authorization is pending nor to slow down; and polling goes on
-- only with no token and with no error or one of these two.
classify_answers :
    (id_token access_token error : Option String)
    → ((t : String)
        → classify id_token access_token error ≡ token t
        → (is_empty t ≡ false)
          × ((id_token ≡ some t) ⊎ ((non_empty id_token ≡ none) × (access_token ≡ some t))))
      × ((why : String)
          → classify id_token access_token error ≡ denied why
          → NoToken id_token access_token
            × (error ≡ some why)
            × (why ≢ "authorization_pending")
            × (why ≢ "slow_down"))
      × (classify id_token access_token error ≡ pending
          → NoToken id_token access_token
            × ((error ≡ none)
                ⊎ (error ≡ some "authorization_pending")
                ⊎ (error ≡ some "slow_down")))
unfolding classify
classify_answers id_token access_token none =
    (λ t e. ground arith, λ why e. ground arith, λ e. ground arith)
classify_answers id_token access_token (some x) = (
  λ t e. ground arith,
  λ why e. ground (arith, eq_iff x "authorization_pending", eq_iff x "slow_down"),
  λ e. ground (arith, eq_iff x "authorization_pending", eq_iff x "slow_down"),
)
