-- ===== src/Auth/Stubs.antt =====
-- The calls of `UrcAuthApi` (auth/src/main.rs) that read neither the request nor the state.
use kaguya.Base.{String, List, [], Prog, pure, raise}
use kaguya.Auth.Crates.{Crates}
use kaguya.Auth.Server.{Status, status, unimplemented, Server}

-- the message `UserInfo`, of which none is ever answered
pub record UserInfo : Type 0 where
  pub user_id : String
  pub display_name : String

module _ (c : Crates) where
  unfoldable pub health_check : Prog Status (Server c) String
  health_check = pure "ok"

  unfoldable pub get_user_info : Prog Status (Server c) (List UserInfo)
  get_user_info = pure []

  -- a call that is not supported
  abbrev refused : {A : Type 0} → String → Prog Status (Server c) A
  refused name = raise (status unimplemented name)

  unfoldable pub refresh_auth_session : Prog Status (Server c) Unit
  refresh_auth_session = refused "refresh_auth_session"

  unfoldable pub verify_user : Prog Status (Server c) Unit
  verify_user = refused "verify_user"

  unfoldable pub exchange_api_key_for_user_token : Prog Status (Server c) Unit
  exchange_api_key_for_user_token = refused "exchange_api_key_for_user_token"

  unfoldable pub get_user_id : Prog Status (Server c) Unit
  get_user_id = refused "get_user_id"

  unfoldable pub get_provider_user_id : Prog Status (Server c) Unit
  get_provider_user_id = refused "get_provider_user_id"
