-- ===== src/Auth/RefreshTokens.antt =====
-- application/handlers/refresh-tokens.handler.ts and logout.handler.ts
pub mod Outcome
pub mod Sessions
use nest_rest_backend_templa.Prelude.{
  ℕ, String, Option, none, some, Bool, true, false, not, ltb, if◌then◌else◌,
}
use nest_rest_backend_templa.Exec.{Exec, pure, lift, gets, ◌>>=◌, ◌>>◌}
use nest_rest_backend_templa.Auth.Platform.{Platform, ValidateJwt}
use nest_rest_backend_templa.Auth.Entities.{
  AuthUser, RefreshTokenRecord, RefreshTokensCommand, RefreshTokensResponse,
  RefreshTokensFailureReason, invalid_jwt_payload, token_not_found, token_revoked, token_expired,
  LogoutResponse,
}
use nest_rest_backend_templa.Auth.Store.{
  AuthStore, user_by_id, refresh_by_token, revoke_by_id, revoke_by_token, revoke_all_for_user,
  create_refresh,
}
use nest_rest_backend_templa.Auth.TokenIssuer.{
  validate_refresh_token, generate_access_token, generate_refresh_token, RefreshToken,
}
use nest_rest_backend_templa.Auth.Login.{jwt_of, or_unknown}

-- What one run reads from outside.
pub record RefreshOutside : Type 0 where
  pub verified_at : ℕ
  pub checked_at : ℕ
  pub signed_at : ℕ
  pub stored_at : ℕ
  pub jwtid : String
  pub refresh_id : String
  pub csrf_token : String

-- `{ ...NO_TOKENS, success: false, failureReason }`
abbrev pub refused : RefreshTokensFailureReason → RefreshTokensResponse
refused reason = record {
  success = false;
  access_token = "";
  refresh_token = "";
  csrf_token = "";
  failure_reason = some reason;
}

module _ (p : Platform) (o : RefreshOutside) (command : RefreshTokensCommand) where
  abbrev pub rotated : String → RefreshToken → RefreshTokensResponse
  rotated access refresh = record {
    success = true;
    access_token = access;
    refresh_token = refresh.token;
    csrf_token = o.csrf_token;
    failure_reason = none;
  }

  -- From `revokeById` to the end.
  unfoldable pub rotate : RefreshTokenRecord → AuthUser → Exec AuthStore RefreshTokensResponse
  rotate token user = do
    revoke_by_id token.id
    access ← lift (generate_access_token p o.signed_at (jwt_of user))
    refresh ← lift (generate_refresh_token p o.signed_at o.jwtid o.stored_at (jwt_of user))
    create_refresh o.refresh_id user.id refresh.token refresh.expires_at
        (or_unknown command.request_ip) (or_unknown command.user_agent)
    pure (rotated access refresh)

  unfoldable pub check_owner :
      RefreshTokenRecord → Option AuthUser → Exec AuthStore RefreshTokensResponse
  check_owner token none = pure (refused RefreshTokensFailureReason.user_not_found)
  check_owner token (some user) =
      if not user.verified
      then pure (refused RefreshTokensFailureReason.not_verified)
      else if user.blocked
      then pure (refused RefreshTokensFailureReason.blocked)
      else rotate token user

  unfoldable pub check_token :
      ValidateJwt → Option RefreshTokenRecord → Exec AuthStore RefreshTokensResponse
  check_token credentials none = pure (refused token_not_found)
  check_token credentials (some token) =
      if token.is_revoked
      then (do revoke_all_for_user credentials.user_id; pure (refused token_revoked))
      else if ltb token.expires_at o.checked_at
      then pure (refused token_expired)
      else (do user ← gets (user_by_id credentials.user_id); check_owner token user)

  unfoldable pub check_credentials : Option ValidateJwt → Exec AuthStore RefreshTokensResponse
  check_credentials none = pure (refused invalid_jwt_payload)
  check_credentials (some credentials) = do
    token ← gets (refresh_by_token command.refresh_token)
    check_token credentials token

  -- execute
  unfoldable pub refresh_tokens : Exec AuthStore RefreshTokensResponse
  refresh_tokens = check_credentials (validate_refresh_token p o.verified_at command.refresh_token)

module _ (p : Platform) (verified_at : ℕ) (refresh_token : String) where
  log_out : Option ValidateJwt → Exec AuthStore LogoutResponse
  log_out none = pure (record { success = false })
  log_out (some credentials) = do
    success ← revoke_by_token refresh_token
    pure (record { success = success })

  -- LogoutHandler.execute
  unfoldable pub logout : Exec AuthStore LogoutResponse
  unfolding log_out
  logout = log_out (validate_refresh_token p verified_at refresh_token)
