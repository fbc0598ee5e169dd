-- ===== src/Users/Gateway.antt =====
-- The handlers of application/handlers that hand a call to the auth-service and translate what it
-- answers (user-login, refresh-tokens, user-logout, forgot-password, reset-password,
-- change-password), over the model of the auth-service. gRPC passes a request on as it is.
pub mod Answers
use nest_rest_backend_templa.Prelude.{
  ℕ, String, Option, none, some, Bool, true, false, not, ◌&&◌, List, [], ◌∷◌, ◌++◌, ◌==◌, string_eq,
  if◌then◌else◌, present,
}
use nest_rest_backend_templa.Exec.{
  Exec, Result, ok, throw, Thrown, http, locked, captcha, error, bad_request, unauthorized,
  forbidden,
}
use nest_rest_backend_templa.Users.AuthEffects.{
  AuthMode, AuthSettings, AuthEvent, CookieWrite, Backend, AuthResponse, AccessTokenResponse,
  set_auth_cookies, clear_auth_cookies, in_body, with_events, cookies_only, response_only, hybrid,
  user_login_succeeded, user_login_failed, user_logged_out, password_reset_requested,
  password_reset_completed, password_changed, set_access, set_refresh, set_csrf, clear_access,
  clear_refresh, clear_csrf,
}
use nest_rest_backend_templa.Auth.Platform.{Platform}
use nest_rest_backend_templa.Auth.Entities.{
  LoginCommand, LoginResponse, LoginFailureReason, RefreshTokensCommand, RefreshTokensResponse,
  RefreshTokensFailureReason, ResetPasswordCommand, ResetPasswordResponse,
  ResetPasswordFailureReason, ChangePasswordCommand, ChangePasswordResponse,
  ChangePasswordFailureReason, LogoutResponse, ForgotPasswordResponse,
}
use nest_rest_backend_templa.Auth.Store.{AuthStore}
use nest_rest_backend_templa.Auth.Login
use nest_rest_backend_templa.Auth.Login.{LoginOutside}
use nest_rest_backend_templa.Auth.RefreshTokens
use nest_rest_backend_templa.Auth.RefreshTokens.{RefreshOutside}
use nest_rest_backend_templa.Auth.Passwords
use nest_rest_backend_templa.Auth.Passwords.{ForgotOutside}

-- The `switch` of a login that failed; the response holds '' where it has no reason.
abbrev pub login_error : (locked_until : String) → Bool → Option LoginFailureReason → Thrown
login_error locked_until requires_captcha (some LoginFailureReason.not_verified) =
    http unauthorized "user.auth.verified"
login_error locked_until requires_captcha (some LoginFailureReason.blocked) =
    http unauthorized "user.auth.blocked"
login_error locked_until requires_captcha (some LoginFailureReason.account_locked) =
    locked "user.auth.accountLocked" locked_until
login_error locked_until requires_captcha (some LoginFailureReason.invalid_credentials) =
    captcha "user.auth.invalidCredentials" requires_captcha
login_error locked_until requires_captcha (some LoginFailureReason.user_not_found) =
    http unauthorized "user.auth.invalidCredentials"
login_error locked_until requires_captcha none = http unauthorized "user.auth.invalidCredentials"

-- A call of the gateway: what the auth-service throws comes out.
abbrev pub gateway : {A : Type 0} → Exec AuthStore A → Exec Backend A
gateway m s = let (r, auth) = m s.auth in (r, record s { auth = auth })

abbrev pub continue_with : {A B : Type 0} → (A → Exec Backend B) → Result A → Exec Backend B
continue_with f (ok a) s = f a s
continue_with f (throw t) s = (throw t, s)

abbrev pub then_answer : {A B : Type 0} → Exec Backend A → (A → Exec Backend B) → Exec Backend B
then_answer m f s = let (r, t) = m s in continue_with f r t

module _ {D : Type 0} (settings : AuthSettings) (find_user : String → Option D) where
  -- UserMapper.toDto(user!), which fails on null
  abbrev pub login_body : LoginResponse → Option D → Result (AuthResponse D)
  login_body result none = throw (error "Cannot read properties of null (reading 'id')")
  login_body result (some user) = ok (record {
    access_token = in_body settings.mode result.access_token;
    refresh_token = in_body settings.mode result.refresh_token;
    csrf_token = if settings.csrf_enabled then in_body settings.mode result.csrf_token else none;
    user = user;
  })

  -- LoginUserHandler.execute, after the gateway
  unfoldable pub answer_login : (email : String) → LoginResponse → Exec Backend (AuthResponse D)
  answer_login email result s =
      if result.success
      then (
        login_body result (find_user result.user_id),
        with_events (user_login_succeeded result.user_id result.email ∷ [])
            (set_auth_cookies settings result.access_token result.refresh_token result.csrf_token)
            s,
      )
      else (
        throw (login_error result.locked_until result.requires_captcha result.failure_reason),
        with_events (user_login_failed email ∷ []) [] s,
      )

  -- LoginUserHandler.execute
  unfoldable pub execute_login :
      Platform → LoginOutside → LoginCommand → Exec Backend (AuthResponse D)
  execute_login p o command =
      then_answer (gateway (Login.login p o command)) (answer_login command.email)

-- The `switch` of a refresh that failed.
abbrev pub refresh_error : Option RefreshTokensFailureReason → Thrown
refresh_error (some RefreshTokensFailureReason.token_revoked) =
    http forbidden "user.auth.tokenRevoked"
refresh_error (some RefreshTokensFailureReason.token_not_found) =
    http unauthorized "user.auth.tokenNotFound"
refresh_error (some RefreshTokensFailureReason.token_expired) =
    http unauthorized "user.auth.tokenExpired"
refresh_error (some RefreshTokensFailureReason.user_not_found) = http unauthorized "user.notFound"
refresh_error (some RefreshTokensFailureReason.not_verified) =
    http unauthorized "user.auth.verified"
refresh_error (some RefreshTokensFailureReason.blocked) = http unauthorized "user.auth.blocked"
refresh_error (some RefreshTokensFailureReason.invalid_jwt_payload) =
    http unauthorized "user.auth.invalidJwtPayload"
refresh_error none = http unauthorized "user.auth.invalidJwtPayload"

module _ (settings : AuthSettings) where
  -- RefreshTokensHandler.execute, after the gateway
  unfoldable pub answer_refresh : RefreshTokensResponse → Exec Backend AccessTokenResponse
  answer_refresh result s =
      if result.success
      then (
        ok (record {
          access_token = in_body settings.mode result.access_token;
          refresh_token = in_body settings.mode result.refresh_token;
          csrf_token = result.csrf_token;
        }),
        with_events []
            (set_auth_cookies settings result.access_token result.refresh_token result.csrf_token)
            s,
      )
      else (throw (refresh_error result.failure_reason), s)

  -- RefreshTokensHandler.execute
  unfoldable pub execute_refresh :
      Platform → RefreshOutside → RefreshTokensCommand → Exec Backend AccessTokenResponse
  execute_refresh p o command =
      then_answer (gateway (RefreshTokens.refresh_tokens p o command)) answer_refresh

pub record LogoutAnswer : Type 0 where
  pub success : Bool
  pub message : String

abbrev pub answer_logout : LogoutResponse → Exec Backend LogoutAnswer
answer_logout result s = (
  ok (record {
    success = result.success;
    message = if result.success then "user.auth.logout.success" else "user.auth.logout.failed";
  }),
  with_events (user_logged_out result.success ∷ []) clear_auth_cookies s,
)

-- UserLogoutHandler.execute
unfoldable pub execute_logout :
    Platform → (verified_at : ℕ) → (refresh_token : String) → Exec Backend LogoutAnswer
execute_logout p verified_at refresh_token =
    then_answer (gateway (RefreshTokens.logout p verified_at refresh_token)) answer_logout

-- `result.userId || undefined`
abbrev pub answer_forgot : (email : String) → ForgotPasswordResponse → Exec Backend Bool
answer_forgot email result s = (
  ok result.success,
  with_events (password_reset_requested email (present (some result.user_id)) ∷ []) [] s,
)

-- ForgotPasswordHandler.execute
unfoldable pub execute_forgot_password :
    Platform → ForgotOutside → (email : String) → Exec Backend Bool
execute_forgot_password p o email =
    then_answer (gateway (Passwords.forgot_password p o email)) (answer_forgot email)

abbrev pub reset_error : Option ResetPasswordFailureReason → Thrown
reset_error (some ResetPasswordFailureReason.weak_password) =
    http bad_request "user.auth.passwordMinLength"
reset_error (some ResetPasswordFailureReason.token_invalid_or_expired) =
    http bad_request "user.auth.resetTokenInvalidOrExpired"
reset_error none = http bad_request "user.auth.resetTokenInvalidOrExpired"

abbrev pub answer_reset : ResetPasswordResponse → Exec Backend Bool
answer_reset result s =
    if result.success
    then (ok true, with_events (password_reset_completed result.user_id ∷ []) [] s)
    else (throw (reset_error result.failure_reason), s)

-- ResetPasswordHandler.execute
unfoldable pub execute_reset_password :
    Platform → (salt : String) → (checked_at : ℕ) → ResetPasswordCommand → Exec Backend Bool
execute_reset_password p salt checked_at command =
    then_answer (gateway (Passwords.reset_password p salt checked_at command)) answer_reset

abbrev pub change_error : Option ChangePasswordFailureReason → Thrown
change_error (some ChangePasswordFailureReason.weak_password) =
    http bad_request "user.auth.passwordMinLength"
change_error (some ChangePasswordFailureReason.user_not_found) = http unauthorized "user.notFound"
change_error (some ChangePasswordFailureReason.password_not_configured) =
    http unauthorized "user.auth.passwordNotConfigured"
change_error (some ChangePasswordFailureReason.current_password_invalid) =
    http unauthorized "user.auth.currentPasswordInvalid"
change_error none = http unauthorized "user.auth.currentPasswordInvalid"

abbrev pub answer_change : (user_id : String) → ChangePasswordResponse → Exec Backend Bool
answer_change user_id result s =
    if result.success
    then (ok true, with_events (password_changed user_id ∷ []) [] s)
    else (throw (change_error result.failure_reason), s)

-- ChangePasswordHandler.execute
unfoldable pub execute_change_password :
    Platform → (salt : String) → ChangePasswordCommand → Exec Backend Bool
execute_change_password p salt command =
    then_answer (gateway (Passwords.change_password p salt command)) (answer_change command.user_id)
