-- ===== src/Auth/Passwords.antt =====
-- application/handlers/forgot-password.handler.ts, reset-password.handler.ts and
-- change-password.handler.ts
pub mod Hashing
pub mod Reset
pub mod Change
pub mod Forgot
use Prim.Native.String
use nest_rest_backend_templa.Prelude.{
  ℕ, ◌+◌, ◌*◌, String, Option, none, some, Bool, true, false, not, ltb, List, [], ◌∷◌,
  if◌then◌else◌,
}
use nest_rest_backend_templa.Exec.{Exec, pure, gets, ◌>>=◌, ◌>>◌}
use nest_rest_backend_templa.Auth.Platform.{Platform}
use nest_rest_backend_templa.Auth.Entities.{
  AuthUser, PasswordResetToken, create_reset_token, is_valid, ResetPasswordCommand,
  ChangePasswordCommand, ForgotPasswordResponse, ResetPasswordResponse, ChangePasswordResponse,
  ResetPasswordFailureReason, ChangePasswordFailureReason, token_invalid_or_expired,
  password_not_configured, current_password_invalid,
}
use nest_rest_backend_templa.Auth.Store.{
  AuthStore, text, number, user_by_email_without_password, user_by_id, update_user, nothing,
  create_reset, reset_by_token, mark_used, revoke_all_for_user,
}
use nest_rest_backend_templa.Auth.PasswordService.{verify_password, hash_password, length}
use nest_rest_backend_templa.Auth.TokenIssuer.{present}
use nest_rest_backend_templa.Auth.MailProducer.{MailOutside, QueueMailPayload, queue_mail}

abbrev pub reset_ttl_ms : ℕ
reset_ttl_ms = 60 * 60 * 1000

abbrev pub min_password_length : ℕ
min_password_length = 12

-- What a request for a reset reads from outside: the random token, the clock, the new row's id and
-- `createdAt`, and the mail's.
pub record ForgotOutside : Type 0 where
  pub token : String
  pub requested_at : ℕ
  pub reset_id : String
  pub created_at : ℕ
  pub mail : MailOutside

infixr 66 ◌⁀◌
abbrev ◌⁀◌ : String → String → String
s ⁀ t = String.◌++◌ s t

module _ (p : Platform) (o : ForgotOutside) (email : String) where
  abbrev pub reset_mail : QueueMailPayload
  reset_mail = record {
    to = email;
    subject = "Сброс пароля";
    template = "reset-password";
    context =
        ("resetUrl", text (p.host_origin ⁀ "/reset-password?token=" ⁀ o.token))
        ∷ ("expiryMinutes", number 60)
        ∷ [];
  }

  abbrev pub reset_row : AuthUser → PasswordResetToken
  reset_row user =
      create_reset_token o.reset_id o.created_at user.id o.token (o.requested_at + reset_ttl_ms)

  unfoldable pub send_reset : Option AuthUser → Exec AuthStore ForgotPasswordResponse
  send_reset none = pure (record { success = true; user_id = "" })
  send_reset (some user) =
      if user.blocked then pure (record { success = true; user_id = "" }) else (do
        create_reset (reset_row user)
        queue_mail o.mail reset_mail
        pure (record { success = true; user_id = user.id }))

  -- ForgotPasswordHandler.execute
  unfoldable pub forgot_password : Exec AuthStore ForgotPasswordResponse
  unfolding send_reset
  forgot_password = do user ← gets (user_by_email_without_password email); send_reset user

abbrev pub reset_refused : ResetPasswordFailureReason → ResetPasswordResponse
reset_refused reason = record { success = false; user_id = ""; failure_reason = some reason }

module _ (p : Platform) (salt : String) (checked_at : ℕ) (command : ResetPasswordCommand) where
  unfoldable pub use_reset : PasswordResetToken → Exec AuthStore ResetPasswordResponse
  use_reset token = do
    update_user token.user_id
        (record nothing { password = some (some (hash_password p salt command.new_password)) })
    mark_used token.id
    revoke_all_for_user token.user_id
    pure (record { success = true; user_id = token.user_id; failure_reason = none })

  unfoldable pub check_reset : Option PasswordResetToken → Exec AuthStore ResetPasswordResponse
  check_reset none = pure (reset_refused token_invalid_or_expired)
  check_reset (some token) =
      if not (is_valid checked_at token)
      then pure (reset_refused token_invalid_or_expired)
      else use_reset token

  -- ResetPasswordHandler.execute
  unfoldable pub reset_password : Exec AuthStore ResetPasswordResponse
  reset_password =
      if ltb (length command.new_password) min_password_length
      then pure (reset_refused ResetPasswordFailureReason.weak_password)
      else (do token ← gets (reset_by_token command.token); check_reset token)

abbrev pub change_refused : ChangePasswordFailureReason → ChangePasswordResponse
change_refused reason = record { success = false; failure_reason = some reason }

module _ (p : Platform) (salt : String) (command : ChangePasswordCommand) where
  unfoldable pub set_new_password : Exec AuthStore ChangePasswordResponse
  set_new_password = do
    update_user command.user_id
        (record nothing { password = some (some (hash_password p salt command.new_password)) })
    revoke_all_for_user command.user_id
    pure (record { success = true; failure_reason = none })

  unfoldable pub check_current : Option String → Exec AuthStore ChangePasswordResponse
  check_current none = pure (change_refused password_not_configured)
  check_current (some stored) =
      if verify_password p stored command.current_password
      then set_new_password
      else pure (change_refused current_password_invalid)

  unfoldable pub check_account : Option AuthUser → Exec AuthStore ChangePasswordResponse
  check_account none = pure (change_refused ChangePasswordFailureReason.user_not_found)
  check_account (some user) = check_current (present user.password)

  -- ChangePasswordHandler.execute
  unfoldable pub change_password : Exec AuthStore ChangePasswordResponse
  change_password =
      if ltb (length command.new_password) min_password_length
      then pure (change_refused ChangePasswordFailureReason.weak_password)
      else (do user ← gets (user_by_id command.user_id); check_account user)
