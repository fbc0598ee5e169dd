-- ===== src/Auth/Entities.antt =====
-- The domain entities and commands of apps/auth-service/src/modules/auth, and the responses and
-- failure reasons of libs/contracts/auth. An instant (`Date`) is its number of milliseconds.
use nest_rest_backend_templa.Prelude.{ℕ, String, Option, Bool, false, not, ◌&&◌, leb}
use nest_rest_backend_templa.Auth.Platform.{RoleType}

-- domain/entities/auth-user.entity.ts
pub record AuthUser : Type 0 where
  pub id : String
  pub email : String
  pub password : Option String
  pub role_id : String
  pub role_type : RoleType
  pub verified : Bool
  pub blocked : Bool
  pub failed_login_attempts : ℕ
  pub failed_login_window_started_at : Option ℕ
  pub locked_until : Option ℕ
  pub token_version : ℕ
  pub language : String

-- domain/entities/refresh-token.entity.ts
pub record RefreshTokenRecord : Type 0 where
  pub id : String
  pub user_id : String
  pub refresh_token : String
  pub expires_at : ℕ
  pub is_revoked : Bool

-- domain/entities/password-reset-token.entity.ts
pub record PasswordResetToken : Type 0 where
  pub id : String
  pub user_id : String
  pub token : String
  pub expires_at : ℕ
  pub is_used : Bool
  pub created_at : ℕ

-- PasswordResetToken.create; the database fills in `id` and `createdAt`, given here.
abbrev pub create_reset_token :
    (id : String) (created_at : ℕ) (user_id token : String) (expires_at : ℕ) → PasswordResetToken
create_reset_token id created_at user_id token expires_at = record {
  id = id;
  user_id = user_id;
  token = token;
  expires_at = expires_at;
  is_used = false;
  created_at = created_at;
}

-- isExpired, at the instant that it reads
abbrev pub is_expired : ℕ → PasswordResetToken → Bool
is_expired now t = leb t.expires_at now

-- isValid
abbrev pub is_valid : ℕ → PasswordResetToken → Bool
is_valid now t = not t.is_used && not (is_expired now t)

pub record LoginCommand : Type 0 where
  pub email : String
  pub password : String
  pub request_ip : String
  pub user_agent : String

pub record RefreshTokensCommand : Type 0 where
  pub refresh_token : String
  pub request_ip : String
  pub user_agent : String

pub record ResetPasswordCommand : Type 0 where
  pub token : String
  pub new_password : String

pub record ChangePasswordCommand : Type 0 where
  pub user_id : String
  pub current_password : String
  pub new_password : String

-- libs/contracts/auth/failure-reasons.ts. A response holds a reason or the empty string, which is
-- `none` here.
pub data LoginFailureReason : Type 0 where
  user_not_found not_verified blocked account_locked invalid_credentials : LoginFailureReason

pub data RefreshTokensFailureReason : Type 0 where
  invalid_jwt_payload token_not_found token_revoked token_expired : RefreshTokensFailureReason
  user_not_found not_verified blocked : RefreshTokensFailureReason

pub data ResetPasswordFailureReason : Type 0 where
  weak_password token_invalid_or_expired : ResetPasswordFailureReason

pub data ChangePasswordFailureReason : Type 0 where
  weak_password user_not_found : ChangePasswordFailureReason
  password_not_configured current_password_invalid : ChangePasswordFailureReason

-- libs/contracts/auth/auth.interface.ts
pub record LoginResponse : Type 0 where
  pub success : Bool
  pub access_token : String
  pub refresh_token : String
  pub csrf_token : String
  pub user_id : String
  pub email : String
  pub failure_reason : Option LoginFailureReason
  pub locked_until : String
  pub requires_captcha : Bool

pub record RefreshTokensResponse : Type 0 where
  pub success : Bool
  pub access_token : String
  pub refresh_token : String
  pub csrf_token : String
  pub failure_reason : Option RefreshTokensFailureReason

pub record LogoutResponse : Type 0 where
  pub success : Bool

pub record ForgotPasswordResponse : Type 0 where
  pub success : Bool
  pub user_id : String

pub record ResetPasswordResponse : Type 0 where
  pub success : Bool
  pub user_id : String
  pub failure_reason : Option ResetPasswordFailureReason

pub record ChangePasswordResponse : Type 0 where
  pub success : Bool
  pub failure_reason : Option ChangePasswordFailureReason
