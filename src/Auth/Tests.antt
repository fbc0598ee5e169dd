-- ===== src/Auth/Tests.antt =====
-- Data for the runs of the auth-service: a platform and a store with one account.
mod Accounts
mod Sessions
mod Passwords
use Prim.Native.String
use text.Mathlib.TextPositions.{starts_with-append}
use nest_rest_backend_templa.Prelude.{
  ℕ, ◌+◌, String, ◌≡◌, ◌≢◌, ◌↔◌, refl, Option, none, some, Bool, true, false, List, [], ◌∷◌, ◌==◌,
  string_eq, ==_refl, arith, eq_iff, length,
}
use nest_rest_backend_templa.Exec.{ok}
use nest_rest_backend_templa.Auth.Platform.{Platform, user}
use nest_rest_backend_templa.Auth.Entities.{
  AuthUser, LoginCommand, LoginResponse, RefreshTokensCommand, RefreshTokensResponse,
  ResetPasswordCommand, ChangePasswordCommand, account_locked, token_revoked, PasswordResetToken,
  token_invalid_or_expired,
}
use nest_rest_backend_templa.Auth.Store.{
  AuthStore, UserRow, UserRoleRow, RefreshRow, user_by_email, user_by_id, refresh_by_token,
  reset_by_token, user_by_email_without_password,
}
use nest_rest_backend_templa.Auth.PasswordService.{verify_password}
use nest_rest_backend_templa.Auth.Login.{LoginOutside, login, jwt_of, rejected}
use nest_rest_backend_templa.Sql.{join_first, select_first, update_where, select_where}
use nest_rest_backend_templa.Auth.Login.Outcome.{CanLogin, login_iff}
use nest_rest_backend_templa.Auth.Login.Lockout.{login_all, AllSound, login_all-AllSound}
use nest_rest_backend_templa.Auth.Login.Attempts.{
  IsWrong, Run, AllWrong, MayTry, five_failures_lock,
}
use nest_rest_backend_templa.Auth.Passwords.Hashing.{Argon2Laws}

abbrev pub plain : Platform
plain = record {
  normalize = λ s. s;
  to_iso_string = λ t. "2026-01-01T00:00:00.000Z";
  argon2_hash = λ salt w. String.◌++◌ "$argon2id$" w;
  argon2_verify = λ h w. some (h == String.◌++◌ "$argon2id$" w);
  argon2_needs_rehash = λ h. some false;
  hmac_hex = λ t. t;
  sign_access = λ at v. "access";
  sign_refresh = λ at j v. j;
  verify_refresh = λ at t.
      some (record {
        sub = some "u1";
        rid = some "r1";
        rty = some user;
        lng = some "ru";
        tv = some 1;
      });
  refresh_ttl = 604800000;
  host_origin = "https://app";
}

abbrev pub ann_row : UserRow
ann_row = record {
  id = "u1";
  deleted_at = none;
  email = "ann@x";
  verified = some true;
  password = some "$argon2id$correct horse battery";
  role_id = "r1";
  blocked = none;
  failed_login_attempts = 0;
  failed_login_window_started_at = none;
  locked_until = none;
  token_version = 1;
  language = none;
}

abbrev pub ann : AuthUser
ann = record {
  id = "u1";
  email = "ann@x";
  password = some "$argon2id$correct horse battery";
  role_id = "r1";
  role_type = user;
  verified = true;
  blocked = false;
  failed_login_attempts = 0;
  failed_login_window_started_at = none;
  locked_until = none;
  token_version = 1;
  language = "ru";
}

abbrev pub start : AuthStore
start = record {
  users = ann_row ∷ [];
  roles = record { id = "r1"; role_type = user } ∷ [];
  refresh = [];
  reset_tokens = [];
  mail_templates = record { id = "t1"; deleted_at = none; name = "reset-password" } ∷ [];
  mails = [];
  mail_queue = [];
}

abbrev pub at_time : ℕ → String → LoginOutside
at_time t token = record {
  checked_at = t;
  failed_at = t;
  salt = "s";
  signed_at = t;
  stored_at = t;
  jwtid = token;
  refresh_id = token;
  csrf_token = "csrf";
  mail = record { mail_id = "m1"; queue_error = none };
}

abbrev pub try_password : String → LoginCommand
try_password w = record { email = "ann@x"; password = w; request_ip = ""; user_agent = "curl" }

pub auth_tables : Unit {0}
unfolding user_by_email user_by_id refresh_by_token reset_by_token user_by_email_without_password
    join_first select_first update_where select_where
auth_tables = tt

pub ann_found : user_by_email "ann@x" start ≡ some ann
unfolding auth_tables
ann_found = refl

pub ann_by_id : user_by_id "u1" start ≡ some ann
unfolding auth_tables
ann_by_id = refl

pub plain_laws : Argon2Laws plain
plain_laws = record {
  hash_prefix = λ salt w. starts_with-append "$argon2id$" w;
  verify_hash = λ salt w. rw (==_refl (String.◌++◌ "$argon2id$" w));
}
