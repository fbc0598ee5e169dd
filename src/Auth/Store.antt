-- ===== src/Auth/Store.antt =====
-- The tables that the auth-service reads and writes (libs/database/users.schema.ts and
-- mail-producer.schema.ts), less the columns that it neither reads nor writes, and its repositories
-- (infrastructure/repositories/drizzle).
pub mod Lookup
use mathlib.Core.Option
use nest_rest_backend_templa.Prelude.{
  ℕ, String, Option, none, some, Bool, true, false, not, ◌&&◌, List, any, ◌==◌, string_eq,
  if◌then◌else◌,
}
use nest_rest_backend_templa.Exec.{Exec, pure, gets, modify, throw, ok, http, not_found}
use nest_rest_backend_templa.Sql.{select_first, update_where, insert, join_first}
use nest_rest_backend_templa.Auth.Platform.{RoleType}
use nest_rest_backend_templa.Auth.Entities.{AuthUser, RefreshTokenRecord, PasswordResetToken}

-- table `user`
pub record UserRow : Type 0 where
  pub id : String
  pub deleted_at : Option ℕ
  pub email : String
  pub verified : Option Bool
  pub password : Option String
  pub role_id : String
  pub blocked : Option Bool
  pub failed_login_attempts : ℕ
  pub failed_login_window_started_at : Option ℕ
  pub locked_until : Option ℕ
  pub token_version : ℕ
  pub language : Option String

-- table `user_role`
pub record UserRoleRow : Type 0 where
  pub id : String
  pub role_type : RoleType

-- table `refresh`
pub record RefreshRow : Type 0 where
  pub id : String
  pub user_id : String
  pub refresh_token : String
  pub expires_at : ℕ
  pub is_revoked : Bool
  pub fingerprint : String
  pub user_agent : String

pub data MailStatus : Type 0 where
  pending sent failed : MailStatus

-- A value of a mail's `context`.
pub data ContextValue : Type 0 where
  text : String → ContextValue
  number : ℕ → ContextValue

-- tables `mail_template` and `mail`
pub record MailTemplateRow : Type 0 where
  pub id : String
  pub deleted_at : Option ℕ
  pub name : String

pub record MailRow : Type 0 where
  pub id : String
  pub to : String
  pub subject : String
  pub template_id : String
  pub status : MailStatus
  pub variables : List (String × ContextValue)
  pub attempts : ℕ

-- a `send-mail` job of the queue `mail`
pub record SendMailJob : Type 0 where
  pub mail_id : String
  pub to : String
  pub subject : String
  pub template : String
  pub context : List (String × ContextValue)

pub record AuthStore : Type 0 where
  pub users : List UserRow
  pub roles : List UserRoleRow
  pub refresh : List RefreshRow
  pub reset_tokens : List PasswordResetToken
  pub mail_templates : List MailTemplateRow
  pub mails : List MailRow
  pub mail_queue : List SendMailJob

-- isNull
abbrev pub is_null {ℓ} : {A : Type ℓ} → Option A → Bool
is_null none = true
is_null (some a) = false

-- `??`
abbrev pub or_else {ℓ} : {A : Type ℓ} → Option A → A → A
or_else none d = d
or_else (some a) d = a

-- toAuthUser
abbrev pub to_auth_user : UserRow × UserRoleRow → AuthUser
to_auth_user (row, role) = record {
  id = row.id;
  email = row.email;
  password = row.password;
  role_id = row.role_id;
  role_type = role.role_type;
  verified = or_else row.verified false;
  blocked = or_else row.blocked false;
  failed_login_attempts = row.failed_login_attempts;
  failed_login_window_started_at = row.failed_login_window_started_at;
  locked_until = row.locked_until;
  token_version = row.token_version;
  language = or_else row.language "ru";
}

abbrev pub has_role : UserRow → UserRoleRow → Bool
has_role u r = u.role_id == r.id

abbrev pub email_is : String → UserRow → Bool
email_is email u = u.email == email && is_null u.deleted_at

abbrev pub id_is : String → UserRow → Bool
id_is id u = u.id == id

abbrev pub live_id_is : String → UserRow → Bool
live_id_is id u = u.id == id && is_null u.deleted_at

-- findByEmail(email, { includePassword: true })
unfoldable pub user_by_email : String → AuthStore → Option AuthUser
user_by_email email s =
    Option.map to_auth_user (join_first (email_is email) has_role s.users s.roles)

-- `const { password, ...userWithoutPassword } = userTable`
abbrev pub without_password : AuthUser → AuthUser
without_password u = record u { password = none }

-- findByEmail(email)
unfoldable pub user_by_email_without_password : String → AuthStore → Option AuthUser
unfolding user_by_email
user_by_email_without_password email s = Option.map without_password (user_by_email email s)

-- findById
unfoldable pub user_by_id : String → AuthStore → Option AuthUser
user_by_id id s = Option.map to_auth_user (join_first (live_id_is id) has_role s.users s.roles)

-- AuthUserUpdatePayload: `none` is a field that is not given, and leaves its column alone.
pub record UpdatePayload : Type 0 where
  pub password : Option (Option String)
  pub failed_login_attempts : Option ℕ
  pub failed_login_window_started_at : Option (Option ℕ)
  pub locked_until : Option (Option ℕ)
  pub token_version : Option ℕ

abbrev pub nothing : UpdatePayload
nothing = record {
  password = none;
  failed_login_attempts = none;
  failed_login_window_started_at = none;
  locked_until = none;
  token_version = none;
}

abbrev pub set_payload : UpdatePayload → UserRow → UserRow
set_payload p row = record row {
  password = or_else p.password row.password;
  failed_login_attempts = or_else p.failed_login_attempts row.failed_login_attempts;
  failed_login_window_started_at =
      or_else p.failed_login_window_started_at row.failed_login_window_started_at;
  locked_until = or_else p.locked_until row.locked_until;
  token_version = or_else p.token_version row.token_version;
}

-- AuthUserRepository.update
unfoldable pub update_user : String → UpdatePayload → Exec AuthStore (Unit {0})
update_user id payload s =
    if any (id_is id) s.users
    then (ok tt, record s { users = update_where (id_is id) (set_payload payload) s.users })
    else (throw (http not_found "user.notFound"), s)

-- RefreshTokenRepository.toDomain
abbrev pub to_refresh_token : RefreshRow → RefreshTokenRecord
to_refresh_token row = record {
  id = row.id;
  user_id = row.user_id;
  refresh_token = row.refresh_token;
  expires_at = row.expires_at;
  is_revoked = row.is_revoked;
}

-- RefreshTokenRepository.create, with the id that the database draws
abbrev pub create_refresh :
    (id user_id refresh_token : String) (expires_at : ℕ) (fingerprint user_agent : String)
    → Exec AuthStore (Unit {0})
create_refresh id user_id refresh_token expires_at fingerprint user_agent = modify λ s. record s {
  refresh =
      insert
        (record {
          id = id;
          user_id = user_id;
          refresh_token = refresh_token;
          expires_at = expires_at;
          is_revoked = false;
          fingerprint = fingerprint;
          user_agent = user_agent;
        })
        s.refresh;
}

abbrev pub token_is : String → RefreshRow → Bool
token_is token r = r.refresh_token == token

abbrev pub revoke : RefreshRow → RefreshRow
revoke r = record r { is_revoked = true }

-- RefreshTokenRepository.findByToken
unfoldable pub refresh_by_token : String → AuthStore → Option RefreshTokenRecord
refresh_by_token token s = Option.map to_refresh_token (select_first (token_is token) s.refresh)

-- revokeById
abbrev pub revoke_by_id : String → Exec AuthStore (Unit {0})
revoke_by_id id = modify λ s. record s { refresh = update_where (λ r. r.id == id) revoke s.refresh }

abbrev pub live_token_is : String → RefreshRow → Bool
live_token_is token r = r.refresh_token == token && not r.is_revoked

-- revokeByToken
abbrev pub revoke_by_token : String → Exec AuthStore Bool
revoke_by_token token s = (
  ok (any (live_token_is token) s.refresh),
  record s { refresh = update_where (live_token_is token) revoke s.refresh },
)

-- revokeAllForUser
abbrev pub revoke_all_for_user : String → Exec AuthStore (Unit {0})
revoke_all_for_user user_id =
    modify λ s. record s { refresh = update_where (λ r. r.user_id == user_id) revoke s.refresh }

-- PasswordResetTokenRepository.create, findByToken and markUsed
abbrev pub create_reset : PasswordResetToken → Exec AuthStore (Unit {0})
create_reset t = modify λ s. record s { reset_tokens = insert t s.reset_tokens }

unfoldable pub reset_by_token : String → AuthStore → Option PasswordResetToken
reset_by_token token s = select_first (λ t. t.token == token) s.reset_tokens

abbrev pub use_token : PasswordResetToken → PasswordResetToken
use_token t = record t { is_used = true }

abbrev pub mark_used : String → Exec AuthStore (Unit {0})
mark_used id =
    modify λ s. record s { reset_tokens = update_where (λ t. t.id == id) use_token s.reset_tokens }
