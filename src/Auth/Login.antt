-- ===== src/Auth/Login.antt =====
-- application/handlers/login.handler.ts
pub mod Steps
pub mod Outcome
pub mod Lockout
pub mod Attempts
use nest_rest_backend_templa.Prelude.{
  ℕ, ◌+◌, ◌*◌, String, Option, none, some, Bool, true, false, not, ◌||◌, [], ◌∷◌, ltb, leb, ◌==◌,
  string_eq, nat_eq, if◌then◌else◌,
}
use nest_rest_backend_templa.Exec.{Exec, pure, lift, gets, try_ignore, ◌>>=◌, ◌>>◌}
use nest_rest_backend_templa.Auth.Platform.{Platform, ValidateJwt}
use nest_rest_backend_templa.Auth.Entities.{
  AuthUser, LoginCommand, LoginResponse, LoginFailureReason, user_not_found, not_verified, blocked,
  account_locked, invalid_credentials,
}
use nest_rest_backend_templa.Auth.Store.{
  AuthStore, text, user_by_email, update_user, nothing, create_refresh,
}
use nest_rest_backend_templa.Auth.PasswordService.{verify_password, needs_rehash, hash_password}
use nest_rest_backend_templa.Auth.TokenIssuer.{
  present, generate_access_token, generate_refresh_token, RefreshToken,
}
use nest_rest_backend_templa.Auth.MailProducer.{MailOutside, QueueMailPayload, queue_mail}

abbrev pub captcha_attempt_threshold : ℕ
captcha_attempt_threshold = 3

abbrev pub lock_attempt_threshold : ℕ
lock_attempt_threshold = 5

abbrev pub lock_duration_ms : ℕ
lock_duration_ms = 30 * 60 * 1000

abbrev pub failed_login_window_ms : ℕ
failed_login_window_ms = 15 * 60 * 1000

-- What one run reads from outside: the clock at the lock test, at the failure and at the signing,
-- the random values, the id of the new row and the mail's.
pub record LoginOutside : Type 0 where
  pub checked_at : ℕ
  pub failed_at : ℕ
  pub salt : String
  pub signed_at : ℕ
  pub stored_at : ℕ
  pub jwtid : String
  pub refresh_id : String
  pub csrf_token : String
  pub mail : MailOutside

-- `{ ...NO_TOKENS, success: false, … }`
abbrev pub rejected : LoginFailureReason → (locked_until : String) → Bool → LoginResponse
rejected reason locked_until requires_captcha = record {
  success = false;
  access_token = "";
  refresh_token = "";
  csrf_token = "";
  user_id = "";
  email = "";
  failure_reason = some reason;
  locked_until = locked_until;
  requires_captcha = requires_captcha;
}

-- resolveFailedLoginWindowStart; `windowAgeMs > WINDOW` with the subtraction moved to the right
unfoldable pub resolve_failed_login_window_start : Option ℕ → ℕ → ℕ
resolve_failed_login_window_start none now = now
resolve_failed_login_window_start (some started) now =
    if ltb (started + failed_login_window_ms) now then now else started

-- `failedLoginWindowStartedAt === user.failedLoginWindowStartedAt` asks whether the window's own
-- Date object came back; a Date other than that one is later than it by more than the window, so
-- comparing the instants answers the same.
abbrev same_window : ℕ → Option ℕ → Bool
same_window started none = false
same_window started (some current) = started == current

unfoldable pub count_failure : AuthUser → ℕ → ℕ
unfolding resolve_failed_login_window_start
count_failure user now =
    let started = resolve_failed_login_window_start user.failed_login_window_started_at now in
    if same_window started user.failed_login_window_started_at
    then user.failed_login_attempts + 1
    else 1

-- `user.lockedUntil && user.lockedUntil.getTime() > Date.now()`, with the instant
abbrev pub lock_in_force : Option ℕ → ℕ → Option ℕ
lock_in_force none now = none
lock_in_force (some until) now = if ltb now until then some until else none

abbrev pub or_unknown : String → String
or_unknown s = if s == "" then "unknown" else s

abbrev is_date : Option ℕ → Bool
is_date none = false
is_date (some d) = true

-- `attempts || lockedUntil || windowStartedAt`; a Date is truthy
abbrev pub has_failures : AuthUser → Bool
has_failures user =
    not (user.failed_login_attempts == 0)
    || (is_date user.locked_until || is_date user.failed_login_window_started_at)

abbrev pub jwt_of : AuthUser → ValidateJwt
jwt_of user = record {
  user_id = user.id;
  role_id = user.role_id;
  role_type = user.role_type;
  language = user.language;
  token_version = some user.token_version;
}

abbrev pub lock_until : LoginOutside → ℕ → Option ℕ
lock_until o attempts =
    if leb lock_attempt_threshold attempts then some (o.failed_at + lock_duration_ms) else none

module _ (p : Platform) (o : LoginOutside) where
  abbrev pub account_locked_mail : AuthUser → ℕ → QueueMailPayload
  account_locked_mail user until = record {
    to = user.email;
    subject = "Security alert: account temporarily locked";
    template = "notification";
    context =
        ("title", text "Account temporarily locked")
        ∷ (
          "message",
          text
              "We detected too many failed login attempts for your account. Login has been temporarily locked for security reasons.",
        )
        ∷ ("lockedUntil", text (p.to_iso_string until))
        ∷ [];
  }

  -- queueAccountLockedEmail, whose `catch` drops the error; nothing is sent without a lock
  queue_account_locked_email : AuthUser → Option ℕ → Exec AuthStore (Unit {0})
  queue_account_locked_email user none = pure tt
  queue_account_locked_email user (some until) =
      try_ignore (queue_mail o.mail (account_locked_mail user until))

  -- rejectInvalidCredentials
  unfoldable pub reject_invalid_credentials : AuthUser → Exec AuthStore LoginResponse
  unfolding queue_account_locked_email
  reject_invalid_credentials user = do
    let started = resolve_failed_login_window_start user.failed_login_window_started_at o.failed_at
    let attempts = count_failure user o.failed_at
    update_user user.id (record nothing {
      failed_login_attempts = some attempts;
      failed_login_window_started_at = some (some started);
      locked_until = some (lock_until o attempts);
    })
    queue_account_locked_email user (lock_until o attempts)
    pure (rejected invalid_credentials "" (leb captcha_attempt_threshold attempts))

  unfoldable pub migrate_hash : AuthUser → (stored password : String) → Exec AuthStore (Unit {0})
  migrate_hash user stored password =
      if needs_rehash p stored
      then update_user user.id
          (record nothing { password = some (some (hash_password p o.salt password)) })
      else pure tt

  unfoldable pub clear_failures : AuthUser → Exec AuthStore (Unit {0})
  clear_failures user =
      if has_failures user
      then update_user user.id (record nothing {
        failed_login_attempts = some 0;
        failed_login_window_started_at = some none;
        locked_until = some none;
      })
      else pure tt

  abbrev accepted : AuthUser → (access : String) → RefreshToken → LoginResponse
  accepted user access refresh = record {
    success = true;
    access_token = access;
    refresh_token = refresh.token;
    csrf_token = o.csrf_token;
    user_id = user.id;
    email = user.email;
    failure_reason = none;
    locked_until = "";
    requires_captcha = false;
  }

  unfoldable pub issue_tokens : AuthUser → LoginCommand → Exec AuthStore LoginResponse
  issue_tokens user command = do
    access ← lift (generate_access_token p o.signed_at (jwt_of user))
    refresh ← lift (generate_refresh_token p o.signed_at o.jwtid o.stored_at (jwt_of user))
    create_refresh o.refresh_id user.id refresh.token refresh.expires_at
        (or_unknown command.request_ip) (or_unknown command.user_agent)
    pure (accepted user access refresh)

  -- The steps after a password that verified.
  unfoldable pub admit : AuthUser → (stored : String) → LoginCommand → Exec AuthStore LoginResponse
  admit user stored command = do
    migrate_hash user stored command.password
    clear_failures user
    issue_tokens user command

  unfoldable pub check_password :
      AuthUser → Option String → LoginCommand → Exec AuthStore LoginResponse
  check_password user none command = reject_invalid_credentials user
  check_password user (some stored) command =
      if verify_password p stored command.password
      then admit user stored command
      else reject_invalid_credentials user

  unfoldable pub check_lock : AuthUser → Option ℕ → LoginCommand → Exec AuthStore LoginResponse
  check_lock user (some until) command =
      pure (rejected account_locked (p.to_iso_string until) false)
  check_lock user none command = check_password user (present user.password) command

  unfoldable pub check_user : Option AuthUser → LoginCommand → Exec AuthStore LoginResponse
  check_user none command = pure (rejected user_not_found "" false)
  check_user (some user) command =
      if not user.verified
      then pure (rejected not_verified "" false)
      else if user.blocked
      then pure (rejected blocked "" false)
      else check_lock user (lock_in_force user.locked_until o.checked_at) command

  -- execute
  unfoldable pub login : LoginCommand → Exec AuthStore LoginResponse
  login command = do user ← gets (user_by_email command.email); check_user user command
