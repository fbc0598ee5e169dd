-- ===== src/Auth/Tests/Passwords.antt =====
-- Resets and changes of one password, and the theorems about them at these runs.
use nest_rest_backend_templa.Prelude.{
  ◌+◌, ◌≤◌, ◌<◌, String, ◌≡◌, ◌↔◌, refl, some, none, true, false, [], ◌∷◌, arith,
}
use nest_rest_backend_templa.Exec.{ok}
use nest_rest_backend_templa.Sql.{select_first}
use nest_rest_backend_templa.Auth.MailProducer.{template_is}
use nest_rest_backend_templa.Auth.Entities.{
  LoginResponse, PasswordResetToken, ResetPasswordCommand, ChangePasswordCommand,
  ChangePasswordResponse, token_invalid_or_expired,
}
use nest_rest_backend_templa.Auth.Store.{
  AuthStore, reset_by_token, user_by_email, user_by_email_without_password,
}
use nest_rest_backend_templa.Auth.PasswordService.{length}
use nest_rest_backend_templa.Auth.Login.{login}
use nest_rest_backend_templa.Auth.RefreshTokens.Sessions.{HasNoSession}
use nest_rest_backend_templa.Auth.Passwords.{
  ForgotOutside, reset_refused, reset_password, change_password, forgot_password, reset_ttl_ms,
  min_password_length,
}
use nest_rest_backend_templa.Auth.Passwords.Reset.{CanReset, reset_once, reset_then_login}
use nest_rest_backend_templa.Auth.Passwords.Forgot.{forgot_then_reset}
use nest_rest_backend_templa.Auth.Passwords.Change.{
  CanChange, change_password_iff, change_password-HasNoSession,
}
use nest_rest_backend_templa.Auth.Tests.{
  plain, ann, start, at_time, try_password, auth_tables, ann_by_id, plain_laws,
}
use nest_rest_backend_templa.Auth.Tests.Accounts.{good_password}

-- RESET
abbrev reset_token : PasswordResetToken
reset_token = record {
  id = "p1";
  user_id = "u1";
  token = "secret";
  expires_at = 500;
  is_used = false;
  created_at = 1;
}

abbrev asked : AuthStore
asked = record start { reset_tokens = reset_token ∷ [] }

abbrev reset_to : String → ResetPasswordCommand
reset_to w = record { token = "secret"; new_password = w }

token_found : reset_by_token "secret" asked ≡ some reset_token
unfolding auth_tables
token_found = refl

asked_account : user_by_email "ann@x" asked ≡ some ann
unfolding auth_tables
asked_account = refl

length_new : length "new horse battery" ≡ 17
unfolding length
length_new = refl

long_new : min_password_length ≤ length "new horse battery"
long_new = rw length_new (omega arith)

can_reset : CanReset 400 (reset_to "new horse battery") asked
can_reset = record {
  token = reset_token;
  long_enough = long_new;
  found = token_found;
  valid = refl;
  has_user = refl;
}

reset_once_example :
    ((reset_password plain "s" 400 (reset_to "new horse battery") asked).0
      ≡ ok (record { success = true; user_id = "u1"; failure_reason = none }))
    × HasNoSession "u1" (reset_password plain "s" 400 (reset_to "new horse battery") asked).1
    × ((reset_password plain "t" 410
          (reset_to "new horse battery")
          (reset_password plain "s" 400 (reset_to "new horse battery") asked).1).0
        ≡ ok (reset_refused token_invalid_or_expired))
unfolding can_reset
reset_once_example =
    reset_once plain "s" 400 (reset_to "new horse battery") asked "t" 410
      (reset_to "new horse battery") can_reset refl long_new

reset_then_login_example :
    (r : LoginResponse) × ((login plain
        (at_time 450 "tok1")
        (try_password "new horse battery")
        (reset_password plain "s" 400 (reset_to "new horse battery") asked).1).0
      ≡ ok r)
    × (r.success ≡ true)
unfolding can_reset
reset_then_login_example =
    reset_then_login plain "s" 400 (reset_to "new horse battery") asked (at_time 450 "tok1")
      (try_password "new horse battery") ann plain_laws can_reset asked_account refl refl refl refl
      refl

-- FORGOT
abbrev asking : ForgotOutside
asking = record {
  token = "secret";
  requested_at = 100;
  reset_id = "p1";
  created_at = 100;
  mail = record { mail_id = "m1"; queue_error = none };
}

ann_without_password :
    user_by_email_without_password "ann@x" start ≡ some (record ann { password = none })
unfolding auth_tables
ann_without_password = refl

no_token : reset_by_token "secret" start ≡ none
unfolding auth_tables
no_token = refl

template_active :
    select_first (template_is "reset-password") start.mail_templates
    ≡ some (record { id = "t1"; deleted_at = none; name = "reset-password" })
unfolding select_first
template_active = refl

forgot_then_reset_example :
    ((forgot_password plain asking "ann@x" start).0
      ≡ ok (record { success = true; user_id = "u1" }))
    × (CanReset 400 (reset_to "new horse battery") (forgot_password plain asking "ann@x" start).1
        ↔ ((min_password_length ≤ length "new horse battery") × (400 < 100 + reset_ttl_ms)))
forgot_then_reset_example =
    forgot_then_reset plain asking "ann@x" start (record ann { password = none }) _
      ann_without_password refl template_active refl 400 (reset_to "new horse battery") no_token
      refl

-- CHANGE
abbrev change : ChangePasswordCommand
change = record {
  user_id = "u1";
  current_password = "correct horse battery";
  new_password = "new horse battery";
}

can_change : CanChange plain change start
can_change = record {
  user = ann;
  stored = "$argon2id$correct horse battery";
  long_enough = long_new;
  found = ann_by_id;
  has_password = refl;
  matches = good_password;
}

change_password_iff_example :
    (r : ChangePasswordResponse) × ((change_password plain "s" change start).0 ≡ ok r)
    × ((r.success ≡ true) ↔ CanChange plain change start)
change_password_iff_example = change_password_iff plain "s" change start

change_password-HasNoSession_example : HasNoSession "u1" (change_password plain "s" change start).1
change_password-HasNoSession_example =
    change_password-HasNoSession plain "s" change start can_change
