-- ===== src/Auth/Passwords/Forgot.antt =====
-- Asking for a reset by mail.

use nest_rest_backend_templa.Prelude.{
  ℕ, ◌+◌, ◌≤◌, ◌<◌, String, ◌≡◌, ◌↔◌, none, some, true, false, any, string_eq, ==_refl, arith,
  Option-cases, inl, inr,
}
use nest_rest_backend_templa.Exec.{ok}
use nest_rest_backend_templa.Sql.{select_first, insert}
use nest_rest_backend_templa.Sql.Laws.{select_first-append}
use nest_rest_backend_templa.Auth.Platform.{Platform}
use nest_rest_backend_templa.Auth.Entities.{AuthUser, ResetPasswordCommand}
use nest_rest_backend_templa.Auth.Store.{
  AuthStore, MailTemplateRow, id_is, user_by_email, user_by_email_without_password, reset_by_token,
}
use nest_rest_backend_templa.Auth.Store.Lookup.{any-user_by_email}
use nest_rest_backend_templa.Auth.PasswordService.{length}
use nest_rest_backend_templa.Auth.MailProducer.{template_is, queue_mail}
use nest_rest_backend_templa.Auth.Passwords.{
  ForgotOutside, reset_ttl_ms, min_password_length, reset_row, forgot_password,
}
use nest_rest_backend_templa.Auth.Passwords.Reset.{CanReset}

any-user_without_password :
    (email : String) (s : AuthStore) (u : AuthUser)
    → user_by_email_without_password email s ≡ some u
    → any (id_is u.id) s.users ≡ true
unfolding user_by_email_without_password
any-user_without_password email s u e = elim (Option-cases (user_by_email email s)) [
  | inl missing ↦ absurd (ground (arith, e, missing))
  | inr (v, found) ↦
      let same : v.id ≡ u.id = ground (arith, e, found) in
      rw same at (any-user_by_email email s v found)
]

module _ (p : Platform) (o : ForgotOutside) (email : String) (s : AuthStore) (u : AuthUser)
    (template : MailTemplateRow) (found : user_by_email_without_password email s ≡ some u)
    (free : u.blocked ≡ false)
    (active : select_first (template_is "reset-password") s.mail_templates ≡ some template)
    (reached : o.mail.queue_error ≡ none) where
  forgot_reply : (forgot_password p o email s).0 ≡ ok (record { success = true; user_id = u.id })
  unfolding forgot_password queue_mail
  forgot_reply = simp (found, free, active, reached)

  forgot_tokens :
      (forgot_password p o email s).1.reset_tokens ≡ insert (reset_row p o email u) s.reset_tokens
  unfolding forgot_password queue_mail
  forgot_tokens = simp (found, free, active, reached)

  forgot_users : (forgot_password p o email s).1.users ≡ s.users
  unfolding forgot_password queue_mail
  forgot_users = simp (found, free, active, reached)

  new_token :
      reset_by_token o.token s ≡ none
      → reset_by_token o.token (forgot_password p o email s).1 ≡ some (reset_row p o email u)
  unfolding reset_by_token select_first
  new_token fresh = rw forgot_tokens (simp (select_first-append, fresh, ==_refl o.token))

  -- A request for an account that is there and not blocked, where the mail can be queued, is
  -- answered with success; and with its token, if no older row has that token, a reset is allowed
  -- exactly if the password is long enough and less than an hour has passed since the request.
  pub forgot_then_reset :
      (at : ℕ) (c : ResetPasswordCommand)
      → reset_by_token o.token s ≡ none
      → c.token ≡ o.token
      → ((forgot_password p o email s).0 ≡ ok (record { success = true; user_id = u.id }))
        × (CanReset at c (forgot_password p o email s).1 ↔ (
            (min_password_length ≤ length c.new_password) × (at < o.requested_at + reset_ttl_ms)))
  forgot_then_reset at c fresh same =
      let stored : reset_by_token c.token (forgot_password p o email s).1
          ≡ some (reset_row p o email u) =
        rw same (new_token fresh) in
      (
        forgot_reply,
        (
          λ h. (h.long_enough, ground (arith, h.valid, h.found, stored)),
          λ (long, early). record {
            token = reset_row p o email u;
            long_enough = long;
            found = stored;
            valid = ground arith;
            has_user = rw forgot_users (any-user_without_password email s u found);
          },
        ),
      )
