-- ===== src/Auth/Login/Steps.antt =====
-- What each step of a login does to the tables and what it answers.
use nest_rest_backend_templa.Prelude.{
  ℕ, ◌+◌, String, ◌≡◌, refl, ◌∙◌, Option, none, some, true, false, any, arith, leb, if◌then◌else◌,
  Bool-cases, inl, inr,
}
use nest_rest_backend_templa.Exec.{ok}
use nest_rest_backend_templa.Sql.{insert}
use nest_rest_backend_templa.Auth.Platform.{Platform}
use nest_rest_backend_templa.Auth.Entities.{
  AuthUser, LoginCommand, LoginResponse, invalid_credentials,
}
use nest_rest_backend_templa.Auth.Store.{
  AuthStore, RefreshRow, user_by_email, UpdatePayload, nothing, id_is,
}
use nest_rest_backend_templa.Auth.Store.Lookup.{with_update, update_user-eq, any-with_update}
use nest_rest_backend_templa.Auth.PasswordService.{needs_rehash, hash_password}
use nest_rest_backend_templa.Auth.MailProducer.{MailOutside, QueueMailPayload, queue_mail}
use nest_rest_backend_templa.Auth.Login.{
  LoginOutside, rejected, accepted, resolve_failed_login_window_start, count_failure, lock_until,
  captcha_attempt_threshold, reject_invalid_credentials, queue_account_locked_email, jwt_of,
  or_unknown, has_failures, migrate_hash, clear_failures, admit, issue_tokens,
}

-- The tables that hold accounts and sessions are the same; the mail's may differ.
pub record SameAccounts (s t : AuthStore) : Type 0 where
  pub users : s.users ≡ t.users
  pub roles : s.roles ≡ t.roles
  pub refresh : s.refresh ≡ t.refresh
  pub reset_tokens : s.reset_tokens ≡ t.reset_tokens

pub user_by_email-SameAccounts :
    (email : String) (s t : AuthStore)
    → SameAccounts s t
    → user_by_email email s ≡ user_by_email email t
unfolding user_by_email
user_by_email-SameAccounts email s t h = rw (h.users, h.roles)

queue_mail-SameAccounts :
    (o : MailOutside) (m : QueueMailPayload) (s : AuthStore) → SameAccounts (queue_mail o m s).1 s
unfolding queue_mail
queue_mail-SameAccounts o m s = ground arith

-- What a wrong password writes to the user's row.
abbrev pub failure_payload : LoginOutside → AuthUser → UpdatePayload
failure_payload o user = record nothing {
  failed_login_attempts = some (count_failure user o.failed_at);
  failed_login_window_started_at =
      some
        (some (resolve_failed_login_window_start user.failed_login_window_started_at o.failed_at));
  locked_until = some (lock_until o (count_failure user o.failed_at));
}

-- What a login that succeeds writes to the columns of the lockout.
abbrev pub clear_payload : UpdatePayload
clear_payload = record nothing {
  failed_login_attempts = some 0;
  failed_login_window_started_at = some none;
  locked_until = some none;
}

abbrev pub cleared : AuthUser → AuthStore → AuthStore
cleared user s = if has_failures user then with_update user.id clear_payload s else s

abbrev pub with_session : RefreshRow → AuthStore → AuthStore
with_session r s = record s { refresh = insert r s.refresh }

module _ (p : Platform) (o : LoginOutside) where
  queue_account_locked_email-SameAccounts :
      (user : AuthUser) (until : Option ℕ) (s : AuthStore)
      → SameAccounts (queue_account_locked_email p o user until s).1 s
  unfolding queue_account_locked_email
  queue_account_locked_email-SameAccounts user none s = ground arith
  queue_account_locked_email-SameAccounts user (some until) s = queue_mail-SameAccounts o.mail _ s

  queue_account_locked_email-ok :
      (user : AuthUser) (until : Option ℕ) (s : AuthStore)
      → (queue_account_locked_email p o user until s).0 ≡ ok tt
  unfolding queue_account_locked_email
  queue_account_locked_email-ok user none s = refl
  queue_account_locked_email-ok user (some until) s = refl

  pub reject_invalid_credentials-reply :
      (user : AuthUser) (s : AuthStore)
      → any (id_is user.id) s.users ≡ true
      → (reject_invalid_credentials p o user s).0
        ≡ ok (
            rejected invalid_credentials ""
              (leb captcha_attempt_threshold (count_failure user o.failed_at)))
  unfolding reject_invalid_credentials
  reject_invalid_credentials-reply user s e =
      rw (update_user-eq user.id (failure_payload o user) s e) (
        rw (
          queue_account_locked_email-ok user (lock_until o (count_failure user o.failed_at))
            (with_update user.id (failure_payload o user) s)))

  pub reject_invalid_credentials-SameAccounts :
      (user : AuthUser) (s : AuthStore)
      → any (id_is user.id) s.users ≡ true
      → SameAccounts
          (reject_invalid_credentials p o user s).1
          (with_update user.id (failure_payload o user) s)
  unfolding reject_invalid_credentials
  reject_invalid_credentials-SameAccounts user s e =
      rw (update_user-eq user.id (failure_payload o user) s e) (
        rw
          (queue_account_locked_email-ok user (lock_until o (count_failure user o.failed_at))
            (with_update user.id (failure_payload o user) s))
          (queue_account_locked_email-SameAccounts user
            (lock_until o (count_failure user o.failed_at))
            (with_update user.id (failure_payload o user) s)))

  -- The row that a login adds to `refresh`.
  abbrev pub new_session : AuthUser → LoginCommand → RefreshRow
  new_session user command = record {
    id = o.refresh_id;
    user_id = user.id;
    refresh_token = p.sign_refresh o.signed_at o.jwtid (jwt_of user);
    expires_at = o.stored_at + p.refresh_ttl;
    is_revoked = false;
    fingerprint = or_unknown command.request_ip;
    user_agent = or_unknown command.user_agent;
  }

  abbrev pub rehash_payload : (password : String) → UpdatePayload
  rehash_payload password = record nothing {
    password = some (some (hash_password p o.salt password));
  }

  abbrev pub migrated : AuthUser → (stored password : String) → AuthStore → AuthStore
  migrated user stored password s =
      if needs_rehash p stored then with_update user.id (rehash_payload password) s else s

  abbrev pub success_response : AuthUser → LoginResponse
  success_response user = accepted p o user (p.sign_access o.signed_at (jwt_of user)) (record {
    token = p.sign_refresh o.signed_at o.jwtid (jwt_of user);
    expires_at = o.stored_at + p.refresh_ttl;
  })

  migrate_hash-eq :
      (user : AuthUser) (stored password : String) (s : AuthStore)
      → any (id_is user.id) s.users ≡ true
      → migrate_hash p o user stored password s ≡ (ok tt, migrated user stored password s)
  unfolding migrate_hash
  migrate_hash-eq user stored password s e = elim (Bool-cases (needs_rehash p stored)) [
    | inl old ↦ rw old (update_user-eq _ _ s e)
    | inr new ↦ rw new
  ]

  any-migrated :
      (user : AuthUser) (stored password : String) (s : AuthStore)
      → any (id_is user.id) (migrated user stored password s).users ≡ any (id_is user.id) s.users
  any-migrated user stored password s = elim (Bool-cases (needs_rehash p stored)) [
    | inl old ↦ rw old (any-with_update user.id (rehash_payload password) user.id s)
    | inr new ↦ rw new
  ]

  clear_failures-eq :
      (user : AuthUser) (s : AuthStore)
      → any (id_is user.id) s.users ≡ true
      → clear_failures p o user s ≡ (ok tt, cleared user s)
  unfolding clear_failures
  clear_failures-eq user s e = elim (Bool-cases (has_failures user)) [
    | inl dirty ↦ rw dirty (update_user-eq _ _ s e)
    | inr clean ↦ rw clean
  ]

  pub admit-eq :
      (user : AuthUser) (stored : String) (command : LoginCommand) (s : AuthStore)
      → any (id_is user.id) s.users ≡ true
      → admit p o user stored command s ≡ (
        ok (success_response user),
        with_session
            (new_session user command)
            (cleared user (migrated user stored command.password s)),
      )
  unfolding admit issue_tokens
  admit-eq user stored command s e =
      let there : any (id_is user.id) (migrated user stored command.password s).users ≡ true =
        any-migrated user stored command.password s ∙ e in
      rw (migrate_hash-eq user stored command.password s e)
        (rw (clear_failures-eq user (migrated user stored command.password s) there))
