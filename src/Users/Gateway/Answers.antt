-- ===== src/Users/Gateway/Answers.antt =====
-- What a login answers over HTTP, against when the auth-service lets one in.
use nest_rest_backend_templa.Prelude.{
  refl, List, ap, sym, ◌∙◌, false, arith, String, ◌≡◌, ◌⊎◌, inl, inr, Option, none, some, Bool,
  true, [], ◌∷◌, ◌++◌, Bool-cases,
}
use nest_rest_backend_templa.Exec.{Result, ok, throw, Thrown, unauthorized, http, locked, captcha}
use nest_rest_backend_templa.Auth.Platform.{Platform}
use nest_rest_backend_templa.Auth.Entities.{LoginCommand, LoginResponse, LoginFailureReason}
use nest_rest_backend_templa.Auth.Login
use nest_rest_backend_templa.Auth.Login.{LoginOutside}
use nest_rest_backend_templa.Auth.Login.Outcome.{CanLogin, login_iff, login_of_CanLogin}
use nest_rest_backend_templa.Auth.Login.Steps.{success_response}
use nest_rest_backend_templa.Auth.Entities.{AuthUser}
use nest_rest_backend_templa.Auth.Store.{user_by_email}
use nest_rest_backend_templa.Users.AuthEffects.{
  AuthMode, cookies_only, response_only, hybrid, CookieWrite, set_access, set_refresh, set_csrf,
  AuthSettings, user_login_succeeded, user_login_failed, Backend, AuthResponse, set_auth_cookies,
}
use nest_rest_backend_templa.Users.Gateway.{login_error, login_body, answer_login, execute_login}

-- What is thrown for the reason of a refusal: 401, or 403 for a lock. An account that is not there, or
-- a reason that is not known, has the message of a wrong password.
abbrev pub Says : LoginResponse → Option LoginFailureReason → Thrown → Type 0
Says r (some LoginFailureReason.not_verified) t = t ≡ http unauthorized "user.auth.verified"
Says r (some LoginFailureReason.blocked) t = t ≡ http unauthorized "user.auth.blocked"
Says r (some LoginFailureReason.account_locked) t =
    t ≡ locked "user.auth.accountLocked" r.locked_until
Says r (some LoginFailureReason.invalid_credentials) t =
    t ≡ captcha "user.auth.invalidCredentials" r.requires_captcha
Says r (some LoginFailureReason.user_not_found) t =
    t ≡ http unauthorized "user.auth.invalidCredentials"
Says r none t = t ≡ http unauthorized "user.auth.invalidCredentials"

login_error-Says :
    (r : LoginResponse) (reason : Option LoginFailureReason)
    → Says r reason (login_error r.locked_until r.requires_captcha reason)
login_error-Says r none = refl
login_error-Says r (some LoginFailureReason.user_not_found) = refl
login_error-Says r (some LoginFailureReason.not_verified) = refl
login_error-Says r (some LoginFailureReason.blocked) = refl
login_error-Says r (some LoginFailureReason.account_locked) = refl
login_error-Says r (some LoginFailureReason.invalid_credentials) = refl

-- What a login puts into the body of its answer and into cookies, for each mode, with CSRF tokens
-- and without.
abbrev pub Written :
    {D : Type 0}
    → AuthMode
    → (csrf_enabled : Bool) → LoginResponse
    → AuthResponse D
    → List CookieWrite
    → Type 0
Written cookies_only true r body written =
    (body.access_token ≡ none)
    × (body.refresh_token ≡ none)
    × (body.csrf_token ≡ none)
    × (written
        ≡ set_access r.access_token ∷ set_refresh r.refresh_token ∷ set_csrf r.csrf_token ∷ [])
Written cookies_only false r body written =
    (body.access_token ≡ none)
    × (body.refresh_token ≡ none)
    × (body.csrf_token ≡ none)
    × (written ≡ set_access r.access_token ∷ set_refresh r.refresh_token ∷ [])
Written response_only true r body written =
    (body.access_token ≡ some r.access_token)
    × (body.refresh_token ≡ some r.refresh_token)
    × (body.csrf_token ≡ some r.csrf_token)
    × (written ≡ [])
Written response_only false r body written =
    (body.access_token ≡ some r.access_token)
    × (body.refresh_token ≡ some r.refresh_token)
    × (body.csrf_token ≡ none)
    × (written ≡ [])
Written hybrid true r body written =
    (body.access_token ≡ some r.access_token)
    × (body.refresh_token ≡ some r.refresh_token)
    × (body.csrf_token ≡ some r.csrf_token)
    × (written
        ≡ set_access r.access_token ∷ set_refresh r.refresh_token ∷ set_csrf r.csrf_token ∷ [])
Written hybrid false r body written =
    (body.access_token ≡ some r.access_token)
    × (body.refresh_token ≡ some r.refresh_token)
    × (body.csrf_token ≡ none)
    × (written ≡ set_access r.access_token ∷ set_refresh r.refresh_token ∷ [])

module _ {D : Type 0} (find_user : String → Option D) where
  -- A user for whom the other table has a row, and the body of an answer with it.
  with_body :
      (mode : AuthMode) (csrf : Bool) (r : LoginResponse) (d : D)
      → find_user r.user_id ≡ some d
      → (body : AuthResponse D) × (login_body
            (record { mode = mode; csrf_enabled = csrf })
            find_user
            r
            (find_user r.user_id)
          ≡ ok body)
        × (body.user ≡ d)
        × Written mode csrf r body (
            set_auth_cookies
              (record { mode = mode; csrf_enabled = csrf })
              r.access_token
              r.refresh_token
              r.csrf_token)
  unfolding set_auth_cookies
  with_body cookies_only true r d found = rw found (_, refl, refl, (refl, refl, refl, refl))
  with_body cookies_only false r d found = rw found (_, refl, refl, (refl, refl, refl, refl))
  with_body response_only true r d found = rw found (_, refl, refl, (refl, refl, refl, refl))
  with_body response_only false r d found = rw found (_, refl, refl, (refl, refl, refl, refl))
  with_body hybrid true r d found = rw found (_, refl, refl, (refl, refl, refl, refl))
  with_body hybrid false r d found = rw found (_, refl, refl, (refl, refl, refl, refl))

module _ {D : Type 0} (settings : AuthSettings) (find_user : String → Option D) (p : Platform)
    (o : LoginOutside) (c : LoginCommand) (s : Backend) where
  -- What an execution answers, publishes and writes to the reply.
  abbrev pub Answered : Result (AuthResponse D) × Backend → Type 0
  Answered out =
      ((h : CanLogin p o c s.auth) × (r : LoginResponse) × (body : AuthResponse D) × (written : List
          CookieWrite)
        × ((Login.login p o c s.auth).0 ≡ ok r)
        × (out.0 ≡ ok body)
        × (find_user h.user.id ≡ some body.user)
        × Written settings.mode settings.csrf_enabled r body written
        × (out.1.cookies ≡ s.cookies ++ written)
        × (out.1.events ≡ s.events ++ user_login_succeeded h.user.id h.user.email ∷ [])
        × (out.1.auth ≡ (Login.login p o c s.auth).1))
      ⊎ ((¬ CanLogin p o c s.auth)
          × (r : LoginResponse) × (t : Thrown) × ((Login.login p o c s.auth).0 ≡ ok r)
          × (out.0 ≡ throw t)
          × Says r r.failure_reason t
          × (out.1.cookies ≡ s.cookies ++ [])
          × (out.1.events ≡ s.events ++ user_login_failed c.email ∷ [])
          × (out.1.auth ≡ (Login.login p o c s.auth).1))

  module _
      (has_row : (user : AuthUser)
        → user_by_email c.email s.auth ≡ some user
        → (d : D) × (find_user user.id ≡ some d)) where
    let_in : CanLogin p o c s.auth → Answered (execute_login settings find_user p o c s)
    unfolding execute_login answer_login
    let_in h =
        let (d, found) = has_row h.user h.found in
        let (body, made, of_user, written) =
          with_body find_user settings.mode settings.csrf_enabled (success_response p o h.user) d
            found in
        inl (
          h,
          success_response p o h.user,
          body,
          set_auth_cookies settings (success_response p o h.user).access_token
              (success_response p o h.user).refresh_token (success_response p o h.user).csrf_token,
          ap (λ w. w.0) (login_of_CanLogin p o c s.auth h),
          simp (login_of_CanLogin p o c s.auth h, made),
          found ∙ ap some (sym of_user),
          written,
          simp (login_of_CanLogin p o c s.auth h),
          simp (login_of_CanLogin p o c s.auth h),
          simp (login_of_CanLogin p o c s.auth h),
        )

    kept_out :
        (r : LoginResponse)
        → (Login.login p o c s.auth).0 ≡ ok r
        → r.success ≡ false
        → (¬ CanLogin p o c s.auth)
        → Answered (execute_login settings find_user p o c s)
    unfolding execute_login answer_login
    kept_out r reply nope never = inr (
      never,
      r,
      login_error r.locked_until r.requires_captcha r.failure_reason,
      reply,
      simp (reply, nope),
      login_error-Says r r.failure_reason,
      simp (reply, nope),
      simp (reply, nope),
      simp (reply, nope),
    )

    -- Where the row of the account that the email names can be found by its id, a login over HTTP
    -- does one of two things. If the auth-service lets the caller in (the account is there,
    -- verified, not blocked, with no lock in force, and the password matches), it answers with
    -- that user, publishes the event of a success, and hands out the tokens of the session as the
    -- mode says: in the body unless the mode is cookies only, in cookies unless it is response
    -- only, the CSRF token in the same places if it is enabled, and nowhere else. If not, it
    -- throws what the service's reason calls for (403 with the end of the lock for a locked
    -- account, else 401; an account that is not there and a wrong password have the same message),
    -- publishes the event of a failure and writes no cookie. In both cases the tables are as the
    -- auth-service left them.
    pub execute_login_answers : Answered (execute_login settings find_user p o c s)
    execute_login_answers =
        let (r, reply, iff) = login_iff p o c s.auth in
        elim (Bool-cases r.success) [
          | inl yep ↦ let_in (iff.0 yep)
          | inr nope ↦ kept_out r reply nope (λ h. absurd (ground (arith, iff.1 h, nope)))
        ]
