-- ===== src/Users/AuthEffects.antt =====
-- What the handlers of a login and of passwords do besides their answer: the events of
-- application/events/auth.events.ts, the cookies of infrastructure/adapters/auth-cookies.helper.ts,
-- and the mode of libs/auth/auth-mode.enum.ts that decides on them.
use nest_rest_backend_templa.Prelude.{
  String, Option, none, some, Bool, List, [], ◌∷◌, ◌++◌, if◌then◌else◌,
}
use nest_rest_backend_templa.Auth.Store.{AuthStore}

pub data AuthMode : Type 0 where
  cookies_only response_only hybrid : AuthMode

-- The two settings that the handlers read.
pub record AuthSettings : Type 0 where
  pub mode : AuthMode
  pub csrf_enabled : Bool

-- application/events/auth.events.ts
pub data AuthEvent : Type 0 where
  user_login_succeeded : (user_id email : String) → AuthEvent
  user_login_failed : (email : String) → AuthEvent
  user_logged_out : (success : Bool) → AuthEvent
  password_reset_requested : (email : String) (user_id : Option String) → AuthEvent
  password_reset_completed : (user_id : String) → AuthEvent
  password_changed : (user_id : String) → AuthEvent

-- What a handler does to the reply; the options of a cookie are configuration.
pub data CookieWrite : Type 0 where
  set_access set_refresh set_csrf : (value : String) → CookieWrite
  clear_access clear_refresh clear_csrf : CookieWrite

-- The tables of the auth-service, the events published and the cookies written.
pub record Backend : Type 0 where
  pub auth : AuthStore
  pub events : List AuthEvent
  pub cookies : List CookieWrite

pub record AuthResponse (D : Type 0) : Type 0 where
  pub access_token : Option String
  pub refresh_token : Option String
  pub csrf_token : Option String
  pub user : D

pub record AccessTokenResponse : Type 0 where
  pub access_token : Option String
  pub refresh_token : Option String
  pub csrf_token : String

-- setAuthCookies
unfoldable pub set_auth_cookies :
    AuthSettings → (access_token refresh_token csrf_token : String) → List CookieWrite
set_auth_cookies settings access_token refresh_token csrf_token = elim settings.mode [
  | response_only ↦ []
  | cookies_only ↦
      set_access access_token
      ∷ set_refresh refresh_token
      ∷ (if settings.csrf_enabled then set_csrf csrf_token ∷ [] else [])
  | hybrid ↦
      set_access access_token
      ∷ set_refresh refresh_token
      ∷ (if settings.csrf_enabled then set_csrf csrf_token ∷ [] else [])
]

-- clearAuthCookies
abbrev pub clear_auth_cookies : List CookieWrite
clear_auth_cookies = clear_access ∷ clear_refresh ∷ clear_csrf ∷ []

-- mode !== AuthMode.COOKIES_ONLY ? value : undefined
abbrev pub in_body : AuthMode → String → Option String
in_body cookies_only value = none
in_body response_only value = some value
in_body hybrid value = some value

abbrev pub with_events : List AuthEvent → List CookieWrite → Backend → Backend
with_events events cookies s = record s {
  events = s.events ++ events;
  cookies = s.cookies ++ cookies;
}
