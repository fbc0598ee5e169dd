-- ===== src/Auth/Tests/Sessions.antt =====
-- Refresh and logout of one session, and the theorems about them at these runs.
use nest_rest_backend_templa.Prelude.{
  ℕ, String, ◌≡◌, ◌↔◌, refl, some, none, Bool, true, false, [], ◌∷◌, string_eq, arith, eq_iff, any,
}
use nest_rest_backend_templa.Exec.{ok}
use nest_rest_backend_templa.Auth.Platform.{ValidateJwt, user}
use nest_rest_backend_templa.Auth.Entities.{
  RefreshTokensCommand, RefreshTokensResponse, token_revoked,
}
use nest_rest_backend_templa.Auth.Store.{
  AuthStore, RefreshRow, user_by_id, refresh_by_token, live_token_is,
}
use nest_rest_backend_templa.Auth.TokenIssuer.{validate_refresh_token}
use nest_rest_backend_templa.Auth.RefreshTokens.{RefreshOutside, refused, refresh_tokens, logout}
use nest_rest_backend_templa.Auth.RefreshTokens.Outcome.{CanRefresh, refresh_tokens_iff}
use nest_rest_backend_templa.Auth.RefreshTokens.Sessions.{
  HasNoSession, sessions_of, reuse_revokes_all, refresh_twice_revokes_all, logout_ends_session,
}
use nest_rest_backend_templa.Auth.Login.{login}
use nest_rest_backend_templa.Auth.Journey.{login_then_refresh}
use nest_rest_backend_templa.Auth.Tests.{
  plain, ann, start, at_time, try_password, auth_tables, ann_by_id,
}
use nest_rest_backend_templa.Auth.Tests.Accounts.{can_login}

abbrev session : (id user_id token : String) (is_revoked : Bool) → RefreshRow
session id user_id token is_revoked = record {
  id = id;
  user_id = user_id;
  refresh_token = token;
  expires_at = 1000;
  is_revoked = is_revoked;
  fingerprint = "unknown";
  user_agent = "curl";
}

abbrev signed_in : AuthStore
signed_in = record start {
  refresh =
      session "s0" "u1" "tok0" true
      ∷ session "s1" "u1" "tok1" false
      ∷ session "s2" "u2" "tok2" false
      ∷ [];
}

abbrev claims_of_ann : ValidateJwt
claims_of_ann = record {
  user_id = "u1";
  role_id = "r1";
  role_type = user;
  language = "ru";
  token_version = some 1;
}

abbrev at_refresh : ℕ → String → RefreshOutside
at_refresh t token = record {
  verified_at = t;
  checked_at = t;
  signed_at = t;
  stored_at = t;
  jwtid = token;
  refresh_id = token;
  csrf_token = "csrf";
}

abbrev present_token : String → RefreshTokensCommand
present_token token = record { refresh_token = token; request_ip = ""; user_agent = "curl" }

valid : (at : ℕ) (token : String) → validate_refresh_token plain at token ≡ some claims_of_ann
unfolding validate_refresh_token
valid at token = refl

found_live :
    refresh_by_token "tok1" signed_in
    ≡ some (record {
      id = "s1";
      user_id = "u1";
      refresh_token = "tok1";
      expires_at = 1000;
      is_revoked = false;
    })
unfolding auth_tables
found_live = refl

found_dead :
    refresh_by_token "tok0" signed_in
    ≡ some (record {
      id = "s0";
      user_id = "u1";
      refresh_token = "tok0";
      expires_at = 1000;
      is_revoked = true;
    })
unfolding auth_tables
found_dead = refl

signed_in_account : user_by_id "u1" signed_in ≡ some ann
unfolding auth_tables
signed_in_account = refl

can_refresh : CanRefresh plain (at_refresh 900 "tok3") (present_token "tok1") signed_in
can_refresh = record {
  credentials = claims_of_ann;
  token = _;
  user = ann;
  valid = valid 900 "tok1";
  found = found_live;
  live = refl;
  fresh = omega arith;
  account = signed_in_account;
  verified = refl;
  not_blocked = refl;
}

refresh_tokens_iff_example :
    (r : RefreshTokensResponse) × ((refresh_tokens plain
        (at_refresh 900 "tok3")
        (present_token "tok1")
        signed_in).0
      ≡ ok r)
    × ((r.success ≡ true)
        ↔ CanRefresh plain (at_refresh 900 "tok3") (present_token "tok1") signed_in)
refresh_tokens_iff_example =
    refresh_tokens_iff plain (at_refresh 900 "tok3") (present_token "tok1") signed_in

reuse_revokes_all_example :
    ((refresh_tokens plain (at_refresh 900 "tok3") (present_token "tok0") signed_in).0
      ≡ ok (refused token_revoked))
    × HasNoSession "u1"
        (refresh_tokens plain (at_refresh 900 "tok3") (present_token "tok0") signed_in).1
    × (sessions_of "u2"
          (refresh_tokens plain (at_refresh 900 "tok3") (present_token "tok0") signed_in).1
        ≡ sessions_of "u2" signed_in)
reuse_revokes_all_example =
    reuse_revokes_all plain (at_refresh 900 "tok3") (present_token "tok0") signed_in claims_of_ann _
      "u2" (ground (arith, eq_iff "u2" "u1")) (valid 900 "tok0") found_dead refl

refresh_twice_revokes_all_example :
    ((refresh_tokens plain
        (at_refresh 910 "tok4")
        (present_token "tok1")
        (refresh_tokens plain (at_refresh 900 "tok3") (present_token "tok1") signed_in).1).0
      ≡ ok (refused token_revoked))
    × HasNoSession "u1"
        (refresh_tokens plain
          (at_refresh 910 "tok4")
          (present_token "tok1")
          (refresh_tokens plain (at_refresh 900 "tok3") (present_token "tok1") signed_in).1).1
refresh_twice_revokes_all_example =
    refresh_twice_revokes_all plain (at_refresh 900 "tok3") (present_token "tok1") signed_in
      (at_refresh 910 "tok4") (present_token "tok1") claims_of_ann can_refresh refl
      (valid 910 "tok1")

logout_ends_session_example :
    ((logout plain 900 "tok1" signed_in).0
      ≡ ok (record { success = any (live_token_is "tok1") signed_in.refresh }))
    × ((r : RefreshTokensResponse) × ((refresh_tokens plain
            (at_refresh 910 "tok4")
            (present_token "tok1")
            (logout plain 900 "tok1" signed_in).1).0
          ≡ ok r)
        × (r.success ≡ false))
logout_ends_session_example =
    logout_ends_session plain 900 "tok1" claims_of_ann signed_in (at_refresh 910 "tok4")
      (present_token "tok1") (valid 900 "tok1") refl

none_yet : refresh_by_token "tok1" start ≡ none
unfolding auth_tables
none_yet = refl

login_then_refresh_example :
    (r : RefreshTokensResponse) × ((refresh_tokens plain
        (at_refresh 900 "tok3")
        (present_token "tok1")
        (login plain (at_time 5 "tok1") (try_password "correct horse battery") start).1).0
      ≡ ok r)
    × (r.success ≡ true)
unfolding can_login
login_then_refresh_example =
    login_then_refresh plain (at_time 5 "tok1") (try_password "correct horse battery") start
      (at_refresh 900 "tok3") (present_token "tok1") can_login ann_by_id none_yet refl refl
      (ground (arith, eq_iff "u1" "")) (ground (arith, eq_iff "r1" ""))
      (ground (arith, eq_iff "ru" "")) (omega arith)
