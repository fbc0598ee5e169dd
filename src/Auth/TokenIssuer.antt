-- ===== src/Auth/TokenIssuer.antt =====
-- infrastructure/services/token-issuer.service.ts: what is signed, and which payloads of a refresh
-- token are accepted. The signatures are jsonwebtoken's.
use nest_rest_backend_templa.Prelude.{ℕ, ◌+◌, String, Option, none, some, string_eq}
use nest_rest_backend_templa.Exec.{Result, ok, throw, http, unauthorized}
use nest_rest_backend_templa.Auth.Platform.{Platform, JwtPayload, ValidateJwt, RoleType}
pub use nest_rest_backend_templa.Prelude.{present}

pub record RefreshToken : Type 0 where
  pub token : String
  pub expires_at : ℕ

module _ (p : Platform) where
  -- generateAccessToken. A token version of the database is an integer; a missing one is refused.
  abbrev pub generate_access_token : (at : ℕ) → ValidateJwt → Result String
  generate_access_token at v = elim v.token_version [
    | none ↦ throw (http unauthorized "user.auth.invalidJwtPayload")
    | some n ↦ ok (p.sign_access at v)
  ]

  -- generateRefreshToken; the lifetime is counted from a second reading of the clock
  abbrev pub generate_refresh_token :
      (at : ℕ) (jwtid : String) (stored_at : ℕ) → ValidateJwt → Result RefreshToken
  generate_refresh_token at jwtid stored_at v = elim v.token_version [
    | none ↦ throw (http unauthorized "user.auth.invalidJwtPayload")
    | some n ↦
        ok (record { token = p.sign_refresh at jwtid v; expires_at = stored_at + p.refresh_ttl })
  ]

  abbrev claims :
      Option String
      → Option String
      → Option RoleType
      → Option String
      → Option ℕ
      → Option ValidateJwt
  claims (some user_id) (some role_id) (some role_type) (some language) tv = some (record {
    user_id = user_id;
    role_id = role_id;
    role_type = role_type;
    language = language;
    token_version = tv;
  })
  claims _ _ _ _ tv = none

  abbrev accept : Option JwtPayload → Option ValidateJwt
  accept none = none
  accept (some j) = claims (present j.sub) (present j.rid) j.rty (present j.lng) j.tv

  -- validateRefreshToken
  unfoldable pub validate_refresh_token : (at : ℕ) (token : String) → Option ValidateJwt
  validate_refresh_token at token = accept (p.verify_refresh at token)
