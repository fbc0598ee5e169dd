-- ===== src/Auth/Platform.antt =====
-- What the auth-service calls and does not contain: argon2, node:crypto's HMAC, jsonwebtoken and
-- the string functions of the JavaScript runtime, each as a function; and the configuration.
use nest_rest_backend_templa.Prelude.{ℕ, String, Option, Bool}

-- libs/contracts/users/role-type.enum.ts
pub data RoleType : Type 0 where
  admin manager user public : RoleType

-- `JwtPayloadApp`, as a token that verifies carries it: nothing forces a claim to be there.
pub record JwtPayload : Type 0 where
  pub sub : Option String
  pub rid : Option String
  pub rty : Option RoleType
  pub lng : Option String
  pub tv : Option ℕ

-- `ValidateJWT`
pub record ValidateJwt : Type 0 where
  pub user_id : String
  pub role_id : String
  pub role_type : RoleType
  pub language : String
  pub token_version : Option ℕ

-- Where a call can throw, `none` is the throw.
pub record Platform : Type 0 where
  -- String.prototype.normalize, Date.prototype.toISOString
  pub normalize : String → String
  pub to_iso_string : ℕ → String
  -- argon2.hash with its random salt, argon2.verify, argon2.needsRehash
  pub argon2_hash : (salt password : String) → String
  pub argon2_verify : (hash password : String) → Option Bool
  pub argon2_needs_rehash : (hash : String) → Option Bool
  -- createHmac(hmacAlgorithm, hmacSecret).update(text).digest('hex')
  pub hmac_hex : (text : String) → String
  -- jwtService.signAsync with the access secret, at an instant
  pub sign_access : (at : ℕ) → ValidateJwt → String
  -- jwtService.signAsync with the refresh secret, at an instant and with a `jwtid`
  pub sign_refresh : (at : ℕ) (jwtid : String) → ValidateJwt → String
  -- jwtService.verifyAsync with the refresh secret, at an instant
  pub verify_refresh : (at : ℕ) (token : String) → Option JwtPayload
  -- ms(jwt.refresh.expires) and host.origin of the configuration
  pub refresh_ttl : ℕ
  pub host_origin : String
