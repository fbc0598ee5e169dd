-- ===== src/Auth/PasswordService.antt =====
-- libs/auth/password-service.adapter.ts: hashing with argon2id, verification of both kinds of hash.
use Prim.Native.Char.{code}
use Prim.Native.String.{len}
use text.Mathlib.Text.{starts_with}
use nest_rest_backend_templa.Prelude.{
  ℕ, ◌+◌, String, Option, none, some, Bool, true, false, not, ltb, ◌==◌, string_eq, nat_eq,
  if◌then◌else◌,
}
use nest_rest_backend_templa.Auth.Platform.{Platform}

-- libs/auth/password-hash-type.enum.ts
pub data PasswordHashType : Type 0 where
  hmac_sha256 argon2id : PasswordHashType

unfoldable pub detect_hash_type : String → PasswordHashType
detect_hash_type hash = if starts_with hash "$argon2id$" then argon2id else hmac_sha256

-- `catch { return d }`
abbrev caught : Option Bool → Bool → Bool
caught none d = d
caught (some b) d = b

-- String.prototype.length: UTF-16 units, two for a code point from 0x10000 on
unfoldable pub length : String → ℕ
length String.[] = 0
length (String.◌∷◌ c s) = (if ltb (code c) 0x10000 then 1 else 2) + length s

module _ (p : Platform) where
  unfoldable pub hash_password : (salt password : String) → String
  hash_password salt password = p.argon2_hash salt (p.normalize password)

  -- The buffers are compared by their lengths in bytes, then byte for byte.
  verify_hmac_password : (stored password : String) → Bool
  verify_hmac_password stored password =
      let computed = p.hmac_hex (p.normalize password) in
      if not (len stored == len computed) then false else stored == computed

  verify_with : PasswordHashType → (stored password : String) → Bool
  unfolding verify_hmac_password
  verify_with argon2id stored password =
      caught (p.argon2_verify stored (p.normalize password)) false
  verify_with hmac_sha256 stored password = verify_hmac_password stored password

  unfoldable pub verify_password : (stored password : String) → Bool
  unfolding verify_with detect_hash_type
  verify_password stored password = verify_with (detect_hash_type stored) stored password

  needs_rehash_with : PasswordHashType → (hash : String) → Bool
  needs_rehash_with hmac_sha256 hash = true
  needs_rehash_with argon2id hash = caught (p.argon2_needs_rehash hash) true

  unfoldable pub needs_rehash : (hash : String) → Bool
  unfolding needs_rehash_with detect_hash_type
  needs_rehash hash = needs_rehash_with (detect_hash_type hash) hash
