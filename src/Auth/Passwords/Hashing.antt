-- ===== src/Auth/Passwords/Hashing.antt =====
-- What the password service relies on argon2 for, and what a stored hash is then good for.
use text.Mathlib.Text.{starts_with}
use nest_rest_backend_templa.Prelude.{String, ◌≡◌, ◌≢◌, some, subst, true}
use nest_rest_backend_templa.Auth.Platform.{Platform}
use nest_rest_backend_templa.Auth.PasswordService.{hash_password, verify_password}

-- argon2's documentation: a hash made by `hash` with the type argon2id is an encoded string that
-- begins with `$argon2id$`, and `verify` accepts it with the password that it was made from.
pub record Argon2Laws (p : Platform) : Type 0 where
  pub hash_prefix :
      (salt password : String) → starts_with (p.argon2_hash salt password) "$argon2id$" ≡ true
  pub verify_hash :
      (salt password : String) → p.argon2_verify (p.argon2_hash salt password) password ≡ some true

module _ (p : Platform) (laws : Argon2Laws p) (salt password : String) where
  -- A hash that the service stored verifies with its password, however that is normalised.
  pub verify-hash_password : verify_password p (hash_password p salt password) password ≡ true
  unfolding verify_password hash_password
  verify-hash_password = simp (laws.hash_prefix, laws.verify_hash)

  pub hash_password-ne-empty : hash_password p salt password ≢ ""
  unfolding hash_password
  hash_password-ne-empty e =
      let bad : starts_with "" "$argon2id$" ≡ true =
        subst (λ t. starts_with t "$argon2id$" ≡ true) e
          (laws.hash_prefix salt (p.normalize password)) in
      cc bad
