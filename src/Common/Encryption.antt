-- ===== src/Common/Encryption.antt =====
-- common/crypto/encryption.service.ts
pub mod RoundTrip
use Prim.Native.String
use nest_rest_backend_templa.Prelude.{
  ℕ, String, Option, none, some, Bool, true, false, not, ◌&&◌, ◌||◌, List, [], ◌∷◌, length, ◌==◌,
  string_eq, nat_eq, starts_with, drop_start, split, if◌then◌else◌,
}
use nest_rest_backend_templa.Exec.{Result, ok, throw, error}

abbrev pub Bytes : Type 0
Bytes = List ℕ

-- node:crypto and Buffer: base64, hex and UTF-8, AES-256-GCM under a key and a nonce, SHA-256. What
-- `unseal` cannot authenticate is `none`.
pub record CryptoPlatform : Type 0 where
  pub trim : String → String
  pub to_base64 : Bytes → String
  pub from_base64 : String → Bytes
  pub is_hex64 : String → Bool
  pub from_hex : String → Bytes
  pub utf8 : String → Bytes
  pub ciphertext : (key nonce : Bytes) → String → Bytes
  pub auth_tag : (key nonce : Bytes) → String → Bytes
  pub unseal : (key nonce tag ciphertext : Bytes) → Option String
  pub sha256_hex : String → String

-- ENCRYPTED_PREFIX, HASH_PREFIX, KEY_BYTES, NONCE_BYTES, AUTH_TAG_BYTES
abbrev pub encrypted_prefix : String
encrypted_prefix = "enc:v1:"

abbrev pub hash_prefix : String
hash_prefix = "sha256:"

abbrev key_bytes : ℕ
key_bytes = 32

abbrev pub nonce_bytes : ℕ
nonce_bytes = 12

abbrev pub auth_tag_bytes : ℕ
auth_tag_bytes = 16

abbrev pub is_encrypted : String → Bool
is_encrypted value = starts_with value encrypted_prefix

abbrev pub is_hashed_lookup_secret : String → Bool
is_hashed_lookup_secret value = starts_with value hash_prefix

module _ (p : CryptoPlatform) where
  -- The text that is returned at the end of encryptNullable.
  abbrev pub wire : (nonce tag ciphertext : Bytes) → String
  wire nonce tag ciphertext = String.◌++◌ encrypted_prefix (
      String.◌++◌ (p.to_base64 nonce) (
        String.◌++◌ ":" (String.◌++◌ (p.to_base64 tag) (String.◌++◌ ":" (p.to_base64 ciphertext)))))

  -- encryptNullable, with the nonce that it draws; null and undefined are `none`
  unfoldable pub encrypt_nullable : (key nonce : Bytes) → Option String → Option String
  encrypt_nullable key nonce none = none
  encrypt_nullable key nonce (some value) =
      if value == ""
      then some ""
      else if is_encrypted value
      then some value
      else some (wire nonce (p.auth_tag key nonce value) (p.ciphertext key nonce value))

  abbrev pub plaintext : Option String → Result (Option String)
  plaintext none = throw (error "Unsupported state or unable to authenticate data")
  plaintext (some value) = ok (some value)

  -- The lengths that decryptNullable wants.
  abbrev pub has_lengths : (nonce tag ciphertext : Bytes) → Bool
  has_lengths nonce tag ciphertext =
      length nonce == nonce_bytes && (length tag == auth_tag_bytes && not (length ciphertext == 0))

  abbrev pub decrypt_bytes : (key nonce tag ciphertext : Bytes) → Result (Option String)
  decrypt_bytes key nonce tag ciphertext =
      if has_lengths nonce tag ciphertext
      then plaintext (p.unseal key nonce tag ciphertext)
      else throw (error "crypto.encryptedPayloadInvalid")

  -- decryptNullable, from `payload.split(':')` on
  abbrev pub decrypt_parts : (key : Bytes) → List String → Result (Option String)
  decrypt_parts key (nonce ∷ tag ∷ ciphertext ∷ []) =
      decrypt_bytes key (p.from_base64 nonce) (p.from_base64 tag) (p.from_base64 ciphertext)
  decrypt_parts key _ = throw (error "crypto.encryptedPayloadInvalid")

  -- decryptNullable
  unfoldable pub decrypt_nullable : (key : Bytes) → Option String → Result (Option String)
  decrypt_nullable key none = ok none
  decrypt_nullable key (some value) =
      if value == ""
      then ok (some "")
      else if not (is_encrypted value)
      then ok (some value)
      else decrypt_parts key (split 0x3a (drop_start value encrypted_prefix))

  -- hashLookupSecret
  unfoldable pub hash_lookup_secret : String → String
  hash_lookup_secret value =
      if is_hashed_lookup_secret value then value else String.◌++◌ hash_prefix (p.sha256_hex value)

  abbrev first_key : List Bytes → Result Bytes
  first_key [] = throw (error "security.encryptionKeyInvalid")
  first_key (candidate ∷ candidates) =
      if length candidate == key_bytes then ok candidate else first_key candidates

  -- parseKey
  unfoldable pub parse_key : String → Result Bytes
  parse_key raw =
      let trimmed = p.trim raw in
      first_key (
        p.from_base64 trimmed
        ∷ (if p.is_hex64 trimmed then p.from_hex trimmed else [])
        ∷ p.utf8 trimmed
        ∷ [])
