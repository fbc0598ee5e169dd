-- ===== src/Common/Tests.antt =====
-- Platforms for the module of encryption and for drawn passwords, and the theorems at runs of them.
use Prim.Native.Char.{code}
use nest_rest_backend_templa.Prelude.{
  ℕ, zero, suc, String, ◌≡◌, refl, ap, ◌∙◌, some, false, [], ◌∷◌, ◌==◌, string_eq, nat_eq, has_char,
  if◌then◌else◌, ◌<◌, arith,
}
use nest_rest_backend_templa.Exec.{ok}
use nest_rest_backend_templa.Common.Encryption.{
  Bytes, CryptoPlatform, encrypt_nullable, decrypt_nullable,
}
use nest_rest_backend_templa.Common.Encryption.RoundTrip.{CryptoLaws, encrypt_then_decrypt}
use nest_rest_backend_templa.Common.Password.{generate_strong_password}
use nest_rest_backend_templa.Common.Password.Drawn.{
  count_in, anything, is_lower, is_upper, is_digit, is_symbol, generate_strong_password_kinds,
}

-- A list of numbers as text: each in unary, with a comma after it.
unfoldable strokes_then : ℕ → String → String
strokes_then zero s = String.◌∷◌ "," s
strokes_then (suc n) s = String.◌∷◌ "1" (strokes_then n s)

unfoldable written : Bytes → String
written [] = String.[]
written (n ∷ b) = strokes_then n (written b)

abbrev one_more : Bytes → Bytes
one_more [] = []
one_more (n ∷ b) = suc n ∷ b

unfoldable read : String → Bytes
read String.[] = []
read (String.◌∷◌ c s) = let rest = read s in if code c == 0x2c then 0 ∷ rest else one_more rest

read-strokes : (n : ℕ) (s : String) → read (strokes_then n s) ≡ n ∷ read s
unfolding read strokes_then
read-strokes zero s = refl
read-strokes (suc n) s = ap one_more (read-strokes n s)

read-written : (b : Bytes) → read (written b) ≡ b
unfolding read written
read-written [] = refl
read-written (n ∷ b) = read-strokes n (written b) ∙ ap (λ (t : Bytes). n ∷ t) (read-written b)

strokes_plain : (n : ℕ) (s : String) → has_char 0x3a (strokes_then n s) ≡ has_char 0x3a s
unfolding has_char strokes_then
strokes_plain zero s = refl
strokes_plain (suc n) s = strokes_plain n s

written_plain : (b : Bytes) → has_char 0x3a (written b) ≡ false
unfolding has_char written
written_plain [] = refl
written_plain (n ∷ b) = strokes_plain n (written b) ∙ written_plain b

generate_strong_password_kinds_example :
    (password : String) × (generate_strong_password (λ call n. call) 12 ≡ ok password)
    × (count_in anything password ≡ 12)
    × (0 < count_in is_lower password)
    × (0 < count_in is_upper password)
    × (0 < count_in is_digit password)
    × (0 < count_in is_symbol password)
generate_strong_password_kinds_example =
    generate_strong_password_kinds (λ call n. call) 12 (omega arith)

abbrev sixteen : Bytes
sixteen = 1 ∷ 1 ∷ 1 ∷ 1 ∷ 1 ∷ 1 ∷ 1 ∷ 1 ∷ 1 ∷ 1 ∷ 1 ∷ 1 ∷ 1 ∷ 1 ∷ 1 ∷ 1 ∷ []

abbrev platform : CryptoPlatform
platform = record {
  trim = λ s. s;
  to_base64 = written;
  from_base64 = read;
  is_hex64 = λ s. false;
  from_hex = read;
  utf8 = read;
  ciphertext = λ key nonce value. 7 ∷ [];
  auth_tag = λ key nonce value. sixteen;
  unseal = λ key nonce tag ciphertext. some "secret";
  sha256_hex = λ s. s;
}

abbrev twelve : Bytes
twelve = 1 ∷ 2 ∷ 3 ∷ 4 ∷ 5 ∷ 6 ∷ 7 ∷ 8 ∷ 9 ∷ 10 ∷ 11 ∷ 12 ∷ []

laws : CryptoLaws platform [] twelve "secret"
laws = record {
  base64_back = read-written;
  base64_plain = written_plain;
  nonce_length = refl;
  tag_length = refl;
  not_empty = λ h. refl;
  unseals = refl;
}

encrypt_then_decrypt_example :
    (decrypt_nullable platform [] (encrypt_nullable platform [] twelve (some "secret"))
      ≡ ok (some "secret"))
    × ((another : Bytes)
        → encrypt_nullable platform [] another (encrypt_nullable platform [] twelve (some "secret"))
          ≡ encrypt_nullable platform [] twelve (some "secret"))
encrypt_then_decrypt_example = encrypt_then_decrypt platform [] twelve "secret" laws refl
