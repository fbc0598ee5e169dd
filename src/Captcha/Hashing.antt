-- ===== src/Captcha/Hashing.antt =====
-- domain/services/captcha-answer-normalizer.service.ts and
-- infrastructure/hashing/captcha-hashing.service.ts
use Prim.Native.Char.{Char, code}
use Prim.Native.String.{len}
use Prim.Native.String
use nest_rest_backend_templa.Prelude.{
  ℕ, String, Bool, false, ◌&&◌, ◌||◌, ◌==◌, string_eq, nat_eq, if◌then◌else◌,
}

-- What both call: the string functions and the character classes (`\p{L}`, `\p{N}`, `\s`) of the
-- JavaScript runtime, and node:crypto's HMAC under the configured secret.
pub record CaptchaPlatform : Type 0 where
  pub trim : String → String
  pub to_lower_case : String → String
  pub is_letter : Char → Bool
  pub is_number : Char → Bool
  pub is_space : Char → Bool
  pub hmac_hex : String → String
  -- a number in a template literal
  pub number_text : ℕ → String

-- replace(/ё/g, "е")
unfoldable pub replace_yo : String → String
replace_yo String.[] = String.[]
replace_yo (String.◌∷◌ c s) = String.◌∷◌ (if code c == 0x451 then "е" else c) (replace_yo s)

module _ (p : CaptchaPlatform) where
  abbrev pub is_kept : Char → Bool
  is_kept c = p.is_letter c || (p.is_number c || p.is_space c)

  -- replace(/[^\p{L}\p{N}\s]/gu, '')
  unfoldable pub remove_others : String → String
  remove_others String.[] = String.[]
  remove_others (String.◌∷◌ c s) =
      let rest = remove_others s in if is_kept c then String.◌∷◌ c rest else rest

  -- replace(/\s+/g, ' '), where `after` says that the character before was a space
  unfoldable pub collapse_spaces : (after : Bool) → String → String
  collapse_spaces after String.[] = String.[]
  collapse_spaces after (String.◌∷◌ c s) =
      let rest = collapse_spaces (p.is_space c) s in
      if p.is_space c && after then rest else String.◌∷◌ (if p.is_space c then " " else c) rest

  -- CaptchaAnswerNormalizer.normalize
  unfoldable pub normalize : String → String
  normalize answer =
      collapse_spaces false (remove_others (replace_yo (p.to_lower_case (p.trim answer))))

  -- hashAnswer
  unfoldable pub hash_answer : String → String
  hash_answer normalized = p.hmac_hex (String.◌++◌ "answer:" normalized)

  -- compareAnswer: the lengths in bytes, then `timingSafeEqual`
  unfoldable pub compare_answer : (normalized hash : String) → Bool
  compare_answer normalized hash =
      let expected = hash_answer normalized in len expected == len hash && expected == hash

  -- hashLookup
  unfoldable pub hash_lookup : String → String
  hash_lookup value = p.hmac_hex (String.◌++◌ "lookup:" value)
