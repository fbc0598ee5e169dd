-- ===== src/Common/Password.antt =====
-- common/generate-password.ts
pub mod Drawn
use Prim.Native.Char.{Char}
use Prim.Native.String
use nest_rest_backend_templa.Prelude.{
  ℕ, zero, suc, ◌+◌, ◌-◌, String, Option, none, some, List, [], ◌∷◌, ◌++◌, length, ltb,
  if◌then◌else◌,
}
use nest_rest_backend_templa.Exec.{Result, ok, throw, error}

abbrev pub chars_of : String → List Char
chars_of String.[] = []
chars_of (String.◌∷◌ c text) = c ∷ chars_of text

-- chars.join('')
unfoldable pub join : List Char → String
join [] = ""
join (c ∷ chars) = String.◌∷◌ c (join chars)

abbrev pub lowercase : String
lowercase = "abcdefghijklmnopqrstuvwxyz"

abbrev pub uppercase : String
uppercase = "ABCDEFGHIJKLMNOPQRSTUVWXYZ"

abbrev pub numbers : String
numbers = "0123456789"

abbrev pub symbols : String
symbols = "!@#$%^&*()_+-=[]{}|;:,.<>?"

-- chars[index]; no index out of range is drawn
unfoldable pub pick : List Char → ℕ → Char
pick [] index = " "
pick (c ∷ []) index = c
pick (c ∷ d ∷ chars) zero = c
pick (c ∷ d ∷ chars) (suc index) = pick (d ∷ chars) index

unfoldable pub get_elem? : List Char → ℕ → Option Char
get_elem? [] index = none
get_elem? (c ∷ chars) zero = some c
get_elem? (c ∷ chars) (suc index) = get_elem? chars index

unfoldable pub set : List Char → ℕ → Char → List Char
set [] index d = []
set (c ∷ chars) zero d = d ∷ chars
set (c ∷ chars) (suc index) d = c ∷ set chars index d

abbrev pub exchanged : List Char → (i j : ℕ) → Option Char → Option Char → List Char
exchanged chars i j (some c) (some d) = set (set chars i d) j c
exchanged chars i j (some c) none = chars
exchanged chars i j none found = chars

-- [chars[i], chars[j]] = [chars[j], chars[i]]
unfoldable pub swap : List Char → (i j : ℕ) → List Char
swap chars i j = exchanged chars i j (get_elem? chars i) (get_elem? chars j)

-- `random_int i n` is what the i-th call of the function, randomInt(0, n), draws.
module _ (random_int : ℕ → ℕ → ℕ) where
  abbrev pub draw_from : (call : ℕ) → List Char → Char
  draw_from call chars = pick chars (random_int call (length chars))

  -- requiredChars
  abbrev pub required_chars : List Char
  required_chars =
      draw_from 0 (chars_of lowercase)
      ∷ draw_from 1 (chars_of uppercase)
      ∷ draw_from 2 (chars_of numbers)
      ∷ draw_from 3 (chars_of symbols)
      ∷ []

  abbrev pub all_chars : List Char
  all_chars = chars_of lowercase ++ (chars_of uppercase ++ (chars_of numbers ++ chars_of symbols))

  -- The loop that draws randomChars, from a call on.
  unfoldable pub random_chars : (call remaining : ℕ) → List Char
  random_chars call zero = []
  random_chars call (suc remaining) = draw_from call all_chars ∷ random_chars (suc call) remaining

  -- The shuffle, from `i` down to 1.
  unfoldable pub shuffle : (call i : ℕ) → List Char → List Char
  shuffle call zero chars = chars
  shuffle call (suc i) chars =
      shuffle (suc call) i (swap chars (suc i) (random_int call (suc (suc i))))

  -- generateStrongPassword
  unfoldable pub generate_strong_password : ℕ → Result String
  generate_strong_password count =
      if ltb count 8
      then throw (error "common.password.minLength")
      else ok (join (shuffle count (count - 1) (required_chars ++ random_chars 4 (count - 4))))
