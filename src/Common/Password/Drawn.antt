-- ===== src/Common/Password/Drawn.antt =====
-- What a drawn password is made of: the shuffle keeps how many characters of each kind there are.
use Prim.Native.Char.{Char, code}
use nest_rest_backend_templa.Prelude.{
  ℕ, zero, suc, ◌+◌, ◌-◌, ◌≤◌, ◌<◌, ◌≡◌, refl, ap, ◌∙◌, String, some, Bool, true, not, ◌&&◌, List,
  [], ◌∷◌, ◌++◌, all, arith, Option-cases, inl, inr, leb, le→ltb, if◌then◌else◌,
}
use nest_rest_backend_templa.Exec.{ok}
use nest_rest_backend_templa.Common.Password.{
  chars_of, join, lowercase, uppercase, numbers, symbols, draw_from, pick, get_elem?, set, swap,
  required_chars, random_chars, shuffle, generate_strong_password,
}

-- How many characters of a text satisfy a test.
abbrev pub count_in : (Char → Bool) → String → ℕ
count_in p String.[] = 0
count_in p (String.◌∷◌ c text) = (if p c then 1 else 0) + count_in p text

abbrev count : (Char → Bool) → List Char → ℕ
count p [] = 0
count p (c ∷ chars) = (if p c then 1 else 0) + count p chars

get-set :
    (chars : List Char) (i j : ℕ) (d : Char)
    → get_elem? chars j ≡ some d
    → get_elem? (set chars i d) j ≡ some d
unfolding set get_elem?
get-set [] i j d e = e
get-set (b ∷ chars) zero zero d e = refl
get-set (b ∷ chars) zero (suc j) d e = e
get-set (b ∷ chars) (suc i) zero d e = e
get-set (b ∷ chars) (suc i) (suc j) d e = get-set chars i j d e

module _ (p : Char → Bool) where
  count_in-join : (chars : List Char) → count_in p (join chars) ≡ count p chars
  unfolding join
  count_in-join [] = refl
  count_in-join (c ∷ chars) = ap (λ (n : ℕ). (if p c then 1 else 0) + n) (count_in-join chars)

  count-set :
      (chars : List Char) (i : ℕ) (c d : Char)
      → get_elem? chars i ≡ some c
      → count p (set chars i d) + (if p c then 1 else 0) ≡ count p chars + (if p d then 1 else 0)
  unfolding set get_elem?
  count-set [] i c d e = cc
  count-set (b ∷ chars) zero c d e = let same : b ≡ c = cc in rw (ap p same) (omega arith)
  count-set (b ∷ chars) (suc i) c d e = omega (arith, count-set chars i c d e)

  count-swap : (chars : List Char) (i j : ℕ) → count p (swap chars i j) ≡ count p chars
  unfolding swap
  count-swap chars i j = elim (Option-cases (get_elem? chars i)) [
    | inl outside ↦ rw outside refl
    | inr (c, at_i) ↦ elim (Option-cases (get_elem? chars j)) [
      | inl outside ↦ rw (at_i, outside) refl
      | inr (d, at_j) ↦
          rw (at_i, at_j)
            (omega (
              arith,
              count-set chars i c d at_i,
              count-set (set chars i d) j d c (get-set chars i j d at_j),
            ))
    ]
  ]

  count-shuffle :
      (random_int : ℕ → ℕ → ℕ) (call i : ℕ) (chars : List Char)
      → count p (shuffle random_int call i chars) ≡ count p chars
  unfolding shuffle
  count-shuffle random_int call zero chars = refl
  count-shuffle random_int call (suc i) chars =
      count-shuffle random_int (suc call) i (swap chars (suc i) (random_int call (suc (suc i))))
      ∙ count-swap chars (suc i) (random_int call (suc (suc i)))

  count-append : (xs ys : List Char) → count p (xs ++ ys) ≡ count p xs + count p ys
  count-append [] ys = omega arith
  count-append (x ∷ xs) ys = omega (arith, count-append xs ys)

  -- Every character that can be drawn from a text that is all of one kind is of that kind.
  pick-holds :
      (c : Char) (chars : List Char) (k : ℕ)
      → all p (c ∷ chars) ≡ true
      → p (pick (c ∷ chars) k) ≡ true
  unfolding pick
  pick-holds c [] k h = ground arith
  pick-holds c (d ∷ chars) zero h = ground arith
  pick-holds c (d ∷ chars) (suc k) h = pick-holds d chars k (ground arith)

abbrev pub is_lower : Char → Bool
is_lower c = leb b'a' (code c) && leb (code c) b'z'

abbrev pub is_upper : Char → Bool
is_upper c = leb b'A' (code c) && leb (code c) b'Z'

abbrev pub is_digit : Char → Bool
is_digit c = leb b'0' (code c) && leb (code c) b'9'

abbrev pub is_symbol : Char → Bool
is_symbol c = not (is_lower c) && (not (is_upper c) && not (is_digit c))

abbrev pub anything : Char → Bool
anything c = true

module _ (p : Char → Bool) (a b c d : Char) where
  first_counts : p a ≡ true → 0 < count p (a ∷ b ∷ c ∷ d ∷ [])
  first_counts h = rw h (omega arith)

  second_counts : p b ≡ true → 0 < count p (a ∷ b ∷ c ∷ d ∷ [])
  second_counts h = rw h (omega arith)

  third_counts : p c ≡ true → 0 < count p (a ∷ b ∷ c ∷ d ∷ [])
  third_counts h = rw h (omega arith)

  fourth_counts : p d ≡ true → 0 < count p (a ∷ b ∷ c ∷ d ∷ [])
  fourth_counts h = rw h (omega arith)

module _ (random_int : ℕ → ℕ → ℕ) where
  count-random :
      (call remaining : ℕ) → count anything (random_chars random_int call remaining) ≡ remaining
  unfolding random_chars
  count-random call zero = refl
  count-random call (suc remaining) = omega (arith, count-random (suc call) remaining)

  abbrev drawn : ℕ → List Char
  drawn n = required_chars random_int ++ random_chars random_int 4 (n - 4)

  abbrev shuffled : ℕ → String
  shuffled n = join (shuffle random_int n (n - 1) (drawn n))

  count_in-shuffled :
      (p : Char → Bool) (n : ℕ)
      → count_in p (shuffled n)
        ≡ count p (required_chars random_int) + count p (random_chars random_int 4 (n - 4))
  count_in-shuffled p n =
      count_in-join p (shuffle random_int n (n - 1) (drawn n))
      ∙ count-shuffle p random_int n (n - 1) (drawn n)
      ∙ count-append p (required_chars random_int) (random_chars random_int 4 (n - 4))

  has_kind :
      (p : Char → Bool) (n : ℕ)
      → 0 < count p (required_chars random_int)
      → 0 < count_in p (shuffled n)
  has_kind p n h = omega (arith, count_in-shuffled p n)

  abbrev drawn_lower : Char
  drawn_lower = draw_from random_int 0 (chars_of lowercase)

  abbrev drawn_upper : Char
  drawn_upper = draw_from random_int 1 (chars_of uppercase)

  abbrev drawn_digit : Char
  drawn_digit = draw_from random_int 2 (chars_of numbers)

  abbrev drawn_symbol : Char
  drawn_symbol = draw_from random_int 3 (chars_of symbols)

  lower_drawn : 0 < count is_lower (required_chars random_int)
  lower_drawn =
      first_counts is_lower drawn_lower drawn_upper drawn_digit drawn_symbol
        (pick-holds is_lower "a" (chars_of "bcdefghijklmnopqrstuvwxyz") (random_int 0 26) refl)

  upper_drawn : 0 < count is_upper (required_chars random_int)
  upper_drawn =
      second_counts is_upper drawn_lower drawn_upper drawn_digit drawn_symbol
        (pick-holds is_upper "A" (chars_of "BCDEFGHIJKLMNOPQRSTUVWXYZ") (random_int 1 26) refl)

  digit_drawn : 0 < count is_digit (required_chars random_int)
  digit_drawn =
      third_counts is_digit drawn_lower drawn_upper drawn_digit drawn_symbol
        (pick-holds is_digit "0" (chars_of "123456789") (random_int 2 10) refl)

  symbol_drawn : 0 < count is_symbol (required_chars random_int)
  symbol_drawn =
      fourth_counts is_symbol drawn_lower drawn_upper drawn_digit drawn_symbol
        (pick-holds is_symbol "!" (chars_of "@#$%^&*()_+-=[]{}|;:,.<>?") (random_int 3 26) refl)

  -- Whatever numbers are drawn, a password of at least eight characters is generated: it has
  -- exactly the length asked for and at least one lowercase letter, one uppercase letter, one
  -- digit and one character that is none of these.
  pub generate_strong_password_kinds :
      (n : ℕ)
      → 8 ≤ n
      → (password : String) × (generate_strong_password random_int n ≡ ok password)
        × (count_in anything password ≡ n)
        × (0 < count_in is_lower password)
        × (0 < count_in is_upper password)
        × (0 < count_in is_digit password)
        × (0 < count_in is_symbol password)
  unfolding generate_strong_password
  generate_strong_password_kinds n h = (
    shuffled n,
    rw (le→ltb n 8 h) refl,
    omega (arith, count_in-shuffled anything n, count-random 4 (n - 4)),
    has_kind is_lower n lower_drawn,
    has_kind is_upper n upper_drawn,
    has_kind is_digit n digit_drawn,
    has_kind is_symbol n symbol_drawn,
  )
