-- ===== src/Users/Tests.antt =====
-- A bump of one user's version and a login over HTTP, and the theorems about them at those runs.

use nest_rest_backend_templa.Prelude.{
  List, sym, ◌∙◌, ◌==◌, string_eq, if◌then◌else◌, ℕ, zero, suc, ◌+◌, String, Option, some, true,
  ◌≡◌, ◌↔◌, refl, ap, none, some, [], ◌∷◌, inl,
}
use nest_rest_backend_templa.Exec.{ok}
use nest_rest_backend_templa.Sql.{select_first}
use nest_rest_backend_templa.Users.TokenVersion.{
  VersionRow, VersionStore, Numbers, RedisOutside, version_of, bump_version, assert_current,
}
use nest_rest_backend_templa.Users.TokenVersion.Checks.{Check, after_checks}
use nest_rest_backend_templa.Users.TokenVersion.Coherence.{bump_then_assert}
use nest_rest_backend_templa.Auth.Tests.{plain, start as accounts, at_time, try_password, ann_found}
use nest_rest_backend_templa.Auth.Entities.{AuthUser}
use nest_rest_backend_templa.Auth.Store.{user_by_email}
use nest_rest_backend_templa.Users.AuthEffects.{AuthSettings, hybrid, Backend}
use nest_rest_backend_templa.Users.Gateway.{execute_login}
use nest_rest_backend_templa.Users.Gateway.Answers.{Answered, execute_login_answers}

-- Numbers in unary.
unfoldable strokes : ℕ → String
strokes zero = String.[]
strokes (suc n) = String.◌∷◌ "1" (strokes n)

unfoldable count : String → ℕ
count String.[] = 0
count (String.◌∷◌ c s) = suc (count s)

count-strokes : (n : ℕ) → count (strokes n) ≡ n
unfolding count strokes
count-strokes zero = refl
count-strokes (suc n) = ap suc (count-strokes n)

abbrev numbers : Numbers
numbers = record { text = strokes; parse = λ s. some (count s) }

abbrev row : VersionRow
row = record { id = "u1"; token_version = 3; deleted_at = none }

abbrev start : VersionStore
start = record { users = row ∷ []; cache = λ k. some "111" }

abbrev all_well : RedisOutside
all_well = record { get_error = none; set_error = none; del_error = none; second_del_error = none }

abbrev get_fails : RedisOutside
get_fails = record all_well { get_error = some "down" }

row_found : select_first (version_of "u1") start.users ≡ some row
unfolding select_first
row_found = refl

abbrev two_checks : List Check
two_checks =
    record { user_id = "u1"; token_version = some 4; redis = get_fails }
    ∷ record { user_id = "u2"; token_version = some 1; redis = all_well }
    ∷ []

bump_then_assert_example :
    ((bump_version numbers all_well "u1" start).0 ≡ ok 4)
    × (((assert_current numbers get_fails "u1"
            (some 3)
            (after_checks numbers two_checks (bump_version numbers all_well "u1" start).1)).0
          ≡ ok tt)
        ↔ (row.token_version + 1 ≡ 3))
bump_then_assert_example =
    bump_then_assert numbers all_well "u1" start row two_checks get_fails 3
      (λ n. ap some (count-strokes n)) row_found refl (inl refl)

abbrev settings : AuthSettings
settings = record { mode = hybrid; csrf_enabled = true }

abbrev backend : Backend
backend = record { auth = accounts; events = []; cookies = [] }

abbrev user_id_or_none : Option AuthUser → String
user_id_or_none none = ""
user_id_or_none (some user) = user.id

-- A table with one user.
abbrev profile_of : String → Option String
profile_of id = if id == "u1" then some "Ann" else none

has_profile :
    (user : AuthUser)
    → user_by_email "ann@x" accounts ≡ some user
    → (d : String) × (profile_of user.id ≡ some d)
has_profile user found =
    let same : "u1" ≡ user.id = ap user_id_or_none (sym ann_found ∙ found) in
    ("Ann", ap profile_of (sym same))

execute_login_answers_example :
    Answered settings profile_of plain
      (at_time 5 "tok1")
      (try_password "correct horse battery")
      backend
      (execute_login settings profile_of plain
        (at_time 5 "tok1")
        (try_password "correct horse battery")
        backend)
execute_login_answers_example =
    execute_login_answers settings profile_of plain (at_time 5 "tok1")
      (try_password "correct horse battery") backend has_profile
