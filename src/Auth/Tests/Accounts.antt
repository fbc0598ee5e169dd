-- ===== src/Auth/Tests/Accounts.antt =====
-- Logins of one account, and the theorems about a login at them.

use nest_rest_backend_templa.Prelude.{
  subst, String, ◌≡◌, ◌≢◌, ◌↔◌, refl, true, false, [], ◌∷◌, string_eq, arith, eq_iff,
}
use nest_rest_backend_templa.Exec.{ok}
use nest_rest_backend_templa.Auth.Entities.{LoginResponse, account_locked}
use nest_rest_backend_templa.Auth.PasswordService.{verify_password}
use nest_rest_backend_templa.Auth.Login.{login, rejected}
use nest_rest_backend_templa.Auth.Login.Outcome.{CanLogin, login_iff}
use nest_rest_backend_templa.Auth.Login.Lockout.{login_all, AllSound, login_all-AllSound}
use nest_rest_backend_templa.Auth.Login.Attempts.{
  IsWrong, Run, AllWrong, MayTry, five_failures_lock,
}
use nest_rest_backend_templa.Auth.Tests.{plain, ann, start, at_time, try_password, ann_found}

pub good_password :
    verify_password plain "$argon2id$correct horse battery" "correct horse battery" ≡ true
unfolding verify_password
good_password = refl

pub not_blank : ◌≢◌ {A = String} "$argon2id$correct horse battery" ""
not_blank = ground (arith, eq_iff "$argon2id$correct horse battery" "")

unfoldable pub can_login :
    CanLogin plain (at_time 5 "tok1") (try_password "correct horse battery") start
can_login = record {
  user = ann;
  stored = "$argon2id$correct horse battery";
  found = ann_found;
  verified = refl;
  not_blocked = refl;
  unlocked = λ until e. cc;
  has_password = refl;
  not_empty = not_blank;
  matches = good_password;
}

login_iff_example :
    (r : LoginResponse) × ((login plain
        (at_time 5 "tok1")
        (try_password "correct horse battery")
        start).0
      ≡ ok r)
    × ((r.success ≡ true)
        ↔ CanLogin plain (at_time 5 "tok1") (try_password "correct horse battery") start)
login_iff_example = login_iff plain (at_time 5 "tok1") (try_password "correct horse battery") start

bad_password : verify_password plain "$argon2id$correct horse battery" "guess" ≡ false
unfolding verify_password
bad_password = refl

wrong : IsWrong plain "ann@x" ann (try_password "guess")
wrong = (
  refl,
  λ stored e.
      let same : "$argon2id$correct horse battery" ≡ stored = ground (arith, e) in
      subst (λ t. verify_password plain t "guess" ≡ false) same bad_password,
)

abbrev four_more : Run
four_more =
    (at_time 11 "a", try_password "guess")
    ∷ (at_time 12 "b", try_password "guess")
    ∷ (at_time 13 "c", try_password "guess")
    ∷ (at_time 900010 "d", try_password "guess")
    ∷ []

all_wrong : AllWrong plain "ann@x" ann 10 four_more
all_wrong = (
  wrong,
  omega arith,
  omega arith,
  (
    wrong,
    omega arith,
    omega arith,
    (wrong, omega arith, omega arith, (wrong, omega arith, omega arith, tt)),
  ),
)

ann-MayTry : MayTry "ann@x" start ann
ann-MayTry = record { found = ann_found; verified = refl; not_blocked = refl }

five_failures_lock_example :
    login plain
      (at_time 2700009 "e")
      (try_password "correct horse battery")
      (login_all plain ((at_time 10 "z", try_password "guess") ∷ four_more) start)
    ≡ (
      ok (rejected account_locked "2026-01-01T00:00:00.000Z" false),
      login_all plain ((at_time 10 "z", try_password "guess") ∷ four_more) start,
    )
five_failures_lock_example =
    five_failures_lock plain "ann@x" (at_time 10 "z") (try_password "guess") four_more start ann
      (at_time 2700009 "e") (try_password "correct horse battery") ann-MayTry (refl, refl, refl)
      refl wrong all_wrong refl (omega arith)

login_all-AllSound_example :
    AllSound 900010 (login_all plain ((at_time 10 "z", try_password "guess") ∷ four_more) start)
login_all-AllSound_example =
    login_all-AllSound plain 0 ((at_time 10 "z", try_password "guess") ∷ four_more) start
      (omega arith) (omega arith)
