-- ===== src/Auth/Login/Attempts.antt =====
-- Wrong passwords in a row: the count, the lock, and what the lock refuses.
use nest_rest_backend_templa.Prelude.{
  ℕ, ◌+◌, ◌≤◌, ◌<◌, String, ◌≡◌, refl, ◌∙◌, Option, none, some, true, false, List, [], ◌∷◌, arith,
  length, ==_refl, leb,
}
use nest_rest_backend_templa.Exec.{ok}
use nest_rest_backend_templa.Auth.Platform.{Platform}
use nest_rest_backend_templa.Auth.Entities.{
  AuthUser, LoginCommand, LoginResponse, account_locked, invalid_credentials,
}
use nest_rest_backend_templa.Auth.Store.{AuthStore, user_by_email}
use nest_rest_backend_templa.Auth.Store.Lookup.{set_user, any-user_by_email, user_by_email-update}
use nest_rest_backend_templa.Auth.PasswordService.{verify_password}
use nest_rest_backend_templa.Auth.TokenIssuer.{present}
use nest_rest_backend_templa.Auth.Login.{
  LoginOutside, resolve_failed_login_window_start, rejected, failed_login_window_ms,
  lock_duration_ms, lock_in_force, count_failure, captcha_attempt_threshold, check_user, check_lock,
  check_password, login, reject_invalid_credentials,
}
use nest_rest_backend_templa.Auth.Login.Steps.{
  user_by_email-SameAccounts, failure_payload, reject_invalid_credentials-SameAccounts,
}
use nest_rest_backend_templa.Auth.Login.Lockout.{login_all}

-- An account that may try a password.
pub record MayTry (email : String) (s : AuthStore) (u : AuthUser) : Type 0 where
  pub found : user_by_email email s ≡ some u
  pub verified : u.verified ≡ true
  pub not_blocked : u.blocked ≡ false

-- The command is for the account, and its password is none that the stored hash accepts.
abbrev pub IsWrong : Platform → String → AuthUser → LoginCommand → Type 0
IsWrong p email u c =
    (c.email ≡ email)
    × ((stored : String)
        → present u.password ≡ some stored
        → verify_password p stored c.password ≡ false)

abbrev wrong_reply : LoginOutside → AuthUser → LoginResponse
wrong_reply o u =
    rejected invalid_credentials "" (leb captcha_attempt_threshold (count_failure u o.failed_at))

module _ (p : Platform) (o : LoginOutside) (s : AuthStore) (u : AuthUser) where
  rejected_user :
      (email : String)
      → user_by_email email s ≡ some u
      → user_by_email email (reject_invalid_credentials p o u s).1
        ≡ some (set_user (failure_payload o u) u)
  rejected_user email found =
      let there = any-user_by_email email s u found in
      user_by_email-SameAccounts email _ _ (reject_invalid_credentials-SameAccounts p o u s there)
      ∙ (user_by_email-update u.id (failure_payload o u) email s ∙ rw (found, ==_refl u.id))

  module _ (email : String) (c : LoginCommand) where
    wrong_password :
        (w : Option String)
        → present u.password ≡ w
        → IsWrong p email u c
        → check_password p o u w c s ≡ reject_invalid_credentials p o u s
    unfolding check_password
    wrong_password none e wrong = refl
    wrong_password (some stored) e wrong = rw (wrong.1 stored e)

    -- One wrong password where no lock is in force.
    login_wrong :
        MayTry email s u
        → lock_in_force u.locked_until o.checked_at ≡ none
        → IsWrong p email u c
        → login p o c s ≡ reject_invalid_credentials p o u s
    unfolding login check_user check_lock
    login_wrong may free wrong =
        simp (wrong.0, may.found, may.verified, may.not_blocked, free)
          (wrong_password (present u.password) refl wrong)

    -- A lock in force refuses every password, and the refusal writes nothing.
    login_locked :
        (until : ℕ)
        → c.email ≡ email
        → MayTry email s u
        → lock_in_force u.locked_until o.checked_at ≡ some until
        → login p o c s ≡ (ok (rejected account_locked (p.to_iso_string until) false), s)
    unfolding login check_user check_lock
    login_locked until same may locked =
        simp (same, may.found, may.verified, may.not_blocked, locked)

abbrev pub Run : Type 0
Run = List (LoginOutside × LoginCommand)

-- Every attempt of the run is wrong, and fails before the window that began at `started` closes.
abbrev pub AllWrong : Platform → String → AuthUser → ℕ → Run → Type 0
AllWrong p email u started [] = Unit
AllWrong p email u started ((o, c) ∷ rest) =
    IsWrong p email u c
    × (started ≤ o.failed_at)
    × (o.failed_at ≤ started + failed_login_window_ms)
    × AllWrong p email u started rest

abbrev pub last_failed : ℕ → Run → ℕ
last_failed at [] = at
last_failed at ((o, c) ∷ rest) = last_failed o.failed_at rest

AllWrong-same :
    (p : Platform) (email : String) (u u' : AuthUser) (started : ℕ) (run : Run)
    → u'.password ≡ u.password
    → AllWrong p email u started run
    → AllWrong p email u' started run
AllWrong-same p email u u' started [] e h = tt
AllWrong-same p email u u' started ((o, c) ∷ rest) e ((same, wrong), from, to, later) = (
  (same, λ stored found. wrong stored (rw (← e) found)),
  from,
  to,
  AllWrong-same p email u u' started rest e later,
)

-- A failure inside the window adds one; the lock comes with the fifth.
count_failure_within :
    (u : AuthUser) (started now : ℕ)
    → u.failed_login_window_started_at ≡ some started
    → now ≤ started + failed_login_window_ms
    → (count_failure u now ≡ u.failed_login_attempts + 1)
      × (resolve_failed_login_window_start u.failed_login_window_started_at now ≡ started)
unfolding count_failure
count_failure_within u started now window within = ground arith

-- The account after a run of failures.
record Locked (email : String) (s : AuthStore) (until : ℕ) : Type 0 where
  user : AuthUser
  may : MayTry email s user
  locked : user.locked_until ≡ some until

module _ (p : Platform) (email : String) where
  wrong-MayTry :
      (o : LoginOutside) (c : LoginCommand) (s : AuthStore) (u : AuthUser)
      → MayTry email s u
      → lock_in_force u.locked_until o.checked_at ≡ none
      → IsWrong p email u c
      → MayTry email (login p o c s).1 (set_user (failure_payload o u) u)
  wrong-MayTry o c s u may free wrong = rw (login_wrong p o s u email c may free wrong) (record {
    found = rejected_user p o s u email may.found;
    verified = may.verified;
    not_blocked = may.not_blocked;
  })

  run_locks :
      (run : Run) (s : AuthStore) (u : AuthUser) (started at : ℕ)
      → MayTry email s u
      → u.locked_until ≡ none
      → u.failed_login_window_started_at ≡ some started
      → u.failed_login_attempts < 5
      → u.failed_login_attempts + length run ≡ 5
      → AllWrong p email u started run
      → Locked email (login_all p run s) (last_failed at run + lock_duration_ms)
  unfolding login_all
  run_locks [] s u started at may free window few all wrong = absurd (omega arith)
  run_locks ((o, c) ∷ []) s u started at may free window few all (wrong, from, to, later) =
      let (counted, kept) = count_failure_within u started o.failed_at window to in
      record {
        user = set_user (failure_payload o u) u;
        may = wrong-MayTry o c s u may (rw free) wrong;
        locked = ground arith;
      }
  run_locks ((o, c) ∷ next ∷ rest) s u started at may free window few all (wrong, from, to, later) =
      let (counted, kept) = count_failure_within u started o.failed_at window to in
      let u' = set_user (failure_payload o u) u in
      run_locks (next ∷ rest) (login p o c s).1 u' started o.failed_at
        (wrong-MayTry o c s u may (rw free) wrong) (ground arith) (ground arith) (omega arith)
        (omega arith) (AllWrong-same p email u u' started (next ∷ rest) refl later)

-- A user with no failures on record, as a new account or one that has just logged in.
abbrev pub HasNoFailures : AuthUser → Type 0
HasNoFailures u =
    (u.failed_login_attempts ≡ 0)
    × (u.failed_login_window_started_at ≡ none)
    × (u.locked_until ≡ none)

first_failure :
    (u : AuthUser) (now : ℕ)
    → HasNoFailures u
    → (count_failure u now ≡ 1)
      × (resolve_failed_login_window_start u.failed_login_window_started_at now ≡ now)
unfolding count_failure
first_failure u now h = ground arith

module _ (p : Platform) (email : String) where
  run_locks_from_clean :
      (o : LoginOutside) (c : LoginCommand) (rest : Run) (s : AuthStore) (u : AuthUser)
      → MayTry email s u
      → HasNoFailures u
      → length rest ≡ 4
      → IsWrong p email u c
      → AllWrong p email u o.failed_at rest
      → Locked email
          (login_all p ((o, c) ∷ rest) s)
          (last_failed o.failed_at rest + lock_duration_ms)
  unfolding login_all
  run_locks_from_clean o c rest s u may clean four wrong later =
      let (one, now) = first_failure u o.failed_at clean in
      let u' = set_user (failure_payload o u) u in
      let free : u.locked_until ≡ none = clean.2 in
      run_locks p email rest (login p o c s).1 u' o.failed_at o.failed_at
        (wrong-MayTry p email o c s u may (rw free) wrong) (ground arith) (ground arith)
        (omega arith) (omega arith) (AllWrong-same p email u u' o.failed_at rest refl later)

  -- Five wrong passwords, the last four at most fifteen minutes after the first, on an account
  -- with no failures on record: every later login before thirty minutes have passed since the
  -- fifth is refused as locked, the right password included, and writes nothing.
  pub five_failures_lock :
      (o : LoginOutside) (c : LoginCommand) (rest : Run) (s : AuthStore) (u : AuthUser)
      (o' : LoginOutside) (c' : LoginCommand)
      → MayTry email s u
      → HasNoFailures u
      → length rest ≡ 4
      → IsWrong p email u c
      → AllWrong p email u o.failed_at rest
      → c'.email ≡ email
      → o'.checked_at < last_failed o.failed_at rest + lock_duration_ms
      → login p o' c' (login_all p ((o, c) ∷ rest) s) ≡ (
        ok (
            rejected account_locked
              (p.to_iso_string (last_failed o.failed_at rest + lock_duration_ms))
              false),
        login_all p ((o, c) ∷ rest) s,
      )
  five_failures_lock o c rest s u o' c' may clean four wrong later same early =
      let at_last = run_locks_from_clean o c rest s u may clean four wrong later in
      login_locked p o' (login_all p ((o, c) ∷ rest) s) at_last.user email c' _ same at_last.may
        (ground (arith, at_last.locked))
