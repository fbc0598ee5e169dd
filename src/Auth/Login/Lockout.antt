-- ===== src/Auth/Login/Lockout.antt =====
-- The lockout over any sequence of logins: the counter never passes the threshold, and a lock
-- outlasts the window in which it arose.

use nest_rest_backend_templa.Prelude.{
  ℕ, ◌+◌, ◌≤◌, ◌<◌, String, ◌≡◌, ◌⊎◌, Option, none, some, true, List, [], ◌∷◌, arith, All,
  Bool-cases, Option-cases, inl, inr, any,
}
use nest_rest_backend_templa.Sql.{join_first}
use nest_rest_backend_templa.Sql.Laws.{All-update_where, join_first-All}
use nest_rest_backend_templa.Auth.Platform.{Platform}
use nest_rest_backend_templa.Auth.Entities.{AuthUser, LoginCommand}
use nest_rest_backend_templa.Auth.Store.{
  AuthStore, UserRow, id_is, email_is, has_role, user_by_email, set_payload,
}
use nest_rest_backend_templa.Auth.Store.Lookup.{with_update, any-user_by_email}
use nest_rest_backend_templa.Auth.PasswordService.{verify_password, needs_rehash}
use nest_rest_backend_templa.Auth.TokenIssuer.{present}
use nest_rest_backend_templa.Auth.Login.{
  LoginOutside, lock_attempt_threshold, failed_login_window_ms, lock_in_force,
  resolve_failed_login_window_start, count_failure, lock_until, has_failures, check_user,
  check_lock, check_password, login, admit, reject_invalid_credentials,
}
use nest_rest_backend_templa.Auth.Login.Steps.{
  failure_payload, clear_payload, rehash_payload, cleared, migrated,
  reject_invalid_credentials-SameAccounts, admit-eq,
}

abbrev pub OutlastsWindow : (window until : Option ℕ) → Type 0
OutlastsWindow (some started) (some until) = started + failed_login_window_ms < until
OutlastsWindow _ _ = ⊥

abbrev pub StartedBy : (now : ℕ) (window : Option ℕ) → Type 0
StartedBy now none = Unit
StartedBy now (some started) = started ≤ now

-- The window began in the past; and the counter is below the threshold, or at it with a lock that
-- lasts longer than the window.
abbrev pub IsSound : (now attempts : ℕ) (window until : Option ℕ) → Type 0
IsSound now attempts window until =
    StartedBy now window
    × ((attempts < lock_attempt_threshold)
        ⊎ ((attempts ≡ lock_attempt_threshold) × OutlastsWindow window until))

abbrev pub IsSoundRow : ℕ → UserRow → Type 0
IsSoundRow now r =
    IsSound now r.failed_login_attempts r.failed_login_window_started_at r.locked_until

abbrev pub IsSoundUser : ℕ → AuthUser → Type 0
IsSoundUser now u =
    IsSound now u.failed_login_attempts u.failed_login_window_started_at u.locked_until

IsSound-later :
    (now later attempts : ℕ) (window until : Option ℕ)
    → now ≤ later
    → IsSound now attempts window until
    → IsSound later attempts window until
IsSound-later now later attempts window until h k = ground arith

-- The counter after a failure, however the old one stood, if no lock was in force.
count_failure-IsSound :
    (now : ℕ) (o : LoginOutside) (u : AuthUser)
    → now ≤ o.checked_at
    → o.checked_at ≤ o.failed_at
    → lock_in_force u.locked_until o.checked_at ≡ none
    → IsSoundUser now u
    → IsSound o.failed_at
        (count_failure u o.failed_at)
        (some (resolve_failed_login_window_start u.failed_login_window_started_at o.failed_at))
        (lock_until o (count_failure u o.failed_at))
unfolding count_failure
count_failure-IsSound now o u past order free h = ground arith

abbrev pub AllSound : ℕ → AuthStore → Type 0
AllSound now s = All (IsSoundRow now) s.users

user_by_email-IsSound :
    (now : ℕ) (email : String) (s : AuthStore) (u : AuthUser)
    → user_by_email email s ≡ some u
    → AllSound now s
    → IsSoundUser now u
unfolding user_by_email
user_by_email-IsSound now email s u e h =
    elim (Option-cases (join_first (email_is email) has_role s.users s.roles)) [
      | inl missing ↦ cc (missing)
      | inr ((r, role), found) ↦
          let sound : IsSoundRow now r =
            join_first-All (IsSoundRow now) has_role s.roles (email_is email) s.users r role found
              h in
          ground arith
    ]

AllSound-later :
    (now later : ℕ) (rows : List UserRow)
    → now ≤ later
    → All (IsSoundRow now) rows
    → All (IsSoundRow later) rows
AllSound-later now later [] h k = tt
AllSound-later now later (r ∷ rows) h (here, rest) =
    (IsSound-later now later _ _ _ h here, AllSound-later now later rows h rest)

-- A write that gives all three columns of the lockout, or none of them.
module _ (now : ℕ) (id : String) (s : AuthStore) (h : AllSound now s) where
  clear-AllSound : AllSound now (with_update id clear_payload s)
  clear-AllSound =
      All-update_where (IsSoundRow now) (id_is id) (set_payload clear_payload) s.users
        (λ r old e. ground arith) h

  rehash-AllSound :
      (p : Platform) (o : LoginOutside) (password : String)
      → AllSound now (with_update id (rehash_payload p o password) s)
  rehash-AllSound p o password =
      All-update_where (IsSoundRow now) (id_is id) (set_payload (rehash_payload p o password))
        s.users (λ r old e. old) h

  failure-AllSound :
      (o : LoginOutside) (u : AuthUser)
      → now ≤ o.checked_at
      → o.checked_at ≤ o.failed_at
      → lock_in_force u.locked_until o.checked_at ≡ none
      → IsSoundUser now u
      → AllSound o.failed_at (with_update id (failure_payload o u) s)
  failure-AllSound o u past order free sound =
      All-update_where (IsSoundRow o.failed_at) (id_is id) (set_payload (failure_payload o u))
        s.users (λ r old e. count_failure-IsSound now o u past order free sound)
        (AllSound-later now o.failed_at s.users (omega arith) h)

module _ (p : Platform) (o : LoginOutside) (c : LoginCommand) (now : ℕ) (past : now ≤ o.checked_at)
    (order : o.checked_at ≤ o.failed_at) where
  reject-AllSound :
      (u : AuthUser) (s : AuthStore)
      → any (id_is u.id) s.users ≡ true
      → lock_in_force u.locked_until o.checked_at ≡ none
      → IsSoundUser now u
      → AllSound now s
      → AllSound o.failed_at (reject_invalid_credentials p o u s).1
  reject-AllSound u s there free sound h =
      let same = reject_invalid_credentials-SameAccounts p o u s there in
      rw same.users (failure-AllSound now u.id s h o u past order free sound)

  migrated-AllSound :
      (u : AuthUser) (stored : String) (s : AuthStore)
      → AllSound now s
      → AllSound now (migrated p o u stored c.password s)
  migrated-AllSound u stored s h = elim (Bool-cases (needs_rehash p stored)) [
    | inl old ↦ rw old (rehash-AllSound now u.id s h p o c.password)
    | inr new ↦ rw new h
  ]

  cleared-AllSound : (u : AuthUser) (s : AuthStore) → AllSound now s → AllSound now (cleared u s)
  cleared-AllSound u s h = elim (Bool-cases (has_failures u)) [
    | inl dirty ↦ rw dirty (clear-AllSound now u.id s h)
    | inr clean ↦ rw clean h
  ]

  admit-AllSound :
      (u : AuthUser) (stored : String) (s : AuthStore)
      → any (id_is u.id) s.users ≡ true
      → AllSound now s
      → AllSound o.failed_at (admit p o u stored c s).1
  admit-AllSound u stored s there h = rw (admit-eq p o u stored c s there) (
      AllSound-later now o.failed_at (cleared u (migrated p o u stored c.password s)).users
        (omega arith) (cleared-AllSound u _ (migrated-AllSound u stored s h)))

  check_password-AllSound :
      (u : AuthUser) (w : Option String) (s : AuthStore)
      → user_by_email c.email s ≡ some u
      → lock_in_force u.locked_until o.checked_at ≡ none
      → AllSound now s
      → AllSound o.failed_at (check_password p o u w c s).1
  unfolding check_password
  check_password-AllSound u none s found free h =
      reject-AllSound u s (any-user_by_email c.email s u found) free
        (user_by_email-IsSound now c.email s u found h) h
  check_password-AllSound u (some stored) s found free h =
      let there = any-user_by_email c.email s u found in
      elim (Bool-cases (verify_password p stored c.password)) [
        | inl good ↦ rw good (admit-AllSound u stored s there h)
        | inr bad ↦
            rw bad
              (reject-AllSound u s there free (user_by_email-IsSound now c.email s u found h) h)
      ]

  -- A login keeps every account's lockout sound, whatever it answers.
  pub login-AllSound : (s : AuthStore) → AllSound now s → AllSound o.failed_at (login p o c s).1
  unfolding login check_user check_lock
  login-AllSound s h =
      let same : AllSound o.failed_at s = AllSound-later now o.failed_at s.users (omega arith) h in
      elim (Option-cases (user_by_email c.email s)) [
        | inl missing ↦ rw missing same
        | inr (u, found) ↦ elim (Bool-cases u.verified) [
          | inr nope ↦ simp (found, nope) same
          | inl yep ↦ elim (Bool-cases u.blocked) [
            | inl shut ↦ simp (found, yep, shut) same
            | inr open_ ↦ elim (Option-cases (lock_in_force u.locked_until o.checked_at)) [
              | inr (until, locked) ↦ simp (found, yep, open_, locked) same
              | inl free ↦
                  simp (found, yep, open_, free)
                    (check_password-AllSound u (present u.password) s found free h)
            ]
          ]
        ]
      ]

-- A run of logins, each with what it read from outside.
unfoldable pub login_all : Platform → List (LoginOutside × LoginCommand) → AuthStore → AuthStore
login_all p [] s = s
login_all p ((o, c) ∷ rest) s = login_all p rest (login p o c s).1

-- The clock does not run backwards, within a login and from one to the next.
abbrev pub IsChronological : ℕ → List (LoginOutside × LoginCommand) → Type 0
IsChronological now [] = Unit
IsChronological now ((o, c) ∷ rest) =
    (now ≤ o.checked_at) × (o.checked_at ≤ o.failed_at) × IsChronological o.failed_at rest

abbrev pub end_of : ℕ → List (LoginOutside × LoginCommand) → ℕ
end_of now [] = now
end_of now ((o, c) ∷ rest) = end_of o.failed_at rest

-- If at the start no account has counted more than five failures, every account that has counted
-- five is locked until after the end of its window, and no window began in the future, then this
-- holds again after any logins in chronological order.
pub login_all-AllSound :
    (p : Platform) (now : ℕ) (runs : List (LoginOutside × LoginCommand)) (s : AuthStore)
    → IsChronological now runs
    → AllSound now s
    → AllSound (end_of now runs) (login_all p runs s)
unfolding login_all
login_all-AllSound p now [] s t h = h
login_all-AllSound p now ((o, c) ∷ rest) s (past, order, t) h =
    login_all-AllSound p o.failed_at rest (login p o c s).1 t
      (login-AllSound p o c now past order s h)
