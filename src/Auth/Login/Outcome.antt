-- ===== src/Auth/Login/Outcome.antt =====
-- When a login succeeds, and what it leaves behind.
use mathlib.Core.Bool.{false≢true}
use nest_rest_backend_templa.Prelude.{
  ℕ, ◌≤◌, String, ◌≡◌, ◌≢◌, ◌↔◌, refl, sym, ◌∙◌, ap, Option, none, some, Bool, true, false, arith,
  leb, Bool-cases, inl, inr, eq_iff,
}
use nest_rest_backend_templa.Exec.{Result, ok, throw}
use nest_rest_backend_templa.Auth.Platform.{Platform}
use nest_rest_backend_templa.Auth.Entities.{
  AuthUser, LoginCommand, LoginResponse, invalid_credentials, not_verified, blocked,
}
use nest_rest_backend_templa.Auth.Store.{AuthStore, user_by_email}
use nest_rest_backend_templa.Auth.Store.Lookup.{any-user_by_email}
use nest_rest_backend_templa.Auth.PasswordService.{verify_password}
use nest_rest_backend_templa.Auth.TokenIssuer.{present}
use nest_rest_backend_templa.Auth.Login.{
  LoginOutside, rejected, lock_in_force, check_user, check_lock, check_password, login,
  captcha_attempt_threshold, count_failure,
}
use nest_rest_backend_templa.Auth.Login.Steps.{
  reject_invalid_credentials-reply, admit-eq, success_response, new_session, with_session, cleared,
  migrated,
}

pub record CanLogin (p : Platform) (o : LoginOutside) (c : LoginCommand) (s : AuthStore)
    : Type 0 where
  pub user : AuthUser
  pub stored : String
  pub found : user_by_email c.email s ≡ some user
  pub verified : user.verified ≡ true
  pub not_blocked : user.blocked ≡ false
  pub unlocked : (until : ℕ) → user.locked_until ≡ some until → until ≤ o.checked_at
  pub has_password : user.password ≡ some stored
  pub not_empty : stored ≢ ""
  pub matches : verify_password p stored c.password ≡ true

unlocked_of :
    (l : Option ℕ) (now : ℕ)
    → lock_in_force l now ≡ none
    → (until : ℕ) → l ≡ some until
    → until ≤ now
unlocked_of l now h until e = ground arith

not_in_force :
    (l : Option ℕ) (now : ℕ)
    → ((until : ℕ) → l ≡ some until → until ≤ now)
    → lock_in_force l now ≡ none
not_in_force none now h = refl
not_in_force (some until) now h = ground (arith, h until refl)

present-eq-some :
    (w : Option String) (stored : String)
    → present w ≡ some stored
    → (w ≡ some stored) × (stored ≢ "")
present-eq-some w stored e = ground (arith, eq_iff stored "")

present_of :
    (w : Option String) (stored : String) → w ≡ some stored → stored ≢ "" → present w ≡ some stored
present_of w stored e h = ground (arith, eq_iff stored "")

impossible : {A : Type 0} → false ≡ true → A
impossible e = absurd (false≢true e)

abbrev is_success : Result LoginResponse → Bool
is_success (ok r) = r.success
is_success (throw t) = false

abbrev reply_of : Result LoginResponse × AuthStore → Result LoginResponse
reply_of (r, s) = r

module _ (p : Platform) (o : LoginOutside) (c : LoginCommand) (s : AuthStore) where
  -- A login that is allowed answers with the tokens and adds one session, after the hash was
  -- renewed and the failures were cleared where that is needed.
  pub login_of_CanLogin :
      (h : CanLogin p o c s)
      → login p o c s ≡ (
        ok (success_response p o h.user),
        with_session
            (new_session p o h.user c)
            (cleared h.user (migrated p o h.user h.stored c.password s)),
      )
  unfolding login check_user check_lock check_password
  login_of_CanLogin h =
      simp
        (
          h.found,
          h.verified,
          h.not_blocked,
          not_in_force _ _ h.unlocked,
          present_of _ _ h.has_password h.not_empty,
          h.matches,
        )
        (admit-eq p o h.user h.stored c s (any-user_by_email c.email s h.user h.found))

  -- The steps of a login with what each has established.
  checked_password :
      (user : AuthUser) (w : Option String)
      → user_by_email c.email s ≡ some user
      → user.verified ≡ true
      → user.blocked ≡ false
      → lock_in_force user.locked_until o.checked_at ≡ none
      → present user.password ≡ w
      → (r : LoginResponse) × ((check_password p o user w c s).0 ≡ ok r)
        × (r.success ≡ true → CanLogin p o c s)
  unfolding check_password
  checked_password user none found v b l e = (
    _,
    reject_invalid_credentials-reply p o user s (any-user_by_email c.email s user found),
    impossible,
  )
  checked_password user (some stored) found v b l e =
      elim (Bool-cases (verify_password p stored c.password)) [
        | inl good ↦ (
          success_response p o user,
          rw good
              (ap reply_of (admit-eq p o user stored c s (any-user_by_email c.email s user found))),
          λ x. record {
            user = user;
            stored = stored;
            found = found;
            verified = v;
            not_blocked = b;
            unlocked = unlocked_of user.locked_until o.checked_at l;
            has_password = (present-eq-some user.password stored e).0;
            not_empty = (present-eq-some user.password stored e).1;
            matches = good;
          },
        )
        | inr bad ↦ (
          rejected invalid_credentials ""
              (leb captcha_attempt_threshold (count_failure user o.failed_at)),
          rw bad (
              reject_invalid_credentials-reply p o user s (any-user_by_email c.email s user found)),
          impossible,
        )
      ]

  checked_lock :
      (user : AuthUser) (l : Option ℕ)
      → user_by_email c.email s ≡ some user
      → user.verified ≡ true
      → user.blocked ≡ false
      → lock_in_force user.locked_until o.checked_at ≡ l
      → (r : LoginResponse) × ((check_lock p o user l c s).0 ≡ ok r)
        × (r.success ≡ true → CanLogin p o c s)
  unfolding check_lock
  checked_lock user none found v b e =
      checked_password user (present user.password) found v b e refl
  checked_lock user (some until) found v b e = (_, refl, impossible)

  checked_user :
      (w : Option AuthUser)
      → user_by_email c.email s ≡ w
      → (r : LoginResponse) × ((check_user p o w c s).0 ≡ ok r)
        × (r.success ≡ true → CanLogin p o c s)
  unfolding check_user
  checked_user none e = (_, refl, impossible)
  checked_user (some user) e = elim (Bool-cases user.verified) [
    | inr nope ↦ (rejected not_verified "" false, simp nope, impossible)
    | inl yep ↦ elim (Bool-cases user.blocked) [
      | inl shut ↦ (rejected blocked "" false, simp (yep, shut), impossible)
      | inr free ↦
          let (r, reply, can) =
            checked_lock user (lock_in_force user.locked_until o.checked_at) e yep free refl in
          (r, simp (yep, free) reply, can)
    ]
  ]

  -- A login never throws, and it succeeds exactly when it is allowed: the account exists, is
  -- verified, not blocked and not locked at that instant, and has a password that the given one
  -- verifies against.
  pub login_iff :
      (r : LoginResponse) × ((login p o c s).0 ≡ ok r) × ((r.success ≡ true) ↔ CanLogin p o c s)
  unfolding login
  login_iff =
      let (r, reply, can) = checked_user (user_by_email c.email s) refl in
      (r, reply, (can, λ h. ap is_success (sym reply ∙ ap reply_of (login_of_CanLogin h))))
