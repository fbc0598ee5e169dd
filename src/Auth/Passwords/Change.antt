-- ===== src/Auth/Passwords/Change.antt =====
-- Changing a password while logged in.
use mathlib.Core.Bool.{false≢true}
use nest_rest_backend_templa.Prelude.{
  ℕ, ◌≤◌, String, ◌≡◌, ◌↔◌, refl, sym, ap, ◌∙◌, Option, none, some, Bool, true, false, ltb, le→ltb,
  arith, Bool-cases, inl, inr,
}
use nest_rest_backend_templa.Exec.{ok, throw, Result}
use nest_rest_backend_templa.Sql.{update_where}
use nest_rest_backend_templa.Auth.Platform.{Platform}
use nest_rest_backend_templa.Auth.Entities.{
  AuthUser, ChangePasswordCommand, ChangePasswordResponse, ChangePasswordFailureReason,
  current_password_invalid,
}
use nest_rest_backend_templa.Auth.Store.{AuthStore, UpdatePayload, nothing, user_by_id, revoke}
use nest_rest_backend_templa.Auth.Store.Lookup.{update_user-eq, with_update, any-user_by_id}
use nest_rest_backend_templa.Auth.PasswordService.{hash_password, verify_password, length}
use nest_rest_backend_templa.Auth.TokenIssuer.{present}
use nest_rest_backend_templa.Auth.RefreshTokens.Sessions.{HasNoSession, all_revoked-All, user_is}
use nest_rest_backend_templa.Auth.Passwords.{
  min_password_length, change_refused, set_new_password, check_current, check_account,
  change_password,
}

pub record CanChange (p : Platform) (c : ChangePasswordCommand) (s : AuthStore) : Type 0 where
  pub user : AuthUser
  pub stored : String
  pub long_enough : min_password_length ≤ length c.new_password
  pub found : user_by_id c.user_id s ≡ some user
  pub has_password : present user.password ≡ some stored
  pub matches : verify_password p stored c.current_password ≡ true

impossible : {A : Type 0} → false ≡ true → A
impossible e = absurd (false≢true e)

abbrev reply_of : Result ChangePasswordResponse × AuthStore → Result ChangePasswordResponse
reply_of (r, s) = r

abbrev is_success : Result ChangePasswordResponse → Bool
is_success (ok r) = r.success
is_success (throw t) = false

long_of : (n : ℕ) → ltb n min_password_length ≡ false → min_password_length ≤ n
long_of n h = ground arith

module _ (p : Platform) (salt : String) (c : ChangePasswordCommand) where
  abbrev pub changed_to : UpdatePayload
  changed_to = record nothing { password = some (some (hash_password p salt c.new_password)) }

  abbrev pub after_change : AuthStore → AuthStore
  after_change s = record (with_update c.user_id changed_to s) {
    refresh = update_where (user_is c.user_id) revoke s.refresh;
  }

  abbrev Answers : AuthStore → Result ChangePasswordResponse × AuthStore → Type 0
  Answers s m = (r : ChangePasswordResponse) × (m.0 ≡ ok r) × (r.success ≡ true → CanChange p c s)

  module _ (s : AuthStore) where
    -- A change that is allowed stores the hash of the new password, revokes every session of the
    -- user and changes nothing else.
    pub change_of_CanChange :
        CanChange p c s
        → change_password p salt c s
          ≡ (ok (record { success = true; failure_reason = none }), after_change s)
    unfolding change_password check_account check_current set_new_password
    change_of_CanChange h = simp (
      le→ltb _ _ h.long_enough,
      h.found,
      h.has_password,
      h.matches,
      update_user-eq c.user_id changed_to s (any-user_by_id c.user_id s h.user h.found),
    )

    checked_current :
        (user : AuthUser) (w : Option String)
        → min_password_length ≤ length c.new_password
        → user_by_id c.user_id s ≡ some user
        → present user.password ≡ w
        → Answers s (check_current p salt c w s)
    unfolding check_current set_new_password
    checked_current user none long found e = (_, refl, impossible)
    checked_current user (some stored) long found e =
        elim (Bool-cases (verify_password p stored c.current_password)) [
          | inr bad ↦ (change_refused current_password_invalid, simp bad, impossible)
          | inl good ↦ (
            record { success = true; failure_reason = none },
            simp (
              good,
              update_user-eq c.user_id changed_to s (any-user_by_id c.user_id s user found),
            ),
            λ x. record {
              user = user;
              stored = stored;
              long_enough = long;
              found = found;
              has_password = e;
              matches = good;
            },
          )
        ]

    checked_account :
        (w : Option AuthUser)
        → min_password_length ≤ length c.new_password
        → user_by_id c.user_id s ≡ w
        → Answers s (check_account p salt c w s)
    unfolding check_account
    checked_account none long e = (_, refl, impossible)
    checked_account (some user) long e = checked_current user (present user.password) long e refl

    -- A change never throws, and succeeds exactly when it is allowed: the new password has twelve
    -- UTF-16 units or more, and the account exists and has a password that the current one
    -- verifies against.
    pub change_password_iff :
        (r : ChangePasswordResponse) × ((change_password p salt c s).0 ≡ ok r)
        × ((r.success ≡ true) ↔ CanChange p c s)
    unfolding change_password
    change_password_iff =
        let (r, reply, can) = checked in
        (r, reply, (can, λ h. ap is_success (sym reply ∙ ap reply_of (change_of_CanChange h))))
      where
        checked : Answers s (change_password p salt c s)
        checked = elim (Bool-cases (ltb (length c.new_password) min_password_length)) [
          | inl short ↦
              (change_refused ChangePasswordFailureReason.weak_password, simp short, impossible)
          | inr long ↦
              let (r, reply, can) =
                checked_account (user_by_id c.user_id s) (long_of _ long) refl in
              (r, simp long reply, can)
        ]

    -- After a change that is allowed the user has no session left.
    pub change_password-HasNoSession :
        CanChange p c s → HasNoSession c.user_id (change_password p salt c s).1
    change_password-HasNoSession h =
        rw (change_of_CanChange h) (all_revoked-All c.user_id s.refresh)
