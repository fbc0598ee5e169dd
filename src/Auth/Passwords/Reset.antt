-- ===== src/Auth/Passwords/Reset.antt =====
-- Resetting a password with a token that was sent by mail.

use nest_rest_backend_templa.Prelude.{
  ℕ, ◌≤◌, String, ◌≡◌, refl, ap, ◌∙◌, none, some, true, false, any, le→ltb, ◌==◌, string_eq,
  ==_refl, arith, Option-cases, inl, inr,
}
use nest_rest_backend_templa.Exec.{ok, Result}
use nest_rest_backend_templa.Sql.{update_where, select_first, touch}
use nest_rest_backend_templa.Sql.Laws.{select_first-update}
use nest_rest_backend_templa.Auth.Platform.{Platform}
use nest_rest_backend_templa.Auth.Entities.{
  AuthUser, PasswordResetToken, is_valid, ResetPasswordCommand, ResetPasswordResponse,
  token_invalid_or_expired, LoginCommand, LoginResponse,
}
use nest_rest_backend_templa.Auth.Store.{
  AuthStore, UpdatePayload, nothing, id_is, user_by_email, reset_by_token, use_token, revoke,
}
use nest_rest_backend_templa.Auth.Store.Lookup.{
  set_user, update_user-eq, with_update, user_by_email-update,
}
use nest_rest_backend_templa.Auth.PasswordService.{hash_password, length}
use nest_rest_backend_templa.Auth.Login.{LoginOutside, login}
use nest_rest_backend_templa.Auth.Login.Outcome.{login_iff}
use nest_rest_backend_templa.Auth.RefreshTokens.Sessions.{HasNoSession, all_revoked-All, user_is}
use nest_rest_backend_templa.Auth.Passwords.{
  min_password_length, reset_refused, use_reset, check_reset, reset_password,
}
use nest_rest_backend_templa.Auth.Passwords.Hashing.{
  Argon2Laws, verify-hash_password, hash_password-ne-empty,
}

users_only :
    (email : String) (s t : AuthStore)
    → s.users ≡ t.users
    → s.roles ≡ t.roles
    → user_by_email email s ≡ user_by_email email t
unfolding user_by_email
users_only email s t h k = rw (h, k)

-- A reset that is allowed.
pub record CanReset (at : ℕ) (c : ResetPasswordCommand) (s : AuthStore) : Type 0 where
  pub token : PasswordResetToken
  pub long_enough : min_password_length ≤ length c.new_password
  pub found : reset_by_token c.token s ≡ some token
  pub valid : is_valid at token ≡ true
  pub has_user : any (id_is token.user_id) s.users ≡ true

module _ (p : Platform) (salt : String) (at : ℕ) (c : ResetPasswordCommand) where
  abbrev pub new_password : UpdatePayload
  new_password = record nothing { password = some (some (hash_password p salt c.new_password)) }

  abbrev pub after_reset : PasswordResetToken → AuthStore → AuthStore
  after_reset token s =
      let changed = with_update token.user_id new_password s in
      record changed {
        reset_tokens = update_where (λ t. t.id == token.id) use_token s.reset_tokens;
        refresh = update_where (user_is token.user_id) revoke s.refresh;
      }

  module _ (s : AuthStore) (h : CanReset at c s) where
    pub reset_of_CanReset : reset_password p salt at c s ≡ (
      ok (record { success = true; user_id = h.token.user_id; failure_reason = none }),
      after_reset h.token s,
    )
    unfolding reset_password check_reset use_reset
    reset_of_CanReset = simp (
      le→ltb _ _ h.long_enough,
      h.found,
      h.valid,
      update_user-eq h.token.user_id new_password s h.has_user,
    )

    keeps_token :
        (token : String) (t : PasswordResetToken)
        → (touch (λ t. t.id == h.token.id) use_token t).token == token ≡ (t.token == token)
    keeps_token token t = ground arith

    found_after :
        (email : String) (u : AuthUser)
        → user_by_email email s ≡ some u
        → u.id ≡ h.token.user_id
        → user_by_email email (after_reset h.token s) ≡ some (set_user new_password u)
    found_after email u found owner =
        let changed = user_by_email-update h.token.user_id new_password email s in
        let hit : (u.id == h.token.user_id) ≡ true = rw owner (==_refl h.token.user_id) in
        users_only email (after_reset h.token s) (with_update h.token.user_id new_password s) refl
          refl
        ∙ (changed ∙ simp (found, hit))

    used_up :
        (t : PasswordResetToken) × (reset_by_token c.token (after_reset h.token s) ≡ some t)
        × (t.is_used ≡ true)
    unfolding reset_by_token
    used_up = elim (Option-cases (select_first (λ t. t.token == c.token) s.reset_tokens)) [
      | inl missing ↦ absurd (ground (arith, h.found, missing))
      | inr (t, found) ↦
          let same : t.id ≡ h.token.id = ground (arith, h.found, found) in
          let hit : (t.id == h.token.id) ≡ true = rw same (==_refl h.token.id) in
          (
            use_token t,
            simp (
              select_first-update (λ t. t.token == c.token) (λ t. t.id == h.token.id) use_token
                  s.reset_tokens (keeps_token c.token),
              found,
              hit,
            ),
            refl,
          )
    ]

used_is_refused :
    (p : Platform) (salt : String) (at : ℕ) (c : ResetPasswordCommand) (s : AuthStore)
    (t : PasswordResetToken)
    → min_password_length ≤ length c.new_password
    → reset_by_token c.token s ≡ some t
    → t.is_used ≡ true
    → reset_password p salt at c s ≡ (ok (reset_refused token_invalid_or_expired), s)
unfolding reset_password check_reset
used_is_refused p salt at c s t long found used = simp (le→ltb _ _ long, found, used)

abbrev reply_of : Result ResetPasswordResponse × AuthStore → Result ResetPasswordResponse
reply_of (r, s) = r

-- A reset that is allowed succeeds; it revokes every session of the token's owner, and a second
-- reset with the same token is refused, whatever the password (if it is long enough) and the time.
pub reset_once :
    (p : Platform) (salt : String) (at : ℕ) (c : ResetPasswordCommand) (s : AuthStore)
    (salt' : String) (at' : ℕ) (c' : ResetPasswordCommand) (h : CanReset at c s)
    → c'.token ≡ c.token
    → min_password_length ≤ length c'.new_password
    → ((reset_password p salt at c s).0
        ≡ ok (record { success = true; user_id = h.token.user_id; failure_reason = none }))
      × HasNoSession h.token.user_id (reset_password p salt at c s).1
      × ((reset_password p salt' at' c' (reset_password p salt at c s).1).0
          ≡ ok (reset_refused token_invalid_or_expired))
reset_once p salt at c s salt' at' c' h same long =
    let (t, found, used) = used_up p salt at c s h in
    let after = after_reset p salt at c h.token s in
    let again = used_is_refused p salt' at' c' after t long (rw same found) used in
    rw (reset_of_CanReset p salt at c s h)
      (refl, all_revoked-All h.token.user_id s.refresh, ap reply_of again)

-- Where argon2 verifies the hashes that it makes: after a reset that is allowed the owner of the
-- token can log in with the new password, if the account is verified, not blocked and has no lock.
pub reset_then_login :
    (p : Platform) (salt : String) (at : ℕ) (c : ResetPasswordCommand) (s : AuthStore)
    (o : LoginOutside) (l : LoginCommand) (u : AuthUser)
    → Argon2Laws p
    → (h : CanReset at c s) → user_by_email l.email s ≡ some u
    → u.id ≡ h.token.user_id
    → u.verified ≡ true
    → u.blocked ≡ false
    → u.locked_until ≡ none
    → l.password ≡ c.new_password
    → (r : LoginResponse) × ((login p o l (reset_password p salt at c s).1).0 ≡ ok r)
      × (r.success ≡ true)
reset_then_login p salt at c s o l u laws h found owner verified free unlocked same =
    let after = after_reset p salt at c h.token s in
    let found' : user_by_email l.email after ≡ some (set_user (new_password p salt at c) u) =
      found_after p salt at c s h l.email u found owner in
    let (r, reply, allowed) = login_iff p o l after in
    rw (reset_of_CanReset p salt at c s h) (
      r,
      reply,
      allowed.1 (record {
        user = set_user (new_password p salt at c) u;
        stored = hash_password p salt c.new_password;
        found = found';
        verified = verified;
        not_blocked = free;
        unlocked = λ until e. absurd (ground (arith, e, unlocked));
        has_password = refl;
        not_empty = hash_password-ne-empty p laws salt c.new_password;
        matches = rw same (verify-hash_password p laws salt c.new_password);
      }),
    )
