-- ===== src/Auth/RefreshTokens/Outcome.antt =====
-- When a refresh succeeds, and what it writes.
use mathlib.Core.Bool.{false≢true}
use nest_rest_backend_templa.Prelude.{
  ℕ, ◌+◌, ◌≤◌, ◌≡◌, ◌↔◌, refl, sym, ap, ◌∙◌, Option, none, some, Bool, true, false, ltb, ◌==◌,
  string_eq, arith, Bool-cases, inl, inr,
}
use nest_rest_backend_templa.Exec.{Result, ok, throw}
use nest_rest_backend_templa.Sql.{update_where, insert}
use nest_rest_backend_templa.Auth.Platform.{Platform, ValidateJwt}
use nest_rest_backend_templa.Auth.Entities.{
  AuthUser, RefreshTokenRecord, RefreshTokensCommand, RefreshTokensResponse, token_revoked,
  token_expired, RefreshTokensFailureReason,
}
use nest_rest_backend_templa.Auth.Store.{
  AuthStore, RefreshRow, user_by_id, refresh_by_token, revoke,
}
use nest_rest_backend_templa.Auth.TokenIssuer.{validate_refresh_token}
use nest_rest_backend_templa.Auth.Login.{jwt_of, or_unknown}
use nest_rest_backend_templa.Auth.RefreshTokens.{
  RefreshOutside, refused, rotated, rotate, check_owner, check_token, check_credentials,
  refresh_tokens,
}

pub record CanRefresh (p : Platform) (o : RefreshOutside) (c : RefreshTokensCommand) (s : AuthStore)
    : Type 0 where
  pub credentials : ValidateJwt
  pub token : RefreshTokenRecord
  pub user : AuthUser
  pub valid : validate_refresh_token p o.verified_at c.refresh_token ≡ some credentials
  pub found : refresh_by_token c.refresh_token s ≡ some token
  pub live : token.is_revoked ≡ false
  pub fresh : o.checked_at ≤ token.expires_at
  pub account : user_by_id credentials.user_id s ≡ some user
  pub verified : user.verified ≡ true
  pub not_blocked : user.blocked ≡ false

not_expired : (expires now : ℕ) → now ≤ expires → ltb expires now ≡ false
not_expired expires now h = ground arith

of_not_expired : (expires now : ℕ) → ltb expires now ≡ false → now ≤ expires
of_not_expired expires now h = ground arith

impossible : {A : Type 0} → false ≡ true → A
impossible e = absurd (false≢true e)

abbrev is_success : Result RefreshTokensResponse → Bool
is_success (ok r) = r.success
is_success (throw t) = false

abbrev reply_of : Result RefreshTokensResponse × AuthStore → Result RefreshTokensResponse
reply_of (r, s) = r

module _ (p : Platform) (o : RefreshOutside) (c : RefreshTokensCommand) where
  -- The row that a refresh adds.
  abbrev pub next_session : AuthUser → RefreshRow
  next_session user = record {
    id = o.refresh_id;
    user_id = user.id;
    refresh_token = p.sign_refresh o.signed_at o.jwtid (jwt_of user);
    expires_at = o.stored_at + p.refresh_ttl;
    is_revoked = false;
    fingerprint = or_unknown c.request_ip;
    user_agent = or_unknown c.user_agent;
  }

  abbrev pub next_response : AuthUser → RefreshTokensResponse
  next_response user = rotated p o c (p.sign_access o.signed_at (jwt_of user)) (record {
    token = p.sign_refresh o.signed_at o.jwtid (jwt_of user);
    expires_at = o.stored_at + p.refresh_ttl;
  })

  abbrev pub with_rotation : RefreshTokenRecord → AuthUser → AuthStore → AuthStore
  with_rotation token user s = record s {
    refresh = insert (next_session user) (update_where (λ r. r.id == token.id) revoke s.refresh);
  }

  module _ (s : AuthStore) where
    -- A refresh that is allowed answers with new tokens; the presented token's row is revoked and
    -- one new live row is added, in the same state.
    pub refresh_of_CanRefresh :
        (h : CanRefresh p o c s)
        → refresh_tokens p o c s ≡ (ok (next_response h.user), with_rotation h.token h.user s)
    unfolding refresh_tokens check_credentials check_token check_owner rotate
    refresh_of_CanRefresh h =
        simp
          (h.valid, h.found, h.live, not_expired _ _ h.fresh, h.account, h.verified, h.not_blocked)

    abbrev Answers : Result RefreshTokensResponse × AuthStore → Type 0
    Answers m = (r : RefreshTokensResponse) × (m.0 ≡ ok r) × (r.success ≡ true → CanRefresh p o c s)

    checked_owner :
        (credentials : ValidateJwt) (token : RefreshTokenRecord) (w : Option AuthUser)
        → validate_refresh_token p o.verified_at c.refresh_token ≡ some credentials
        → refresh_by_token c.refresh_token s ≡ some token
        → token.is_revoked ≡ false
        → o.checked_at ≤ token.expires_at
        → user_by_id credentials.user_id s ≡ w
        → Answers (check_owner p o c token w s)
    unfolding check_owner rotate
    checked_owner credentials token none valid found live fresh e = (_, refl, impossible)
    checked_owner credentials token (some user) valid found live fresh e =
        elim (Bool-cases user.verified) [
          | inr nope ↦ (refused RefreshTokensFailureReason.not_verified, simp nope, impossible)
          | inl yep ↦ elim (Bool-cases user.blocked) [
            | inl shut ↦ (refused RefreshTokensFailureReason.blocked, simp (yep, shut), impossible)
            | inr free ↦ (
              next_response user,
              simp (yep, free),
              λ x. record {
                credentials = credentials;
                token = token;
                user = user;
                valid = valid;
                found = found;
                live = live;
                fresh = fresh;
                account = e;
                verified = yep;
                not_blocked = free;
              },
            )
          ]
        ]

    checked_token :
        (credentials : ValidateJwt) (w : Option RefreshTokenRecord)
        → validate_refresh_token p o.verified_at c.refresh_token ≡ some credentials
        → refresh_by_token c.refresh_token s ≡ w
        → Answers (check_token p o c credentials w s)
    unfolding check_token
    checked_token credentials none valid e = (_, refl, impossible)
    checked_token credentials (some token) valid e = elim (Bool-cases token.is_revoked) [
      | inl dead ↦ (refused token_revoked, simp dead, impossible)
      | inr live ↦ elim (Bool-cases (ltb token.expires_at o.checked_at)) [
        | inl old ↦ (refused token_expired, simp (live, old), impossible)
        | inr fresh ↦
            let (r, reply, can) =
              checked_owner credentials token (user_by_id credentials.user_id s) valid e live
                (of_not_expired _ _ fresh) refl in
            (r, simp (live, fresh) reply, can)
      ]
    ]

    checked_credentials :
        (w : Option ValidateJwt)
        → validate_refresh_token p o.verified_at c.refresh_token ≡ w
        → Answers (check_credentials p o c w s)
    unfolding check_credentials
    checked_credentials none e = (_, refl, impossible)
    checked_credentials (some credentials) e =
        checked_token credentials (refresh_by_token c.refresh_token s) e refl

    -- A refresh never throws, and it succeeds exactly when it is allowed: the token's signature
    -- and claims are valid, its row is there, is not revoked and has not expired, and the user
    -- that it names exists, is verified and is not blocked.
    pub refresh_tokens_iff :
        (r : RefreshTokensResponse) × ((refresh_tokens p o c s).0 ≡ ok r)
        × ((r.success ≡ true) ↔ CanRefresh p o c s)
    unfolding refresh_tokens
    refresh_tokens_iff =
        let (r, reply, can) =
          checked_credentials (validate_refresh_token p o.verified_at c.refresh_token) refl in
        (r, reply, (can, λ h. ap is_success (sym reply ∙ ap reply_of (refresh_of_CanRefresh h))))
