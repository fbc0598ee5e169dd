-- ===== src/Auth/RefreshTokens/Sessions.antt =====
-- The sessions that the table `refresh` holds, and what the handlers do to them.
use mathlib.Core.Option
use nest_rest_backend_templa.Prelude.{
  ℕ, String, ◌≡◌, ◌≢◌, refl, some, Bool, true, false, any, ◌==◌, string_eq, ==_refl, eq_iff, arith,
  List, [], ◌∷◌, All, Bool-cases, Option-cases, inl, inr,
}
use nest_rest_backend_templa.Exec.{ok}
use nest_rest_backend_templa.Sql.{update_where, select_first, select_where, touch}
use nest_rest_backend_templa.Sql.Laws.{select_first-update, select_first-append}
use nest_rest_backend_templa.Auth.Platform.{Platform, ValidateJwt}
use nest_rest_backend_templa.Auth.Entities.{
  RefreshTokenRecord, RefreshTokensCommand, RefreshTokensResponse, token_revoked,
}
use nest_rest_backend_templa.Auth.Store.{
  AuthStore, RefreshRow, refresh_by_token, revoke, token_is, to_refresh_token, live_token_is,
}
use nest_rest_backend_templa.Auth.TokenIssuer.{validate_refresh_token}
use nest_rest_backend_templa.Auth.RefreshTokens.{
  RefreshOutside, refused, check_token, check_credentials, refresh_tokens, logout,
}
use nest_rest_backend_templa.Auth.RefreshTokens.Outcome.{
  CanRefresh, refresh_of_CanRefresh, refresh_tokens_iff, with_rotation,
}

abbrev pub user_is : String → RefreshRow → Bool
user_is user_id r = r.user_id == user_id

-- Every row of the user is revoked.
abbrev pub HasNoSession : String → AuthStore → Type 0
HasNoSession user_id s = All (λ r. user_is user_id r ≡ true → r.is_revoked ≡ true) s.refresh

-- The rows of a user.
abbrev pub sessions_of : String → AuthStore → List RefreshRow
sessions_of user_id s = select_where (user_is user_id) s.refresh

abbrev pub all_revoked : String → List RefreshRow → List RefreshRow
all_revoked user_id rows = update_where (user_is user_id) revoke rows

pub all_revoked-All :
    (user_id : String) (rows : List RefreshRow)
    → All (λ r. user_is user_id r ≡ true → r.is_revoked ≡ true) (all_revoked user_id rows)
unfolding update_where
all_revoked-All user_id [] = tt
all_revoked-All user_id (r ∷ rows) = elim (Bool-cases (user_is user_id r)) [
  | inl yep ↦ rw yep (λ e. refl, all_revoked-All user_id rows)
  | inr nope ↦ rw nope (λ e. cc, all_revoked-All user_id rows)
]

pub all_revoked-others :
    (user_id other : String) (rows : List RefreshRow)
    → other ≢ user_id
    → select_where (user_is other) (all_revoked user_id rows) ≡ select_where (user_is other) rows
unfolding update_where select_where
all_revoked-others user_id other [] h = refl
all_revoked-others user_id other (r ∷ rows) h = ground (
  arith,
  all_revoked-others user_id other rows h,
  eq_iff r.user_id user_id,
  eq_iff r.user_id other,
)

module _ (p : Platform) (o : RefreshOutside) (c : RefreshTokensCommand) (s : AuthStore) where
  reuse_reply :
      (credentials : ValidateJwt) (token : RefreshTokenRecord)
      → validate_refresh_token p o.verified_at c.refresh_token ≡ some credentials
      → refresh_by_token c.refresh_token s ≡ some token
      → token.is_revoked ≡ true
      → ((refresh_tokens p o c s).0 ≡ ok (refused token_revoked))
        × HasNoSession credentials.user_id (refresh_tokens p o c s).1
  unfolding refresh_tokens check_credentials check_token
  reuse_reply credentials token valid found dead =
      simp (valid, found, dead) (refl, all_revoked-All credentials.user_id s.refresh)

  -- Presenting a revoked token (with a valid signature) is answered as such, and afterwards no row
  -- of the user that it names is live, while the rows of every other user are as before.
  pub reuse_revokes_all :
      (credentials : ValidateJwt) (token : RefreshTokenRecord) (other : String)
      → other ≢ credentials.user_id
      → validate_refresh_token p o.verified_at c.refresh_token ≡ some credentials
      → refresh_by_token c.refresh_token s ≡ some token
      → token.is_revoked ≡ true
      → ((refresh_tokens p o c s).0 ≡ ok (refused token_revoked))
        × HasNoSession credentials.user_id (refresh_tokens p o c s).1
        × (sessions_of other (refresh_tokens p o c s).1 ≡ sessions_of other s)
  unfolding refresh_tokens check_credentials check_token
  reuse_revokes_all credentials token other h valid found dead =
      simp (valid, found, dead)
        (
          refl,
          all_revoked-All credentials.user_id s.refresh,
          all_revoked-others credentials.user_id other s.refresh h,
        )

  keeps_token :
      (id token : String) (r : RefreshRow)
      → token_is token (touch (λ r. r.id == id) revoke r) ≡ token_is token r
  keeps_token id token r = ground arith

  -- After a rotation the presented token's row is found revoked.
  rotated_away :
      (h : CanRefresh p o c s)
      → (t : RefreshTokenRecord) × (refresh_by_token c.refresh_token
            (with_rotation p o c h.token h.user s)
          ≡ some t)
        × (t.is_revoked ≡ true)
  unfolding refresh_by_token
  rotated_away h = elim (Option-cases (select_first (token_is c.refresh_token) s.refresh)) [
    | inl missing ↦ absurd (ground (arith, h.found, missing))
    | inr (r, found) ↦
        let same : r.id ≡ h.token.id = ground (arith, h.found, found) in
        let hit : (r.id == h.token.id) ≡ true = rw same (==_refl h.token.id) in
        (
          to_refresh_token (revoke r),
          simp (
            select_first-append,
            select_first-update (token_is c.refresh_token) (λ r. r.id == h.token.id) revoke
                s.refresh (keeps_token h.token.id c.refresh_token),
            found,
            hit,
          ),
          refl,
        )
  ]

-- A refresh token is good for one use: presented again after a rotation, with a signature that
-- still verifies, it is answered as revoked, and every session of the user that it names is
-- revoked.
pub refresh_twice_revokes_all :
    (p : Platform) (o : RefreshOutside) (c : RefreshTokensCommand) (s : AuthStore)
    (o' : RefreshOutside) (c' : RefreshTokensCommand) (credentials : ValidateJwt)
    → CanRefresh p o c s
    → c'.refresh_token ≡ c.refresh_token
    → validate_refresh_token p o'.verified_at c'.refresh_token ≡ some credentials
    → ((refresh_tokens p o' c' (refresh_tokens p o c s).1).0 ≡ ok (refused token_revoked))
      × HasNoSession credentials.user_id (refresh_tokens p o' c' (refresh_tokens p o c s).1).1
refresh_twice_revokes_all p o c s o' c' credentials h same valid =
    let (t, found, dead) = rotated_away p o c s h in
    let after = with_rotation p o c h.token h.user s in
    let found' : refresh_by_token c'.refresh_token after ≡ some t = rw same found in
    let (reply, none_left) = reuse_reply p o' c' after credentials t valid found' dead in
    rw (refresh_of_CanRefresh p o c s h) (reply, none_left)

-- LOGOUT
logged_out :
    (token : String) (rows : List RefreshRow) (r : RefreshRow)
    → select_first (token_is token) (update_where (live_token_is token) revoke rows) ≡ some r
    → r.is_revoked ≡ true
unfolding select_first update_where
logged_out token [] r e = cc
logged_out token (x ∷ rows) r e = ground (arith, logged_out token rows r)

live_row :
    (token : String) (rows : List RefreshRow) (t : RefreshTokenRecord)
    → Option.map to_refresh_token
        (select_first (token_is token) (update_where (live_token_is token) revoke rows))
      ≡ some t
    → t.is_revoked ≡ true
live_row token rows t e =
    elim (Option-cases
      (select_first (token_is token) (update_where (live_token_is token) revoke rows))) [
        | inl missing ↦ absurd (ground (arith, e, missing))
        | inr (r, found) ↦ ground (arith, e, found, logged_out token rows r found)
      ]

not_allowed :
    (p : Platform) (o : RefreshOutside) (c : RefreshTokensCommand) (s : AuthStore)
    → ¬ CanRefresh p o c s
    → (r : RefreshTokensResponse) × ((refresh_tokens p o c s).0 ≡ ok r) × (r.success ≡ false)
not_allowed p o c s h =
    let (r, reply, allowed) = refresh_tokens_iff p o c s in
    (
      r,
      reply,
      elim (Bool-cases r.success) [ inl yep ↦ absurd (h (allowed.0 yep)) | inr nope ↦ nope ],
    )

-- A logout with a valid token succeeds exactly when the token had a live row, and afterwards a
-- refresh with that token is answered without success, whatever it reads from outside.
pub logout_ends_session :
    (p : Platform) (at : ℕ) (token : String) (credentials : ValidateJwt) (s : AuthStore)
    (o : RefreshOutside) (c : RefreshTokensCommand)
    → validate_refresh_token p at token ≡ some credentials
    → c.refresh_token ≡ token
    → ((logout p at token s).0 ≡ ok (record { success = any (live_token_is token) s.refresh }))
      × ((r : RefreshTokensResponse) × ((refresh_tokens p o c (logout p at token s).1).0 ≡ ok r)
          × (r.success ≡ false))
unfolding logout refresh_by_token
logout_ends_session p at token credentials s o c valid same = (
  simp valid,
  not_allowed p o c _ λ h.
      let found : _ = h.found in
      absurd
        (ground (arith, h.live, live_row token s.refresh h.token (simp (valid, same) at found))),
)
