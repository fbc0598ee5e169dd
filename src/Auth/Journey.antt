-- ===== src/Auth/Journey.antt =====
-- A login, then a refresh with the token that the login returned: the two handlers together.

use nest_rest_backend_templa.Prelude.{
  ◌+◌, ◌≤◌, String, ◌≡◌, ◌≢◌, refl, sym, ◌∙◌, none, some, true, false, ◌==◌, string_eq, ==_refl,
  eq_iff, arith, Bool-cases, Option-cases, inl, inr,
}
use nest_rest_backend_templa.Exec.{ok}
use nest_rest_backend_templa.Sql.{select_first}
use nest_rest_backend_templa.Sql.Laws.{select_first-append}
use nest_rest_backend_templa.Auth.Platform.{Platform, JwtPayload, ValidateJwt}
use nest_rest_backend_templa.Auth.Entities.{
  AuthUser, LoginCommand, RefreshTokensCommand, RefreshTokensResponse,
}
use nest_rest_backend_templa.Auth.Store.{
  AuthStore, RefreshRow, UpdatePayload, user_by_id, refresh_by_token, token_is, to_refresh_token,
}
use nest_rest_backend_templa.Auth.Store.Lookup.{with_update, set_user, user_is, user_by_id-update}
use nest_rest_backend_templa.Auth.PasswordService.{needs_rehash}
use nest_rest_backend_templa.Auth.TokenIssuer.{validate_refresh_token}
use nest_rest_backend_templa.Auth.Login.{LoginOutside, login, jwt_of, has_failures}
use nest_rest_backend_templa.Auth.Login.Steps.{
  new_session, with_session, cleared, migrated, clear_payload, rehash_payload,
}
use nest_rest_backend_templa.Auth.Login.Outcome.{CanLogin, login_of_CanLogin}
use nest_rest_backend_templa.Auth.RefreshTokens.{RefreshOutside, refresh_tokens}
use nest_rest_backend_templa.Auth.RefreshTokens.Outcome.{refresh_tokens_iff}

-- The claims that jsonwebtoken puts into a token for these credentials, and gives back.
abbrev pub payload_of : ValidateJwt → JwtPayload
payload_of v = record {
  sub = some v.user_id;
  rid = some v.role_id;
  rty = some v.role_type;
  lng = some v.language;
  tv = v.token_version;
}

-- An account that a refresh accepts.
abbrev IsOpen : String → AuthStore → Type 0
IsOpen id s =
    (u : AuthUser) × (user_by_id id s ≡ some u) × (u.verified ≡ true) × (u.blocked ≡ false)

update-IsOpen :
    (id other : String) (payload : UpdatePayload) (s : AuthStore)
    → IsOpen id s
    → IsOpen id (with_update other payload s)
update-IsOpen id other payload s (u, found, verified, free) = elim (Bool-cases (user_is other u)) [
  | inl hit ↦
      (set_user payload u, user_by_id-update other payload id s ∙ simp (found, hit), verified, free)
  | inr miss ↦ (u, user_by_id-update other payload id s ∙ simp (found, miss), verified, free)
]

migrated-IsOpen :
    (p : Platform) (o : LoginOutside) (id : String) (u : AuthUser) (stored password : String)
    (s : AuthStore)
    → IsOpen id s
    → IsOpen id (migrated p o u stored password s)
migrated-IsOpen p o id u stored password s h = elim (Bool-cases (needs_rehash p stored)) [
  | inl old ↦ rw old (update-IsOpen id u.id (rehash_payload p o password) s h)
  | inr new ↦ rw new h
]

cleared-IsOpen :
    (id : String) (u : AuthUser) (s : AuthStore) → IsOpen id s → IsOpen id (cleared u s)
cleared-IsOpen id u s h = elim (Bool-cases (has_failures u)) [
  | inl dirty ↦ rw dirty (update-IsOpen id u.id clear_payload s h)
  | inr clean ↦ rw clean h
]

session-IsOpen :
    (id : String) (r : RefreshRow) (s : AuthStore) → IsOpen id s → IsOpen id (with_session r s)
unfolding user_by_id
session-IsOpen id r s h = h

new_row :
    (token : String) (r : RefreshRow) (s : AuthStore)
    → refresh_by_token token s ≡ none
    → r.refresh_token ≡ token
    → refresh_by_token token (with_session r s) ≡ some (to_refresh_token r)
unfolding refresh_by_token select_first
new_row token r s fresh same =
    let hit : (r.refresh_token == token) ≡ true = rw same (==_refl token) in
    elim (Option-cases (select_first (token_is token) s.refresh)) [
      | inl missing ↦ simp (select_first-append, missing, hit)
      | inr (old, found) ↦ absurd (ground (arith, fresh, found))
    ]

untouched :
    (p : Platform) (o : LoginOutside) (u : AuthUser) (stored password : String) (s : AuthStore)
    → (cleared u (migrated p o u stored password s)).refresh ≡ s.refresh
untouched p o u stored password s = ground arith

-- The token that a login returns can be exchanged: until it expires, if its signature verifies,
-- its claims are not empty strings, no older row holds the same token, and the account is found by
-- its id too, a refresh with it succeeds.
pub login_then_refresh :
    (p : Platform) (o : LoginOutside) (c : LoginCommand) (s : AuthStore) (o' : RefreshOutside)
    (c' : RefreshTokensCommand)
    → (h : CanLogin p o c s) → user_by_id h.user.id s ≡ some h.user
    → refresh_by_token c'.refresh_token s ≡ none
    → c'.refresh_token ≡ p.sign_refresh o.signed_at o.jwtid (jwt_of h.user)
    → p.verify_refresh o'.verified_at c'.refresh_token ≡ some (payload_of (jwt_of h.user))
    → h.user.id ≢ ""
    → h.user.role_id ≢ ""
    → h.user.language ≢ ""
    → o'.checked_at ≤ o.stored_at + p.refresh_ttl
    → (r : RefreshTokensResponse) × ((refresh_tokens p o' c' (login p o c s).1).0 ≡ ok r)
      × (r.success ≡ true)
unfolding validate_refresh_token refresh_by_token
login_then_refresh p o c s o' c' h account fresh same verifies id role language early =
    let base = cleared h.user (migrated p o h.user h.stored c.password s) in
    let session = new_session p o h.user c in
    let (u, account', verified, free) = session-IsOpen h.user.id session base (
      cleared-IsOpen h.user.id h.user _ (
        migrated-IsOpen p o h.user.id h.user h.stored c.password s
          (h.user, account, h.verified, h.not_blocked))) in
    let (r, reply, allowed) = refresh_tokens_iff p o' c' (with_session session base) in
    rw (login_of_CanLogin p o c s h) (
      r,
      reply,
      allowed.1 (record {
        credentials = jwt_of h.user;
        token = to_refresh_token session;
        user = u;
        valid = rw verifies (
            ground
              (arith, eq_iff h.user.id "", eq_iff h.user.role_id "", eq_iff h.user.language ""));
        found =
            new_row c'.refresh_token session base
              (rw (untouched p o h.user h.stored c.password s) fresh) (sym same);
        live = refl;
        fresh = early;
        account = account';
        verified = verified;
        not_blocked = free;
      }),
    )
