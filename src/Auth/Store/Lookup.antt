-- ===== src/Auth/Store/Lookup.antt =====
-- What the repositories read after they have written.
use mathlib.Core.Option
use nest_rest_backend_templa.Prelude.{
  String, ◌≡◌, ap, some, Bool, true, any, ◌==◌, string_eq, ==_refl, arith, Bool-cases, Option-cases,
  inl, inr,
}
use nest_rest_backend_templa.Exec.{ok}
use nest_rest_backend_templa.Sql.{update_where, touch, join_first}
use nest_rest_backend_templa.Sql.Laws.{
  touch_left, join_first-update, join_first-any, join_first-holds, any-update,
}
use nest_rest_backend_templa.Auth.Entities.{AuthUser}
use nest_rest_backend_templa.Auth.Store.{
  AuthStore, UserRow, UserRoleRow, to_auth_user, has_role, email_is, id_is, user_by_email,
  user_by_id, live_id_is, update_user, UpdatePayload, set_payload, or_else,
}

-- An update as the domain entity shows it.
abbrev pub set_user : UpdatePayload → AuthUser → AuthUser
set_user p u = record u {
  password = or_else p.password u.password;
  failed_login_attempts = or_else p.failed_login_attempts u.failed_login_attempts;
  failed_login_window_started_at =
      or_else p.failed_login_window_started_at u.failed_login_window_started_at;
  locked_until = or_else p.locked_until u.locked_until;
  token_version = or_else p.token_version u.token_version;
}

abbrev pub user_is : String → AuthUser → Bool
user_is id u = u.id == id

-- `update_user` on the table, without its test.
abbrev pub with_update : String → UpdatePayload → AuthStore → AuthStore
with_update id payload s = record s {
  users = update_where (id_is id) (set_payload payload) s.users;
}

module _ (id : String) (payload : UpdatePayload) where
  keeps_email :
      (email : String) (r : UserRow)
      → email_is email (touch (id_is id) (set_payload payload) r) ≡ email_is email r
  keeps_email email r = ground arith

  keeps_id :
      (other : String) (r : UserRow)
      → id_is other (touch (id_is id) (set_payload payload) r) ≡ id_is other r
  keeps_id other r = ground arith

  keeps_live_id :
      (other : String) (r : UserRow)
      → live_id_is other (touch (id_is id) (set_payload payload) r) ≡ live_id_is other r
  keeps_live_id other r = ground arith

  keeps_role : (r : UserRow) → has_role (touch (id_is id) (set_payload payload) r) ≡ has_role r
  keeps_role r = elim (Bool-cases (id_is id r)) [ inl e ↦ rw e | inr e ↦ rw e ]

  to_auth_user-touch :
      (r : UserRow × UserRoleRow)
      → to_auth_user (touch_left (id_is id) (set_payload payload) r)
        ≡ touch (user_is id) (set_user payload) (to_auth_user r)
  to_auth_user-touch (u, role) = elim (Bool-cases (id_is id u)) [ inl e ↦ rw e | inr e ↦ rw e ]

  module _ (key : UserRow → Bool)
      (keeps : (r : UserRow) → key (touch (id_is id) (set_payload payload) r) ≡ key r) where
    found-update :
        (s : AuthStore)
        → Option.map to_auth_user (join_first key has_role (with_update id payload s).users s.roles)
          ≡ Option.map
              (touch (user_is id) (set_user payload))
              (Option.map to_auth_user (join_first key has_role s.users s.roles))
    found-update s =
        let moved =
          join_first-update has_role s.roles key (id_is id) (set_payload payload) s.users keeps
            keeps_role in
        elim (Option-cases (join_first key has_role s.users s.roles)) [
          | inl missing ↦ rw (moved, missing)
          | inr (r, found) ↦ rw (moved, found) (ap some (to_auth_user-touch r))
        ]

  pub user_by_email-update :
      (email : String) (s : AuthStore)
      → user_by_email email (with_update id payload s)
        ≡ Option.map (touch (user_is id) (set_user payload)) (user_by_email email s)
  unfolding user_by_email
  user_by_email-update email s = found-update (email_is email) (keeps_email email) s

  pub user_by_id-update :
      (other : String) (s : AuthStore)
      → user_by_id other (with_update id payload s)
        ≡ Option.map (touch (user_is id) (set_user payload)) (user_by_id other s)
  unfolding user_by_id
  user_by_id-update other s = found-update (live_id_is other) (keeps_live_id other) s

  pub update_user-eq :
      (s : AuthStore)
      → any (id_is id) s.users ≡ true
      → update_user id payload s ≡ (ok tt, with_update id payload s)
  unfolding update_user
  update_user-eq s e = rw e

  pub any-with_update :
      (other : String) (s : AuthStore)
      → any (id_is other) (with_update id payload s).users ≡ any (id_is other) s.users
  any-with_update other s =
      any-update (id_is other) (id_is id) (set_payload payload) s.users (keeps_id other)

-- A user that is found has a row with that id.
pub any-user_by_email :
    (email : String) (s : AuthStore) (u : AuthUser)
    → user_by_email email s ≡ some u
    → any (id_is u.id) s.users ≡ true
unfolding user_by_email
any-user_by_email email s u e =
    elim (Option-cases (join_first (email_is email) has_role s.users s.roles)) [
      | inl missing ↦ cc (ap (Option.map to_auth_user) missing)
      | inr ((r, role), found) ↦
          let same : r.id ≡ u.id = ground arith in
          join_first-any has_role s.roles (email_is email) (id_is u.id) s.users r role found
            (rw same (==_refl u.id))
    ]

pub any-user_by_id :
    (id : String) (s : AuthStore) (u : AuthUser)
    → user_by_id id s ≡ some u
    → any (id_is id) s.users ≡ true
unfolding user_by_id
any-user_by_id id s u e =
    elim (Option-cases (join_first (live_id_is id) has_role s.users s.roles)) [
      | inl missing ↦ cc (ap (Option.map to_auth_user) missing)
      | inr ((r, role), found) ↦
          let key : live_id_is id r ≡ true =
            join_first-holds has_role s.roles (live_id_is id) s.users r role found in
          join_first-any has_role s.roles (live_id_is id) (id_is id) s.users r role found
            (ground arith)
    ]
