-- ===== src/Users/RolePermissions.antt =====
-- The permissions of roles: libs/database/users.schema.ts, enums of apps/backend/src/enums, and the
-- reading methods of infrastructure/repositories/drizzle/role-permission-repository.drizzle.ts that
-- a decision needs.
use nest_rest_backend_templa.Prelude.{
  ℕ, zero, suc, String, ◌≡◌, refl, ap, sym, ◌∙◌, Option, none, some, Bool, true, false, ◌&&◌, List,
  [], ◌∷◌, map, any, length, ltb, Eq, ◌==◌, nat_eq, if◌then◌else◌,
}
use nest_rest_backend_templa.Sql.{select_where}
use nest_rest_backend_templa.Auth.Platform.{RoleType}

pub data Action : Type 0 where
  create read update delete : Action

pub data Subject : Type 0 where
  user user_admin user_role file file_admin notification : Subject
  admin_dashboard admin_access_log admin_settings captcha_admin : Subject

-- The places of the values in the enums of the database, by which it orders them.
abbrev pub action_rank : Action → ℕ
action_rank create = 0
action_rank read = 1
action_rank update = 2
action_rank delete = 3

abbrev pub subject_rank : Subject → ℕ
subject_rank user = 0
subject_rank user_admin = 1
subject_rank user_role = 2
subject_rank file = 3
subject_rank file_admin = 4
subject_rank notification = 5
subject_rank admin_dashboard = 6
subject_rank admin_access_log = 7
subject_rank admin_settings = 8
subject_rank captcha_admin = 9

abbrev role_rank : RoleType → ℕ
role_rank RoleType.admin = 0
role_rank RoleType.manager = 1
role_rank RoleType.user = 2
role_rank RoleType.public = 3

abbrev role_at : ℕ → RoleType
role_at zero = RoleType.admin
role_at (suc zero) = RoleType.manager
role_at (suc (suc zero)) = RoleType.user
role_at (suc (suc (suc n))) = RoleType.public

pub role_at-rank : (role : RoleType) → role_at (role_rank role) ≡ role
role_at-rank RoleType.admin = refl
role_at-rank RoleType.manager = refl
role_at-rank RoleType.user = refl
role_at-rank RoleType.public = refl

instance abbrev pub role_eq : Eq RoleType
role_eq = record {
  equals = λ x y. role_rank x == role_rank y;
  equals_iff = λ x y. (
    (λ h.
        sym (role_at-rank x)
        ∙ ap role_at ((nat_eq.equals_iff (role_rank x) (role_rank y)).0 h)
        ∙ role_at-rank y),
    (λ e. (nat_eq.equals_iff (role_rank x) (role_rank y)).1 (ap role_rank e)),
  );
}

abbrev pub same_action : Action → Action → Bool
same_action a b = action_rank a == action_rank b

abbrev pub same_subject : Subject → Subject → Bool
same_subject a b = subject_rank a == subject_rank b

-- A row of `role_permission`.
pub record PermissionRow : Type 0 where
  pub id : String
  pub deleted_at : Option ℕ
  pub role_type : RoleType
  pub action : Action
  pub subject : Subject
  pub is_active : Option Bool

-- IRolePermission
pub record RolePermission : Type 0 where
  pub id : String
  pub role_type : RoleType
  pub action : Action
  pub subject : Subject
  pub is_active : Bool

abbrev active_or_true : Option Bool → Bool
active_or_true none = true
active_or_true (some b) = b

-- toPermission
abbrev pub to_permission : PermissionRow → RolePermission
to_permission row = record {
  id = row.id;
  role_type = row.role_type;
  action = row.action;
  subject = row.subject;
  is_active = active_or_true row.is_active;
}

-- eq(isActive, true) and isNull(deletedAt); NULL is not equal to true
abbrev pub active_now : Option Bool → Option ℕ → Bool
active_now (some true) none = true
active_now _ _ = false

abbrev pub is_active_row : PermissionRow → Bool
is_active_row row = active_now row.is_active row.deleted_at

abbrev pub is_active_of : RoleType → PermissionRow → Bool
is_active_of role row = row.role_type == role && is_active_row row

-- find({ isActive: true })
abbrev pub find_active : List PermissionRow → List RolePermission
find_active table = map to_permission (select_where is_active_row table)

-- orderBy(subject, action)
abbrev pub comes_before : PermissionRow → PermissionRow → Bool
comes_before a b =
    if same_subject a.subject b.subject
    then ltb (action_rank a.action) (action_rank b.action)
    else ltb (subject_rank a.subject) (subject_rank b.subject)

unfoldable pub place_by_subject : PermissionRow → List PermissionRow → List PermissionRow
place_by_subject row [] = row ∷ []
place_by_subject row (next ∷ rest) =
    let placed = place_by_subject row rest in
    if comes_before next row then next ∷ placed else row ∷ next ∷ rest

unfoldable pub order_by_subject : List PermissionRow → List PermissionRow
order_by_subject [] = []
order_by_subject (row ∷ rest) = place_by_subject row (order_by_subject rest)

-- findByRoleType
abbrev pub find_by_role_type : RoleType → List PermissionRow → List RolePermission
find_by_role_type role table =
    map to_permission (order_by_subject (select_where (is_active_of role) table))

abbrev pub is_permission : RoleType → Action → List Subject → PermissionRow → Bool
is_permission role action subjects row =
    row.role_type == role
    && (same_action row.action action
        && (any (same_subject row.subject) subjects && is_active_row row))

-- RolePermissionRepositoryDrizzle.hasPermission, with the subjects as an array
unfoldable pub count_permissions : RoleType → Action → List Subject → List PermissionRow → Bool
count_permissions role action subjects table =
    ltb 0 (length (select_where (is_permission role action subjects) table))
