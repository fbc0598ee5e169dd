-- ===== src/Users/Policies.antt =====
-- Who may do what: infrastructure/services/policies.service.ts,
-- apps/backend/src/factories/casl-ability.factory.ts and apps/backend/src/guards/policies.guard.ts.
pub mod Cached
pub mod Decision
pub mod Permission
pub mod Reached
use nest_rest_backend_templa.Prelude.{
  ℕ, zero, suc, String, ◌≡◌, refl, ap, sym, ◌∙◌, Option, none, some, Bool, true, false, not, ◌&&◌,
  List, [], ◌∷◌, ◌++◌, map, any, length, ltb, Eq, ◌==◌, nat_eq, if◌then◌else◌, present,
}
use nest_rest_backend_templa.Exec.{Result, ok, throw, error}
use nest_rest_backend_templa.Sql.{select_where}
use nest_rest_backend_templa.Auth.Platform.{RoleType}
use nest_rest_backend_templa.Users.RolePermissions.{
  Action, PermissionRow, RolePermission, Subject, action_rank, active_now, comes_before,
  count_permissions, find_active, find_by_role_type, is_active_of, is_active_row, is_permission,
  order_by_subject, place_by_subject, role_eq, same_action, same_subject, subject_rank,
  to_permission,
}

-- The CASL library: an ability is built from pairs of an action and a subject.
pub record Casl (Ability : Type 0) : Type 0 where
  pub build : List (Action × Subject) → Ability
  pub can : Ability → Action → Subject → Bool

-- A policy of a route: `Subjects[] | Subjects`.
pub data PolicySubject : Type 0 where
  one : Subject → PolicySubject
  several : List Subject → PolicySubject

abbrev pub subjects_of : PolicySubject → List Subject
subjects_of (one subject) = subject ∷ []
subjects_of (several subjects) = subjects

-- What a request carries of its caller, on `req.user` or on itself.
pub record Principal : Type 0 where
  pub user_id : Option String
  pub role_id : Option String
  pub role_type : Option RoleType
  pub language : Option String

-- a ?? b
abbrev pub first_of : {A : Type 0} → Option A → Option A → Option A
first_of none b = b
first_of (some a) b = some a

-- The role if no part of the caller is falsy.
abbrev known_role : (user_id role_id language : Option String) → Option RoleType → Option RoleType
known_role (some u) (some r) (some l) role = role
known_role _ _ _ role = none

abbrev pub caller_role : (principal request : Principal) → Option RoleType
caller_role principal request =
    known_role (present (first_of principal.user_id request.user_id))
      (present (first_of principal.role_id request.role_id))
      (present (first_of principal.language request.language))
      (first_of principal.role_type request.role_type)

-- The permissions by role, a Map with its keys in the order in which they came.
pub record Grouped : Type 0 where
  pub keys : List RoleType
  pub permissions : RoleType → Option (List RolePermission)

abbrev pub list_of : Option (List RolePermission) → List RolePermission
list_of none = []
list_of (some permissions) = permissions

abbrev pub key_added : RoleType → Option (List RolePermission) → List RoleType → List RoleType
key_added role none keys = keys ++ role ∷ []
key_added role (some permissions) keys = keys

-- One turn of the first loop of fillAbilities.
abbrev pub add_to_group : RolePermission → Grouped → Grouped
add_to_group permission grouped = record {
  keys = key_added permission.role_type (grouped.permissions permission.role_type) grouped.keys;
  permissions = λ role.
      if role == permission.role_type
      then some (list_of (grouped.permissions permission.role_type) ++ permission ∷ [])
      else grouped.permissions role;
}

abbrev pub group_by_role : List RolePermission → Grouped → Grouped
group_by_role [] grouped = grouped
group_by_role (permission ∷ permissions) grouped =
    group_by_role permissions (add_to_group permission grouped)

-- The queries that fail, with the message of the error.
pub record PolicyOutside : Type 0 where
  pub find_error : Option String
  pub role_error : Option String
  pub count_error : Option String

-- The table and abilityCache.
pub record Policies (Ability : Type 0) : Type 0 where
  pub table : List PermissionRow
  pub cache : RoleType → Option Ability

module _ {Ability : Type 0} where
  -- abilityCache.set
  abbrev pub set_ability :
      RoleType → Ability → (RoleType → Option Ability) → RoleType → Option Ability
  set_ability role ability cache other = if other == role then some ability else cache other

  abbrev pub keep_ability : RoleType → Ability → Policies Ability → Policies Ability
  keep_ability role ability s = record s { cache = set_ability role ability s.cache }

module _ {Ability : Type 0} (casl : Casl Ability) where
  -- createForRolePermissions
  abbrev pub create_for_role_permissions : List RolePermission → Ability
  create_for_role_permissions permissions =
      casl.build (map (λ p. (p.action, p.subject)) permissions)

  -- The second loop of fillAbilities.
  abbrev pub cache_groups :
      List RoleType
      → (RoleType → Option (List RolePermission))
      → (RoleType → Option Ability)
      → RoleType
      → Option Ability
  cache_groups [] permissions cache = cache
  cache_groups (role ∷ roles) permissions cache =
      cache_groups roles permissions
        (set_ability role (create_for_role_permissions (list_of (permissions role))) cache)

  abbrev filled : Option String → Policies Ability → Policies Ability
  filled (some message) s = s
  filled none s =
      let grouped =
        group_by_role (find_active s.table) (record { keys = []; permissions = λ role. none }) in
      record s { cache = cache_groups grouped.keys grouped.permissions s.cache }

  -- fillAbilities
  unfoldable pub fill_abilities : PolicyOutside → Policies Ability → Policies Ability
  fill_abilities o s = filled o.find_error s

  -- refreshAllAbilities
  abbrev pub refresh_all_abilities : PolicyOutside → Policies Ability → Policies Ability
  refresh_all_abilities o s = fill_abilities o (record s { cache = λ role. none })

  abbrev refreshed : Option String → RoleType → Policies Ability → Option Ability × Policies Ability
  refreshed (some message) role s = (none, s)
  refreshed none role s =
      let ability = create_for_role_permissions (find_by_role_type role s.table) in
      (some ability, keep_ability role ability s)

  -- refreshAbilityForRole
  unfoldable pub refresh_ability_for_role :
      PolicyOutside → RoleType → Policies Ability → Option Ability × Policies Ability
  refresh_ability_for_role o role s = refreshed o.role_error role s

  abbrev or_refreshed :
      PolicyOutside
      → RoleType
      → Option Ability
      → Policies Ability
      → Option Ability × Policies Ability
  or_refreshed o role (some ability) s = (some ability, s)
  or_refreshed o role none s = refresh_ability_for_role o role s

  -- getAbilityForRole
  unfoldable pub get_ability_for_role :
      PolicyOutside → RoleType → Policies Ability → Option Ability × Policies Ability
  get_ability_for_role o role s = or_refreshed o role (s.cache role) s

  abbrev counted : Option String → Bool → Result Bool
  counted (some message) b = throw (error message)
  counted none b = ok b

  -- PoliciesService.hasPermission
  abbrev pub has_permission :
      PolicyOutside → RoleType → Action → PolicySubject → Policies Ability → Result Bool
  has_permission o role action subject s =
      counted o.count_error (count_permissions role action (subjects_of subject) s.table)

  abbrev pub can_any : Ability → Action → PolicySubject → Bool
  can_any ability action (one subject) = casl.can ability action subject
  can_any ability action (several subjects) = any (casl.can ability action) subjects

  abbrev can_with : Option Ability → Action → PolicySubject → Bool
  can_with none action subject = false
  can_with (some ability) action subject = can_any ability action subject

  -- canActivate, of a route with a policy, once the caller's role is known or not
  abbrev pub check_policy :
      PolicyOutside
      → Action
      → PolicySubject
      → Option RoleType
      → Policies Ability
      → Result Bool × Policies Ability
  check_policy o action subject none s = (has_permission o RoleType.public action subject s, s)
  check_policy o action subject (some role) s =
      let (ability, t) = get_ability_for_role o role s in (ok (can_with ability action subject), t)

  abbrev guarded :
      PolicyOutside
      → Option (Action × PolicySubject)
      → Option RoleType
      → Policies Ability
      → Result Bool × Policies Ability
  guarded o none role s = (ok true, s)
  guarded o (some (action, subject)) role s = check_policy o action subject role s

  -- PoliciesGuard.canActivate
  unfoldable pub can_activate :
      PolicyOutside
      → Option (Action × PolicySubject)
      → (principal request : Principal) → Policies Ability
      → Result Bool × Policies Ability
  can_activate o policy principal request s = guarded o policy (caller_role principal request) s
