-- ===== src/Users/PolicyTests.antt =====
-- CASL as the list of its rules, a table of two permissions, and the theorems about the guard there.
use nest_rest_backend_templa.Prelude.{◌≡◌, refl, none, some, true, ◌&&◌, List, [], ◌∷◌, any}
use nest_rest_backend_templa.Exec.{ok}
use nest_rest_backend_templa.Sql.{select_where}
use nest_rest_backend_templa.Auth.Platform.{RoleType}
use nest_rest_backend_templa.Users.RolePermissions.{
  Action, Subject, read, create, file, user, PermissionRow, same_action, same_subject,
  order_by_subject, place_by_subject, count_permissions,
}
use nest_rest_backend_templa.Users.Policies.{
  Casl, one, several, Principal, PolicyOutside, Policies, can_activate, get_ability_for_role,
  refresh_ability_for_role, fill_abilities,
}
use nest_rest_backend_templa.Users.Policies.Permission.{Some, Permits}
use nest_rest_backend_templa.Users.Policies.Decision.{AllowsByRules}
use nest_rest_backend_templa.Users.Policies.Reached.{
  Reached, started, filled, granted_has_permission, can_activate-eq,
}

abbrev rules : Casl (List (Action × Subject))
rules = record {
  build = λ granted. granted;
  can = λ granted action subject.
      any (λ rule. same_action rule.0 action && same_subject rule.1 subject) granted;
}

rules_law : AllowsByRules rules
rules_law granted action subject = refl

abbrev row : RoleType → Action → PermissionRow
row role action = record {
  id = "p";
  deleted_at = none;
  role_type = role;
  action = action;
  subject = file;
  is_active = some true;
}

abbrev at_start : Policies (List (Action × Subject))
at_start = record {
  table = row RoleType.user read ∷ row RoleType.manager create ∷ [];
  cache = λ role. none;
}

abbrev all_well : PolicyOutside
all_well = record { find_error = none; role_error = none; count_error = none }

abbrev someone : Principal
someone = record {
  user_id = some "u1";
  role_id = some "r1";
  role_type = some RoleType.user;
  language = some "en";
}

abbrev nobody : Principal
nobody = record { user_id = none; role_id = none; role_type = none; language = none }

at_start-Reached : Reached rules (fill_abilities rules all_well at_start)
at_start-Reached =
    filled all_well (started (row RoleType.user read ∷ row RoleType.manager create ∷ []))

may_read :
    (can_activate rules all_well
      (some (read, several (user ∷ file ∷ [])))
      someone
      nobody
      (fill_abilities rules all_well at_start)).0
    ≡ ok true
unfolding can_activate get_ability_for_role refresh_ability_for_role fill_abilities select_where
    order_by_subject place_by_subject
may_read = refl

granted_has_permission_example :
    Some
      (Permits RoleType.user read (user ∷ file ∷ []))
      (fill_abilities rules all_well at_start).table
granted_has_permission_example =
    granted_has_permission rules rules_law (fill_abilities rules all_well at_start) at_start-Reached
      all_well read (several (user ∷ file ∷ [])) someone nobody may_read

can_activate-eq_example :
    (can_activate rules all_well
      (some (create, one file))
      someone
      nobody
      (fill_abilities rules all_well at_start)).0
    ≡ ok (
        count_permissions RoleType.user create
          (file ∷ [])
          (fill_abilities rules all_well at_start).table)
can_activate-eq_example =
    can_activate-eq rules rules_law (fill_abilities rules all_well at_start) at_start-Reached
      all_well create (one file) someone nobody refl refl
