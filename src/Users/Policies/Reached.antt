-- ===== src/Users/Policies/Reached.antt =====
-- The states that the start, fills, questions of the guard and seeds of the table lead to.
use nest_rest_backend_templa.Prelude.{
  arith, String, ◌≡◌, refl, ap, sym, ◌∙◌, Option, none, some, Bool, true, List,
}
use nest_rest_backend_templa.Exec.{Result, ok}
use nest_rest_backend_templa.Auth.Platform.{RoleType}
use nest_rest_backend_templa.Users.RolePermissions.{
  Action, PermissionRow, count_permissions, find_by_role_type,
}
use nest_rest_backend_templa.Users.Policies.{
  Casl, PolicySubject, subjects_of, Principal, caller_role, PolicyOutside, Policies, fill_abilities,
  refresh_all_abilities, refreshed, or_refreshed, refresh_ability_for_role, get_ability_for_role,
  can_any, can_with, can_activate, guarded, counted,
}
use nest_rest_backend_templa.Users.Policies.Cached.{find_by_role_type-IsOf}
use nest_rest_backend_templa.Users.Policies.Permission.{Some, Permits, count_permissions-Permits}
use nest_rest_backend_templa.Users.Policies.Decision.{
  AllowsByRules, IsFresh, role_or_public, set_ability-IsFresh, fill_abilities-IsFresh,
  created_can_any,
}

-- From an empty cache over any table; a seed replaces the table and then refreshes all abilities.
pub data Reached {Ability : Type 0} (casl : Casl Ability) : Policies Ability → Type 0 where
  started :
      (table : List PermissionRow) → Reached casl (record { table = table; cache = λ role. none })
  filled :
      {s : Policies Ability} (o : PolicyOutside)
      → Reached casl s
      → Reached casl (fill_abilities casl o s)
  asked :
      {s : Policies Ability} (o : PolicyOutside) (policy : Option (Action × PolicySubject))
      (principal request : Principal)
      → Reached casl s
      → Reached casl (can_activate casl o policy principal request s).1
  seeded :
      {s : Policies Ability} (o : PolicyOutside) (table : List PermissionRow)
      → Reached casl s
      → Reached casl (refresh_all_abilities casl o (record s { table = table }))

module _ {Ability : Type 0} (casl : Casl Ability) (law : AllowsByRules casl) where
  -- What the guard does with an ability that it got or did not get.
  abbrev Decided :
      Option String
      → RoleType
      → Action
      → PolicySubject
      → Policies Ability
      → Option Ability × Policies Ability
      → Type 0
  Decided failure role action subject s got =
      (got.1.table ≡ s.table)
      × IsFresh casl got.1.table got.1.cache
      × (can_with casl got.0 action subject ≡ true
          → count_permissions role action (subjects_of subject) s.table ≡ true)
      × (failure ≡ none
          → can_with casl got.0 action subject
            ≡ count_permissions role action (subjects_of subject) s.table)

  module _ (role : RoleType) (action : Action) (subject : PolicySubject) (s : Policies Ability)
      (fresh : IsFresh casl s.table s.cache) where
    refreshed-Decided :
        (failure : Option String)
        → Decided failure role action subject s (refreshed casl failure role s)
    refreshed-Decided (some message) = (refl, fresh, (λ h. absurd cc), (λ h. absurd cc))
    refreshed-Decided none =
        let same =
          created_can_any casl law role s.table (find_by_role_type role s.table)
            (find_by_role_type-IsOf role s.table) action subject in
        (
          refl,
          set_ability-IsFresh casl role (find_by_role_type role s.table) s.table s.cache
              (find_by_role_type-IsOf role s.table) fresh,
          (λ h. sym same ∙ h),
          (λ h. same),
        )

    or_refreshed-Decided :
        (o : PolicyOutside) (cached : Option Ability)
        → s.cache role ≡ cached
        → Decided o.role_error role action subject s (or_refreshed casl o role cached s)
    unfolding refresh_ability_for_role
    or_refreshed-Decided o none e = refreshed-Decided o.role_error
    or_refreshed-Decided o (some ability) e =
        let (permissions, made, right) = fresh role ability e in
        let same =
          ap (λ a. can_any casl a action subject) made
          ∙ created_can_any casl law role s.table permissions right action subject in
        (refl, fresh, (λ h. sym same ∙ h), (λ h. same))

    decided :
        (o : PolicyOutside)
        → Decided o.role_error role action subject s (get_ability_for_role casl o role s)
    unfolding get_ability_for_role
    decided o = or_refreshed-Decided o (s.cache role) refl

  guarded-IsFresh :
      (o : PolicyOutside) (policy : Option (Action × PolicySubject)) (role : Option RoleType)
      (s : Policies Ability)
      → IsFresh casl s.table s.cache
      → IsFresh casl (guarded casl o policy role s).1.table (guarded casl o policy role s).1.cache
  guarded-IsFresh o none role s fresh = fresh
  guarded-IsFresh o (some (action, subject)) none s fresh = fresh
  guarded-IsFresh o (some (action, subject)) (some role) s fresh =
      (decided role action subject s fresh o).1

  reached-IsFresh : (s : Policies Ability) → Reached casl s → IsFresh casl s.table s.cache
  unfolding can_activate
  reached-IsFresh _ (started table) = λ role ability e. absurd cc
  reached-IsFresh _ (filled {s} o before) =
      fill_abilities-IsFresh casl o s (reached-IsFresh s before)
  reached-IsFresh _ (asked {s} o policy principal request before) =
      guarded-IsFresh o policy (caller_role principal request) s (reached-IsFresh s before)
  reached-IsFresh _ (seeded {s} o table before) =
      fill_abilities-IsFresh casl o (record { table = table; cache = λ role. none })
        (λ role ability e. absurd cc)

  module _ (action : Action) (subject : PolicySubject) (s : Policies Ability)
      (fresh : IsFresh casl s.table s.cache) (o : PolicyOutside) where
    abbrev permitted : Option RoleType → Bool
    permitted role = count_permissions (role_or_public role) action (subjects_of subject) s.table

    ok_true : (b : Bool) → ◌≡◌ {A = Result Bool} (ok b) (ok true) → b ≡ true
    ok_true b h = ground (arith, h)

    counted-granted :
        (failure : Option String) (b : Bool) → counted casl failure b ≡ ok true → b ≡ true
    counted-granted none b h = ground (arith, h)
    counted-granted (some message) b h = absurd cc

    guarded-granted :
        (role : Option RoleType)
        → (guarded casl o (some (action, subject)) role s).0 ≡ ok true
        → permitted role ≡ true
    guarded-granted none h = counted-granted o.count_error _ h
    guarded-granted (some role) h = (decided role action subject s fresh o).2 (ok_true _ h)

    guarded-eq :
        (role : Option RoleType)
        → o.role_error ≡ none
        → o.count_error ≡ none
        → (guarded casl o (some (action, subject)) role s).0 ≡ ok (permitted role)
    guarded-eq none roles counts = simp counts
    guarded-eq (some role) roles counts = ap ok ((decided role action subject s fresh o).3 roles)

  -- Where CASL allows what one of the rules of an ability names, in every state that the start
  -- with an empty cache, fills of the cache, earlier questions and seeds of the table with a
  -- refresh lead to, whichever queries of these and of the question failed: if the guard lets a
  -- caller through on a route with a policy, the table has an active permission, not deleted, of
  -- the caller's role (of the public role where the caller is not known) for the action on one of
  -- the subjects.
  pub granted_has_permission :
      (s : Policies Ability)
      → Reached casl s
      → (o : PolicyOutside) (action : Action) (subject : PolicySubject)
        (principal request : Principal)
      → (can_activate casl o (some (action, subject)) principal request s).0 ≡ ok true
      → Some
          (Permits (role_or_public (caller_role principal request)) action (subjects_of subject))
          s.table
  unfolding can_activate
  granted_has_permission s reached o action subject principal request h =
      count_permissions-Permits (role_or_public (caller_role principal request)) action
        (subjects_of subject) s.table
        (guarded-granted action subject s (reached-IsFresh s reached) o
          (caller_role principal request) h)

  -- Where CASL allows what one of the rules of an ability names, in every such state, if neither
  -- the query of a role's permissions nor the count fails, the guard decides a route with a
  -- policy, from the cache or not, exactly as the count of the table's permissions for the
  -- caller's role does.
  pub can_activate-eq :
      (s : Policies Ability)
      → Reached casl s
      → (o : PolicyOutside) (action : Action) (subject : PolicySubject)
        (principal request : Principal)
      → o.role_error ≡ none
      → o.count_error ≡ none
      → (can_activate casl o (some (action, subject)) principal request s).0
        ≡ ok (
            count_permissions
              (role_or_public (caller_role principal request))
              action
              (subjects_of subject)
              s.table)
  unfolding can_activate
  can_activate-eq s reached o action subject principal request roles counts =
      guarded-eq action subject s (reached-IsFresh s reached) o (caller_role principal request)
        roles counts
