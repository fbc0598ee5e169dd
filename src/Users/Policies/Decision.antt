-- ===== src/Users/Policies/Decision.antt =====
-- A decision of the guard on a fresh cache is what the table of permissions says.
use nest_rest_backend_templa.Prelude.{
  ◌≡◌, refl, ap, sym, ◌∙◌, subst, Option, none, some, Bool, true, false, ◌&&◌, ◌||◌, List, [], ◌∷◌,
  map, any, ◌==◌, arith, Bool-cases, Option-cases, inl, inr,
}
use nest_rest_backend_templa.Auth.Platform.{RoleType}
use nest_rest_backend_templa.Users.RolePermissions.{
  Action, Subject, PermissionRow, RolePermission, role_eq, same_action, same_subject, find_active,
  is_active_row, is_permission, count_permissions,
}
use nest_rest_backend_templa.Users.Policies.{
  Casl, PolicySubject, one, several, subjects_of, list_of, PolicyOutside, Policies, set_ability,
  create_for_role_permissions, cache_groups, fill_abilities, can_any, group_by_role,
}
use nest_rest_backend_templa.Users.Policies.Cached.{
  any-map, any-same, any-swap, some_selected, row_grants, IsOf, groups-IsOf, no_groups, or_false,
}

-- What CASL documents of an ability with plain rules: it allows what one of them names.
abbrev pub AllowsByRules : {Ability : Type 0} → Casl Ability → Type 0
AllowsByRules casl =
    (rules : List (Action × Subject)) (action : Action) (subject : Subject)
    → casl.can (casl.build rules) action subject
      ≡ any (λ rule. same_action rule.0 action && same_subject rule.1 subject) rules

abbrev pub role_or_public : Option RoleType → RoleType
role_or_public none = RoleType.public
role_or_public (some role) = role

one_more :
    (of_role active same_action same_subject some_later : Bool)
    → ((of_role && active) && (same_action && same_subject))
        || (of_role && (same_action && (some_later && active)))
      ≡ of_role && (same_action && ((same_subject || some_later) && active))
one_more false active same_action same_subject some_later = refl
one_more true active false same_subject some_later = elim (Bool-cases active) [
  | inl yep ↦ rw yep refl
  | inr nope ↦ rw nope refl
]
one_more true true true true some_later = refl
one_more true true true false some_later = refl
one_more true false true same_subject some_later = ground arith

no_subject :
    (of_role active same_action : Bool) → false ≡ of_role && (same_action && (false && active))
no_subject false active same_action = refl
no_subject true active false = refl
no_subject true active true = refl

any_in_row :
    (role : RoleType) (action : Action) (row : PermissionRow) (subjects : List Subject)
    → any (λ subject. row_grants role action subject row) subjects
      ≡ is_permission role action subjects row
any_in_row role action row [] =
    no_subject (row.role_type == role) (is_active_row row) (same_action row.action action)
any_in_row role action row (subject ∷ subjects) =
    ap (λ b. row_grants role action subject row || b) (any_in_row role action row subjects)
    ∙ one_more (row.role_type == role) (is_active_row row) (same_action row.action action)
        (same_subject row.subject subject) (any (same_subject row.subject) subjects)

count-any :
    (role : RoleType) (action : Action) (subjects : List Subject) (table : List PermissionRow)
    → any (λ subject. any (row_grants role action subject) table) subjects
      ≡ count_permissions role action subjects table
unfolding count_permissions
count-any role action subjects table =
    any-swap (λ subject. row_grants role action subject) subjects table
    ∙ any-same _ (is_permission role action subjects) table
        (λ row. any_in_row role action row subjects)
    ∙ sym (some_selected (is_permission role action subjects) table)

module _ {Ability : Type 0} (casl : Casl Ability) where
  -- Every cached ability was made of permissions that stand for the table's.
  abbrev pub IsFresh : List PermissionRow → (RoleType → Option Ability) → Type 0
  IsFresh table cache =
      (role : RoleType) (ability : Ability)
      → cache role ≡ some ability
      → (permissions : List RolePermission) × (ability
          ≡ create_for_role_permissions casl permissions)
        × IsOf role table permissions

  pub set_ability-IsFresh :
      (role : RoleType) (permissions : List RolePermission) (table : List PermissionRow)
      (cache : RoleType → Option Ability)
      → IsOf role table permissions
      → IsFresh table cache
      → IsFresh table (set_ability role (create_for_role_permissions casl permissions) cache)
  set_ability-IsFresh role permissions table cache right fresh other ability e =
      elim (Bool-cases (other == role)) [
        | inl yep ↦ (
          permissions,
          ground (arith, e),
          subst (λ r. IsOf r table permissions) (sym ((role_eq.equals_iff other role).0 yep)) right,
        )
        | inr nope ↦ fresh other ability (ground (arith, e))
      ]

  pub cache_groups-IsFresh :
      (roles : List RoleType) (groups : RoleType → Option (List RolePermission))
      (table : List PermissionRow) (cache : RoleType → Option Ability)
      → ((role : RoleType) → IsOf role table (list_of (groups role)))
      → IsFresh table cache
      → IsFresh table (cache_groups casl roles groups cache)
  cache_groups-IsFresh [] groups table cache right fresh = fresh
  cache_groups-IsFresh (role ∷ roles) groups table cache right fresh =
      cache_groups-IsFresh roles groups table
        (set_ability role (create_for_role_permissions casl (list_of (groups role))) cache) right
        (set_ability-IsFresh role (list_of (groups role)) table cache (right role) fresh)

  filled-IsFresh :
      (s : Policies Ability)
      → IsFresh s.table s.cache
      → IsFresh s.table (
          cache_groups casl
            (group_by_role (find_active s.table) no_groups).keys
            (group_by_role (find_active s.table) no_groups).permissions
            s.cache)
  filled-IsFresh s fresh =
      cache_groups-IsFresh (group_by_role (find_active s.table) no_groups).keys
        (group_by_role (find_active s.table) no_groups).permissions s.table s.cache
        (λ role. groups-IsOf role s.table) fresh

  pub fill_abilities-IsFresh :
      (o : PolicyOutside) (s : Policies Ability)
      → IsFresh s.table s.cache
      → IsFresh (fill_abilities casl o s).table (fill_abilities casl o s).cache
  unfolding fill_abilities
  fill_abilities-IsFresh o s fresh = elim (Option-cases o.find_error) [
    | inl none_failed ↦ simp none_failed (filled-IsFresh s fresh)
    | inr (message, failed) ↦ simp failed fresh
  ]

  -- What an ability does that was made of permissions which stand for the table's.
  created_can :
      (law : AllowsByRules casl) (role : RoleType) (table : List PermissionRow)
      (permissions : List RolePermission)
      → IsOf role table permissions
      → (action : Action) (subject : Subject)
      → casl.can (create_for_role_permissions casl permissions) action subject
        ≡ any (row_grants role action subject) table
  created_can law role table permissions right action subject =
      law (map (λ p. (p.action, p.subject)) permissions) action subject
      ∙ any-map
          (λ (rule : Action × Subject). same_action rule.0 action && same_subject rule.1 subject)
          (λ (p : RolePermission). (p.action, p.subject)) permissions
      ∙ right action subject

  pub created_can_any :
      (law : AllowsByRules casl) (role : RoleType) (table : List PermissionRow)
      (permissions : List RolePermission)
      → IsOf role table permissions
      → (action : Action) (subject : PolicySubject)
      → can_any casl (create_for_role_permissions casl permissions) action subject
        ≡ count_permissions role action (subjects_of subject) table
  created_can_any law role table permissions right action (one subject) =
      created_can law role table permissions right action subject
      ∙ sym (or_false (any (row_grants role action subject) table))
      ∙ count-any role action (subject ∷ []) table
  created_can_any law role table permissions right action (several subjects) =
      any-same (casl.can (create_for_role_permissions casl permissions) action)
        (λ subject. any (row_grants role action subject) table) subjects
        (created_can law role table permissions right action)
      ∙ count-any role action subjects table
