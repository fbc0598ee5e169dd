-- ===== src/Users/Policies/Permission.antt =====
-- What it means that the table has a permission, against the count that the code makes.
use nest_rest_backend_templa.Prelude.{
  ℕ, zero, suc, ◌≡◌, refl, ap, sym, ◌∙◌, Option, none, some, Bool, true, false, ◌&&◌, ◌⊎◌, inl, inr,
  List, [], ◌∷◌, any, ◌==◌, nat_eq, arith, Bool-cases,
}
use nest_rest_backend_templa.Auth.Platform.{RoleType}
use nest_rest_backend_templa.Users.RolePermissions.{
  Action, Subject, PermissionRow, role_eq, action_rank, subject_rank, same_action, same_subject,
  active_now, is_permission, count_permissions,
}
use nest_rest_backend_templa.Users.Policies.Cached.{some_selected}

abbrev at_place : {A : Type 0} → List A → ℕ → Option A
at_place [] n = none
at_place (x ∷ xs) zero = some x
at_place (x ∷ xs) (suc n) = at_place xs n

abbrev actions : List Action
actions = Action.create ∷ Action.read ∷ Action.update ∷ Action.delete ∷ []

abbrev subjects_in_order : List Subject
subjects_in_order =
    Subject.user ∷ Subject.user_admin ∷ Subject.user_role ∷ Subject.file ∷ Subject.file_admin
    ∷ Subject.notification ∷ Subject.admin_dashboard ∷ Subject.admin_access_log
    ∷ Subject.admin_settings ∷ Subject.captcha_admin ∷ []

at_place-action : (a : Action) → at_place actions (action_rank a) ≡ some a
at_place-action Action.create = refl
at_place-action Action.read = refl
at_place-action Action.update = refl
at_place-action Action.delete = refl

at_place-subject : (s : Subject) → at_place subjects_in_order (subject_rank s) ≡ some s
at_place-subject Subject.user = refl
at_place-subject Subject.user_admin = refl
at_place-subject Subject.user_role = refl
at_place-subject Subject.file = refl
at_place-subject Subject.file_admin = refl
at_place-subject Subject.notification = refl
at_place-subject Subject.admin_dashboard = refl
at_place-subject Subject.admin_access_log = refl
at_place-subject Subject.admin_settings = refl
at_place-subject Subject.captcha_admin = refl

the_same : {A : Type 0} (a b : A) → ◌≡◌ {A = Option A} (some a) (some b) → a ≡ b
the_same a b e = cc

same_action-eq : (a b : Action) → same_action a b ≡ true → a ≡ b
same_action-eq a b h = the_same a b (
    sym (at_place-action a)
    ∙ ap (at_place actions) ((nat_eq.equals_iff (action_rank a) (action_rank b)).0 h)
    ∙ at_place-action b)

same_subject-eq : (a b : Subject) → same_subject a b ≡ true → a ≡ b
same_subject-eq a b h = the_same a b (
    sym (at_place-subject a)
    ∙ ap (at_place subjects_in_order) ((nat_eq.equals_iff (subject_rank a) (subject_rank b)).0 h)
    ∙ at_place-subject b)

active_now-eq :
    (is_active : Option Bool) (deleted_at : Option ℕ)
    → active_now is_active deleted_at ≡ true
    → (is_active ≡ some true) × (deleted_at ≡ none)
active_now-eq none deleted_at h = absurd cc
active_now-eq (some false) deleted_at h = absurd cc
active_now-eq (some true) (some t) h = absurd cc
active_now-eq (some true) none h = (refl, refl)

-- A member of a list for which a statement holds.
abbrev pub Some : {A : Type 0} → (A → Type 0) → List A → Type 0
Some P [] = ⊥
Some P (x ∷ xs) = P x ⊎ Some P xs

any-Some :
    {A : Type 0} (p : A → Bool) (P : A → Type 0) (xs : List A)
    → ((x : A) → p x ≡ true → P x)
    → any p xs ≡ true
    → Some P xs
any-Some p P [] holds h = absurd cc
any-Some p P (x ∷ xs) holds h = elim (Bool-cases (p x)) [
  | inl yep ↦ inl (holds x yep)
  | inr nope ↦ inr (any-Some p P xs holds (ground (arith, h, nope)))
]

-- A row that is there, active, of the role, for the action and one of the subjects.
abbrev pub Permits : RoleType → Action → List Subject → PermissionRow → Type 0
Permits role action subjects row =
    (row.deleted_at ≡ none)
    × (row.is_active ≡ some true)
    × (row.role_type ≡ role)
    × (row.action ≡ action)
    × Some (λ subject. row.subject ≡ subject) subjects

all_four :
    (a b c d : Bool)
    → a && (b && (c && d)) ≡ true
    → (a ≡ true) × (b ≡ true) × (c ≡ true) × (d ≡ true)
all_four false b c d h = absurd cc
all_four true false c d h = absurd cc
all_four true true false d h = absurd cc
all_four true true true d h = (refl, refl, refl, h)

is_permission-Permits :
    (role : RoleType) (action : Action) (subjects : List Subject) (row : PermissionRow)
    → is_permission role action subjects row ≡ true
    → Permits role action subjects row
is_permission-Permits role action subjects row h =
    let (of_role, of_action, of_subject, active) =
      all_four (row.role_type == role) (same_action row.action action)
        (any (same_subject row.subject) subjects) (active_now row.is_active row.deleted_at) h in
    let (is_active, not_deleted) = active_now-eq row.is_active row.deleted_at active in
    (
      not_deleted,
      is_active,
      (role_eq.equals_iff row.role_type role).0 of_role,
      same_action-eq row.action action of_action,
      any-Some (same_subject row.subject) (λ subject. row.subject ≡ subject) subjects
          (same_subject-eq row.subject) of_subject,
    )

pub count_permissions-Permits :
    (role : RoleType) (action : Action) (subjects : List Subject) (table : List PermissionRow)
    → count_permissions role action subjects table ≡ true
    → Some (Permits role action subjects) table
unfolding count_permissions
count_permissions-Permits role action subjects table h =
    any-Some (is_permission role action subjects) (Permits role action subjects) table
      (is_permission-Permits role action subjects)
      (sym (some_selected (is_permission role action subjects) table) ∙ h)
