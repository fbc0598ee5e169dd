-- ===== src/Users/Policies/Cached.antt =====
-- A cached ability grants what the table of permissions grants, and the cache is filled with such
-- abilities only.
use nest_rest_backend_templa.Prelude.{
  ◌≡◌, refl, ap, sym, ◌∙◌, Option, none, some, Bool, true, false, ◌&&◌, ◌||◌, List, [], ◌∷◌, ◌++◌,
  map, any, length, ltb, ◌==◌, arith, Bool-cases, inl, inr, if◌then◌else◌,
}
use nest_rest_backend_templa.Sql.{select_where}
use nest_rest_backend_templa.Auth.Platform.{RoleType}
use nest_rest_backend_templa.Users.RolePermissions.{
  Action, Subject, PermissionRow, RolePermission, role_eq, same_action, same_subject, to_permission,
  is_active_row, is_active_of, find_active, find_by_role_type, place_by_subject, order_by_subject,
  comes_before,
}
use nest_rest_backend_templa.Users.Policies.{Grouped, list_of, add_to_group, group_by_role}

module _ {A : Type 0} where
  pub any-map :
      {B : Type 0} (f : B → Bool) (g : A → B) (xs : List A)
      → any f (map g xs) ≡ any (λ x. f (g x)) xs
  any-map f g [] = refl
  any-map f g (x ∷ xs) = ap (λ b. f (g x) || b) (any-map f g xs)

  any-append : (f : A → Bool) (xs ys : List A) → any f (xs ++ ys) ≡ any f xs || any f ys
  any-append f [] ys = refl
  any-append f (x ∷ xs) ys = ground (arith, any-append f xs ys)

  any-select : (f p : A → Bool) (xs : List A) → any f (select_where p xs) ≡ any (λ x. p x && f x) xs
  unfolding select_where
  any-select f p [] = refl
  any-select f p (x ∷ xs) = ground (arith, any-select f p xs)

  pub any-same : (f g : A → Bool) (xs : List A) → ((x : A) → f x ≡ g x) → any f xs ≡ any g xs
  any-same f g [] h = refl
  any-same f g (x ∷ xs) h = ground (arith, h x, any-same f g xs h)

  pub some_selected : (p : A → Bool) (xs : List A) → ltb 0 (length (select_where p xs)) ≡ any p xs
  unfolding select_where
  some_selected p [] = refl
  some_selected p (x ∷ xs) = ground (arith, some_selected p xs)

any-none : {A : Type 0} (xs : List A) → any (λ x. false) xs ≡ false
any-none [] = refl
any-none (x ∷ xs) = any-none xs

any-or :
    {A : Type 0} (f g : A → Bool) (xs : List A) → any (λ x. f x || g x) xs ≡ any f xs || any g xs
any-or f g [] = refl
any-or f g (x ∷ xs) = ground (arith, any-or f g xs)

pub any-swap :
    {A B : Type 0} (f : A → B → Bool) (xs : List A) (ys : List B)
    → any (λ x. any (f x) ys) xs ≡ any (λ y. any (λ x. f x y) xs) ys
any-swap f [] ys = sym (any-none ys)
any-swap f (x ∷ xs) ys =
    ap (λ b. any (f x) ys || b) (any-swap f xs ys)
    ∙ sym (any-or (f x) (λ y. any (λ z. f z y) xs) ys)

-- What one permission, one permission of a role and one row grant.
abbrev pub grants : Action → Subject → RolePermission → Bool
grants action subject p = same_action p.action action && same_subject p.subject subject

abbrev pub grants_to : RoleType → Action → Subject → RolePermission → Bool
grants_to role action subject p = p.role_type == role && grants action subject p

abbrev pub row_grants : RoleType → Action → Subject → PermissionRow → Bool
row_grants role action subject row =
    is_active_of role row && grants action subject (to_permission row)

-- A list of permissions stands for those of a role in the table.
abbrev pub IsOf : RoleType → List PermissionRow → List RolePermission → Type 0
IsOf role table permissions =
    (action : Action) (subject : Subject)
    → any (grants action subject) permissions ≡ any (row_grants role action subject) table

any-place :
    (f : PermissionRow → Bool) (row : PermissionRow) (rows : List PermissionRow)
    → any f (place_by_subject row rows) ≡ f row || any f rows
unfolding place_by_subject
any-place f row [] = refl
any-place f row (next ∷ rest) = elim (Bool-cases (comes_before next row)) [
  | inl yep ↦ rw yep (ground (arith, any-place f row rest))
  | inr nope ↦ rw nope refl
]

any-order :
    (f : PermissionRow → Bool) (rows : List PermissionRow)
    → any f (order_by_subject rows) ≡ any f rows
unfolding order_by_subject
any-order f [] = refl
any-order f (row ∷ rest) =
    any-place f row (order_by_subject rest) ∙ ap (λ b. f row || b) (any-order f rest)

pub find_by_role_type-IsOf :
    (role : RoleType) (table : List PermissionRow) → IsOf role table (find_by_role_type role table)
find_by_role_type-IsOf role table action subject =
    any-map (grants action subject) to_permission
      (order_by_subject (select_where (is_active_of role) table))
    ∙ any-order (λ row. grants action subject (to_permission row))
        (select_where (is_active_of role) table)
    ∙ any-select (λ row. grants action subject (to_permission row)) (is_active_of role) table

pub or_false : (b : Bool) → b || false ≡ b
or_false true = refl
or_false false = refl

added_or_old :
    (f : RolePermission → Bool) (p : RolePermission) (b : Bool)
    (mine old : Option (List RolePermission))
    → (b ≡ true → mine ≡ old)
    → any f (list_of (if b then some (list_of mine ++ p ∷ []) else old))
      ≡ any f (list_of old) || (b && f p)
added_or_old f p true mine old h =
    any-append f (list_of mine) (p ∷ [])
    ∙ ap (λ (o : Option (List RolePermission)). any f (list_of o) || (f p || false)) (h refl)
    ∙ ap (λ b. any f (list_of old) || b) (or_false (f p))
added_or_old f p false mine old h = sym (or_false (any f (list_of old)))

-- What a group grants after a permission has gone into the groups.
group-adds :
    (role : RoleType) (action : Action) (subject : Subject) (p : RolePermission) (g : Grouped)
    → any (grants action subject) (list_of ((add_to_group p g).permissions role))
      ≡ any (grants action subject) (list_of (g.permissions role))
        || (role == p.role_type && grants action subject p)
group-adds role action subject p g =
    added_or_old (grants action subject) p (role == p.role_type) (g.permissions p.role_type)
      (g.permissions role) (λ h. ap g.permissions (sym ((role_eq.equals_iff role p.role_type).0 h)))

or_assoc : (a b c : Bool) → (a || b) || c ≡ a || (b || c)
or_assoc true b c = refl
or_assoc false b c = refl

group_by_role-any :
    (role : RoleType) (action : Action) (subject : Subject) (ps : List RolePermission) (g : Grouped)
    → any (grants action subject) (list_of ((group_by_role ps g).permissions role))
      ≡ any (grants action subject) (list_of (g.permissions role))
        || any (λ p. role == p.role_type && grants action subject p) ps
group_by_role-any role action subject [] g =
    sym (or_false (any (grants action subject) (list_of (g.permissions role))))
group_by_role-any role action subject (p ∷ ps) g =
    group_by_role-any role action subject ps (add_to_group p g)
    ∙ ap (λ b. b || any (λ q. role == q.role_type && grants action subject q) ps)
        (group-adds role action subject p g)
    ∙ or_assoc (any (grants action subject) (list_of (g.permissions role)))
        (role == p.role_type && grants action subject p)
        (any (λ q. role == q.role_type && grants action subject q) ps)

row_or_group :
    (role : RoleType) (action : Action) (subject : Subject) (row : PermissionRow)
    → is_active_row row && (role == row.role_type && grants action subject (to_permission row))
      ≡ row_grants role action subject row
row_or_group role action subject row = ground arith

abbrev pub no_groups : Grouped
no_groups = record { keys = []; permissions = λ role. none }

pub groups-IsOf :
    (role : RoleType) (table : List PermissionRow)
    → IsOf role table (list_of ((group_by_role (find_active table) no_groups).permissions role))
groups-IsOf role table action subject =
    group_by_role-any role action subject (find_active table) no_groups
    ∙ any-map (λ p. role == p.role_type && grants action subject p) to_permission
        (select_where is_active_row table)
    ∙ any-select (λ row. role == row.role_type && grants action subject (to_permission row))
        is_active_row table
    ∙ any-same _ (row_grants role action subject) table (row_or_group role action subject)
