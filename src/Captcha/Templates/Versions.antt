-- ===== src/Captcha/Templates/Versions.antt =====
-- The versions of a template's configuration: a draft gets a new number, and an activation leaves
-- one active version.

use nest_rest_backend_templa.Prelude.{
  ℕ, ◌+◌, ◌<◌, ◌≤◌, max, String, ◌≡◌, ◌⊎◌, refl, ap, ◌∙◌, subst, some, true, false, List, [], ◌∷◌,
  ◌==◌, string_eq, eq_iff, arith, All, Bool-cases, Option-cases, inl, inr,
}
use nest_rest_backend_templa.Exec.{ok, throw, Thrown, Result}
use nest_rest_backend_templa.Sql.{select_first, select_where, update_where, touch, insert}
use nest_rest_backend_templa.Sql.Laws.{select_first-update, select_first-holds}
use nest_rest_backend_templa.Captcha.Types.{CaptchaConfig, is_active_config}
use nest_rest_backend_templa.Captcha.Store.{
  CaptchaStore, config_id_is, config_of, active_of, archive, activate, max_version,
  next_config_version, find_config_by_id, find_template_by_id, activate_config,
}
use nest_rest_backend_templa.Captcha.Templates.{
  CaptchaGenerator, CreateCaptchaConfigDraftCommand, create_config_draft, draft_for, config_row,
}

-- ACTIVATION
activated-All :
    (now : ℕ) (template_id id : String) (rows : List CaptchaConfig)
    → All
        (λ c. active_of template_id c ≡ true → c.id ≡ id)
        (update_where
          (config_id_is id)
          (activate now)
          (update_where (active_of template_id) archive rows))
unfolding update_where
activated-All now template_id id [] = tt
activated-All now template_id id (c ∷ rows) =
    (λ e. ground (arith, e, eq_iff c.id id), activated-All now template_id id rows)

find-activated :
    (now : ℕ) (template_id id : String) (rows : List CaptchaConfig) (config : CaptchaConfig)
    → select_first (config_id_is id) rows ≡ some config
    → select_first (config_id_is id) (
        update_where
          (config_id_is id)
          (activate now)
          (update_where (active_of template_id) archive rows))
      ≡ some (activate now (touch (active_of template_id) archive config))
find-activated now template_id id rows config found =
    let hit : (config.id == id) ≡ true = select_first-holds (config_id_is id) rows config found in
    let first =
      select_first-update (config_id_is id) (active_of template_id) archive rows
        (λ c. ground arith) in
    let second =
      select_first-update (config_id_is id) (config_id_is id) (activate now)
        (update_where (active_of template_id) archive rows) (λ c. ground arith) in
    second ∙ rw first (rw found (ground (arith, hit)))

-- Activating a configuration that is there answers with it, active, and leaves no other active
-- version of its template.
pub activate_config_leaves_one :
    (now : ℕ) (id : String) (s : CaptchaStore) (config : CaptchaConfig)
    → find_config_by_id id s ≡ some config
    → (row : CaptchaConfig) × ((activate_config now id s).0 ≡ ok row)
      × (row.id ≡ id)
      × (is_active_config row.status ≡ true)
      × All
          (λ c. active_of config.template_id c ≡ true → c.id ≡ id)
          (activate_config now id s).1.configs
unfolding activate_config
activate_config_leaves_one now id s config found =
    let same : config.id ≡ id =
      (eq_iff config.id id).0 (select_first-holds (config_id_is id) s.configs config found) in
    let row = find-activated now config.template_id id s.configs config found in
    (
      activate now (touch (active_of config.template_id) archive config),
      simp (found, row),
      ground (arith, same),
      refl,
      simp (found, row) (activated-All now config.template_id id s.configs),
    )

-- DRAFT
max_version-All :
    (template_id : String) (n : ℕ) (rows : List CaptchaConfig)
    → max_version (select_where (config_of template_id) rows) ≤ n
    → All (λ c. config_of template_id c ≡ true → c.version < n + 1) rows
unfolding select_where max_version
max_version-All template_id n [] h = tt
max_version-All template_id n (c ∷ rows) h = elim (Bool-cases (config_of template_id c)) [
  | inl own ↦
      let bound : max c.version (max_version (select_where (config_of template_id) rows)) ≤ n =
        rw own at h in
      (λ e. omega (arith, bound), max_version-All template_id n rows (omega (arith, bound)))
  | inr other ↦
      let bound : max_version (select_where (config_of template_id) rows) ≤ n = rw other at h in
      (λ e. absurd (ground (arith, e, other)), max_version-All template_id n rows bound)
]

abbrev value_of : CaptchaConfig → Result CaptchaConfig → CaptchaConfig
value_of c (ok d) = d
value_of c (throw t) = c

valid_cases : (r : Result String) → ((v : String) × (r ≡ ok v)) ⊎ ((t : Thrown) × (r ≡ throw t))
valid_cases (ok v) = inl (v, refl)
valid_cases (throw t) = inr (t, refl)

-- A draft that is created is stored as it is returned, and its version is above every version of
-- its template that there was.
pub create_config_draft_is_newest :
    (g : CaptchaGenerator) (id : String) (created_at : ℕ)
    (command : CreateCaptchaConfigDraftCommand) (s : CaptchaStore) (row : CaptchaConfig)
    → (create_config_draft g id created_at command s).0 ≡ ok row
    → ((create_config_draft g id created_at command s).1.configs ≡ insert row s.configs)
      × (row.template_id ≡ command.template_id)
      × (is_active_config row.status ≡ false)
      × All (λ c. config_of command.template_id c ≡ true → c.version < row.version) s.configs
unfolding create_config_draft draft_for
create_config_draft_is_newest g id created_at command s row e =
    elim (Option-cases (find_template_by_id command.template_id s)) [
      | inl missing ↦ absurd (ground (arith, simp missing at e))
      | inr (template, found) ↦ elim (Bool-cases (template.generator == g.code)) [
        | inr other ↦ absurd (ground (arith, simp (found, other) at e))
        | inl same ↦ elim (valid_cases (g.validate_config command.config_json)) [
          | inr (thrown, bad) ↦ absurd (ground (arith, simp (found, same, bad) at e))
          | inl (validated, good) ↦
              let written =
                config_row g id created_at command (next_config_version command.template_id s)
                  validated in
              let back : written ≡ row = ap (value_of written) (simp (found, same, good) at e) in
              subst
                (λ x.
                  ((create_config_draft g id created_at command s).1.configs ≡ insert x s.configs)
                  × (x.template_id ≡ command.template_id)
                  × (is_active_config x.status ≡ false)
                  × All (λ c. config_of command.template_id c ≡ true → c.version < x.version)
                      s.configs)
                back
                (
                  simp (found, same, good),
                  refl,
                  refl,
                  max_version-All command.template_id _ s.configs (omega arith),
                )
        ]
      ]
    ]
