-- ===== src/Users/TokenVersion/Coherence.antt =====
-- After a bump only tokens of the new version are accepted, while Redis fails or not.
use mathlib.Core.Option
use nest_rest_backend_templa.Prelude.{
  ℕ, ◌+◌, String, ◌≡◌, ◌⊎◌, ◌↔◌, refl, ap, ◌∙◌, none, some, true, List, [], ◌∷◌, ◌==◌, string_eq,
  nat_eq, nat_equals_iff, ==_refl, arith, Bool-cases, Option-cases, inl, inr,
}
use nest_rest_backend_templa.Exec.{ok, Result}
use nest_rest_backend_templa.Sql.{select_first, update_where}
use nest_rest_backend_templa.Sql.Laws.{select_first-update, select_first-holds}
use nest_rest_backend_templa.Users.TokenVersion.Checks.{
  IsCoherent, Check, after_checks, after_checks-IsCoherent,
}
use nest_rest_backend_templa.Users.TokenVersion.{
  VersionRow, VersionStore, Numbers, RedisOutside, version_key, version_of, live_version_of,
  find_version, not_deleted, next_version, increment_token_version, bump_version, restore_version,
  get_current_version, assert_current,
}

module _ (numbers : Numbers) (parse-text : (n : ℕ) → numbers.parse (numbers.text n) ≡ some n)
    (id : String) (version : ℕ) where
  abbrev value_of : Result ℕ × VersionStore → Result ℕ
  value_of (r, s) = r

  restore-value :
      (o : RedisOutside) (s : VersionStore)
      → find_version id s ≡ some version
      → (restore_version numbers o id s).0 ≡ ok version
  unfolding restore_version
  restore-value o s found = simp found

  current-value :
      (o : RedisOutside) (s : VersionStore)
      → IsCoherent numbers id version s
      → (get_current_version numbers o id s).0 ≡ ok version
  unfolding get_current_version
  current-value o s (found, cached) = elim (Option-cases o.get_error) [
    | inr (message, broken) ↦ simp broken (restore-value o s found)
    | inl up ↦ elim cached [
      | inl empty ↦ simp (up, empty) (restore-value o s found)
      | inr held ↦ simp (up, held, parse-text version)
    ]
  ]

  -- A token is accepted exactly if it carries the current version.
  assert_iff :
      (o : RedisOutside) (s : VersionStore) (token_version : ℕ)
      → IsCoherent numbers id version s
      → ((assert_current numbers o id (some token_version) s).0 ≡ ok tt) ↔ (version ≡ token_version)
  unfolding assert_current
  assert_iff o s token_version h = elim (Bool-cases (version == token_version)) [
    | inl same ↦
        simp (current-value o s h, same)
          (λ e. (nat_equals_iff version token_version).0 same, λ e. refl)
    | inr other ↦
        simp (current-value o s h, other)
          (λ e. absurd (ground (arith, e)), λ e. absurd (ground (arith, e, other)))
  ]

first_live :
    (id : String) (rows : List VersionRow) (row : VersionRow)
    → select_first (version_of id) rows ≡ some row
    → not_deleted row.deleted_at ≡ true
    → select_first (live_version_of id) rows ≡ some row
unfolding select_first
first_live id [] row e live = cc
first_live id (r ∷ rows) row e live = elim (Bool-cases (r.id == id)) [
  | inr miss ↦ rw miss (first_live id rows row (rw miss at e) live)
  | inl hit ↦
      let here : some r ≡ some row = rw hit at e in
      let same : r ≡ row = ap (λ w. elim w [ none ↦ row | some x ↦ x ]) here in
      rw hit (rw same (rw live refl))
]

module _ (numbers : Numbers) (o : RedisOutside) (id : String) (s : VersionStore) (row : VersionRow)
    (found : select_first (version_of id) s.users ≡ some row)
    (live : not_deleted row.deleted_at ≡ true) where
  abbrev bumped_users : List VersionRow
  bumped_users = update_where (version_of id) next_version s.users

  find-bumped : select_first (live_version_of id) bumped_users ≡ some (next_version row)
  find-bumped =
      let hit : version_of id row ≡ true = select_first-holds (version_of id) s.users row found in
      select_first-update (live_version_of id) (version_of id) next_version s.users
        (λ r. ground arith)
      ∙ simp (first_live id s.users row found live, hit)

  -- What a bump answers, and what it leaves behind.
  abbrev Bumped : Result ℕ × VersionStore → Type 0
  Bumped w = (w.0 ≡ ok (row.token_version + 1)) × IsCoherent numbers id (row.token_version + 1) w.1

  found_version :
      Option.map (λ r. r.token_version) (select_first (live_version_of id) bumped_users)
      ≡ some (row.token_version + 1)
  found_version = rw find-bumped refl

  bump-Bumped :
      (o.set_error ≡ none) ⊎ (o.second_del_error ≡ none) ⊎ (o.del_error ≡ none)
      → Bumped (bump_version numbers o id s)
  unfolding bump_version increment_token_version
  bump-Bumped reached = elim (Option-cases o.del_error) [
    | inl cleared ↦ elim (Option-cases o.set_error) [
      | inl stored ↦
          simp (cleared, stored, found)
            (refl, (found_version, inr (simp (==_refl (version_key id)))))
      | inr (m, unset) ↦ elim (Option-cases o.second_del_error) [
        | inl again ↦
            simp (cleared, unset, again, found)
              (refl, (found_version, inl (simp (==_refl (version_key id)))))
        | inr (n, never) ↦
            simp (cleared, unset, never, found)
              (refl, (found_version, inl (simp (==_refl (version_key id)))))
      ]
    ]
    | inr (l, kept) ↦ elim (Option-cases o.set_error) [
      | inl stored ↦
          simp (kept, stored, found) (refl, (found_version, inr (simp (==_refl (version_key id)))))
      | inr (m, unset) ↦ elim (Option-cases o.second_del_error) [
        | inl again ↦
            simp (kept, unset, again, found)
              (refl, (found_version, inl (simp (==_refl (version_key id)))))
        | inr (n, never) ↦ absurd (ground (arith, reached, kept, unset, never))
      ]
    ]
  ]

-- Where one of the writes to Redis of a bump succeeds, the text of a number reads back as that
-- number, and the user is there and not deleted, the user's version goes up by one, and after any
-- checks of tokens, of that user and of others, a token of that user is accepted exactly if it
-- carries the new version, whatever calls of Redis fail in any of the checks.
pub bump_then_assert :
    (numbers : Numbers) (o : RedisOutside) (id : String) (s : VersionStore) (row : VersionRow)
    (checks : List Check) (o' : RedisOutside) (token_version : ℕ)
    → ((n : ℕ) → numbers.parse (numbers.text n) ≡ some n)
    → select_first (version_of id) s.users ≡ some row
    → not_deleted row.deleted_at ≡ true
    → (o.set_error ≡ none) ⊎ (o.second_del_error ≡ none) ⊎ (o.del_error ≡ none)
    → ((bump_version numbers o id s).0 ≡ ok (row.token_version + 1))
      × (((assert_current numbers o' id
              (some token_version)
              (after_checks numbers checks (bump_version numbers o id s).1)).0
            ≡ ok tt)
          ↔ (row.token_version + 1 ≡ token_version))
bump_then_assert numbers o id s row checks o' token_version parse-text found live reached =
    let (value, coherent) = bump-Bumped numbers o id s row found live reached in
    (
      value,
      assert_iff numbers parse-text id (row.token_version + 1) o'
          (after_checks numbers checks (bump_version numbers o id s).1) token_version
          (after_checks-IsCoherent numbers id (row.token_version + 1) checks
            (bump_version numbers o id s).1 coherent),
    )
