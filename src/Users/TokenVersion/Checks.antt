-- ===== src/Users/TokenVersion/Checks.antt =====
-- Checks of tokens, of whichever users, keep the cached version of a user coherent with the table.

use mathlib.Core.Option
use text.Mathlib.TextLemmas.{append_cancel_left, append_cancel_right}
use nest_rest_backend_templa.Prelude.{
  ℕ, String, ◌≡◌, ◌⊎◌, refl, sym, ap, ◌∙◌, subst, Option, none, some, List, [], ◌∷◌, ◌==◌,
  string_eq, nat_eq, eq_iff, Bool-cases, inl, inr, if◌then◌else◌,
}
use nest_rest_backend_templa.Exec.{
  Exec, Result, ok, throw, continue, pure, raise, try_ignore, http, unauthorized,
}
use nest_rest_backend_templa.Users.TokenVersion.{
  VersionStore, Numbers, RedisOutside, version_key, find_version, with_cache, redis_write, restored,
  restore_version, cached_or, parsed_or, lookup, get_current_version, assert_current,
}

-- The version in Redis, if there is one, is that of the row; the row of the user is there.
abbrev pub IsCoherent : Numbers → String → ℕ → VersionStore → Type 0
IsCoherent numbers id version s =
    (find_version id s ≡ some version)
    × ((s.cache (version_key id) ≡ none) ⊎ (s.cache (version_key id) ≡ some (numbers.text version)))

version_key-injective : (a b : String) → version_key a ≡ version_key b → a ≡ b
version_key-injective a b e =
    append_cancel_right a b ":tokenVersion" (append_cancel_left "auth:user:" _ _ e)

-- One check of a token: the token's user and version, and what Redis does.
pub record Check : Type 0 where
  pub user_id : String
  pub token_version : Option ℕ
  pub redis : RedisOutside

module _ (numbers : Numbers) where
  abbrev pub after_checks : List Check → VersionStore → VersionStore
  after_checks [] s = s
  after_checks (check ∷ checks) s =
      after_checks checks (assert_current numbers check.redis check.user_id check.token_version s).1

  -- A store after one read of a version: as before, or with the version of the table in Redis.
  abbrev Read : String → VersionStore → VersionStore → Type 0
  Read user_id s t =
      (t ≡ s)
      ⊎ ((v : ℕ) × (find_version user_id s ≡ some v)
          × (t ≡ with_cache (version_key user_id) (some (numbers.text v)) s))

  module _ (user_id : String) (s : VersionStore) where
    wrote-Read :
        (failure : Option String) (v : ℕ)
        → find_version user_id s ≡ some v
        → Read user_id s
            (try_ignore (redis_write failure (version_key user_id) (some (numbers.text v))) s).1
    wrote-Read none v found = inr (v, found, refl)
    wrote-Read (some message) v found = inl refl

    restored-Read :
        (o : RedisOutside) (found : Option ℕ)
        → find_version user_id s ≡ found
        → Read user_id s (restored numbers o user_id found s).1
    unfolding restored
    restored-Read o none e = inl refl
    restored-Read o (some v) e = wrote-Read o.set_error v e

    restore-Read : (o : RedisOutside) → Read user_id s (restore_version numbers o user_id s).1
    unfolding restore_version
    restore-Read o = restored-Read o (find_version user_id s) refl

    parsed-Read :
        (o : RedisOutside) (v : Option ℕ) → Read user_id s (parsed_or numbers o user_id v s).1
    parsed-Read o none = restore-Read o
    parsed-Read o (some v) = inl refl

    cached-Read :
        (o : RedisOutside) (text : Option String)
        → Read user_id s (cached_or numbers o user_id text s).1
    cached-Read o none = restore-Read o
    cached-Read o (some text) = parsed-Read o (numbers.parse text)

    lookup-Read :
        (o : RedisOutside) (failure : Option String)
        → Read user_id s (lookup numbers o user_id failure s).1
    lookup-Read o none = cached-Read o (s.cache (version_key user_id))
    lookup-Read o (some message) = restore-Read o

    abbrev judge : ℕ → ℕ → Exec VersionStore (Unit {0})
    judge token_version current =
        if current == token_version
        then pure tt
        else raise (http unauthorized "user.auth.tokenStale")

    judge_keeps :
        (token_version : ℕ) (r : Result ℕ) (t : VersionStore)
        → (continue r (judge token_version) t).1 ≡ t
    judge_keeps token_version (throw e) t = refl
    judge_keeps token_version (ok current) t = elim (Bool-cases (current == token_version)) [
      | inl same ↦ rw same refl
      | inr other ↦ rw other refl
    ]

    assert-Read :
        (o : RedisOutside) (token_version : Option ℕ)
        → Read user_id s (assert_current numbers o user_id token_version s).1
    unfolding assert_current get_current_version
    assert-Read o none = inl refl
    assert-Read o (some token_version) =
        subst (Read user_id s)
          (sym (
            judge_keeps token_version (lookup numbers o user_id o.get_error s).0
              (lookup numbers o user_id o.get_error s).1))
          (lookup-Read o o.get_error)

  module _ (id : String) (version : ℕ) where
    cached_again :
        (user_id : String) (v : ℕ) (s : VersionStore)
        → find_version user_id s ≡ some v
        → IsCoherent numbers id version s
        → IsCoherent numbers id version (with_cache (version_key user_id) (some (numbers.text v)) s)
    cached_again user_id v s read (found, cached) =
        elim (Bool-cases (version_key id == version_key user_id)) [
          | inr other ↦ (found, rw other cached)
          | inl same ↦
              let one : id ≡ user_id =
                version_key-injective id user_id
                  ((eq_iff (version_key id) (version_key user_id)).0 same) in
              (
                found,
                rw same (
                    inr (
                      ap (Option.map numbers.text)
                        (sym read ∙ ap (λ (u : String). find_version u s) (sym one) ∙ found))),
              )
        ]

    Read-IsCoherent :
        (user_id : String) (s t : VersionStore)
        → Read user_id s t
        → IsCoherent numbers id version s
        → IsCoherent numbers id version t
    Read-IsCoherent user_id s t (inl same) h = subst (IsCoherent numbers id version) (sym same) h
    Read-IsCoherent user_id s t (inr (v, found, wrote)) h =
        subst (IsCoherent numbers id version) (sym wrote) (cached_again user_id v s found h)

    pub after_checks-IsCoherent :
        (checks : List Check) (s : VersionStore)
        → IsCoherent numbers id version s
        → IsCoherent numbers id version (after_checks checks s)
    after_checks-IsCoherent [] s h = h
    after_checks-IsCoherent (check ∷ checks) s h =
        after_checks-IsCoherent checks
          (assert_current numbers check.redis check.user_id check.token_version s).1
          (Read-IsCoherent check.user_id s
            (assert_current numbers check.redis check.user_id check.token_version s).1
            (assert-Read check.user_id s check.redis check.token_version) h)
