-- ===== src/File/Update/Refused.antt =====
-- What a deletion does on each of its branches.
use mathlib.Core.Option
use nest_rest_backend_templa.Prelude.{
  ℕ, ◌<◌, String, ◌≡◌, refl, ap, ◌⊎◌, inl, inr, Option, none, some, Bool, true, false, ◌&&◌, List,
  [], ◌∷◌, length, ◌==◌, string_eq, arith, Bool-cases, Option-cases, eq_iff, lt→ltb,
}
use nest_rest_backend_templa.Exec.{Result, ok, throw, http, not_found, forbidden}
use nest_rest_backend_templa.Sql.{select_first, select_where, update_where}
use nest_rest_backend_templa.Auth.Platform.{RoleType}
use nest_rest_backend_templa.File.Store.{
  FileStore, FileRow, File, joined, live_file_is, find_file_by_id,
}
use nest_rest_backend_templa.File.Update.{is_denied, file_delete, delete_file}

-- The owner, a manager or an administrator.
abbrev pub MayChange : File → (user_id : String) → Option RoleType → Type 0
MayChange file user_id role =
    (file.user_id ≡ user_id) ⊎ (role ≡ some RoleType.manager) ⊎ (role ≡ some RoleType.admin)

may_change :
    (file : File) (user_id : String) (role : Option RoleType)
    → is_denied file user_id role ≡ false
    → MayChange file user_id role
may_change file user_id none h = ground (arith, eq_iff file.user_id user_id)
may_change file user_id (some RoleType.admin) h = inr (inr refl)
may_change file user_id (some RoleType.manager) h = inr (inl refl)
may_change file user_id (some RoleType.user) h = ground (arith, eq_iff file.user_id user_id)
may_change file user_id (some RoleType.public) h = ground (arith, eq_iff file.user_id user_id)

may_not :
    (file : File) (user_id : String) (role : Option RoleType)
    → is_denied file user_id role ≡ true
    → ¬ MayChange file user_id role
may_not file user_id none h = ground (arith, eq_iff file.user_id user_id)
may_not file user_id (some RoleType.admin) h = ground arith
may_not file user_id (some RoleType.manager) h = ground arith
may_not file user_id (some RoleType.user) h = ground (arith, eq_iff file.user_id user_id)
may_not file user_id (some RoleType.public) h = ground (arith, eq_iff file.user_id user_id)

module _ {R : Type 0} (p : R → Bool) where
  select_where-some :
      (rows : List R) (r : R) → select_first p rows ≡ some r → 0 < length (select_where p rows)
  unfolding select_first select_where
  select_where-some [] r e = cc
  select_where-some (x ∷ rows) r e = ground (arith, select_where-some rows r)

  -- An update that ends what it selects by.
  select_first-ended :
      (f : R → R) (rows : List R)
      → ((r : R) → p (f r) ≡ false)
      → select_first p (update_where p f rows) ≡ none
  unfolding select_first update_where
  select_first-ended f [] ends = refl
  select_first-ended f (x ∷ rows) ends = ground (arith, ends x, select_first-ended f rows ends)

  -- An update of rows that are not selected.
  select_first-other :
      (q : R → Bool) (f : R → R) (rows : List R)
      → ((r : R) → q r ≡ true → p r ≡ false)
      → ((r : R) → q r ≡ true → p (f r) ≡ false)
      → select_first p (update_where q f rows) ≡ select_first p rows
  unfolding select_first update_where
  select_first-other q f [] apart ends = refl
  select_first-other q f (x ∷ rows) apart ends =
      ground (arith, apart x, ends x, select_first-other q f rows apart ends)

and_false : (b : Bool) → (b && false) ≡ false
and_false true = refl
and_false false = refl

module _ (now : ℕ) (id user_id : String) (role : Option RoleType) (s : FileStore) where
  abbrev pub DeleteOutcome : Option File → Result Bool × FileStore → Type 0
  DeleteOutcome none out = out ≡ (throw (http not_found "file.notFound"), s)
  DeleteOutcome (some file) out =
      ((¬ MayChange file user_id role) × (out ≡ (throw (http forbidden "file.accessDenied"), s)))
      ⊎ (MayChange file user_id role
          × (out.0 ≡ ok true)
          × (find_file_by_id id out.1 ≡ none)
          × ((another : String)
              → (another == id) ≡ false
              → find_file_by_id another out.1 ≡ find_file_by_id another s))

  abbrev hidden : FileRow → FileRow
  hidden row = record row { deleted_at = some now; updated_at = now }

  gone : find_file_by_id id (delete_file now id s).1 ≡ none
  gone =
      ap (Option.map (joined s.versions))
        (select_first-ended (live_file_is id) hidden s.files (λ r. and_false (r.id == id)))

  others_stay :
      (another : String)
      → (another == id) ≡ false
      → find_file_by_id another (delete_file now id s).1 ≡ find_file_by_id another s
  others_stay another apart = ap (Option.map (joined s.versions)) (
      select_first-other (live_file_is another) (live_file_is id) hidden s.files
        (λ r h. ground (arith, eq_iff r.id id, eq_iff another id, eq_iff r.id another))
        (λ r h. and_false (r.id == another)))

  -- A deletion answers that a file is not found if there is none that is not deleted; it refuses
  -- with access denied if the caller neither owns it nor is a manager or an administrator; in both
  -- cases it changes nothing. Otherwise it answers true, the file cannot be found any more, and
  -- every other id finds what it found before.
  pub file_delete_outcome : DeleteOutcome (find_file_by_id id s) (file_delete now id user_id role s)
  unfolding file_delete
  file_delete_outcome = elim (Option-cases (select_first (live_file_is id) s.files)) [
    | inl missing ↦ rw missing refl
    | inr (row, found) ↦ elim (Bool-cases (is_denied (joined s.versions row) user_id role)) [
      | inl denied ↦
          rw (found, denied) (inl (may_not (joined s.versions row) user_id role denied, refl))
      | inr granted ↦
          rw (found, granted)
            (inr (
              may_change (joined s.versions row) user_id role granted,
              rw (lt→ltb 0 _ (select_where-some (live_file_is id) s.files row found)) refl,
              gone,
              others_stay,
            ))
    ]
  ]
