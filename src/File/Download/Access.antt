-- ===== src/File/Download/Access.antt =====
-- Who may download a file.
use mathlib.Core.Option
use nest_rest_backend_templa.Prelude.{
  String, ◌≡◌, refl, subst, ◌↔◌, ◌⊎◌, inl, inr, Option, none, some, Bool, true, false, ◌&&◌, List,
  [], ◌∷◌, ◌++◌, ◌==◌, string_eq, All, present, arith, Bool-cases, eq_iff, if◌then◌else◌,
}
use text.Mathlib.TextPositions.{eq_refl}
use nest_rest_backend_templa.Exec.{Result, ok, is_ok}
use nest_rest_backend_templa.Sql.{select_first}
use nest_rest_backend_templa.Auth.Platform.{RoleType}
use nest_rest_backend_templa.File.Store.{
  FileStore, FileRow, FileVersion, File, FileFrom, file_from_eq, file_from_equals_iff, public,
  joined, live_file_is, module_is, find_file_by, find_version_by_id, version_named,
}
use nest_rest_backend_templa.File.Adapter.{FilePlatform, S3Object, get_file_path, is_invalid_path}
use nest_rest_backend_templa.File.Update.{is_denied}
use nest_rest_backend_templa.File.Download.{
  DownloadParams, who_asks, belongs_to, send_object, download_for, download,
}

abbrev pub MayRead : Option (String × RoleType) → FileRow → Type 0
MayRead none row = row.file_module ≡ public
MayRead (some (user_id, role)) row =
    (row.user_id ≡ user_id) ⊎ (role ≡ RoleType.manager) ⊎ (role ≡ RoleType.admin)

-- The owner asks for the last version.
abbrev pub by_owner : (file_id user_id : String) → DownloadParams
by_owner file_id user_id = record {
  file_id = file_id;
  version_id = none;
  current_user_id = some user_id;
  current_role_type = some RoleType.user;
}

pub owner_logs_in :
    (file_id user_id : String)
    → (user_id == "") ≡ false
    → who_asks (by_owner file_id user_id) ≡ some (user_id, RoleType.user)
owner_logs_in file_id user_id h = rw h refl

-- The version that was asked for is there and is one of the file.
abbrev pub VersionFits : Option String → (file_id : String) → FileStore → Type 0
VersionFits none file_id s = Unit
VersionFits (some version_id) file_id s =
    belongs_to (find_version_by_id version_id s) file_id ≡ true

abbrev pub OtherId : String → FileRow → Type 0
OtherId id row = (row.id == id) ≡ false

-- The table holds `row` and no other row of its id.
pub record OnlyRow (row : FileRow) (s : FileStore) : Type 0 where
  pub before : List FileRow
  pub after : List FileRow
  pub is_there : s.files ≡ before ++ row ∷ after
  pub first : All (OtherId row.id) before
  pub last : All (OtherId row.id) after

select_none :
    (id : String) (wanted : Option FileFrom) (rows : List FileRow)
    → All (OtherId id) rows
    → select_first (λ r. live_file_is id r && module_is wanted r) rows ≡ none
unfolding select_first
select_none id wanted [] h = refl
select_none id wanted (r ∷ rows) (here, later) = ground (arith, select_none id wanted rows later)

select_only :
    (id : String) (wanted : Option FileFrom) (before after : List FileRow) (row : FileRow)
    → row.id ≡ id
    → row.deleted_at ≡ none
    → All (OtherId id) before
    → All (OtherId id) after
    → select_first (λ r. live_file_is id r && module_is wanted r) (before ++ row ∷ after)
      ≡ (if module_is wanted row then some row else none)
unfolding select_first
select_only id wanted [] after row same live h k = elim (Bool-cases (module_is wanted row)) [
  | inl fits ↦ simp (same, eq_refl, live, fits)
  | inr misses ↦ simp (same, eq_refl, live, misses) (select_none id wanted after k)
]
select_only id wanted (r ∷ before) after row same live (here, later) k =
    ground (arith, here, select_only id wanted before after row same live later k)

denied_iff :
    (file : File) (user_id : String) (role : RoleType)
    → (is_denied file user_id (some role) ≡ false)
      ↔ ((file.user_id ≡ user_id) ⊎ (role ≡ RoleType.manager) ⊎ (role ≡ RoleType.admin))
denied_iff file user_id RoleType.admin = ground (arith, eq_iff file.user_id user_id)
denied_iff file user_id RoleType.manager = ground (arith, eq_iff file.user_id user_id)
denied_iff file user_id RoleType.user = ground (arith, eq_iff file.user_id user_id)
denied_iff file user_id RoleType.public = ground (arith, eq_iff file.user_id user_id)

module _ (p : FilePlatform) (fetch : String → Option String → Result S3Object)
    (params : DownloadParams) (s : FileStore) (row : FileRow) (only : OnlyRow row s)
    (same : row.id ≡ params.file_id) (live : row.deleted_at ≡ none) where
  select_row :
      (wanted : Option FileFrom)
      → select_first (λ r. live_file_is params.file_id r && module_is wanted r) s.files
        ≡ (if module_is wanted row then some row else none)
  select_row wanted = rw only.is_there (
      select_only params.file_id wanted only.before only.after row same live
        (subst (λ id. All (OtherId id) only.before) same only.first)
        (subst (λ id. All (OtherId id) only.after) same only.last))

  map_if :
      (f : FileRow → File) (b : Bool)
      → Option.map f (if b then some row else none) ≡ (if b then some (f row) else none)
  map_if f true = refl
  map_if f false = refl

  found_by :
      (wanted : Option FileFrom)
      → find_file_by params.file_id wanted s
        ≡ (if module_is wanted row then some (joined s.versions row) else none)
  found_by wanted = rw (select_row wanted) (map_if (joined s.versions) (module_is wanted row))

  module _ (valid : is_invalid_path row.user_id row.name row.external_id ≡ false)
      (object : String → Option String → S3Object) (body : String → Option String → String)
      (answers : (path : String) (v : Option String) → fetch path v ≡ ok (object path v))
      (bodies : (path : String) (v : Option String)
        → (object path v).body ≡ some (body path v)) where
    send_ok :
        (version : Option FileVersion)
        → is_ok (send_object p fetch params (joined s.versions row) version s).0 ≡ true
    unfolding send_object get_file_path
    send_ok version = simp (valid, answers, bodies)

    download_for_iff :
        (who : Option (String × RoleType)) (asked : Option String)
        → (is_ok (download_for p fetch params who asked s).0 ≡ true)
          ↔ (MayRead who row × VersionFits asked row.id s)
    unfolding download_for
    download_for_iff none none = rw (found_by (some public)) (
        ground (
          arith,
          file_from_equals_iff row.file_module public,
          send_ok (version_named row.last_version_id s.versions),
        ))
    download_for_iff none (some version_id) = rw (found_by (some public)) (
        ground (
          arith,
          file_from_equals_iff row.file_module public,
          send_ok (find_version_by_id version_id s),
        ))
    download_for_iff (some (user_id, role)) none = rw (found_by none) (
        ground (
          arith,
          denied_iff (joined s.versions row) user_id role,
          send_ok (version_named row.last_version_id s.versions),
        ))
    download_for_iff (some (user_id, role)) (some version_id) = rw (found_by none) (
        ground (
          arith,
          denied_iff (joined s.versions row) user_id role,
          send_ok (find_version_by_id version_id s),
        ))

    -- Where every file's id is its own, S3 answers with a body and the name and ids of the file
    -- make a valid path, a download of a file that is not deleted succeeds exactly if the caller
    -- may read it (without a login, the file is public; with one, the caller owns it or is a
    -- manager or an administrator) and the version that was asked for, if one was, is there, is
    -- not deleted and is one of the file.
    pub download_iff :
        (is_ok (download p fetch params s).0 ≡ true)
        ↔ (MayRead (who_asks params) row × VersionFits (present params.version_id) row.id s)
    download_iff = download_for_iff (who_asks params) (present params.version_id)
