-- ===== src/File/Update.antt =====
-- `update`, `updateVersion` and `delete` of infrastructure/repositories/file.repository.drizzle.ts,
-- and application/handlers/file-update.handler.ts and file-delete.handler.ts.
pub mod Refused
pub mod Renamed
use nest_rest_backend_templa.Prelude.{
  ℕ, String, Option, none, some, Bool, true, false, not, ◌&&◌, ◌||◌, any, length, ltb, ◌==◌,
  string_eq, if◌then◌else◌,
}
use nest_rest_backend_templa.Exec.{
  Exec, Result, ok, throw, http, error, bad_request, not_found, forbidden, lift, pure, gets, raise,
  modify, throw_if, or_throw, ◌>>=◌, ◌>>◌,
}
use nest_rest_backend_templa.Sql.{select_where, update_where, insert}
use nest_rest_backend_templa.Auth.Platform.{RoleType}
use nest_rest_backend_templa.File.Store.{
  FileStore, FileRow, FileVersion, File, FileFrom, file_from_eq, find_file_by_id, live_file_is,
}
use nest_rest_backend_templa.File.Adapter.{FilePlatform, get_file_path}
use nest_rest_backend_templa.File.Uploads.{
  UploadOutside, or_old, file_id_is, has_key, has_path, upload_version, with_last_version,
  same_version,
}

-- UpdateFileBody; `file` is the content type of a new content.
pub record UpdateFileBody : Type 0 where
  pub id : String
  pub name : Option String
  pub description : Option String
  pub file : Option String

abbrev pub or_else {ℓ} : {A : Type ℓ} → Option A → A → A
or_else none a = a
or_else (some b) a = b

-- `update.name !== undefined || update.description !== undefined`
abbrev pub is_given : Option String → Bool
is_given none = false
is_given (some text) = true

abbrev pub has_names : UpdateFileBody → Bool
has_names body = is_given body.name || is_given body.description

abbrev pub with_names : ℕ → UpdateFileBody → FileRow → FileRow
with_names now body row = record row {
  name = or_else body.name row.name;
  description = or_old body.description row.description;
  updated_at = now;
}

-- Another row than `id` with the key that `row` would have under a new name.
abbrev pub in_conflict : (id name : String) → FileRow → FileRow → Bool
in_conflict id name row another =
    not (another.id == id)
    && (has_key name row.file_module row.external_id another || has_path name row.path another)

abbrev pub would_conflict : UpdateFileBody → FileStore → FileRow → Bool
would_conflict body s row =
    row.id == body.id && any (in_conflict body.id (or_else body.name row.name) row) s.files

-- updateVersion
abbrev pub update_version : UploadOutside → (file_id last_version_id : String) → Exec FileStore ℕ
update_version o file_id last_version_id s = (
  ok (length (select_where (file_id_is file_id) s.files)),
  record s {
    files =
        update_where (file_id_is file_id) (with_last_version o.updated_at last_version_id) s.files;
  },
)

-- delete
abbrev pub delete_file : (now : ℕ) → String → Exec FileStore ℕ
delete_file now id s = (
  ok (length (select_where (live_file_is id) s.files)),
  record s {
    files =
        update_where (live_file_is id)
          (λ row. record row { deleted_at = some now; updated_at = now }) s.files;
  },
)

module _ (p : FilePlatform) (o : UploadOutside) (body : UpdateFileBody) where
  -- db.update(fileTable).set({ name, description, … }), under the two unique indexes
  unfoldable pub set_names : Exec FileStore (Unit {0})
  set_names s =
      if any (would_conflict body s) s.files
      then (throw (error "U_name_module_externalId"), s)
      else (
        ok tt,
        record s {
          files = update_where (file_id_is body.id) (with_names o.updated_at body) s.files;
        },
      )

  -- insert(versionTable).values(uploaded).returning(), under unique_version_file
  abbrev pub insert_version : FileVersion → Exec FileStore FileVersion
  insert_version uploaded s =
      if any (same_version uploaded) s.versions
      then (throw (error "unique_version_file"), s)
      else (ok uploaded, record s { versions = insert uploaded s.versions })

  -- `if (update.file)`
  unfoldable pub put_content : File → Option String → Exec FileStore (Unit {0})
  put_content existing none = pure tt
  put_content existing (some mimetype) = do
    full_path ← lift (
        get_file_path p existing.user_id (or_else body.name existing.name) existing.file_module
          existing.external_id)
    uploaded ← upload_version o existing.user_id body.id full_path mimetype
    version ← insert_version uploaded
    update_version o body.id version.id
    pure tt

  -- update
  unfoldable pub update_file : Exec FileStore File
  update_file = do
    found ← gets (find_file_by_id body.id)
    existing ← or_throw found (http bad_request "file.notFoundWithId")
    (if has_names body then set_names else pure tt)
    put_content existing body.file
    result ← gets (find_file_by_id body.id)
    or_throw result (http bad_request "file.notFoundAfterUpdate")

abbrev pub is_staff : Option RoleType → Bool
is_staff none = false
is_staff (some RoleType.manager) = true
is_staff (some RoleType.admin) = true
is_staff (some RoleType.user) = false
is_staff (some RoleType.public) = false

-- `file.userId !== currentUserId && currentRoleType !== MANAGER && currentRoleType !== ADMIN`
abbrev pub is_denied : File → (current_user_id : String) → Option RoleType → Bool
is_denied file current_user_id role = not (file.user_id == current_user_id) && not (is_staff role)

abbrev check_access : (id current_user_id : String) → Option RoleType → Exec FileStore (Unit {0})
check_access id current_user_id role = do
  found ← gets (find_file_by_id id)
  file ← or_throw found (http not_found "file.notFound")
  throw_if (is_denied file current_user_id role) (http forbidden "file.accessDenied")

-- FileUpdateHandler.execute
unfoldable pub file_update :
    FilePlatform
    → UploadOutside
    → UpdateFileBody
    → (current_user_id : String) → Option RoleType
    → Exec FileStore File
file_update p o body current_user_id role = do
  check_access body.id current_user_id role
  update_file p o body

-- FileDeleteHandler.execute
unfoldable pub file_delete :
    (now : ℕ) → (id current_user_id : String) → Option RoleType → Exec FileStore Bool
file_delete now id current_user_id role = do
  check_access id current_user_id role
  affected ← delete_file now id
  pure (ltb 0 affected)
