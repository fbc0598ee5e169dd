-- ===== src/File/Uploads.antt =====
-- `uploads` of infrastructure/repositories/file.repository.drizzle.ts.
pub mod Filed
pub mod Whole
pub mod Again
use nest_rest_backend_templa.Prelude.{
  ℕ, suc, String, Option, none, some, Bool, false, ◌&&◌, any, List, [], ◌∷◌, ◌++◌, length, ◌==◌,
  string_eq, split, join_but_last, if◌then◌else◌,
}
use nest_rest_backend_templa.Exec.{
  Exec, Result, ok, throw, http, error, bad_request, lift, pure, ◌>>=◌, ◌>>◌,
}
use nest_rest_backend_templa.Sql.{select_first, update_where, insert}
use nest_rest_backend_templa.File.Store.{
  FileStore, FileRow, FileVersion, File, FileFrom, FileType, file_from_eq, to_domain, file_is,
}
use nest_rest_backend_templa.File.Adapter.{FilePlatform, PutOutside, get_file_path, upload}

-- UploadFileBody, with the part of its file that is stored beside the bytes.
pub record UploadFileBody : Type 0 where
  pub name : String
  pub description : Option String
  pub file_module : FileFrom
  pub external_id : String
  pub type : FileType
  pub mimetype : String

-- What one turn of the loop meets outside: the ids that the database draws, its clock and the
-- service's, and S3.
pub record UploadOutside : Type 0 where
  pub file_id : String
  pub version_row_id : String
  pub created_at : ℕ
  pub updated_at : ℕ
  pub s3 : PutOutside

-- The columns of the index U_name_module_externalId.
abbrev pub has_key : (name : String) → FileFrom → (external_id : String) → FileRow → Bool
has_key name file_module external_id row =
    row.name == name && (row.file_module == file_module && row.external_id == external_id)

-- The columns of the index U_name_path.
abbrev pub has_path : (name path : String) → FileRow → Bool
has_path name path row = row.name == name && row.path == path

abbrev pub file_id_is : String → FileRow → Bool
file_id_is id row = row.id == id

abbrev pub duplicate_key : String → Result FileRow
duplicate_key index = throw (error index)

abbrev pub with_last_version : (now : ℕ) (version_id : String) → FileRow → FileRow
with_last_version now version_id row = record row {
  last_version_id = some version_id;
  updated_at = now;
}

-- The columns of the index unique_version_file, where a NULL is like no other.
abbrev pub same_version : FileVersion → FileVersion → Bool
same_version uploaded row = elim uploaded.version_id [
  | none ↦ false
  | some version_id ↦
      file_is row.version_id version_id
      && elim uploaded.file_id [ none ↦ false | some file_id ↦ file_is row.file_id file_id ]
]

-- A column in `set`, which is left as it is where the value is undefined.
abbrev pub or_old : Option String → Option String → Option String
or_old none old = old
or_old (some new) old = some new

module _ (o : UploadOutside) (user_id : String) where
  -- .values({ name, path, … })
  abbrev pub file_row : (path : String) → UploadFileBody → FileRow
  file_row path body = record {
    id = o.file_id;
    name = body.name;
    path = path;
    file_module = body.file_module;
    external_id = body.external_id;
    description = body.description;
    type = some body.type;
    last_version_id = none;
    user_id = user_id;
    created_at = o.created_at;
    updated_at = o.created_at;
    deleted_at = none;
  }

  -- .onConflictDoUpdate({ set: … })
  abbrev pub with_upload : UploadFileBody → FileRow → FileRow
  with_upload body row = record row {
    description = or_old body.description row.description;
    type = some body.type;
    updated_at = o.updated_at;
  }

  -- The insert and its conflicts: on the key the row there is updated, on the path it throws.
  unfoldable pub save_file :
      (path : String) → UploadFileBody → Option FileRow → Exec FileStore FileRow
  save_file path body (some row) s = (
    ok (with_upload body row),
    record s {
      files =
          update_where (has_key body.name body.file_module body.external_id) (with_upload body)
            s.files;
    },
  )
  save_file path body none s =
      if any (has_path body.name path) s.files
      then (duplicate_key "U_name_path", s)
      else (ok (file_row path body), record s { files = insert (file_row path body) s.files })

  abbrev pub or_zero : Option ℕ → ℕ
  or_zero none = 0
  or_zero (some n) = n

  abbrev pub version_row : (file_id mimetype : String) → FileVersion
  version_row file_id mimetype = record {
    id = o.version_row_id;
    mimetype = mimetype;
    size = or_zero o.s3.content_length;
    version_id = o.s3.version_id;
    file_id = some file_id;
    user_id = some user_id;
    created_at = o.created_at;
    updated_at = o.created_at;
    deleted_at = none;
  }

  abbrev pub after_head : FileVersion → Option String → Exec FileStore FileVersion
  after_head version none = pure version
  after_head version (some message) = lift (throw (error message))

  -- `if (!result.Key) throw …`
  abbrev pub checked_head : FileVersion → Option String → Exec FileStore FileVersion
  checked_head version none = lift (throw (http bad_request "file.s3UploadFailed"))
  checked_head version (some key) =
      if key == ""
      then lift (throw (http bad_request "file.s3UploadFailed"))
      else after_head version o.s3.head_error

  -- uploadVersion
  unfoldable pub upload_version : (file_id full_path mimetype : String) → Exec FileStore FileVersion
  upload_version file_id full_path mimetype = do
    upload o.s3 full_path mimetype
    checked_head (version_row file_id mimetype) o.s3.key

  abbrev pub with_size : FileVersion → FileVersion → FileVersion
  with_size uploaded row = record row {
    mimetype = uploaded.mimetype;
    size = uploaded.size;
    updated_at = o.updated_at;
  }

  -- insert(versionTable).values(uploaded).onConflictDoUpdate(…)
  unfoldable pub save_version : FileVersion → Option FileVersion → Exec FileStore FileVersion
  save_version uploaded none s = (ok uploaded, record s { versions = insert uploaded s.versions })
  save_version uploaded (some row) s = (
    ok (with_size uploaded row),
    record s { versions = update_where (same_version uploaded) (with_size uploaded) s.versions },
  )

  -- update(fileTable).set({ lastVersionId, … }).where(id = …)
  unfoldable pub set_last_version : (version_id : String) → FileRow → Exec FileStore FileRow
  set_last_version version_id row s = (
    ok (with_last_version o.updated_at version_id row),
    record s {
      files = update_where (file_id_is row.id) (with_last_version o.updated_at version_id) s.files;
    },
  )

  -- The callback of the transaction, after `uploadVersion`.
  unfoldable pub save_last : FileRow → FileVersion → Exec FileStore File
  save_last saved uploaded s =
      (do
        version ← save_version uploaded (select_first (same_version uploaded) s.versions)
        updated ← set_last_version version.id saved
        pure (to_domain updated (some version)))
        s

  -- The callback of the transaction.
  unfoldable pub save_upload : (full_path : String) → UploadFileBody → Exec FileStore File
  save_upload full_path body s =
      (do
        saved ←
            save_file (join_but_last "/" (split 0x2f full_path)) body
              (select_first (has_key body.name body.file_module body.external_id) s.files)
        uploaded ← upload_version saved.id full_path body.mimetype
        save_last saved uploaded)
        s

-- What a throw inside a transaction leaves: the tables as they were; what went to S3 stays there.
abbrev pub committed : {A : Type 0} → FileStore → Result A × FileStore → Result A × FileStore
committed before (ok a, after) = (ok a, after)
committed before (throw t, after) = (throw t, record before { puts = after.puts })

abbrev pub transaction : {A : Type 0} → Exec FileStore A → Exec FileStore A
transaction m s = committed s (m s)

module _ (p : FilePlatform) where
  -- One turn of the loop.
  unfoldable pub upload_one :
      UploadOutside → (user_id : String) → UploadFileBody → Exec FileStore File
  upload_one o user_id body = do
    full_path ← lift (get_file_path p user_id body.name body.file_module body.external_id)
    transaction (save_upload o user_id full_path body)

  -- uploads, from the turn `i` on
  unfoldable pub upload_from :
      (ℕ → UploadOutside)
      → (user_id : String) → (i : ℕ) → List UploadFileBody
      → Exec FileStore (List File)
  upload_from o user_id i [] = pure []
  upload_from o user_id i (body ∷ bodies) = do
    file ← upload_one (o i) user_id body
    files ← upload_from o user_id (suc i) bodies
    pure (file ∷ files)

  -- uploads
  abbrev pub uploads :
      (ℕ → UploadOutside)
      → (user_id : String) → List UploadFileBody
      → Exec FileStore (List File × ℕ)
  uploads o user_id bodies = do nodes ← upload_from o user_id 0 bodies; pure (nodes, length nodes)
