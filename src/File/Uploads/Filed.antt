-- ===== src/File/Uploads/Filed.antt =====
-- An upload that succeeds answers with the file that it was filed as.
use nest_rest_backend_templa.Prelude.{
  subst, String, ◌≡◌, refl, Bool, true, false, ◌&&◌, ◌==◌, string_eq, eq_iff, any, Bool-cases,
  Option-cases, inl, inr, split, join_but_last,
}
use nest_rest_backend_templa.Exec.{Exec, Result, ok, throw, continue, ◌>>=◌}
use nest_rest_backend_templa.Sql.{select_first}
use nest_rest_backend_templa.Sql.Laws.{select_first-holds}
use nest_rest_backend_templa.File.Store.{
  FileStore, FileRow, FileVersion, File, FileFrom, file_from_eq, file_from_equals_iff,
}
use nest_rest_backend_templa.File.Adapter.{FilePlatform, get_file_path}
use nest_rest_backend_templa.File.Uploads.{
  UploadFileBody, UploadOutside, has_key, has_path, save_file, upload_version, save_version,
  same_version, set_last_version, save_last, save_upload, upload_one, committed, transaction,
}

-- The name, the module and the external id of a row, and of a file, are those of the upload.
abbrev pub HasKey : UploadFileBody → (name : String) → FileFrom → (external_id : String) → Type 0
HasKey body name file_module external_id =
    (name ≡ body.name) × (file_module ≡ body.file_module) × (external_id ≡ body.external_id)

abbrev pub IsFiled : UploadFileBody → File → Type 0
IsFiled body file = HasKey body file.name file.file_module file.external_id

abbrev RowIsFiled : UploadFileBody → FileRow → Type 0
RowIsFiled body row = HasKey body row.name row.file_module row.external_id

-- What holds of the value that a method returns.
abbrev Gives : {A : Type 0} → (A → Type 0) → Result A → Type 0
Gives P (ok a) = P a
Gives P (throw t) = Unit

continue-Gives :
    {A B : Type 0} (P : A → Type 0) (Q : B → Type 0) (r : Result A) (f : A → Exec FileStore B)
    (s : FileStore)
    → Gives P r
    → ((a : A) → P a → Gives Q (f a s).0)
    → Gives Q (continue r f s).0
continue-Gives P Q (ok a) f s first later = later a first
continue-Gives P Q (throw t) f s first later = tt

anything-Gives : {A : Type 0} (r : Result A) → Gives (λ a. Unit {0}) r
anything-Gives (ok a) = tt
anything-Gives (throw t) = tt

bind-Gives :
    {A B : Type 0} (Q : B → Type 0) (m : Exec FileStore A) (f : A → Exec FileStore B)
    (s : FileStore)
    → ((a : A) (t : FileStore) → Gives Q (f a t).0)
    → Gives Q ((m >>= f) s).0
bind-Gives Q m f s later =
    continue-Gives (λ a. Unit {0}) Q (m s).0 f (m s).1 (anything-Gives (m s).0)
      (λ a u. later a (m s).1)

all_three : (a b c : Bool) → a && (b && c) ≡ true → (a ≡ true) × (b ≡ true) × (c ≡ true)
all_three false b c h = absurd cc
all_three true false c h = absurd cc
all_three true true c h = (refl, refl, h)

found-HasKey :
    (body : UploadFileBody) (row : FileRow)
    → has_key body.name body.file_module body.external_id row ≡ true
    → RowIsFiled body row
found-HasKey body row h =
    let (name, file_module, external_id) =
      all_three (row.name == body.name) (row.file_module == body.file_module)
        (row.external_id == body.external_id) h in
    (
      (eq_iff row.name body.name).0 name,
      (file_from_equals_iff row.file_module body.file_module).0 file_module,
      (eq_iff row.external_id body.external_id).0 external_id,
    )

module _ (o : UploadOutside) (user_id : String) (body : UploadFileBody) where
  save_file-Gives :
      (path : String) (s : FileStore)
      → Gives
          (RowIsFiled body)
          (save_file o user_id path body
            (select_first (has_key body.name body.file_module body.external_id) s.files)
            s).0
  unfolding save_file
  save_file-Gives path s =
      elim (Option-cases
        (select_first (has_key body.name body.file_module body.external_id) s.files)) [
          | inl free ↦ elim (Bool-cases (any (has_path body.name path) s.files)) [
            | inl taken ↦ rw (free, taken) tt
            | inr fresh ↦ rw (free, fresh) (refl, refl, refl)
          ]
          | inr (row, found) ↦ rw found (
              found-HasKey body row (
                select_first-holds (has_key body.name body.file_module body.external_id) s.files row
                  found))
        ]

  save_last-Gives :
      (saved : FileRow) (uploaded : FileVersion) (s : FileStore)
      → RowIsFiled body saved
      → Gives (IsFiled body) (save_last o user_id saved uploaded s).0
  unfolding save_last save_version set_last_version
  save_last-Gives saved uploaded s h =
      elim (Option-cases (select_first (same_version uploaded) s.versions)) [
        | inl fresh ↦ rw fresh h
        | inr (old, there) ↦ rw there h
      ]

  save_upload-Gives :
      (full_path : String) (s : FileStore)
      → Gives (IsFiled body) (save_upload o user_id full_path body s).0
  unfolding save_upload
  save_upload-Gives full_path s =
      let saving =
        save_file o user_id (join_but_last "/" (split 0x2f full_path)) body
          (select_first (has_key body.name body.file_module body.external_id) s.files) s in
      continue-Gives (RowIsFiled body) (IsFiled body) saving.0 _ saving.1
        (save_file-Gives (join_but_last "/" (split 0x2f full_path)) s)
        (λ saved filed.
          bind-Gives (IsFiled body) (upload_version o user_id saved.id full_path body.mimetype)
            (save_last o user_id saved) saving.1
            (λ uploaded u. save_last-Gives saved uploaded u filed))

  committed-Gives :
      (before : FileStore) (r : Result File) (t : FileStore)
      → Gives (IsFiled body) r
      → Gives (IsFiled body) (committed before (r, t)).0
  committed-Gives before (ok file) t h = h
  committed-Gives before (throw e) t h = tt

  upload_one-Gives :
      (p : FilePlatform) (s : FileStore) → Gives (IsFiled body) (upload_one p o user_id body s).0
  unfolding upload_one
  upload_one-Gives p s =
      let path = get_file_path p user_id body.name body.file_module body.external_id in
      continue-Gives (λ t. Unit {0}) (IsFiled body) path
        (λ full_path. transaction (save_upload o user_id full_path body)) s (anything-Gives path)
        (λ full_path u.
          committed-Gives s (save_upload o user_id full_path body s).0
            (save_upload o user_id full_path body s).1 (save_upload-Gives full_path s))

  pub upload_one-IsFiled :
      (p : FilePlatform) (s : FileStore) (file : File)
      → (upload_one p o user_id body s).0 ≡ ok file
      → IsFiled body file
  upload_one-IsFiled p s file e = subst (Gives (IsFiled body)) e (upload_one-Gives p s)
