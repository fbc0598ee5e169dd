-- ===== src/File/Uploads/Again.antt =====
-- An upload under the key of a file that was deleted.
use mathlib.Core.Option
use nest_rest_backend_templa.Prelude.{
  String, ◌≡◌, refl, ap, ◌∙◌, none, some, false, [], ◌∷◌, ◌++◌, ◌==◌, string_eq, arith,
  Option-cases, inl, inr,
}
use nest_rest_backend_templa.Exec.{ok}
use nest_rest_backend_templa.Sql.{select_first, update_where, touch}
use nest_rest_backend_templa.Sql.Laws.{select_first-update}
use nest_rest_backend_templa.File.Store.{
  FileStore, FileRow, FileVersion, File, PutObject, to_domain, joined, live_file_is,
  find_file_by_id,
}
use nest_rest_backend_templa.File.Adapter.{FilePlatform, get_file_path, file_path, is_invalid_path}
use nest_rest_backend_templa.File.Uploads.{
  UploadFileBody, UploadOutside, has_key, file_id_is, version_row, same_version, with_upload,
  with_size, with_last_version, save_file, upload_version, save_version, set_last_version,
  save_last, save_upload, upload_one, committed,
}

module _ (p : FilePlatform) (o : UploadOutside) (user_id : String) (body : UploadFileBody)
    (s : FileStore) (row : FileRow)
    (found : select_first (has_key body.name body.file_module body.external_id) s.files ≡ some row)
    (valid : is_invalid_path user_id body.name body.external_id ≡ false)
    (put_ok : o.s3.put_error ≡ none) (key : String) (keyed : o.s3.key ≡ some key)
    (not_empty : (key == "") ≡ false) (head_ok : o.s3.head_error ≡ none) where
  abbrev full_path : String
  full_path = file_path p user_id body.name body.file_module body.external_id

  abbrev saved : FileRow
  saved = with_upload o user_id body row

  abbrev version : FileVersion
  version = version_row o user_id row.id body.mimetype

  abbrev sent : PutObject
  sent = record { key = full_path; content_type = body.mimetype }

  abbrev stored : FileStore
  stored = record s {
    files =
        update_where (has_key body.name body.file_module body.external_id)
          (with_upload o user_id body) s.files;
    puts = s.puts ++ sent ∷ [];
  }

  upload_one-eq :
      upload_one p o user_id body s ≡ committed s (save_last o user_id saved version stored)
  unfolding upload_one get_file_path save_upload save_file upload_version
  upload_one-eq = simp (valid, found, put_ok, keyed, not_empty, head_ok)

  module _ (deleted : select_first (live_file_is row.id) s.files ≡ none) where
    still_deleted :
        (last : String)
        → select_first
            (live_file_is row.id)
            (update_where (file_id_is row.id) (with_last_version o.updated_at last) stored.files)
          ≡ none
    still_deleted last =
        select_first-update (live_file_is row.id) (file_id_is row.id)
          (with_last_version o.updated_at last) stored.files (λ r. ground arith)
        ∙ ap (Option.map (touch (file_id_is row.id) (with_last_version o.updated_at last))) (
            select_first-update (live_file_is row.id)
              (has_key body.name body.file_module body.external_id) (with_upload o user_id body)
              s.files (λ r. ground arith)
            ∙ ap
                (Option.map (
                  touch (has_key body.name body.file_module body.external_id)
                    (with_upload o user_id body)))
                deleted)

    -- An upload whose name, module and external id are those of a deleted file, where S3 takes the
    -- content, answers with that file, but the file stays deleted and cannot be found by its id.
    pub upload_stays_deleted :
        (file : File) × ((upload_one p o user_id body s).0 ≡ ok file)
        × (file.id ≡ row.id)
        × (find_file_by_id file.id (upload_one p o user_id body s).1 ≡ none)
    unfolding save_last save_version set_last_version
    upload_stays_deleted =
        rw upload_one-eq (elim (Option-cases (select_first (same_version version) s.versions)) [
          | inl fresh ↦ rw fresh (
            to_domain (with_last_version o.updated_at version.id saved) (some version),
            refl,
            refl,
            ap (Option.map (joined (s.versions ++ version ∷ []))) (still_deleted version.id),
          )
          | inr (old, there) ↦ rw there (
            to_domain (with_last_version o.updated_at old.id saved)
                (some (with_size o user_id version old)),
            refl,
            refl,
            ap
                (Option.map (
                  joined
                    (update_where (same_version version) (with_size o user_id version) s.versions)))
                (still_deleted old.id),
          )
        ])
