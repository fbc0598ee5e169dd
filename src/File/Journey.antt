-- ===== src/File/Journey.antt =====
-- A new file is uploaded and then downloaded.

use text.Mathlib.TextPositions.{eq_refl}
use nest_rest_backend_templa.Prelude.{
  String, ◌≡◌, refl, ap, ◌∙◌, Option, none, some, false, ◌&&◌, any, [], ◌∷◌, ◌++◌, ◌==◌, string_eq,
  arith, split, last_part, join_but_last,
}
use nest_rest_backend_templa.Exec.{Result, ok}
use nest_rest_backend_templa.Sql.{select_first, update_where}
use nest_rest_backend_templa.Sql.Laws.{
  select_first-append, select_first-none, update_where-append, update_where-none,
}
use nest_rest_backend_templa.File.Store.{
  FileStore, FileRow, FileVersion, File, PutObject, to_domain, version_id_is, live_file_is,
  module_is, find_file_by, file_from_eq,
}
use nest_rest_backend_templa.File.Adapter.{
  FilePlatform, S3Object, get_file_path, file_path, is_invalid_path,
}
use nest_rest_backend_templa.File.Uploads.{
  UploadFileBody, UploadOutside, has_key, has_path, file_id_is, file_row, version_row, same_version,
  with_last_version, save_file, upload_version, save_version, set_last_version, save_last,
  save_upload, upload_one,
}
use nest_rest_backend_templa.File.Download.{Reply, send_object, download_for, download, reply_with}
use nest_rest_backend_templa.File.Download.Access.{by_owner, owner_logs_in}

module _ (p : FilePlatform) (o : UploadOutside) (user_id : String) (body : UploadFileBody)
    (s : FileStore) where
  abbrev full_path : String
  full_path = file_path p user_id body.name body.file_module body.external_id

  abbrev row : FileRow
  row = file_row o user_id (join_but_last "/" (split 0x2f full_path)) body

  abbrev version : FileVersion
  version = version_row o user_id o.file_id body.mimetype

  abbrev saved_row : FileRow
  saved_row = with_last_version o.updated_at o.version_row_id row

  abbrev pub sent : PutObject
  sent = record { key = full_path; content_type = body.mimetype }

  abbrev after_upload : FileStore
  after_upload = record {
    files = s.files ++ saved_row ∷ [];
    versions = s.versions ++ version ∷ [];
    puts = s.puts ++ sent ∷ [];
  }

  -- The file is new: its key and path are free, and so are the ids that the database draws; S3
  -- takes the content, under a version that is new.
  pub record IsNew : Type 0 where
    pub valid : is_invalid_path user_id body.name body.external_id ≡ false
    pub key_free : select_first (has_key body.name body.file_module body.external_id) s.files ≡ none
    pub path_free : any (has_path body.name row.path) s.files ≡ false
    pub id_free : any (file_id_is o.file_id) s.files ≡ false
    pub version_id_free : any (version_id_is o.version_row_id) s.versions ≡ false
    pub version_free : select_first (same_version version) s.versions ≡ none
    pub put_ok : o.s3.put_error ≡ none
    pub key : String
    pub keyed : o.s3.key ≡ some key
    pub not_empty : (key == "") ≡ false
    pub head_ok : o.s3.head_error ≡ none

  module _ (new : IsNew) where
    files_updated :
        update_where
          (file_id_is o.file_id)
          (with_last_version o.updated_at o.version_row_id)
          (s.files ++ row ∷ [])
        ≡ s.files ++ saved_row ∷ []
    unfolding update_where
    files_updated =
        update_where-append (file_id_is o.file_id) _ s.files (row ∷ [])
        ∙ (rw
            (update_where-none (file_id_is o.file_id)
              (with_last_version o.updated_at o.version_row_id) s.files new.id_free)
            (simp (eq_refl)))

    upload_one-eq :
        upload_one p o user_id body s ≡ (ok (to_domain saved_row (some version)), after_upload)
    unfolding upload_one get_file_path save_upload save_file upload_version save_last save_version
        set_last_version
    upload_one-eq = simp (
      new.valid, new.key_free, new.path_free, new.put_ok, new.keyed, new.not_empty, new.head_ok,
      new.version_free, files_updated,
    )

    row_found :
        select_first (λ r. live_file_is o.file_id r && module_is none r) after_upload.files
        ≡ some saved_row
    unfolding select_first
    row_found =
        select_first-append (λ r. live_file_is o.file_id r && module_is none r) s.files
          (saved_row ∷ [])
        ∙ rw
            (select_first-none (λ r. live_file_is o.file_id r && module_is none r)
              (file_id_is o.file_id) s.files (λ r h. ground arith) new.id_free)
            (simp (eq_refl))

    version_found :
        select_first (version_id_is o.version_row_id) after_upload.versions ≡ some version
    unfolding select_first
    version_found =
        select_first-append (version_id_is o.version_row_id) s.versions (version ∷ [])
        ∙ rw
            (select_first-none (version_id_is o.version_row_id) (version_id_is o.version_row_id)
              s.versions (λ r h. h) new.version_id_free)
            (simp (eq_refl))

    found_uploaded :
        find_file_by o.file_id none after_upload ≡ some (to_domain saved_row (some version))
    found_uploaded = simp (row_found, version_found)

    module _ (fetch : String → Option String → Result S3Object) (object : S3Object) (text : String)
        (fetched : fetch full_path o.s3.version_id ≡ ok object)
        (sent_text : object.body ≡ some text) where
      downloaded :
          (r : Reply) × (download p fetch (by_owner o.file_id user_id) after_upload
            ≡ (ok r, after_upload))
          × (r.body ≡ text)
      unfolding download_for send_object get_file_path reply_with
      downloaded = (
        reply_with (to_domain saved_row (some version)) (some version) object
            (last_part (split 0x2f full_path)) text,
        simp (
          owner_logs_in o.file_id user_id (ground (arith, new.valid)),
          found_uploaded,
          eq_refl,
          new.valid,
          fetched,
          sent_text,
        ),
        refl,
      )

      -- A new file that was uploaded can be downloaded by its owner: one object goes to S3, at the
      -- file's path, and the download answers with the body that S3 holds at that path under the
      -- version that S3 gave to the upload.
      pub upload_then_download :
          (file : File) × ((upload_one p o user_id body s).0 ≡ ok file)
          × ((upload_one p o user_id body s).1.puts ≡ s.puts ++ sent ∷ [])
          × (r : Reply) × ((download p fetch
                (by_owner file.id user_id)
                (upload_one p o user_id body s).1).0
              ≡ ok r)
          × (r.body ≡ text)
      upload_then_download = (
        to_domain saved_row (some version),
        ap (λ (x : Result File × FileStore). x.0) upload_one-eq,
        ap (λ (x : Result File × FileStore). x.1.puts) upload_one-eq,
        downloaded.0,
        rw upload_one-eq (ap (λ (x : Result Reply × FileStore). x.0) downloaded.1),
        downloaded.2,
      )
