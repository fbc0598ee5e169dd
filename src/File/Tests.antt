-- ===== src/File/Tests.antt =====
-- Runs of the file module on concrete data, and its theorems at those inputs.
use mathlib.Core.List.{Permᴰ}
use mathlib.Core.List.Permᴰ
use nest_rest_backend_templa.Prelude.{
  ℕ, suc, length, String, ◌≡◌, refl, ◌↔◌, Option, none, some, true, false, List, [], ◌∷◌, ◌++◌, any,
  All, ◌≢◌, present, arith, has_char, split, join_but_last, if◌then◌else◌, string_eq,
}
use nest_rest_backend_templa.Exec.{Result, ok, throw, error, is_ok}
use nest_rest_backend_templa.Sql.{select_first}
use nest_rest_backend_templa.Auth.Platform.{RoleType}
use nest_rest_backend_templa.File.Store.{
  FileStore, PutObject, FileRow, FileVersion, File, user, user_file, find_file_by_id, live_file_is,
  live_file_is,
}
use nest_rest_backend_templa.File.Adapter.{
  FilePlatform, PutOutside, S3Object, has_dots, is_invalid_path,
}
use nest_rest_backend_templa.File.Uploads.{
  UploadFileBody, UploadOutside, has_key, upload_one, upload_from,
}
use nest_rest_backend_templa.File.Uploads.Whole.{Ended, uploads_end_whole}
use nest_rest_backend_templa.File.Uploads.Again.{upload_stays_deleted}
use nest_rest_backend_templa.File.Update.{UpdateFileBody, update_file, file_delete}
use nest_rest_backend_templa.File.Update.Refused.{DeleteOutcome, file_delete_outcome}
use nest_rest_backend_templa.File.Update.Renamed.{key_is, rename_breaks_download}
use nest_rest_backend_templa.File.Download.{DownloadParams, Reply, download, who_asks}
use nest_rest_backend_templa.File.Download.Access.{
  MayRead, VersionFits, OnlyRow, by_owner, download_iff,
}
use nest_rest_backend_templa.File.Listing.{FileDto, files_get}
use nest_rest_backend_templa.File.Listing.Pages.{
  walk, pages_of, items_of, listed, IsOrder, pages_of_any_order,
}
use nest_rest_backend_templa.File.Journey.{IsNew, upload_then_download, sent}
use nest_rest_backend_templa.File.Requests.{
  Part, field, file, parse_parts, parse_current_user_uploads, IsOwn,
  parse_current_user_uploads-IsOwn,
}

abbrev platform : FilePlatform
platform = record { environment = "dev"; slugify = λ name. name }

abbrev s3 : PutOutside
s3 = record {
  put_error = none;
  key = some "k";
  version_id = some "s3v2";
  head_error = none;
  content_length = some 7;
}

abbrev turn : UploadOutside
turn = record { file_id = "f2"; version_row_id = "v2"; created_at = 10; updated_at = 11; s3 = s3 }

abbrev body : UploadFileBody
body = record {
  name = "b.txt";
  description = none;
  file_module = user;
  external_id = "u1";
  type = user_file;
  mimetype = "text/plain";
}

abbrev old_version : FileVersion
old_version = record {
  id = "v1";
  mimetype = "text/plain";
  size = 3;
  version_id = some "s3v1";
  file_id = some "f1";
  user_id = some "u1";
  created_at = 1;
  updated_at = 1;
  deleted_at = none;
}

abbrev old_file : FileRow
old_file = record {
  id = "f1";
  name = "a.txt";
  path = "dev/user/u1/u1";
  file_module = user;
  external_id = "u1";
  description = none;
  type = some user_file;
  last_version_id = some "v1";
  user_id = "u1";
  created_at = 1;
  updated_at = 1;
  deleted_at = none;
}

abbrev start : FileStore
start = record {
  files = old_file ∷ [];
  versions = old_version ∷ [];
  puts = record { key = "dev/user/u1/u1/a.txt"; content_type = "text/plain" } ∷ [];
}

abbrev content : S3Object
content = record {
  body = some "text";
  content_type = none;
  content_length = none;
  last_modified = none;
  e_tag = none;
}

-- An S3 that holds every key.
abbrev any_key : String → Option String → Result S3Object
any_key path v = ok content

-- An S3 that holds what was put.
abbrev holding : List PutObject → String → Option String → Result S3Object
holding puts path v = if any (key_is path) puts then ok content else throw (error "NoSuchKey")

abbrev asks : DownloadParams
asks = by_owner "f1" "u1"

only : OnlyRow old_file start
only = record { before = []; after = []; is_there = refl; first = tt; last = tt }

a_is_valid : is_invalid_path "u1" "a.txt" "u1" ≡ false
unfolding has_char has_dots
a_is_valid = refl

b_is_valid : is_invalid_path "u1" "b.txt" "u1" ≡ false
unfolding has_char has_dots
b_is_valid = refl

download_iff_example :
    (is_ok (download platform any_key asks start).0 ≡ true)
    ↔ (MayRead (who_asks asks) old_file × VersionFits (present none) "f1" start)
download_iff_example =
    download_iff platform any_key asks start old_file only refl refl a_is_valid (λ path v. content)
      (λ path v. "text") (λ path v. refl) (λ path v. refl)

file_delete_outcome_example :
    DeleteOutcome 5 "f1" "u2"
      (some RoleType.user)
      start
      (find_file_by_id "f1" start)
      (file_delete 5 "f1" "u2" (some RoleType.user) start)
file_delete_outcome_example = file_delete_outcome 5 "f1" "u2" (some RoleType.user) start

uploads_end_whole_example :
    Ended platform "u1"
      (λ i. turn)
      0
      (body ∷ body ∷ [])
      start
      (upload_from platform (λ i. turn) "u1" 0 (body ∷ body ∷ []) start)
uploads_end_whole_example = uploads_end_whole platform "u1" (λ i. turn) (body ∷ body ∷ []) start

abbrev new_name : UpdateFileBody
new_name = record { id = "f1"; name = some "b.txt"; description = none; file = none }

old_found : select_first (live_file_is "f1") start.files ≡ some old_file
unfolding select_first
old_found = refl

no_put :
    (puts : List PutObject) (path : String) (v : Option String)
    → any (key_is path) puts ≡ false
    → holding puts path v ≡ throw (error "NoSuchKey")
no_put puts path v h = rw h refl

rename_breaks_download_example :
    (is_ok (update_file platform turn new_name start).0 ≡ true)
    × ((download platform
          (holding (update_file platform turn new_name start).1.puts)
          (by_owner "f1" "u1")
          (update_file platform turn new_name start).1).0
        ≡ throw (error "NoSuchKey"))
    × ((update_file platform turn new_name start).1.puts ≡ start.puts)
rename_breaks_download_example =
    rename_breaks_download platform turn new_name start old_file "b.txt" refl refl old_found refl
      holding b_is_valid (error "NoSuchKey") no_put refl

abbrev deleted_start : FileStore
deleted_start = record start { files = record old_file { deleted_at = some 4 } ∷ [] }

abbrev same_key : UploadFileBody
same_key = record body { name = "a.txt" }

key_found :
    select_first (has_key "a.txt" user "u1") deleted_start.files
    ≡ some (record old_file { deleted_at = some 4 })
unfolding select_first
key_found = refl

it_is_deleted : select_first (live_file_is "f1") deleted_start.files ≡ none
unfolding select_first
it_is_deleted = refl

upload_stays_deleted_example :
    (file : File) × ((upload_one platform turn "u1" same_key deleted_start).0 ≡ ok file)
    × (file.id ≡ "f1")
    × (find_file_by_id file.id (upload_one platform turn "u1" same_key deleted_start).1 ≡ none)
upload_stays_deleted_example =
    upload_stays_deleted platform turn "u1" same_key deleted_start
      (record old_file { deleted_at = some 4 }) key_found a_is_valid refl "k" refl refl refl
      it_is_deleted

b_is_new : IsNew platform turn "u1" body start
unfolding select_first split join_but_last
b_is_new = record {
  valid = b_is_valid;
  key_free = refl;
  path_free = refl;
  id_free = refl;
  version_id_free = refl;
  version_free = refl;
  put_ok = refl;
  key = "k";
  keyed = refl;
  not_empty = refl;
  head_ok = refl;
}

upload_then_download_example :
    (file : File) × ((upload_one platform turn "u1" body start).0 ≡ ok file)
    × ((upload_one platform turn "u1" body start).1.puts
        ≡ start.puts ++ sent platform turn "u1" body start ∷ [])
    × (r : Reply) × ((download platform any_key
          (by_owner file.id "u1")
          (upload_one platform turn "u1" body start).1).0
        ≡ ok r)
    × (r.body ≡ "text")
upload_then_download_example =
    upload_then_download platform turn "u1" body start b_is_new any_key content "text" refl refl

as_they_are : IsOrder (λ rows. rows)
as_they_are rows = Permᴰ.refl rows

pages_of_any_order_example :
    ((k : ℕ)
      → (before : List FileDto) × (after : List FileDto) × Permᴰ
          (before ++ (items_of (files_get (λ rows. rows) (some (suc k)) (some 2) start) ++ after))
          (listed start))
    × (walk (λ k rows. rows) 2 0 (pages_of (files_get (λ rows. rows) (some 1) (some 2) start)) start
        ≡ length (listed start))
pages_of_any_order_example =
    pages_of_any_order (λ k rows. rows) start (λ k. as_they_are) 2 (omega arith)

abbrev parts : List Part
parts = field "name" (some "notes") ∷ file "file" (some "n.txt") (some "text/plain") ∷ []

abbrev parsed : UploadFileBody
parsed = record body { name = "notes" }

it_is_parsed : parse_current_user_uploads (λ text. text) "u1" (some parts) ≡ ok (parsed ∷ [])
unfolding parse_current_user_uploads parse_parts
it_is_parsed = refl

parse_current_user_uploads-IsOwn_example :
    (parsed ∷ [] ≢ []) × All (IsOwn (λ text. text) "u1") (parsed ∷ [])
parse_current_user_uploads-IsOwn_example =
    parse_current_user_uploads-IsOwn (λ text. text) "u1" parts (parsed ∷ []) it_is_parsed
