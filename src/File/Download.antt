-- ===== src/File/Download.antt =====
-- `download` of infrastructure/repositories/file.repository.drizzle.ts.
pub mod Access
use Prim.Native.String
use nest_rest_backend_templa.Prelude.{
  ℕ, String, Option, none, some, Bool, true, false, not, ◌&&◌, ◌||◌, ◌==◌, string_eq, nat_eq,
  present, starts_with, split, last_part, if◌then◌else◌,
}
use nest_rest_backend_templa.Exec.{
  Exec, Result, ok, throw, http, bad_request, forbidden, lift, pure, gets, raise, throw_if,
  or_throw, ◌>>=◌, ◌>>◌,
}
use nest_rest_backend_templa.Auth.Platform.{RoleType}
use nest_rest_backend_templa.File.Store.{
  FileStore, FileVersion, File, FileFrom, user, public, find_file_by, find_version_by_id, file_is,
  or_second, or_text,
}
use nest_rest_backend_templa.File.Adapter.{FilePlatform, S3Object, get_file_path}
use nest_rest_backend_templa.File.Update.{is_denied}

pub record DownloadParams : Type 0 where
  pub file_id : String
  pub version_id : Option String
  pub current_user_id : Option String
  pub current_role_type : Option RoleType

-- The headers that are set on the reply, and the body that is sent.
pub record Reply : Type 0 where
  pub content_type : String
  pub content_disposition : String
  pub content_length : Option ℕ
  pub last_modified : Option String
  pub e_tag : Option String
  pub cache_control : String
  pub body : String

-- `currentUserId && currentRoleType`
abbrev pub known_login : Option String → Option RoleType → Option (String × RoleType)
known_login (some user_id) (some role) = some (user_id, role)
known_login (some user_id) none = none
known_login none role = none

abbrev pub who_asks : DownloadParams → Option (String × RoleType)
who_asks params = known_login (present params.current_user_id) params.current_role_type

-- `!currentUserId || !currentRoleType ? FileFrom.PUBLIC : undefined`
abbrev pub module_for : Option (String × RoleType) → Option FileFrom
module_for none = some public
module_for (some who) = none

abbrev pub is_denied_to : File → Option (String × RoleType) → Bool
is_denied_to file none = false
is_denied_to file (some (user_id, role)) = is_denied file user_id (some role)

abbrev pub belongs_to : Option FileVersion → String → Bool
belongs_to none id = false
belongs_to (some version) id = file_is version.file_id id

abbrev not_zero : Option ℕ → Option ℕ
not_zero none = none
not_zero (some n) = if n == 0 then none else some n

abbrev mimetype_of : Option FileVersion → Option String
mimetype_of none = none
mimetype_of (some version) = present (some version.mimetype)

abbrev size_of : Option FileVersion → Option ℕ
size_of none = none
size_of (some version) = some version.size

abbrev version_id_of : Option FileVersion → Option String
version_id_of none = none
version_id_of (some version) = version.version_id

-- /^(image|video|audio)\// matches
abbrev is_media : String → Bool
is_media mimetype =
    starts_with mimetype "image/" || starts_with mimetype "video/" || starts_with mimetype "audio/"

abbrev disposition : (mimetype filename : String) → String
disposition mimetype filename =
    String.◌++◌ (if is_media mimetype then "inline" else "attachment")
      (String.◌++◌ "; filename=\"" (String.◌++◌ filename "\""))

abbrev caching : FileFrom → String
caching public = "public, max-age=604800"
caching user = "private, no-store"

-- The headers and the body; `object.ContentType || version?.mimetype || …`.
unfoldable pub reply_with : File → Option FileVersion → S3Object → (filename body : String) → Reply
reply_with file version object filename body =
    let mimetype =
      or_text (or_second (present object.content_type) (mimetype_of version))
        "application/octet-stream" in
    record {
      content_type = mimetype;
      content_disposition = disposition mimetype filename;
      content_length = not_zero (or_second (not_zero object.content_length) (size_of version));
      last_modified = object.last_modified;
      e_tag = object.e_tag;
      cache_control = caching file.file_module;
      body = body;
    }

abbrev pub last_of : Result String → Result String
last_of (ok path) = ok (last_part (split 0x2f path))
last_of (throw t) = throw t

abbrev sent_body : Option String → Result String
sent_body none = throw (http bad_request "file.s3DownloadFailed")
sent_body (some body) = ok body

-- `fetch` is GetObject of S3, at a key and a version id.
module _ (p : FilePlatform) (fetch : String → Option String → Result S3Object)
    (params : DownloadParams) where
  -- safeFilename
  abbrev pub safe_filename : File → Result String
  safe_filename file =
      last_of (get_file_path p file.user_id file.name file.file_module file.external_id)

  -- downloadObject, `if (!value.Body) throw …`
  abbrev pub body_of : S3Object → Result String
  body_of object = sent_body object.body

  abbrev pub version_wanted : File → Option String → FileStore → Option FileVersion
  version_wanted file none s = file.last_version
  version_wanted file (some version_id) s = find_version_by_id version_id s

  -- `versionId && version?.fileId !== file.id`
  abbrev pub is_foreign : File → Option String → Option FileVersion → Bool
  is_foreign file none version = false
  is_foreign file (some version_id) version = not (belongs_to version file.id)

  -- From `getFilePath` on.
  unfoldable pub send_object : File → Option FileVersion → Exec FileStore Reply
  send_object file version = do
    full_path ← lift (get_file_path p file.user_id file.name file.file_module file.external_id)
    object ← lift (fetch full_path (version_id_of version))
    body ← lift (body_of object)
    filename ← lift (safe_filename file)
    pure (reply_with file version object filename body)

  -- download, for the one who is logged in and the version that is asked for
  unfoldable pub download_for : Option (String × RoleType) → Option String → Exec FileStore Reply
  download_for who asked = do
    found ← gets (find_file_by params.file_id (module_for who))
    file ← or_throw found (http bad_request "file.notFoundWithId")
    throw_if (is_denied_to file who) (http forbidden "file.accessDenied")
    version ← gets (version_wanted file asked)
    throw_if (is_foreign file asked version) (http bad_request "file.versionNotFoundWithId")
    send_object file version

  -- download
  abbrev pub download : Exec FileStore Reply
  download = download_for (who_asks params) (present params.version_id)
