-- ===== src/File/Adapter.antt =====
-- infrastructure/adapters/s3.adapter.ts, and the library calls behind it.
use Prim.Native.String
use nest_rest_backend_templa.Prelude.{
  ℕ, String, Option, none, some, Bool, false, ◌||◌, ◌&&◌, ◌==◌, string_eq, nat_eq, has_char,
  if◌then◌else◌,
}
use Prim.Native.Char.{code}
use nest_rest_backend_templa.Exec.{Exec, Result, ok, throw, http, error, bad_request}
use nest_rest_backend_templa.Sql.{insert}
use nest_rest_backend_templa.File.Store.{FileStore, FileFrom, user, public, PutObject}

-- The configured name of the environment, and the slug that the library `slugify` makes of a name.
pub record FilePlatform : Type 0 where
  pub environment : String
  pub slugify : String → String

-- What a `PutObject` of S3 answers, or the message that it throws; and so the `HeadObject` after it.
pub record PutOutside : Type 0 where
  pub put_error : Option String
  pub key : Option String
  pub version_id : Option String
  pub head_error : Option String
  pub content_length : Option ℕ

-- What a `GetObject` of S3 answers.
pub record S3Object : Type 0 where
  pub body : Option String
  pub content_type : Option String
  pub content_length : Option ℕ
  pub last_modified : Option String
  pub e_tag : Option String

abbrev starts_with_dot : String → Bool
starts_with_dot String.[] = false
starts_with_dot (String.◌∷◌ c s) = code c == 0x2e

-- /\.\./ matches
unfoldable pub has_dots : String → Bool
has_dots String.[] = false
has_dots (String.◌∷◌ c s) = code c == 0x2e && starts_with_dot s || has_dots s

-- upload.module.toLowerCase()
abbrev pub module_path : FileFrom → String
module_path user = "user"
module_path public = "public"

-- What getFilePath refuses.
abbrev pub is_invalid_path : (user_id name external_id : String) → Bool
is_invalid_path user_id name external_id =
    name == "" || (has_char 0x2f name || has_dots name) || user_id == "" || external_id == ""

abbrev pub file_path :
    FilePlatform → (user_id name : String) → FileFrom → (external_id : String) → String
file_path p user_id name file_module external_id = String.◌++◌ p.environment (
    String.◌++◌ "/" (
      String.◌++◌ (module_path file_module) (
        String.◌++◌ "/" (
          String.◌++◌ external_id
            (String.◌++◌ "/" (String.◌++◌ user_id (String.◌++◌ "/" (p.slugify name))))))))

-- getFilePath
unfoldable pub get_file_path :
    FilePlatform → (user_id name : String) → FileFrom → (external_id : String) → Result String
get_file_path p user_id name file_module external_id =
    if is_invalid_path user_id name external_id
    then throw (http bad_request "file.invalidUploadParameters")
    else ok (file_path p user_id name file_module external_id)

abbrev pub answered_put : Option String → PutObject → Exec FileStore (Unit {0})
answered_put none object s = (ok tt, record s { puts = insert object s.puts })
answered_put (some message) object s = (throw (error message), s)

-- upload
abbrev pub upload : PutOutside → (path mimetype : String) → Exec FileStore (Unit {0})
upload o path mimetype = answered_put o.put_error (record { key = path; content_type = mimetype })
