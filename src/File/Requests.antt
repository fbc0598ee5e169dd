-- ===== src/File/Requests.antt =====
-- parseCurrentUserUploads and the routes of presentation/controllers/file.controller.ts.

use nest_rest_backend_templa.Prelude.{
  ℕ, String, ◌≡◌, refl, subst, map, length, nat_eq, Option, none, some, false, ◌≢◌, List, [], ◌∷◌,
  ◌==◌, string_eq, present, All, arith, Bool-cases, inl, inr, if◌then◌else◌,
}
use nest_rest_backend_templa.Exec.{Exec, Result, ok, throw, http, bad_request, lift, pure, ◌>>=◌}
use nest_rest_backend_templa.Common.Paginated.{PaginatedResult, build_paginated}
use nest_rest_backend_templa.File.Adapter.{FilePlatform}
use nest_rest_backend_templa.File.Listing.{FileDto, file_dto}
use nest_rest_backend_templa.File.Store.{
  FileStore, or_second, or_text, user, FileType, user_file, image, video, document, other,
}
use nest_rest_backend_templa.File.Uploads.{UploadFileBody, UploadOutside, uploads}

-- A part of a multipart request; a `value` that is no text is `none`.
pub data Part : Type 0 where
  field : (fieldname : String) (value : Option String) → Part
  file : (fieldname : String) (filename mimetype : Option String) → Part

abbrev pub Fields : Type 0
Fields = String → Option String

abbrev text_of : Option String → String
text_of none = ""
text_of (some text) = text

-- fields[part.fieldname] = …
abbrev pub with_field : String → String → Fields → Fields
with_field name value fields key = if key == name then some value else fields key

-- parseFileType
abbrev pub parse_file_type : Option String → FileType
parse_file_type none = user_file
parse_file_type (some value) =
    if value == "IMAGE"
    then image
    else if value == "VIDEO"
    then video
    else if value == "DOCUMENT"
    then document
    else if value == "OTHER"
    then other
    else user_file

-- `trim` is String.prototype.trim.
module _ (trim : String → String) (current_user_id : String) where
  abbrev trimmed : Option String → Option String
  trimmed none = none
  trimmed (some text) = present (some (trim text))

  -- fields.name?.trim() || part.filename || 'file'
  abbrev pub upload_name : Fields → Option String → String
  upload_name fields filename =
      or_text (or_second (trimmed (fields "name")) (present filename)) "file"

  abbrev pub upload_of : Fields → (filename mimetype : Option String) → UploadFileBody
  upload_of fields filename mimetype = record {
    name = upload_name fields filename;
    description = trimmed (fields "description");
    file_module = user;
    external_id = current_user_id;
    type = parse_file_type (fields "type");
    mimetype = or_text (present mimetype) "application/octet-stream";
  }

  -- The loop over the parts.
  unfoldable pub parse_parts : Fields → List Part → List UploadFileBody
  parse_parts fields [] = []
  parse_parts fields (field name value ∷ parts) =
      parse_parts (with_field name (text_of value) fields) parts
  parse_parts fields (file name filename mimetype ∷ parts) =
      let rest = parse_parts fields parts in
      if name == "file" then upload_of fields filename mimetype ∷ rest else rest

  abbrev pub required : List UploadFileBody → Result (List UploadFileBody)
  required [] = throw (http bad_request "file.fileRequired")
  required (upload ∷ uploads) = ok (upload ∷ uploads)

  -- parseCurrentUserUploads; `none` is a request that is not multipart
  unfoldable pub parse_current_user_uploads : Option (List Part) → Result (List UploadFileBody)
  parse_current_user_uploads none = throw (http bad_request "file.multipartRequired")
  parse_current_user_uploads (some parts) = required (parse_parts (λ key. none) parts)

  -- An upload that goes under the user's own id and has a name.
  abbrev pub IsOwn : UploadFileBody → Type 0
  IsOwn body =
      (body.file_module ≡ user) × (body.external_id ≡ current_user_id) × ((body.name == "") ≡ false)

  present_is_text :
      (text : Option String) (found : String) → present text ≡ some found → (found == "") ≡ false
  present_is_text none found e = cc
  present_is_text (some text) found e = elim (Bool-cases (text == "")) [
    | inl empty ↦ absurd (ground (arith, rw empty at e))
    | inr full ↦ ground (arith, rw full at e)
  ]

  trimmed_is_text :
      (text : Option String) (found : String) → trimmed text ≡ some found → (found == "") ≡ false
  trimmed_is_text none found e = cc
  trimmed_is_text (some text) found e = present_is_text (some (trim text)) found e

  name_or_file :
      (a b : Option String)
      → ((x : String) → a ≡ some x → (x == "") ≡ false)
      → ((x : String) → b ≡ some x → (x == "") ≡ false)
      → (or_text (or_second a b) "file" == "") ≡ false
  name_or_file (some x) b ha hb = ha x refl
  name_or_file none (some x) ha hb = hb x refl
  name_or_file none none ha hb = refl

  upload_name_present :
      (fields : Fields) (filename : Option String) → (upload_name fields filename == "") ≡ false
  upload_name_present fields filename =
      name_or_file (trimmed (fields "name")) (present filename) (trimmed_is_text (fields "name"))
        (present_is_text filename)

  parse_parts-IsOwn : (fields : Fields) (parts : List Part) → All IsOwn (parse_parts fields parts)
  unfolding parse_parts
  parse_parts-IsOwn fields [] = tt
  parse_parts-IsOwn fields (field name value ∷ parts) =
      parse_parts-IsOwn (with_field name (text_of value) fields) parts
  parse_parts-IsOwn fields (file name filename mimetype ∷ parts) =
      elim (Bool-cases (name == "file")) [
        | inl content ↦
            rw content
              ((refl, refl, upload_name_present fields filename), parse_parts-IsOwn fields parts)
        | inr skipped ↦ rw skipped (parse_parts-IsOwn fields parts)
      ]

  required-IsOwn :
      (found bodies : List UploadFileBody)
      → All IsOwn found
      → required found ≡ ok bodies
      → (bodies ≢ []) × All IsOwn bodies
  required-IsOwn [] bodies h e = ground arith
  required-IsOwn (upload ∷ found) bodies h e =
      (λ none_left. ground arith, subst (All IsOwn) {x = upload ∷ found} (ground arith) h)

  -- What a multipart request is parsed to is at least one upload, and each is filed in the module
  -- of users under the caller's own id and has a name that is not empty.
  pub parse_current_user_uploads-IsOwn :
      (parts : List Part) (bodies : List UploadFileBody)
      → parse_current_user_uploads (some parts) ≡ ok bodies
      → (bodies ≢ []) × All IsOwn bodies
  unfolding parse_current_user_uploads
  parse_current_user_uploads-IsOwn parts bodies e =
      required-IsOwn (parse_parts (λ key. none) parts) bodies
        (parse_parts-IsOwn (λ key. none) parts) e

-- items.length || 1
abbrev at_least_one : ℕ → ℕ
at_least_one n = if n == 0 then 1 else n

-- uploadCurrentUserFiles, with the handler of the command
unfoldable pub upload_current_user_files :
    FilePlatform
    → (String → String)
    → (ℕ → UploadOutside)
    → (current_user_id : String) → Option (List Part)
    → Exec FileStore (PaginatedResult FileDto)
upload_current_user_files p trim o current_user_id parts = do
  payload ← lift (parse_current_user_uploads trim current_user_id parts)
  saved ← uploads p o current_user_id payload
  pure (
      build_paginated (map file_dto saved.0) saved.1 1
        (at_least_one (length (map file_dto saved.0))))
