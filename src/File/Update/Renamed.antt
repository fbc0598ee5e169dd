-- ===== src/File/Update/Renamed.antt =====
-- What a new name without a new content does to a later download.
use mathlib.Core.Option
use mathlib.Core.Path.{fun_ext}
use nest_rest_backend_templa.Prelude.{
  List, String, ◌≡◌, refl, ap, ◌∙◌, Option, none, some, Bool, true, false, ◌&&◌, any, ◌==◌,
  string_eq, arith,
}
use text.Mathlib.TextPositions.{eq_refl}
use nest_rest_backend_templa.Exec.{Result, ok, throw, Thrown, is_ok}
use nest_rest_backend_templa.Sql.{select_first, update_where, touch}
use nest_rest_backend_templa.Sql.Laws.{select_first-update, select_first-holds}
use nest_rest_backend_templa.Auth.Platform.{RoleType}
use nest_rest_backend_templa.File.Store.{
  FileStore, FileRow, PutObject, joined, live_file_is, module_is, find_file_by,
}
use nest_rest_backend_templa.File.Adapter.{
  FilePlatform, S3Object, get_file_path, file_path, is_invalid_path,
}
use nest_rest_backend_templa.File.Uploads.{UploadOutside, file_id_is}
use nest_rest_backend_templa.File.Download.{
  who_asks, is_denied_to, send_object, download_for, download,
}
use nest_rest_backend_templa.File.Download.Access.{by_owner, owner_logs_in}
use nest_rest_backend_templa.File.Update.{
  UpdateFileBody, would_conflict, with_names, set_names, put_content, update_file,
}

abbrev pub key_is : String → PutObject → Bool
key_is path object = object.key == path

and_true : (b : Bool) → (b && true) ≡ b
and_true true = refl
and_true false = refl

any_module :
    (id : String)
    → ◌≡◌ {A = FileRow → Bool} (λ r. live_file_is id r && module_is none r) (live_file_is id)
any_module id = fun_ext (λ r. and_true (live_file_is id r))

module _ (p : FilePlatform) (o : UploadOutside) (body : UpdateFileBody) (s : FileStore)
    (row : FileRow) (name : String) (named : body.name ≡ some name) (no_file : body.file ≡ none)
    (found : select_first (live_file_is body.id) s.files ≡ some row)
    (free : any (would_conflict body s) s.files ≡ false) where
  abbrev after_rename : FileStore
  after_rename = record s {
    files = update_where (file_id_is body.id) (with_names o.updated_at body) s.files;
  }

  abbrev renamed : FileRow
  renamed = with_names o.updated_at body row

  rename_keeps :
      (r : FileRow)
      → live_file_is body.id (touch (file_id_is body.id) (with_names o.updated_at body) r)
        ≡ live_file_is body.id r
  rename_keeps r = ground arith

  row_touched : touch (file_id_is body.id) (with_names o.updated_at body) row ≡ renamed
  row_touched = ground (arith, select_first-holds (live_file_is body.id) s.files row found)

  found_renamed : select_first (live_file_is body.id) after_rename.files ≡ some renamed
  found_renamed =
      select_first-update (live_file_is body.id) (file_id_is body.id) (with_names o.updated_at body)
        s.files rename_keeps
      ∙ ap (Option.map (touch (file_id_is body.id) (with_names o.updated_at body))) found
      ∙ ap some row_touched

  rename-eq : update_file p o body s ≡ (ok (joined s.versions renamed), after_rename)
  unfolding update_file set_names put_content
  rename-eq = simp (found, named, no_file, free, found_renamed)

  module _ (bucket : List PutObject → String → Option String → Result S3Object)
      (valid : is_invalid_path row.user_id name row.external_id ≡ false) (missing : Thrown)
      (knows_puts : (puts : List PutObject) (path : String) (v : Option String)
        → any (key_is path) puts ≡ false
        → bucket puts path v ≡ throw missing)
      (not_put : any (key_is (file_path p row.user_id name row.file_module row.external_id)) s.puts
        ≡ false) where
    with_login : who_asks (by_owner body.id row.user_id) ≡ some (row.user_id, RoleType.user)
    with_login = owner_logs_in body.id row.user_id (ground (arith, valid))

    owner_granted :
        is_denied_to (joined s.versions renamed) (some (row.user_id, RoleType.user)) ≡ false
    owner_granted = simp (eq_refl)

    send_fails :
        send_object p
          (bucket after_rename.puts)
          (by_owner body.id row.user_id)
          (joined s.versions renamed)
          (joined s.versions renamed).last_version
          after_rename
        ≡ (throw missing, after_rename)
    unfolding send_object get_file_path
    send_fails = simp (named, valid, knows_puts s.puts _ _ not_put)

    found_by : find_file_by body.id none after_rename ≡ some (joined s.versions renamed)
    found_by = ap (Option.map (joined s.versions)) (
        ap (λ (wanted : FileRow → Bool). select_first wanted after_rename.files)
          (any_module body.id)
        ∙ found_renamed)

    -- A new name without a new content, where no other file has that name, the path is valid and
    -- nothing was put at the path of the new name, is accepted and puts no object: all objects
    -- stay where they were, and the owner's download of the file right after it, from an S3 that
    -- fails for every key that is not among the objects put by then, fails as S3 does.
    pub rename_breaks_download :
        (is_ok (update_file p o body s).0 ≡ true)
        × ((download p
              (bucket (update_file p o body s).1.puts)
              (by_owner body.id row.user_id)
              (update_file p o body s).1).0
            ≡ throw missing)
        × ((update_file p o body s).1.puts ≡ s.puts)
    unfolding download_for
    rename_breaks_download =
        rw rename-eq (refl, simp (with_login, found_by, owner_granted, send_fails), refl)
