-- ===== src/File/Listing.antt =====
-- `find` of infrastructure/repositories/file.repository.drizzle.ts, the mappers of presentation, and
-- application/handlers/files-get.handler.ts and file-get-by-id.handler.ts.
pub mod Pages
use mathlib.Core.Option
use nest_rest_backend_templa.Prelude.{
  ℕ, ℤ, pos, negsuc, String, Option, none, some, List, [], map, take, drop, Bool,
}
use nest_rest_backend_templa.Exec.{Result, ok, throw, http, error, not_found}
use nest_rest_backend_templa.Sql.{select_where}
use nest_rest_backend_templa.Common.Paginated.{PaginatedResult, build_paginated, sql_offset}
use nest_rest_backend_templa.File.Store.{
  FileStore, File, FileVersion, FileRow, live_file, joined, count_files, find_file_by_id,
}

pub record FileVersionDto : Type 0 where
  pub id : String
  pub mimetype : String
  pub size : ℕ
  pub version_id : Option String
  pub user_id : Option String
  pub created_at : ℕ
  pub updated_at : ℕ

pub record FileDto : Type 0 where
  pub id : String
  pub name : String
  pub description : Option String
  pub last_version : Option FileVersionDto
  pub last_version_id : Option String
  pub versions : List FileVersionDto
  pub user_id : String
  pub created_at : ℕ
  pub updated_at : ℕ

-- FileVersionMapper.toDto
abbrev pub version_dto : FileVersion → FileVersionDto
version_dto entity = record {
  id = entity.id;
  mimetype = entity.mimetype;
  size = entity.size;
  version_id = entity.version_id;
  user_id = entity.user_id;
  created_at = entity.created_at;
  updated_at = entity.updated_at;
}

-- FileMapper.toDto; the repository never sets `versions`
abbrev pub file_dto : File → FileDto
file_dto entity = record {
  id = entity.id;
  name = entity.name;
  description = entity.description;
  last_version = Option.map version_dto entity.last_version;
  last_version_id = entity.last_version_id;
  versions = [];
  user_id = entity.user_id;
  created_at = entity.created_at;
  updated_at = entity.updated_at;
}

-- The rows of the join. The query has no ORDER BY: `order` is what the database makes of the rows
-- in this one query, another for each.
abbrev pub live_files : (order : List FileRow → List FileRow) → FileStore → List File
live_files order s = map (joined s.versions) (order (select_where live_file s.files))

-- .limit(limit).offset(offset), which refuses a negative offset
abbrev pub sliced : (limit : ℕ) (offset : ℤ) → List File → Result (List File)
sliced limit (pos offset) files = ok (take limit (drop offset files))
sliced limit (negsuc n) files = throw (error "OFFSET must not be negative")

-- find, at a limit and an offset: the nodes, beside `totalCount`
unfoldable pub find_files :
    (order : List FileRow → List FileRow) (limit : ℕ) (offset : ℤ) → FileStore → Result (List File)
find_files order limit offset s = sliced limit offset (live_files order s)

abbrev or_this : Option ℕ → ℕ → ℕ
or_this none n = n
or_this (some m) n = m

abbrev pub paged : (total page per_page : ℕ) → Result (List File) → Result (PaginatedResult FileDto)
paged total page per_page (ok nodes) = ok (build_paginated (map file_dto nodes) total page per_page)
paged total page per_page (throw t) = throw t

-- FilesGetHandler.execute
unfoldable pub files_get :
    (order : List FileRow → List FileRow) (page per_page : Option ℕ)
    → FileStore
    → Result (PaginatedResult FileDto)
files_get order page per_page s =
    paged (count_files s) (or_this page 1) (or_this per_page 20)
      (find_files order (or_this per_page 20) (sql_offset (or_this page 1) (or_this per_page 20)) s)

abbrev found_dto : Option File → Result FileDto
found_dto none = throw (http not_found "file.notFoundWithId")
found_dto (some entity) = ok (file_dto entity)

-- FileGetByIdHandler.execute
abbrev pub file_get_by_id : String → FileStore → Result FileDto
file_get_by_id id s = found_dto (find_file_by_id id s)
