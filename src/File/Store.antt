-- ===== src/File/Store.antt =====
-- domain/entities, the tables of common/drizzle/schema/file.schema.ts, and the reading methods of
-- infrastructure/repositories/file.repository.drizzle.ts.
use mathlib.Core.Option
use nest_rest_backend_templa.Prelude.{
  ℕ, ◌≡◌, ◌↔◌, String, Option, none, some, Bool, true, false, ◌&&◌, ltb, List, [], ◌∷◌, length,
  ◌==◌, Eq, string_eq, if◌then◌else◌, arith,
}
use nest_rest_backend_templa.Sql.{select_first, select_where}

-- enums/file-from.enum.ts
pub data FileFrom : Type 0 where
  user public : FileFrom

-- enums/file-type.enum.ts
pub data FileType : Type 0 where
  user_file image video document other : FileType

abbrev file_from_equals : FileFrom → FileFrom → Bool
file_from_equals user user = true
file_from_equals user public = false
file_from_equals public user = false
file_from_equals public public = true

pub file_from_equals_iff : (x y : FileFrom) → (file_from_equals x y ≡ true) ↔ (x ≡ y)
file_from_equals_iff user user = ground arith
file_from_equals_iff user public = ground arith
file_from_equals_iff public user = ground arith
file_from_equals_iff public public = ground arith

instance abbrev pub file_from_eq : Eq FileFrom
file_from_eq = record { equals = file_from_equals; equals_iff = file_from_equals_iff }

-- A row of the table `file`.
pub record FileRow : Type 0 where
  pub id : String
  pub name : String
  pub path : String
  pub file_module : FileFrom
  pub external_id : String
  pub description : Option String
  pub type : Option FileType
  pub last_version_id : Option String
  pub user_id : String
  pub created_at : ℕ
  pub updated_at : ℕ
  pub deleted_at : Option ℕ

-- A row of the table `file-version`, and what `toVersion` makes of it: the columns that it asserts
-- not to be null stay as they are.
pub record FileVersion : Type 0 where
  pub id : String
  pub mimetype : String
  pub size : ℕ
  pub version_id : Option String
  pub file_id : Option String
  pub user_id : Option String
  pub created_at : ℕ
  pub updated_at : ℕ
  pub deleted_at : Option ℕ

pub record File : Type 0 where
  pub id : String
  pub name : String
  pub path : String
  pub file_module : FileFrom
  pub external_id : String
  pub description : Option String
  pub type : FileType
  pub last_version_id : Option String
  pub last_version : Option FileVersion
  pub user_id : String
  pub created_at : ℕ
  pub updated_at : ℕ
  pub deleted_at : Option ℕ

-- An object that was sent to S3.
pub record PutObject : Type 0 where
  pub key : String
  pub content_type : String

pub record FileStore : Type 0 where
  pub files : List FileRow
  pub versions : List FileVersion
  pub puts : List PutObject

abbrev pub type_or_other : Option FileType → FileType
type_or_other none = other
type_or_other (some type) = type

-- toDomain
abbrev pub to_domain : FileRow → Option FileVersion → File
to_domain row version = record {
  id = row.id;
  name = row.name;
  path = row.path;
  file_module = row.file_module;
  external_id = row.external_id;
  description = row.description;
  type = type_or_other row.type;
  last_version_id = row.last_version_id;
  last_version = version;
  user_id = row.user_id;
  created_at = row.created_at;
  updated_at = row.updated_at;
  deleted_at = row.deleted_at;
}

abbrev pub is_live : Option ℕ → Bool
is_live none = true
is_live (some at) = false

abbrev pub version_id_is : String → FileVersion → Bool
version_id_is id version = version.id == id

-- leftJoin(versionTable, eq(fileTable.lastVersionId, versionTable.id))
abbrev pub version_named : Option String → List FileVersion → Option FileVersion
version_named none versions = none
version_named (some id) versions = select_first (version_id_is id) versions

abbrev pub joined : List FileVersion → FileRow → File
joined versions row = to_domain row (version_named row.last_version_id versions)

abbrev pub live_file : FileRow → Bool
live_file row = is_live row.deleted_at

abbrev pub live_file_is : String → FileRow → Bool
live_file_is id row = row.id == id && live_file row

-- count
abbrev pub count_files : FileStore → ℕ
count_files s = length (select_where live_file s.files)

-- findById
abbrev pub find_file_by_id : String → FileStore → Option File
find_file_by_id id s = Option.map (joined s.versions) (select_first (live_file_is id) s.files)

abbrev pub module_is : Option FileFrom → FileRow → Bool
module_is none row = true
module_is (some wanted) row = row.file_module == wanted

-- findBy
abbrev pub find_file_by : String → Option FileFrom → FileStore → Option File
find_file_by id wanted s =
    Option.map (joined s.versions)
      (select_first (λ row. live_file_is id row && module_is wanted row) s.files)

abbrev pub live_version_is : String → FileVersion → Bool
live_version_is id version = version.id == id && is_live version.deleted_at

-- findVersionById
abbrev pub find_version_by_id : String → FileStore → Option FileVersion
find_version_by_id id s = select_first (live_version_is id) s.versions

abbrev pub file_is : Option String → String → Bool
file_is none id = false
file_is (some file_id) id = file_id == id

abbrev pub version_of_file : String → FileVersion → Bool
version_of_file id version = file_is version.file_id id && is_live version.deleted_at

-- The place of a row under orderBy(desc(createdAt)).
unfoldable pub place_by_age : FileVersion → List FileVersion → List FileVersion
place_by_age version [] = version ∷ []
place_by_age version (next ∷ rest) =
    let placed = place_by_age version rest in
    if ltb version.created_at next.created_at then next ∷ placed else version ∷ next ∷ rest

unfoldable pub order_by_age : List FileVersion → List FileVersion
order_by_age [] = []
order_by_age (version ∷ rest) = place_by_age version (order_by_age rest)

-- findVersion
abbrev pub find_versions : String → FileStore → List FileVersion
find_versions id s = order_by_age (select_where (version_of_file id) s.versions)

-- a || b, where what is falsy is `none`
abbrev pub or_second {ℓ} : {A : Type ℓ} → Option A → Option A → Option A
or_second none b = b
or_second (some a) b = some a

abbrev pub or_text : Option String → String → String
or_text none b = b
or_text (some a) b = a
