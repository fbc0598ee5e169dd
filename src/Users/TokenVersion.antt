-- ===== src/Users/TokenVersion.antt =====
-- infrastructure/services/auth-token-version.service.ts: the version that an access token must
-- carry, kept in the table of users and cached in Redis.
pub mod Checks
pub mod Coherence
use Prim.Native.String
use mathlib.Core.Option
use nest_rest_backend_templa.Prelude.{
  ℕ, ◌+◌, String, Option, none, some, Bool, true, false, not, ◌&&◌, List, ◌==◌, string_eq, nat_eq,
  if◌then◌else◌,
}
use nest_rest_backend_templa.Exec.{
  Exec, ok, throw, pure, raise, gets, modify, try_ignore, http, error, unauthorized, not_found,
  ◌>>=◌, ◌>>◌,
}
use nest_rest_backend_templa.Sql.{select_first, update_where}

pub record VersionRow : Type 0 where
  pub id : String
  pub token_version : ℕ
  pub deleted_at : Option ℕ

-- `cache` is what Redis holds under a key.
pub record VersionStore : Type 0 where
  pub users : List VersionRow
  pub cache : String → Option String

-- String(n) for a version, and Number(text) where that is an integer.
pub record Numbers : Type 0 where
  pub text : ℕ → String
  pub parse : String → Option ℕ

-- The failures of the Redis calls of one run, `none` where the call succeeds: of `get`, `set`, and
-- of the first and the second `del`.
pub record RedisOutside : Type 0 where
  pub get_error : Option String
  pub set_error : Option String
  pub del_error : Option String
  pub second_del_error : Option String

-- `${KEY_PREFIX}:${userId}:tokenVersion`
abbrev pub version_key : String → String
version_key user_id = String.◌++◌ "auth:user:" (String.◌++◌ user_id ":tokenVersion")

abbrev pub not_deleted : Option ℕ → Bool
not_deleted none = true
not_deleted (some t) = false

abbrev pub version_of : String → VersionRow → Bool
version_of id row = row.id == id

abbrev pub live_version_of : String → VersionRow → Bool
live_version_of id row = row.id == id && not_deleted row.deleted_at

-- userRepository.findById, and the version of the user
abbrev pub find_version : String → VersionStore → Option ℕ
find_version id s =
    Option.map (λ row. row.token_version) (select_first (live_version_of id) s.users)

abbrev pub next_version : VersionRow → VersionRow
next_version row = record row { token_version = row.token_version + 1 }

incremented : String → Option VersionRow → Exec VersionStore ℕ
incremented id none s = (throw (http not_found "user.notFound"), s)
incremented id (some row) s = (
  ok (row.token_version + 1),
  record s { users = update_where (version_of id) next_version s.users },
)

-- userRepository.incrementTokenVersion
unfoldable pub increment_token_version : String → Exec VersionStore ℕ
unfolding incremented
increment_token_version id s = incremented id (select_first (version_of id) s.users) s

abbrev pub with_cache : String → Option String → VersionStore → VersionStore
with_cache k text s = record s { cache = λ i. if i == k then text else s.cache i }

-- redis.set and redis.del
abbrev pub redis_write :
    Option String → (key : String) → Option String → Exec VersionStore (Unit {0})
redis_write (some message) k text s = (throw (error message), s)
redis_write none k text s = (ok tt, with_cache k text s)

module _ (numbers : Numbers) (o : RedisOutside) (user_id : String) where
  -- setVersion
  abbrev pub set_version : ℕ → Exec VersionStore (Unit {0})
  set_version version = redis_write o.set_error (version_key user_id) (some (numbers.text version))

  -- clearCachedVersion, with the failure of its `del`
  abbrev pub clear_cached_version : Option String → Exec VersionStore (Unit {0})
  clear_cached_version del_error = try_ignore (redis_write del_error (version_key user_id) none)

  -- `try { setVersion } catch { clearCachedVersion }`
  abbrev pub cache_or_clear : ℕ → Option String → Exec VersionStore (Unit {0})
  cache_or_clear version none = set_version version
  cache_or_clear version (some message) = clear_cached_version o.second_del_error

  -- bumpVersion
  unfoldable pub bump_version : Exec VersionStore ℕ
  bump_version = do
    clear_cached_version o.del_error
    version ← increment_token_version user_id
    cache_or_clear version o.set_error
    pure version

  restored : Option ℕ → Exec VersionStore ℕ
  restored none = raise (http unauthorized "user.notFound")
  restored (some version) = do try_ignore (set_version version); pure version

  -- restoreVersionFromDatabase
  unfoldable pub restore_version : Exec VersionStore ℕ
  unfolding restored
  restore_version s = restored (find_version user_id s) s

  abbrev pub parsed_or : Option ℕ → Exec VersionStore ℕ
  parsed_or none = restore_version
  parsed_or (some version) = pure version

  abbrev pub cached_or : Option String → Exec VersionStore ℕ
  cached_or none = restore_version
  cached_or (some text) = parsed_or (numbers.parse text)

  -- getCurrentVersion
  abbrev pub lookup : Option String → Exec VersionStore ℕ
  lookup none s = cached_or (s.cache (version_key user_id)) s
  lookup (some message) s = restore_version s

  unfoldable pub get_current_version : Exec VersionStore ℕ
  get_current_version = lookup o.get_error

  -- assertCurrent, where a claim that is no integer is `none`
  unfoldable pub assert_current : Option ℕ → Exec VersionStore (Unit {0})
  assert_current none = raise (http unauthorized "user.auth.invalidJwtPayload")
  assert_current (some token_version) = do
    current ← get_current_version
    (if current == token_version then pure tt else raise (http unauthorized "user.auth.tokenStale"))
