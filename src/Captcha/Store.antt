-- ===== src/Captcha/Store.antt =====
-- infrastructure/repositories/captcha.repository.drizzle.ts over the tables of
-- common/drizzle/schema/captcha.schema.ts, and infrastructure/redis/redis-captcha-pool.ts. A pool is
-- a Redis list, kept here from its right end to its left: `lpush` adds at the end, `rpop` takes the
-- first.
use mathlib.Core.Option
use Prim.Native.String
use nest_rest_backend_templa.Prelude.{
  ℕ, ◌+◌, max, String, Option, none, some, Bool, ◌&&◌, any, ltb, List, [], ◌∷◌, ◌++◌, ◌==◌,
  string_eq, length, if◌then◌else◌,
}
use nest_rest_backend_templa.Exec.{
  Exec, ok, throw, raise, pure, modify, gets, http, error, not_found, ◌>>=◌, ◌>>◌,
}
use nest_rest_backend_templa.Sql.{select_first, select_where, update_where, insert}
use nest_rest_backend_templa.Captcha.Types.{
  CaptchaTemplate, CaptchaConfig, CaptchaConfigStatus, CaptchaAsset, CaptchaAssetStatus,
  CaptchaChallenge, CaptchaChallengeStatus, CaptchaAttempt, CaptchaDifficulty, GenerateBatchJob,
  is_active_config, is_available, difficulty_text,
}

pub record CaptchaStore : Type 0 where
  pub templates : List CaptchaTemplate
  pub configs : List CaptchaConfig
  pub assets : List CaptchaAsset
  pub challenges : List CaptchaChallenge
  pub attempts : List CaptchaAttempt
  pub pools : String → List String
  pub objects : List (String × String)
  pub generation_queue : List GenerateBatchJob

-- TEMPLATES
abbrev pub template_id_is : String → CaptchaTemplate → Bool
template_id_is id t = t.id == id

abbrev pub code_is : String → CaptchaTemplate → Bool
code_is code t = t.code == code

-- createTemplate; `code` has the unique index UQ_captcha_template_code
unfoldable pub create_template : CaptchaTemplate → Exec CaptchaStore CaptchaTemplate
create_template t s =
    if any (code_is t.code) s.templates
    then (throw (error "UQ_captcha_template_code"), s)
    else (ok t, record s { templates = insert t s.templates })

abbrev pub find_template_by_id : String → CaptchaStore → Option CaptchaTemplate
find_template_by_id id s = select_first (template_id_is id) s.templates

abbrev pub find_template_by_code : String → CaptchaStore → Option CaptchaTemplate
find_template_by_code code s = select_first (code_is code) s.templates

-- CONFIGS
abbrev pub config_id_is : String → CaptchaConfig → Bool
config_id_is id c = c.id == id

abbrev pub config_of : String → CaptchaConfig → Bool
config_of template_id c = c.template_id == template_id

abbrev pub active_of : String → CaptchaConfig → Bool
active_of template_id c = c.template_id == template_id && is_active_config c.status

-- max(version) over the rows, 0 where there is none
unfoldable pub max_version : List CaptchaConfig → ℕ
max_version [] = 0
max_version (c ∷ rows) = max c.version (max_version rows)

abbrev pub next_config_version : String → CaptchaStore → ℕ
next_config_version template_id s = max_version (select_where (config_of template_id) s.configs) + 1

abbrev pub create_config : CaptchaConfig → Exec CaptchaStore CaptchaConfig
create_config c s = (ok c, record s { configs = insert c s.configs })

abbrev pub find_config_by_id : String → CaptchaStore → Option CaptchaConfig
find_config_by_id id s = select_first (config_id_is id) s.configs

abbrev pub find_active_config : String → CaptchaStore → Option CaptchaConfig
find_active_config template_id s = select_first (active_of template_id) s.configs

abbrev pub archive : CaptchaConfig → CaptchaConfig
archive c = record c { status = CaptchaConfigStatus.archived }

abbrev pub activate : ℕ → CaptchaConfig → CaptchaConfig
activate now c = record c { status = CaptchaConfigStatus.active; activated_at = some now }

-- `.returning()` of an update, then a field of its first row
abbrev pub returned : {A : Type 0} → Option A → (field : String) → Exec CaptchaStore A
returned none field =
    raise (
      error (String.◌++◌ "Cannot read properties of undefined (reading '" (String.◌++◌ field "')")))
returned (some a) field = pure a

abbrev pub activated_rows : ℕ → CaptchaConfig → List CaptchaConfig → List CaptchaConfig
activated_rows now config rows =
    update_where (config_id_is config.id) (activate now)
      (update_where (active_of config.template_id) archive rows)

activate_found : ℕ → String → Option CaptchaConfig → Exec CaptchaStore CaptchaConfig
activate_found now id none = raise (http not_found "captcha.config.notFound")
activate_found now id (some config) = do
  modify (λ s. record s { configs = update_where (active_of config.template_id) archive s.configs })
  modify (λ s. record s { configs = update_where (config_id_is id) (activate now) s.configs })
  row ← gets (find_config_by_id id)
  returned row "status"

-- activateConfig
unfoldable pub activate_config : ℕ → String → Exec CaptchaStore CaptchaConfig
unfolding activate_found
activate_config now id = do config ← gets (find_config_by_id id); activate_found now id config

-- ASSETS
abbrev pub asset_id_is : String → CaptchaAsset → Bool
asset_id_is id a = a.id == id

abbrev pub create_asset : CaptchaAsset → Exec CaptchaStore CaptchaAsset
create_asset a s = (ok a, record s { assets = insert a s.assets })

abbrev pub find_asset_by_id : String → CaptchaStore → Option CaptchaAsset
find_asset_by_id id s = select_first (asset_id_is id) s.assets

abbrev pub can_reserve : ℕ → String → CaptchaAsset → Bool
can_reserve now id a = a.id == id && (is_available a.status && ltb now a.expires_at)

abbrev pub reserve : CaptchaAsset → CaptchaAsset
reserve a = record a { status = CaptchaAssetStatus.reserved }

-- reserveAsset: the first row that the update returned
unfoldable pub reserve_asset : ℕ → String → Exec CaptchaStore (Option CaptchaAsset)
reserve_asset now id s = (
  ok (Option.map reserve (select_first (can_reserve now id) s.assets)),
  record s { assets = update_where (can_reserve now id) reserve s.assets },
)

abbrev pub use_up : CaptchaAsset → CaptchaAsset
use_up a = record a { status = CaptchaAssetStatus.used; used_count = a.used_count + 1 }

abbrev pub mark_asset_used : String → Exec CaptchaStore (Unit {0})
mark_asset_used id = modify λ s. record s { assets = update_where (asset_id_is id) use_up s.assets }

-- CHALLENGES
abbrev pub challenge_id_is : String → CaptchaChallenge → Bool
challenge_id_is id c = c.id == id

abbrev pub create_challenge_row : CaptchaChallenge → Exec CaptchaStore CaptchaChallenge
create_challenge_row c s = (ok c, record s { challenges = insert c s.challenges })

abbrev pub find_challenge_by_id : String → CaptchaStore → Option CaptchaChallenge
find_challenge_by_id id s = select_first (challenge_id_is id) s.challenges

abbrev pub complete : ℕ → CaptchaChallengeStatus → CaptchaChallenge → CaptchaChallenge
complete now status c = record c { status = status; completed_at = some now }

-- completeChallenge; its result is the updated row, which no caller reads
unfoldable pub complete_challenge :
    ℕ → String → CaptchaChallengeStatus → Exec CaptchaStore (Unit {0})
complete_challenge now id status = do
  modify λ s. record s {
    challenges = update_where (challenge_id_is id) (complete now status) s.challenges;
  }
  row ← gets (find_challenge_by_id id)
  returned row "context"
  pure tt

abbrev pub count_attempt : CaptchaChallenge → CaptchaChallenge
count_attempt c = record c { attempts_count = c.attempts_count + 1 }

abbrev pub increment_challenge_attempts : String → Exec CaptchaStore (Unit {0})
increment_challenge_attempts id =
    modify
      λ s. record s { challenges = update_where (challenge_id_is id) count_attempt s.challenges }

abbrev pub create_attempt : CaptchaAttempt → Exec CaptchaStore (Unit {0})
create_attempt a = modify λ s. record s { attempts = insert a s.attempts }

-- POOLS
-- `${prefix}:pool:${templateCode}:${difficulty}`
abbrev pub pool_key : (prefix template_code : String) → CaptchaDifficulty → String
pool_key prefix template_code difficulty = String.◌++◌ prefix (
    String.◌++◌ ":pool:" (String.◌++◌ template_code (String.◌++◌ ":" (difficulty_text difficulty))))

abbrev pub with_pool : String → List String → CaptchaStore → CaptchaStore
with_pool key ids s = record s { pools = λ k. if k == key then ids else s.pools k }

-- pushAsset
unfoldable pub push_asset : (key asset_id : String) → Exec CaptchaStore (Unit {0})
push_asset key asset_id s = (ok tt, with_pool key (s.pools key ++ asset_id ∷ []) s)

abbrev pub popped : String → List String → Exec CaptchaStore (Option String)
popped key [] s = (ok none, s)
popped key (id ∷ ids) s = (ok (some id), with_pool key ids s)

-- popAsset
unfoldable pub pop_asset : (key : String) → Exec CaptchaStore (Option String)
pop_asset key s = popped key (s.pools key) s

-- getPoolSize
abbrev pub get_pool_size : (key : String) → CaptchaStore → ℕ
get_pool_size key s = length (s.pools key)
