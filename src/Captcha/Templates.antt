-- ===== src/Captcha/Templates.antt =====
-- The other command and query handlers of application/handlers/captcha.handlers.ts: templates,
-- versions of a configuration, previews, batches and the image of a challenge.
pub mod Versions
use nest_rest_backend_templa.Prelude.{
  ℕ, String, Option, none, some, Bool, true, false, not, ◌||◌, leb, List, [], ◌∷◌, ◌++◌, map, ◌==◌,
  string_eq, if◌then◌else◌,
}
use nest_rest_backend_templa.Exec.{
  Exec, Result, ok, throw, pure, lift, gets, raise, modify, throw_if, or_throw, http, not_found,
  unprocessable_entity, conflict, gone, ◌>>=◌, ◌>>◌,
}
use nest_rest_backend_templa.Sql.{insert}
use nest_rest_backend_templa.Captcha.Types.{
  CaptchaTemplate, CaptchaTemplateType, CaptchaTemplateStatus, CaptchaConfig, CaptchaConfigStatus,
  CaptchaDifficulty, easy, medium, hard, image_text, GeneratedCaptcha, GenerateBatchJob,
  CaptchaChallenge, CaptchaAsset, is_pending, is_active_config,
}
use nest_rest_backend_templa.Captcha.Store.{
  CaptchaStore, create_template, find_template_by_id, next_config_version, create_config,
  find_config_by_id, find_challenge_by_id, find_asset_by_id, pool_key, get_pool_size,
}
use nest_rest_backend_templa.Captcha.Challenge.{or_default}

-- CaptchaGeneratorPort. What a call draws at random depends on the call, which `call` numbers; a
-- call may throw.
pub record CaptchaGenerator : Type 0 where
  pub code : String
  pub validate_config : (config_json : String) → Result String
  pub generate : (call : ℕ) (config_json : String) → CaptchaDifficulty → Result GeneratedCaptcha
  pub preview :
      (config_json : String) → CaptchaDifficulty → (count : ℕ) → Result (List GeneratedCaptcha)

-- CREATE A TEMPLATE
pub record CreateCaptchaTemplateCommand : Type 0 where
  pub code : String
  pub name : String
  pub type : Option CaptchaTemplateType
  pub status : Option CaptchaTemplateStatus
  pub default_difficulty : Option CaptchaDifficulty
  pub generator : Option String

abbrev template_row :
    (id : String) (created_at : ℕ) → CreateCaptchaTemplateCommand → CaptchaTemplate
template_row id created_at input = record {
  id = id;
  code = input.code;
  name = input.name;
  type = or_default input.type image_text;
  status = or_default input.status CaptchaTemplateStatus.active;
  default_difficulty = or_default input.default_difficulty medium;
  generator = or_default input.generator "svg_text";
  created_at = created_at;
}

-- CreateCaptchaTemplateHandler.execute, with the id and the time that the database draws
abbrev pub create_captcha_template :
    (id : String) (created_at : ℕ)
    → CreateCaptchaTemplateCommand
    → Exec CaptchaStore CaptchaTemplate
create_captcha_template id created_at input = create_template (template_row id created_at input)

-- CREATE A DRAFT OF A CONFIGURATION
pub record CreateCaptchaConfigDraftCommand : Type 0 where
  pub template_id : String
  pub config_json : String
  pub created_by_user_id : Option String

module _ (generator : CaptchaGenerator) (id : String) (created_at : ℕ) where
  abbrev pub config_row : CreateCaptchaConfigDraftCommand → ℕ → String → CaptchaConfig
  config_row command version validated = record {
    id = id;
    template_id = command.template_id;
    version = version;
    status = CaptchaConfigStatus.draft;
    config_json = validated;
    created_by_user_id = command.created_by_user_id;
    created_at = created_at;
    activated_at = none;
  }

  unfoldable pub draft_for :
      CreateCaptchaConfigDraftCommand → CaptchaTemplate → Exec CaptchaStore CaptchaConfig
  draft_for command template = do
    throw_if (not (template.generator == generator.code))
        (http unprocessable_entity "captcha.generator.unsupported")
    validated ← lift (generator.validate_config command.config_json)
    version ← gets (next_config_version command.template_id)
    create_config (config_row command version validated)

  -- CreateCaptchaConfigDraftHandler.execute
  unfoldable pub create_config_draft :
      CreateCaptchaConfigDraftCommand → Exec CaptchaStore CaptchaConfig
  create_config_draft command = do
    found ← gets (find_template_by_id command.template_id)
    template ← or_throw found (http not_found "captcha.template.notFound")
    draft_for command template

-- PREVIEW AND BATCH
pub record CaptchaPreview : Type 0 where
  pub content_type : String
  pub image_base64 : String
  pub metadata : String

-- GenerateCaptchaPreviewHandler.execute, where `base64` is Buffer.prototype.toString
unfoldable pub generate_preview :
    CaptchaGenerator
    → (base64 : String → String) (config_id : String) (count : ℕ) → Option CaptchaDifficulty
    → Exec CaptchaStore (List CaptchaPreview)
generate_preview generator base64 config_id count difficulty = do
  found ← gets (find_config_by_id config_id)
  config ← or_throw found (http not_found "captcha.config.notFound")
  generated ← lift (generator.preview config.config_json (or_default difficulty medium) count)
  pure (
      map
        (λ item. record {
          content_type = item.content_type;
          image_base64 = base64 item.image;
          metadata = item.metadata;
        })
        generated)

pub record QueuedBatch : Type 0 where
  pub queued : Bool
  pub count : ℕ
  pub difficulty : CaptchaDifficulty

-- EnqueueCaptchaGenerationBatchHandler.execute
unfoldable pub enqueue_batch : GenerateBatchJob → Exec CaptchaStore QueuedBatch
enqueue_batch job = do
  found ← gets (find_config_by_id job.config_id)
  config ← or_throw found (http not_found "captcha.config.notFound")
  throw_if (not (is_active_config config.status)) (http conflict "captcha.config.notActive")
  modify (λ s. record s { generation_queue = insert job s.generation_queue })
  pure (record { queued = true; count = job.count; difficulty = job.difficulty })

-- QUERIES
-- GetCaptchaImageHandler.execute: the key of the object that is then read
unfoldable pub get_image_key : (now : ℕ) (challenge_id : String) → Exec CaptchaStore String
get_image_key now challenge_id = do
  found ← gets (find_challenge_by_id challenge_id)
  challenge ← or_throw found (http not_found "captcha.challenge.notFound")
  throw_if (not (is_pending challenge.status) || leb challenge.expires_at now)
      (http gone "captcha.challenge.expired")
  found_asset ← gets (find_asset_by_id challenge.asset_id)
  asset ← or_throw found_asset (http not_found "captcha.asset.notFound")
  pure asset.storage_key

pub record PoolRow : Type 0 where
  pub template_code : String
  pub difficulty : CaptchaDifficulty
  pub size : ℕ

abbrev pool_row : (prefix : String) → CaptchaStore → CaptchaTemplate → CaptchaDifficulty → PoolRow
pool_row prefix s template difficulty = record {
  template_code = template.code;
  difficulty = difficulty;
  size = get_pool_size (pool_key prefix template.code difficulty) s;
}

-- GetCaptchaPoolsHandler.execute, over the templates that `listTemplates` returned
unfoldable pub pool_rows : (prefix : String) → List CaptchaTemplate → CaptchaStore → List PoolRow
pool_rows prefix [] s = []
pool_rows prefix (template ∷ rest) s =
    map (pool_row prefix s template) (easy ∷ medium ∷ hard ∷ []) ++ pool_rows prefix rest s
