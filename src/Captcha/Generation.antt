-- ===== src/Captcha/Generation.antt =====
-- infrastructure/processors/captcha-generation.processor.ts
pub mod Batch
use Prim.Native.String
use nest_rest_backend_templa.Prelude.{
  ℕ, zero, suc, ◌+◌, ◌*◌, String, Option, none, some, Bool, not, ◌==◌, string_eq, if◌then◌else◌,
}
use nest_rest_backend_templa.Exec.{Exec, ok, throw, pure, lift, gets, or_throw, error, ◌>>=◌, ◌>>◌}
use nest_rest_backend_templa.Sql.{insert}
use nest_rest_backend_templa.Captcha.Types.{
  CaptchaTemplate, CaptchaConfig, CaptchaAsset, CaptchaAssetStatus, CaptchaDifficulty,
  GeneratedCaptcha, GenerateBatchJob,
}
use nest_rest_backend_templa.Captcha.Store.{
  CaptchaStore, find_config_by_id, find_template_by_id, create_asset, push_asset, pool_key,
}
use nest_rest_backend_templa.Captcha.Hashing.{CaptchaPlatform, normalize, hash_answer}
use nest_rest_backend_templa.Captcha.Templates.{CaptchaGenerator}

-- What turn `i` of the loop reads from outside: the two clock readings, whether the object storage
-- is reached (`putObject` rejects with a message if it is not), and the id and the time of the row.
pub record TurnOutside : Type 0 where
  pub keyed_at : ℕ
  pub stored_at : ℕ
  pub put_error : Option String
  pub asset_id : String
  pub generated_at : ℕ

abbrev pub asset_ttl_ms : ℕ
asset_ttl_ms = 24 * 60 * 60 * 1000

infixr 66 ◌⁀◌
abbrev ◌⁀◌ : String → String → String
s ⁀ t = String.◌++◌ s t

-- putObject
abbrev pub put_object : Option String → (key body : String) → Exec CaptchaStore (Unit {0})
put_object (some message) key body s = (throw (error message), s)
put_object none key body s = (ok tt, record s { objects = insert (key, body) s.objects })

module _ (p : CaptchaPlatform) (generator : CaptchaGenerator) (prefix : String)
    (o : ℕ → TurnOutside) (difficulty : CaptchaDifficulty) (template : CaptchaTemplate)
    (config : CaptchaConfig) where
  abbrev pub storage_key : ℕ → String
  storage_key i =
      "captcha/"
      ⁀ template.code
      ⁀ "/"
      ⁀ config.id
      ⁀ "/"
      ⁀ p.number_text (o i).keyed_at
      ⁀ "-"
      ⁀ p.number_text i
      ⁀ ".svg"

  abbrev pub asset_row : ℕ → GeneratedCaptcha → CaptchaAsset
  asset_row i generated = record {
    id = (o i).asset_id;
    template_id = template.id;
    config_id = config.id;
    storage_key = storage_key i;
    answer_hash = hash_answer p generated.answer;
    answer_normalized_hash = hash_answer p (normalize p generated.answer);
    difficulty = difficulty;
    status = CaptchaAssetStatus.available;
    generated_at = (o i).generated_at;
    expires_at = (o i).stored_at + asset_ttl_ms;
    used_count = 0;
    max_uses = 1;
    metadata_json = generated.metadata;
  }

  -- One turn of the loop.
  unfoldable pub generate_one : ℕ → Exec CaptchaStore (Unit {0})
  generate_one i = do
    generated ← lift (generator.generate i config.config_json difficulty)
    put_object (o i).put_error (storage_key i) generated.image
    asset ← create_asset (asset_row i generated)
    push_asset (pool_key prefix template.code difficulty) asset.id

  -- The turns from `i` on.
  unfoldable pub generate_from : (remaining i : ℕ) → Exec CaptchaStore (Unit {0})
  generate_from zero i = pure tt
  generate_from (suc remaining) i = do generate_one i; generate_from remaining (suc i)

module _ (p : CaptchaPlatform) (generator : CaptchaGenerator) (prefix : String)
    (o : ℕ → TurnOutside) where
  -- process
  unfoldable pub process : (name : String) → GenerateBatchJob → Exec CaptchaStore (Unit {0})
  process name job = if not (name == "generate-batch") then pure tt else (do
    found ← gets (find_config_by_id job.config_id)
    config ← or_throw found (error "captcha.config.notFound")
    found_template ← gets (find_template_by_id config.template_id)
    template ← or_throw found_template (error "captcha.template.notFound")
    generate_from p generator prefix o job.difficulty template config job.count 0)
