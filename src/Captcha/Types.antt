-- ===== src/Captcha/Types.antt =====
-- domain/captcha.types.ts, application/ports/captcha.ports.ts and the commands. A JSON value is its
-- text, an instant (`Date`) is its number of milliseconds.
use nest_rest_backend_templa.Prelude.{ℕ, ℤ, String, Option, Bool, true, false}

pub data CaptchaDifficulty : Type 0 where
  easy medium hard : CaptchaDifficulty

pub data CaptchaTemplateStatus : Type 0 where
  draft active archived : CaptchaTemplateStatus

pub data CaptchaConfigStatus : Type 0 where
  draft active archived : CaptchaConfigStatus

pub data CaptchaAssetStatus : Type 0 where
  available reserved used expired archived : CaptchaAssetStatus

pub data CaptchaChallengeContext : Type 0 where
  login register password_reset api_sensitive_action : CaptchaChallengeContext

pub data CaptchaChallengeStatus : Type 0 where
  pending passed failed expired : CaptchaChallengeStatus

pub data CaptchaTemplateType : Type 0 where
  image_text math_expression : CaptchaTemplateType

pub record CaptchaTemplate : Type 0 where
  pub id : String
  pub code : String
  pub name : String
  pub type : CaptchaTemplateType
  pub status : CaptchaTemplateStatus
  pub default_difficulty : CaptchaDifficulty
  pub generator : String
  pub created_at : ℕ

pub record CaptchaConfig : Type 0 where
  pub id : String
  pub template_id : String
  pub version : ℕ
  pub status : CaptchaConfigStatus
  pub config_json : String
  pub created_by_user_id : Option String
  pub created_at : ℕ
  pub activated_at : Option ℕ

pub record CaptchaAsset : Type 0 where
  pub id : String
  pub template_id : String
  pub config_id : String
  pub storage_key : String
  pub answer_hash : String
  pub answer_normalized_hash : String
  pub difficulty : CaptchaDifficulty
  pub status : CaptchaAssetStatus
  pub generated_at : ℕ
  pub expires_at : ℕ
  pub used_count : ℕ
  pub max_uses : ℕ
  pub metadata_json : String

pub record CaptchaChallenge : Type 0 where
  pub id : String
  pub asset_id : String
  pub context : CaptchaChallengeContext
  pub subject_hash : Option String
  pub risk_score : ℕ
  pub status : CaptchaChallengeStatus
  pub attempts_count : ℕ
  pub expires_at : ℕ
  pub created_at : ℕ
  pub completed_at : Option ℕ

pub record CaptchaAttempt : Type 0 where
  pub id : String
  pub challenge_id : String
  pub answer_hash : String
  pub is_success : Bool
  pub solve_time_ms : ℤ
  pub ip_hash : Option String
  pub user_agent_hash : Option String
  pub created_at : ℕ

-- `===` against one constant of an enum
abbrev pub is_pending : CaptchaChallengeStatus → Bool
is_pending pending = true
is_pending _ = false

abbrev pub is_reserved : CaptchaAssetStatus → Bool
is_reserved reserved = true
is_reserved _ = false

abbrev pub is_available : CaptchaAssetStatus → Bool
is_available available = true
is_available _ = false

abbrev pub is_active_template : CaptchaTemplateStatus → Bool
is_active_template CaptchaTemplateStatus.active = true
is_active_template _ = false

abbrev pub is_active_config : CaptchaConfigStatus → Bool
is_active_config CaptchaConfigStatus.active = true
is_active_config _ = false

-- The text of a difficulty, as the enum gives it.
abbrev pub difficulty_text : CaptchaDifficulty → String
difficulty_text easy = "easy"
difficulty_text medium = "medium"
difficulty_text hard = "hard"

-- An image that a generator draws: its bytes as text.
pub record GeneratedCaptcha : Type 0 where
  pub answer : String
  pub image : String
  pub content_type : String
  pub metadata : String

pub record GenerateBatchJob : Type 0 where
  pub config_id : String
  pub count : ℕ
  pub difficulty : CaptchaDifficulty

-- The parts of a verification.
pub record VerifyCaptchaChallengeCommand : Type 0 where
  pub challenge_id : String
  pub answer : String
  pub ip : Option String
  pub user_agent : Option String

pub record VerifyResult : Type 0 where
  pub success : Bool
  pub attempts_left : ℕ

pub record CreateCaptchaChallengeCommand : Type 0 where
  pub context : CaptchaChallengeContext
  pub risk_score : Option ℕ
  pub difficulty : Option CaptchaDifficulty
  pub template_code : Option String
  pub subject : Option String

pub record CreatedChallenge : Type 0 where
  pub challenge_id : String
  pub image_url : String
  pub expires_in : ℕ
