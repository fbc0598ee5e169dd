-- ===== src/Captcha/Challenge.antt =====
-- CreateCaptchaChallengeHandler of application/handlers/captcha.handlers.ts
pub mod Draw
pub mod Created
pub mod Shares
use Prim.Native.String
use nest_rest_backend_templa.Prelude.{
  ℕ, zero, suc, ◌+◌, ◌*◌, String, Option, none, some, Bool, true, false, not, length, present,
  if◌then◌else◌,
}
use nest_rest_backend_templa.Exec.{
  Exec, ok, pure, gets, raise, http, not_found, service_unavailable, ◌>>=◌, ◌>>◌,
}
use nest_rest_backend_templa.Captcha.Types.{
  CaptchaTemplate, CaptchaDifficulty, CaptchaAsset, CaptchaChallenge, CaptchaChallengeStatus,
  CreateCaptchaChallengeCommand, CreatedChallenge, is_active_template,
}
use nest_rest_backend_templa.Captcha.Store.{
  CaptchaStore, find_template_by_code, pool_key, pop_asset, reserve_asset, create_challenge_row,
}
use nest_rest_backend_templa.Captcha.Hashing.{CaptchaPlatform, hash_lookup}
use nest_rest_backend_templa.Captcha.Verify.{lookup_or_null}

-- What one run reads from outside: the database's clock at the reservation of each number, the
-- clock, the configuration, and the id and the creation time of the challenge's row.
pub record ChallengeOutside : Type 0 where
  pub reserved_at : ℕ → ℕ
  pub now : ℕ
  pub ttl : ℕ
  pub redis_prefix : String
  pub challenge_id : String
  pub created_at : ℕ

abbrev pub default_template_code : String
default_template_code = "svg-text-ru-v1"

abbrev pub or_default {ℓ} : {A : Type ℓ} → Option A → A → A
or_default none d = d
or_default (some a) d = a

-- `asset` is there, or the loop goes on.
abbrev pub or_next :
    Exec CaptchaStore (Option CaptchaAsset)
    → Option CaptchaAsset
    → Exec CaptchaStore (Option CaptchaAsset)
or_next next none = next
or_next next (some asset) = pure (some asset)

abbrev pub try_reserve :
    (at : ℕ) (next : Exec CaptchaStore (Option CaptchaAsset))
    → Option String
    → Exec CaptchaStore (Option CaptchaAsset)
try_reserve at next none = pure none
try_reserve at next (some id) = do asset ← reserve_asset at id; or_next next asset

-- The pops and reservations, the first before the loop and the others in it; `turn` counts them.
-- Every turn takes an id out of the pool, so one turn more than the pool has ids is enough fuel.
unfoldable pub draw :
    (fuel turn : ℕ) (reserved_at : ℕ → ℕ) (key : String) → Exec CaptchaStore (Option CaptchaAsset)
draw zero turn reserved_at key = pure none
draw (suc fuel) turn reserved_at key = do
  id ← pop_asset key
  try_reserve (reserved_at turn) (draw fuel (suc turn) reserved_at key) (present id)

module _ (p : CaptchaPlatform) (o : ChallengeOutside)
    (command : CreateCaptchaChallengeCommand) where
  abbrev pub challenge_row : CaptchaAsset → CaptchaChallenge
  challenge_row asset = record {
    id = o.challenge_id;
    asset_id = asset.id;
    context = command.context;
    subject_hash = lookup_or_null p command.subject;
    risk_score = or_default command.risk_score 0;
    status = CaptchaChallengeStatus.pending;
    attempts_count = 0;
    expires_at = o.now + o.ttl * 1000;
    created_at = o.created_at;
    completed_at = none;
  }

  abbrev pub created : CreatedChallenge
  created = record {
    challenge_id = o.challenge_id;
    image_url = String.◌++◌ "/api/v1/captcha/challenges/" (String.◌++◌ o.challenge_id "/image");
    expires_in = o.ttl;
  }

  unfoldable pub issue : Option CaptchaAsset → Exec CaptchaStore CreatedChallenge
  issue none = raise (http service_unavailable "captcha.pool.empty")
  issue (some asset) = do create_challenge_row (challenge_row asset); pure created

  abbrev pub key_of : CaptchaTemplate → String
  key_of template =
      pool_key o.redis_prefix (or_default command.template_code default_template_code)
        (or_default command.difficulty template.default_difficulty)

  unfoldable pub draw_for : Option CaptchaTemplate → Exec CaptchaStore CreatedChallenge
  draw_for none = raise (http not_found "captcha.template.notFound")
  draw_for (some template) =
      if not (is_active_template template.status)
      then raise (http not_found "captcha.template.notFound")
      else (do
        size ← gets (λ s. length (s.pools (key_of template)))
        asset ← draw (suc size) 0 o.reserved_at (key_of template)
        issue asset)

  -- execute
  unfoldable pub create_challenge : Exec CaptchaStore CreatedChallenge
  create_challenge = do
    template ← gets (find_template_by_code (or_default command.template_code default_template_code))
    draw_for template
