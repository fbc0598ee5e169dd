-- ===== src/Captcha/Tests.antt =====
-- Runs of the captcha module on concrete data, and the theorems about it at those inputs.

use nest_rest_backend_templa.Prelude.{
  ℕ, ◌-◌, ◌≤◌, ◌<◌, String, ◌≡◌, ◌≢◌, ◌↔◌, refl, none, some, true, false, List, [], ◌∷◌, ◌++◌, All,
  ◌==◌, string_eq, arith, if◌then◌else◌,
}
use nest_rest_backend_templa.Exec.{ok, throw, http, conflict}
use nest_rest_backend_templa.Sql.{select_first, select_where, update_where, insert}
use nest_rest_backend_templa.Captcha.Types.{
  CaptchaTemplate, CaptchaTemplateStatus, CaptchaConfig, CaptchaConfigStatus, CaptchaAsset,
  CaptchaAssetStatus, CaptchaChallenge, CaptchaChallengeStatus, login, medium, image_text,
  VerifyCaptchaChallengeCommand, CreateCaptchaChallengeCommand, GeneratedCaptcha, GenerateBatchJob,
  is_available, is_active_config,
}
use nest_rest_backend_templa.Captcha.Store.{
  CaptchaStore, find_challenge_by_id, find_asset_by_id, find_config_by_id, find_template_by_id,
  find_template_by_code, active_of, config_of, activate_config, pool_key, pop_asset, reserve_asset,
  max_version,
}
use nest_rest_backend_templa.Captcha.Hashing.{
  CaptchaPlatform, compare_answer, hash_answer, normalize, replace_yo, remove_others,
  collapse_spaces,
}
use nest_rest_backend_templa.Captcha.Verify.{VerifyOutside, verify}
use nest_rest_backend_templa.Captcha.Verify.Outcome.{CanAnswer, matches, passed, verify_iff}
use nest_rest_backend_templa.Captcha.Verify.Attempts.{closed_for_good, judged_in, judged_in_le}
use nest_rest_backend_templa.Captcha.Challenge.{
  ChallengeOutside, created, draw, issue, draw_for, create_challenge,
}
use nest_rest_backend_templa.Captcha.Challenge.Created.{Keyed, create_then_verify}
use nest_rest_backend_templa.Captcha.Challenge.Shares.{
  IsUsable, create_takes_usable, create_twice_differs,
}
use nest_rest_backend_templa.Captcha.Templates.{
  CaptchaGenerator, CreateCaptchaConfigDraftCommand, create_config_draft, draft_for, config_row,
}
use nest_rest_backend_templa.Captcha.Templates.Versions.{
  activate_config_leaves_one, create_config_draft_is_newest,
}
use nest_rest_backend_templa.Captcha.Generation.{TurnOutside, process}
use nest_rest_backend_templa.Captcha.Generation.Batch.{ids_from, AllGenerated, process_fills_pool}

abbrev plain : CaptchaPlatform
plain = record {
  trim = λ s. s;
  to_lower_case = λ s. s;
  is_letter = λ c. true;
  is_number = λ c. false;
  is_space = λ c. false;
  hmac_hex = λ s. s;
  number_text = λ n. "1";
}

abbrev template : CaptchaTemplate
template = record {
  id = "t1";
  code = "svg-text-ru-v1";
  name = "text";
  type = image_text;
  status = CaptchaTemplateStatus.active;
  default_difficulty = medium;
  generator = "svg_text";
  created_at = 1;
}

abbrev config : (id : String) (version : ℕ) → CaptchaConfigStatus → CaptchaConfig
config id version status = record {
  id = id;
  template_id = "t1";
  version = version;
  status = status;
  config_json = "{}";
  created_by_user_id = none;
  created_at = 1;
  activated_at = none;
}

abbrev asset : (id : String) → CaptchaAssetStatus → CaptchaAsset
asset id status = record {
  id = id;
  template_id = "t1";
  config_id = "k1";
  storage_key = id;
  answer_hash = "answer:abc";
  answer_normalized_hash = "answer:abc";
  difficulty = medium;
  status = status;
  generated_at = 1;
  expires_at = 10000;
  used_count = 0;
  max_uses = 1;
  metadata_json = "{}";
}

abbrev challenge : CaptchaChallenge
challenge = record {
  id = "c1";
  asset_id = "a3";
  context = login;
  subject_hash = none;
  risk_score = 0;
  status = CaptchaChallengeStatus.pending;
  attempts_count = 0;
  expires_at = 1000;
  created_at = 1;
  completed_at = none;
}

abbrev medium_key : String
medium_key = "captcha:pool:svg-text-ru-v1:medium"

abbrev start : CaptchaStore
start = record {
  templates = template ∷ [];
  configs = config "k1" 1 CaptchaConfigStatus.active ∷ config "k2" 2 CaptchaConfigStatus.draft ∷ [];
  assets =
      asset "a1" CaptchaAssetStatus.available
      ∷ asset "a2" CaptchaAssetStatus.available
      ∷ asset "a3" CaptchaAssetStatus.reserved
      ∷ [];
  challenges = challenge ∷ [];
  attempts = [];
  pools = λ k. if k == medium_key then "gone" ∷ "a1" ∷ "a2" ∷ [] else [];
  objects = [];
  generation_queue = [];
}

tables : Unit {0}
unfolding select_first select_where update_where
tables = tt

-- VERIFY
abbrev at_time : ℕ → VerifyOutside
at_time t = record {
  checked_at = t;
  solved_at = t;
  completed_at = t;
  max_attempts = 2;
  attempt_id = "v";
  attempt_created_at = t;
}

abbrev say : (id answer : String) → VerifyCaptchaChallengeCommand
say id answer = record {
  challenge_id = id;
  answer = answer;
  ip = some "10.0.0.1";
  user_agent = none;
}

can_answer : CanAnswer (at_time 5) (say "c1" "abc") start
unfolding tables
can_answer = record {
  challenge = challenge;
  asset = asset "a3" CaptchaAssetStatus.reserved;
  found = refl;
  is_open = refl;
  fresh = omega arith;
  has_attempts = omega arith;
  asset_found = refl;
  reserved = refl;
}

right_answer : matches plain (say "c1" "abc") (asset "a3" CaptchaAssetStatus.reserved) ≡ true
unfolding compare_answer hash_answer normalize replace_yo remove_others collapse_spaces
right_answer = refl

verify_iff_example : ((verify plain (at_time 5) (say "c1" "abc") start).0 ≡ ok passed) ↔ (
    (h : CanAnswer (at_time 5) (say "c1" "abc") start) × (matches plain (say "c1" "abc") h.asset
      ≡ true))
verify_iff_example = verify_iff plain (at_time 5) (say "c1" "abc") start

it_passes : (verify plain (at_time 5) (say "c1" "abc") start).0 ≡ ok passed
unfolding can_answer
it_passes = (verify_iff plain (at_time 5) (say "c1" "abc") start).1 (can_answer, right_answer)

closed_for_good_example :
    verify plain (at_time 9) (say "c1" "abc") (verify plain (at_time 5) (say "c1" "abc") start).1
    ≡ (
      throw (http conflict "captcha.challenge.closed"),
      (verify plain (at_time 5) (say "c1" "abc") start).1,
    )
closed_for_good_example =
    closed_for_good plain (at_time 5) (say "c1" "abc") start passed (at_time 9) (say "c1" "abc")
      it_passes refl refl

abbrev guesses : List (VerifyOutside × VerifyCaptchaChallengeCommand)
guesses = (at_time 5, say "c1" "a") ∷ (at_time 6, say "c1" "b") ∷ (at_time 7, say "c1" "abc") ∷ []

challenge_found : find_challenge_by_id "c1" start ≡ some challenge
unfolding tables
challenge_found = refl

judged_in_le_example : judged_in plain guesses start ≤ 2 - 0
judged_in_le_example =
    judged_in_le plain "c1" 2 guesses start challenge (refl, refl, (refl, refl, (refl, refl, tt)))
      challenge_found

-- CREATE
abbrev creating : String → ChallengeOutside
creating id = record {
  reserved_at = λ turn. 10;
  now = 20;
  ttl = 180;
  redis_prefix = "captcha";
  challenge_id = id;
  created_at = 20;
}

abbrev ask : CreateCaptchaChallengeCommand
ask = record {
  context = login;
  risk_score = none;
  difficulty = none;
  template_code = none;
  subject = none;
}

template_found : find_template_by_code "svg-text-ru-v1" start ≡ some template
unfolding tables
template_found = refl

a1-IsUsable : IsUsable (λ turn. 10) "a1" start.assets
a1-IsUsable turn = refl

create_takes_usable_example :
    (create_challenge plain (creating "c2") ask start).0 ≡ ok (created plain (creating "c2") ask)
create_takes_usable_example =
    create_takes_usable plain (creating "c2") ask start template ("gone" ∷ []) ("a2" ∷ []) "a1"
      template_found refl refl (refl, tt) refl a1-IsUsable

created_first :
    (create_challenge plain (creating "c2") ask start).0 ≡ ok (created plain (creating "c2") ask)
unfolding create_challenge draw_for draw issue pop_asset reserve_asset tables
created_first = refl

created_second :
    (create_challenge plain
      (creating "c3")
      ask
      (create_challenge plain (creating "c2") ask start).1).0
    ≡ ok (created plain (creating "c3") ask)
unfolding create_challenge draw_for draw issue pop_asset reserve_asset tables
created_second = refl

assets-Keyed : Keyed start.assets
assets-Keyed = ((refl, (refl, tt)), ((refl, tt), (tt, tt)))

no_challenge : find_challenge_by_id "c2" start ≡ none
unfolding tables
no_challenge = refl

no_other : find_challenge_by_id "c3" (create_challenge plain (creating "c2") ask start).1 ≡ none
unfolding create_challenge draw_for draw issue pop_asset reserve_asset tables
no_other = refl

create_then_verify_example :
    (a : CaptchaAsset) × (find_asset_by_id a.id start ≡ some a)
    × (is_available a.status ≡ true)
    × (((verify plain
            (at_time 50)
            (say "c2" "abc")
            (create_challenge plain (creating "c2") ask start).1).0
          ≡ ok passed)
        ↔ (matches plain (say "c2" "abc") a ≡ true))
create_then_verify_example =
    create_then_verify plain (creating "c2") ask start (created plain (creating "c2") ask)
      (at_time 50) (say "c2" "abc") created_first assets-Keyed no_challenge refl (omega arith)
      (omega arith)

create_twice_differs_example :
    (d : CaptchaChallenge) × (d' : CaptchaChallenge) × (find_challenge_by_id "c2"
        (create_challenge plain
          (creating "c3")
          ask
          (create_challenge plain (creating "c2") ask start).1).1
      ≡ some d)
    × (find_challenge_by_id "c3"
          (create_challenge plain
            (creating "c3")
            ask
            (create_challenge plain (creating "c2") ask start).1).1
        ≡ some d')
    × (d.asset_id ≢ d'.asset_id)
create_twice_differs_example =
    create_twice_differs plain (creating "c2") ask start (created plain (creating "c2") ask)
      (creating "c3") ask (created plain (creating "c3") ask) created_first created_second
      assets-Keyed no_challenge no_other

-- TEMPLATES
draft_found : find_config_by_id "k2" start ≡ some (config "k2" 2 CaptchaConfigStatus.draft)
unfolding tables
draft_found = refl

activate_config_leaves_one_example :
    (row : CaptchaConfig) × ((activate_config 7 "k2" start).0 ≡ ok row)
    × (row.id ≡ "k2")
    × (is_active_config row.status ≡ true)
    × All (λ c. active_of "t1" c ≡ true → c.id ≡ "k2") (activate_config 7 "k2" start).1.configs
activate_config_leaves_one_example =
    activate_config_leaves_one 7 "k2" start (config "k2" 2 CaptchaConfigStatus.draft) draft_found

abbrev image : GeneratedCaptcha
image = record { answer = "abc"; image = "<svg/>"; content_type = "image/svg+xml"; metadata = "{}" }

abbrev generator : CaptchaGenerator
generator = record {
  code = "svg_text";
  validate_config = λ c. ok c;
  generate = λ call c d. ok image;
  preview = λ c d n. ok [];
}

abbrev drafting : CreateCaptchaConfigDraftCommand
drafting = record { template_id = "t1"; config_json = "{}"; created_by_user_id = none }

drafted :
    (create_config_draft generator "k3" 9 drafting start).0
    ≡ ok (config_row generator "k3" 9 drafting 3 "{}")
unfolding create_config_draft draft_for max_version tables
drafted = refl

create_config_draft_is_newest_example :
    ((create_config_draft generator "k3" 9 drafting start).1.configs
      ≡ insert (config_row generator "k3" 9 drafting 3 "{}") start.configs)
    × ((config_row generator "k3" 9 drafting 3 "{}").template_id ≡ drafting.template_id)
    × (is_active_config (config_row generator "k3" 9 drafting 3 "{}").status ≡ false)
    × All (λ c. config_of "t1" c ≡ true → c.version < 3) start.configs
create_config_draft_is_newest_example =
    create_config_draft_is_newest generator "k3" 9 drafting start
      (config_row generator "k3" 9 drafting 3 "{}") drafted

-- GENERATION
abbrev turns : ℕ → TurnOutside
turns i = record {
  keyed_at = i;
  stored_at = i;
  put_error = none;
  asset_id = "new";
  generated_at = i;
}

abbrev batch : GenerateBatchJob
batch = record { config_id = "k2"; count = 2; difficulty = medium }

template_by_id : find_template_by_id "t1" start ≡ some template
unfolding tables
template_by_id = refl

process_fills_pool_example :
    ((process plain generator "captcha" turns "generate-batch" batch start).0 ≡ ok tt)
    × ((process plain generator "captcha" turns "generate-batch" batch start).1.pools
          (pool_key "captcha" "svg-text-ru-v1" medium)
        ≡ start.pools (pool_key "captcha" "svg-text-ru-v1" medium) ++ ids_from turns 2 0)
    × ((assets : List CaptchaAsset) × (objects : List (String × String)) × ((process plain generator
            "captcha" turns "generate-batch" batch start).1.assets
          ≡ start.assets ++ assets)
        × ((process plain generator "captcha" turns "generate-batch" batch start).1.objects
            ≡ start.objects ++ objects)
        × AllGenerated plain turns medium template
            (config "k2" 2 CaptchaConfigStatus.draft)
            (λ i. image)
            2
            0
            assets
            objects)
process_fills_pool_example =
    process_fills_pool plain generator "captcha" turns batch start
      (config "k2" 2 CaptchaConfigStatus.draft) template (λ i. image) draft_found template_by_id
      (λ i. refl) (λ i. refl)
