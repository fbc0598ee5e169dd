-- ===== src/Captcha/Verify.antt =====
-- VerifyCaptchaChallengeHandler of application/handlers/captcha.handlers.ts
pub mod Outcome
pub mod Attempts
use mathlib.Core.Option
use nest_rest_backend_templa.Prelude.{
  ℕ, ◌+◌, ◌-◌, difference, String, Option, none, some, Bool, true, false, not, leb, ◌==◌, nat_eq,
  string_eq, if◌then◌else◌, present,
}
use nest_rest_backend_templa.Exec.{
  Exec, pure, gets, raise, throw_if, or_throw, http, not_found, conflict, gone, ◌>>=◌, ◌>>◌,
}
use nest_rest_backend_templa.Captcha.Types.{
  CaptchaChallenge, CaptchaAsset, CaptchaAttempt, VerifyCaptchaChallengeCommand, VerifyResult,
  CaptchaChallengeStatus, is_pending, is_reserved,
}
use nest_rest_backend_templa.Captcha.Store.{
  CaptchaStore, find_challenge_by_id, find_asset_by_id, complete_challenge,
  increment_challenge_attempts, create_attempt, mark_asset_used,
}
use nest_rest_backend_templa.Captcha.Hashing.{
  CaptchaPlatform, normalize, hash_answer, compare_answer, hash_lookup,
}

-- What one run reads from outside: the clock, `captcha.maxAttemptsPerChallenge`, and the id and the
-- creation time of the row for the attempt.
pub record VerifyOutside : Type 0 where
  pub checked_at : ℕ
  pub solved_at : ℕ
  pub completed_at : ℕ
  pub max_attempts : ℕ
  pub attempt_id : String
  pub attempt_created_at : ℕ

-- The challenge is completed and its asset is used up.
unfoldable pub close :
    ℕ → CaptchaChallenge → CaptchaAsset → CaptchaChallengeStatus → Exec CaptchaStore (Unit {0})
close now challenge asset status = do
  complete_challenge now challenge.id status
  mark_asset_used asset.id

module _ (p : CaptchaPlatform) where
  -- `value ? hashLookup(value) : null`
  abbrev pub lookup_or_null : Option String → Option String
  lookup_or_null value = Option.map (hash_lookup p) (present value)

  module _ (o : VerifyOutside) (command : VerifyCaptchaChallengeCommand) where
    abbrev pub attempt_row : CaptchaChallenge → Bool → CaptchaAttempt
    attempt_row challenge success = record {
      id = o.attempt_id;
      challenge_id = challenge.id;
      answer_hash = hash_answer p (normalize p command.answer);
      is_success = success;
      solve_time_ms = difference o.solved_at challenge.created_at;
      ip_hash = lookup_or_null command.ip;
      user_agent_hash = lookup_or_null command.user_agent;
      created_at = o.attempt_created_at;
    }

    -- What follows the attempt's row.
    unfoldable pub settle :
        CaptchaChallenge → CaptchaAsset → (success : Bool) → Exec CaptchaStore VerifyResult
    unfolding close
    settle challenge asset true = do
      close o.completed_at challenge asset CaptchaChallengeStatus.passed
      pure (record { success = true; attempts_left = 0 })
    settle challenge asset false =
        let attempts_left = o.max_attempts - (challenge.attempts_count + 1) in
        (do
          if attempts_left == 0
              then close o.completed_at challenge asset CaptchaChallengeStatus.failed
              else pure tt
          pure (record { success = false; attempts_left = attempts_left }))

    unfoldable pub answer : CaptchaChallenge → CaptchaAsset → Exec CaptchaStore VerifyResult
    answer challenge asset =
        let success = compare_answer p (normalize p command.answer) asset.answer_normalized_hash in
        (do
          increment_challenge_attempts challenge.id
          create_attempt (attempt_row challenge success)
          settle challenge asset success)

    unfoldable pub check_asset :
        CaptchaChallenge → Option CaptchaAsset → Exec CaptchaStore VerifyResult
    check_asset challenge none = raise (http conflict "captcha.asset.notReserved")
    check_asset challenge (some asset) =
        if not (is_reserved asset.status)
        then raise (http conflict "captcha.asset.notReserved")
        else answer challenge asset

    unfoldable pub check_challenge : Option CaptchaChallenge → Exec CaptchaStore VerifyResult
    check_challenge none = raise (http not_found "captcha.challenge.notFound")
    check_challenge (some challenge) =
        if not (is_pending challenge.status)
        then raise (http conflict "captcha.challenge.closed")
        else if leb challenge.expires_at o.checked_at
        then (do
          complete_challenge o.completed_at challenge.id CaptchaChallengeStatus.expired
          raise (http gone "captcha.challenge.expired"))
        else if leb o.max_attempts challenge.attempts_count
        then raise (http conflict "captcha.challenge.tooManyAttempts")
        else (do asset ← gets (find_asset_by_id challenge.asset_id); check_asset challenge asset)

    -- execute
    unfoldable pub verify : Exec CaptchaStore VerifyResult
    verify = do
      challenge ← gets (find_challenge_by_id command.challenge_id)
      check_challenge challenge
