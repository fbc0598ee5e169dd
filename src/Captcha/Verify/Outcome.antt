-- ===== src/Captcha/Verify/Outcome.antt =====
-- When an answer passes, and what a verification writes.
use mathlib.Core.Option
use mathlib.Core.Bool.{false≢true}
use nest_rest_backend_templa.Prelude.{
  ℕ, List, eq_iff, subst, if◌then◌else◌, ◌+◌, ◌-◌, ◌<◌, String, ◌≡◌, ◌↔◌, refl, sym, ap, ◌∙◌, some,
  Bool, true, false, leb, ◌==◌, nat_eq, string_eq, arith, Bool-cases, Option-cases, inl, inr,
}
use nest_rest_backend_templa.Exec.{ok, throw, Result}
use nest_rest_backend_templa.Sql.{update_where, insert, touch, select_first}
use nest_rest_backend_templa.Sql.Laws.{select_first-update, select_first-holds}
use nest_rest_backend_templa.Captcha.Types.{
  CaptchaChallenge, CaptchaAsset, VerifyCaptchaChallengeCommand, VerifyResult,
  CaptchaChallengeStatus, is_pending, is_reserved,
}
use nest_rest_backend_templa.Captcha.Store.{
  CaptchaStore, challenge_id_is, asset_id_is, find_challenge_by_id, find_asset_by_id, complete,
  complete_challenge, count_attempt, use_up,
}
use nest_rest_backend_templa.Captcha.Hashing.{CaptchaPlatform, normalize, compare_answer}
use nest_rest_backend_templa.Captcha.Verify.{
  VerifyOutside, attempt_row, close, settle, answer, check_asset, check_challenge, verify,
}

-- A challenge that takes an answer.
pub record CanAnswer (o : VerifyOutside) (c : VerifyCaptchaChallengeCommand) (s : CaptchaStore)
    : Type 0 where
  pub challenge : CaptchaChallenge
  pub asset : CaptchaAsset
  pub found : find_challenge_by_id c.challenge_id s ≡ some challenge
  pub is_open : is_pending challenge.status ≡ true
  pub fresh : o.checked_at < challenge.expires_at
  pub has_attempts : challenge.attempts_count < o.max_attempts
  pub asset_found : find_asset_by_id challenge.asset_id s ≡ some asset
  pub reserved : is_reserved asset.status ≡ true

-- The rows of one challenge after an update that keeps its id.
pub found-update :
    (id other : String) (f : CaptchaChallenge → CaptchaChallenge) (rows : List CaptchaChallenge)
    → ((c : CaptchaChallenge) → (f c).id ≡ c.id)
    → select_first (challenge_id_is id) (update_where (challenge_id_is other) f rows)
      ≡ Option.map (touch (challenge_id_is other) f) (select_first (challenge_id_is id) rows)
found-update id other f rows keep =
    select_first-update (challenge_id_is id) (challenge_id_is other) f rows
      λ c. ground (arith, keep c)

abbrev pub with_challenges :
    String → (CaptchaChallenge → CaptchaChallenge) → CaptchaStore → CaptchaStore
with_challenges id f s = record s { challenges = update_where (challenge_id_is id) f s.challenges }

pub find-with_challenges :
    (id : String) (f : CaptchaChallenge → CaptchaChallenge) (s : CaptchaStore)
    (c : CaptchaChallenge)
    → ((c : CaptchaChallenge) → (f c).id ≡ c.id)
    → find_challenge_by_id id s ≡ some c
    → find_challenge_by_id id (with_challenges id f s) ≡ some (f c)
find-with_challenges id f s c keep found =
    let hit : (c.id == id) ≡ true = select_first-holds (challenge_id_is id) s.challenges c found in
    found-update id id f s.challenges keep ∙ simp (found, hit)

pub complete_challenge-eq :
    (now : ℕ) (id : String) (status : CaptchaChallengeStatus) (s : CaptchaStore)
    (c : CaptchaChallenge)
    → find_challenge_by_id id s ≡ some c
    → complete_challenge now id status s ≡ (ok tt, with_challenges id (complete now status) s)
unfolding complete_challenge
complete_challenge-eq now id status s c found =
    simp (find-with_challenges id (complete now status) s c (λ c. refl) found)

abbrev pub matches : CaptchaPlatform → VerifyCaptchaChallengeCommand → CaptchaAsset → Bool
matches p c asset = compare_answer p (normalize p c.answer) asset.answer_normalized_hash

module _ (p : CaptchaPlatform) (o : VerifyOutside) (c : VerifyCaptchaChallengeCommand) where
  -- After the attempt is counted and its row is written.
  abbrev pub attempted : CaptchaChallenge → Bool → CaptchaStore → CaptchaStore
  attempted challenge success s = record (with_challenges challenge.id count_attempt s) {
    attempts = insert (attempt_row p o c challenge success) s.attempts;
  }

  abbrev pub closed :
      CaptchaChallenge → CaptchaAsset → CaptchaChallengeStatus → CaptchaStore → CaptchaStore
  closed challenge asset status s =
      record (with_challenges challenge.id (complete o.completed_at status) s) {
        assets = update_where (asset_id_is asset.id) use_up s.assets;
      }

  module _ (s : CaptchaStore) (h : CanAnswer o c s) where
    pub same_id : h.challenge.id ≡ c.challenge_id
    same_id =
        (eq_iff h.challenge.id c.challenge_id).0
          (select_first-holds (challenge_id_is c.challenge_id) s.challenges h.challenge h.found)

    pub found_attempted :
        (success : Bool)
        → find_challenge_by_id h.challenge.id (attempted h.challenge success s)
          ≡ some (count_attempt h.challenge)
    found_attempted success =
        find-with_challenges h.challenge.id count_attempt s h.challenge (λ c. refl)
          (subst (λ i. find_challenge_by_id i s ≡ some h.challenge) (sym same_id) h.found)

    pub close-eq :
        (success : Bool) (status : CaptchaChallengeStatus)
        → close o.completed_at h.challenge h.asset status (attempted h.challenge success s)
          ≡ (ok tt, closed h.challenge h.asset status (attempted h.challenge success s))
    unfolding close
    close-eq success status = rw (
        complete_challenge-eq o.completed_at h.challenge.id status (attempted h.challenge success s)
          (count_attempt h.challenge) (found_attempted success))

    verify-answer : verify p o c s ≡ answer p o c h.challenge h.asset s
    unfolding verify check_challenge check_asset
    verify-answer =
        simp (h.found, h.is_open, late h.fresh, late h.has_attempts, h.asset_found, h.reserved)
      where
        late : {m n : ℕ} → m < n → leb n m ≡ false
        late k = ground arith

    -- The right answer.
    pub verify-right :
        matches p c h.asset ≡ true
        → verify p o c s ≡ (
          ok (record { success = true; attempts_left = 0 }),
          closed h.challenge h.asset CaptchaChallengeStatus.passed (attempted h.challenge true s),
        )
    unfolding answer settle
    verify-right right = verify-answer ∙ simp (right, close-eq true CaptchaChallengeStatus.passed)

    abbrev pub left_after : ℕ
    left_after = o.max_attempts - (h.challenge.attempts_count + 1)

    -- A wrong answer: the last one closes the challenge too.
    pub verify-wrong :
        matches p c h.asset ≡ false
        → verify p o c s ≡ (
          ok (record { success = false; attempts_left = left_after }),
          if left_after == 0
              then closed h.challenge h.asset CaptchaChallengeStatus.failed
                  (attempted h.challenge false s)
              else attempted h.challenge false s,
        )
    unfolding answer settle
    verify-wrong bad = elim (Bool-cases (left_after == 0)) [
      | inl last ↦ verify-answer ∙ simp (bad, last, close-eq false CaptchaChallengeStatus.failed)
      | inr more ↦ verify-answer ∙ simp (bad, more)
    ]

  module _ (s : CaptchaStore) (r : VerifyResult) where
    late_or : (m n : ℕ) → leb n m ≡ false → m < n
    late_or m n h = ground arith

    -- An answer that was judged was for a challenge that takes one.
    pub ok-CanAnswer : (verify p o c s).0 ≡ ok r → CanAnswer o c s
    unfolding verify check_challenge check_asset
    ok-CanAnswer e = elim (Option-cases (find_challenge_by_id c.challenge_id s)) [
      | inl missing ↦ absurd (ground (arith, simp missing at e))
      | inr (challenge, found) ↦ elim (Bool-cases (is_pending challenge.status)) [
        | inr shut ↦ absurd (ground (arith, simp (found, shut) at e))
        | inl pending ↦ elim (Bool-cases (leb challenge.expires_at o.checked_at)) [
          | inl old ↦ absurd (ground (arith, simp (found, pending, old) at e))
          | inr fresh ↦ elim (Bool-cases (leb o.max_attempts challenge.attempts_count)) [
            | inl many ↦ absurd (ground (arith, simp (found, pending, fresh, many) at e))
            | inr few ↦ elim (Option-cases (find_asset_by_id challenge.asset_id s)) [
              | inl missing ↦
                  absurd (ground (arith, simp (found, pending, fresh, few, missing) at e))
              | inr (asset, asset_found) ↦ elim (Bool-cases (is_reserved asset.status)) [
                | inr other ↦
                    absurd
                      (ground (arith, simp (found, pending, fresh, few, asset_found, other) at e))
                | inl reserved ↦ record {
                  challenge = challenge;
                  asset = asset;
                  found = found;
                  is_open = pending;
                  fresh = late_or _ _ fresh;
                  has_attempts = late_or _ _ few;
                  asset_found = asset_found;
                  reserved = reserved;
                }
              ]
            ]
          ]
        ]
      ]
    ]

abbrev pub passed : VerifyResult
passed = record { success = true; attempts_left = 0 }

abbrev is_success : Result VerifyResult → Bool
is_success (ok r) = r.success
is_success (throw t) = false

abbrev reply_of : Result VerifyResult × CaptchaStore → Result VerifyResult
reply_of (r, s) = r

-- A verification answers with success exactly when the challenge is there, is pending, has not
-- expired and has attempts left, its asset is reserved, and the hash of the normalised answer is
-- the one that the asset stores.
pub verify_iff :
    (p : CaptchaPlatform) (o : VerifyOutside) (c : VerifyCaptchaChallengeCommand) (s : CaptchaStore)
    → ((verify p o c s).0 ≡ ok passed) ↔ ((h : CanAnswer o c s) × (matches p c h.asset ≡ true))
verify_iff p o c s = (
  λ e.
      let h = ok-CanAnswer p o c s passed e in
      (
        h,
        elim (Bool-cases (matches p c h.asset)) [
          | inl good ↦ good
          | inr bad ↦
              absurd
                (false≢true (ap is_success (sym (ap reply_of (verify-wrong p o c s h bad)) ∙ e)))
        ],
      ),
  λ (h, right). ap reply_of (verify-right p o c s h right),
)
