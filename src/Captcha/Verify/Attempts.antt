-- ===== src/Captcha/Verify/Attempts.antt =====
-- A challenge over many verifications: it closes for good, and its attempts are bounded.

use nest_rest_backend_templa.Prelude.{
  ℕ, ◌+◌, ◌-◌, ◌≤◌, ◌<◌, max, eq_iff, String, ◌≡◌, refl, sym, ap, ◌∙◌, some, Bool, true, false, leb,
  List, [], ◌∷◌, ◌==◌, nat_eq, string_eq, arith, Bool-cases, Option-cases, inl, inr, subst,
}
use nest_rest_backend_templa.Exec.{ok, throw, Thrown, Result, http, conflict}
use nest_rest_backend_templa.Sql.Laws.{select_first-holds}
use nest_rest_backend_templa.Captcha.Types.{
  CaptchaChallenge, VerifyCaptchaChallengeCommand, VerifyResult, CaptchaChallengeStatus, is_pending,
  is_reserved,
}
use nest_rest_backend_templa.Captcha.Store.{
  CaptchaStore, find_challenge_by_id, find_asset_by_id, challenge_id_is, complete, count_attempt,
}
use nest_rest_backend_templa.Captcha.Hashing.{CaptchaPlatform}
use nest_rest_backend_templa.Captcha.Verify.{VerifyOutside, check_asset, check_challenge, verify}
use nest_rest_backend_templa.Captcha.Verify.Outcome.{
  CanAnswer, matches, attempted, closed, left_after, find-with_challenges, complete_challenge-eq,
  found_attempted, same_id, verify-right, verify-wrong, ok-CanAnswer,
}

abbrev reply_of : Result VerifyResult × CaptchaStore → Result VerifyResult
reply_of (r, s) = r

abbrev left_of : Result VerifyResult → ℕ
left_of (ok r) = r.attempts_left
left_of (throw t) = 0

module _ (p : CaptchaPlatform) (o : VerifyOutside) (c : VerifyCaptchaChallengeCommand)
    (s : CaptchaStore) where
  -- A challenge that is not pending.
  abbrev IsClosed : CaptchaStore → Type 0
  IsClosed t =
      (d : CaptchaChallenge) × (find_challenge_by_id c.challenge_id t ≡ some d)
      × (is_pending d.status ≡ false)

  found-closed :
      (h : CanAnswer o c s) (success : Bool) (status : CaptchaChallengeStatus)
      → find_challenge_by_id c.challenge_id
          (closed p o c h.challenge h.asset status (attempted p o c h.challenge success s))
        ≡ some (complete o.completed_at status (count_attempt h.challenge))
  found-closed h success status =
      subst
        (λ i.
          find_challenge_by_id i
            (closed p o c h.challenge h.asset status (attempted p o c h.challenge success s))
          ≡ some (complete o.completed_at status (count_attempt h.challenge)))
        (same_id p o c s h)
        (find-with_challenges h.challenge.id (complete o.completed_at status)
          (attempted p o c h.challenge success s) (count_attempt h.challenge) (λ d. refl)
          (found_attempted p o c s h success))

  found-attempted :
      (h : CanAnswer o c s) (success : Bool)
      → find_challenge_by_id c.challenge_id (attempted p o c h.challenge success s)
        ≡ some (count_attempt h.challenge)
  found-attempted h success =
      subst
        (λ i.
          find_challenge_by_id i (attempted p o c h.challenge success s)
          ≡ some (count_attempt h.challenge))
        (same_id p o c s h) (found_attempted p o c s h success)

  done-IsClosed :
      (r : VerifyResult)
      → (verify p o c s).0 ≡ ok r
      → r.attempts_left ≡ 0
      → IsClosed (verify p o c s).1
  done-IsClosed r e none_left =
      let h = ok-CanAnswer p o c s r e in
      elim (Bool-cases (matches p c h.asset)) [
        | inl good ↦
            rw (verify-right p o c s h good)
              (_, found-closed h true CaptchaChallengeStatus.passed, refl)
        | inr bad ↦
            let last : left_after p o c s h ≡ 0 =
              ap left_of (sym (ap reply_of (verify-wrong p o c s h bad)) ∙ e) ∙ none_left in
            let zero_left : (left_after p o c s h == 0) ≡ true = ground (arith, last) in
            rw (verify-wrong p o c s h bad)
              (rw zero_left (_, found-closed h false CaptchaChallengeStatus.failed, refl))
      ]

refuses_closed :
    (p : CaptchaPlatform) (o : VerifyOutside) (c : VerifyCaptchaChallengeCommand) (s : CaptchaStore)
    (d : CaptchaChallenge)
    → find_challenge_by_id c.challenge_id s ≡ some d
    → is_pending d.status ≡ false
    → verify p o c s ≡ (throw (http conflict "captcha.challenge.closed"), s)
unfolding verify check_challenge
refuses_closed p o c s d found shut = simp (found, shut)

-- Once a verification has left no attempts (because the answer passed or because it was the last
-- one), every later verification of the challenge is refused as closed and writes nothing.
pub closed_for_good :
    (p : CaptchaPlatform) (o : VerifyOutside) (c : VerifyCaptchaChallengeCommand) (s : CaptchaStore)
    (r : VerifyResult) (o' : VerifyOutside) (c' : VerifyCaptchaChallengeCommand)
    → (verify p o c s).0 ≡ ok r
    → r.attempts_left ≡ 0
    → c'.challenge_id ≡ c.challenge_id
    → verify p o' c' (verify p o c s).1
      ≡ (throw (http conflict "captcha.challenge.closed"), (verify p o c s).1)
closed_for_good p o c s r o' c' e none_left same =
    let (d, found, shut) = done-IsClosed p o c s r e none_left in
    refuses_closed p o' c' (verify p o c s).1 d
      (subst (λ i. find_challenge_by_id i (verify p o c s).1 ≡ some d) (sym same) found) shut

-- The answers of a run that were judged, right or wrong.
abbrev judged : Result VerifyResult → ℕ
judged (ok r) = 1
judged (throw t) = 0

unfoldable pub judged_in :
    CaptchaPlatform → List (VerifyOutside × VerifyCaptchaChallengeCommand) → CaptchaStore → ℕ
judged_in p [] s = 0
judged_in p ((o, c) ∷ rest) s = judged (verify p o c s).0 + judged_in p rest (verify p o c s).1

-- Every command of the run is for the challenge, under the same limit.
abbrev pub AllFor :
    (id : String) (limit : ℕ) → List (VerifyOutside × VerifyCaptchaChallengeCommand) → Type 0
AllFor id limit [] = Unit
AllFor id limit ((o, c) ∷ rest) =
    (c.challenge_id ≡ id) × (o.max_attempts ≡ limit) × AllFor id limit rest

module _ (p : CaptchaPlatform) (o : VerifyOutside) (c : VerifyCaptchaChallengeCommand)
    (s : CaptchaStore) where
  -- The challenge after the verification, with the attempts that it has then.
  abbrev After : CaptchaChallenge → Result VerifyResult × CaptchaStore → Type 0
  After d m =
      (d' : CaptchaChallenge) × (find_challenge_by_id c.challenge_id m.1 ≡ some d')
      × (d'.attempts_count ≡ d.attempts_count + judged m.0)

  answered-After : (h : CanAnswer o c s) → After h.challenge (verify p o c s)
  answered-After h = elim (Bool-cases (matches p c h.asset)) [
    | inl good ↦
        rw (verify-right p o c s h good)
          (_, found-closed p o c s h true CaptchaChallengeStatus.passed, refl)
    | inr bad ↦ elim (Bool-cases (left_after p o c s h == 0)) [
      | inl last ↦
          rw (verify-wrong p o c s h bad)
            (rw last (_, found-closed p o c s h false CaptchaChallengeStatus.failed, refl))
      | inr more ↦
          rw (verify-wrong p o c s h bad) (rw more (_, found-attempted p o c s h false, refl))
    ]
  ]

  abbrev Judged : CaptchaChallenge → Type 0
  Judged d =
      After d (verify p o c s)
      × (judged (verify p o c s).0 + d.attempts_count ≤ max d.attempts_count o.max_attempts)

  unchanged :
      (d : CaptchaChallenge) (t : Thrown)
      → find_challenge_by_id c.challenge_id s ≡ some d
      → verify p o c s ≡ (throw t, s)
      → Judged d
  unchanged d t found e = rw e ((d, found, omega arith), omega arith)

  judged_le : (m : Result VerifyResult) → judged m ≤ 1
  judged_le (ok r) = omega arith
  judged_le (throw t) = omega arith

  expired-After :
      (d : CaptchaChallenge)
      → find_challenge_by_id c.challenge_id s ≡ some d
      → is_pending d.status ≡ true
      → leb d.expires_at o.checked_at ≡ true
      → Judged d
  unfolding verify check_challenge
  expired-After d found pending old =
      let same : d.id ≡ c.challenge_id =
        (eq_iff d.id c.challenge_id).0
          (select_first-holds (challenge_id_is c.challenge_id) s.challenges d found) in
      let completed =
        complete_challenge-eq o.completed_at c.challenge_id CaptchaChallengeStatus.expired s d
          found in
      simp (found, pending, old, same, completed)
        (
          (
            _,
            find-with_challenges c.challenge_id
                (complete o.completed_at CaptchaChallengeStatus.expired) s d (λ x. refl) found,
            omega arith,
          ),
          omega arith,
        )

  late_or : (m n : ℕ) → leb n m ≡ false → m < n
  late_or m n h = ground arith

  verify-After : (d : CaptchaChallenge) → find_challenge_by_id c.challenge_id s ≡ some d → Judged d
  unfolding verify check_challenge check_asset
  verify-After d found = elim (Bool-cases (is_pending d.status)) [
    | inr shut ↦ unchanged d _ found (refuses_closed p o c s d found shut)
    | inl pending ↦ elim (Bool-cases (leb d.expires_at o.checked_at)) [
      | inl old ↦ expired-After d found pending old
      | inr fresh ↦ elim (Bool-cases (leb o.max_attempts d.attempts_count)) [
        | inl many ↦
            unchanged d (http conflict "captcha.challenge.tooManyAttempts") found
              (simp (found, pending, fresh, many))
        | inr few ↦ elim (Option-cases (find_asset_by_id d.asset_id s)) [
          | inl missing ↦
              unchanged d (http conflict "captcha.asset.notReserved") found
                (simp (found, pending, fresh, few, missing))
          | inr (asset, asset_found) ↦ elim (Bool-cases (is_reserved asset.status)) [
            | inr other ↦
                unchanged d (http conflict "captcha.asset.notReserved") found
                  (simp (found, pending, fresh, few, asset_found, other))
            | inl reserved ↦
                let h : CanAnswer o c s = record {
                  challenge = d;
                  asset = asset;
                  found = found;
                  is_open = pending;
                  fresh = late_or _ _ fresh;
                  has_attempts = late_or _ _ few;
                  asset_found = asset_found;
                  reserved = reserved;
                } in
                let one = judged_le (verify p o c s).0 in
                (answered-After h, omega (arith, one, late_or _ _ few))
          ]
        ]
      ]
    ]
  ]

-- However many verifications of one challenge run under one limit, and with whatever answers, no
-- more of them are judged than the limit has attempts left: the others are refused.
pub judged_in_le :
    (p : CaptchaPlatform) (id : String) (limit : ℕ)
    (run : List (VerifyOutside × VerifyCaptchaChallengeCommand)) (s : CaptchaStore)
    (d : CaptchaChallenge)
    → AllFor id limit run
    → find_challenge_by_id id s ≡ some d
    → judged_in p run s ≤ limit - d.attempts_count
unfolding judged_in
judged_in_le p id limit [] s d h found = omega arith
judged_in_le p id limit ((o, c) ∷ rest) s d (same, bound, later) found =
    let ((d', found', count), room) =
      verify-After p o c s d (subst (λ i. find_challenge_by_id i s ≡ some d) (sym same) found) in
    let rest_le =
      judged_in_le p id limit rest (verify p o c s).1 d' later
        (subst (λ i. find_challenge_by_id i (verify p o c s).1 ≡ some d') same found') in
    omega (arith, rest_le, count, room, bound, judged_le p o c s (verify p o c s).0)
