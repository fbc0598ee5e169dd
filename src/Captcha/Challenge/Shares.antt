-- ===== src/Captcha/Challenge/Shares.antt =====
-- The pool serves: an id that can be reserved is not passed over, and no asset is given out twice.
use mathlib.Core.Option
use nest_rest_backend_templa.Prelude.{
  ℕ, suc, String, ◌≡◌, ◌≢◌, refl, sym, ap, ◌∙◌, subst, none, some, Bool, true, false, List, [], ◌∷◌,
  ◌++◌, ◌==◌, string_eq, arith, All, any, Bool-cases, Option-cases, inl, inr,
}
use nest_rest_backend_templa.Exec.{ok}
use nest_rest_backend_templa.Sql.{select_first, update_where}
use nest_rest_backend_templa.Sql.Laws.{select_first-append}
use nest_rest_backend_templa.Captcha.Types.{
  CaptchaTemplate, CaptchaAsset, CaptchaChallenge, CreateCaptchaChallengeCommand, CreatedChallenge,
  is_active_template, is_available,
}
use nest_rest_backend_templa.Captcha.Store.{
  CaptchaStore, can_reserve, reserve, find_asset_by_id, find_template_by_code, find_challenge_by_id,
  challenge_id_is,
}
use nest_rest_backend_templa.Captcha.Hashing.{CaptchaPlatform}
use nest_rest_backend_templa.Captcha.Challenge.{
  ChallengeOutside, or_default, default_template_code, key_of, created, challenge_row,
  create_challenge,
}
use nest_rest_backend_templa.Captcha.Challenge.Draw.{first_usable}
use nest_rest_backend_templa.Captcha.Challenge.Created.{
  Keyed, HasDrawn, ok-HasDrawn, search, after_create, create_found, was_found, asset_after,
  challenge_after,
}

any-select_first :
    {R : Type 0} (q : R → Bool) (rows : List R)
    → any q rows ≡ true
    → (r : R) × (select_first q rows ≡ some r)
unfolding select_first
any-select_first q [] e = cc
any-select_first q (r ∷ rows) e = elim (Bool-cases (q r)) [
  | inl yep ↦ (r, rw yep refl)
  | inr nope ↦ let (x, found) = any-select_first q rows (rw nope at e) in (x, rw nope found)
]

-- The id names an asset that can be reserved at every turn.
abbrev pub IsUsable : (ℕ → ℕ) → String → List CaptchaAsset → Type 0
IsUsable reserved_at id assets = (turn : ℕ) → any (can_reserve (reserved_at turn) id) assets ≡ true

module _ (reserved_at : ℕ → ℕ) (id : String) (after : List String) (assets : List CaptchaAsset)
    (named : (id == "") ≡ false) (usable : IsUsable reserved_at id assets) where
  usable-first_usable :
      (turn : ℕ) (before : List String)
      → All (λ i. (i == "") ≡ false) before
      → (w : CaptchaAsset × String × ℕ) × ((first_usable reserved_at turn
            (before ++ id ∷ after)
            assets).0
          ≡ some w)
  unfolding first_usable
  usable-first_usable turn [] h =
      let (a, found) = any-select_first (can_reserve (reserved_at turn) id) assets (usable turn) in
      ((a, id, reserved_at turn), rw named (rw found refl))
  usable-first_usable turn (i ∷ before) (here, later) =
      elim (Option-cases (select_first (can_reserve (reserved_at turn) i) assets)) [
        | inr (a, found) ↦ ((a, i, reserved_at turn), rw here (rw found refl))
        | inl missing ↦
            let (w, e) = usable-first_usable (suc turn) before later in (w, rw here (rw missing e))
      ]

-- While the pool of an active template holds an id whose asset is available and does not expire
-- meanwhile, a challenge is created, whatever unusable ids come before it, if these and the id are
-- not empty.
pub create_takes_usable :
    (p : CaptchaPlatform) (o : ChallengeOutside) (c : CreateCaptchaChallengeCommand)
    (s : CaptchaStore) (template : CaptchaTemplate) (before after : List String) (id : String)
    → find_template_by_code (or_default c.template_code default_template_code) s ≡ some template
    → is_active_template template.status ≡ true
    → s.pools (key_of p o c template) ≡ before ++ id ∷ after
    → All (λ i. (i == "") ≡ false) before
    → (id == "") ≡ false
    → IsUsable o.reserved_at id s.assets
    → (create_challenge p o c s).0 ≡ ok (created p o c)
create_takes_usable p o c s template before after id found active pool named_all named usable =
    let ((a, i, at), e) =
      usable-first_usable o.reserved_at id after s.assets named usable 0 before named_all in
    let searched : (search p o c s template).0 ≡ some (a, i, at) = rw pool e in
    rw (create_found p o c s template found active a i at searched) refl

-- ONE ASSET, ONE CHALLENGE
keeps_ids :
    (now : ℕ) (id other : String) (rows : List CaptchaAsset)
    → All (λ b. (b.id == other) ≡ false) rows
    → All (λ b. (b.id == other) ≡ false) (update_where (can_reserve now id) reserve rows)
unfolding update_where
keeps_ids now id other [] h = tt
keeps_ids now id other (b ∷ rows) (here, later) = (ground arith, keeps_ids now id other rows later)

reserve-Keyed :
    (now : ℕ) (id : String) (rows : List CaptchaAsset)
    → Keyed rows
    → Keyed (update_where (can_reserve now id) reserve rows)
unfolding update_where
reserve-Keyed now id [] h = tt
reserve-Keyed now id (b ∷ rows) (here, later) = elim (Bool-cases (can_reserve now id b)) [
  | inl yep ↦ rw yep (keeps_ids now id b.id rows here, reserve-Keyed now id rows later)
  | inr nope ↦ rw nope (keeps_ids now id b.id rows here, reserve-Keyed now id rows later)
]

module _ (p : CaptchaPlatform) (o : ChallengeOutside) (c : CreateCaptchaChallengeCommand)
    (s : CaptchaStore) (keyed : Keyed s.assets) (h : HasDrawn p o c s) where
  after-Keyed : Keyed (after_create p o c s h.template h.asset).assets
  after-Keyed = rw h.searched (reserve-Keyed h.at h.id s.assets keyed)

  never_again :
      (a : CaptchaAsset)
      → find_asset_by_id a.id (after_create p o c s h.template h.asset) ≡ some a
      → is_available a.status ≡ true
      → h.asset.id ≢ a.id
  never_again a found free same =
      let row = asset_after p o c s keyed h in
      let row' : find_asset_by_id a.id (after_create p o c s h.template h.asset)
          ≡ some (reserve h.asset) =
        subst
          (λ i.
            find_asset_by_id i (after_create p o c s h.template h.asset) ≡ some (reserve h.asset))
          same row in
      let twin : some a ≡ some (reserve h.asset) = sym found ∙ row' in
      absurd (ground (arith, free, ap (λ w. Option.map (λ x. is_available x.status) w) twin))

next_differs :
    (p : CaptchaPlatform) (o : ChallengeOutside) (c : CreateCaptchaChallengeCommand)
    (s : CaptchaStore) (d : CaptchaChallenge) (id : String) (r : CreatedChallenge)
    → Keyed s.assets
    → find_challenge_by_id id s ≡ some d
    → ((a : CaptchaAsset)
        → find_asset_by_id a.id s ≡ some a
        → is_available a.status ≡ true
        → d.asset_id ≢ a.id)
    → (create_challenge p o c s).0 ≡ ok r
    → find_challenge_by_id o.challenge_id s ≡ none
    → (d' : CaptchaChallenge) × (find_challenge_by_id id (create_challenge p o c s).1 ≡ some d)
      × (find_challenge_by_id o.challenge_id (create_challenge p o c s).1 ≡ some d')
      × (d.asset_id ≢ d'.asset_id)
next_differs p o c s d id r keyed held apart e fresh =
    let h = ok-HasDrawn p o c s r e in
    let (found, can) = was_found p o c s keyed h in
    rw (create_found p o c s h.template h.found h.active h.asset h.id h.at h.searched) (
      challenge_row p o c (reserve h.asset),
      select_first-append (challenge_id_is id) s.challenges
            (challenge_row p o c (reserve h.asset) ∷ [])
          ∙ simp held,
      challenge_after p o c s keyed h fresh,
      apart h.asset found (ground (arith, can)),
    )

-- Two challenges that are created one after the other, for whatever templates, hold different
-- assets; where the ids of the assets are distinct and those of the challenges are new.
pub create_twice_differs :
    (p : CaptchaPlatform) (o : ChallengeOutside) (c : CreateCaptchaChallengeCommand)
    (s : CaptchaStore) (r : CreatedChallenge) (o' : ChallengeOutside)
    (c' : CreateCaptchaChallengeCommand) (r' : CreatedChallenge)
    → (create_challenge p o c s).0 ≡ ok r
    → (create_challenge p o' c' (create_challenge p o c s).1).0 ≡ ok r'
    → Keyed s.assets
    → find_challenge_by_id o.challenge_id s ≡ none
    → find_challenge_by_id o'.challenge_id (create_challenge p o c s).1 ≡ none
    → (d : CaptchaChallenge) × (d' : CaptchaChallenge) × (find_challenge_by_id o.challenge_id
          (create_challenge p o' c' (create_challenge p o c s).1).1
        ≡ some d)
      × (find_challenge_by_id o'.challenge_id
            (create_challenge p o' c' (create_challenge p o c s).1).1
          ≡ some d')
      × (d.asset_id ≢ d'.asset_id)
create_twice_differs p o c s r o' c' r' e e' keyed fresh fresh' =
    let h = ok-HasDrawn p o c s r e in
    let stored = create_found p o c s h.template h.found h.active h.asset h.id h.at h.searched in
    let (d', first, second, apart) =
      next_differs p o' c' (after_create p o c s h.template h.asset)
        (challenge_row p o c (reserve h.asset)) o.challenge_id r' (after-Keyed p o c s keyed h)
        (challenge_after p o c s keyed h fresh) (never_again p o c s keyed h) (rw stored at e')
        (rw stored at fresh') in
    rw stored (challenge_row p o c (reserve h.asset), d', first, second, apart)
