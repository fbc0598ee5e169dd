-- ===== src/Captcha/Challenge/Created.antt =====
-- What a created challenge is: it holds an asset that nobody else was given, and the answer of that
-- asset solves it.

use mathlib.Core.Path.{fun_ext}
use nest_rest_backend_templa.Prelude.{
  ℕ, suc, ◌+◌, ◌*◌, ◌<◌, String, ◌≡◌, ◌↔◌, refl, sym, ap, ◌∙◌, subst, Option, none, some, true,
  false, List, [], ◌∷◌, ◌==◌, string_eq, ==_refl, eq_iff, arith, All, length, Bool-cases,
  Option-cases, inl, inr,
}
use nest_rest_backend_templa.Exec.{ok, throw, http, service_unavailable}
use nest_rest_backend_templa.Sql.{select_first, update_where, insert}
use nest_rest_backend_templa.Sql.Laws.{select_first-append, select_first-update}
use nest_rest_backend_templa.Captcha.Types.{
  CaptchaTemplate, CaptchaAsset, CaptchaChallenge, CreateCaptchaChallengeCommand, CreatedChallenge,
  VerifyCaptchaChallengeCommand, is_active_template, is_available,
}
use nest_rest_backend_templa.Captcha.Store.{
  CaptchaStore, can_reserve, reserve, with_pool, asset_id_is, find_asset_by_id,
  find_template_by_code, find_challenge_by_id,
}
use nest_rest_backend_templa.Captcha.Hashing.{CaptchaPlatform}
use nest_rest_backend_templa.Captcha.Verify.{VerifyOutside, verify}
use nest_rest_backend_templa.Captcha.Verify.Outcome.{matches, CanAnswer, passed, verify_iff}
use nest_rest_backend_templa.Captcha.Challenge.{
  ChallengeOutside, or_default, default_template_code, key_of, challenge_row, created, draw, issue,
  draw_for, create_challenge,
}
use nest_rest_backend_templa.Captcha.Challenge.Draw.{
  first_usable, after_draw, draw-first_usable, ends_with,
}

-- The ids of the assets are their primary key.
abbrev pub Keyed : List CaptchaAsset → Type 0
Keyed [] = Unit
Keyed (a ∷ rows) = All (λ b. (b.id == a.id) ≡ false) rows × Keyed rows

no_row :
    (now : ℕ) (id : String) (a : CaptchaAsset) (rows : List CaptchaAsset)
    → a.id ≡ id
    → All (λ b. (b.id == a.id) ≡ false) rows
    → select_first (can_reserve now id) rows ≡ none
unfolding select_first
no_row now id a [] same h = refl
no_row now id a (b ∷ rows) same (here, later) =
    ground (arith, no_row now id a rows same later, eq_iff b.id a.id, eq_iff b.id id)

-- The row that a reservation takes is the row of its id.
pub reserved_is_found :
    (now : ℕ) (id : String) (rows : List CaptchaAsset) (a : CaptchaAsset)
    → Keyed rows
    → select_first (can_reserve now id) rows ≡ some a
    → (select_first (asset_id_is a.id) rows ≡ some a) × (can_reserve now id a ≡ true)
unfolding select_first
reserved_is_found now id [] a k e = cc
reserved_is_found now id (b ∷ rows) a (here, later) e = elim (Bool-cases (can_reserve now id b)) [
  | inl yep ↦
      let same : b ≡ a = ground (arith, e, yep) in
      (rw same (rw (==_refl a.id) refl), subst (λ x. can_reserve now id x ≡ true) same yep)
  | inr nope ↦
      let found' : select_first (can_reserve now id) rows ≡ some a = rw nope at e in
      let (found, can) = reserved_is_found now id rows a later found' in
      elim (Bool-cases (b.id == a.id)) [
        | inr apart ↦ (rw apart found, can)
        | inl clash ↦
            let same : b.id ≡ id = ground (arith, can, clash, eq_iff b.id a.id, eq_iff a.id id) in
            absurd (ground (arith, found', no_row now id b rows same here))
      ]
]

-- The row of the id after the reservation.
found_reserved :
    (now : ℕ) (id : String) (rows : List CaptchaAsset) (a : CaptchaAsset)
    → select_first (asset_id_is a.id) rows ≡ some a
    → can_reserve now id a ≡ true
    → select_first (asset_id_is a.id) (update_where (can_reserve now id) reserve rows)
      ≡ some (reserve a)
found_reserved now id rows a found can =
    select_first-update (asset_id_is a.id) (can_reserve now id) reserve rows (λ r. ground arith)
    ∙ simp (found, can)

-- What a search that ends with an asset found.
abbrev FoundIn : List CaptchaAsset → Option (CaptchaAsset × String × ℕ) → Type 0
FoundIn assets none = Unit
FoundIn assets (some (a, id, at)) = select_first (can_reserve at id) assets ≡ some a

first_usable-FoundIn :
    (reserved_at : ℕ → ℕ) (turn : ℕ) (ids : List String) (assets : List CaptchaAsset)
    → FoundIn assets (first_usable reserved_at turn ids assets).0
unfolding first_usable
first_usable-FoundIn reserved_at turn [] assets = tt
first_usable-FoundIn reserved_at turn (i ∷ ids) assets = elim (Bool-cases (i == "")) [
  | inl blank ↦ rw blank tt
  | inr named ↦ elim (Option-cases (select_first (can_reserve (reserved_at turn) i) assets)) [
    | inl missing ↦ rw named (rw missing (first_usable-FoundIn reserved_at (suc turn) ids assets))
    | inr (a, found) ↦ rw named (rw found found)
  ]
]

same_pool : (key : String) (s : CaptchaStore) → with_pool key (s.pools key) s ≡ s
same_pool key s =
    ap (λ pools. record s { pools = pools })
      (fun_ext λ k. elim (Bool-cases (k == key)) [
        | inl hit ↦ rw hit (ap s.pools (sym ((eq_iff k key).0 hit)))
        | inr miss ↦ rw miss refl
      ])

abbrev code_of : CreateCaptchaChallengeCommand → String
code_of c = or_default c.template_code default_template_code

module _ (p : CaptchaPlatform) (o : ChallengeOutside) (c : CreateCaptchaChallengeCommand)
    (s : CaptchaStore) where
  -- The search that the command starts where its template is this one.
  abbrev pub search : CaptchaTemplate → Option (CaptchaAsset × String × ℕ) × List String
  search template = first_usable o.reserved_at 0 (s.pools (key_of p o c template)) s.assets

  abbrev pub after_create : CaptchaTemplate → CaptchaAsset → CaptchaStore
  after_create template a =
      let t = after_draw (key_of p o c template) (search template) s in
      record t { challenges = insert (challenge_row p o c (reserve a)) t.challenges }

  module _ (template : CaptchaTemplate)
      (found : find_template_by_code (code_of c) s ≡ some template)
      (active : is_active_template template.status ≡ true) where
    drawn-search :
        draw
          (suc (length (s.pools (key_of p o c template))))
          0
          o.reserved_at
          (key_of p o c template)
          s
        ≡ ends_with (key_of p o c template) s (search template)
    drawn-search =
        let key = key_of p o c template in
        subst
          (λ t.
            draw (suc (length (s.pools key))) 0 o.reserved_at key t
            ≡ ends_with key s (search template))
          (same_pool key s)
          (draw-first_usable (suc (length (s.pools key))) 0 o.reserved_at key (s.pools key) s
            (omega arith))

    pub create_found :
        (a : CaptchaAsset) (id : String) (at : ℕ)
        → (search template).0 ≡ some (a, id, at)
        → create_challenge p o c s ≡ (ok (created p o c), after_create template a)
    unfolding create_challenge draw_for issue
    create_found a id at e = rw found (rw active (rw drawn-search (rw e refl)))

    create_empty :
        (search template).0 ≡ none
        → (create_challenge p o c s).0 ≡ throw (http service_unavailable "captcha.pool.empty")
    unfolding create_challenge draw_for issue
    create_empty e = rw found (rw active (rw drawn-search (rw e refl)))

  -- A run that found an asset.
  pub record HasDrawn : Type 0 where
    pub template : CaptchaTemplate
    pub asset : CaptchaAsset
    pub id : String
    pub at : ℕ
    pub found : find_template_by_code (code_of c) s ≡ some template
    pub active : is_active_template template.status ≡ true
    pub searched : (search template).0 ≡ some (asset, id, at)

  pub ok-HasDrawn : (r : CreatedChallenge) → (create_challenge p o c s).0 ≡ ok r → HasDrawn
  unfolding create_challenge draw_for
  ok-HasDrawn r e = elim (Option-cases (find_template_by_code (code_of c) s)) [
    | inl missing ↦ absurd (ground (arith, simp missing at e))
    | inr (template, found) ↦ elim (Bool-cases (is_active_template template.status)) [
      | inr other ↦ absurd (ground (arith, simp (found, other) at e))
      | inl active ↦ elim (Option-cases (search template).0) [
        | inl none_left ↦ absurd (ground (arith, e, create_empty template found active none_left))
        | inr ((asset, id, at), searched) ↦ record {
          template = template;
          asset = asset;
          id = id;
          at = at;
          found = found;
          active = active;
          searched = searched;
        }
      ]
    ]
  ]

  module _ (keyed : Keyed s.assets) (h : HasDrawn) where
    pub was_found :
        (find_asset_by_id h.asset.id s ≡ some h.asset) × (can_reserve h.at h.id h.asset ≡ true)
    was_found = reserved_is_found h.at h.id s.assets h.asset keyed (
        subst (FoundIn s.assets) h.searched
          (first_usable-FoundIn o.reserved_at 0 (s.pools (key_of p o c h.template)) s.assets))

    pub asset_after :
        find_asset_by_id h.asset.id (after_create h.template h.asset) ≡ some (reserve h.asset)
    asset_after =
        let (found, can) = was_found in
        rw h.searched (found_reserved h.at h.id s.assets h.asset found can)

    pub challenge_after :
        find_challenge_by_id o.challenge_id s ≡ none
        → find_challenge_by_id o.challenge_id (after_create h.template h.asset)
          ≡ some (challenge_row p o c (reserve h.asset))
    unfolding select_first
    challenge_after fresh = simp (select_first-append, fresh, ==_refl o.challenge_id)

same_value : {A : Type 0} (w : Option A) (a b : A) → w ≡ some a → w ≡ some b → a ≡ b
same_value w a b e e' = ap (λ v. or_default v a) (sym e ∙ e')

asset_of :
    (o : VerifyOutside) (v : VerifyCaptchaChallengeCommand) (s : CaptchaStore) (h : CanAnswer o v s)
    (d : CaptchaChallenge) (a : CaptchaAsset)
    → find_challenge_by_id v.challenge_id s ≡ some d
    → find_asset_by_id d.asset_id s ≡ some a
    → h.asset ≡ a
asset_of o v s h d a found row =
    let same = same_value (find_challenge_by_id v.challenge_id s) h.challenge d h.found found in
    same_value (find_asset_by_id d.asset_id s) h.asset a
      (subst (λ x. find_asset_by_id x.asset_id s ≡ some h.asset) same h.asset_found) row

-- A created challenge can be solved: its asset was available before, and until it expires a
-- verification of it, with at least one attempt allowed, passes exactly if the hash of the
-- normalised answer is the one stored with that asset; where the ids of the assets are distinct
-- and the id of the challenge is new.
pub create_then_verify :
    (p : CaptchaPlatform) (o : ChallengeOutside) (c : CreateCaptchaChallengeCommand)
    (s : CaptchaStore) (r : CreatedChallenge) (o' : VerifyOutside)
    (v : VerifyCaptchaChallengeCommand)
    → (create_challenge p o c s).0 ≡ ok r
    → Keyed s.assets
    → find_challenge_by_id o.challenge_id s ≡ none
    → v.challenge_id ≡ o.challenge_id
    → o'.checked_at < o.now + o.ttl * 1000
    → 0 < o'.max_attempts
    → (a : CaptchaAsset) × (find_asset_by_id a.id s ≡ some a)
      × (is_available a.status ≡ true)
      × (((verify p o' v (create_challenge p o c s).1).0 ≡ ok passed) ↔ (matches p v a ≡ true))
create_then_verify p o c s r o' v e keyed fresh same early some_left =
    let h = ok-HasDrawn p o c s r e in
    let (found, can) = was_found p o c s keyed h in
    let after = after_create p o c s h.template h.asset in
    let challenge : find_challenge_by_id v.challenge_id after
        ≡ some (challenge_row p o c (reserve h.asset)) =
      rw same (challenge_after p o c s keyed h fresh) in
    let row = asset_after p o c s keyed h in
    rw (create_found p o c s h.template h.found h.active h.asset h.id h.at h.searched) (
      h.asset,
      found,
      ground (arith, can),
      (
        λ pass.
            let (can_answer, right) = (verify_iff p o' v after).0 pass in
            subst (λ x. matches p v x ≡ true)
              (asset_of o' v after can_answer (challenge_row p o c (reserve h.asset))
                (reserve h.asset) challenge row)
              right,
        λ right. (verify_iff p o' v after).1 (
          record {
            challenge = challenge_row p o c (reserve h.asset);
            asset = reserve h.asset;
            found = challenge;
            is_open = refl;
            fresh = early;
            has_attempts = some_left;
            asset_found = row;
            reserved = refl;
          },
          right,
        ),
      ),
    )
