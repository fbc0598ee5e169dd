-- ===== src/Captcha/Generation/Batch.antt =====
-- What a batch adds: as many assets as it was asked for, and their ids at the end of the pool.
use Prim.Native.String
use nest_rest_backend_templa.Prelude.{
  ℕ, zero, suc, ◌+◌, String, ◌≡◌, refl, sym, ◌∙◌, none, some, List, [], ◌∷◌, ◌++◌, string_eq,
  ==_refl,
}
use mathlib.Core.List.{append_assoc, append-nil}
use nest_rest_backend_templa.Exec.{ok}
use nest_rest_backend_templa.Captcha.Types.{
  CaptchaTemplate, CaptchaConfig, CaptchaAsset, CaptchaAssetStatus, CaptchaDifficulty,
  GeneratedCaptcha, GenerateBatchJob,
}
use nest_rest_backend_templa.Captcha.Store.{
  CaptchaStore, find_config_by_id, find_template_by_id, pool_key, push_asset, with_pool,
}
use nest_rest_backend_templa.Captcha.Hashing.{CaptchaPlatform, normalize, hash_answer}
use nest_rest_backend_templa.Captcha.Templates.{CaptchaGenerator}
use nest_rest_backend_templa.Captcha.Generation.{
  TurnOutside, storage_key, asset_row, generate_one, generate_from, process,
}

-- The ids and the rows of the turns from `i` on.
abbrev pub ids_from : (ℕ → TurnOutside) → (remaining i : ℕ) → List String
ids_from o zero i = []
ids_from o (suc remaining) i = (o i).asset_id ∷ ids_from o remaining (suc i)

-- What one turn must leave: an asset that can be given out and answered, and the image under its key.
pub record IsGenerated (p : CaptchaPlatform) (turn : TurnOutside) (i : ℕ)
    (difficulty : CaptchaDifficulty) (template : CaptchaTemplate) (config : CaptchaConfig)
    (drawn : GeneratedCaptcha) (asset : CaptchaAsset) (object : String × String) : Type 0 where
  pub has_id : asset.id ≡ turn.asset_id
  pub of_template : asset.template_id ≡ template.id
  pub of_config : asset.config_id ≡ config.id
  pub is_difficulty : asset.difficulty ≡ difficulty
  pub is_there : asset.status ≡ CaptchaAssetStatus.available
  pub is_unused : asset.used_count ≡ 0
  pub for_one_use : asset.max_uses ≡ 1
  pub hashed : asset.answer_hash ≡ p.hmac_hex (String.◌++◌ "answer:" drawn.answer)
  pub hashed_normalized :
      asset.answer_normalized_hash ≡ p.hmac_hex (String.◌++◌ "answer:" (normalize p drawn.answer))
  pub for_a_day : asset.expires_at ≡ turn.stored_at + 86400000
  pub keyed :
      asset.storage_key
      ≡ String.◌++◌ "captcha/" (
          String.◌++◌ template.code (
            String.◌++◌ "/" (
              String.◌++◌ config.id (
                String.◌++◌ "/" (
                  String.◌++◌
                    (p.number_text turn.keyed_at)
                    (String.◌++◌ "-" (String.◌++◌ (p.number_text i) ".svg")))))))
  pub stored : object ≡ (asset.storage_key, drawn.image)

-- One asset and one object for each turn from `i` on, and none besides.
abbrev pub AllGenerated :
    (p : CaptchaPlatform) (o : ℕ → TurnOutside) (difficulty : CaptchaDifficulty)
    (template : CaptchaTemplate) (config : CaptchaConfig) (drawn : ℕ → GeneratedCaptcha)
    (remaining i : ℕ)
    → List CaptchaAsset
    → List (String × String)
    → Type 0
AllGenerated p o difficulty template config drawn zero i [] [] = Unit
AllGenerated p o difficulty template config drawn (suc remaining) i (asset ∷ assets)
      (object ∷ objects) =
    IsGenerated p (o i) i difficulty template config (drawn i) asset object
    × AllGenerated p o difficulty template config drawn remaining (suc i) assets objects
AllGenerated p o difficulty template config drawn remaining i assets objects = ⊥

module _ (p : CaptchaPlatform) (generator : CaptchaGenerator) (prefix : String)
    (o : ℕ → TurnOutside) (difficulty : CaptchaDifficulty) (template : CaptchaTemplate)
    (config : CaptchaConfig) (drawn : ℕ → GeneratedCaptcha) where
  abbrev rows_from : (remaining i : ℕ) → List CaptchaAsset
  rows_from zero i = []
  rows_from (suc remaining) i =
      asset_row p generator prefix o difficulty template config i (drawn i)
      ∷ rows_from remaining (suc i)

  module _ (draws : (i : ℕ) → generator.generate i config.config_json difficulty ≡ ok (drawn i))
      (stores : (i : ℕ) → (o i).put_error ≡ none) where
    abbrev key : String
    key = pool_key prefix template.code difficulty

    abbrev row : ℕ → CaptchaAsset
    row i = asset_row p generator prefix o difficulty template config i (drawn i)

    abbrev one_more : ℕ → CaptchaStore → CaptchaStore
    one_more i s = with_pool key (s.pools key ++ (o i).asset_id ∷ []) (record s {
      objects =
          s.objects
          ++ (storage_key p generator prefix o difficulty template config i, (drawn i).image) ∷ [];
      assets = s.assets ++ row i ∷ [];
    })

    generate_one-eq :
        (i : ℕ) (s : CaptchaStore)
        → generate_one p generator prefix o difficulty template config i s ≡ (ok tt, one_more i s)
    unfolding generate_one push_asset
    generate_one-eq i s = rw (draws i) (rw (stores i) refl)

    abbrev objects_from : (remaining i : ℕ) → List (String × String)
    objects_from zero i = []
    objects_from (suc remaining) i =
        (storage_key p generator prefix o difficulty template config i, (drawn i).image)
        ∷ objects_from remaining (suc i)

    abbrev Filled : (remaining i : ℕ) → CaptchaStore → Type 0
    Filled remaining i s =
        (t : CaptchaStore) × (generate_from p generator prefix o difficulty template config
            remaining i s
          ≡ (ok tt, t))
        × (t.pools key ≡ s.pools key ++ ids_from o remaining i)
        × (t.assets ≡ s.assets ++ rows_from remaining i)
        × (t.objects ≡ s.objects ++ objects_from remaining i)

    generate_from-Filled : (remaining i : ℕ) (s : CaptchaStore) → Filled remaining i s
    unfolding generate_from
    generate_from-Filled zero i s = (
      s,
      refl,
      sym (append-nil (s.pools key)),
      sym (append-nil s.assets),
      sym (append-nil s.objects),
    )
    generate_from-Filled (suc remaining) i s =
        let (t, run, pool, assets, objects) =
          generate_from-Filled remaining (suc i) (one_more i s) in
        (
          t,
          rw (generate_one-eq i s) run,
          pool
              ∙ rw (==_refl key)
                  (append_assoc (s.pools key) ((o i).asset_id ∷ []) (ids_from o remaining (suc i))),
          assets ∙ append_assoc s.assets (row i ∷ []) (rows_from remaining (suc i)),
          objects
              ∙ append_assoc s.objects
                  ((storage_key p generator prefix o difficulty template config i, (drawn i).image)
                    ∷ [])
                  (objects_from remaining (suc i)),
        )

    rows-AllGenerated :
        (remaining i : ℕ)
        → AllGenerated p o difficulty template config drawn remaining i
            (rows_from remaining i)
            (objects_from remaining i)
    unfolding hash_answer
    rows-AllGenerated zero i = tt
    rows-AllGenerated (suc remaining) i = (
      record {
        has_id = refl;
        of_template = refl;
        of_config = refl;
        is_difficulty = refl;
        is_there = refl;
        is_unused = refl;
        for_one_use = refl;
        hashed = refl;
        hashed_normalized = refl;
        for_a_day = refl;
        keyed = refl;
        stored = refl;
      },
      rows-AllGenerated remaining (suc i),
    )

-- A batch whose configuration and template are there, where every drawing and every upload
-- succeeds, ends; it adds, in the order in which they were drawn, one asset and one object for
-- each turn and none besides, and the ids of the assets at the end of the pool of their template
-- and difficulty. Each asset is available and unused, for one use and for a day, of the batch's
-- template, version and difficulty, with the hashes of its own answer and of that answer
-- normalised; its key is made of the template's code, the version's id, the time and the turn, and
-- the object under that key is the image drawn with the answer.
pub process_fills_pool :
    (p : CaptchaPlatform) (generator : CaptchaGenerator) (prefix : String) (o : ℕ → TurnOutside)
    (job : GenerateBatchJob) (s : CaptchaStore) (config : CaptchaConfig)
    (template : CaptchaTemplate) (drawn : ℕ → GeneratedCaptcha)
    → find_config_by_id job.config_id s ≡ some config
    → find_template_by_id config.template_id s ≡ some template
    → ((i : ℕ) → generator.generate i config.config_json job.difficulty ≡ ok (drawn i))
    → ((i : ℕ) → (o i).put_error ≡ none)
    → ((process p generator prefix o "generate-batch" job s).0 ≡ ok tt)
      × ((process p generator prefix o "generate-batch" job s).1.pools
            (pool_key prefix template.code job.difficulty)
          ≡ s.pools (pool_key prefix template.code job.difficulty) ++ ids_from o job.count 0)
      × ((assets : List CaptchaAsset) × (objects : List (String × String)) × ((process p generator
              prefix o "generate-batch" job s).1.assets
            ≡ s.assets ++ assets)
          × ((process p generator prefix o "generate-batch" job s).1.objects ≡ s.objects ++ objects)
          × AllGenerated p o job.difficulty template config drawn job.count 0 assets objects)
unfolding process
process_fills_pool p generator prefix o job s config template drawn found found_template draws
      stores =
    let (t, run, pool, assets, objects) =
      generate_from-Filled p generator prefix o job.difficulty template config drawn draws stores
        job.count 0 s in
    simp (found, found_template, run)
      (
        refl,
        pool,
        (
          rows_from p generator prefix o job.difficulty template config drawn job.count 0,
          objects_from p generator prefix o job.difficulty template config drawn draws stores
              job.count 0,
          assets,
          objects,
          rows-AllGenerated p generator prefix o job.difficulty template config drawn draws stores
              job.count 0,
        ),
      )
