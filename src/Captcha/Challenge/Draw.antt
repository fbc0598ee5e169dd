-- ===== src/Captcha/Challenge/Draw.antt =====
-- The loop that draws an asset from the pool: it ends, takes the first id whose asset can be
-- reserved, and reserves that one only.

use nest_rest_backend_templa.Prelude.{
  ℕ, zero, suc, ◌<◌, String, ◌≡◌, refl, sym, ap, ◌∙◌, Option, none, some, Bool, false, List, [],
  ◌∷◌, ◌==◌, string_eq, ==_refl, arith, length, Bool-cases, Option-cases, inl, inr, if◌then◌else◌,
}
use mathlib.Core.Path.{fun_ext}
use nest_rest_backend_templa.Exec.{ok, Result}
use nest_rest_backend_templa.Sql.{select_first, update_where}
use nest_rest_backend_templa.Captcha.Types.{CaptchaAsset}
use nest_rest_backend_templa.Captcha.Store.{
  CaptchaStore, can_reserve, reserve, reserve_asset, pop_asset, popped, with_pool,
}
use nest_rest_backend_templa.Captcha.Challenge.{draw}

-- An update that matches no row changes none.
update_where-none :
    (q : CaptchaAsset → Bool) (f : CaptchaAsset → CaptchaAsset) (rows : List CaptchaAsset)
    → select_first q rows ≡ none
    → update_where q f rows ≡ rows
unfolding select_first update_where
update_where-none q f [] e = refl
update_where-none q f (r ∷ rows) e = elim (Bool-cases (q r)) [
  | inl yep ↦ absurd (ground (arith, e, yep))
  | inr nope ↦
      rw nope (ap (λ rest. r ∷ rest) (update_where-none q f rows (ground (arith, e, nope))))
]

-- The asset that the ids of a pool yield, with the ids that are left: the first that can be
-- reserved at its turn. An empty id ends the search.
unfoldable pub first_usable :
    (reserved_at : ℕ → ℕ) (turn : ℕ) (ids : List String)
    → List CaptchaAsset
    → Option (CaptchaAsset × String × ℕ) × List String
first_usable reserved_at turn [] assets = (none, [])
first_usable reserved_at turn (id ∷ ids) assets =
    let rest = first_usable reserved_at (suc turn) ids assets in
    if id == ""
    then (none, ids)
    else elim (select_first (can_reserve (reserved_at turn) id) assets) [
      | none ↦ rest
      | some a ↦ (some (a, id, reserved_at turn), ids)
    ]

abbrev pub reserved_rows :
    Option (CaptchaAsset × String × ℕ) → List CaptchaAsset → List CaptchaAsset
reserved_rows none assets = assets
reserved_rows (some (a, id, at)) assets = update_where (can_reserve at id) reserve assets

abbrev pub drawn : Option (CaptchaAsset × String × ℕ) → Option CaptchaAsset
drawn none = none
drawn (some (a, id, at)) = some (reserve a)

abbrev pub after_draw :
    String → Option (CaptchaAsset × String × ℕ) × List String → CaptchaStore → CaptchaStore
after_draw key (w, ids) s = record (with_pool key ids s) { assets = reserved_rows w s.assets }

with_pool_twice :
    (key : String) (ids ids' : List String) (s : CaptchaStore)
    → with_pool key ids (with_pool key ids' s) ≡ with_pool key ids s
with_pool_twice key ids ids' s =
    ap (λ pools. record s { pools = pools }) (fun_ext λ k. ground arith)

pop-with_pool :
    (key : String) (ids : List String) (s : CaptchaStore)
    → pop_asset key (with_pool key ids s) ≡ popped key ids (with_pool key ids s)
unfolding pop_asset
pop-with_pool key ids s = simp (==_refl key)

pop-next :
    (key id : String) (ids : List String) (s : CaptchaStore)
    → pop_asset key (with_pool key (id ∷ ids) s) ≡ (ok (some id), with_pool key ids s)
pop-next key id ids s =
    pop-with_pool key (id ∷ ids) s
    ∙ ap (λ t. (ok (some id), t)) (with_pool_twice key ids (id ∷ ids) s)

pop-empty :
    (key : String) (s : CaptchaStore)
    → pop_asset key (with_pool key [] s) ≡ (ok none, with_pool key [] s)
pop-empty key s = pop-with_pool key [] s

module _ (reserved_at : ℕ → ℕ) (turn : ℕ) (id : String) (ids : List String)
    (named : (id == "") ≡ false) where
  first_usable-missing :
      (assets : List CaptchaAsset)
      → select_first (can_reserve (reserved_at turn) id) assets ≡ none
      → first_usable reserved_at turn (id ∷ ids) assets
        ≡ first_usable reserved_at (suc turn) ids assets
  unfolding first_usable
  first_usable-missing assets missing = rw (named, missing) refl

  pub first_usable-found :
      (assets : List CaptchaAsset) (a : CaptchaAsset)
      → select_first (can_reserve (reserved_at turn) id) assets ≡ some a
      → first_usable reserved_at turn (id ∷ ids) assets ≡ (some (a, id, reserved_at turn), ids)
  unfolding first_usable
  first_usable-found assets a found = rw (named, found) refl

  draw-missing :
      (fuel : ℕ) (key : String) (s : CaptchaStore)
      → select_first (can_reserve (reserved_at turn) id) s.assets ≡ none
      → draw (suc fuel) turn reserved_at key (with_pool key (id ∷ ids) s)
        ≡ draw fuel (suc turn) reserved_at key (with_pool key ids s)
  unfolding draw reserve_asset
  draw-missing fuel key s missing = rw (pop-next key id ids s) (
      rw named (
        rw missing (
          rw (update_where-none (can_reserve (reserved_at turn) id) reserve s.assets missing)
            refl)))

  draw-found :
      (fuel : ℕ) (key : String) (s : CaptchaStore) (a : CaptchaAsset)
      → select_first (can_reserve (reserved_at turn) id) s.assets ≡ some a
      → draw (suc fuel) turn reserved_at key (with_pool key (id ∷ ids) s)
        ≡ (ok (some (reserve a)), after_draw key (some (a, id, reserved_at turn), ids) s)
  unfolding draw reserve_asset
  draw-found fuel key s a found = rw (pop-next key id ids s) (rw named (rw found refl))

abbrev pub ends_with :
    String
    → CaptchaStore
    → Option (CaptchaAsset × String × ℕ) × List String
    → Result (Option CaptchaAsset) × CaptchaStore
ends_with key s w = (ok (drawn w.0), after_draw key w s)

-- Where the pool `key` holds `ids`, and the fuel is more than they are.
pub draw-first_usable :
    (fuel turn : ℕ) (reserved_at : ℕ → ℕ) (key : String) (ids : List String) (s : CaptchaStore)
    → length ids < fuel
    → draw fuel turn reserved_at key (with_pool key ids s)
      ≡ ends_with key s (first_usable reserved_at turn ids s.assets)
unfolding draw first_usable
draw-first_usable zero turn reserved_at key ids s h = absurd (omega arith)
draw-first_usable (suc fuel) turn reserved_at key [] s h = rw (pop-empty key s) refl
draw-first_usable (suc fuel) turn reserved_at key (id ∷ ids) s h = elim (Bool-cases (id == "")) [
  | inl blank ↦ rw (pop-next key id ids s) (rw blank refl)
  | inr named ↦ elim (Option-cases (select_first (can_reserve (reserved_at turn) id) s.assets)) [
    | inr (a, found) ↦
        draw-found reserved_at turn id ids named fuel key s a found
        ∙ ap (ends_with key s)
            (sym (first_usable-found reserved_at turn id ids named s.assets a found))
    | inl missing ↦
        draw-missing reserved_at turn id ids named fuel key s missing
        ∙ (draw-first_usable fuel (suc turn) reserved_at key ids s (omega arith)
            ∙ ap (ends_with key s)
                (sym (first_usable-missing reserved_at turn id ids named s.assets missing)))
  ]
]
