-- ===== src/Sql/Laws.antt =====
-- How the statements of Sql.antt act on one another.
use mathlib.Core.Option
use nest_rest_backend_templa.Prelude.{
  ◌≡◌, refl, All, subst, Bool, true, false, none, some, List, [], ◌∷◌, ◌++◌, arith, Bool-cases,
  Option-cases, inl, inr, any,
}
use nest_rest_backend_templa.Sql.{select_first, update_where, touch, join_first}

module _ {ℓ} {R : Type ℓ} where
  pub select_first-holds :
      (p : R → Bool) (rows : List R) (r : R) → select_first p rows ≡ some r → p r ≡ true
  unfolding select_first
  select_first-holds p [] r e = cc
  select_first-holds p (x ∷ rows) r e = elim (Bool-cases (p x)) [
    | inl yep ↦ ground arith
    | inr nope ↦ select_first-holds p rows r (ground arith)
  ]

  pub select_first-append :
      (p : R → Bool) (rows more : List R)
      → select_first p (rows ++ more)
        ≡ elim (select_first p rows) [ none ↦ select_first p more | some r ↦ some r ]
  unfolding select_first
  select_first-append p [] more = refl
  select_first-append p (x ∷ rows) more = ground (arith, select_first-append p rows more)

  pub select_first-none :
      (p q : R → Bool) (rows : List R)
      → ((r : R) → q r ≡ false → p r ≡ false)
      → any q rows ≡ false
      → select_first p rows ≡ none
  unfolding select_first
  select_first-none p q [] less h = refl
  select_first-none p q (x ∷ rows) less h = ground (arith, less x, select_first-none p q rows less)

  pub update_where-append :
      (p : R → Bool) (f : R → R) (rows more : List R)
      → update_where p f (rows ++ more) ≡ update_where p f rows ++ update_where p f more
  unfolding update_where
  update_where-append p f [] more = refl
  update_where-append p f (x ∷ rows) more = rw (update_where-append p f rows more)

  pub update_where-none :
      (p : R → Bool) (f : R → R) (rows : List R) → any p rows ≡ false → update_where p f rows ≡ rows
  unfolding update_where
  update_where-none p f [] h = refl
  update_where-none p f (x ∷ rows) h = ground (arith, update_where-none p f rows)

  -- An update that keeps the key `p` changes only the row that is found.
  pub select_first-update :
      (p q : R → Bool) (f : R → R) (rows : List R)
      → ((r : R) → p (touch q f r) ≡ p r)
      → select_first p (update_where q f rows) ≡ Option.map (touch q f) (select_first p rows)
  unfolding select_first update_where
  select_first-update p q f [] keep = refl
  select_first-update p q f (x ∷ rows) keep = elim (Bool-cases (p x)) [
    | inl yep ↦ rw (keep x, yep)
    | inr nope ↦ rw (keep x, nope) (select_first-update p q f rows keep)
  ]

  pub any-update :
      (p q : R → Bool) (f : R → R) (rows : List R)
      → ((r : R) → p (touch q f r) ≡ p r)
      → any p (update_where q f rows) ≡ any p rows
  unfolding update_where
  any-update p q f [] keep = refl
  any-update p q f (x ∷ rows) keep = rw (keep x, any-update p q f rows keep)

abbrev pub touch_left : {R S : Type 0} → (R → Bool) → (R → R) → R × S → R × S
touch_left q f (r, s) = (touch q f r, s)

module _ {R S : Type 0} (on : R → S → Bool) (ss : List S) where
  -- An update that keeps the key `p` and the join's condition changes only the row that is found.
  pub join_first-update :
      (p q : R → Bool) (f : R → R) (rows : List R)
      → ((r : R) → p (touch q f r) ≡ p r)
      → ((r : R) → on (touch q f r) ≡ on r)
      → join_first p on (update_where q f rows) ss
        ≡ Option.map (touch_left q f) (join_first p on rows ss)
  unfolding join_first update_where
  join_first-update p q f [] keep keep_on = refl
  join_first-update p q f (x ∷ rows) keep keep_on = elim (Bool-cases (p x)) [
    | inl yep ↦ elim (Option-cases (select_first (on x) ss)) [
      | inl missing ↦
          rw (keep x, yep, keep_on x, missing) (join_first-update p q f rows keep keep_on)
      | inr (s, found) ↦ rw (keep x, yep, keep_on x, found)
    ]
    | inr nope ↦ rw (keep x, nope) (join_first-update p q f rows keep keep_on)
  ]

  -- What a join finds satisfies its `where`, and so do the rows of every property that it implies.
  pub join_first-any :
      (p : R → Bool) (q : R → Bool) (rows : List R) (r : R) (s : S)
      → join_first p on rows ss ≡ some (r, s)
      → q r ≡ true
      → any q rows ≡ true
  unfolding join_first
  join_first-any p q [] r s e h = cc
  join_first-any p q (x ∷ rows) r s e h = ground (arith, join_first-any p q rows r s)

module _ {R : Type 0} (P : R → Type 0) where
  pub All-update_where :
      (q : R → Bool) (f : R → R) (rows : List R)
      → ((r : R) → P r → q r ≡ true → P (f r))
      → All P rows
      → All P (update_where q f rows)
  unfolding update_where
  All-update_where q f [] keep h = tt
  All-update_where q f (x ∷ rows) keep (here, later) = elim (Bool-cases (q x)) [
    | inl yep ↦ rw yep (keep x here yep, All-update_where q f rows keep later)
    | inr nope ↦ rw nope (here, All-update_where q f rows keep later)
  ]

  pub select_first-All :
      (p : R → Bool) (rows : List R) (r : R) → select_first p rows ≡ some r → All P rows → P r
  unfolding select_first
  select_first-All p [] r e h = cc
  select_first-All p (x ∷ rows) r e (here, later) = elim (Bool-cases (p x)) [
    | inl yep ↦ subst P (ground arith) here
    | inr nope ↦ select_first-All p rows r (ground arith) later
  ]

  pub join_first-All :
      {S : Type 0} (on : R → S → Bool) (ss : List S) (p : R → Bool) (rows : List R) (r : R) (s : S)
      → join_first p on rows ss ≡ some (r, s)
      → All P rows
      → P r
  unfolding join_first
  join_first-All on ss p [] r s e h = cc
  join_first-All on ss p (x ∷ rows) r s e (here, later) = elim (Bool-cases (p x)) [
    | inl yep ↦ elim (Option-cases (select_first (on x) ss)) [
      | inl missing ↦ join_first-All on ss p rows r s (rw (yep, missing) at e) later
      | inr (t, found) ↦ subst P (cc (rw (yep, found) at e)) here
    ]
    | inr nope ↦ join_first-All on ss p rows r s (rw nope at e) later
  ]

pub join_first-holds :
    {R S : Type 0} (on : R → S → Bool) (ss : List S) (p : R → Bool) (rows : List R) (r : R) (s : S)
    → join_first p on rows ss ≡ some (r, s)
    → p r ≡ true
unfolding join_first
join_first-holds on ss p [] r s e = cc
join_first-holds on ss p (x ∷ rows) r s e = ground (arith, join_first-holds on ss p rows r s)
