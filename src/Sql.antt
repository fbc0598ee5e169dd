-- ===== src/Sql.antt =====
-- The SQL statements that the repositories write with drizzle's query builder, over a table given
-- as the list of its rows in the order in which the database returns them. The theorems hold for
-- every such list, so they do not depend on an order that SQL leaves open.
pub mod Laws
use nest_rest_backend_templa.Prelude.{
  Bool, true, false, Option, none, some, List, [], ◌∷◌, ◌++◌, map, if◌then◌else◌,
}

module _ {ℓ} {R : Type ℓ} where
  -- select().from(table).where(p).limit(1)
  unfoldable pub select_first : (R → Bool) → List R → Option R
  select_first p [] = none
  select_first p (r ∷ rows) = if p r then some r else select_first p rows

  -- select().from(table).where(p)
  unfoldable pub select_where : (R → Bool) → List R → List R
  select_where p [] = []
  select_where p (r ∷ rows) = let rest = select_where p rows in if p r then r ∷ rest else rest

  abbrev pub touch : (R → Bool) → (R → R) → R → R
  touch p f r = if p r then f r else r

  -- update(table).set(f).where(p)
  unfoldable pub update_where : (R → Bool) → (R → R) → List R → List R
  update_where p f [] = []
  update_where p f (r ∷ rows) = touch p f r ∷ update_where p f rows

  -- insert(table).values(r)
  abbrev pub insert : R → List R → List R
  insert r rows = rows ++ r ∷ []

module _ {R S : Type 0} where
  abbrev pub pair_with : R → Option S → Option (R × S) → Option (R × S)
  pair_with r none rest = rest
  pair_with r (some s) rest = some (r, s)

  -- select().from(left).innerJoin(right, on).where(p).limit(1)
  unfoldable pub join_first : (R → Bool) → (R → S → Bool) → List R → List S → Option (R × S)
  join_first p on [] ss = none
  join_first p on (r ∷ rs) ss =
      let rest = join_first p on rs ss in
      if p r then pair_with r (select_first (on r) ss) rest else rest

  -- select().from(left).innerJoin(right, on).where(p)
  unfoldable pub join_where : (R → Bool) → (R → S → Bool) → List R → List S → List (R × S)
  join_where p on [] ss = []
  join_where p on (r ∷ rs) ss =
      let rest = join_where p on rs ss in
      if p r then map (λ s. (r, s)) (select_where (on r) ss) ++ rest else rest
