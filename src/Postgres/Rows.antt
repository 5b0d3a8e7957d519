-- ===== src/Postgres/Rows.antt =====
-- The parts of an SQL statement as functions of the rows of a table: WHERE, UPDATE, ORDER BY, MAX.
use proxy_mesh.Prelude.{
  some-injective, ℕ, ◌+◌, ℤ, Bool, Option, none, some, List, [], ◌∷◌, if◌then◌else◌, leb_ℤ, any,
  true, false, ◌≡◌, refl, arith, subst,
}

abbrev greater : ℤ → Option ℤ → ℤ
greater v none = v
greater v (some w) = if leb_ℤ v w then w else v

module _ {R : Type 0} where
  unfoldable pub first : (R → Bool) → List R → Option R
  first p [] = none
  first p (r ∷ rs) = if p r then some r else first p rs

  unfoldable pub select : (R → Bool) → List R → List R
  select p [] = []
  select p (r ∷ rs) = let rest = select p rs in if p r then r ∷ rest else rest

  unfoldable pub unless : (R → Bool) → List R → List R
  unless p [] = []
  unless p (r ∷ rs) = let rest = unless p rs in if p r then rest else r ∷ rest

  unfoldable pub update : (R → Bool) → (R → R) → List R → List R
  update p f [] = []
  update p f (r ∷ rs) = (if p r then f r else r) ∷ update p f rs

  unfoldable pub count : (R → Bool) → List R → ℕ
  count p [] = 0
  count p (r ∷ rs) = (if p r then 1 else 0) + count p rs

  -- ORDER BY, with the test of whether a row may stand before another.
  unfoldable pub insert_in_order : (R → R → Bool) → R → List R → List R
  insert_in_order before r [] = r ∷ []
  insert_in_order before r (x ∷ xs) =
      let rest = insert_in_order before r xs in if before r x then r ∷ x ∷ xs else x ∷ rest

  unfoldable pub order_by : (R → R → Bool) → List R → List R
  order_by before [] = []
  order_by before (r ∷ rs) = insert_in_order before r (order_by before rs)

  abbrev pub head : List R → Option R
  head [] = none
  head (r ∷ rs) = some r

  -- MAX of a column, null if there is no row.
  unfoldable pub max_of : (R → ℤ) → List R → Option ℤ
  max_of column [] = none
  max_of column (r ∷ rs) = some (greater (column r) (max_of column rs))

-- COALESCE of a null.
abbrev pub coalesce : {A : Type 0} → Option A → A → A
coalesce none a = a
coalesce (some b) a = b

-- Where no row passes a test.
module _ {R : Type 0} (p : R → Bool) where
  pub count-none : (rows : List R) → any p rows ≡ false → count p rows ≡ 0
  unfolding count
  count-none [] h = refl
  count-none (r ∷ rows) h = ground (arith, count-none rows)

  pub select-none : (rows : List R) → any p rows ≡ false → select p rows ≡ []
  unfolding select
  select-none [] h = refl
  select-none (r ∷ rows) h = ground (arith, select-none rows)

  pub update-none : (f : R → R) (rows : List R) → any p rows ≡ false → update p f rows ≡ rows
  unfolding update
  update-none f [] h = refl
  update-none f (r ∷ rows) h = ground (arith, update-none f rows)

pub first-passes :
    {R : Type 0} (p : R → Bool) (rows : List R) {r : R} → first p rows ≡ some r → p r ≡ true
unfolding first
first-passes p [] {r = r} h = absurd (cc)
first-passes p (x ∷ rows) {r = r} h = step (p x) refl h (first-passes p rows)
  where
    step :
        (b : Bool)
        → p x ≡ b
        → (if b then some x else first p rows) ≡ some r
        → (first p rows ≡ some r → p r ≡ true)
        → p r ≡ true
    step true e h rest = subst (λ y. p y ≡ true) (some-injective h) e
    step false e h rest = rest h

pub first-update :
    {R : Type 0} (p : R → Bool) (row : R) (rows : List R)
    → p row ≡ true
    → any p rows ≡ true
    → first p (update p (λ r. row) rows) ≡ some row
unfolding first update
first-update p row [] h k = absurd (cc)
first-update p row (x ∷ rows) h k = ground (arith, first-update p row rows)
