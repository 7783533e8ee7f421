-- ===== src/Postgres/Sql.antt =====
-- Statements on the rows of a table, by a condition on the row.
use rock_paper_money.Prelude.{
  if◌then◌else◌, nat_eq, bool_eq, string_eq, Bool, false, ◌||◌, Option, none, some, List, [], ◌∷◌,
}

module _ {ℓ} {A : Type ℓ} (test : A → Bool) where
  -- `SELECT … WHERE`
  unfoldable pub rows_where : List A → List A
  rows_where [] = []
  rows_where (x ∷ xs) = let rest = rows_where xs in if test x then x ∷ rest else rest

  -- The first row, for a condition on a key.
  unfoldable pub row_where : List A → Option A
  row_where [] = none
  row_where (x ∷ xs) = if test x then some x else row_where xs

  -- `EXISTS(SELECT 1 … WHERE)`
  unfoldable pub exists_where : List A → Bool
  exists_where [] = false
  exists_where (x ∷ xs) = test x || exists_where xs

  -- `UPDATE … WHERE`
  unfoldable pub update_where : (A → A) → List A → List A
  update_where f [] = []
  update_where f (x ∷ xs) = (if test x then f x else x) ∷ update_where f xs

  -- `DELETE … WHERE`
  unfoldable pub delete_where : List A → List A
  delete_where [] = []
  delete_where (x ∷ xs) = let rest = delete_where xs in if test x then rest else x ∷ rest

-- The first row of an order, `ORDER BY … LIMIT 1`: `before x y` puts `x` strictly before `y`.
module _ {ℓ} {A : Type ℓ} (before : A → A → Bool) where
  unfoldable pub least_of : A → List A → A
  least_of x [] = x
  least_of x (y ∷ ys) = least_of (if before y x then y else x) ys

  unfoldable pub least_row : List A → Option A
  unfolding least_of
  least_row [] = none
  least_row (x ∷ xs) = some (least_of x xs)

  -- `ORDER BY`
  unfoldable pub insert_row : A → List A → List A
  insert_row x [] = x ∷ []
  insert_row x (y ∷ ys) = if before y x then y ∷ insert_row x ys else x ∷ y ∷ ys

  unfoldable pub sorted_rows : List A → List A
  unfolding insert_row
  sorted_rows [] = []
  sorted_rows (x ∷ xs) = insert_row x (sorted_rows xs)
