-- ===== src/Postgres/Rows.antt =====
-- What holds of every row of a table holds of the rows that a statement selects and orders.
use rock_paper_money.Prelude.{
  if◌then◌else◌, Bool-cases, length, All, nat_eq, bool_eq, string_eq, suc, ◌<◌, ◌≡◌, refl, subst,
  inl, inr, Bool, true, false, some, List, [], ◌∷◌, arith,
}
use rock_paper_money.Postgres.Sql.{
  rows_where, exists_where, update_where, least_of, least_row, insert_row, sorted_rows,
}

module _ {ℓ} {A : Type ℓ} (Q : A → Type ℓ) where
  All-if :
      (b : Bool) (x : A) (xs : List A)
      → (b ≡ true → Q x)
      → All Q xs
      → All Q (if b then x ∷ xs else xs)
  All-if true x xs q h = (q refl, h)
  All-if false x xs q h = h

  chosen : (b : Bool) (x y : A) → Q x → Q y → Q (if b then y else x)
  chosen true x y p q = q
  chosen false x y p q = p

  least_of-All :
      (before : A → A → Bool) (x : A) (xs : List A) → Q x → All Q xs → Q (least_of before x xs)
  unfolding least_of
  least_of-All before x [] q h = q
  least_of-All before x (y ∷ ys) q h =
      least_of-All before (if before y x then y else x) ys (chosen (before y x) x y q h.0) h.1

  pub least_row-All :
      (before : A → A → Bool) (xs : List A) (x : A) → least_row before xs ≡ some x → All Q xs → Q x
  unfolding least_row
  least_row-All before [] x p h = absurd (ground (arith, p))
  least_row-All before (y ∷ ys) x p h =
      let first : least_of before y ys ≡ x = ground (arith, p) in
      subst Q first (least_of-All before y ys h.0 h.1)

  insert_row-All :
      (before : A → A → Bool) (x : A) (xs : List A)
      → Q x
      → All Q xs
      → All Q (insert_row before x xs)
  unfolding insert_row
  insert_row-All before x [] q h = (q, tt)
  insert_row-All before x (y ∷ ys) q h = elim (Bool-cases (before y x)) [
    | inl is ↦ rw is (h.0, insert_row-All before x ys q h.1)
    | inr differs ↦ rw differs (q, h)
  ]

  pub sorted_rows-All :
      (before : A → A → Bool) (xs : List A) → All Q xs → All Q (sorted_rows before xs)
  unfolding sorted_rows
  sorted_rows-All before [] h = tt
  sorted_rows-All before (x ∷ xs) h =
      insert_row-All before x (sorted_rows before xs) h.0 (sorted_rows-All before xs h.1)

  -- A row that the statement selects stands in the table and meets the condition.
  pub rows_where-All :
      (test : A → Bool) (xs : List A)
      → ((x : A) → ((t : A → Bool) → t x ≡ true → exists_where t xs ≡ true) → test x ≡ true → Q x)
      → All Q (rows_where test xs)
  unfolding rows_where exists_where
  rows_where-All test [] k = tt
  rows_where-All test (x ∷ xs) k =
      All-if (test x) x (rows_where test xs) (k x (λ t p. ground (arith, p)))
        (rows_where-All test xs (λ y stands p. k y (λ t q. ground (arith, stands t q)) p))

module _ {ℓ} {A : Type ℓ} where
  length-insert_row :
      (before : A → A → Bool) (x : A) (xs : List A)
      → length (insert_row before x xs) ≡ suc (length xs)
  unfolding insert_row
  length-insert_row before x [] = refl
  length-insert_row before x (y ∷ ys) = ground (arith, length-insert_row before x ys)

  length-sorted_rows :
      (before : A → A → Bool) (xs : List A) → length (sorted_rows before xs) ≡ length xs
  unfolding sorted_rows
  length-sorted_rows before [] = refl
  length-sorted_rows before (x ∷ xs) =
      ground
        (arith, length-insert_row before x (sorted_rows before xs), length-sorted_rows before xs)

  length-rows_where :
      (test : A → Bool) (xs : List A)
      → exists_where test xs ≡ true
      → 0 < length (rows_where test xs)
  unfolding rows_where exists_where
  length-rows_where test [] h = absurd (ground (arith, h))
  length-rows_where test (x ∷ xs) h = ground (arith, length-rows_where test xs)

  -- There is a first row when some row meets the condition.
  pub length-sorted_rows-rows_where :
      (before : A → A → Bool) (test : A → Bool) (xs : List A)
      → exists_where test xs ≡ true
      → 0 < length (sorted_rows before (rows_where test xs))
  length-sorted_rows-rows_where before test xs h =
      ground (arith, length-sorted_rows before (rows_where test xs), length-rows_where test xs h)

  -- An update of all rows that meet a condition leaves none that meets it.
  pub exists-update_where :
      (test found : A → Bool) (f : A → A)
      → ((d : A) → found d ≡ true → test d ≡ true)
      → ((d : A) → found (f d) ≡ false)
      → (ds : List A) → exists_where found (update_where test f ds) ≡ false
  unfolding exists_where update_where
  exists-update_where test found f h k [] = refl
  exists-update_where test found f h k (d ∷ ds) =
      ground (arith, exists-update_where test found f h k ds, h d, k d)

  -- No row meets a condition when it fails of each.
  pub exists_where-All :
      (test : A → Bool) (xs : List A) → All (λ x. test x ≡ false) xs → exists_where test xs ≡ false
  unfolding exists_where
  exists_where-All test [] h = refl
  exists_where-All test (x ∷ xs) h = ground (arith, h.0, exists_where-All test xs h.1)
