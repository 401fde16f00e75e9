-- ===== src/Sql.antt =====
-- The SQL statements of the storage modules, over tables as lists of rows. The order of a list
-- stands for nothing but the order in which a scan meets the rows.
pub mod Laws
use argus_web_intelligence.Prelude.{
  ℕ, zero, suc, ◌+◌, String, Bool, true, false, List, [], ◌∷◌, Option, none, some, String_eq, ◌==◌,
  if◌then◌else◌, take, keep, is_some, ◌≡◌,
}
use argus_web_intelligence.Prelude.Order.{order_by}

-- The column that is the primary key of a table.
pub record PrimaryKey {ℓ} (Row : Type ℓ) : Type ℓ where
  pub key_of : Row → String

abbrev pub key_of {ℓ} : {Row : Type ℓ} ⦃t : PrimaryKey Row⦄ → Row → String
key_of ⦃t⦄ = t.key_of

module _ {ℓ} {Row : Type ℓ} where
  -- SELECT COUNT(*) FROM rows WHERE test
  unfoldable pub count_where : (Row → Bool) → List Row → ℕ
  count_where test [] = 0
  count_where test (r ∷ rs) = let n = count_where test rs in if test r then suc n else n

  -- UPDATE rows SET … WHERE test
  unfoldable pub update_where : (Row → Bool) → (Row → Row) → List Row → List Row
  update_where test set [] = []
  update_where test set (r ∷ rs) = (if test r then set r else r) ∷ update_where test set rs

  -- DELETE FROM rows WHERE test
  unfoldable pub delete_where : (Row → Bool) → List Row → List Row
  delete_where test [] = []
  delete_where test (r ∷ rs) = let rest = delete_where test rs in if test r then rest else r ∷ rest

  -- SELECT * FROM rows WHERE test ORDER BY … LIMIT n
  unfoldable pub select_limit : (Row → Bool) → (Row → Row → Bool) → ℕ → List Row → List Row
  select_limit test before n rows = take n (order_by before (keep test rows))

module _ {ℓ} {Row : Type ℓ} ⦃t : PrimaryKey Row⦄ where
  -- SELECT * FROM rows WHERE key = k
  unfoldable pub find : String → List Row → Option Row
  find k [] = none
  find k (r ∷ rs) = if key_of r == k then some r else find k rs

  -- INSERT INTO rows VALUES new ON CONFLICT (key) DO UPDATE SET … WHERE test. The second component
  -- says whether a row was written, as `cursor.rowcount` and RETURNING do.
  unfoldable pub upsert : (Row → Bool) → (Row → Row) → Row → List Row → List Row × Bool
  upsert test set new [] = (new ∷ [], true)
  upsert test set new (r ∷ rs) =
      let (rest, written) = upsert test set new rs in
      if key_of r == key_of new
      then if test r then (set r ∷ rs, true) else (r ∷ rs, false)
      else (r ∷ rest, written)

  -- ON CONFLICT (key) DO NOTHING
  unfoldable pub insert_or_ignore : Row → List Row → List Row × Bool
  insert_or_ignore new rows = upsert (λ _. false) (λ r. r) new rows

  -- ON CONFLICT (key) DO UPDATE SET every column
  unfoldable pub insert_or_replace : Row → List Row → List Row
  insert_or_replace new rows = (upsert (λ _. true) (λ _. new) new rows).0

  -- INSERT INTO rows VALUES new: `none` is a violation of the primary key.
  unfoldable pub insert : Row → List Row → Option (List Row)
  insert new rows = if is_some (find (key_of new) rows) then none else some (new ∷ rows)

  -- No two rows have one key.
  abbrev pub Unique : List Row → Type ℓ
  Unique [] = Unit
  Unique (r ∷ rs) = (find (key_of r) rs ≡ none) × Unique rs
