-- ===== src/Sql/Laws.antt =====
-- What a look-up by key sees after each statement, and that keys stay unique.
use argus_web_intelligence.Prelude.{
  String, Bool, true, false, List, [], ◌∷◌, Option, none, some, String_eq, ◌==◌, if◌then◌else◌, ◌≡◌,
  refl, arith, eq_iff, eq_refl, Bool-cases, inl, inr, ◌∙◌, ◌≢◌, any, All, subst,
}
use argus_web_intelligence.Sql.{
  PrimaryKey, key_of, find, upsert, update_where, delete_where, count_where, Unique,
  insert_or_replace,
}
use mathlib.Core.Option.{some-injective}

module _ {ℓ} {Row : Type ℓ} ⦃t : PrimaryKey Row⦄ where
  pub key-find : (k : String) (rows : List Row) {r : Row} → find k rows ≡ some r → key_of r ≡ k
  unfolding find
  key-find k [] e = cc
  key-find k (x ∷ xs) {r} e = ground (arith, eq_iff (key_of x) k, key-find k xs {r = r})

  -- What an upsert leaves of the row that stood under its key.
  abbrev pub merged : (Row → Bool) → (Row → Row) → Row → Option Row → Option Row
  merged test set new none = some new
  merged test set new (some r) = if test r then some (set r) else some r

  abbrev pub written : (Row → Bool) → Option Row → Bool
  written test none = true
  written test (some r) = test r

  module _ (test : Row → Bool) (set : Row → Row) (new : Row) where
    pub upsert-written :
        (rows : List Row) → (upsert test set new rows).1 ≡ written test (find (key_of new) rows)
    unfolding find upsert
    upsert-written [] = refl
    upsert-written (r ∷ rs) = ground (arith, upsert-written rs)

    pub find-upsert_self :
        (rows : List Row)
        → ((r : Row) → key_of (set r) ≡ key_of r)
        → find (key_of new) (upsert test set new rows).0
          ≡ merged test set new (find (key_of new) rows)
    unfolding find upsert
    find-upsert_self [] keeps = rw (eq_refl (key_of new))
    find-upsert_self (r ∷ rs) keeps =
        ground (arith, keeps r, eq_iff (key_of r) (key_of new), find-upsert_self rs keeps)

    pub find-upsert_ne :
        (rows : List Row) (k : String)
        → ((r : Row) → key_of (set r) ≡ key_of r)
        → k ≢ key_of new
        → find k (upsert test set new rows).0 ≡ find k rows
    unfolding find upsert
    find-upsert_ne [] k keeps ne = ground (arith, eq_iff (key_of new) k)
    find-upsert_ne (r ∷ rs) k keeps ne = ground (
      arith,
      keeps r,
      eq_iff (key_of r) (key_of new),
      eq_iff (key_of r) k,
      find-upsert_ne rs k keeps ne,
    )

    pub upsert-Unique :
        (rows : List Row)
        → ((r : Row) → key_of (set r) ≡ key_of r)
        → Unique rows
        → Unique (upsert test set new rows).0
    unfolding find upsert
    upsert-Unique [] keeps u = (refl, tt)
    upsert-Unique (r ∷ rs) keeps u = elim (Bool-cases (key_of r == key_of new)) [
      | inl same ↦ rw same (ground (arith, keeps r))
      | inr other ↦ rw other (
        find-upsert_ne rs (key_of r) keeps (λ e. ground (arith, eq_iff (key_of r) (key_of new)))
            ∙ u.0,
        upsert-Unique rs keeps u.1,
      )
    ]

  module _ (test : Row → Bool) (set : Row → Row) where
    pub find-update_where :
        (rows : List Row) (k : String)
        → ((r : Row) → key_of (set r) ≡ key_of r)
        → Unique rows
        → find k (update_where test set rows)
          ≡ (elim (find k rows) [ none ↦ none | some r ↦ some (if test r then set r else r) ])
    unfolding find update_where
    find-update_where [] k keeps u = refl
    find-update_where (r ∷ rs) k keeps u = ground (arith, keeps r, find-update_where rs k keeps u.1)

    pub update_where-Unique :
        (rows : List Row)
        → ((r : Row) → key_of (set r) ≡ key_of r)
        → Unique rows
        → Unique (update_where test set rows)
    unfolding update_where
    update_where-Unique [] keeps u = tt
    update_where-Unique (r ∷ rs) keeps u = (
      ground (arith, keeps r, find-update_where rs (key_of r) keeps u.1),
      update_where-Unique rs keeps u.1,
    )

  module _ (test : Row → Bool) where
    pub find-delete_where :
        (rows : List Row) (k : String)
        → Unique rows
        → find k (delete_where test rows)
          ≡ (elim (find k rows) [ none ↦ none | some r ↦ if test r then none else some r ])
    unfolding find delete_where
    find-delete_where [] k u = refl
    find-delete_where (r ∷ rs) k u = ground (arith, eq_iff (key_of r) k, find-delete_where rs k u.1)

    pub delete_where-Unique : (rows : List Row) → Unique rows → Unique (delete_where test rows)
    unfolding delete_where
    delete_where-Unique [] u = tt
    delete_where-Unique (r ∷ rs) u =
        ground (arith, find-delete_where rs (key_of r) u.1, delete_where-Unique rs u.1)

module _ {ℓ} {Row : Type ℓ} where
  -- A statement that counts no row changes no row.
  pub update_where-zero :
      (test : Row → Bool) (set : Row → Row) (rows : List Row)
      → count_where test rows ≡ 0
      → update_where test set rows ≡ rows
  unfolding count_where update_where
  update_where-zero test set [] e = refl
  update_where-zero test set (r ∷ rs) e = ground (arith, update_where-zero test set rs)

module _ {ℓ} {Row : Type ℓ} ⦃t : PrimaryKey Row⦄ where
  -- A test that fixes the primary key passes on one row at most.
  pub count_where-key :
      (test : Row → Bool) (k : String) (rows : List Row)
      → ((r : Row) → test r ≡ true → key_of r ≡ k)
      → Unique rows
      → count_where test rows ≡ (elim (find k rows) [ none ↦ 0 | some r ↦ if test r then 1 else 0 ])
  unfolding count_where find
  count_where-key test k [] h u = refl
  count_where-key test k (r ∷ rs) h u =
      ground (arith, h r, eq_iff (key_of r) k, count_where-key test k rs h u.1)

  -- EXISTS over a test that fixes the primary key.
  pub any-key :
      (test : Row → Bool) (k : String) (rows : List Row)
      → ((r : Row) → test r ≡ true → key_of r ≡ k)
      → Unique rows
      → any test rows ≡ (elim (find k rows) [ none ↦ false | some r ↦ test r ])
  unfolding find
  any-key test k [] h u = refl
  any-key test k (r ∷ rs) h u = ground (arith, h r, eq_iff (key_of r) k, any-key test k rs h u.1)

module _ {ℓ κ} {Row : Type ℓ} ⦃t : PrimaryKey Row⦄ (P : Row → Type κ) where
  pub All-insert_or_replace :
      (new : Row) (rows : List Row) → P new → All P rows → All P (insert_or_replace new rows)
  unfolding insert_or_replace upsert
  All-insert_or_replace new [] p h = (p, tt)
  All-insert_or_replace new (r ∷ rs) p h = elim (Bool-cases (key_of r == key_of new)) [
    | inl same ↦ rw (same, All) (p, h.1)
    | inr other ↦ rw (other, All) (h.0, All-insert_or_replace new rs p h.1)
  ]

  pub All-find : (k : String) (rows : List Row) (r : Row) → All P rows → find k rows ≡ some r → P r
  unfolding find
  All-find k [] r h e = cc
  All-find k (x ∷ xs) r h e = elim (Bool-cases (key_of x == k)) [
    | inl same ↦ subst P (some-injective x r (ground (arith, e, same))) h.0
    | inr other ↦ All-find k xs r h.1 (ground (arith, e, other))
  ]

module _ {ℓ} {Row : Type ℓ} ⦃t : PrimaryKey Row⦄ where
  pub find-insert_or_replace_self :
      (new : Row) (rows : List Row) → find (key_of new) (insert_or_replace new rows) ≡ some new
  unfolding insert_or_replace find upsert
  find-insert_or_replace_self new [] = ground (arith, eq_refl (key_of new))
  find-insert_or_replace_self new (r ∷ rs) = ground (
    arith,
    eq_refl (key_of new),
    eq_iff (key_of r) (key_of new),
    find-insert_or_replace_self new rs,
  )

  pub find-insert_or_replace_ne :
      (new : Row) (rows : List Row) (k : String)
      → k ≢ key_of new
      → find k (insert_or_replace new rows) ≡ find k rows
  unfolding insert_or_replace find upsert
  find-insert_or_replace_ne new [] k ne = ground (arith, eq_iff (key_of new) k)
  find-insert_or_replace_ne new (r ∷ rs) k ne = ground (
    arith,
    eq_iff (key_of new) k,
    eq_iff (key_of r) k,
    eq_iff (key_of r) (key_of new),
    find-insert_or_replace_ne new rs k,
  )
