-- ===== src/Storage/Recipes/Versions.antt =====
-- Pruning bounds the versions of a site's recipe and keeps the newest.
use argus_web_intelligence.Prelude.{
  ℕ, suc, ◌+◌, ◌≤◌, String, Bool, true, false, ◌&&◌, List, [], ◌∷◌, String_eq, Nat_eq, ◌==◌, ◌≡◌,
  refl, arith, eq_iff, Bool-cases, inl, inr, All, any, map, length, take, keep, nat_eq_iff,
  length-take-le, length-map, ap, sym, ◌∙◌, ◌≢◌, ◌⊎◌,
}
use argus_web_intelligence.Prelude.Order.{TotalOrder, order_by, first_row, keep-order_by}
use argus_web_intelligence.Sql.{count_where, delete_where, select_limit}
use argus_web_intelligence.Storage.{RecipeRow}
use argus_web_intelligence.Storage.Recipes.{
  of_site, newest, kept_versions, is_pruned, prune_rows, latest,
}

pub newest-TotalOrder : TotalOrder newest
unfolding newest
newest-TotalOrder = record { total = λ a b. ground arith; trans = λ a b c h k. ground arith }

-- UNIQUE(domain, goal, version) holds.
abbrev pub UniqueVersions : List RecipeRow → Type 0
UniqueVersions [] = Unit {0}
UniqueVersions (r ∷ rs) =
    All (λ (s : RecipeRow). of_site r.domain r.goal s && s.version == r.version ≡ false) rs
    × UniqueVersions rs

module _ (domain goal : String) where
  has_version : ℕ → RecipeRow → Bool
  has_version v row = of_site domain goal row && row.version == v

  count_version-zero :
      (r : RecipeRow) (v : ℕ) (rows : List RecipeRow)
      → has_version v r ≡ true
      → All (λ (s : RecipeRow). of_site r.domain r.goal s && s.version == r.version ≡ false) rows
      → count_where (has_version v) rows ≡ 0
  unfolding count_where has_version of_site
  count_version-zero r v [] e h = refl
  count_version-zero r v (s ∷ ss) e (h, hs) =
      ground (arith, eq_iff r.domain domain, eq_iff r.goal goal, count_version-zero r v ss e hs)

  count_version-le :
      (v : ℕ) (rows : List RecipeRow) → UniqueVersions rows → count_where (has_version v) rows ≤ 1
  unfolding count_where
  count_version-le v [] u = ground arith
  count_version-le v (r ∷ rs) u = elim (Bool-cases (has_version v r)) [
    | inl h ↦ ground (arith, count_version-zero r v rs h u.0)
    | inr h ↦ ground (arith, count_version-le v rs u.1)
  ]

  is_kept : List ℕ → RecipeRow → Bool
  is_kept kept row = of_site domain goal row && any (λ v. v == row.version) kept

  count_kept-cons :
      (v : ℕ) (kept : List ℕ) (rows : List RecipeRow)
      → count_where (is_kept (v ∷ kept)) rows
        ≤ count_where (has_version v) rows + count_where (is_kept kept) rows
  unfolding count_where has_version is_kept
  count_kept-cons v kept [] = ground arith
  count_kept-cons v kept (r ∷ rs) = ground (arith, count_kept-cons v kept rs)

  count_kept-none : (rows : List RecipeRow) → count_where (is_kept []) rows ≡ 0
  unfolding count_where is_kept
  count_kept-none [] = refl
  count_kept-none (r ∷ rs) = ground (arith, count_kept-none rs)

  count_kept-le :
      (kept : List ℕ) (rows : List RecipeRow)
      → UniqueVersions rows
      → count_where (is_kept kept) rows ≤ length kept
  count_kept-le [] rows u = ground (arith, count_kept-none rows)
  count_kept-le (v ∷ kept) rows u =
      ground
        (arith, count_kept-cons v kept rows, count_version-le v rows u, count_kept-le kept rows u)

  count_pruned :
      (kept : List ℕ) (rows : List RecipeRow)
      → count_where (of_site domain goal) (delete_where (is_pruned domain goal kept) rows)
        ≡ count_where (is_kept kept) rows
  unfolding count_where delete_where is_pruned is_kept
  count_pruned kept [] = refl
  count_pruned kept (r ∷ rs) = ground (arith, count_pruned kept rs)

  length-kept_versions :
      (n : ℕ) (rows : List RecipeRow) → length (kept_versions domain goal n rows) ≤ n
  unfolding kept_versions select_limit
  length-kept_versions n rows = ground (
    arith,
    length-map (λ (row : RecipeRow). row.version)
        (take n (order_by newest (keep (of_site domain goal) rows))),
    length-take-le n (order_by newest (keep (of_site domain goal) rows)),
  )

  -- Not more versions than asked for are left.
  pub count-prune_rows :
      (n : ℕ) (rows : List RecipeRow)
      → UniqueVersions rows
      → count_where (of_site domain goal) (prune_rows domain goal n rows) ≤ n
  unfolding prune_rows
  count-prune_rows n rows u =
      let kept = kept_versions domain goal n rows in
      ground (arith, count_pruned kept rows, count_kept-le kept rows u, length-kept_versions n rows)

  keep-pruned :
      (kept : List ℕ) (rows : List RecipeRow)
      → keep (of_site domain goal) (delete_where (is_pruned domain goal kept) rows)
        ≡ keep
            (λ (row : RecipeRow). any (λ v. v == row.version) kept)
            (keep (of_site domain goal) rows)
  unfolding delete_where is_pruned
  keep-pruned kept [] = refl
  keep-pruned kept (r ∷ rs) = ground (arith, keep-pruned kept rs)

  first-kept :
      (n : ℕ) (rows : List RecipeRow)
      → first_row newest (
          take 1 (
            keep
              (λ (row : RecipeRow).
                any
                  (λ v. v == row.version)
                  (map (λ (row : RecipeRow). row.version) (take (suc n) rows)))
              rows))
        ≡ first_row newest (take 1 rows)
  first-kept n [] = refl
  first-kept n (r ∷ rs) = ground (arith, nat_eq_iff r.version r.version)

  -- The newest version is left.
  pub latest-prune_rows :
      (m : ℕ) (rows : List RecipeRow)
      → latest domain goal (prune_rows domain goal (suc m) rows) ≡ latest domain goal rows
  unfolding latest prune_rows kept_versions select_limit
  latest-prune_rows m rows =
      let site = keep (of_site domain goal) rows in
      let kept = kept_versions domain goal (suc m) rows in
      let test = λ (row : RecipeRow). any (λ v. v == row.version) kept in
      ap (λ t. first_row newest (take 1 (order_by newest t))) (keep-pruned kept rows)
      ∙ ap (λ t. first_row newest (take 1 t))
          (sym (keep-order_by newest newest-TotalOrder test site))
      ∙ first-kept m (order_by newest site)

  -- The recipes of other sites stay.
  pub pruned-other :
      (kept : List ℕ) (domain' goal' : String) (rows : List RecipeRow)
      → (domain' ≢ domain) ⊎ (goal' ≢ goal)
      → keep (of_site domain' goal') (delete_where (is_pruned domain goal kept) rows)
        ≡ keep (of_site domain' goal') rows
  unfolding delete_where is_pruned of_site
  pruned-other kept domain' goal' [] ne = refl
  pruned-other kept domain' goal' (r ∷ rs) ne = ground (
    arith,
    eq_iff r.domain domain,
    eq_iff r.domain domain',
    eq_iff r.goal goal,
    eq_iff r.goal goal',
    pruned-other kept domain' goal' rs ne,
  )
