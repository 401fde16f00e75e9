-- ===== src/Storage/Retention/Batches.antt =====
-- The deletion of a batch of rows: how many go, and which ones stay.
use argus_web_intelligence.Prelude.{
  ℕ, ◌+◌, ◌≤◌, String, Bool, true, false, List, [], ◌∷◌, none, some, String_eq, ◌==◌, ◌≡◌, refl,
  arith, eq_iff, eq_refl, Bool-cases, inl, inr, All, map, length, take, keep, length-take-le,
  length-map, All-take, All-keep, All-keep_test, All-map, sym, ap, ◌∙◌, subst, false≢true,
}
use mathlib.Core.Option.{some-injective}
use argus_web_intelligence.Prelude.Order.{order_by, All-order_by}
use argus_web_intelligence.Sql.{
  PrimaryKey, key_of, find, Unique, count_where, delete_where, select_limit,
}
use argus_web_intelligence.Sql.Laws.{count_where-key, find-delete_where, key-find}
use argus_web_intelligence.Storage.Retention.{targets, is_target}

module _ {Row : Type 0} ⦃t : PrimaryKey Row⦄ where
  count_key-le :
      (k : String) (rows : List Row) → Unique rows → count_where (λ r. k == key_of r) rows ≤ 1
  count_key-le k rows u = ground (
    arith,
    count_where-key (λ r. k == key_of r) k rows (λ r h. ground (arith, eq_iff k (key_of r))) u,
  )

  count_target-cons :
      (k : String) (ks : List String) (rows : List Row)
      → count_where (is_target (k ∷ ks)) rows
        ≤ count_where (λ r. k == key_of r) rows + count_where (is_target ks) rows
  unfolding count_where is_target
  count_target-cons k ks [] = ground arith
  count_target-cons k ks (r ∷ rs) = ground (arith, count_target-cons k ks rs)

  count_target-nil : (rows : List Row) → count_where (is_target []) rows ≡ 0
  unfolding count_where is_target
  count_target-nil [] = refl
  count_target-nil (r ∷ rs) = ground (arith, count_target-nil rs)

  count_target-le :
      (ks : List String) (rows : List Row)
      → Unique rows
      → count_where (is_target ks) rows ≤ length ks
  count_target-le [] rows u = ground (arith, count_target-nil rows)
  count_target-le (k ∷ ks) rows u =
      ground (arith, count_target-cons k ks rows, count_key-le k rows u, count_target-le ks rows u)

  none_not_some : (s : Row) → none ≡ some s → ⊥
  none_not_some s e = cc

  later :
      (r s : Row) (rs : List Row)
      → find (key_of r) rs ≡ none
      → find (key_of s) rs ≡ some s
      → find (key_of s) (r ∷ rs) ≡ some s
  unfolding find
  later r s rs absent here = elim (Bool-cases (key_of r == key_of s)) [
    | inl same ↦
        let e : key_of r ≡ key_of s = (eq_iff (key_of r) (key_of s)).0 same in
        let there = subst (λ k. find k rs ≡ some s) (sym e) here in
        absurd (none_not_some s (sym absent ∙ there))
    | inr other ↦ rw other here
  ]

  module _ (test : Row → Bool) (before : Row → Row → Bool) (n : ℕ) (rows : List Row)
      (u : Unique rows) where
    length-targets : length (targets test before n rows) ≤ n
    unfolding targets select_limit
    length-targets = ground (
      arith,
      length-map {A = Row} key_of (take n (order_by before (keep test rows))),
      length-take-le n (order_by before (keep test rows)),
    )

    -- No more rows are deleted than the batch allows.
    pub count_targets-le : count_where (is_target (targets test before n rows)) rows ≤ n
    count_targets-le =
        ground (arith, length-targets, count_target-le (targets test before n rows) rows u)

    find_self : (rs : List Row) → Unique rs → All (λ r. find (key_of r) rs ≡ some r) rs
    unfolding find
    find_self [] v = tt
    find_self (r ∷ rs) v = (
      ground (arith, eq_refl (key_of r)),
      All-map _ _ (λ s here. later r s rs v.0 here) rs (find_self rs v.1),
    )

    -- A row that is a target by its key is the target itself, and passes the test.
    target-passes :
        (selected : List Row)
        → All (λ s. test s ≡ true) selected
        → All (λ s. find (key_of s) rows ≡ some s) selected
        → (r : Row) → find (key_of r) rows ≡ some r
        → is_target (map key_of selected) r ≡ true
        → test r ≡ true
    unfolding is_target
    target-passes [] passes here r found hit = absurd (ground (arith, hit))
    target-passes (s ∷ ss) (p, passes) (h, here) r found hit =
        elim (Bool-cases (key_of s == key_of r)) [
          | inl same ↦
              let e : key_of s ≡ key_of r = (eq_iff (key_of s) (key_of r)).0 same in
              let is_r = some-injective s r (sym h ∙ ap (λ k. find k rows) e ∙ found) in
              subst (λ x. test x ≡ true) is_r p
          | inr other ↦ target-passes ss passes here r found (ground (arith, hit, other))
        ]

    -- A row that does not pass the test of the batch stays as it is.
    pub find-targets :
        (k : String) (r : Row)
        → find k rows ≡ some r
        → test r ≡ false
        → find k (delete_where (is_target (targets test before n rows)) rows) ≡ some r
    unfolding targets select_limit
    find-targets k r found fails =
        let chosen = take n (order_by before (keep test rows)) in
        let own = subst (λ j. find j rows ≡ some r) (sym (key-find k rows found)) found in
        let spared : is_target (map key_of chosen) r ≡ false =
          elim (Bool-cases (is_target (map key_of chosen) r)) [
            | inr miss ↦ miss
            | inl hit ↦ absurd (
                false≢true (
                  sym fails
                  ∙ target-passes chosen
                      (All-take _ n _ (All-order_by before _ _ (All-keep_test test rows)))
                      (All-take _ n _
                        (All-order_by before _ _ (All-keep _ test rows (find_self rows u))))
                      r own hit))
          ] in
        find-delete_where (is_target (map key_of chosen)) rows k u ∙ rw (found, spared) refl
