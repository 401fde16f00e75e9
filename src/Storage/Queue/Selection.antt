-- ===== src/Storage/Queue/Selection.antt =====
-- The first statement of a claim: which collection it chooses.
use argus_web_intelligence.Prelude.{
  ℕ, ◌<◌, String, Bool, true, false, List, [], ◌∷◌, none, some, String_eq, Nat_eq, ◌≡◌, arith, ◌⊎◌,
  sym, ◌∙◌, All, keep, All-keep, All-keep_test, All-keep_inv, All-map, keep_nil,
}
use argus_web_intelligence.Prelude.Order.{
  TotalOrder, first_row-order_by, order_by, first_row-take, All-first_row, All-order_by,
  first_row-none,
}
use mathlib.Core.List.{Mem, mem-cons_self, mem-cons_of_mem}
use argus_web_intelligence.Sql.{find}
use argus_web_intelligence.Contracts.{is_active}
use argus_web_intelligence.Storage.{Database, CollectionRow, LeaseRow, LeaseRow_key}
use argus_web_intelligence.Storage.Queue.{Round, is_free, is_claimable, fifo, select_candidate}
use argus_web_intelligence.Storage.Queue.Taking.{lease_of}

-- Each element of a list is one of the list.
All-Mem : (xs : List CollectionRow) → All (λ x. Mem x xs) xs
All-Mem [] = tt
All-Mem (x ∷ xs) = (
  mem-cons_self,
  All-map (λ y. Mem y xs) (λ y. Mem y (x ∷ xs)) (λ y m. mem-cons_of_mem x m) xs (All-Mem xs),
)

module _ (round : Round) (leases : List LeaseRow) (row : CollectionRow) where
  is_claimable-active : is_claimable round leases row ≡ true → is_active row.status ≡ true
  unfolding is_claimable
  is_claimable-active h = ground arith

  pub is_claimable-free :
      is_claimable round leases row ≡ true
      → is_free round.now (find row.collection_id leases) ≡ true
  unfolding is_claimable
  is_claimable-free h = ground arith

  is_claimable-unlocked :
      is_claimable round leases row ≡ true → round.locked row.collection_id ≡ false
  unfolding is_claimable
  is_claimable-unlocked h = ground arith

  is_claimable_intro :
      is_active row.status ≡ true
      → is_free round.now (find row.collection_id leases) ≡ true
      → round.locked row.collection_id ≡ false
      → is_claimable round leases row ≡ true
  unfolding is_claimable
  is_claimable_intro a f u = ground arith

-- Every collection that may be claimed is younger than `created_at`, or as old and not before `id`.
abbrev pub ComeAfter : (String → String → Bool) → Round → Database → ℕ → String → Type 0
ComeAfter text_le round db created_at id =
    All
      (λ (other : CollectionRow).
        is_active other.status ≡ true
        → is_free round.now (lease_of other.collection_id db) ≡ true
        → round.locked other.collection_id ≡ false
        → (created_at < other.created_at)
          ⊎ ((created_at ≡ other.created_at) × (text_le id other.collection_id ≡ true)))
      db.collections

module _ (text_le : String → String → Bool) (o : TotalOrder text_le) where
  fifo-TotalOrder : TotalOrder (fifo text_le)
  unfolding fifo
  fifo-TotalOrder = record {
    total = λ a b. ground (arith, o.total a.collection_id b.collection_id);
    trans = λ a b c h k. ground (arith, o.trans a.collection_id b.collection_id c.collection_id);
  }

  pub fifo_cases :
      (a b : CollectionRow)
      → fifo text_le a b ≡ true
      → (a.created_at < b.created_at)
        ⊎ ((a.created_at ≡ b.created_at) × (text_le a.collection_id b.collection_id ≡ true))
  unfolding fifo
  fifo_cases a b h = ground arith

  -- A claim looks at the oldest stored collection that is active, has no live lease and is not
  -- locked; of those of one age, at the first by identifier.
  pub select_candidate_fifo :
      (round : Round) (db : Database) (row : CollectionRow)
      → select_candidate text_le round db ≡ some row
      → Mem row db.collections
        × (is_active row.status ≡ true)
        × (is_free round.now (lease_of row.collection_id db) ≡ true)
        × (round.locked row.collection_id ≡ false)
        × ComeAfter text_le round db row.created_at row.collection_id
  unfolding select_candidate
  select_candidate_fifo round db row e =
      let test = is_claimable round db.leases in
      let order = fifo text_le in
      let kept = keep test db.collections in
      let first = sym (first_row-take order 0 (order_by order kept)) ∙ e in
      let passes =
        All-first_row order (λ r. test r ≡ true) (order_by order kept) row
          (All-order_by order (λ r. test r ≡ true) kept (All-keep_test test db.collections))
          first in
      let least =
        All-keep_inv (λ r. order row r ≡ true) test db.collections
          (first_row-order_by order fifo-TotalOrder kept row first) in
      let there =
        All-first_row order (λ r. Mem r db.collections) (order_by order kept) row
          (All-order_by order (λ r. Mem r db.collections) kept
            (All-keep (λ r. Mem r db.collections) test db.collections (All-Mem db.collections)))
          first in
      (
        there,
        is_claimable-active round db.leases row passes,
        is_claimable-free round db.leases row passes,
        is_claimable-unlocked round db.leases row passes,
        All-map (λ r. test r ≡ true → order row r ≡ true) _
            (λ r h a f u. fifo_cases row r (h (is_claimable_intro round db.leases r a f u)))
            db.collections least,
      )

  -- No row is claimable if the first statement finds none.
  pub select_candidate-none :
      (round : Round) (db : Database)
      → select_candidate text_le round db ≡ none
      → All (λ row. is_claimable round db.leases row ≡ false) db.collections
  unfolding select_candidate
  select_candidate-none round db e =
      let test = is_claimable round db.leases in
      let order = fifo text_le in
      let kept = keep test db.collections in
      keep_nil test db.collections
        (first_row-none order kept (sym (first_row-take order 0 (order_by order kept)) ∙ e))
