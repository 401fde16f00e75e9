-- ===== src/Storage/Queue/Claiming.antt =====
-- What a claim takes, in which order, and when the loop ends.
use argus_web_intelligence.Prelude.{
  ℕ, ◌≤◌, max, String, Bool, true, false, List, [], ◌∷◌, Option, none, some, String_eq, Nat_eq,
  ◌++◌, ◌≡◌, ◌≢◌, arith, Option-cases, inl, inr, ◌⊎◌, sym, ap, ◌∙◌, subst, All,
}
use argus_web_intelligence.Prelude.Order.{TotalOrder}
use mathlib.Core.List.{Mem}
use argus_web_intelligence.Sql.{find}
use argus_web_intelligence.Contracts.{second, is_active}
use argus_web_intelligence.Storage.{Database, CollectionRow, LeaseRow, LeaseRow_key}
use argus_web_intelligence.Storage.Queue.{
  Round, Attempt, idle, claimed, new_lease, take_lease, is_free, is_claimable, select_candidate,
  claim_attempt, claim_next_collection,
}
use argus_web_intelligence.Storage.Queue.Taking.{
  Attempt-cases, lease_of, take_lease-claimed, take_lease-free, take_lease-claimed_id,
  take_lease-other,
}
use argus_web_intelligence.Storage.Queue.Selection.{
  ComeAfter, select_candidate_fifo, select_candidate-none,
}

-- What others commit between the two statements leaves the leases alone.
abbrev pub IsQuiet : Round → Type 0
IsQuiet round = (db : Database) → (round.between db).leases ≡ db.leases

module _ (text_le : String → String → Bool) (worker_id : String) (lease_seconds : ℕ) where
  abbrev attempt : Round → Database → Attempt × Database
  attempt = claim_attempt text_le worker_id lease_seconds

  abbrev claim : List Round → Database → Option (Option String) × Database
  claim = claim_next_collection text_le worker_id lease_seconds

  abbrev take : Round → String → Database → Attempt × Database
  take round id db = take_lease worker_id round.now (max second lease_seconds) id (round.between db)

  attempt-none :
      (round : Round) (db : Database)
      → select_candidate text_le round db ≡ none
      → attempt round db ≡ (idle, db)
  unfolding claim_attempt
  attempt-none round db e = rw e

  attempt-some :
      (round : Round) (db : Database) (row : CollectionRow)
      → select_candidate text_le round db ≡ some row
      → attempt round db ≡ take round row.collection_id db
  unfolding claim_attempt
  attempt-some round db row e = rw e

  claimed-candidate :
      (round : Round) (db : Database) (id : String)
      → (attempt round db).0 ≡ claimed id
      → (row : CollectionRow) × (select_candidate text_le round db ≡ some row)
        × (row.collection_id ≡ id)
        × (attempt round db ≡ take round id db)
  claimed-candidate round db id won = elim (Option-cases (select_candidate text_le round db)) [
    | inl h ↦ absurd (idle_not_claimed (sym (ap (λ p. p.0) (attempt-none round db h)) ∙ won))
    | inr (row, h) ↦
        let step = attempt-some round db row h in
        let same =
          take_lease-claimed_id worker_id round.now (max second lease_seconds) row.collection_id id
            (round.between db) (sym (ap (λ p. p.0) step) ∙ won) in
        (row, h, same, step ∙ ap (λ k. take round k db) same)
  ]
    where
      idle_not_claimed : idle ≡ claimed id → ⊥
      idle_not_claimed e = cc

  -- An attempt that no other transaction disturbs takes the candidate.
  attempt_quiet :
      (round : Round) (db : Database) (row : CollectionRow)
      → IsQuiet round
      → is_free round.now (lease_of row.collection_id db) ≡ true
      → select_candidate text_le round db ≡ some row
      → (attempt round db).0 ≡ claimed row.collection_id
  attempt_quiet round db row q f e =
      ap (λ p. p.0) (attempt-some round db row e)
      ∙ take_lease-free worker_id round.now (max second lease_seconds) row.collection_id
          (round.between db) (ap (λ ls. is_free round.now (find row.collection_id ls)) (q db) ∙ f)

  -- A successful claim gives the worker the only lease on the collection, until the time that it
  -- asked for (a second at least); what it replaces had run out or was the worker's own.
  pub claim_attempt-exclusive :
      (round : Round) (db : Database) (id : String)
      → (attempt round db).0 ≡ claimed id
      → (lease_of id (attempt round db).1
          ≡ some (new_lease id worker_id round.now (max second lease_seconds)))
        × ((l : LeaseRow)
            → lease_of id (round.between db) ≡ some l
            → (l.lease_until ≤ round.now) ⊎ (l.worker_id ≡ worker_id))
        × ((k : String) → k ≢ id → lease_of k (attempt round db).1 ≡ lease_of k (round.between db))
  claim_attempt-exclusive round db id won =
      let (row, h, same, step) = claimed-candidate round db id won in
      let (mine, others) =
        take_lease-claimed worker_id round.now (max second lease_seconds) id (round.between db)
          (sym (ap (λ p. p.0) step) ∙ won) in
      (
        rw step mine,
        others,
        λ k ne. rw step (
            take_lease-other worker_id round.now (max second lease_seconds) id (round.between db) k
              ne),
      )

  -- The loop ends as soon as one round is not disturbed.
  pub claim_next_collection_returns :
      (before : List Round) (round : Round) (later : List Round) (db : Database)
      → IsQuiet round
      → TotalOrder text_le
      → (r : Option String) × ((claim (before ++ round ∷ later) db).0 ≡ some r)
  unfolding claim_next_collection
  claim_next_collection_returns [] round later db q o =
      elim (Option-cases (select_candidate text_le round db)) [
        | inl e ↦ (none, ground (arith, attempt-none round db e))
        | inr (row, e) ↦
            let f = (select_candidate_fifo text_le o round db row e).2 in
            (some row.collection_id, ground (arith, attempt_quiet round db row q f e))
      ]
  claim_next_collection_returns (r ∷ rs) round later db q o =
      let (v, e) = claim_next_collection_returns rs round later (attempt r db).1 q o in
      elim (Attempt-cases (attempt r db).0) [
        | inl h ↦ (none, ground (arith, h))
        | inr (inl (id, h)) ↦ (some id, ground (arith, h))
        | inr (inr h) ↦ (v, ground (arith, h, e))
      ]

  -- If the first round is not disturbed, the loop returns None only when there is no work: every
  -- active collection has a live lease or is locked. Nothing is written then.
  pub claim_next_collection-none :
      (round : Round) (rounds : List Round) (db : Database)
      → IsQuiet round
      → TotalOrder text_le
      → (claim (round ∷ rounds) db).0 ≡ some none
      → All (λ row. is_claimable round db.leases row ≡ false) db.collections
        × ((claim (round ∷ rounds) db).1 ≡ db)
  unfolding claim_next_collection
  claim_next_collection-none round rounds db q o e =
      elim (Option-cases (select_candidate text_le round db)) [
        | inl h ↦
            (select_candidate-none text_le o round db h, ground (arith, attempt-none round db h))
        | inr (row, h) ↦
            let f = (select_candidate_fifo text_le o round db row h).2 in
            absurd (ground (arith, attempt_quiet round db row q f h, e))
      ]

  -- A claim takes the oldest stored collection that is active, has no live lease and is not locked:
  -- a row of the table, and every other such row is younger, or as old and not before it by
  -- identifier.
  pub claim_attempt_fifo :
      (round : Round) (db : Database) (id : String)
      → TotalOrder text_le
      → (attempt round db).0 ≡ claimed id
      → (row : CollectionRow) × Mem row db.collections
        × (row.collection_id ≡ id)
        × (is_active row.status ≡ true)
        × (is_free round.now (lease_of id db) ≡ true)
        × (round.locked id ≡ false)
        × ComeAfter text_le round db row.created_at id
  claim_attempt_fifo round db id o won =
      let (row, h, same, _) = claimed-candidate round db id won in
      let (there, active, free, unlocked, rest) = select_candidate_fifo text_le o round db row h in
      (
        row,
        there,
        same,
        active,
        subst (λ k. is_free round.now (lease_of k db) ≡ true) same free,
        subst (λ k. round.locked k ≡ false) same unlocked,
        subst (ComeAfter text_le round db row.created_at) same rest,
      )
