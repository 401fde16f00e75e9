-- ===== src/Storage/Reads.antt =====
-- storage/postgres.py and fenced_postgres.py: the calls that list rows. The order of texts is the
-- database's collation.
use argus_web_intelligence.Prelude.{
  String, Bool, true, List, [], ◌∷◌, Option, none, String_eq, ◌==◌, ◌≡◌, ◌↔◌, refl, Bool-cases,
  Option-cases, subst, inl, inr, All, All-keep_inv, keep, map, leb,
}
use argus_web_intelligence.Prelude.Action.{ok, through}
use argus_web_intelligence.Prelude.Order.{order_by, first_row, All-order_by, All-order_by_inv}
use argus_web_intelligence.Sql.{select_limit}
use argus_web_intelligence.Contracts.{CollectionRecord, Observation, Evidence, Snapshot, is_active}
use argus_web_intelligence.Storage.{
  Database, CollectionRow, ItemRow, SnapshotRow, Storage, StorageError,
}
use argus_web_intelligence.Storage.Fencing.{LeaseFence, current_lease_fence}
use argus_web_intelligence.Storage.Recipes.{seen}
use mathlib.Core.Option

-- PostgresRepository.list_recoverable_collections
unfoldable pub list_recoverable_collections : Storage (List CollectionRecord)
list_recoverable_collections db = (
  ok (
      map (λ (row : CollectionRow). row.body)
        (order_by (λ a b. leb a.created_at b.created_at)
          (keep (λ row. is_active row.status) db.collections))),
  db,
)

-- PostgresRepository.latest_snapshot, by FencedPostgresRepository.latest_snapshot
unfoldable pub latest_snapshot :
    Option LeaseFence → Option StorageError → String → Storage (Option Snapshot)
unfolding seen
latest_snapshot fence outage source_url db =
    let newest = λ (a b : SnapshotRow). leb b.collected_at a.collected_at in
    seen fence (
      through outage
        (λ s. (
          ok (
              Option.map (λ (row : SnapshotRow). row.body)
                (first_row newest
                  (select_limit (λ row. row.source_url == source_url) newest 1 s.snapshots))),
          s,
        ))
        db)

module _ (text_le : String → String → Bool) where
  -- PostgresRepository._list_collection_json: the bodies in the order of the identifiers
  unfoldable pub listed : {Body : Type 0} → String → List (ItemRow Body) → List Body
  listed collection_id rows =
      map (λ row. row.body)
        (order_by (λ a b. text_le a.item_id b.item_id)
          (keep (λ row. row.collection_id == collection_id) rows))

  -- FencedPostgresRepository.list_observations
  unfoldable pub list_observations :
      Option LeaseFence → Option StorageError → String → Storage (List Observation)
  unfolding listed seen
  list_observations context outage collection_id db =
      seen (current_lease_fence context collection_id)
        (through outage (λ s. (ok (listed collection_id s.observations), s)) db)

  -- FencedPostgresRepository.list_evidence
  unfoldable pub list_evidence :
      Option LeaseFence → Option StorageError → String → Storage (List Evidence)
  unfolding listed seen
  list_evidence context outage collection_id db =
      seen (current_lease_fence context collection_id)
        (through outage (λ s. (ok (listed collection_id s.evidence), s)) db)

All-map_iff :
    {A B : Type 0} (f : A → B) (P : B → Type 0) (xs : List A)
    → All P (map f xs) ↔ All (λ x. P (f x)) xs
All-map_iff f P [] = ((λ _. tt), (λ _. tt))
All-map_iff f P (x ∷ xs) =
    let (there, back) = All-map_iff f P xs in ((λ h. (h.0, there h.1)), (λ h. (h.0, back h.1)))

All-keep_of :
    {A : Type 0} (p : A → Bool) (P : A → Type 0) (xs : List A)
    → All (λ x. p x ≡ true → P x) xs
    → All P (keep p xs)
All-keep_of p P [] h = tt
All-keep_of p P (x ∷ xs) (h, hs) = elim (Bool-cases (p x)) [
  | inl e ↦ rw e (h e, All-keep_of p P xs hs)
  | inr e ↦ rw e (All-keep_of p P xs hs)
]

-- What is selected and sorted has a property just when each row that passes the test has it.
selected_iff :
    {A B : Type 0} (f : A → B) (le : A → A → Bool) (p : A → Bool) (P : B → Type 0) (xs : List A)
    → All P (map f (order_by le (keep p xs))) ↔ All (λ x. p x ≡ true → P (f x)) xs
selected_iff f le p P xs =
    let sorted = order_by le (keep p xs) in
    let (there, back) = All-map_iff f P sorted in
    (
      (λ h.
          All-keep_inv (λ x. P (f x)) p xs
            (All-order_by_inv le (λ x. P (f x)) (keep p xs) (there h))),
      (λ h. back (All-order_by le (λ x. P (f x)) (keep p xs) (All-keep_of p (λ x. P (f x)) xs h))),
    )

-- The recoverable collections have a property just when every stored collection that is queued or
-- running has it: none of these is left out, and no other is listed.
list_recoverable_collections_lem :
    (P : CollectionRecord → Type 0) (db : Database) (rs : List CollectionRecord)
    → (list_recoverable_collections db).0 ≡ ok rs
    → All P rs
      ↔ All (λ (row : CollectionRow). is_active row.status ≡ true → P row.body) db.collections
unfolding list_recoverable_collections
list_recoverable_collections_lem P db rs e =
    let rows =
      map (λ (row : CollectionRow). row.body)
        (order_by (λ a b. leb a.created_at b.created_at)
          (keep (λ row. is_active row.status) db.collections)) in
    let same : rows ≡ rs = cc in
    subst
      (λ qs.
        All P qs
        ↔ All (λ (row : CollectionRow). is_active row.status ≡ true → P row.body) db.collections)
      same (selected_iff _ _ _ P db.collections)

list_observations-ok :
    (text_le : String → String → Bool) (context : Option LeaseFence) (id : String) (db : Database)
    → (list_observations text_le context none id db).0 ≡ ok (listed text_le id db.observations)
unfolding list_observations
list_observations-ok text_le context id db = elim (Option-cases (current_lease_fence context id)) [
  | inl free ↦ rw free refl
  | inr (fence, mine) ↦ rw mine refl
]

-- The observations that a call lists for a collection have a property just when every stored
-- observation of the collection has it.
list_observations_lem :
    (text_le : String → String → Bool) (context : Option LeaseFence) (id : String)
    (P : Observation → Type 0) (db : Database) (os : List Observation)
    → (list_observations text_le context none id db).0 ≡ ok os
    → All P os
      ↔ All
          (λ (row : ItemRow Observation). (row.collection_id == id) ≡ true → P row.body)
          db.observations
unfolding listed
list_observations_lem text_le context id P db os e =
    let rows = listed text_le id db.observations in
    let answer = list_observations-ok text_le context id db in
    let same : rows ≡ os = cc in
    subst
      (λ qs.
        All P qs
        ↔ All (λ (row : ItemRow Observation). (row.collection_id == id) ≡ true → P row.body)
            db.observations)
      same
      (selected_iff (λ (row : ItemRow Observation). row.body) (λ a b. text_le a.item_id b.item_id)
        (λ row. row.collection_id == id) P db.observations)
