-- ===== src/Storage/Commits/Rows.antt =====
-- The rows after the INSERT loops of a task commit.
use argus_web_intelligence.Prelude.{
  String, true, List, [], ◌∷◌, none, some, String_eq, ◌≡◌, refl, arith, eq_iff, eq_refl, All,
  is_some, ap, ◌∙◌,
}
use argus_web_intelligence.Sql.{find, Unique, insert_or_replace, insert_or_ignore, upsert}
use argus_web_intelligence.Contracts.{Snapshot}
use argus_web_intelligence.Storage.{ItemRow, ItemRow_key, SnapshotRow, SnapshotRow_key}
use argus_web_intelligence.Storage.Fencing.{snapshot_row}
use argus_web_intelligence.Sql.Laws.{find-insert_or_replace_self, find-insert_or_replace_ne}
use argus_web_intelligence.Storage.Commits.{commit_items, commit_snapshots}

module _ {Body : Type 0} where
  abbrev pub IsStored : List (ItemRow Body) → ItemRow Body → Type 0
  IsStored rows i = find i.item_id rows ≡ some i

  commit_items-other :
      (is rows : List (ItemRow Body)) (k : String)
      → find k is ≡ none
      → find k (commit_items is rows) ≡ find k rows
  unfolding commit_items find
  commit_items-other [] rows k e = refl
  commit_items-other (i ∷ is) rows k e = ground (
    arith,
    eq_iff i.item_id k,
    commit_items-other is (insert_or_replace i rows) k,
    find-insert_or_replace_ne i rows k,
  )

  -- Every item of a commit is found under its identifier, if the identifiers differ.
  pub commit_items-IsStored :
      (is rows : List (ItemRow Body)) → Unique is → All (IsStored (commit_items is rows)) is
  unfolding commit_items
  commit_items-IsStored [] rows u = tt
  commit_items-IsStored (i ∷ is) rows u = (
    commit_items-other is (insert_or_replace i rows) i.item_id u.0
        ∙ find-insert_or_replace_self i rows,
    commit_items-IsStored is (insert_or_replace i rows) u.1,
  )

  insert_or_replace-stored :
      (i : ItemRow Body) (rows : List (ItemRow Body))
      → IsStored rows i
      → insert_or_replace i rows ≡ rows
  unfolding insert_or_replace upsert find
  insert_or_replace-stored i [] e = cc
  insert_or_replace-stored i (r ∷ rs) e = ground (arith, insert_or_replace-stored i rs)

  -- Items that are stored already are stored again with no effect.
  pub commit_items-again :
      (is rows : List (ItemRow Body)) → All (IsStored rows) is → commit_items is rows ≡ rows
  unfolding commit_items
  commit_items-again [] rows h = refl
  commit_items-again (i ∷ is) rows h =
      ap (commit_items is) (insert_or_replace-stored i rows h.0) ∙ commit_items-again is rows h.1

abbrev pub HasSnapshot : List SnapshotRow → Snapshot → Type 0
HasSnapshot rows s = is_some (find s.snapshot_id rows) ≡ true

insert_or_ignore-HasSnapshot :
    (s s' : Snapshot) (rows : List SnapshotRow)
    → HasSnapshot rows s'
    → HasSnapshot (insert_or_ignore (snapshot_row s) rows).0 s'
unfolding insert_or_ignore upsert find
insert_or_ignore-HasSnapshot s s' [] h = ground arith
insert_or_ignore-HasSnapshot s s' (r ∷ rs) h = ground (arith, insert_or_ignore-HasSnapshot s s' rs)

insert_or_ignore-HasSnapshot_self :
    (s : Snapshot) (rows : List SnapshotRow)
    → HasSnapshot (insert_or_ignore (snapshot_row s) rows).0 s
unfolding insert_or_ignore upsert find
insert_or_ignore-HasSnapshot_self s [] = ground (arith, eq_refl s.snapshot_id)
insert_or_ignore-HasSnapshot_self s (r ∷ rs) =
    ground (arith, insert_or_ignore-HasSnapshot_self s rs)

commit_snapshots-HasSnapshot :
    (ss : List Snapshot) (rows : List SnapshotRow) (s : Snapshot)
    → HasSnapshot rows s
    → HasSnapshot (commit_snapshots ss rows) s
unfolding commit_snapshots
commit_snapshots-HasSnapshot [] rows s h = h
commit_snapshots-HasSnapshot (x ∷ ss) rows s h =
    commit_snapshots-HasSnapshot ss (insert_or_ignore (snapshot_row x) rows).0 s
      (insert_or_ignore-HasSnapshot x s rows h)

pub commit_snapshots-All :
    (ss : List Snapshot) (rows : List SnapshotRow) → All (HasSnapshot (commit_snapshots ss rows)) ss
unfolding commit_snapshots
commit_snapshots-All [] rows = tt
commit_snapshots-All (s ∷ ss) rows = (
  commit_snapshots-HasSnapshot ss (insert_or_ignore (snapshot_row s) rows).0 s
      (insert_or_ignore-HasSnapshot_self s rows),
  commit_snapshots-All ss (insert_or_ignore (snapshot_row s) rows).0,
)

insert_or_ignore-present :
    (s : Snapshot) (rows : List SnapshotRow)
    → HasSnapshot rows s
    → (insert_or_ignore (snapshot_row s) rows).0 ≡ rows
unfolding insert_or_ignore upsert find
insert_or_ignore-present s [] h = cc
insert_or_ignore-present s (r ∷ rs) h = ground (arith, insert_or_ignore-present s rs)

pub commit_snapshots-again :
    (ss : List Snapshot) (rows : List SnapshotRow)
    → All (HasSnapshot rows) ss
    → commit_snapshots ss rows ≡ rows
unfolding commit_snapshots
commit_snapshots-again [] rows h = refl
commit_snapshots-again (s ∷ ss) rows h =
    ap (commit_snapshots ss) (insert_or_ignore-present s rows h.0)
    ∙ commit_snapshots-again ss rows h.1
