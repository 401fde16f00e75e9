-- ===== src/Storage/Collections.antt =====
-- storage/postgres.py: a collection's row, read and written by calls with no lease.
use argus_web_intelligence.Prelude.{
  String, Bool, ◌&&◌, ◌||◌, not, List, Option, none, some, String_eq, ◌==◌, ◌≡◌,
}
use argus_web_intelligence.Prelude.Action.{Result, ok, err}
use argus_web_intelligence.Sql.{find, insert, update_where}
use argus_web_intelligence.Contracts.{CollectionRecord, is_cancelled}
use mathlib.Core.Option
use argus_web_intelligence.Storage.{
  Database, CollectionRow, CollectionRow_key, Storage, StorageError, unique_violation,
}

-- The columns of a record's row.
unfoldable pub row_of : CollectionRecord → CollectionRow
row_of r = record {
  collection_id = r.collection_id;
  status = r.status;
  body = r;
  created_at = r.created_at;
  updated_at = r.updated_at;
}

-- The columns and the body agree: what the writers below keep of every row.
pub record IsFaithful (row : CollectionRow) : Type 0 where
  pub same_id : row.collection_id ≡ row.body.collection_id
  pub same_status : row.status ≡ row.body.status

stored : Database → Option (List CollectionRow) → Result StorageError (Unit {0}) × Database
stored db none = (err unique_violation, db)
stored db (some rows) = (ok tt, record db { collections = rows })

-- PostgresRepository.create_collection
unfoldable pub create_collection : CollectionRecord → Storage (Unit {0})
unfolding stored row_of
create_collection r db = stored db (insert (row_of r) db.collections)

-- PostgresRepository.get_collection
unfoldable pub get_collection : String → Storage (Option CollectionRecord)
get_collection id db =
    (ok (Option.map (λ (row : CollectionRow). row.body) (find id db.collections)), db)

-- SET status=%s, body=%s, updated_at=%s
unfoldable pub overwrite : CollectionRecord → CollectionRow → CollectionRow
overwrite r row = record row { status = r.status; body = r; updated_at = r.updated_at }

-- `collection_id=%s AND (status <> 'cancelled' OR %s = 'cancelled')`
unfoldable pub accepts_update : CollectionRecord → CollectionRow → Bool
accepts_update r row =
    row.collection_id == r.collection_id && (not (is_cancelled row.status) || is_cancelled r.status)

-- PostgresRepository.update_collection
unfoldable pub update_collection : CollectionRecord → Storage (Unit {0})
unfolding overwrite accepts_update
update_collection r db = (
  ok tt,
  record db { collections = update_where (accepts_update r) (overwrite r) db.collections },
)
