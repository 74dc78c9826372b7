-- ===== src/Database/Methods.antt =====
-- src/database.cpp: the methods of an open database.
use zidanedb.Base.{
  ℕ, ◌+◌, Option, none, some, [], ◌++◌, Bool, true, false, ◌&&◌, ◌==◌, ltb, if◌then◌else◌, bytes_eq,
  length,
}
use zidanedb.Base.Results
use zidanedb.Base.Results.{
  Result, ok, throws, diverges, stops_at, could_not_open_db, key_too_large, value_too_large,
  cannot_get_record, record_type_not_put, record_key_differs, index_entry_missing,
  index_not_caught_up,
}
use zidanedb.Base.Exec.{pure, raise, reads, ◌>>=◌, ◌>>◌}
use zidanedb.Constants.{max_key_size, max_value_size}
use zidanedb.Stream.{Bytes}
use zidanedb.Record
use zidanedb.Record.{Crc32c, RecordType, RecordRead, read_record, serialize_record}
use zidanedb.Index
use zidanedb.Index.{
  Index, IndexStats, index_clean, seek, unless_throws, set_indexed_up_to_offset, set_index_clean,
}
use zidanedb.Database.State.{
  Database, DbExec, ensure_open, open_db, db_file_size, on_index, assign_index,
}

-- `get` on the record that it read
abbrev pub value_of : Bytes → Record.Record → Result Bytes
value_of key r = elim (r.type) [
  | RecordType.put ↦ if bytes_eq r.key key then ok r.value else throws record_key_differs
  | RecordType.delete ↦ throws record_type_not_put
]

abbrev pub got : Bytes → RecordRead → Result Bytes
got key (RecordRead.success r s) = value_of key r
got key _ = throws cannot_get_record

abbrev contents : Option Bytes → Bytes
contents none = []
contents (some file) = file

-- `file.write(...)` on an `ofstream` opened in append mode, which creates a missing file. The offsets
-- are `tellp()` before and behind the write, counted from the start of the file.
abbrev appended : Result Bytes → DbExec (ℕ × ℕ)
appended (ok bytes) d =
    let old = contents d.db_file in
    (ok (length old, length old + length bytes), record d { db_file = some (old ++ bytes) })
appended (throws e) d = (throws e, record d { db_file = some (contents d.db_file) })
appended diverges d = (diverges, d)
appended (stops_at name) d = (stops_at name, d)

module _ (crc : Crc32c) where
  -- The record that the index points at.
  unfoldable pub get_at : Bytes → Bytes → ℕ → Result (Option Bytes)
  get_at file key offset =
      Results.and_then (seek file offset)
        λ s. Results.and_then (got key (read_record crc s)) λ value. ok (some value)

  unfoldable pub look_up : Database → Bytes → Option ℕ → Result (Option Bytes)
  look_up d key none = ok none
  look_up d key (some offset) = Results.and_then (open_db d) λ file. get_at file key offset

  unfoldable pub get : Database → Bytes → Result (Option Bytes)
  get d key =
      Results.and_then (ensure_open d)
        λ ix. Results.and_then (Index.find ix d.idx_file key) λ offset. look_up d key offset

  -- Opening in append mode, `write_record`, and the flush.
  unfoldable pub append_record : Record.Record → DbExec (ℕ × ℕ)
  append_record r = appended (serialize_record crc r)

  -- `put` behind its checks.
  unfoldable pub put_record : Index → Bytes → Bytes → DbExec (Unit {0})
  put_record ix key val = do
    (db_start_offset, db_end_offset) ←
        append_record (record { type = RecordType.put; key = key; value = val })
    on_index (Index.set ix key db_start_offset)
    ix ← on_index (set_indexed_up_to_offset ix db_end_offset)
    assign_index ix

  unfoldable pub put : Bytes → Bytes → DbExec (Unit {0})
  put key val = do
    ix ← reads ensure_open
    if ltb max_key_size (length key)
        then raise key_too_large
        else if ltb max_value_size (length val)
        then raise value_too_large
        else put_record ix key val

  -- `erase` of a key that the index has.
  unfoldable pub erase_record : Index → Bytes → DbExec Bool
  erase_record ix key = do
    (_, db_end_offset) ← append_record (record { type = RecordType.delete; key = key; value = [] })
    erased ← on_index (Index.erase ix key)
    reads (λ _. unless_throws erased index_entry_missing tt)
    ix ← on_index (set_indexed_up_to_offset ix db_end_offset)
    assign_index ix
    pure true

  abbrev erase_found : Index → Bytes → Option ℕ → DbExec Bool
  erase_found ix key none = pure false
  erase_found ix key (some offset) = erase_record ix key

  unfoldable pub erase : Bytes → DbExec Bool
  erase key = do
    ix ← reads ensure_open
    exist ← reads (λ d. Index.find ix d.idx_file key)
    erase_found ix key exist

unfoldable pub get_index_stats : Database → Result IndexStats
unfolding ensure_open
get_index_stats d = Results.and_then (ensure_open d) λ ix. Index.stats ix d.idx_file

unfoldable pub index_metadata_clean : Database → Result Bool
unfolding ensure_open db_file_size index_clean
index_metadata_clean d = Results.and_then (ensure_open d) λ ix.
    Results.and_then (db_file_size d)
      λ size. ok (index_clean ix && size == Index.indexed_up_to_offset ix)

-- `close` behind its checks. `index_.reset()` and `closed_ = true` come last.
unfoldable pub mark_closed : Index → DbExec (Unit {0})
mark_closed ix = do
  on_index (set_index_clean ix true)
  λ d. (ok tt, record d { index = none; closed = true })

abbrev close_index : Option Index → DbExec (Unit {0})
close_index none = raise Results.database_closed
close_index (some ix) = do
  size ← reads db_file_size
  if size == Index.indexed_up_to_offset ix then mark_closed ix else raise index_not_caught_up

-- `close`. An object whose constructor returned has an index until it is closed; the source would
-- dereference a null pointer where the model throws for a missing index.
unfoldable pub close : DbExec (Unit {0})
unfolding mark_closed db_file_size
close d = (if d.closed then pure tt else close_index d.index) d

-- The destructor closes and swallows every exception.
unfoldable pub destroy : Database → Database
unfolding close
destroy d = (close d).1
