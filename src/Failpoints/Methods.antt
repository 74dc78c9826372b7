-- ===== src/Failpoints/Methods.antt =====
-- src/failpoints.h, and the functions of src/index.cpp and src/database.cpp that have failpoints, as
-- the build with ZIDANEDB_ENABLE_FAILPOINTS compiles them. `requested` is what `std::getenv` answers
-- for ZIDANEDB_FAILPOINT. `raise(SIGSTOP)` stops the process: nothing behind it happens, and the
-- result is `stops_at` with the name of the failpoint. Two failpoints of `Index::set` stand between a
-- write and the flush of its stream; `early` says whether the stream's buffer reached the file before
-- the flush.
use zidanedb.Base.{
  ℕ, ◌+◌, Option, none, some, Bool, true, false, ◌==◌, ltb, if◌then◌else◌, bytes_eq, length,
}
use zidanedb.Base.Results.{
  ok, stops_at, key_too_large, value_too_large, index_not_caught_up, database_closed,
}
use zidanedb.Base.Exec.{Exec, pure, raise, reads, ◌>>=◌, ◌>>◌}
use zidanedb.Constants.{codes, max_key_size, max_value_size}
use zidanedb.Stream.{Bytes}
use zidanedb.Utils.{write_uint64, write_string}
use zidanedb.Record.{Crc32c, RecordType}
use zidanedb.Index.{
  Index, EntryLocation, FileExec, find_entry_offset, open_file, seekp, write_file,
  set_indexed_up_to_offset, set_index_clean,
}
use zidanedb.Database.{DbExec, ensure_open, db_file_size, on_index, assign_index, append_record}

unfoldable pub is_requested : Option Bytes → Bytes → Bool
is_requested none name = false
is_requested (some requested) name = bytes_eq name requested

unfoldable pub failpoint : {S : Type 0} → Option Bytes → Bytes → Exec S (Unit {0})
failpoint requested name s = if is_requested requested name then (stops_at name, s) else (ok tt, s)

module _ (requested : Option Bytes) (early : Bool) where
  -- A write that is still in the buffer of its stream at the failpoint behind it.
  unfoldable pub buffered : FileExec (Unit {0}) → Bytes → FileExec (Unit {0})
  buffered write name file =
      if is_requested requested name
      then (stops_at name, if early then (write file).1 else file)
      else write file

  -- The branch of `Index::set` that appends a new entry.
  unfoldable pub append_entry : Bytes → EntryLocation → Bytes → ℕ → FileExec (Unit {0})
  append_entry file offsets key db_offset = do
    let new_offset = length file
    write_file new_offset (write_uint64 db_offset)
    write_file (new_offset + 8) (write_uint64 offsets.chain_offset)
    key_bytes ← reads (λ _. write_string key max_key_size)
    write_file (new_offset + 16) key_bytes
    failpoint requested (codes "before_update_bucket_head")
    seekp offsets.bucket_offset
    buffered (write_file offsets.bucket_offset (write_uint64 new_offset))
        (codes "after_update_bucket_head")

  -- The branch that replaces the offset of an entry.
  unfoldable pub replace_entry : EntryLocation → ℕ → FileExec (Unit {0})
  replace_entry offsets db_offset = do
    seekp offsets.entry_offset
    buffered (write_file offsets.entry_offset (write_uint64 db_offset))
        (codes "after_modify_existing_entry")

  unfoldable pub set : Index → Bytes → ℕ → FileExec (Unit {0})
  set ix key db_offset = if ltb max_key_size (length key) then raise key_too_large else do
    file ← open_file
    offsets ← reads (λ _. find_entry_offset ix file key)
    if offsets.entry_offset == 0
        then append_entry file offsets key db_offset
        else replace_entry offsets db_offset

  module _ (crc : Crc32c) where
    -- `Database::put` behind its checks.
    unfoldable pub put_record : Index → Bytes → Bytes → DbExec (Unit {0})
    put_record ix key val = do
      failpoint requested (codes "before_db_append")
      (db_start_offset, db_end_offset) ←
          append_record crc (record { type = RecordType.put; key = key; value = val })
      failpoint requested (codes "after_db_append")
      on_index (set ix key db_start_offset)
      failpoint requested (codes "before_update_indexed_up_to_offset")
      ix ← on_index (set_indexed_up_to_offset ix db_end_offset)
      assign_index ix
      failpoint requested (codes "after_update_indexed_up_to_offset")

    unfoldable pub put : Bytes → Bytes → DbExec (Unit {0})
    put key val = do
      ix ← reads ensure_open
      if ltb max_key_size (length key)
          then raise key_too_large
          else if ltb max_value_size (length val)
          then raise value_too_large
          else put_record ix key val

-- `Database::close` behind its checks.
module _ (requested : Option Bytes) where
  unfoldable pub mark_closed : Index → DbExec (Unit {0})
  mark_closed ix = do
    failpoint requested (codes "before_set_index_clean")
    on_index (set_index_clean ix true)
    λ d. (ok tt, record d { index = none; closed = true })
    failpoint requested (codes "clean_db_close")

  abbrev close_index : Option Index → DbExec (Unit {0})
  close_index none = raise database_closed
  close_index (some ix) = do
    size ← reads db_file_size
    if size == Index.indexed_up_to_offset ix then mark_closed ix else raise index_not_caught_up

  unfoldable pub close : DbExec (Unit {0})
  close d = (if d.closed then pure tt else close_index d.index) d
