-- ===== src/Database/Rebuild.antt =====
-- src/database.cpp: building a fresh index from the log, and recovery.
use zidanedb.Base.{ℕ, zero, suc, ◌+◌, ◌-◌, Option, none, some, length, take}
use zidanedb.Base.Results.{
  Result, ok, throws, diverges, stops_at, db_corrupted, db_corrupted_rebuild, staging_error,
  no_unique_staging_path,
}
use zidanedb.Base.Exec.{pure, raise, reads, ◌>>=◌, ◌>>◌}
use zidanedb.Stream.{Bytes, IStream}
use zidanedb.Record
use zidanedb.Record.{Crc32c, RecordType, put, delete, read_record}
use zidanedb.Index
use zidanedb.Index.{Index, FileExec, seek, open_index, set_indexed_up_to_offset}
use zidanedb.Database.State.{
  DbExec, ScanStatus, ScanResult, ensure_open, open_db, db_file_size, on_index, assign_index,
}
use zidanedb.Database.Log.{on_record, first_offset, scan_records}

-- What `std::filesystem::create_directory` answers for the candidate of an attempt, whose name is
-- random: it made the directory, the name was taken, or another error.
pub data CreateDirectory : Type 0 where
  made taken failed : CreateDirectory

-- An existing name is only a collision, so the loop tries another candidate.
abbrev on_attempt : CreateDirectory → (retry : Result (Unit {0})) → Result (Unit {0})
on_attempt made retry = ok tt
on_attempt taken retry = retry
on_attempt failed retry = throws staging_error

-- The loop of `make_temporary_index_location`, with the attempts that are left.
unfoldable pub staging_loop : ℕ → (ℕ → CreateDirectory) → (attempt : ℕ) → Result (Unit {0})
staging_loop zero create attempt = throws no_unique_staging_path
staging_loop (suc left) create attempt =
    on_attempt (create attempt) (staging_loop left create (attempt + 1))

-- The directory is new, so there is no file at the path of the temporary index.
unfoldable pub make_temporary_index_location : (ℕ → CreateDirectory) → Result (Unit {0})
unfolding staging_loop
make_temporary_index_location create = staging_loop 100 create 0

-- The switch in the loop of `rebuild_index_impl`, on the file of the temporary index.
unfoldable pub index_record : Index → Record.Record → (record_start : ℕ) → FileExec (Unit {0})
index_record ix r record_start = elim (r.type) [
  | put ↦ Index.set ix r.key record_start
  | delete ↦ (do Index.erase ix r.key; pure tt)
]

abbrev pub end_of_log : ScanStatus → FileExec (Unit {0})
end_of_log ScanStatus.success = pure tt
end_of_log _ = raise db_corrupted_rebuild

abbrev shortened : ℕ → Option Bytes → Option Bytes
shortened size none = none
shortened size (some file) = some (take size file)

-- `std::filesystem::resize_file(db_path_, size)`, which only shortens here
abbrev resize_file : ℕ → DbExec (Unit {0})
resize_file size d = (ok tt, record d { db_file = shortened size d.db_file })

module _ (crc : Crc32c) where
  -- The loop of `rebuild_index_impl`, with a round for each byte of the log.
  unfoldable pub rebuild_loop : ℕ → Index → IStream → (record_start : ℕ) → FileExec (Unit {0})
  unfolding index_record
  rebuild_loop zero ix s start =
      on_record (read_record crc s) (λ r s'. reads (λ _. diverges)) end_of_log
  rebuild_loop (suc fuel) ix s start =
      on_record (read_record crc s)
        (λ r s'. index_record ix r start >> rebuild_loop fuel ix s' s'.pos) end_of_log

  -- The inner block: it builds the temporary index, in a file of its own.
  unfoldable pub build_temporary : Bytes → IStream → ℕ → ℕ → FileExec (Unit {0})
  unfolding rebuild_loop
  build_temporary file s start bucket_count = do
    temporary_index ← open_index bucket_count
    rebuild_loop (length file) temporary_index s start

  -- `std::filesystem::rename(temporary.index_path, idx_path_)`. The handler removes the temporary
  -- file and rethrows, so a throw leaves the index file as it was.
  abbrev install : Result (Unit {0}) × Option Bytes → DbExec (Unit {0})
  install (ok _, temporary) d = (ok tt, record d { idx_file = temporary })
  install (throws e, temporary) d = (throws e, d)
  install (diverges, temporary) d = (diverges, d)
  install (stops_at name, temporary) d = (stops_at name, d)

  unfoldable pub rebuild_index_impl :
      (ℕ → CreateDirectory) → (start_offset bucket_count : ℕ) → DbExec (Unit {0})
  unfolding make_temporary_index_location build_temporary first_offset open_db db_file_size
  rebuild_index_impl create start_offset bucket_count = do
    file ← reads open_db
    start ← reads (λ d. ok (first_offset d start_offset))
    s ← reads (λ _. seek file start)
    reads (λ _. make_temporary_index_location create)
    install (build_temporary file s start bucket_count none)
    ix ← on_index (open_index bucket_count)
    assign_index ix
    size ← reads db_file_size
    ix ← on_index (set_indexed_up_to_offset ix size)
    assign_index ix

  unfoldable pub rebuild_index : (ℕ → CreateDirectory) → ℕ → DbExec (Unit {0})
  rebuild_index create start_offset = do
    ix ← reads ensure_open
    rebuild_index_impl create start_offset (Index.num_buckets ix)

  -- The switch of `recover_records`: the bytes that it cuts off.
  unfoldable pub repair_tail : ScanResult → DbExec ℕ
  repair_tail scan = elim (scan.status) [
    | ScanStatus.success ↦ pure 0
    | ScanStatus.truncated ↦ (do
      size ← reads db_file_size
      resize_file scan.failing_record_offset
      pure (size - scan.failing_record_offset))
    | _ ↦ raise db_corrupted
  ]

  unfoldable pub recover_records : (ℕ → CreateDirectory) → DbExec ℕ
  recover_records create = do
    reads ensure_open
    scan ← reads (λ d. scan_records crc d 0)
    truncated_bytes ← repair_tail scan
    rebuild_index create 0
    pure truncated_bytes
