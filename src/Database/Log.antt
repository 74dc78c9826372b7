-- ===== src/Database/Log.antt =====
-- src/database.cpp: the header of the data log, and the scan over its records.
use zidanedb.Base.{
  ℕ, zero, suc, Option, none, some, [], ◌++◌, ◌==◌, if◌then◌else◌, bytes_eq, length,
}
use zidanedb.Base.Results.{
  Result, ok, throws, diverges, stops_at, ◌>>=◌, ◌>>◌, db_missing, invalid_db_magic,
  unsupported_db_version,
}
use zidanedb.Constants.{db_magic, db_version}
use zidanedb.Stream.{Bytes, IStream, stream}
use zidanedb.Utils.{read_string, read_uint32, write_string, write_uint32}
use zidanedb.Record
use zidanedb.Record.{Crc32c, RecordRead, read_record}
use zidanedb.Index.{expect, unless_throws, seek}
use zidanedb.Database.State.{
  Database, DbExec, ScanStatus, ScanResult, ensure_open, open_db, header_size,
}

-- The reads of `load`.
unfoldable pub load_header : Bytes → Result (Bytes × ℕ)
load_header file = do
  (magic, s) ← expect (read_string (stream file 0) (length db_magic)) invalid_db_magic
  magic ← unless_throws (bytes_eq magic db_magic) invalid_db_magic magic
  (version, s) ← expect (read_uint32 s) unsupported_db_version
  version ← unless_throws (version == db_version) unsupported_db_version version
  ok (magic, version)

abbrev loaded : Database → Result (Bytes × ℕ) → Result (Unit {0}) × Database
loaded d (ok (magic, version)) = (ok tt, record d { magic = magic; version = version })
loaded d (throws e) = (throws e, d)
loaded d diverges = (diverges, d)
loaded d (stops_at name) = (stops_at name, d)

abbrev load_file : Option Bytes → Result (Bytes × ℕ)
load_file none = throws db_missing
load_file (some file) = load_header file

-- `load`. What it stores in `magic_` and `version_` before a throw is never read.
unfoldable pub load : DbExec (Unit {0})
unfolding load_header
load d = loaded d (load_file d.db_file)

abbrev created : Database → Result Bytes → Result (Unit {0}) × Database
created d (ok magic) = (ok tt, record d { db_file = some (magic ++ write_uint32 db_version) })
created d (throws e) = (throws e, record d { db_file = some [] })
created d diverges = (diverges, d)
created d (stops_at name) = (stops_at name, d)

-- `setup`, which returns at once where there is a file
abbrev setup_file : Option Bytes → DbExec (Unit {0})
setup_file (some file) d = (ok tt, d)
setup_file none d =
    created (record d { magic = db_magic; version = db_version })
      (write_string db_magic (length db_magic))

unfoldable pub setup : DbExec (Unit {0})
setup d = setup_file d.db_file d

-- The switch behind the loop of `scan_records`.
unfoldable pub scan_result : ScanStatus → (last_valid record_start : ℕ) → ScanResult
scan_result ScanStatus.success last start = record {
  status = ScanStatus.success;
  last_valid_record_offset = last;
  failing_record_offset = 0;
}
scan_result status last start = record {
  status = status;
  last_valid_record_offset = last;
  failing_record_offset = start;
}

-- What the loops of `scan_records` and `rebuild_index_impl` do with the record that was read, or
-- with the status that ends them.
abbrev pub on_record {ℓ} :
    {A : Type ℓ} → RecordRead → (Record.Record → IStream → A) → (ScanStatus → A) → A
on_record (RecordRead.success r s) go stop = go r s
on_record RecordRead.end_of_file go stop = stop ScanStatus.success
on_record RecordRead.truncated go stop = stop ScanStatus.truncated
on_record RecordRead.invalid_length go stop = stop ScanStatus.invalid_length
on_record RecordRead.checksum_mismatch go stop = stop ScanStatus.checksum_mismatch
on_record RecordRead.invalid_type go stop = stop ScanStatus.invalid_type

-- `start_offset == 0` stands for the end of the header.
unfoldable pub first_offset : Database → ℕ → ℕ
first_offset d start_offset = if start_offset == 0 then header_size d else start_offset

module _ (crc : Crc32c) where
  -- The loop of `scan_records`. A record takes a byte at least, so a round for each byte is enough.
  unfoldable pub scan_loop : ℕ → IStream → (last_valid record_start : ℕ) → Result ScanResult
  unfolding scan_result
  scan_loop zero s last start =
      on_record (read_record crc s) (λ r s'. diverges)
        (λ status. ok (scan_result status last start))
  scan_loop (suc fuel) s last start =
      on_record (read_record crc s) (λ r s'. scan_loop fuel s' start s'.pos)
        (λ status. ok (scan_result status last start))

  unfoldable pub scan_records : Database → ℕ → Result ScanResult
  unfolding scan_loop first_offset
  scan_records d start_offset = do
    ensure_open d
    file ← open_db d
    let start = first_offset d start_offset
    s ← seek file start
    scan_loop (length file) s 0 start
