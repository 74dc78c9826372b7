-- ===== src/Database/Opening/Broken.antt =====
-- The constructor of `Database` where recovery refuses the log: a damaged record behind the whole
-- ones, or no index to use and bytes that read as a truncated record.
use zidanedb.Base.{
  ℕ, ◌+◌, ◌*◌, ◌^◌, ◌<◌, ◌≡◌, refl, Option, none, some, List, ◌++◌, arith, length, All, ne→==,
  length-append, bytes_eq_self,
}
use zidanedb.Base.Results.{ok, throws, db_corrupted, db_corrupted_rebuild}
use zidanedb.Constants.{codes, db_magic}
use zidanedb.Stream.{Bytes, stream}
use zidanedb.Stream.Positions.{drop_at}
use zidanedb.Utils.{string_size}
use zidanedb.Record.{Crc32c, Record, RecordRead, read_record}
use zidanedb.Record.Damaged.{Damaged, bad_key_length, bad_value_length, read_record-Damaged}
use zidanedb.Record.Sequence.{records_bytes, records_size, length-records_bytes, length_le}
use zidanedb.Record.RoundTrip.{Fits}
use zidanedb.Index.{Index, open_index}
use zidanedb.Database.{
  Database, CreateDirectory, made, RecoveryReason, ScanStatus, repair_tail, recover_records,
  end_of_log, make_temporary_index_location, staging_loop, rebuild_index_impl, rebuilt, open_db,
  first_offset, header_size, scan_result, recover_unclean, unopened, extension, open_existing,
  construct, open_database,
}
use zidanedb.Database.Replay.{growth, build_temporary-Ends}
use zidanedb.Database.Scan.{
  HasLog, Tail, Ends, bad_length, bad_checksum, bad_type, end_read, scan_records-Ends,
}
use zidanedb.Database.Opening.{log_header, length-log_header, session, no_recovery, load-log}
use zidanedb.Database.Opening.Recovered.{
  Unusable, missing, invalid, Unclean, torn_log, torn-HasLog, index_metadata_clean-Unclean,
}

-- What the scan makes of a damaged record.
pub data Damage : ScanStatus → Type 0 where
  length_damage : Damage ScanStatus.invalid_length
  checksum_damage : Damage ScanStatus.checksum_mismatch
  type_damage : Damage ScanStatus.invalid_type

Damaged-Ends :
    {crc : Crc32c} {tail : Bytes} {m : RecordRead}
    → Damaged crc tail m
    → (status : ScanStatus) × Ends m status × Damage status
Damaged-Ends (Damaged.bad_type b rest e) = (_, bad_type, type_damage)
Damaged-Ends (bad_key_length t len rest large lt) = (_, bad_length, length_damage)
Damaged-Ends (bad_value_length t key len rest le large lt) = (_, bad_length, length_damage)
Damaged-Ends (Damaged.bad_checksum r found rest fits lt differs) =
    (_, bad_checksum, checksum_damage)

refuses :
    (crc : Crc32c) {status : ScanStatus} (last start : ℕ) (d : Database)
    → Damage status
    → repair_tail crc (scan_result status last start) d ≡ (throws db_corrupted, d)
unfolding repair_tail scan_result
refuses crc last start d length_damage = refl
refuses crc last start d checksum_damage = refl
refuses crc last start d type_damage = refl

-- Where an open database has a log of whole records with a damaged record behind them,
-- `recover_records` throws that the file is corrupted, and nothing changes.
pub recover_records-Damaged :
    {crc : Crc32c} {d : Database} {header : Bytes} {rs : List Record} {tail : Bytes}
    {m : RecordRead} (create : ℕ → CreateDirectory)
    → HasLog crc d header rs tail
    → Damaged crc tail m
    → recover_records crc create d ≡ (throws db_corrupted, d)
unfolding recover_records
recover_records-Damaged {crc} {d} {header} {rs} create log damaged =
    let (status, ends, damage) = Damaged-Ends damaged in
    let read = read_record-Damaged crc (header_size d + records_size rs) damaged in
    rw (log.is_open, scan_records-Ends log read ends, refuses crc _ _ d damage) refl

-- Where the path ends in `.zdb`, the log is a valid header and whole records with a damaged record
-- behind them, shorter than 2^63 bytes, and the index file loads as an index that is not clean or not
-- caught up with the log, opening the database throws that the file is corrupted, and leaves both
-- files as they were.
pub open_database-Damaged :
    (crc : Crc32c) (create : ℕ → CreateDirectory) (n : ℕ) (path : Bytes) (rs : List Record)
    {tail : Bytes} {m : RecordRead} {ix : Index} {idx : Bytes}
    → extension path ≡ codes ".zdb"
    → open_index n (some idx) ≡ (ok ix, some idx)
    → Unclean ix (torn_log crc rs tail)
    → Damaged crc tail m
    → All Fits rs
    → length (torn_log crc rs tail) < 2 ^ 63
    → open_database crc create n path (some (torn_log crc rs tail)) (some idx) ≡ (
      throws db_corrupted,
      session (some (torn_log crc rs tail)) (some idx) (some ix) no_recovery,
    )
unfolding open_database construct open_existing recover_unclean unopened
open_database-Damaged crc create n path rs {tail} {ix = ix} {idx = idx} named opened unclean damaged
      fits small =
    rw
      (
        named,
        bytes_eq_self (codes ".zdb"),
        load-log (records_bytes crc rs ++ tail) (some idx),
        opened,
        index_metadata_clean-Unclean ix (torn_log crc rs tail) (some idx) no_recovery unclean,
        recover_records-Damaged create (torn-HasLog crc rs tail ix idx fits small) damaged,
      )
      refl

-- What no index can be built from: bytes that read as a truncated record, or a damaged one.
pub data Broken (crc : Crc32c) : Bytes → Type 0 where
  cut : {tail : Bytes} → Tail crc tail ScanStatus.truncated → Broken crc tail
  damaged : {tail : Bytes} {m : RecordRead} → Damaged crc tail m → Broken crc tail

stops :
    {status : ScanStatus}
    → Damage status
    → (f : Option Bytes) → end_of_log status f ≡ (throws db_corrupted_rebuild, f)
stops length_damage f = refl
stops checksum_damage f = refl
stops type_damage f = refl

Broken-Ends :
    {crc : Crc32c} {tail : Bytes} (pos : ℕ)
    → Broken crc tail
    → (m : RecordRead) × (status : ScanStatus) × (read_record crc (stream tail pos) ≡ m)
      × Ends m status
      × ((f : Option Bytes) → end_of_log status f ≡ (throws db_corrupted_rebuild, f))
Broken-Ends pos (cut t) =
    let (m, e, ends) = end_read pos t in (m, ScanStatus.truncated, e, ends, λ f. refl)
Broken-Ends {crc} pos (damaged d) =
    let (status, ends, damage) = Damaged-Ends d in
    (_, status, read_record-Damaged crc pos d, ends, stops damage)

module _ (crc : Crc32c) (create : ℕ → CreateDirectory) (n : ℕ) (rs : List Record) {tail : Bytes}
    (first : create 0 ≡ made) (pos : 0 < n) (lt : n < 2 ^ 59) (fits : All Fits rs)
    (broken : Broken crc tail) (small : length (torn_log crc rs tail) < 2 ^ 63)
    (room : 41 + 8 * n + growth rs < 2 ^ 63) where
  rebuild_index_impl-Broken :
      (idx : Option Bytes)
      → rebuild_index_impl crc create 0 n
          (session (some (torn_log crc rs tail)) idx none no_recovery)
        ≡ (throws db_corrupted_rebuild, session (some (torn_log crc rs tail)) idx none no_recovery)
  unfolding rebuild_index_impl open_db first_offset header_size make_temporary_index_location
      staging_loop string_size db_magic
  rebuild_index_impl-Broken idx =
      let size : length (torn_log crc rs tail) ≡ 24 + records_size rs + length tail = omega (
        arith,
        length-append log_header (records_bytes crc rs ++ tail),
        length-append (records_bytes crc rs) tail,
        length-records_bytes crc rs,
        length-log_header,
      ) in
      let (m, status, e, ends, stop) = Broken-Ends (24 + records_size rs) broken in
      let (w, build) =
        build_temporary-Ends crc n 24 rs tail (torn_log crc rs tail) pos lt fits
          (omega (arith, size, length_le rs)) (omega (arith, size, small)) room e ends in
      rw
        (
          drop_at log_header (records_bytes crc rs ++ tail) 24 (omega (arith, length-log_header)),
          first,
          build,
          stop (some w.file),
        )
        refl

  rebuilt-Broken :
      (idx : Option Bytes) (reason : RecoveryReason)
      → rebuilt crc create n reason (session (some (torn_log crc rs tail)) idx none no_recovery)
        ≡ (throws db_corrupted_rebuild, session (some (torn_log crc rs tail)) idx none no_recovery)
  unfolding rebuilt
  rebuilt-Broken idx reason = rw (rebuild_index_impl-Broken idx) refl

  open_existing-Broken :
      {idx : Option Bytes} {reason : RecoveryReason}
      → Unusable idx reason
      → open_existing crc create n (unopened (some (torn_log crc rs tail)) idx)
        ≡ (throws db_corrupted_rebuild, session (some (torn_log crc rs tail)) idx none no_recovery)
  unfolding open_existing open_index
  open_existing-Broken missing =
      rw
        (
          load-log (records_bytes crc rs ++ tail) none,
          rebuilt-Broken none RecoveryReason.missing_index,
        )
        refl
  open_existing-Broken (invalid {file} {e} bad caught) =
      rw
        (
          load-log (records_bytes crc rs ++ tail) (some file),
          ne→== n 0 (omega arith),
          bad,
          caught,
          rebuilt-Broken (some file) RecoveryReason.invalid_index,
        )
        refl

-- Where the path ends in `.zdb`, the log is a valid header and whole records with a damaged record
-- behind them or with bytes that read as a truncated one, shorter than 2^63 bytes, the index file
-- is missing or `load` refuses its header, the number of buckets is positive and below 2^59, the
-- temporary index file stays below 2^63 bytes and the first staging directory is made, opening the
-- database throws that no index can be built, and leaves both files as they were.
pub open_database-Unusable_Broken :
    (crc : Crc32c) (create : ℕ → CreateDirectory) (n : ℕ) (path : Bytes) (rs : List Record)
    {tail : Bytes} {idx : Option Bytes} {reason : RecoveryReason}
    → extension path ≡ codes ".zdb"
    → create 0 ≡ made
    → 0 < n
    → n < 2 ^ 59
    → Unusable idx reason
    → Broken crc tail
    → All Fits rs
    → length (torn_log crc rs tail) < 2 ^ 63
    → 41 + 8 * n + growth rs < 2 ^ 63
    → open_database crc create n path (some (torn_log crc rs tail)) idx
      ≡ (throws db_corrupted_rebuild, session (some (torn_log crc rs tail)) idx none no_recovery)
unfolding open_database construct unopened
open_database-Unusable_Broken crc create n path rs named first pos lt bad broken fits small room =
    rw
      (
        named,
        bytes_eq_self (codes ".zdb"),
        open_existing-Broken crc create n rs first pos lt fits broken small room bad,
      )
      refl
