-- ===== src/Database/Opening/Recovered.antt =====
-- The constructor of `Database` on a log whose index is missing, invalid or not clean: after a crash,
-- or after the loss of the index file.
use zidanedb.Base.{
  ℕ, ◌+◌, ◌*◌, ◌^◌, ◌≤◌, ◌<◌, ◌≡◌, ◌≢◌, ◌⊎◌, refl, ap, ◌∙◌, Option, none, some, List, ◌++◌, Bool,
  true, false, arith, length, All, ne→==, inl, inr, length-append,
}
use zidanedb.Base.Results.{Exception, ok, throws, is_invalid_index}
use zidanedb.Constants.{codes, db_magic}
use zidanedb.Stream.{Bytes}
use zidanedb.Utils.{string_size}
use zidanedb.Record.{Crc32c, Record}
use zidanedb.Record.RoundTrip.{Fits}
use zidanedb.Record.Sequence.{records_bytes}
use zidanedb.Index.{Index, fresh_index, open_index, load}
use zidanedb.Index.Represents.{Holds}
use zidanedb.Database.{
  Database, CreateDirectory, made, RecoveryReason, RecoveryReport, ScanStatus, ensure_open,
  header_size, unopened, extension, index_metadata_clean, rebuilt, recover_unclean, open_existing,
  open_database,
}
use zidanedb.Database.Replay.{growth, replay}
use zidanedb.Database.Scan.{HasLog, Tail}
use zidanedb.Database.Recovery.{
  caught_up, log_of, rebuild_index_impl-records, recover_records-HasLog,
}
use zidanedb.Database.Contents.{StoresSized}
use zidanedb.Database.Opening.{
  log_header, length-log_header, session, no_recovery, full_rebuild, load-log, mark_unclean-Holds,
  open_database-existing, session-Stores,
}

-- An index file from which nothing is read, with what the report says of it: there is none, or `load`
-- refuses its header.
pub data Unusable : Option Bytes → RecoveryReason → Type 0 where
  missing : Unusable none RecoveryReason.missing_index
  invalid :
      {file : Bytes} {e : Exception}
      → load file ≡ throws e
      → is_invalid_index e ≡ true
      → Unusable (some file) RecoveryReason.invalid_index

module _ (crc : Crc32c) (create : ℕ → CreateDirectory) (n : ℕ) (rs : List Record)
    (first : create 0 ≡ made) (fits : All Fits rs) where
  rebuilt-records :
      (idx : Option Bytes) (reason : RecoveryReason)
      → 0 < n
      → n < 2 ^ 59
      → length (log_of crc log_header rs) < 2 ^ 63
      → 41 + 8 * n + growth rs < 2 ^ 63
      → (idx' : Bytes) × Holds
          (caught_up n (log_of crc log_header rs))
          idx'
          (replay (λ key. none) 24 rs)
        × (rebuilt crc create n reason
              (session (some (log_of crc log_header rs)) idx none no_recovery)
            ≡ (
              ok true,
              session
                  (some (log_of crc log_header rs))
                  (some idx')
                  (some (caught_up n (log_of crc log_header rs)))
                  (full_rebuild reason 0),
            ))
        × (length idx' ≤ 41 + 8 * n + growth rs)
  unfolding rebuilt header_size string_size db_magic
  rebuilt-records idx reason pos lt small room =
      let (idx', holds, run, size) =
        rebuild_index_impl-records crc n
          (session (some (log_of crc log_header rs)) idx none no_recovery) log_header rs create
          first pos lt (omega (arith, length-log_header)) fits small room in
      (idx', holds, rw run refl, size)

  open_existing-Unusable :
      {idx : Option Bytes} {reason : RecoveryReason}
      → Unusable idx reason
      → 0 < n
      → n < 2 ^ 59
      → length (log_of crc log_header rs) < 2 ^ 63
      → 41 + 8 * n + growth rs < 2 ^ 63
      → (idx' : Bytes) × Holds
          (caught_up n (log_of crc log_header rs))
          idx'
          (replay (λ key. none) 24 rs)
        × (open_existing crc create n (unopened (some (log_of crc log_header rs)) idx) ≡ (
          ok tt,
          session
              (some (log_of crc log_header rs))
              (some idx')
              (some (caught_up n (log_of crc log_header rs)))
              (full_rebuild reason 0),
        ))
        × (length idx' ≤ 41 + 8 * n + growth rs)
  unfolding open_existing recover_unclean open_index
  open_existing-Unusable missing pos lt small room =
      let (idx', holds, run, size) =
        rebuilt-records none RecoveryReason.missing_index pos lt small room in
      (idx', holds, rw (load-log (records_bytes crc rs) none, run) refl, size)
  open_existing-Unusable (invalid {file} {e} bad caught) pos lt small room =
      let (idx', holds, run, size) =
        rebuilt-records (some file) RecoveryReason.invalid_index pos lt small room in
      (
        idx',
        holds,
        rw (load-log (records_bytes crc rs) (some file), ne→== n 0 (omega arith), bad, caught, run)
            refl,
        size,
      )

-- Where the path ends in `.zdb`, the log is a valid header and whole records, shorter than 2^63
-- bytes, the index file is missing or `load` refuses its header, the number of buckets is positive
-- and below 2^59, the new index file stays below 2^63 bytes and the first staging directory is
-- made, opening the database returns; it stores the records of the log, in an index file of that
-- number of buckets with at most 20 bytes and the key for each record behind them, and the report
-- tells why the index was built again, and of no bytes that were cut off.
pub open_database-Unusable :
    (crc : Crc32c) (create : ℕ → CreateDirectory) (n : ℕ) (path : Bytes) (rs : List Record)
    {idx : Option Bytes} {reason : RecoveryReason}
    → extension path ≡ codes ".zdb"
    → create 0 ≡ made
    → 0 < n
    → n < 2 ^ 59
    → Unusable idx reason
    → All Fits rs
    → length (log_of crc log_header rs) < 2 ^ 63
    → 41 + 8 * n + growth rs < 2 ^ 63
    → (d : Database) × (open_database crc create n path (some (log_of crc log_header rs)) idx
        ≡ (ok tt, d))
      × StoresSized crc d log_header rs n (41 + 8 * n + growth rs)
      × (d.report ≡ full_rebuild reason 0)
unfolding open_index session-Stores fresh_index
open_database-Unusable crc create n path rs {idx} {reason} named first pos lt bad fits small room =
    let log = log_of crc log_header rs in
    let (idx', holds, run, size) =
      open_existing-Unusable crc create n rs first fits bad pos lt small room in
    let (idx'', marked, holds', same) =
      mark_unclean-Holds (some log) (full_rebuild reason 0) holds in
    (
      _,
      open_database-existing crc create n path named log idx run ∙ marked,
      (
        session-Stores (full_rebuild reason 0) holds' refl refl refl small fits,
        refl,
        omega (arith, same, size),
      ),
      refl,
    )

-- The index is not that of a clean close: its flag is not set, or it is not caught up.
abbrev pub Unclean : Index → Bytes → Type 0
Unclean ix log = (ix.index_clean ≢ 1) ⊎ (ix.indexed_up_to_offset ≢ length log)

pub index_metadata_clean-Unclean :
    (ix : Index) (log : Bytes) (idx : Option Bytes) (report : RecoveryReport)
    → Unclean ix log
    → index_metadata_clean (session (some log) idx (some ix) report) ≡ ok false
unfolding index_metadata_clean
index_metadata_clean-Unclean ix log idx report (inl h) = rw (ne→== ix.index_clean 1 h) refl
index_metadata_clean-Unclean ix log idx report (inr h) = ap (λ (b : Bool). ok b) (ground arith)

-- A log with a tail behind its records.
abbrev pub torn_log : Crc32c → List Record → Bytes → Bytes
torn_log crc rs tail = log_header ++ (records_bytes crc rs ++ tail)

pub torn-HasLog :
    (crc : Crc32c) (rs : List Record) (tail : Bytes) (ix : Index) (idx : Bytes)
    → All Fits rs
    → length (torn_log crc rs tail) < 2 ^ 63
    → HasLog crc
        (session (some (torn_log crc rs tail)) (some idx) (some ix) no_recovery)
        log_header
        rs
        tail
unfolding ensure_open header_size string_size db_magic
torn-HasLog crc rs tail ix idx fits small = record {
  index = ix;
  is_open = refl;
  file = refl;
  header_length = omega (arith, length-log_header);
  small = small;
  fits = fits;
}

-- Where the path ends in `.zdb`, the log is a valid header and whole records with a tail that is
-- empty or reads as truncated, shorter than 2^63 bytes, the index file loads as an index that is not
-- clean or not caught up with the log, with a positive number of buckets below 2^59, the new index
-- file stays below 2^63 bytes and the first staging directory is made, opening the database
-- returns; it stores the whole records of the log, in an index file of the old number of buckets with
-- at most 20 bytes and the key for each record behind them, and the report tells of an unclean index
-- and of the length of the tail, which was cut off.
pub open_database-Unclean :
    (crc : Crc32c) (create : ℕ → CreateDirectory) (n : ℕ) (path : Bytes) (rs : List Record)
    (tail : Bytes) {status : ScanStatus} {ix : Index} {idx : Bytes}
    → extension path ≡ codes ".zdb"
    → create 0 ≡ made
    → open_index n (some idx) ≡ (ok ix, some idx)
    → 0 < ix.num_buckets
    → ix.num_buckets < 2 ^ 59
    → Unclean ix (torn_log crc rs tail)
    → Tail crc tail status
    → All Fits rs
    → length (torn_log crc rs tail) < 2 ^ 63
    → 41 + 8 * ix.num_buckets + growth rs < 2 ^ 63
    → (d : Database) × (open_database crc create n path (some (torn_log crc rs tail)) (some idx)
        ≡ (ok tt, d))
      × StoresSized crc d log_header rs ix.num_buckets (41 + 8 * ix.num_buckets + growth rs)
      × (d.report ≡ full_rebuild RecoveryReason.unclean_index (length tail))
unfolding session-Stores fresh_index open_existing recover_unclean header_size string_size db_magic
    torn-HasLog
open_database-Unclean crc create n path rs tail {ix = ix} {idx = idx} named first opened pos lt
      unclean t fits small room =
    let log = torn_log crc rs tail in
    let kept = log_of crc log_header rs in
    let report = full_rebuild RecoveryReason.unclean_index (length tail) in
    let (idx', holds, run, size) =
      recover_records-HasLog (torn-HasLog crc rs tail ix idx fits small) create t first pos lt
        room in
    let (idx'', marked, holds', same) = mark_unclean-Holds (some kept) report holds in
    let existing : open_existing crc create n (unopened (some log) (some idx))
        ≡ (ok tt, session (some kept) (some idx') (some (caught_up ix.num_buckets kept)) report) =
      rw
        (
          load-log (records_bytes crc rs ++ tail) (some idx),
          opened,
          index_metadata_clean-Unclean ix log (some idx) no_recovery unclean,
          run,
        )
        refl in
    (
      _,
      open_database-existing crc create n path named log (some idx) existing ∙ marked,
      (
        session-Stores report holds' refl refl refl
            (omega (
              arith,
              small,
              length-append log_header (records_bytes crc rs),
              length-append log_header (records_bytes crc rs ++ tail),
              length-append (records_bytes crc rs) tail,
            ))
            fits,
        refl,
        omega (arith, same, size),
      ),
      refl,
    )
