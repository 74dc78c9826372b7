-- ===== src/Database/Opening/Total.antt =====
-- The constructor of `Database` on a log that holds any bytes behind a valid header.
use zidanedb.Base.{
  ℕ, ◌+◌, ◌*◌, ◌^◌, ◌≤◌, ◌<◌, ◌≡◌, ◌⊎◌, inl, inr, refl, ap, Option, none, some, List, [], ◌∷◌, ◌++◌,
  arith, length, All, append-nil, IsBytes, length-append,
}
use zidanedb.Base.Results.{ok, throws, db_corrupted, db_corrupted_rebuild}
use zidanedb.Constants.{codes}
use zidanedb.Stream.{Bytes}
use zidanedb.Record.{Crc32c, Record, RecordRead}
use zidanedb.Record.RoundTrip.{Fits, record_size}
use zidanedb.Record.Damaged.{Damaged}
use zidanedb.Record.Sequence.{records_bytes, records_size, length-records_bytes}
use zidanedb.Utils.{string_size}
use zidanedb.Index.{Index, open_index}
use zidanedb.Database.{
  Database, CreateDirectory, made, RecoveryReason, ScanStatus, extension, open_database,
}
use zidanedb.Database.Parsing.{LogEnd, repairable, refused, parse}
use zidanedb.Database.Replay.{growth}
use zidanedb.Database.Scan.{Tail, whole, cut_off}
use zidanedb.Database.Contents.{StoresSized}
use zidanedb.Database.Opening.{log_header, session, no_recovery, full_rebuild}
use zidanedb.Database.Opening.Recovered.{
  Unclean, Unusable, torn_log, open_database-Unclean, open_database-Unusable,
}
use zidanedb.Database.Opening.Broken.{
  Broken, cut, damaged, open_database-Damaged, open_database-Unusable_Broken,
}

-- The index entries of records take at most twice the room of the records.
growth_le : (rs : List Record) → growth rs ≤ 2 * records_size rs
unfolding record_size string_size
growth_le [] = omega arith
growth_le (r ∷ rs) = omega (arith, growth_le rs)

growth_log :
    (crc : Crc32c) (rs : List Record) (tail : Bytes)
    → growth rs ≤ 2 * length (records_bytes crc rs ++ tail)
growth_log crc rs tail =
    omega
      (arith, growth_le rs, length-append (records_bytes crc rs) tail, length-records_bytes crc rs)

module _ (crc : Crc32c) (create : ℕ → CreateDirectory) (n : ℕ) (path : Bytes) where
  -- The log `rs` with `tail` behind it is opened with an unclean index, and the tail is cut off.
  abbrev pub Repaired : Index → Bytes → List Record → Bytes → Type 0
  Repaired ix idx rs tail =
      (status : ScanStatus) × (d : Database) × Tail crc tail status
      × (open_database crc create n path (some (torn_log crc rs tail)) (some idx) ≡ (ok tt, d))
      × StoresSized crc d log_header rs ix.num_buckets (41 + 8 * ix.num_buckets + growth rs)
      × (d.report ≡ full_rebuild RecoveryReason.unclean_index (length tail))

  abbrev pub Refused : Index → Bytes → List Record → Bytes → Type 0
  Refused ix idx rs tail =
      (m : RecordRead) × Damaged crc tail m
      × (open_database crc create n path (some (torn_log crc rs tail)) (some idx) ≡ (
        throws db_corrupted,
        session (some (torn_log crc rs tail)) (some idx) (some ix) no_recovery,
      ))

  opened-Unclean :
      {ix : Index} {idx tail : Bytes} (rs : List Record)
      → extension path ≡ codes ".zdb"
      → create 0 ≡ made
      → open_index n (some idx) ≡ (ok ix, some idx)
      → 0 < ix.num_buckets
      → ix.num_buckets < 2 ^ 59
      → Unclean ix (torn_log crc rs tail)
      → All Fits rs
      → length (torn_log crc rs tail) < 2 ^ 63
      → 41 + 8 * ix.num_buckets + growth rs < 2 ^ 63
      → LogEnd crc tail
      → Repaired ix idx rs tail ⊎ Refused ix idx rs tail
  opened-Unclean rs named first opened pos lt unclean fits small room (repairable t) =
      let (d, run, stores, report) =
        open_database-Unclean crc create n path rs _ named first opened pos lt unclean t fits small
          room in
      inl (_, d, t, run, stores, report)
  opened-Unclean rs named first opened pos lt unclean fits small room (refused bad) =
      inr (_, bad, open_database-Damaged crc create n path rs named opened unclean bad fits small)

  -- Where the path ends in `.zdb`, the log is a valid header with any bytes behind it, shorter than
  -- 2^63 bytes, the index file loads as an index that is not clean or not caught up with the log, with
  -- a positive number of buckets below 2^59, 41 bytes, 8 for each bucket and twice the bytes of the log
  -- stay below 2^63 and the first staging directory is made: the bytes are whole records with a tail
  -- behind them, and either the tail is empty or reads as truncated, and opening the database cuts it
  -- off, builds the index again and stores the records; or the tail is a damaged record, and opening
  -- the database throws that the file is corrupted and leaves both files as they were.
  pub open_database-Parsed :
      (log : Bytes) {ix : Index} {idx : Bytes}
      → extension path ≡ codes ".zdb"
      → create 0 ≡ made
      → open_index n (some idx) ≡ (ok ix, some idx)
      → 0 < ix.num_buckets
      → ix.num_buckets < 2 ^ 59
      → Unclean ix (log_header ++ log)
      → IsBytes log
      → length (log_header ++ log) < 2 ^ 63
      → 41 + 8 * ix.num_buckets + 2 * length log < 2 ^ 63
      → (rs : List Record) × (tail : Bytes) × (log ≡ records_bytes crc rs ++ tail)
        × All Fits rs
        × (Repaired ix idx rs tail ⊎ Refused ix idx rs tail)
  open_database-Parsed log named first opened pos lt unclean bytes small room =
      let p = parse crc log bytes in
      (
        p.records,
        p.tail,
        p.split,
        p.fits,
        opened-Unclean p.records named first opened pos lt (rw p.split at unclean) p.fits
            (rw p.split at small)
            (omega (arith, growth_log crc p.records p.tail, ap length p.split)) p.end,
      )

  -- The same with no index to use.
  abbrev pub Rebuilt : Option Bytes → RecoveryReason → List Record → Bytes → Type 0
  Rebuilt idx reason rs tail =
      (tail ≡ [])
      × ((d : Database) × (open_database crc create n path (some (torn_log crc rs tail)) idx
            ≡ (ok tt, d))
          × StoresSized crc d log_header rs n (41 + 8 * n + growth rs)
          × (d.report ≡ full_rebuild reason 0))

  abbrev pub NotRebuilt : Option Bytes → List Record → Bytes → Type 0
  NotRebuilt idx rs tail =
      Broken crc tail
      × (open_database crc create n path (some (torn_log crc rs tail)) idx ≡ (
        throws db_corrupted_rebuild,
        session (some (torn_log crc rs tail)) idx none no_recovery,
      ))

  opened-Unusable :
      {idx : Option Bytes} {reason : RecoveryReason} (rs : List Record) {tail : Bytes}
      → extension path ≡ codes ".zdb"
      → create 0 ≡ made
      → 0 < n
      → n < 2 ^ 59
      → Unusable idx reason
      → All Fits rs
      → length (torn_log crc rs tail) < 2 ^ 63
      → 41 + 8 * n + growth rs < 2 ^ 63
      → LogEnd crc tail
      → Rebuilt idx reason rs tail ⊎ NotRebuilt idx rs tail
  opened-Unusable rs named first pos lt bad fits small room (repairable whole) = inl (
    refl,
    rw (← append-nil (records_bytes crc rs)) at (
        open_database-Unusable crc create n path rs named first pos lt bad fits
          (rw (append-nil (records_bytes crc rs)) at small) room),
  )
  opened-Unusable rs named first pos lt bad fits small room (repairable (cut_off read)) = inr (
    cut (cut_off read),
    open_database-Unusable_Broken crc create n path rs named first pos lt bad (cut (cut_off read))
        fits small room,
  )
  opened-Unusable rs named first pos lt bad fits small room (refused d) = inr (
    damaged d,
    open_database-Unusable_Broken crc create n path rs named first pos lt bad (damaged d) fits small
        room,
  )

  -- Where the path ends in `.zdb`, the log is a valid header with any bytes behind it, shorter than
  -- 2^63 bytes, the index file is missing or `load` refuses its header, the number of buckets is
  -- positive and below 2^59, 41 bytes, 8 for each bucket and twice the bytes of the log stay below 2^63
  -- and the first staging directory is made: the bytes are whole records with a tail behind them, and
  -- either the tail is empty, and opening the database builds the index again and stores the records; or
  -- the tail is a damaged record or reads as truncated, and opening the database throws that no index
  -- can be built and leaves both files as they were.
  pub open_database-Parsed_Unusable :
      (log : Bytes) {idx : Option Bytes} {reason : RecoveryReason}
      → extension path ≡ codes ".zdb"
      → create 0 ≡ made
      → 0 < n
      → n < 2 ^ 59
      → Unusable idx reason
      → IsBytes log
      → length (log_header ++ log) < 2 ^ 63
      → 41 + 8 * n + 2 * length log < 2 ^ 63
      → (rs : List Record) × (tail : Bytes) × (log ≡ records_bytes crc rs ++ tail)
        × All Fits rs
        × (Rebuilt idx reason rs tail ⊎ NotRebuilt idx rs tail)
  open_database-Parsed_Unusable log named first pos lt bad bytes small room =
      let p = parse crc log bytes in
      (
        p.records,
        p.tail,
        p.split,
        p.fits,
        opened-Unusable p.records named first pos lt bad p.fits (rw p.split at small)
            (omega (arith, growth_log crc p.records p.tail, ap length p.split)) p.end,
      )
