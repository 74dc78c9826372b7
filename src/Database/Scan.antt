-- ===== src/Database/Scan.antt =====
-- The scan over a log of whole records, with a tail behind them that is empty or reads as
-- truncated, and what recovery makes of that tail.
use zidanedb.Base.{
  ℕ, zero, suc, ◌+◌, ◌-◌, ◌^◌, ◌≡◌, refl, ◌≤◌, ◌<◌, ◌∙◌, Option, some, List, [], ◌∷◌, ◌++◌, All,
  arith, length, length-append, append_assoc, append-nil, take-length-append, take, ap, lt→ltb,
}
use zidanedb.Base.Results.{ok}
use zidanedb.Base.Exec.{reads, ◌>>=◌, continue}
use zidanedb.Stream.{Bytes, IStream, stream}
use zidanedb.Stream.Positions.{drop_at}
use zidanedb.Utils.{read_uint8}
use zidanedb.Record.{
  Crc32c, Record, RecordRead, read_record, end_of_file, truncated, invalid_length,
  checksum_mismatch, invalid_type,
}
use zidanedb.Record.RoundTrip.{Fits, record_bytes, record_size, read_record-append}
use zidanedb.Record.Torn.{read_record-torn}
use zidanedb.Record.Sequence.{records_bytes, records_size, length-records_bytes, length_le}
use zidanedb.Index.{Index}
use zidanedb.Database.{
  Database, ScanStatus, ensure_open, open_db, db_file_size, header_size, scan_result, scan_loop,
  scan_records, repair_tail, first_offset,
}

-- Where the last record begins that the scan found, `last` where it found none.
unfoldable pub last_start : (last start : ℕ) → List Record → ℕ
last_start last start [] = last
last_start last start (r ∷ rs) = last_start start (start + record_size r) rs

-- What the scan makes of the read behind the last whole record.
pub data Ends : RecordRead → ScanStatus → Type 0 where
  at_end : Ends end_of_file ScanStatus.success
  cut_short : Ends truncated ScanStatus.truncated
  bad_length : Ends invalid_length ScanStatus.invalid_length
  bad_checksum : Ends checksum_mismatch ScanStatus.checksum_mismatch
  bad_type : Ends invalid_type ScanStatus.invalid_type

module _ (crc : Crc32c) where
  scan_loop_end :
      (fuel : ℕ) (s : IStream) (last start : ℕ) {m : RecordRead} {status : ScanStatus}
      → read_record crc s ≡ m
      → Ends m status
      → scan_loop crc fuel s last start ≡ ok (scan_result status last start)
  unfolding scan_loop
  scan_loop_end zero s last start e at_end = rw e refl
  scan_loop_end (suc fuel) s last start e at_end = rw e refl
  scan_loop_end zero s last start e cut_short = rw e refl
  scan_loop_end (suc fuel) s last start e cut_short = rw e refl
  scan_loop_end zero s last start e bad_length = rw e refl
  scan_loop_end (suc fuel) s last start e bad_length = rw e refl
  scan_loop_end zero s last start e bad_checksum = rw e refl
  scan_loop_end (suc fuel) s last start e bad_checksum = rw e refl
  scan_loop_end zero s last start e bad_type = rw e refl
  scan_loop_end (suc fuel) s last start e bad_type = rw e refl

  scan_loop-records :
      (fuel : ℕ) (rs : List Record) (tail : Bytes) (last start : ℕ) {m : RecordRead}
      {status : ScanStatus}
      → length rs ≤ fuel
      → All Fits rs
      → read_record crc (stream tail (start + records_size rs)) ≡ m
      → Ends m status
      → scan_loop crc fuel (stream (records_bytes crc rs ++ tail) start) last start
        ≡ ok (scan_result status (last_start last start rs) (start + records_size rs))
  unfolding scan_loop records_bytes last_start
  scan_loop-records fuel [] tail last start enough fits e ends =
      let same : start + 0 ≡ start = omega arith in
      rw same (scan_loop_end fuel (stream tail start) last start (rw same at e) ends)
  scan_loop-records zero (r ∷ rs) tail last start enough fits e ends = absurd (omega arith)
  scan_loop-records (suc fuel) (r ∷ rs) tail last start enough (fit, fits) e ends =
      let same : start + (record_size r + records_size rs)
          ≡ start + record_size r + records_size rs =
        omega arith in
      rw
        (
          append_assoc (record_bytes crc r) (records_bytes crc rs) tail,
          read_record-append crc {r = r} (records_bytes crc rs ++ tail) start fit,
          same,
        )
        (scan_loop-records fuel rs tail start (start + record_size r) (omega arith) fits
          (rw same at e) ends)

-- The bytes behind the whole records of a log: none, or some that read as a truncated record.
pub data Tail (crc : Crc32c) : Bytes → ScanStatus → Type 0 where
  whole : Tail crc [] ScanStatus.success
  cut_off :
      {tail : Bytes}
      → ((pos : ℕ) → read_record crc (stream tail pos) ≡ truncated)
      → Tail crc tail ScanStatus.truncated

-- A whole record that the end of the file cuts short behind its first byte.
pub torn-Tail :
    {crc : Crc32c} {r : Record} (b : ℕ) (front : Bytes) (x : ℕ) (back : Bytes)
    → Fits r
    → record_bytes crc r ≡ b ∷ front ++ x ∷ back
    → Tail crc (b ∷ front) ScanStatus.truncated
torn-Tail {crc} b front x back fits e =
    cut_off (λ pos. read_record-torn crc b front x back pos fits e)

-- The log of an open database: a header, whole records and a tail.
pub record HasLog (crc : Crc32c) (d : Database) (header : Bytes) (rs : List Record) (tail : Bytes)
    : Type 0 where
  pub index : Index
  pub is_open : ensure_open d ≡ ok index
  pub file : d.db_file ≡ some (header ++ (records_bytes crc rs ++ tail))
  pub header_length : header_size d ≡ length header
  pub small : length (header ++ (records_bytes crc rs ++ tail)) < 2 ^ 63
  pub fits : All Fits rs

module _ {crc : Crc32c} where
  pub end_read :
      {tail : Bytes} {status : ScanStatus} (pos : ℕ)
      → Tail crc tail status
      → (m : RecordRead) × (read_record crc (stream tail pos) ≡ m) × Ends m status
  unfolding read_record read_uint8
  end_read pos whole = (end_of_file, refl, at_end)
  end_read pos (cut_off read) = (truncated, read pos, cut_short)

module _ {crc : Crc32c} {d : Database} {header : Bytes} {rs : List Record} {tail : Bytes}
    (log : HasLog crc d header rs tail) where
  log_length :
      length (header ++ (records_bytes crc rs ++ tail))
      ≡ header_size d + records_size rs + length tail
  log_length = omega (
    arith,
    length-append header (records_bytes crc rs ++ tail),
    length-append (records_bytes crc rs) tail,
    length-records_bytes crc rs,
    log.header_length,
  )

  -- The scan ends with what the read behind the whole records returns.
  pub scan_records-Ends :
      {m : RecordRead} {status : ScanStatus}
      → read_record crc (stream tail (header_size d + records_size rs)) ≡ m
      → Ends m status
      → scan_records crc d 0
        ≡ ok
            (scan_result status (last_start 0 (header_size d) rs) (header_size d + records_size rs))
  unfolding scan_records open_db first_offset header_size last_start
  scan_records-Ends e ends =
      rw
        (
          log.is_open,
          log.file,
          lt→ltb (header_size d) (2 ^ 63) (omega (arith, log_length, log.small)),
          drop_at header (records_bytes crc rs ++ tail) (header_size d) log.header_length,
        )
        (scan_loop-records crc (length (header ++ (records_bytes crc rs ++ tail))) rs tail 0
          (header_size d) (omega (arith, log_length, length_le rs)) log.fits e ends)

  -- Where an open database has a log of whole records with a tail, `scan_records` from the start
  -- returns success for an empty tail and truncated for one that reads as truncated, with the offset
  -- of the last whole record, or zero where there is none, and the end of the records as the failing
  -- offset of a truncated tail.
  pub scan_records-HasLog :
      {status : ScanStatus}
      → Tail crc tail status
      → scan_records crc d 0
        ≡ ok
            (scan_result status (last_start 0 (header_size d) rs) (header_size d + records_size rs))
  scan_records-HasLog t =
      let (m, e, ends) = end_read (header_size d + records_size rs) t in scan_records-Ends e ends

  kept :
      take (header_size d + records_size rs) (header ++ (records_bytes crc rs ++ tail))
      ≡ header ++ records_bytes crc rs
  kept =
      let at : header_size d + records_size rs ≡ length (header ++ records_bytes crc rs) = omega (
        arith,
        length-append header (records_bytes crc rs),
        length-records_bytes crc rs,
        log.header_length,
      ) in
      rw (← append_assoc header (records_bytes crc rs) tail, at)
        (take-length-append (header ++ records_bytes crc rs) tail)

cut_tail :
    (crc : Crc32c) (d : Database) {file : Bytes} (last off : ℕ)
    → d.db_file ≡ some file
    → repair_tail crc (scan_result ScanStatus.truncated last off) d
      ≡ (ok (length file - off), record d { db_file = some (take off file) })
unfolding repair_tail db_file_size scan_result
cut_tail crc d last off e = rw e refl

-- Where an open database has a log of whole records with a tail that is empty or reads as truncated,
-- the scan and the switch on its result in `recover_records` return the length of the tail and
-- cut it off the log; nothing else changes.
pub repair_tail-HasLog :
    {crc : Crc32c} {d : Database} {header : Bytes} {rs : List Record} {tail : Bytes}
    {status : ScanStatus}
    → HasLog crc d header rs tail
    → Tail crc tail status
    → (do scan ← reads (λ d. scan_records crc d 0); repair_tail crc scan) d
      ≡ (ok (length tail), record d { db_file = some (header ++ records_bytes crc rs) })
unfolding repair_tail db_file_size scan_result
repair_tail-HasLog {crc} {d} {header} {rs} log whole = rw (scan_records-HasLog log whole) (
    ap {A = Option Bytes} (λ f. (ok 0, record d { db_file = f }))
      (rw (append-nil (records_bytes crc rs)) at log.file))
repair_tail-HasLog {crc} {d} {header} {rs} {tail} log (cut_off read) =
    let cut : length (header ++ (records_bytes crc rs ++ tail)) - (header_size d + records_size rs)
        ≡ length tail =
      omega (arith, log_length log) in
    ap (λ scan. continue scan (repair_tail crc) d) (scan_records-HasLog log (cut_off read))
    ∙ rw (cut, kept log) at
        (cut_tail crc d (last_start 0 (header_size d) rs) (header_size d + records_size rs)
          log.file)
