-- ===== src/Database/Recovery.antt =====
-- Building the index again from the log, and recovery of an open database whose log has a cut tail.
use zidanedb.Base.{
  ℕ, ◌+◌, ◌*◌, ◌^◌, ◌≡◌, refl, ◌≤◌, ◌<◌, Option, none, some, List, ◌++◌, All, arith, length,
  length-append, lt→ltb, ne→==,
}
use zidanedb.Base.Results.{ok}
use zidanedb.Stream.{Bytes}
use zidanedb.Stream.Positions.{drop_at}
use zidanedb.Record.{Crc32c, Record}
use zidanedb.Record.RoundTrip.{Fits}
use zidanedb.Record.Sequence.{records_bytes, records_size, length-records_bytes, length_le}
use zidanedb.Index.{Index, fresh_index, open_index}
use zidanedb.Index.Represents.{Holds}
use zidanedb.Index.Header.{with_up_to}
use zidanedb.Index.Header.Fields.{set_indexed_up_to_offset-Holds}
use zidanedb.Index.Header.Load.{load-Holds}
use zidanedb.Database.{
  Database, CreateDirectory, made, ensure_open, open_db, db_file_size, header_size, first_offset,
  make_temporary_index_location, rebuild_index_impl, rebuild_index, recover_records, ScanStatus,
}
use zidanedb.Database.Replay.{growth, replay, build_temporary-records}
use zidanedb.Database.Scan.{HasLog, Tail, repair_tail-HasLog, scan_records-HasLog}

first_made :
    (create : ℕ → CreateDirectory) → create 0 ≡ made → make_temporary_index_location create ≡ ok tt
unfolding make_temporary_index_location
first_made create e = rw e refl

pub open_index-Holds :
    {ix : Index} {file : Bytes} {m : Bytes → Option ℕ} (n : ℕ)
    → 0 < n
    → Holds ix file m
    → open_index n (some file) ≡ (ok ix, some file)
unfolding open_index
open_index-Holds n pos h = rw (ne→== n 0 (omega arith), load-Holds h) refl

-- The index that stands for a log of these records, in a file of `n` buckets.
abbrev pub caught_up : ℕ → Bytes → Index
caught_up n log = with_up_to (fresh_index n) (length log)

abbrev pub log_of : Crc32c → Bytes → List Record → Bytes
log_of crc header rs = header ++ records_bytes crc rs

module _ (crc : Crc32c) (n : ℕ) (d : Database) (header : Bytes) (rs : List Record) where
  -- Where the log is a header and whole records, shorter than 2^63 bytes, the number of buckets
  -- is positive and below 2^59, the new index file stays below 2^63 bytes and the first staging
  -- directory is made, `rebuild_index_impl` from the start returns; the index file is new, holds
  -- the replay of the records and has the length of the log as its indexed_up_to_offset, it has 41
  -- bytes, 8 for each bucket, and at most 20 and the key for each record, the object has the index
  -- of this file, and nothing else has changed.
  pub rebuild_index_impl-records :
      (create : ℕ → CreateDirectory)
      → create 0 ≡ made
      → 0 < n
      → n < 2 ^ 59
      → header_size d ≡ length header
      → All Fits rs
      → length (log_of crc header rs) < 2 ^ 63
      → 41 + 8 * n + growth rs < 2 ^ 63
      → (idx : Bytes) × Holds
          (caught_up n (log_of crc header rs))
          idx
          (replay (λ key. none) (header_size d) rs)
        × (rebuild_index_impl crc create 0 n (record d { db_file = some (log_of crc header rs) })
            ≡ (
              ok tt,
              record d {
                db_file = some (log_of crc header rs);
                idx_file = some idx;
                index = some (caught_up n (log_of crc header rs));
              },
            ))
        × (length idx ≤ 41 + 8 * n + growth rs)
  unfolding rebuild_index_impl open_db first_offset db_file_size header_size
  rebuild_index_impl-records create first pos lt header_length fits small room =
      let size : length (log_of crc header rs) ≡ header_size d + records_size rs = omega (
        arith,
        length-append header (records_bytes crc rs),
        length-records_bytes crc rs,
        header_length,
      ) in
      let (w, build) =
        build_temporary-records crc n (header_size d) rs (log_of crc header rs) pos lt fits
          (omega (arith, length_le rs)) (omega arith) room in
      let (idx, set_up_to, holds, same) =
        set_indexed_up_to_offset-Holds w.holds (length (log_of crc header rs)) (omega arith) in
      (
        idx,
        holds,
        rw
            (
              lt→ltb (header_size d) (2 ^ 63) (omega arith),
              drop_at header (records_bytes crc rs) (header_size d) header_length,
              first_made create first,
              build,
              open_index-Holds n pos w.holds,
              set_up_to,
            )
            refl,
        omega (arith, same, w.grown),
      )

module _ {crc : Crc32c} {d : Database} {header : Bytes} {rs : List Record} {tail : Bytes}
    (log : HasLog crc d header rs tail) where
  still_open : (f : Option Bytes) → ensure_open (record d { db_file = f }) ≡ ok log.index
  unfolding ensure_open
  still_open f = log.is_open

  -- Where an open database has a log of whole records with a tail that is empty or reads as truncated,
  -- its index has a positive number of buckets below 2^59, the new index file stays below 2^63
  -- bytes and the first staging directory is made, `recover_records` returns the length of the
  -- tail; the log then ends with the last whole record, and the index file, of the old number of
  -- buckets, holds the replay of the records and has the new length of the log as its
  -- indexed_up_to_offset, in 41 bytes, 8 for each bucket, and at most 20 and the key for each record.
  pub recover_records-HasLog :
      {status : ScanStatus} (create : ℕ → CreateDirectory)
      → Tail crc tail status
      → create 0 ≡ made
      → 0 < log.index.num_buckets
      → log.index.num_buckets < 2 ^ 59
      → 41 + 8 * log.index.num_buckets + growth rs < 2 ^ 63
      → (idx : Bytes) × Holds
          (caught_up log.index.num_buckets (log_of crc header rs))
          idx
          (replay (λ key. none) (header_size d) rs)
        × (recover_records crc create d ≡ (
          ok (length tail),
          record d {
            db_file = some (log_of crc header rs);
            idx_file = some idx;
            index = some (caught_up log.index.num_buckets (log_of crc header rs));
          },
        ))
        × (length idx ≤ 41 + 8 * log.index.num_buckets + growth rs)
  unfolding recover_records rebuild_index
  recover_records-HasLog create t first pos lt room =
      let n = log.index.num_buckets in
      let small : length (header ++ records_bytes crc rs) < 2 ^ 63 = omega (
        arith,
        log.small,
        length-append header (records_bytes crc rs),
        length-append header (records_bytes crc rs ++ tail),
        length-append (records_bytes crc rs) tail,
      ) in
      let (idx, holds, built, size) =
        rebuild_index_impl-records crc n d header rs create first pos lt log.header_length log.fits
          small room in
      let repaired = rw (scan_records-HasLog log t) at (repair_tail-HasLog log t) in
      (
        idx,
        holds,
        rw
            (
              log.is_open,
              scan_records-HasLog log t,
              repaired,
              still_open (some (log_of crc header rs)),
              built,
            )
            refl,
        size,
      )
