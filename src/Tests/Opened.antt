-- ===== src/Tests/Opened.antt =====
-- The theorems about opening, closing and crashing at concrete files: the log and the index of a new
-- database, and a log with one record and a cut one behind it.
use zidanedb.Base.{
  ◌+◌, ◌*◌, ◌≡◌, refl, [], ◌∷◌, ◌++◌, none, some, true, false, arith, length, length-append,
  if◌then◌else◌, inl,
}
use zidanedb.Base.Results.{ok, throws, database_closed}
use zidanedb.Constants.{codes}
use zidanedb.Stream.{Bytes}
use zidanedb.Record.RoundTrip.{Fits}
use zidanedb.Record.Sequence.{records_bytes, length-records_bytes}
use zidanedb.Index.{fresh_index}
use zidanedb.Index.Header.{fresh_file, fresh-Holds}
use zidanedb.Database.{
  Database, RecoveryReason, extension, get, put, erase, get_index_stats, index_metadata_clean,
  scan_records, rebuild_index, recover_records, close, destroy, open_database,
}
use zidanedb.Database.Replay.{growth}
use zidanedb.Database.Contents.{Stores, StoresSized, put_of}
use zidanedb.Database.Recovery.{log_of, open_index-Holds}
use zidanedb.Database.Opening.{log_header, length-log_header, no_recovery, full_rebuild}
use zidanedb.Database.Opening.Created.{open_database-Created}
use zidanedb.Database.Opening.Recovered.{
  missing, torn_log, open_database-Unusable, open_database-Unclean,
}
use zidanedb.Database.Opening.Reopened.{open_database-destroy, close-Stores, close-throws}
use zidanedb.Failpoints
use zidanedb.Failpoints.{is_requested}
use zidanedb.Failpoints.Recovery.{open_database-put_crash}
use zidanedb.Failpoints.Closing.{open_database-close_crash}
use zidanedb.Tests.Sample.{sample_crc}
use zidanedb.Tests.Recovered.{put_a, one_put, cut, cut-Tail, create, records_size-one_put}
use zidanedb.Tests.Stored.{
  new_database, new_database-Stores, length-checkpoint, length-new_log, size_a,
}

abbrev pub path : Bytes
path = codes "dir.d/x.zdb"

pub named : extension path ≡ codes ".zdb"
unfolding extension
named = refl

open_database-Created_example :
    (d : Database) × (open_database sample_crc create 2 path none none ≡ (ok tt, d))
    × Stores sample_crc d log_header []
    × (d.report ≡ no_recovery)
open_database-Created_example =
    open_database-Created sample_crc create 2 path named (omega arith) (omega arith)

one_put-fits : Fits put_a
one_put-fits = record { key = omega arith; value = omega arith }

length-one_put : length (log_of sample_crc log_header one_put) ≡ 41
length-one_put = omega (
  arith,
  length-append log_header (records_bytes sample_crc one_put),
  length-records_bytes sample_crc one_put,
  length-log_header,
  records_size-one_put,
)

pub length-torn_log : (tail : Bytes) → length (torn_log sample_crc one_put tail) ≡ 41 + length tail
length-torn_log tail = omega (
  arith,
  length-append log_header (records_bytes sample_crc one_put ++ tail),
  length-append (records_bytes sample_crc one_put) tail,
  length-records_bytes sample_crc one_put,
  length-log_header,
  records_size-one_put,
)

open_database-Unusable_example :
    (d : Database) × (open_database sample_crc create 2 path
        (some (log_of sample_crc log_header one_put))
        none
      ≡ (ok tt, d))
    × StoresSized sample_crc d log_header one_put 2 (41 + 8 * 2 + growth one_put)
    × (d.report ≡ full_rebuild RecoveryReason.missing_index 0)
open_database-Unusable_example =
    open_database-Unusable sample_crc create 2 path one_put named refl (omega arith) (omega arith)
      missing (one_put-fits, tt) (omega (arith, length-one_put)) (omega arith)

open_database-Unclean_example :
    (d : Database) × (open_database sample_crc create 7 path
        (some (torn_log sample_crc one_put cut))
        (some (fresh_file 2))
      ≡ (ok tt, d))
    × StoresSized sample_crc d log_header one_put 2 (41 + 8 * 2 + growth one_put)
    × (d.report ≡ full_rebuild RecoveryReason.unclean_index (length cut))
unfolding fresh_index
open_database-Unclean_example =
    open_database-Unclean sample_crc create 7 path one_put cut named refl
      (open_index-Holds 7 (omega arith) (fresh-Holds 2 (omega arith) (omega arith))) (omega arith)
      (omega arith) (inl (omega arith)) cut-Tail (one_put-fits, tt)
      (omega (arith, length-torn_log cut)) (omega arith)

open_database-destroy_example :
    (d' : Database) × (open_database sample_crc create 7 path
        (destroy new_database).db_file
        (destroy new_database).idx_file
      ≡ (ok tt, d'))
    × Stores sample_crc d' log_header []
    × (d'.report ≡ no_recovery)
open_database-destroy_example =
    open_database-destroy create 7 path new_database-Stores named (omega arith)

abbrev closed_new : Database
closed_new = record new_database {
  idx_file = some (close-Stores new_database-Stores).0;
  index = none;
  closed = true;
}

close-throws_example :
    (get sample_crc closed_new (codes "a") ≡ throws database_closed)
    × (put sample_crc (codes "a") (codes "one") closed_new ≡ (throws database_closed, closed_new))
    × (erase sample_crc (codes "a") closed_new ≡ (throws database_closed, closed_new))
    × (get_index_stats closed_new ≡ throws database_closed)
    × (index_metadata_clean closed_new ≡ throws database_closed)
    × (scan_records sample_crc closed_new 0 ≡ throws database_closed)
    × (rebuild_index sample_crc create 0 closed_new ≡ (throws database_closed, closed_new))
    × (recover_records sample_crc create closed_new ≡ (throws database_closed, closed_new))
    × (close closed_new ≡ (ok tt, closed_new))
close-throws_example =
    close-throws sample_crc create (codes "a") (codes "one") 0 new_database
      (close-Stores new_database-Stores).1

open_database-put_crash_example :
    (d' : Database) × (open_database sample_crc create 7 path
        (Failpoints.put
          (some (codes "before_update_bucket_head"))
          false
          sample_crc
          (codes "a")
          (codes "one")
          new_database).1.db_file
        (Failpoints.put
          (some (codes "before_update_bucket_head"))
          false
          sample_crc
          (codes "a")
          (codes "one")
          new_database).1.idx_file
      ≡ (ok tt, d'))
    × StoresSized sample_crc d' log_header
        (if is_requested (some (codes "before_update_bucket_head")) (codes "before_db_append")
          then []
          else [] ++ put_of (codes "a") (codes "one") ∷ [])
        2
        (41 + 8 * 2 + 0 + 20 + 1)
    × (d'.report ≡ full_rebuild RecoveryReason.unclean_index 0)
unfolding fresh_index
open_database-put_crash_example =
    open_database-put_crash create 7 path (some (codes "before_update_bucket_head")) false
      (codes "a") (codes "one") new_database-Stores named refl (omega arith) (omega arith)
      (omega arith) (omega arith) (omega (arith, length-checkpoint))
      (omega (arith, length-new_log, size_a)) (omega arith)

open_database-close_crash_example :
    (d' : Database) × (open_database sample_crc create 7 path
        (Failpoints.close (some (codes "clean_db_close")) new_database).1.db_file
        (Failpoints.close (some (codes "clean_db_close")) new_database).1.idx_file
      ≡ (ok tt, d'))
    × StoresSized sample_crc d' log_header [] 2 100
    × (d'.report ≡ (
        if is_requested (some (codes "clean_db_close")) (codes "before_set_index_clean")
        then full_rebuild RecoveryReason.unclean_index 0
        else no_recovery))
unfolding fresh_index
open_database-close_crash_example =
    open_database-close_crash create 7 path (some (codes "clean_db_close")) 100 new_database-Stores
      named refl (omega arith) (omega arith) (omega (arith, length-checkpoint)) (omega arith)
      (omega arith)
