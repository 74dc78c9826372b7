-- ===== src/Tests/Stored.antt =====
-- The theorems about the methods at a new database, with an empty log and an index of two buckets.
use zidanedb.Base.{
  ℕ, ◌≡◌, refl, sym, List, [], ◌∷◌, ◌++◌, Option, none, some, false, arith, length, length-append,
  if◌then◌else◌, bytes_eq,
}
use zidanedb.Base.Results.{ok}
use zidanedb.Constants.{codes, db_magic, db_version}
use zidanedb.Stream.{Bytes}
use zidanedb.Utils.{string_size}
use zidanedb.Record.RoundTrip.{record_size}
use zidanedb.Record.Sequence.{records_bytes, length-records_bytes}
use zidanedb.Record.{Record}
use zidanedb.Index.{fresh_index, set_indexed_up_to_offset}
use zidanedb.Index.Represents.{Holds}
use zidanedb.Index.Header.{fresh_file, fresh-Holds, length-fresh_file, with_up_to}
use zidanedb.Index.Header.Fields.{set_indexed_up_to_offset-Holds}
use zidanedb.Database.{
  Database, RecoveryReason, RecoveryAction, ensure_open, header_size, get, put, erase,
}
use zidanedb.Database.Replay.{replay}
use zidanedb.Database.Contents.{Stores, values, put_of}
use zidanedb.Database.Removals.{delete_of, has_value, erase-Stores}
use zidanedb.Database.Writes.{put-Stores, get-put}
use zidanedb.Tests.Sample.{sample_crc}
use zidanedb.Database.Opening.{log_header, length-log_header}

abbrev pub no_keys : Bytes → Option ℕ
no_keys key = none

abbrev pub checkpoint :
    (file' : Bytes) × (set_indexed_up_to_offset (fresh_index 2) 24 (some (fresh_file 2))
      ≡ (ok (with_up_to (fresh_index 2) 24), some file'))
    × Holds (with_up_to (fresh_index 2) 24) file' no_keys
    × (length file' ≡ length (fresh_file 2))
checkpoint =
    set_indexed_up_to_offset-Holds (fresh-Holds 2 (omega arith) (omega arith)) 24 (omega arith)

abbrev pub new_log : Bytes
new_log = log_header ++ records_bytes sample_crc []

abbrev pub new_database : Database
new_database = record {
  db_file = some new_log;
  idx_file = some checkpoint.0;
  index = some (with_up_to (fresh_index 2) 24);
  magic = db_magic;
  version = db_version;
  report = record {
    reason = RecoveryReason.none;
    action = RecoveryAction.none;
    truncated_bytes = 0;
  };
  closed = false;
}

pub length-new_log : length new_log ≡ 24
unfolding records_bytes
length-new_log = omega (arith, length-append log_header [], length-log_header)

pub is_open : ensure_open new_database ≡ ok (with_up_to (fresh_index 2) 24)
unfolding ensure_open
is_open = refl

pub header_length : header_size new_database ≡ length log_header
unfolding header_size string_size db_magic
header_length = omega (arith, length-log_header)

pub empty_replay-Holds :
    Holds
      (with_up_to (fresh_index 2) 24)
      checkpoint.0
      (replay (λ key. none) (header_size new_database) [])
unfolding replay
empty_replay-Holds = checkpoint.2

pub new_index_dirty : (with_up_to (fresh_index 2) 24).index_clean ≡ 0
unfolding fresh_index
new_index_dirty = refl

abbrev pub new_database-Stores : Stores sample_crc new_database log_header []
new_database-Stores = record {
  index = with_up_to (fresh_index 2) 24;
  idx = checkpoint.0;
  is_open = is_open;
  log = refl;
  idx_file = refl;
  holds = empty_replay-Holds;
  caught_up = sym length-new_log;
  dirty = new_index_dirty;
  header_length = header_length;
  small = omega (arith, length-new_log);
  fits = tt;
}

pub length-checkpoint : length checkpoint.0 ≡ 57
length-checkpoint = omega (arith, checkpoint.3, length-fresh_file 2 (omega arith) (omega arith))

pub size_a : record_size (put_of (codes "a") (codes "one")) ≡ 17
unfolding record_size string_size
size_a = refl

put-Stores_example :
    (d' : Database) × (put sample_crc (codes "a") (codes "one") new_database ≡ (ok tt, d'))
    × Stores sample_crc d' log_header ([] ++ put_of (codes "a") (codes "one") ∷ [])
put-Stores_example =
    put-Stores (codes "a") (codes "one") new_database-Stores (omega arith) (omega arith)
      (omega (arith, length-checkpoint)) (omega (arith, length-new_log, size_a))

get-put_example :
    get sample_crc (put sample_crc (codes "a") (codes "one") new_database).1 (codes "a")
    ≡ ok (
        if bytes_eq (codes "a") (codes "a")
        then some (codes "one")
        else values (λ key. none) [] (codes "a"))
get-put_example =
    get-put (codes "a") (codes "one") (codes "a") new_database-Stores (omega arith) (omega arith)
      (omega (arith, length-checkpoint)) (omega (arith, length-new_log, size_a))

-- The database with the key "a".
abbrev pub stored_a :
    (d' : Database) × (put sample_crc (codes "a") (codes "one") new_database ≡ (ok tt, d'))
    × Stores sample_crc d' log_header (put_of (codes "a") (codes "one") ∷ [])
stored_a =
    put-Stores (codes "a") (codes "one") new_database-Stores (omega arith) (omega arith)
      (omega (arith, length-checkpoint)) (omega (arith, length-new_log, size_a))

abbrev pub one_record : List Record
one_record = put_of (codes "a") (codes "one") ∷ []

size_delete : record_size (delete_of (codes "a")) ≡ 14
unfolding record_size string_size
size_delete = refl

erase-Stores_example :
    (d' : Database) × (rs' : List Record) × (erase sample_crc (codes "a") stored_a.0
      ≡ (ok (has_value (values (λ key. none) one_record (codes "a"))), d'))
    × Stores sample_crc d' log_header rs'
    × ((k : Bytes)
        → values (λ key. none) rs' k
          ≡ (if bytes_eq (codes "a") k then none else values (λ key. none) one_record k))
erase-Stores_example = erase-Stores (codes "a") stored_a.2 (
    omega (
      arith,
      length-append log_header (records_bytes sample_crc one_record),
      length-records_bytes sample_crc one_record,
      length-log_header,
      size_a,
      size_delete,
    ))
