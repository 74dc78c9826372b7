-- ===== src/Tests/Recovered.antt =====
-- The theorems about recovery at a concrete log: one record, and another that is cut short.
use zidanedb.Base.{
  ℕ, ◌+◌, ◌*◌, ◌≤◌, ◌≡◌, refl, List, [], ◌∷◌, ◌++◌, Option, none, some, false, arith, length,
  length-append,
}
use zidanedb.Base.Results.{ok}
use zidanedb.Constants.{codes, db_magic, db_version}
use zidanedb.Stream.{Bytes}
use zidanedb.Utils.{write_uint32, string_size}
use zidanedb.Record.{Record, RecordType, type_code}
use zidanedb.Record.RoundTrip.{Fits, record_bytes, record_size}
use zidanedb.Record.Sequence.{records_bytes, records_size, length-records_bytes}
use zidanedb.Index.{fresh_index, load}
use zidanedb.Index.Represents.{Holds}
use zidanedb.Index.Header.{fresh_file, fresh-Holds}
use zidanedb.Index.Header.Load.{load-Holds}
use zidanedb.Database.{
  Database, CreateDirectory, made, RecoveryReason, RecoveryAction, ScanStatus, ensure_open,
  header_size, rebuild_index_impl, recover_records,
}
use zidanedb.Database.Scan.{HasLog, Tail, torn-Tail}
use zidanedb.Database.Replay.{growth, replay}
use zidanedb.Database.Recovery.{
  caught_up, log_of, rebuild_index_impl-records, recover_records-HasLog,
}
use zidanedb.Database.Opening.{log_header, length-log_header}
use zidanedb.Tests.Sample.{sample_crc}

abbrev pub put_a : Record
put_a = record { type = RecordType.put; key = codes "a"; value = codes "one" }

abbrev pub put_a-Fits : Fits put_a
put_a-Fits = record { key = omega arith; value = omega arith }

abbrev pub one_put : List Record
one_put = put_a ∷ []

abbrev pub cut : Bytes
cut = 1 ∷ 1 ∷ []

abbrev crashed : Database
crashed = record {
  db_file = some (log_header ++ (records_bytes sample_crc one_put ++ cut));
  idx_file = none;
  index = some (fresh_index 2);
  magic = db_magic;
  version = db_version;
  report = record {
    reason = RecoveryReason.none;
    action = RecoveryAction.none;
    truncated_bytes = 0;
  };
  closed = false;
}

is_open : ensure_open crashed ≡ ok (fresh_index 2)
unfolding ensure_open
is_open = refl

header_size-crashed : header_size crashed ≡ length log_header
unfolding header_size string_size db_magic
header_size-crashed = omega (arith, length-log_header)

pub records_size-one_put : records_size one_put ≡ 17
unfolding record_size string_size
records_size-one_put = refl

abbrev crashed-HasLog : HasLog sample_crc crashed log_header one_put cut
crashed-HasLog = record {
  index = fresh_index 2;
  is_open = is_open;
  file = refl;
  header_length = header_size-crashed;
  small = omega (
    arith,
    length-append log_header (records_bytes sample_crc one_put ++ cut),
    length-append (records_bytes sample_crc one_put) cut,
    length-records_bytes sample_crc one_put,
    length-log_header,
    records_size-one_put,
  );
  fits = (put_a-Fits, tt);
}

pub cut-Tail : Tail sample_crc cut ScanStatus.truncated
unfolding record_bytes write_uint32 type_code
cut-Tail = torn-Tail {r = put_a} 1 (1 ∷ []) 0 _ put_a-Fits refl

abbrev pub create : ℕ → CreateDirectory
create attempt = made

abbrev recovered_map : Bytes → Option ℕ
recovered_map = replay (λ key. none) (header_size crashed) one_put

recover_records-HasLog_example :
    (idx : Bytes) × Holds (caught_up 2 (log_of sample_crc log_header one_put)) idx recovered_map
    × (recover_records sample_crc create crashed ≡ (
      ok (length cut),
      record crashed {
        db_file = some (log_of sample_crc log_header one_put);
        idx_file = some idx;
        index = some (caught_up 2 (log_of sample_crc log_header one_put));
      },
    ))
    × (length idx ≤ 41 + 8 * 2 + growth one_put)
unfolding fresh_index
recover_records-HasLog_example =
    recover_records-HasLog crashed-HasLog create cut-Tail refl (omega arith) (omega arith)
      (omega arith)

rebuild_index_impl-records_example :
    (idx : Bytes) × Holds (caught_up 2 (log_of sample_crc log_header one_put)) idx recovered_map
    × (rebuild_index_impl sample_crc create 0 2
          (record crashed { db_file = some (log_of sample_crc log_header one_put) })
        ≡ (
          ok tt,
          record crashed {
            db_file = some (log_of sample_crc log_header one_put);
            idx_file = some idx;
            index = some (caught_up 2 (log_of sample_crc log_header one_put));
          },
        ))
    × (length idx ≤ 41 + 8 * 2 + growth one_put)
rebuild_index_impl-records_example =
    rebuild_index_impl-records sample_crc 2 crashed log_header one_put create refl (omega arith)
      (omega arith) header_size-crashed (put_a-Fits, tt)
      (omega (
        arith,
        length-append log_header (records_bytes sample_crc one_put),
        length-records_bytes sample_crc one_put,
        length-log_header,
        records_size-one_put,
      ))
      (omega arith)

load-Holds_example : load (fresh_file 2) ≡ ok (fresh_index 2)
load-Holds_example = load-Holds (fresh-Holds 2 (omega arith) (omega arith))
