-- ===== src/Tests/Parsed.antt =====
-- The theorems about files that hold any bytes, at concrete ones.
use zidanedb.Base.{
  ℕ, ◌≡◌, ◌⊎◌, refl, List, [], ◌++◌, none, some, arith, length-append, IsBytes, IsBytes-append, All,
  inl, bytes_eq,
}
use zidanedb.Base.Results.{ok}
use zidanedb.Constants.{codes, db_magic, db_version}
use zidanedb.Stream.{Bytes}
use zidanedb.Utils.Integers.{write_uint32-IsBytes}
use zidanedb.Utils.Strings.{string_bytes, string_bytes-IsBytes}
use zidanedb.Record.{Record, type_code}
use zidanedb.Record.RoundTrip.{Fits, record_bytes}
use zidanedb.Record.Sequence.{records_bytes}
use zidanedb.Index.{Index, fresh_index, find}
use zidanedb.Index.Header.{fresh_file, fresh-Holds}
use zidanedb.Database.{RecoveryReason, ensure_open, get}
use zidanedb.Database.Contents.{Found, get-Stores, values, stored}
use zidanedb.Database.Reads.{get-Found}
use zidanedb.Database.Recovery.{log_of, open_index-Holds}
use zidanedb.Database.Opening.{log_header, length-log_header}
use zidanedb.Database.Opening.Recovered.{missing}
use zidanedb.Database.Opening.Total.{
  Repaired, Refused, Rebuilt, NotRebuilt, open_database-Parsed, open_database-Parsed_Unusable,
}
use zidanedb.Tests.Sample.{sample_crc}
use zidanedb.Tests.Recovered.{cut, create, put_a}
use zidanedb.Tests.Opened.{path, named}
use zidanedb.Tests.Stored.{stored_a, one_record}

cut-IsBytes : IsBytes cut
cut-IsBytes = (omega arith, (omega arith, tt))

open_database-Parsed_example :
    (rs : List Record) × (tail : Bytes) × (cut ≡ records_bytes sample_crc rs ++ tail)
    × All Fits rs
    × (Repaired sample_crc create 7 path (fresh_index 2) (fresh_file 2) rs tail
        ⊎ Refused sample_crc create 7 path (fresh_index 2) (fresh_file 2) rs tail)
unfolding fresh_index
open_database-Parsed_example =
    open_database-Parsed sample_crc create 7 path cut named refl
      (open_index-Holds 7 (omega arith) (fresh-Holds 2 (omega arith) (omega arith))) (omega arith)
      (omega arith) (inl (omega arith)) cut-IsBytes
      (omega (arith, length-append log_header cut, length-log_header)) (omega arith)

open_database-Parsed_Unusable_example :
    (rs : List Record) × (tail : Bytes) × (cut ≡ records_bytes sample_crc rs ++ tail)
    × All Fits rs
    × (Rebuilt sample_crc create 2 path none RecoveryReason.missing_index rs tail
        ⊎ NotRebuilt sample_crc create 2 path none rs tail)
open_database-Parsed_Unusable_example =
    open_database-Parsed_Unusable sample_crc create 2 path cut named refl (omega arith)
      (omega arith) missing cut-IsBytes
      (omega (arith, length-append log_header cut, length-log_header)) (omega arith)

db_magic-IsBytes : IsBytes db_magic
unfolding db_magic
db_magic-IsBytes = (
  omega arith,
  (
    omega arith,
    (
      omega arith,
      (
        omega arith,
        (
          omega arith,
          (
            omega arith,
            (
              omega arith,
              (
                omega arith,
                (
                  omega arith,
                  (
                    omega arith,
                    (
                      omega arith,
                      (omega arith, (omega arith, (omega arith, (omega arith, (omega arith, tt))))),
                    ),
                  ),
                ),
              ),
            ),
          ),
        ),
      ),
    ),
  ),
)

one_record-IsBytes : IsBytes (log_of sample_crc log_header one_record)
unfolding records_bytes record_bytes type_code db_magic
one_record-IsBytes =
    IsBytes-append log_header _
      (IsBytes-append (string_bytes db_magic) _ (string_bytes-IsBytes db_magic db_magic-IsBytes)
        (write_uint32-IsBytes db_version))
      (IsBytes-append (record_bytes sample_crc put_a) []
        (
          omega arith,
          IsBytes-append (string_bytes (codes "a")) _
              (string_bytes-IsBytes (codes "a") (omega arith, tt))
              (IsBytes-append (string_bytes (codes "one")) _
                (string_bytes-IsBytes (codes "one") (omega arith, (omega arith, (omega arith, tt))))
                (write_uint32-IsBytes _)),
        )
        tt)

value_of_a : get sample_crc stored_a.0 (codes "a") ≡ ok (some (codes "one"))
unfolding values stored bytes_eq
value_of_a = get-Stores (codes "a") stored_a.2

get-Found_example :
    (ix : Index) × (offset : ℕ) × (ensure_open stored_a.0 ≡ ok ix)
    × (find ix stored_a.0.idx_file (codes "a") ≡ ok (some offset))
    × Found sample_crc
        (log_of sample_crc log_header one_record)
        (codes "a")
        (some offset)
        (some (codes "one"))
get-Found_example =
    get-Found sample_crc stored_a.0 (codes "a") (codes "one") stored_a.2.log one_record-IsBytes
      value_of_a
