-- ===== src/Tests/Witnesses.antt =====
-- The theorems at concrete inputs: an index of two buckets with a key, and a record of a key and a
-- value.
use zidanedb.Base.{ℕ, ◌+◌, ◌≡◌, refl, [], ◌∷◌, ◌++◌, Option, none, some, arith, length}
use zidanedb.Base.Results.{ok}
use zidanedb.Constants.{codes}
use zidanedb.Stream.{Bytes, stream}
use zidanedb.Utils
use zidanedb.Utils.{read_uint64, write_uint64, write_uint32, read_string, string_size}
use zidanedb.Utils.Strings.{string_bytes, read_string-string_bytes}
use zidanedb.Record.{Record, RecordType, RecordRead, read_record, type_code}
use zidanedb.Record.RoundTrip.{Fits, record_bytes, record_size, read_record-append}
use zidanedb.Record.Torn.{Stays, read_record-Stays, read_record-torn}
use zidanedb.Index.{find, setup, set, erase}
use zidanedb.Index.{fresh_index}
use zidanedb.Index.Represents.{Holds}
use zidanedb.Index.Bucket.{Written}
use zidanedb.Index.Find.{find-Holds}
use zidanedb.Index.Set.{insert, set-Holds}
use zidanedb.Index.Erase.Total.{without, is_some, erase-Holds}
use zidanedb.Index.Header.{fresh_file, fresh-Holds, length-fresh_file, setup-Holds}
use zidanedb.Tests.Sample.{sample_crc}

abbrev no_keys : Bytes → Option ℕ
no_keys key = none

abbrev pub key_a : Bytes
key_a = codes "a"

abbrev key_b : Bytes
key_b = codes "b"

abbrev new_index-Holds : Holds (fresh_index 2) (fresh_file 2) no_keys
new_index-Holds = fresh-Holds 2 (omega arith) (omega arith)

pub length-new_index : length (fresh_file 2) ≡ 57
length-new_index = length-fresh_file 2 (omega arith) (omega arith)

-- The index with the key "a" at offset 24.
abbrev pub with_a :
    (w : Written (fresh_index 2) (insert key_a 24 no_keys) (length (fresh_file 2) + 21)) × (set
        (fresh_index 2)
        key_a
        24
        (some (fresh_file 2))
      ≡ (ok tt, some w.file))
with_a =
    set-Holds key_a 24 new_index-Holds (omega arith) (omega arith) (omega (arith, length-new_index))

-- That file.
abbrev file_a : Bytes
file_a = with_a.0.file

set-Holds_example :
    (w : Written (fresh_index 2) (insert key_b 40 (insert key_a 24 no_keys)) (length file_a + 21))
    × (set (fresh_index 2) key_b 40 (some file_a) ≡ (ok tt, some w.file))
set-Holds_example =
    set-Holds key_b 40 with_a.0.holds (omega arith) (omega arith)
      (omega (arith, length-new_index, with_a.0.grown))

erase-Holds_example :
    (w : Written (fresh_index 2) (without key_a (insert key_a 24 no_keys)) (length file_a + 0))
    × (erase (fresh_index 2) key_a (some file_a)
        ≡ (ok (is_some (insert key_a 24 no_keys key_a)), some w.file))
erase-Holds_example = erase-Holds key_a with_a.0.holds

find-Holds_example : find (fresh_index 2) (some file_a) key_a ≡ ok (insert key_a 24 no_keys key_a)
find-Holds_example = find-Holds key_a with_a.0.holds

setup-Holds_example :
    (setup 2 none ≡ (ok (fresh_index 2), some (fresh_file 2)))
    × Holds (fresh_index 2) (fresh_file 2) (λ key. none)
setup-Holds_example = setup-Holds 2 (omega arith) (omega arith)

abbrev record_a : Record
record_a = record { type = RecordType.put; key = codes "a"; value = codes "one" }

abbrev record_a-Fits : Fits record_a
record_a-Fits = record { key = omega arith; value = omega arith }

read_record-append_example :
    read_record sample_crc (stream (record_bytes sample_crc record_a ++ 1 ∷ []) 24)
    ≡ RecordRead.success record_a (stream (1 ∷ []) (24 + record_size record_a))
read_record-append_example = read_record-append sample_crc (1 ∷ []) 24 record_a-Fits

read_record-torn_example : read_record sample_crc (stream (1 ∷ 1 ∷ []) 24) ≡ RecordRead.truncated
unfolding record_bytes write_uint32 type_code
read_record-torn_example =
    read_record-torn sample_crc {r = record_a} 1 (1 ∷ []) 0 _ 24 record_a-Fits refl

read_record-Stays_example :
    Stays
      (7 ∷ [])
      (read_record sample_crc (stream (1 ∷ []) 24))
      (read_record sample_crc (stream (1 ∷ 7 ∷ []) 24))
read_record-Stays_example = read_record-Stays (7 ∷ []) sample_crc (stream (1 ∷ []) 24)

read_string-string_bytes_example :
    read_string (stream (string_bytes key_a ++ 9 ∷ []) 0) 16
    ≡ Utils.success key_a (stream (9 ∷ []) (0 + string_size key_a))
read_string-string_bytes_example =
    read_string-string_bytes key_a (9 ∷ []) 16 0 (omega arith) (omega arith)
