-- ===== src/Cli/Runs.antt =====
-- Commands one behind the other on an open database.
use zidanedb.Base.{◌+◌, ◌^◌, ◌≡◌, refl, ◌≤◌, ◌<◌, some, List, ◌++◌, length, bytes_eq_self}
use zidanedb.Base.Results.{ok}
use zidanedb.Base.Exec.{◌>>◌}
use zidanedb.Constants.{max_key_size, max_value_size}
use zidanedb.Stream.{Bytes}
use zidanedb.Record.{Crc32c, Record}
use zidanedb.Record.RoundTrip.{record_size}
use zidanedb.Record.Sequence.{records_bytes}
use zidanedb.Database.{Database, get}
use zidanedb.Database.Contents.{Stores, put_of}
use zidanedb.Database.Writes.{put-Stores, get-put}
use zidanedb.Cli.{run_put, run_get, printed}

-- Where an open database stores a list of records, the key and the value are within the size
-- limits, and the index file and the log stay below 2^63 bytes, `run_get` of a key behind
-- `run_put` of it exits with 0 and prints the value with a newline, and nothing on the error
-- stream.
pub run_get-run_put :
    {crc : Crc32c} {d : Database} {header : Bytes} {rs : List Record} (key val : Bytes)
    → (s : Stores crc d header rs) → length key ≤ max_key_size
    → length val ≤ max_value_size
    → length s.idx + 20 + length key < 2 ^ 63
    → length (header ++ records_bytes crc rs) + record_size (put_of key val) < 2 ^ 63
    → ((do run_put crc key val; run_get crc key) d).0 ≡ ok (printed val)
unfolding run_put run_get
run_get-run_put {crc} {d} key val s key_le val_le idx_room log_room =
    let (d', run, s') = put-Stores key val s key_le val_le idx_room log_room in
    let found : get crc d' key ≡ ok (some val) =
      rw (run, bytes_eq_self key) at (get-put key val key s key_le val_le idx_room log_room) in
    rw (run, found) refl
