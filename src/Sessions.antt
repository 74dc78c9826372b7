-- ===== src/Sessions.antt =====
-- What a client does with one database over its life: calls, a close with opening the files again, and
-- the failures behind which the files are opened again. The database is src/database.cpp, the failures
-- are a process that is killed at a failpoint, a power failure in the middle of an append to the log,
-- and a lost index file.
pub mod Steps
pub mod Crashes
pub mod Cuts
pub mod Refines
use zidanedb.Base.{
  ℕ, ◌+◌, ◌≤◌, Option, none, some, List, [], ◌∷◌, ◌++◌, Bool, if◌then◌else◌, leb, ltb, length, take,
  bytes_eq,
}
use zidanedb.Base.Results.{
  Exception, Result, ok, throws, diverges, stops_at, key_too_large, value_too_large,
}
use zidanedb.Base.Exec.{pure, reads, ◌>>=◌, ◌>>◌}
use zidanedb.Constants.{codes, max_key_size, max_value_size}
use zidanedb.Stream.{Bytes}
use zidanedb.Record.{Crc32c, Record, RecordType, serialize_record}
use zidanedb.Record.RoundTrip.{Fits, record_size}
use zidanedb.Database.{Database, DbExec, CreateDirectory, get, put, erase, destroy, open_database}
use zidanedb.Database.Contents.{put_of, stored}
use zidanedb.Database.Removals.{delete_of, has_value}
use zidanedb.Failpoints
use zidanedb.Failpoints.{is_requested}

-- `kill` ends the process between two calls, `crash_put` and `crash_close` kill the process behind a call with a failpoint, wherever that stopped
-- it. `cut_append` is a power failure when `count` bytes of a record are in the log and nothing is in
-- the index.
pub data Event : Type 0 where
  put_event : (key val : Bytes) → Event
  get_event erase_event : (key : Bytes) → Event
  reopen kill lose_index : Event
  crash_put : (requested : Option Bytes) (early : Bool) (key val : Bytes) → Event
  crash_close : (requested : Option Bytes) → Event
  cut_append : (record_of : Record) (count : ℕ) → Event

-- What the client sees.
pub data Answer : Type 0 where
  done : Answer
  value : Option Bytes → Answer
  existed : Bool → Answer
  refused : Exception → Answer

abbrev pub bytes_of : Result Bytes → Bytes
bytes_of (ok bytes) = bytes
bytes_of _ = []

abbrev pub appended : Option Bytes → Bytes → Option Bytes
appended none bytes = none
appended (some log) bytes = some (log ++ bytes)

-- A call of the client, who catches the exception.
abbrev pub told : Result (Unit {0}) → Result Answer
told (ok _) = ok done
told (throws e) = ok (refused e)
told diverges = diverges
told (stops_at name) = stops_at name

module _ (crc : Crc32c) (create : ℕ → CreateDirectory) (num_index_buckets : ℕ) (path : Bytes) where
  -- Opening these files, in place of the object that was there.
  abbrev pub opening : (db idx : Option Bytes) → DbExec Answer
  opening db idx = (λ _. open_database crc create num_index_buckets path db idx) >> pure done

  unfoldable pub step : Event → DbExec Answer
  step (put_event key val) = λ d. let r = put crc key val d in (told r.0, r.1)
  step (get_event key) = do v ← reads (λ d. get crc d key); pure (value v)
  step (erase_event key) = do b ← erase crc key; pure (existed b)
  step reopen = λ d. let closed = destroy d in opening closed.db_file closed.idx_file d
  step kill = λ d. opening d.db_file d.idx_file d
  step lose_index = λ d. opening (destroy d).db_file none d
  step (crash_put requested early key val) = λ d.
      let left = (Failpoints.put requested early crc key val d).1 in
      opening left.db_file left.idx_file d
  step (crash_close requested) =
      λ d. let left = (Failpoints.close requested d).1 in opening left.db_file left.idx_file d
  step (cut_append r count) = λ d.
      opening (appended d.db_file (take count (bytes_of (serialize_record crc r)))) d.idx_file d

  unfoldable pub run : List Event → DbExec (List Answer)
  run [] = pure []
  run (e ∷ es) = do a ← step e; as' ← run es; pure (a ∷ as')

  -- The events on a new database.
  unfoldable pub run_new : List Event → Database → Result (List Answer) × Database
  run_new es = (λ _. open_database crc create num_index_buckets path none none) >> run es

-- The exception of a put whose key or value is too long.
abbrev pub size_error : (key val : Bytes) → Option Exception
size_error key val =
    if ltb max_key_size (length key)
    then some key_too_large
    else if ltb max_value_size (length val)
    then some value_too_large
    else none

abbrev pub unless {ℓ} : {A : Type ℓ} → Option Exception → (changed same : A) → A
unless none changed same = changed
unless (some e) changed same = same

abbrev pub put_answer : Option Exception → Answer
put_answer none = done
put_answer (some e) = refused e

-- The specification: a map from keys to values.
unfoldable pub expected : Event → (Bytes → Option Bytes) → Bytes → Option Bytes
expected (put_event key val) m = unless (size_error key val) (stored RecordType.put key val m) m
expected (get_event key) m = m
expected (erase_event key) m = λ k. if bytes_eq key k then none else m k
expected reopen m = m
expected kill m = m
expected lose_index m = m
expected (crash_put requested early key val) m =
    unless (size_error key val)
      (if is_requested requested (codes "before_db_append")
        then m
        else stored RecordType.put key val m)
      m
expected (crash_close requested) m = m
expected (cut_append r count) m =
    if leb (record_size r) count then stored r.type r.key r.value m else m

unfoldable pub answer : Event → (Bytes → Option Bytes) → Answer
answer (get_event key) m = value (m key)
answer (erase_event key) m = existed (has_value (m key))
answer (put_event key val) m = put_answer (size_error key val)
answer reopen m = done
answer kill m = done
answer lose_index m = done
answer (crash_put requested early key val) m = done
answer (crash_close requested) m = done
answer (cut_append r count) m = done

unfoldable pub answers : List Event → (Bytes → Option Bytes) → List Answer
answers [] m = []
answers (e ∷ es) m = answer e m ∷ answers es (expected e m)

unfoldable pub final : List Event → (Bytes → Option Bytes) → Bytes → Option Bytes
final [] m = m
final (e ∷ es) m = final es (expected e m)

-- A record that an append cuts is one that `put` and `erase` write.
abbrev pub WithinLimits : Event → Type 0
WithinLimits (cut_append r count) = Fits r
WithinLimits _ = Unit {0}

-- What an event may add to the index file and to the log.
abbrev pub entry_room : Event → ℕ
entry_room (put_event key val) = 20 + length key
entry_room (get_event key) = 0
entry_room (erase_event key) = 20 + length key
entry_room reopen = 0
entry_room kill = 0
entry_room lose_index = 0
entry_room (crash_put requested early key val) = 20 + length key
entry_room (crash_close requested) = 0
entry_room (cut_append r count) = 20 + length r.key

abbrev pub log_room : Event → ℕ
log_room (put_event key val) = record_size (put_of key val)
log_room (get_event key) = 0
log_room (erase_event key) = record_size (delete_of key)
log_room reopen = 0
log_room kill = 0
log_room lose_index = 0
log_room (crash_put requested early key val) = record_size (put_of key val)
log_room (crash_close requested) = 0
log_room (cut_append r count) = record_size r

abbrev pub sum : (Event → ℕ) → List Event → ℕ
sum f [] = 0
sum f (e ∷ es) = f e + sum f es
