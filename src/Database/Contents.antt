-- ===== src/Database/Contents.antt =====
-- What an open database stores: the log as a list of records, and the map from keys to values that
-- it stands for.
use zidanedb.Base.{
  ℕ, ◌+◌, ◌^◌, ◌≡◌, refl, sym, ◌≤◌, ◌<◌, ◌∙◌, ap, Option, none, some, List, [], ◌∷◌, ◌++◌, All,
  arith, length, length-append, append_assoc, lt→ltb, if◌then◌else◌, bytes_eq, bytes_eq_self,
  bytes_eq-cases, inl, inr,
}
use zidanedb.Base.Results.{ok}
use zidanedb.Stream.{Bytes}
use zidanedb.Stream.Positions.{drop_at}
use zidanedb.Record.{Crc32c, Record, RecordType, put, delete}
use zidanedb.Record.RoundTrip.{
  Fits, record_bytes, record_size, length-record_bytes, read_record-append,
}
use zidanedb.Record.Sequence.{records_bytes}
use zidanedb.Index.{Index}
use zidanedb.Index.Represents.{Holds}
use zidanedb.Index.Find.{find-Holds}
use zidanedb.Database.{Database, ensure_open, open_db, header_size, get, get_at, look_up}
use zidanedb.Database.Replay.{applied, replay}

-- What a record makes of the map from keys to values.
unfoldable pub stored :
    RecordType → (key value : Bytes) → (Bytes → Option Bytes) → Bytes → Option Bytes
stored put key value v k = if bytes_eq key k then some value else v k
stored delete key value v k = if bytes_eq key k then none else v k

-- The values that are left behind a list of records.
unfoldable pub values : (Bytes → Option Bytes) → List Record → Bytes → Option Bytes
values v [] = v
values v (r ∷ rs) = values (stored r.type r.key r.value v) rs

abbrev pub put_of : (key value : Bytes) → Record
put_of key value = record { type = put; key = key; value = value }

-- The offset of a key, if there is one, is that of a record in the log that puts its value.
pub data Found (crc : Crc32c) (log key : Bytes) : Option ℕ → Option Bytes → Type 0 where
  absent : Found crc log key none none
  present :
      (front back value : Bytes) (at : ℕ)
      → log ≡ front ++ (record_bytes crc (put_of key value) ++ back)
      → at ≡ length front
      → Fits (put_of key value)
      → Found crc log key (some at) (some value)

module _ {crc : Crc32c} {log : Bytes} where
  Found-applied :
      (t : RecordType) (k value front back : Bytes) (start : ℕ) {m : Bytes → Option ℕ}
      {v : Bytes → Option Bytes}
      → ((key : Bytes) → Found crc log key (m key) (v key))
      → log ≡ front ++ (record_bytes crc (record { type = t; key = k; value = value }) ++ back)
      → start ≡ length front
      → Fits (record { type = t; key = k; value = value })
      → (key : Bytes) → Found crc log key (applied t k start m key) (stored t k value v key)
  unfolding applied stored
  Found-applied put k value front back start found e at fits key = elim (bytes_eq-cases k key) [
    | inl same ↦ rw (← same, bytes_eq_self k) (present front back value start e at fits)
    | inr (differ, _) ↦ rw differ (found key)
  ]
  Found-applied delete k value front back start found e at fits key = elim (bytes_eq-cases k key) [
    | inl same ↦ rw (← same, bytes_eq_self k) absent
    | inr (differ, _) ↦ rw differ (found key)
  ]

  pub Found-replay :
      (rs : List Record) (front : Bytes) (start : ℕ) {m : Bytes → Option ℕ}
      {v : Bytes → Option Bytes}
      → ((key : Bytes) → Found crc log key (m key) (v key))
      → log ≡ front ++ records_bytes crc rs
      → start ≡ length front
      → All Fits rs
      → (key : Bytes) → Found crc log key (replay m start rs key) (values v rs key)
  unfolding replay values records_bytes
  Found-replay [] front start found e at fits = found
  Found-replay (r ∷ rs) front start found e at (fit, fits) =
      Found-replay rs (front ++ record_bytes crc r) (start + record_size r)
        (Found-applied r.type r.key r.value front (records_bytes crc rs) start found e at fit)
        (e ∙ sym (append_assoc front (record_bytes crc r) (records_bytes crc rs)))
        (omega (arith, length-append front (record_bytes crc r), length-record_bytes crc r)) fits

-- An open database whose index is caught up with a log of whole records, and marked as unclean until
-- it is closed.
pub record Stores (crc : Crc32c) (d : Database) (header : Bytes) (rs : List Record) : Type 0 where
  pub index : Index
  pub idx : Bytes
  pub is_open : ensure_open d ≡ ok index
  pub log : d.db_file ≡ some (header ++ records_bytes crc rs)
  pub idx_file : d.idx_file ≡ some idx
  pub holds : Holds index idx (replay (λ key. none) (header_size d) rs)
  pub caught_up : index.indexed_up_to_offset ≡ length (header ++ records_bytes crc rs)
  pub dirty : index.index_clean ≡ 0
  pub header_length : header_size d ≡ length header
  pub small : length (header ++ records_bytes crc rs) < 2 ^ 63
  pub fits : All Fits rs

-- The same, with the number of buckets of the index and a bound for the length of its file.
abbrev pub StoresSized : Crc32c → Database → Bytes → List Record → (buckets limit : ℕ) → Type 0
StoresSized crc d header rs buckets limit =
    (s : Stores crc d header rs) × (s.index.num_buckets ≡ buckets) × (length s.idx ≤ limit)

module _ {crc : Crc32c} where
  look_up-Found :
      (d : Database) {log key : Bytes} {o : Option ℕ} {v : Option Bytes}
      → d.db_file ≡ some log
      → length log < 2 ^ 63
      → Found crc log key o v
      → look_up crc d key o ≡ ok v
  unfolding look_up get_at open_db
  look_up-Found d file small absent = refl
  look_up-Found d {log = log} {key = key} file small (present front back value at e here fits) =
      rw
        (
          file,
          lt→ltb at (2 ^ 63) (
              omega (
                arith,
                ap (λ (l : Bytes). length l) e,
                length-append front (record_bytes crc (put_of key value) ++ back),
              )),
          e,
          drop_at front (record_bytes crc (put_of key value) ++ back) at here,
          read_record-append crc {r = put_of key value} back at fits,
          bytes_eq_self key,
        )
        refl

  -- Where an open database stores a list of records, `get` returns the value that the records
  -- leave for the key, or nothing where they leave none.
  pub get-Stores :
      {d : Database} {header : Bytes} {rs : List Record} (key : Bytes)
      → Stores crc d header rs
      → get crc d key ≡ ok (values (λ key. none) rs key)
  unfolding get look_up open_db
  get-Stores {d} {header} {rs} key s =
      rw (s.is_open, s.idx_file, find-Holds key s.holds)
        (look_up-Found d s.log s.small
          (Found-replay rs header (header_size d) (λ key. absent) refl s.header_length s.fits key))
