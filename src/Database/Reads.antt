-- ===== src/Database/Reads.antt =====
-- What `get` returns on files that hold any bytes: it is in the log whatever the index says.
use zidanedb.Base.{
  ℕ, ◌^◌, ◌≤◌, ◌≡◌, inl, inr, refl, sym, ap, Option, none, some, ◌++◌, arith, length, IsBytes,
  length-append, take, drop, take-append-drop, length-take, length-drop, Bool-cases, bytes_eq,
  bytes_eq→eq, ltb,
}
use zidanedb.Base.Results
use zidanedb.Base.Results.{Result, ok, throws, diverges, stops_at, cannot_get_record}
use zidanedb.Stream.{Bytes, stream}
use zidanedb.Utils.Views.{IsBytes-drop}
use zidanedb.Record.{Crc32c, RecordType, RecordRead, read_record}
use zidanedb.Record.RoundTrip.{
  Fits, record_bytes, record_size, length-record_bytes, read_record-append,
}
use zidanedb.Record.Damaged.{Damaged, read_record-Damaged}
use zidanedb.Record.Torn.{read_record-eof}
use zidanedb.Record.Views.{RecordView, nothing, first_record, cut_off, damage, record_view}
use zidanedb.Index.{Index, find}
use zidanedb.Database.{Database, ensure_open, open_db, get, get_at, look_up, got, value_of}
use zidanedb.Database.Contents.{put_of, Found, present}

ok_value : {a b : Bytes} → ok a ≡ ok b → a ≡ b
ok_value e = cc

got-Damaged :
    {crc : Crc32c} {bytes : Bytes} {m : RecordRead} (key : Bytes)
    → Damaged crc bytes m
    → got key m ≡ throws cannot_get_record
got-Damaged key (Damaged.bad_type b rest e) = refl
got-Damaged key (Damaged.bad_key_length t len rest large lt) = refl
got-Damaged key (Damaged.bad_value_length t k len rest le large lt) = refl
got-Damaged key (Damaged.bad_checksum r found rest fits lt differs) = refl

value_of_put :
    (key value : Bytes) (t : RecordType) (k v : Bytes)
    → value_of key (record { type = t; key = k; value = v }) ≡ ok value
    → record { type = t; key = k; value = v } ≡ put_of key value
value_of_put key value RecordType.put k v e = elim (Bool-cases (bytes_eq k key)) [
  | inl same ↦
      let same_key : k ≡ key = bytes_eq→eq k key same in
      let same_value : v ≡ value = ok_value (rw same at e) in rw (same_key, same_value) refl
  | inr differs ↦ cc (rw differs at e)
]
value_of_put key value RecordType.delete k v e = cc

module _ (crc : Crc32c) (key value : Bytes) (pos : ℕ) where
  -- The bytes at an offset, where `get` returns a value.
  got_record :
      {bytes : Bytes}
      → RecordView crc bytes
      → got key (read_record crc (stream bytes pos)) ≡ ok value
      → (rest : Bytes) × (bytes ≡ record_bytes crc (put_of key value) ++ rest)
        × Fits (put_of key value)
  got_record nothing e = cc (rw (read_record-eof crc pos) at e)
  got_record (cut_off read) e = cc (rw (read pos) at e)
  got_record (damage d) e = cc (rw (read_record-Damaged crc pos d, got-Damaged key d) at e)
  got_record (first_record r rest fits bytes) e =
      let same : r ≡ put_of key value =
        value_of_put key value r.type r.key r.value
          (rw (read_record-append crc {r = r} rest pos fits) at e) in
      (rest, rw same refl, rw same at fits)

returned :
    {A B : Type 0} (m : Result A) (f : A → Result B) {b : B}
    → Results.and_then m f ≡ ok b
    → (a : A) × (m ≡ ok a) × (f a ≡ ok b)
returned (ok a) f e = (a, refl, e)
returned (throws x) f e = cc
returned diverges f e = cc
returned (stops_at name) f e = cc

looked_up :
    (crc : Crc32c) (d : Database) (key value : Bytes) (found : Option ℕ)
    → look_up crc d key found ≡ ok (some value)
    → (file : Bytes) × (offset : ℕ) × (found ≡ some offset)
      × (open_db d ≡ ok file)
      × (get_at crc file key offset ≡ ok (some value))
unfolding look_up
looked_up crc d key value none e = cc
looked_up crc d key value (some offset) e =
    let (file, opened, at) = returned (open_db d) (λ file. get_at crc file key offset) e in
    (file, offset, refl, opened, at)

got_at :
    (crc : Crc32c) (file key value : Bytes) (offset : ℕ)
    → get_at crc file key offset ≡ ok (some value)
    → got key (read_record crc (stream (drop offset file) offset)) ≡ ok value
unfolding get_at
got_at crc file key value offset e = elim (Bool-cases (ltb offset (2 ^ 63))) [
  | inl small ↦
      let (v, got_value, same) =
        returned (got key (read_record crc (stream (drop offset file) offset))) (λ v. ok (some v))
          (rw small at e) in
      let found : v ≡ value = cc in rw (← found) got_value
  | inr large ↦ cc (rw large at e)
]

present_at :
    (crc : Crc32c) (file key value rest : Bytes) (offset : ℕ)
    → drop offset file ≡ record_bytes crc (put_of key value) ++ rest
    → Fits (put_of key value)
    → Found crc file key (some offset) (some value)
unfolding record_size
present_at crc file key value rest offset e fits =
    let within : offset ≤ length file = omega (
      arith,
      length-drop offset file,
      ap length e,
      length-append (record_bytes crc (put_of key value)) rest,
      length-record_bytes crc (put_of key value),
    ) in
    present (take offset file) rest value offset (rw e at (sym (take-append-drop offset file)))
      (sym (length-take offset file within)) fits

-- Where the log is bytes and `get` returns a value for a key, whatever the index file holds: the
-- object is open, the index gives an offset for the key, and at this offset the log has a whole record
-- within the size limits, with its checksum, that puts this value for this key.
pub get-Found :
    (crc : Crc32c) (d : Database) (key value : Bytes) {file : Bytes}
    → d.db_file ≡ some file
    → IsBytes file
    → get crc d key ≡ ok (some value)
    → (ix : Index) × (offset : ℕ) × (ensure_open d ≡ ok ix)
      × (find ix d.idx_file key ≡ ok (some offset))
      × Found crc file key (some offset) (some value)
unfolding get open_db
get-Found crc d key value {file} log bytes e =
    let (ix, is_open, found) = returned (ensure_open d) _ e in
    let (o, find_o, looked) = returned (find ix d.idx_file key) _ found in
    let (f, offset, same, opened, at) = looked_up crc d key value o looked in
    let whole_log : f ≡ file = ok_value (rw log at (sym opened)) in
    let (rest, split, fits) =
      got_record crc key value offset
        (record_view crc (drop offset file) (IsBytes-drop offset file bytes))
        (got_at crc file key value offset (rw whole_log at at)) in
    (ix, offset, is_open, rw same at find_o, present_at crc file key value rest offset split fits)
