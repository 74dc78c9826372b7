-- ===== src/Database/Removals.antt =====
-- `erase` on an open database whose index is caught up with the log.
use zidanedb.Base.{
  ℕ, ◌+◌, ◌^◌, ◌≡◌, refl, sym, ◌≤◌, ◌<◌, ap, Option, none, some, Bool, true, false, if◌then◌else◌,
  bytes_eq, bytes_eq_self, bytes_eq-cases, ◌⊎◌, inl, inr, List, [], ◌∷◌, ◌++◌, arith, length,
  length-append,
}
use zidanedb.Base.Results.{ok}
use zidanedb.Constants.{max_key_size}
use zidanedb.Stream.{Bytes}
use zidanedb.Record.{Crc32c, Record, delete}
use zidanedb.Record.RoundTrip.{
  Fits, record_bytes, record_size, length-record_bytes, serialize_record-ok,
}
use zidanedb.Record.Sequence.{records_bytes}
use zidanedb.Index.Represents.{Holds}
use zidanedb.Index.Find.{find-Holds}
use zidanedb.Index.Erase.Total.{without, erase-Holds}
use zidanedb.Index.Header.{with_up_to}
use zidanedb.Index.Header.Fields.{set_indexed_up_to_offset-Holds}
use zidanedb.Database.{Database, header_size, erase, erase_record, append_record}
use zidanedb.Database.Replay.{applied, replay}
use zidanedb.Database.Contents.{
  Stores, StoresSized, Found, absent, present, Found-replay, values, stored,
}
use zidanedb.Database.Writes.{replay-append, All-append, appended_log, still_open, values-append}

abbrev pub delete_of : Bytes → Record
delete_of key = record { type = delete; key = key; value = [] }

module _ {crc : Crc32c} {d : Database} {header : Bytes} {rs : List Record} (key : Bytes)
    (s : Stores crc d header rs) where
  abbrev mapped : Bytes → Option ℕ
  mapped = replay (λ key. none) (header_size d) rs

  abbrev after_erase : (idx : Bytes) → Database
  after_erase idx = record d {
    db_file = some ((header ++ records_bytes crc rs) ++ record_bytes crc (delete_of key));
    idx_file = some idx;
    index = some (
        with_up_to s.index
          (length (header ++ records_bytes crc rs) + length (record_bytes crc (delete_of key))));
  }

  erase-run :
      {at : ℕ}
      → Fits (delete_of key)
      → mapped key ≡ some at
      → length (header ++ records_bytes crc rs) + record_size (delete_of key) < 2 ^ 63
      → (idx : Bytes) × Holds
          (with_up_to s.index
            (length (header ++ records_bytes crc rs) + length (record_bytes crc (delete_of key))))
          idx
          (without key mapped)
        × (erase crc key d ≡ (ok true, after_erase idx))
        × (length idx ≤ length s.idx)
  unfolding erase erase_record append_record
  erase-run fits there log_room =
      let grown = length-record_bytes crc (delete_of key) in
      let (w, erase_run) = erase-Holds key s.holds in
      let (idx, up_to_run, holds, same) =
        set_indexed_up_to_offset-Holds w.holds
          (length (header ++ records_bytes crc rs) + length (record_bytes crc (delete_of key)))
          (omega (arith, grown)) in
      (
        idx,
        holds,
        rw
            (
              s.is_open,
              s.idx_file,
              find-Holds key s.holds,
              there,
              serialize_record-ok crc fits,
              s.log,
              erase_run,
              there,
              up_to_run,
            )
            refl,
        omega (arith, same, w.grown),
      )

abbrev pub has_value : Option Bytes → Bool
has_value none = false
has_value (some value) = true

offset_of_value :
    {crc : Crc32c} {log key : Bytes} {o : Option ℕ} {v : Option Bytes}
    → Found crc log key o v
    → ((o ≡ none) × (v ≡ none))
      ⊎ ((at : ℕ) × (o ≡ some at) × (has_value v ≡ true) × (length key ≤ max_key_size))
offset_of_value absent = inl (refl, refl)
offset_of_value (present front back value at e here fits) = inr (at, refl, refl, fits.key)

module _ {crc : Crc32c} {d : Database} {header : Bytes} {rs : List Record} (key : Bytes)
    (s : Stores crc d header rs) where
  erased-Stores :
      {at : ℕ}
      → Fits (delete_of key)
      → mapped key s key ≡ some at
      → length (header ++ records_bytes crc rs) + record_size (delete_of key) < 2 ^ 63
      → (d' : Database) × (erase crc key d ≡ (ok true, d'))
        × StoresSized crc d' header (rs ++ delete_of key ∷ []) s.index.num_buckets (length s.idx)
  unfolding header_size applied
  erased-Stores fits there log_room =
      let r = delete_of key in
      let (idx, holds, run, size) = erase-run key s fits there log_room in
      let end = length-record_bytes crc r in
      let new_log = appended_log s r in
      let new_length : length (header ++ records_bytes crc (rs ++ r ∷ []))
          ≡ length (header ++ records_bytes crc rs) + length (record_bytes crc r) =
        rw (← new_log) (length-append (header ++ records_bytes crc rs) (record_bytes crc r)) in
      (
        after_erase key s idx,
        run,
        (
          record {
            index = _;
            idx = idx;
            is_open = still_open d _ idx _ s.is_open;
            log = ap some new_log;
            idx_file = refl;
            holds = rw (replay-append rs r (λ key. none) (header_size d)) holds;
            caught_up = sym new_length;
            dirty = s.dirty;
            header_length = s.header_length;
            small = omega (arith, new_length, end);
            fits = All-append rs r s.fits fits;
          },
          refl,
          size,
        ),
      )

  unchanged : mapped key s key ≡ none → erase crc key d ≡ (ok false, d)
  unfolding erase
  unchanged none_there = rw (s.is_open, s.idx_file, find-Holds key s.holds, none_there) refl

  pub value_of_key :
      Found crc
        (header ++ records_bytes crc rs)
        key
        (mapped key s key)
        (values (λ key. none) rs key)
  value_of_key =
      Found-replay rs header (header_size d) (λ key. absent) refl s.header_length s.fits key

same_values :
    (v : Bytes → Option Bytes) (key k : Bytes)
    → v key ≡ none
    → v k ≡ (if bytes_eq key k then none else v k)
same_values v key k gone = elim (bytes_eq-cases key k) [
  | inl same ↦ rw (← same, bytes_eq_self key) gone
  | inr (differ, _) ↦ rw differ refl
]

-- The records that an `erase` leaves.
abbrev pub erased : List Record → Bytes → List Record
erased rs key = if has_value (values (λ key. none) rs key) then rs ++ delete_of key ∷ [] else rs

-- What `erase` leaves, with a bound for the size of the index file.
pub erase-sized :
    {crc : Crc32c} {d : Database} {header : Bytes} {rs : List Record} (key : Bytes)
    (s : Stores crc d header rs)
    → length (header ++ records_bytes crc rs) + record_size (delete_of key) < 2 ^ 63
    → (d' : Database) × (erase crc key d ≡ (ok (has_value (values (λ key. none) rs key)), d'))
      × StoresSized crc d' header (erased rs key) s.index.num_buckets (length s.idx)
erase-sized {crc} {d} {header} {rs} key s log_room = elim (offset_of_value (value_of_key key s)) [
  | inl (none_there, gone) ↦
      (d, rw gone (unchanged key s none_there), rw gone (s, refl, omega arith))
  | inr (at, there, has, key_le) ↦
      let fits : Fits (delete_of key) = record { key = key_le; value = omega arith } in
      let (d', run, sized) = erased-Stores key s fits there log_room in
      (d', rw has run, rw has sized)
]

pub values-erased :
    (rs : List Record) (key k : Bytes)
    → values (λ key. none) (erased rs key) k
      ≡ (if bytes_eq key k then none else values (λ key. none) rs k)
unfolding stored
values-erased rs key k = elim (is_none (values (λ key. none) rs key)) [
  | inl gone ↦ rw gone (same_values (values (λ key. none) rs) key k gone)
  | inr has ↦ rw has (ap (λ v. v k) (values-append rs (delete_of key) (λ key. none)))
]
  where
    is_none : (o : Option Bytes) → (o ≡ none) ⊎ (has_value o ≡ true)
    is_none none = inl refl
    is_none (some v) = inr refl

-- Where an open database stores a list of records and the log stays below 2^63 bytes with a record that
-- deletes the key, `erase` returns whether the records have a value for the key and leaves
-- a database that stores records with no value for the key and the same values for every other
-- key.
pub erase-Stores :
    {crc : Crc32c} {d : Database} {header : Bytes} {rs : List Record} (key : Bytes)
    → Stores crc d header rs
    → length (header ++ records_bytes crc rs) + record_size (delete_of key) < 2 ^ 63
    → (d' : Database) × (rs' : List Record) × (erase crc key d
        ≡ (ok (has_value (values (λ key. none) rs key)), d'))
      × Stores crc d' header rs'
      × ((k : Bytes)
          → values (λ key. none) rs' k
            ≡ (if bytes_eq key k then none else values (λ key. none) rs k))
erase-Stores {rs = rs} key s log_room =
    let (d', run, (s', buckets, size)) = erase-sized key s log_room in
    (d', erased rs key, run, s', values-erased rs key)
