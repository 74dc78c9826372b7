-- ===== src/Sessions/Steps.antt =====
-- One event on an open database: it answers and changes the map as the specification says.
use zidanedb.Base.{
  ℕ, ◌+◌, ◌*◌, ◌^◌, ◌≤◌, ◌<◌, ◌≡◌, refl, ap, ◌∙◌, Option, none, List, [], ◌∷◌, ◌++◌, length, arith,
  inl, inr, Bool-cases, ltb, some, true, false, length-append,
}
use zidanedb.Base.Results.{ok, key_too_large, value_too_large}
use zidanedb.Constants.{codes, max_key_size, max_value_size}
use zidanedb.Stream.{Bytes}
use zidanedb.Record.{Crc32c, Record}
use zidanedb.Record.RoundTrip.{Fits, record_size}
use zidanedb.Record.Sequence.{records_bytes, records_size, length-records_bytes}
use zidanedb.Database.{Database, CreateDirectory, made, extension, put}
use zidanedb.Database.Replay.{growth}
use zidanedb.Database.Recovery.{log_of}
use zidanedb.Database.Contents.{StoresSized, put_of, values, get-Stores}
use zidanedb.Database.Writes.{put-grows, values-append}
use zidanedb.Database.Removals.{delete_of, has_value, erased, erase-sized, values-erased}
use zidanedb.Database.Opening.{log_header, length-log_header}
use zidanedb.Database.Opening.Reopened.{open_database-destroy_sized}
use zidanedb.Failpoints.Recovery.{growth-append}
use zidanedb.Sessions.{
  Event, put_event, get_event, erase_event, reopen, step, expected, answer, entry_room, log_room,
  size_error,
}

-- An open database that stores these records, with bounds for its files: `limit` for the index, also
-- for one that is built again, and `size` for the log.
pub record Opened (crc : Crc32c) (d : Database) (rs : List Record) (n limit size : ℕ) : Type 0 where
  pub stores : StoresSized crc d log_header rs n limit
  pub entries : 41 + 8 * n + growth rs ≤ limit
  pub log_size : 24 + records_size rs ≤ size

pub length-log_of :
    (crc : Crc32c) (rs : List Record) → length (log_of crc log_header rs) ≡ 24 + records_size rs
length-log_of crc rs = omega (
  arith,
  length-append log_header (records_bytes crc rs),
  length-records_bytes crc rs,
  length-log_header,
)

pub records_size-snoc :
    (rs : List Record) (r : Record) → records_size (rs ++ r ∷ []) ≡ records_size rs + record_size r
records_size-snoc [] r = omega arith
records_size-snoc (x ∷ rs) r = omega (arith, records_size-snoc rs r)

-- A put within the size limits, and the two that are refused.
pub data Limits (key val : Bytes) : Type 0 where
  within_limits : Fits (put_of key val) → size_error key val ≡ none → Limits key val
  long_key :
      ltb max_key_size (length key) ≡ true
      → size_error key val ≡ some key_too_large
      → Limits key val
  long_value :
      ltb max_key_size (length key) ≡ false
      → ltb max_value_size (length val) ≡ true
      → size_error key val ≡ some value_too_large
      → Limits key val

pub limits : (key val : Bytes) → Limits key val
limits key val = elim (Bool-cases (ltb max_key_size (length key))) [
  | inl long ↦ long_key long (rw long refl)
  | inr short ↦ elim (Bool-cases (ltb max_value_size (length val))) [
    | inl long ↦ long_value short long (rw (short, long) refl)
    | inr fits ↦
        within_limits (record { key = ground arith; value = ground arith }) (rw (short, fits) refl)
  ]
]

-- The map that a list of records stands for.
abbrev pub stored_map : List Record → Bytes → Option Bytes
stored_map rs = values (λ key. none) rs

module _ (crc : Crc32c) (create : ℕ → CreateDirectory) (n : ℕ) (path : Bytes) where
  -- What an event comes to.
  abbrev pub Follows : Event → Database → List Record → (limit size : ℕ) → Type 0
  Follows e d rs limit size =
      (d' : Database) × (rs' : List Record) × (step crc create n path e d
        ≡ (ok (answer e (stored_map rs)), d'))
      × Opened crc d' rs' n (limit + entry_room e) (size + log_room e)
      × ((k : Bytes) → stored_map rs' k ≡ expected e (stored_map rs) k)

  module _ {d : Database} {rs : List Record} {limit size : ℕ} (o : Opened crc d rs n limit size)
      (named : extension path ≡ codes ".zdb") (first : create 0 ≡ made) (pos : 0 < n)
      (lt : n < 2 ^ 59) where
    -- The same files, where nothing was written.
    pub same-Opened :
        (more_entries more_log : ℕ) → Opened crc d rs n (limit + more_entries) (size + more_log)
    same-Opened more_entries more_log =
        let (s, buckets, within) = o.stores in
        record {
          stores = (s, buckets, omega arith);
          entries = omega (arith, o.entries);
          log_size = omega (arith, o.log_size);
        }

    pub put_event-Follows :
        (key val : Bytes)
        → limit + (20 + length key) < 2 ^ 63
        → size + record_size (put_of key val) < 2 ^ 63
        → Follows (put_event key val) d rs limit size
    unfolding step answer expected put
    put_event-Follows key val idx_space log_space =
        let (s, buckets, within) = o.stores in
        let r = put_of key val in
        elim (limits key val) [
          | within_limits fits none_wrong ↦
              let (d', s', run, same, grown) =
                put-grows key val s fits (omega arith)
                  (omega (arith, length-log_of crc rs, o.log_size)) in
              (
                d',
                rs ++ r ∷ [],
                rw (run, none_wrong) refl,
                record {
                  stores = (s', same ∙ buckets, omega (arith, grown));
                  entries = omega (arith, o.entries, growth-append rs r);
                  log_size = omega (arith, o.log_size, records_size-snoc rs r);
                },
                λ k. rw none_wrong (ap (λ v. v k) (values-append rs r (λ key. none))),
              )
          | long_key long wrong ↦ (
            d,
            rs,
            rw (s.is_open, long) refl,
            same-Opened (20 + length key) (record_size r),
            λ k. rw wrong refl,
          )
          | long_value short long wrong ↦ (
            d,
            rs,
            rw (s.is_open, short, long) refl,
            same-Opened (20 + length key) (record_size r),
            λ k. rw wrong refl,
          )
        ]

    pub get_event-Follows : (key : Bytes) → Follows (get_event key) d rs limit size
    unfolding step answer expected
    get_event-Follows key =
        let (s, buckets, within) = o.stores in
        (d, rs, rw (get-Stores key s) refl, same-Opened 0 0, λ k. refl)

    pub erase_event-Follows :
        (key : Bytes)
        → limit + (20 + length key) < 2 ^ 63
        → size + record_size (delete_of key) < 2 ^ 63
        → Follows (erase_event key) d rs limit size
    unfolding step answer expected
    erase_event-Follows key idx_space log_space =
        let (s, buckets, within) = o.stores in
        let r = delete_of key in
        let (d', run, (s', same, grown)) =
          erase-sized key s (omega (arith, length-log_of crc rs, o.log_size)) in
        (
          d',
          erased rs key,
          rw run refl,
          record {
            stores = (s', same ∙ buckets, omega (arith, grown));
            entries = elim (Bool-cases (has_value (stored_map rs key))) [
              | inl has ↦ rw has (omega (arith, o.entries, growth-append rs r))
              | inr gone ↦ rw gone (omega (arith, o.entries))
            ];
            log_size = elim (Bool-cases (has_value (stored_map rs key))) [
              | inl has ↦ rw has (omega (arith, o.log_size, records_size-snoc rs r))
              | inr gone ↦ rw gone (omega (arith, o.log_size))
            ];
          },
          values-erased rs key,
        )

    pub reopen-Follows : Follows reopen d rs limit size
    unfolding step answer expected
    reopen-Follows =
        let (s, buckets, within) = o.stores in
        let (d', s', run, report, same, idx_size) =
          open_database-destroy_sized create n path s named pos in
        (
          d',
          rs,
          rw run refl,
          record {
            stores = (s', same ∙ buckets, omega (arith, idx_size));
            entries = omega (arith, o.entries);
            log_size = omega (arith, o.log_size);
          },
          λ k. refl,
        )
