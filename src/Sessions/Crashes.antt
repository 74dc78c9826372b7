-- ===== src/Sessions/Crashes.antt =====
-- The failures on an open database: what opening the files again makes of them.
use zidanedb.Base.{
  ℕ, ◌+◌, ◌*◌, ◌^◌, ◌<◌, ◌≡◌, refl, sym, ap, ◌∙◌, Option, none, some, List, [], ◌∷◌, ◌++◌, Bool,
  if◌then◌else◌, length, arith, All, inl, inr, Bool-cases, append-nil,
}
use zidanedb.Base.Results.{ok}
use zidanedb.Constants.{codes}
use zidanedb.Stream.{Bytes}
use zidanedb.Record.{Crc32c, Record, RecordType}
use zidanedb.Record.RoundTrip.{Fits, record_size}
use zidanedb.Database.{Database, CreateDirectory, made, ScanStatus, extension, open_database}
use zidanedb.Database.Scan.{Tail, whole}
use zidanedb.Database.Replay.{growth}
use zidanedb.Database.Recovery.{log_of, open_index-Holds}
use zidanedb.Database.Contents.{StoresSized, put_of, stored}
use zidanedb.Database.Writes.{values-append}
use zidanedb.Database.Opening.{log_header}
use zidanedb.Database.Opening.Recovered.{
  missing, torn_log, open_database-Unusable, open_database-Unclean,
}
use zidanedb.Database.Opening.Reopened.{close-Stores, destroy-close}
use zidanedb.Failpoints
use zidanedb.Failpoints.{is_requested}
use zidanedb.Failpoints.Recovery.{growth-append, open_database-put_crash}
use zidanedb.Failpoints.Closing.{open_database-close_crash}
use zidanedb.Sessions.{kill, lose_index, crash_put, crash_close, step, expected, answer}
use zidanedb.Sessions.Steps.{
  Opened, Follows, limits, within_limits, long_key, long_value, stored_map, length-log_of,
  records_size-snoc,
}

module _ (crc : Crc32c) (create : ℕ → CreateDirectory) (n : ℕ) (path : Bytes) {d : Database}
    {rs : List Record} {limit size : ℕ} (o : Opened crc d rs n limit size)
    (named : extension path ≡ codes ".zdb") (first : create 0 ≡ made) (pos : 0 < n)
    (lt : n < 2 ^ 59) where
  pub lose_index-Follows : limit < 2 ^ 63 → Follows crc create n path lose_index d rs limit size
  unfolding step answer expected
  lose_index-Follows idx_room =
      let (s, buckets, within) = o.stores in
      let (idx, closed, holds, same) = close-Stores s in
      let (d', run, (s', same', grown), report) =
        open_database-Unusable crc create n path rs named first pos lt missing s.fits s.small
          (omega (arith, o.entries)) in
      (
        d',
        rs,
        rw (destroy-close d closed, s.log, run) refl,
        record {
          stores = (s', same', omega (arith, grown, o.entries));
          entries = omega (arith, o.entries);
          log_size = omega (arith, o.log_size);
        },
        λ k. refl,
      )

  -- Opening a log with other records and a tail behind them, with the index file that is there.
  pub open-Tail :
      (records : List Record) (tail : Bytes) {status : ScanStatus} {log : Bytes}
      → log ≡ torn_log crc records tail
      → Tail crc tail status
      → All Fits records
      → length (torn_log crc records tail) < 2 ^ 63
      → 41 + 8 * n + growth records < 2 ^ 63
      → (d' : Database) × (open_database crc create n path (some log) d.idx_file ≡ (ok tt, d'))
        × StoresSized crc d' log_header records n (41 + 8 * n + growth records)
  open-Tail records tail e t fits small room =
      let (s, buckets, within) = o.stores in
      let (d', run, (s', same, grown), report) =
        open_database-Unclean crc create n path records tail {ix = s.index} {idx = s.idx} named
          first (open_index-Holds n pos s.holds) (omega (arith, buckets)) (omega (arith, buckets))
          (inl (λ h. absurd (omega (arith, s.dirty)))) t fits small (omega (arith, buckets)) in
      (d', rw (e, s.idx_file) run, (s', same ∙ buckets, omega (arith, grown, buckets)))

  -- Opening the files of a process that was killed, with nothing written.
  killed-Opened :
      (more_entries more_log : ℕ)
      → limit < 2 ^ 63
      → (d' : Database) × (open_database crc create n path d.db_file d.idx_file ≡ (ok tt, d'))
        × Opened crc d' rs n (limit + more_entries) (size + more_log)
  killed-Opened more_entries more_log idx_room =
      let (s, buckets, within) = o.stores in
      let flat : log_of crc log_header rs ≡ torn_log crc rs [] =
        ap (λ l. log_header ++ l) (sym (append-nil _)) in
      let (d', run, (s', same, grown)) =
        open-Tail rs [] flat whole s.fits (rw (← flat) s.small) (omega (arith, o.entries)) in
      (
        d',
        rw s.log run,
        record {
          stores = (s', same, omega (arith, grown, o.entries));
          entries = omega (arith, o.entries);
          log_size = omega (arith, o.log_size);
        },
      )

  pub kill-Follows : limit < 2 ^ 63 → Follows crc create n path kill d rs limit size
  unfolding step answer expected
  kill-Follows idx_room =
      let (d', run, o') = killed-Opened 0 0 idx_room in (d', rs, rw run refl, o', λ k. refl)

  abbrev left_records : Option Bytes → (key val : Bytes) → List Record
  left_records requested key val =
      if is_requested requested (codes "before_db_append") then rs else rs ++ put_of key val ∷ []

  -- A put within the size limits that a failpoint may have stopped.
  stopped_put :
      (requested : Option Bytes) (early : Bool) (key val : Bytes)
      → Fits (put_of key val)
      → limit + (20 + length key) < 2 ^ 63
      → size + record_size (put_of key val) < 2 ^ 63
      → (d' : Database) × (open_database crc create n path
            (Failpoints.put requested early crc key val d).1.db_file
            (Failpoints.put requested early crc key val d).1.idx_file
          ≡ (ok tt, d'))
        × Opened crc d'
            (left_records requested key val)
            n
            (limit + (20 + length key))
            (size + record_size (put_of key val))
        × ((k : Bytes)
            → stored_map (left_records requested key val) k
              ≡ (if is_requested requested (codes "before_db_append")
                    then stored_map rs
                    else stored RecordType.put key val (stored_map rs))
                  k)
  stopped_put requested early key val fits idx_space log_space =
      let (s, buckets, within) = o.stores in
      let r = put_of key val in
      let (d', run, (s', same, grown), report) =
        open_database-put_crash create n path requested early key val s named first pos
          (omega (arith, buckets)) fits.key fits.value (omega arith)
          (omega (arith, length-log_of crc rs, o.log_size)) (omega (arith, buckets, o.entries)) in
      (
        d',
        run,
        record {
          stores = (s', same ∙ buckets, omega (arith, grown, buckets, o.entries));
          entries = elim (Bool-cases (is_requested requested (codes "before_db_append"))) [
            | inl asked ↦ rw asked (omega (arith, o.entries))
            | inr other ↦ rw other (omega (arith, o.entries, growth-append rs r))
          ];
          log_size = elim (Bool-cases (is_requested requested (codes "before_db_append"))) [
            | inl asked ↦ rw asked (omega (arith, o.log_size))
            | inr other ↦ rw other (omega (arith, o.log_size, records_size-snoc rs r))
          ];
        },
        λ k. elim (Bool-cases (is_requested requested (codes "before_db_append"))) [
          | inl asked ↦ rw asked refl
          | inr other ↦ rw other (ap (λ v. v k) (values-append rs r (λ key. none)))
        ],
      )

  pub crash_put-Follows :
      (requested : Option Bytes) (early : Bool) (key val : Bytes)
      → limit + (20 + length key) < 2 ^ 63
      → size + record_size (put_of key val) < 2 ^ 63
      → Follows crc create n path (crash_put requested early key val) d rs limit size
  unfolding step answer expected Failpoints.put
  crash_put-Follows requested early key val idx_space log_space =
      let (s, buckets, within) = o.stores in
      elim (limits key val) [
        | within_limits fits accepted ↦
            let (d', run, o', same) =
              stopped_put requested early key val fits idx_space log_space in
            (d', left_records requested key val, rw run refl, o', λ k. rw accepted (same k))
        | long_key long wrong ↦
            let (d', run, o') =
              killed-Opened (20 + length key) (record_size (put_of key val)) (omega arith) in
            (d', rs, rw (s.is_open, long, run) refl, o', λ k. rw wrong refl)
        | long_value short long wrong ↦
            let (d', run, o') =
              killed-Opened (20 + length key) (record_size (put_of key val)) (omega arith) in
            (d', rs, rw (s.is_open, short, long, run) refl, o', λ k. rw wrong refl)
      ]

  pub crash_close-Follows :
      (requested : Option Bytes)
      → limit < 2 ^ 63
      → Follows crc create n path (crash_close requested) d rs limit size
  unfolding step answer expected
  crash_close-Follows requested idx_room =
      let (s, buckets, within) = o.stores in
      let (d', run, (s', same, grown), report) =
        open_database-close_crash create n path requested limit s named first pos
          (omega (arith, buckets)) within (omega (arith, buckets, o.entries)) idx_room in
      (
        d',
        rs,
        rw run refl,
        record {
          stores = (s', same ∙ buckets, omega (arith, grown));
          entries = omega (arith, o.entries);
          log_size = omega (arith, o.log_size);
        },
        λ k. refl,
      )
