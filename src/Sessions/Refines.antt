-- ===== src/Sessions/Refines.antt =====
-- A database behaves as a map over its whole life.
use zidanedb.Base.{ℕ, ◌+◌, ◌*◌, ◌^◌, ◌<◌, ◌≡◌, refl, ap, ◌∙◌, none, List, [], ◌∷◌, arith, All}
use zidanedb.Base.Results.{ok}
use zidanedb.Constants.{codes}
use zidanedb.Stream.{Bytes}
use zidanedb.Record.{Crc32c, Record}
use zidanedb.Database.{Database, CreateDirectory, made, extension, get}
use zidanedb.Database.Contents.{get-Stores, values}
use zidanedb.Database.Opening.Created.{open_database-sized}
use zidanedb.Sessions.{
  Event, put_event, get_event, erase_event, reopen, kill, lose_index, crash_put, crash_close,
  cut_append, run, run_new, expected, answers, final, WithinLimits, entry_room, log_room, sum,
}
use zidanedb.Sessions.Cuts.{cut_append-Follows}
use zidanedb.Sessions.Steps.{
  Opened, Follows, stored_map, put_event-Follows, get_event-Follows, erase_event-Follows,
  reopen-Follows,
}
use zidanedb.Sessions.Crashes.{
  kill-Follows, lose_index-Follows, crash_put-Follows, crash_close-Follows,
}

module _ (crc : Crc32c) (create : ℕ → CreateDirectory) (n : ℕ) (path : Bytes)
    (named : extension path ≡ codes ".zdb") (first : create 0 ≡ made) (pos : 0 < n)
    (lt : n < 2 ^ 59) where
  step-Follows :
      (e : Event) {d : Database} {rs : List Record} {limit size : ℕ}
      → Opened crc d rs n limit size
      → WithinLimits e
      → limit + entry_room e < 2 ^ 63
      → size + log_room e < 2 ^ 63
      → Follows crc create n path e d rs limit size
  step-Follows (put_event key val) o fits idx_space log_space =
      put_event-Follows crc create n path o named first pos lt key val idx_space log_space
  step-Follows (get_event key) o fits idx_space log_space =
      get_event-Follows crc create n path o named first pos lt key
  step-Follows (erase_event key) o fits idx_space log_space =
      erase_event-Follows crc create n path o named first pos lt key idx_space log_space
  step-Follows reopen o fits idx_space log_space =
      reopen-Follows crc create n path o named first pos lt
  step-Follows kill o fits idx_space log_space =
      kill-Follows crc create n path o named first pos lt (omega arith)
  step-Follows lose_index o fits idx_space log_space =
      lose_index-Follows crc create n path o named first pos lt (omega arith)
  step-Follows (crash_put requested early key val) o fits idx_space log_space =
      crash_put-Follows crc create n path o named first pos lt requested early key val idx_space
        log_space
  step-Follows (crash_close requested) o fits idx_space log_space =
      crash_close-Follows crc create n path o named first pos lt requested (omega arith)
  step-Follows (cut_append r count) o fits idx_space log_space =
      cut_append-Follows crc create n path o named first pos lt r count fits idx_space log_space

  run-Opened :
      (es : List Event) {d : Database} {rs : List Record} {limit size : ℕ}
      → Opened crc d rs n limit size
      → All WithinLimits es
      → limit + sum entry_room es < 2 ^ 63
      → size + sum log_room es < 2 ^ 63
      → (d' : Database) × (rs' : List Record) × (run crc create n path es d
          ≡ (ok (answers es (stored_map rs)), d'))
        × Opened crc d' rs' n (limit + sum entry_room es) (size + sum log_room es)
        × (stored_map rs' ≡ final es (stored_map rs))
  unfolding run answers final
  run-Opened [] {d} {rs} {limit} {size} o fits idx_space log_space =
      let (s, buckets, within) = o.stores in
      (
        d,
        rs,
        refl,
        record {
          stores = (s, buckets, omega arith);
          entries = omega (arith, o.entries);
          log_size = omega (arith, o.log_size);
        },
        refl,
      )
  run-Opened (e ∷ es) {d} {rs} {limit} {size} o (fit, fits) idx_space log_space =
      let (d', rs', ran, o', same) = step-Follows e o fit (omega arith) (omega arith) in
      let map : stored_map rs' ≡ expected e (stored_map rs) = λ i k. same k i in
      let (d'', rs'', ran', o'', same') =
        run-Opened es {d = d'} {rs = rs'} {limit = limit + entry_room e} {size = size + log_room e}
          o' fits (omega arith) (omega arith) in
      let (s'', buckets, within) = o''.stores in
      (
        d'',
        rs'',
        rw (ran, ran', map) refl,
        record {
          stores = (s'', buckets, omega arith);
          entries = omega (arith, o''.entries);
          log_size = omega (arith, o''.log_size);
        },
        same' ∙ ap (final es) map,
      )

-- Where the path ends in `.zdb`, the number of buckets is positive and below 2^59, the first staging
-- directory is made, the records whose append is cut are within the size limits, and the index file and
-- the log stay below 2^63 bytes when every put, erase and cut append takes an entry and a record: on a
-- new database, every sequence of puts, gets, erases, closes with opening again, losses of the index
-- file, kills between two calls or behind a `put` or a `close` with any failpoint, and power failures
-- in the middle of an append runs to its end. The calls answer what a map from keys to values answers,
-- a put of a too long key or value its exception, and `get` of any key then returns what that map has.
-- A put that was refused or that was killed at `before_db_append` and an append that was cut short leave
-- the map as it was, every other put, erase and append is in it.
pub run_new-refines :
    (crc : Crc32c) (create : ℕ → CreateDirectory) (n : ℕ) (path : Bytes) (es : List Event)
    (d : Database)
    → extension path ≡ codes ".zdb"
    → create 0 ≡ made
    → 0 < n
    → n < 2 ^ 59
    → All WithinLimits es
    → 41 + 8 * n + sum entry_room es < 2 ^ 63
    → 24 + sum log_room es < 2 ^ 63
    → (d' : Database) × (run_new crc create n path es d ≡ (ok (answers es (λ key. none)), d'))
      × ((key : Bytes) → get crc d' key ≡ ok (final es (λ key. none) key))
unfolding run_new values
run_new-refines crc create n path es d named first pos lt fits idx_space log_space =
    let (d0, s, opened, report, buckets, size) =
      open_database-sized crc create n path named pos lt in
    let o : Opened crc d0 [] n (41 + 8 * n) 24 = record {
      stores = (s, buckets, omega (arith, size));
      entries = omega arith;
      log_size = omega arith;
    } in
    let (d', rs, ran, o', map) =
      run-Opened crc create n path named first pos lt es o fits idx_space log_space in
    (d', rw (opened, ran) refl, λ key. get-Stores key o'.stores.0 ∙ ap (λ m. ok (m key)) map)
