-- ===== src/Matrix/Workloads/Timed.antt =====
-- run_perf_basic, run_perf_overwrite and run_hash_collision.
use zidanedb.Base.{
  ℕ, zero, suc, ◌+◌, ◌*◌, ◌^◌, ◌≤◌, ◌<◌, ◌≡◌, refl, Option, none, some, List, [], ◌∷◌, ◌++◌,
  if◌then◌else◌, ◌==◌, arith, length, All, length-append, bytes_eq_self,
}
use zidanedb.Base.Results.{ok}
use zidanedb.Base.Exec.{◌>>◌}
use zidanedb.Constants.{codes}
use zidanedb.Stream.{Bytes}
use zidanedb.Record.{Crc32c, Record}
use zidanedb.Record.RoundTrip.{Fits}
use zidanedb.Record.Sequence.{records_bytes, records_size, length-records_bytes}
use zidanedb.Database.{Database, CreateDirectory, filename_loop, extension}
use zidanedb.Database.Replay.{growth}
use zidanedb.Database.Contents.{Stores, stored, values}
use zidanedb.Database.Opening.{log_header, length-log_header}
use zidanedb.Matrix.Workloads.{
  Pairs, Files, passed, no_files, expected_loop, verification_failed, put_all, overwrite_loop,
  run_perf_basic, run_perf_overwrite, run_hash_collision,
}
use zidanedb.Matrix.Workloads.Pairs.{
  Distinct, Rearranged, All-Rearranged, Distinct-Rearranged, expected_loop-Distinct, puts,
  values-puts,
}
use zidanedb.Matrix.Workloads.Sizes.{
  puts-Fits, records_size-puts, growth-puts, length-Rearranged, expected_loop-Within,
}
use zidanedb.Matrix.Workloads.Passes.{
  StoresWithin, put_all-Stores, Writes, db_size-Measures, both_sizes-Measures, index_stats-Measures,
  timed_test-passes,
}
use zidanedb.Matrix.Utils.Keys.{pow10}

-- The file name behind the last separator.
pub filename_loop-append :
    (directory name rest : Bytes)
    → filename_loop name (directory ++ b'/' ∷ rest) ≡ filename_loop [] rest
unfolding filename_loop
filename_loop-append [] name rest = refl
filename_loop-append (c ∷ directory) name rest =
    filename_loop-append directory (if c == b'/' then [] else name ++ c ∷ []) rest

content : (key v : Bytes) → verification_failed key v (some v) ≡ none
unfolding verification_failed
content key v = rw (bytes_eq_self v) refl

-- What the tests use of the pairs that they make.
record Ready (pairs : Pairs) (count : ℕ) : Type 0 where
  distinct : Distinct pairs
  fits : All Fits (puts pairs)
  log_size : records_size (puts pairs) ≤ 43 * count
  idx_size : growth (puts pairs) ≤ 34 * count

expected-Ready :
    (order : Pairs → Pairs) (count : ℕ)
    → ((pairs : Pairs) → Rearranged pairs (order pairs))
    → count ≤ pow10 10
    → Ready (order (expected_loop count 0 [])) count
expected-Ready order count rearranges lt =
    let pairs = expected_loop count 0 [] in
    let r = rearranges pairs in
    let (small, size) = expected_loop-Within count 0 [] (omega arith) tt in
    let within = All-Rearranged (λ p. (length p.0 ≤ 14) × (length p.1 ≤ 16)) r small in
    record {
      distinct = Distinct-Rearranged r (expected_loop-Distinct count 0 [] tt);
      fits = puts-Fits 14 16 (order pairs) (omega arith) (omega arith) within;
      log_size = omega (arith, records_size-puts 14 16 (order pairs) within, length-Rearranged r);
      idx_size = omega (arith, growth-puts 14 16 (order pairs) within, length-Rearranged r);
    }

values-append :
    (rs rs' : List Record) (m : Bytes → Option Bytes)
    → values m (rs ++ rs') ≡ values (values m rs) rs'
unfolding values
values-append [] rs' m = refl
values-append (r ∷ rs) rs' m = values-append rs rs' (stored r.type r.key r.value m)

records_size-append :
    (rs rs' : List Record) → records_size (rs ++ rs') ≡ records_size rs + records_size rs'
records_size-append [] rs' = omega arith
records_size-append (r ∷ rs) rs' = omega (arith, records_size-append rs rs')

abbrev pub Agrees : List Record → Pairs → Type 0
Agrees rs pairs = All (λ p. values (λ key. none) rs p.0 ≡ some p.1) pairs

module _ {crc : Crc32c} {pairs : Pairs} {count : ℕ} (ready : Ready pairs count) where
  -- Putting all pairs, on top of other records.
  put_all-Agrees :
      (limit size : ℕ) {d : Database} {rs : List Record}
      → StoresWithin crc d log_header rs limit
      → length (log_header ++ records_bytes crc rs) ≤ size
      → limit + 34 * count < 2 ^ 63
      → size + 43 * count < 2 ^ 63
      → (d' : Database) × (put_all crc pairs d ≡ (ok tt, d'))
        × StoresWithin crc d' log_header (rs ++ puts pairs) (limit + 34 * count)
        × (length (log_header ++ records_bytes crc (rs ++ puts pairs)) ≤ size + 43 * count)
        × Agrees (rs ++ puts pairs) pairs
  put_all-Agrees limit size {d} {rs} s log idx_room log_room =
      let (d', run, (s', within)) =
        put_all-Stores pairs limit s ready.fits (omega (arith, ready.idx_size))
          (omega (arith, ready.log_size)) in
      (
        d',
        run,
        (s', omega (arith, ready.idx_size)),
        omega (
          arith,
          length-append log_header (records_bytes crc rs),
          length-append log_header (records_bytes crc (rs ++ puts pairs)),
          length-records_bytes crc rs,
          length-records_bytes crc (rs ++ puts pairs),
          records_size-append rs (puts pairs),
          ready.log_size,
        ),
        rw (values-append rs (puts pairs) (λ key. none))
            (values-puts pairs (values (λ key. none) rs) ready.distinct),
      )

  -- The overwrites, on a log that already agrees with the pairs.
  overwrite_loop-Agrees :
      (times limit size : ℕ) {d : Database} {rs : List Record}
      → StoresWithin crc d log_header rs limit
      → length (log_header ++ records_bytes crc rs) ≤ size
      → Agrees rs pairs
      → limit + 34 * (times * count) < 2 ^ 63
      → size + 43 * (times * count) < 2 ^ 63
      → (d' : Database) × (rs' : List Record) × (overwrite_loop crc times pairs d ≡ (ok tt, d'))
        × Stores crc d' log_header rs'
        × Agrees rs' pairs
  unfolding overwrite_loop
  overwrite_loop-Agrees zero limit size {d} {rs} (s, within) log agrees idx_room log_room =
      (d, rs, refl, s, agrees)
  overwrite_loop-Agrees (suc times) limit size {d} {rs} s log agrees idx_room log_room =
      let more : suc times * count ≡ count + times * count = grind arith in
      let (d', run, s', log', agrees') =
        put_all-Agrees limit size {d = d} {rs = rs} s log (omega (arith, more))
          (omega (arith, more)) in
      let (d'', rs', run', stored, agrees'') =
        overwrite_loop-Agrees times (limit + 34 * count) (size + 43 * count) {d = d'}
          {rs = rs ++ puts pairs} s' log' agrees' (omega (arith, more)) (omega (arith, more)) in
      (d'', rs', rw run run', stored, agrees'')

-- The log of a new database.
pub new_log : (crc : Crc32c) → length (log_header ++ records_bytes crc []) ≤ 24
unfolding records_bytes
new_log crc = omega (arith, length-append log_header [], length-log_header)

module _ {crc : Crc32c} {pairs : Pairs} {count : ℕ} (ready : Ready pairs count) (buckets : ℕ) where
  put_all-Writes :
      count ≤ pow10 10 → buckets < 2 ^ 59 → Writes crc (put_all crc pairs) buckets pairs
  put_all-Writes lt buckets_lt d s =
      let (d', run, (s', within), log, agrees) =
        put_all-Agrees ready (41 + 8 * buckets) 24 s (new_log crc) (omega arith) (omega arith) in
      (d', puts pairs, run, s', agrees)

  overwrite-Writes :
      (times : ℕ)
      → buckets < 2 ^ 59
      → 41 + 8 * buckets + 34 * (count + times * count) < 2 ^ 63
      → 24 + 43 * (count + times * count) < 2 ^ 63
      → Writes crc (put_all crc pairs >> overwrite_loop crc times pairs) buckets pairs
  overwrite-Writes times buckets_lt idx_room log_room d s =
      let (d', run, s', log, agrees) =
        put_all-Agrees ready (41 + 8 * buckets) 24 {d = d} {rs = []} s (new_log crc) (omega arith)
          (omega arith) in
      let (d'', rs', run', s'', agrees') =
        overwrite_loop-Agrees ready times (41 + 8 * buckets + 34 * count) (24 + 43 * count) {d = d'}
          {rs = puts pairs} s' log agrees (omega arith) (omega arith) in
      (d'', rs', rw run run', s'', agrees')

module _ (crc : Crc32c) (create reopen_create : ℕ → CreateDirectory) (temporary : Bytes)
    (order : Pairs → Pairs) (count : ℕ) where
  -- Where the iteration over a map only rearranges its pairs, and there are ten thousand million
  -- pairs at most and a positive number of buckets below 2^59, `run_hash_collision` returns 0 with
  -- nothing on the error stream, and leaves no files.
  pub run_hash_collision-passes :
      (buckets : ℕ) (f : Files)
      → ((pairs : Pairs) → Rearranged pairs (order pairs))
      → count ≤ pow10 10
      → 0 < buckets
      → buckets < 2 ^ 59
      → run_hash_collision crc create reopen_create temporary order count buckets f
        ≡ (ok passed, no_files)
  unfolding run_hash_collision extension
  run_hash_collision-passes buckets f rearranges lt pos buckets_lt =
      timed_test-passes crc create reopen_create buckets _ _ _ verification_failed _
        (rw (filename_loop-append temporary [] (codes "matrix-hash-collision.zdb")) refl) pos
        buckets_lt (put_all-Writes (expected-Ready order count rearranges lt) buckets lt buckets_lt)
        (λ d rs s. rw (both_sizes-Measures crc d rs s) (index_stats-Measures crc d rs s)) content f

  -- Where the iteration over a map only rearranges its pairs, and there are ten thousand million
  -- pairs at most, `run_perf_basic` returns 0 with nothing on the error stream, and leaves no files.
  pub run_perf_basic-passes :
      (f : Files)
      → ((pairs : Pairs) → Rearranged pairs (order pairs))
      → count ≤ pow10 10
      → run_perf_basic crc create reopen_create temporary order count f ≡ (ok passed, no_files)
  unfolding run_perf_basic extension
  run_perf_basic-passes f rearranges lt =
      timed_test-passes crc create reopen_create 1_000_000 _ _ _ verification_failed _
        (rw (filename_loop-append temporary [] (codes "matrix-performance.zdb")) refl) (omega arith)
        (omega arith)
        (put_all-Writes (expected-Ready order count rearranges lt) 1_000_000 lt (omega arith))
        (db_size-Measures crc) content f

  -- Where the iteration over a map only rearranges its pairs, there are ten thousand million pairs
  -- at most, and 43 bytes for each put stay below 2^63 - 2^24 bytes together, `run_perf_overwrite`
  -- returns 0 with nothing on the error stream, and leaves no files.
  pub run_perf_overwrite-passes :
      (times : ℕ) (f : Files)
      → ((pairs : Pairs) → Rearranged pairs (order pairs))
      → count ≤ pow10 10
      → 2 ^ 24 + 43 * (count + times * count) < 2 ^ 63
      → run_perf_overwrite crc create reopen_create temporary order count times f
        ≡ (ok passed, no_files)
  unfolding run_perf_overwrite extension
  run_perf_overwrite-passes times f rearranges lt room =
      timed_test-passes crc create reopen_create 1_000_000 _ _ _ verification_failed _
        (rw (filename_loop-append temporary [] (codes "matrix-overwrite-performance.zdb")) refl)
        (omega arith) (omega arith)
        (overwrite-Writes (expected-Ready order count rearranges lt) 1_000_000 times (omega arith)
          (omega arith) (omega arith))
        (both_sizes-Measures crc) content f
