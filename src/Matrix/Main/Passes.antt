-- ===== src/Matrix/Main/Passes.antt =====
-- The workloads pass when they are run by `main`.
use zidanedb.Base.{ℕ, ◌+◌, ◌*◌, ◌^◌, ◌≤◌, ◌<◌, ◌≡◌, ap}
use zidanedb.Base.Results.{Result, ok, Exception}
use zidanedb.Constants.{max_value_size}
use zidanedb.Stream.{Bytes}
use zidanedb.Record.{Crc32c}
use zidanedb.Database.{CreateDirectory}
use zidanedb.Matrix.Utils.{Picks}
use zidanedb.Matrix.Utils.Keys.{pow10}
use zidanedb.Matrix.Workloads.{Pairs, Files, Verdict, passed, no_files}
use zidanedb.Matrix.Workloads.Pairs.{Rearranged}
use zidanedb.Matrix.Workloads.Timed.{
  run_perf_basic-passes, run_perf_overwrite-passes, run_hash_collision-passes,
}
use zidanedb.Matrix.Workloads.Large.{run_perf_large_values-passes}
use zidanedb.Matrix.Workloads.Basic.{run_basic-passes}
use zidanedb.Matrix.Crash.{System}
use zidanedb.Matrix.Main.{
  basic, perf_basic, perf_large_values, perf_overwrite, hash_collision, run_subcommand, main,
  reported,
}

exits :
    (what : Exception → Bytes) {r : Result Verdict × Files}
    → r ≡ (ok passed, no_files)
    → reported what r.0 ≡ ok passed
exits what h = ap (λ q. reported what q.0) h

-- Where the iteration over a map only rearranges its pairs, there are ten thousand million pairs at
-- most, the values of the large test are within the size limit, the logs of the large and the
-- overwrite test stay below 2^63 bytes with some room, and the number of buckets is positive and
-- below 2^59: `main` exits with 0 and prints nothing on the error stream for `basic`, `perf-basic`,
-- `perf-large-values`, `perf-overwrite` and `hash-collision`, whatever files were there.
pub main-passes :
    (crc : Crc32c) (create reopen_create : ℕ → CreateDirectory) (temporary : Bytes)
    (order : Pairs → Pairs) (picks : Picks) (system : System) (directory : ℕ → Bytes)
    (what : Exception → Bytes) (f : Files) (pair_count value_size overwrite_times bucket_count : ℕ)
    → ((pairs : Pairs) → Rearranged pairs (order pairs))
    → pair_count ≤ pow10 10
    → value_size ≤ max_value_size
    → 24 + (33 + value_size) * pair_count < 2 ^ 63
    → 2 ^ 24 + 43 * (pair_count + overwrite_times * pair_count) < 2 ^ 63
    → 0 < bucket_count
    → bucket_count < 2 ^ 59
    → (main crc create reopen_create temporary order picks system directory what basic f
        ≡ ok passed)
      × (main crc create reopen_create temporary order picks system directory what
            (perf_basic pair_count)
            f
          ≡ ok passed)
      × (main crc create reopen_create temporary order picks system directory what
            (perf_large_values pair_count value_size)
            f
          ≡ ok passed)
      × (main crc create reopen_create temporary order picks system directory what
            (perf_overwrite pair_count overwrite_times)
            f
          ≡ ok passed)
      × (main crc create reopen_create temporary order picks system directory what
            (hash_collision pair_count bucket_count)
            f
          ≡ ok passed)
unfolding main run_subcommand
main-passes crc create reopen_create temporary order picks system directory what f n v t b
      rearranges lt value_le large_room room pos buckets_lt =
    (
      exits what (run_basic-passes crc create reopen_create temporary picks order f rearranges),
      exits what (run_perf_basic-passes crc create reopen_create temporary order n f rearranges lt),
      exits what (
          run_perf_large_values-passes crc create reopen_create temporary picks n v f lt value_le
            large_room),
      exits what (
          run_perf_overwrite-passes crc create reopen_create temporary order n t f rearranges lt
            room),
      exits what (
          run_hash_collision-passes crc create reopen_create temporary order n b f rearranges lt pos
            buckets_lt),
    )
