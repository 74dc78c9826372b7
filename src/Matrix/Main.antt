-- ===== src/Matrix/Main.antt =====
-- apps/matrix/matrix.cpp: `main` behind the parser.
pub mod Arguments
pub mod Defaults
pub mod Passes
use zidanedb.Base.{ℕ, ◌++◌, ◌∷◌, []}
use zidanedb.Base.Results.{Result, ok, throws, diverges, stops_at, Exception}
use zidanedb.Constants.{codes}
use zidanedb.Stream.{Bytes}
use zidanedb.Record.{Crc32c}
use zidanedb.Database.{CreateDirectory}
use zidanedb.Matrix.Utils.{Picks}
use zidanedb.Matrix.Workloads.{
  Pairs, Files, Verdict, failed_with, run_basic, run_perf_basic, run_perf_large_values,
  run_perf_overwrite, run_hash_collision,
}
use zidanedb.Matrix.Crash.{System, run_crash_test}

-- The subcommand that was selected, with its options.
pub data Subcommand : Type 0 where
  basic : Subcommand
  perf_basic : (pair_count : ℕ) → Subcommand
  perf_large_values : (pair_count value_size : ℕ) → Subcommand
  perf_overwrite : (pair_count overwrite_times : ℕ) → Subcommand
  hash_collision : (pair_count bucket_count : ℕ) → Subcommand
  crash_test : (failpoint : Bytes) → Subcommand

-- `what` is the text of an exception.
abbrev pub reported : (what : Exception → Bytes) → Result Verdict → Result Verdict
reported what (ok verdict) = ok verdict
reported what (throws e) = ok (failed_with (codes "matrix: " ++ what e))
reported what diverges = diverges
reported what (stops_at name) = stops_at name

-- `create` and `reopen_create` are the answers of `create_directory` for the databases of a workload,
-- `system` and `directory` what the crash test meets.
module _ (crc : Crc32c) (create reopen_create : ℕ → CreateDirectory) (temporary : Bytes)
    (order : Pairs → Pairs) (picks : Picks) (system : System) (directory : ℕ → Bytes) where
  unfoldable pub run_subcommand : Subcommand → Files → Result Verdict
  run_subcommand basic f = (run_basic crc create reopen_create temporary picks order f).0
  run_subcommand (perf_basic pair_count) f =
      (run_perf_basic crc create reopen_create temporary order pair_count f).0
  run_subcommand (perf_large_values pair_count value_size) f =
      (run_perf_large_values crc create reopen_create temporary picks pair_count value_size f).0
  run_subcommand (perf_overwrite pair_count overwrite_times) f =
      (run_perf_overwrite crc create reopen_create temporary order pair_count overwrite_times f).0
  run_subcommand (hash_collision pair_count bucket_count) f =
      (run_hash_collision crc create reopen_create temporary order pair_count bucket_count f).0
  run_subcommand (crash_test failpoint) f = run_crash_test crc system directory order failpoint

  unfoldable pub main : (what : Exception → Bytes) → Subcommand → Files → Result Verdict
  main what command f = reported what (run_subcommand command f)
