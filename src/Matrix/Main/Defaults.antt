-- ===== src/Matrix/Main/Defaults.antt =====
-- What `main` does with the defaults of its options.
use zidanedb.Base.{ℕ, ◌*◌, ◌≡◌, refl, arith, none, some, List, Bool, true, All}
use zidanedb.Base.Results.{Exception, Result, ok}
use zidanedb.Stream.{Bytes}
use zidanedb.Record.{Crc32c}
use zidanedb.Database.{CreateDirectory, made}
use zidanedb.Matrix.Utils.{Picks, temporary_directory}
use zidanedb.Matrix.Processes.{ChildProcess, child_process}
use zidanedb.Matrix.Workloads.{Pairs, Files, Verdict, passed}
use zidanedb.Matrix.Workloads.Pairs.{Rearranged}
use zidanedb.Matrix.Crash.{Failpoint, failpoint_name, System, reached, watch}
use zidanedb.Matrix.Crash.Recovers.{run_crash_test-passes}
use zidanedb.Matrix.Main.{main, run_subcommand}
use zidanedb.Matrix.Main.Arguments.{
  Arguments, basic_arguments, perf_basic_arguments, perf_large_values_arguments,
  perf_overwrite_arguments, hash_collision_arguments, crash_test_arguments, failpoint_names,
  subcommand, main_arguments,
}
use zidanedb.Matrix.Main.Passes.{main-passes}

module _ (positive : ℕ → Bool) (is_member : List Bytes → Bytes → Bool) where
  -- `CLI::IsMember` accepts the members of its list.
  failpoint-is_member :
      ((names : List Bytes) → All (λ name. is_member names name ≡ true) names)
      → (failpoint : Failpoint) → is_member failpoint_names (failpoint_name failpoint) ≡ true
  unfolding failpoint_name
  failpoint-is_member accepts Failpoint.before_db_append = (accepts failpoint_names).0
  failpoint-is_member accepts Failpoint.after_db_append = (accepts failpoint_names).1.0
  failpoint-is_member accepts Failpoint.before_update_indexed_up_to_offset =
      (accepts failpoint_names).1.1.0
  failpoint-is_member accepts Failpoint.after_update_indexed_up_to_offset =
      (accepts failpoint_names).1.1.1.0
  failpoint-is_member accepts Failpoint.clean_db_close = (accepts failpoint_names).1.1.1.1.0
  failpoint-is_member accepts Failpoint.after_modify_existing_entry =
      (accepts failpoint_names).1.1.1.1.1.0
  failpoint-is_member accepts Failpoint.before_update_bucket_head =
      (accepts failpoint_names).1.1.1.1.1.1.0
  failpoint-is_member accepts Failpoint.after_update_bucket_head =
      (accepts failpoint_names).1.1.1.1.1.1.1.0
  failpoint-is_member accepts Failpoint.before_set_index_clean =
      (accepts failpoint_names).1.1.1.1.1.1.1.1.0

  module _ (crc : Crc32c) (create reopen_create : ℕ → CreateDirectory) (temporary : Bytes)
      (order : Pairs → Pairs) (picks : Picks) (system : System) (directory : ℕ → Bytes)
      (parse_error : Verdict) (what : Exception → Bytes) where
    abbrev pub exits_with : Arguments → Files → Result Verdict
    exits_with arguments f =
        main_arguments positive is_member crc create reopen_create temporary order picks system
          directory parse_error what arguments f

    module _ (rearranges : (pairs : Pairs) → Rearranged pairs (order pairs)) where
      -- Where the iteration over a map only rearranges its pairs, `main` exits with 0 and prints nothing
      -- on the error stream for `basic`, and for `perf-basic`, `perf-large-values`, `perf-overwrite` and
      -- `hash-collision` without options, whatever files were there.
      pub main_arguments-defaults :
          (f : Files)
          → (exits_with basic_arguments f ≡ ok passed)
            × (exits_with (perf_basic_arguments none) f ≡ ok passed)
            × (exits_with (perf_large_values_arguments none none) f ≡ ok passed)
            × (exits_with (perf_overwrite_arguments none none) f ≡ ok passed)
            × (exits_with (hash_collision_arguments none none) f ≡ ok passed)
      unfolding main_arguments subcommand
      main_arguments-defaults f =
          let passes = λ (n v t b : ℕ).
            main-passes crc create reopen_create temporary order picks system directory what f n v t
              b rearranges in
          let basic_passes =
            passes 10_000 0 0 1 (omega arith) (omega arith) (omega arith) (omega arith)
              (omega arith) (omega arith) in
          let larger_passes =
            passes 1_000 (64 * 1024) 100 1 (omega arith) (omega arith) (omega arith) (omega arith)
              (omega arith) (omega arith) in
          let hash_passes =
            passes 1_000_000 0 0 1_000_000 (omega arith) (omega arith) (omega arith) (omega arith)
              (omega arith) (omega arith) in
          (basic_passes.0, basic_passes.1, larger_passes.2, larger_passes.3, hash_passes.4)

      -- For every failpoint that the check of the argument lists: where the check accepts the members of
      -- its list, a candidate for the workspace is created, the first staging directory of the last
      -- database is made, the iteration over a map only rearranges its pairs, `fork` succeeds, and the
      -- parent sees a stopped child and kills and reaps it, `main` exits with 0 for `crash-test` with
      -- its name, and prints nothing on the error stream.
      pub main_arguments-crash_test :
          (f : Files) (failpoint : Failpoint) {attempt : ℕ} {child : ChildProcess}
          → ((names : List Bytes) → All (λ name. is_member names name ≡ true) names)
          → temporary_directory system.workspace ≡ ok attempt
          → system.reopen_create 0 ≡ made
          → child_process system.pid system.answers ≡ some child
          → watch system.now system.sent child ≡ ok reached
          → exits_with (crash_test_arguments (failpoint_name failpoint)) f ≡ ok passed
      unfolding main_arguments subcommand main run_subcommand
      main_arguments-crash_test f failpoint accepts workspace again forks stopped =
          rw
            (
              failpoint-is_member accepts failpoint,
              run_crash_test-passes crc system directory order failpoint workspace again rearranges
                  forks stopped,
            )
            refl
