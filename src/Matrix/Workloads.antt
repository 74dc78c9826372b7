-- ===== src/Matrix/Workloads.antt =====
-- apps/matrix: the tests that write pairs into a new database, open it again and read the pairs back.
-- What they print on the output stream, with the times, is not modelled; what they print on the error
-- stream is. `order` is the order in which a `std::unordered_map` iterates, `picks` what the random
-- engine picks, `temporary` the directory for temporary files.
pub mod Pairs
pub mod Sizes
pub mod Timed
pub mod Large
pub mod Basic
pub mod Passes
use zidanedb.Base.{
  ℕ, zero, suc, ◌+◌, ◌*◌, Option, none, some, List, [], ◌∷◌, ◌++◌, Bool, true, false, if◌then◌else◌,
  bytes_eq, length,
}
use zidanedb.Base.Results
use zidanedb.Base.Results.{Result, ok, throws, diverges, stops_at, filesystem_error}
use zidanedb.Base.Exec.{Exec, pure, reads, ◌>>=◌, ◌>>◌}
use zidanedb.Constants.{codes}
use zidanedb.Stream.{Bytes}
use zidanedb.Record.{Crc32c}
use zidanedb.Database.{
  Database, DbExec, CreateDirectory, get, put, get_index_stats, db_file_size, destroy,
  open_database,
}
use zidanedb.Matrix.Utils.{Picks, random_string, to_string}

abbrev pub Pairs : Type 0
Pairs = List (Bytes × Bytes)

-- The files at the two paths of a test.
pub record Files : Type 0 where
  pub db : Option Bytes
  pub idx : Option Bytes

abbrev pub no_files : Files
no_files = record { db = none; idx = none }

abbrev pub files_of : Database → Files
files_of d = record { db = d.db_file; idx = d.idx_file }

-- The exit code and the error stream.
pub record Verdict : Type 0 where
  pub exit_code : ℕ
  pub error : Bytes

abbrev pub passed : Verdict
passed = record { exit_code = 0; error = [] }

abbrev pub failed_with : Bytes → Verdict
failed_with text = record { exit_code = 1; error = text ++ 10 ∷ [] }

-- `std::unordered_map::emplace`, which does not replace
unfoldable pub emplace : Bytes → Bytes → Pairs → Pairs
emplace key value [] = (key, value) ∷ []
emplace key value ((k, v) ∷ pairs) =
    if bytes_eq k key then (k, v) ∷ pairs else (k, v) ∷ emplace key value pairs

-- The loop that makes the expected pairs, with the rounds that are left.
unfoldable pub expected_loop : (rounds index : ℕ) → Pairs → Pairs
expected_loop zero index expected = expected
expected_loop (suc rounds) index expected =
    expected_loop rounds (index + 1)
      (emplace (codes "key-" ++ to_string index) (codes "value-" ++ to_string index) expected)

-- The loop of `run_perf_large_values` that makes its records.
unfoldable pub records_loop : Picks → (value_size rounds index taken_picks : ℕ) → Pairs
records_loop picks value_size zero index n = []
records_loop picks value_size (suc rounds) index n =
    let (value, n') = random_string picks n value_size in
    (codes "large-key-" ++ to_string index, value)
    ∷ records_loop picks value_size rounds (index + 1) n'

-- What is printed where a value that was read is not the expected one.
unfoldable pub verification_failed : (key expected : Bytes) → Option Bytes → Option Bytes
verification_failed key expected none = some (codes "Verification failed for " ++ key)
verification_failed key expected (some actual) =
    if bytes_eq actual expected then none else some (codes "Verification failed for " ++ key)

unfoldable pub missing_or_incorrect : (key expected : Bytes) → Option Bytes → Option Bytes
missing_or_incorrect key expected none = some (codes "Missing key: " ++ key)
missing_or_incorrect key expected (some actual) =
    if bytes_eq actual expected then none else some (codes "Incorrect value for: " ++ key)

-- `std::filesystem::remove` of both paths
unfoldable pub remove_files : Exec Files (Unit {0})
remove_files f = (ok tt, no_files)

abbrev pub stop_or : {A : Type 0} → Option A → Result (Option A) → Result (Option A)
stop_or none rest = rest
stop_or (some a) rest = ok (some a)

abbrev pub sized_index : Option Bytes → Result ℕ
sized_index none = throws filesystem_error
sized_index (some file) = ok (length file)

-- What the tests measure behind the verification.
abbrev pub db_size : DbExec (Unit {0})
db_size = reads db_file_size >> pure tt

abbrev pub both_sizes : DbExec (Unit {0})
both_sizes = db_size >> (reads (λ d. sized_index d.idx_file) >> pure tt)

abbrev pub index_stats : DbExec (Unit {0})
index_stats = reads get_index_stats >> pure tt

module _ (crc : Crc32c) where
  unfoldable pub put_all : Pairs → DbExec (Unit {0})
  put_all [] = pure tt
  put_all ((key, value) ∷ pairs) = put crc key value >> put_all pairs

  -- The loop that reads the expected pairs back, up to the first that fails.
  unfoldable pub verify_loop :
      ((key expected : Bytes) → Option Bytes → Option Bytes)
      → Database
      → Pairs
      → Result (Option Bytes)
  verify_loop complaint d [] = ok none
  verify_loop complaint d ((key, expected) ∷ pairs) =
      Results.and_then (get crc d key)
        λ actual. stop_or (complaint key expected actual) (verify_loop complaint d pairs)

  -- The outer loop of the overwrites.
  unfoldable pub overwrite_loop : ℕ → Pairs → DbExec (Unit {0})
  overwrite_loop zero expected = pure tt
  overwrite_loop (suc times) expected = put_all expected >> overwrite_loop times expected

  -- A block with a database: the destructor runs at its end, and where the block throws.
  abbrev closing : {A : Type 0} → DbExec A → Result (Unit {0}) × Database → Result A × Files
  closing body (ok _, d) = let r = body d in (r.0, files_of (destroy r.1))
  closing body (throws e, d) = (throws e, files_of d)
  closing body (diverges, d) = (diverges, files_of d)
  closing body (stops_at name, d) = (stops_at name, files_of d)

  unfoldable pub in_database :
      {A : Type 0}
      → (ℕ → CreateDirectory)
      → (num_index_buckets : ℕ) → (path : Bytes) → DbExec A
      → Exec Files A
  in_database create num_index_buckets path body f =
      closing body (open_database crc create num_index_buckets path f.db f.idx)

  -- Behind a verification that went well: what the test measures, and the removal of the files while
  -- the database is still open.
  unfoldable pub finish : DbExec (Unit {0}) → DbExec Verdict
  finish measures = do measures; λ d. (ok passed, record d { db_file = none; idx_file = none })

  unfoldable pub finish_or_fail : DbExec (Unit {0}) → Option Bytes → DbExec Verdict
  finish_or_fail measures none = finish measures
  finish_or_fail measures (some text) = pure (failed_with text)

  -- The steps that the tests with timings share. The answers of `create_directory` are those for the
  -- two databases that are opened.
  module _ (create reopen_create : ℕ → CreateDirectory) where
    unfoldable pub timed_test :
        (buckets : ℕ)
        → (path : Bytes) → (writes measures : DbExec (Unit {0}))
        → ((key expected : Bytes) → Option Bytes → Option Bytes)
        → (expected : Pairs) → Exec Files Verdict
    timed_test buckets path writes measures complaint expected = do
      remove_files
      in_database create buckets path writes
      in_database reopen_create 1_000_000 path (do
        result ← reads (λ d. verify_loop complaint d expected)
        finish_or_fail measures result)

    module _ (temporary : Bytes) (order : Pairs → Pairs) where
      unfoldable pub run_perf_basic : (pair_count : ℕ) → Exec Files Verdict
      run_perf_basic pair_count =
          let expected = order (expected_loop pair_count 0 []) in
          timed_test 1_000_000 (temporary ++ codes "/matrix-performance.zdb") (put_all expected)
            db_size verification_failed expected

      unfoldable pub run_perf_overwrite : (pair_count overwrite_times : ℕ) → Exec Files Verdict
      run_perf_overwrite pair_count overwrite_times =
          let expected = order (expected_loop pair_count 0 []) in
          timed_test 1_000_000 (temporary ++ codes "/matrix-overwrite-performance.zdb")
            (put_all expected >> overwrite_loop overwrite_times expected) both_sizes
            verification_failed expected

      unfoldable pub run_hash_collision : (pair_count bucket_count : ℕ) → Exec Files Verdict
      run_hash_collision pair_count bucket_count =
          let expected = order (expected_loop pair_count 0 []) in
          timed_test bucket_count (temporary ++ codes "/matrix-hash-collision.zdb")
            (put_all expected) (both_sizes >> index_stats) verification_failed expected

    module _ (temporary : Bytes) (picks : Picks) where
      unfoldable pub run_perf_large_values : (pair_count value_size : ℕ) → Exec Files Verdict
      run_perf_large_values pair_count value_size =
          let records = records_loop picks value_size pair_count 0 0 in
          timed_test 1_000_000 (temporary ++ codes "/matrix-large-values.zdb") (put_all records)
            both_sizes missing_or_incorrect records

      -- The first loop of `run_basic`, which puts each pair as it is made.
      unfoldable pub basic_loop : (rounds index taken_picks : ℕ) → Pairs → DbExec Pairs
      basic_loop zero index n expected = pure expected
      basic_loop (suc rounds) index n expected =
          let (suffix, n') = random_string picks n 12 in
          let (value, n'') = random_string picks n' 32 in
          let key = codes "key-" ++ (to_string index ++ (codes "-" ++ suffix)) in
          put crc key value >> basic_loop rounds (index + 1) n'' (emplace key value expected)

      unfoldable pub passed_or_fail : Option Bytes → Exec Files Verdict
      passed_or_fail none = remove_files >> pure passed
      passed_or_fail (some text) = pure (failed_with text)

      unfoldable pub run_basic : (order : Pairs → Pairs) → Exec Files Verdict
      run_basic order =
          let path = temporary ++ codes "/zidanedb-matrix-test.zdb" in
          (do
            remove_files
            expected ← in_database create 1_000_000 path (basic_loop 10_000 0 0 [])
            result ←
                in_database reopen_create 1_000_000 path
                  (reads (λ d. verify_loop missing_or_incorrect d (order expected)))
            passed_or_fail result)
